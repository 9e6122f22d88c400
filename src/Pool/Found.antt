-- ===== src/Pool/Found.antt =====
-- The block that a urid stands for.
use xenonjs.Base.{
  ℕ, ◌≤◌, ◌<◌, List, [], ◌∷◌, ◌++◌, Option, none, some, ok, ◌≡◌, ◌≢◌, refl, ap, ◌∙◌, arith, length,
  if◌then◌else◌, ◌==◌, ==_iff, Bool-cases, inl, inr, ◌⊎◌, All, false,
}
use xenonjs.Pool.{SubPool}
use xenonjs.Pool.SubPools.{search_from, urid_test, block_get_by_urid}
use xenonjs.Pool.Chain.{Block, end, used, IsSub, Seg-le}
use xenonjs.Pool.Reads.{read_urid, first, search_from-first}

-- No block has the urid.
abbrev pub Absent : ℕ → List Block → Type 0
Absent urid = All (λ b. b.urid ≢ urid)

-- The first block that has it, and the blocks around.
pub record Found (urid : ℕ) (bs : List Block) : Type 0 where
  pub front : List Block
  pub block : Block
  pub back : List Block
  pub blocks_are : bs ≡ front ++ (block ∷ back)
  pub urid_is : block.urid ≡ urid
  pub absent : Absent urid front

abbrev pub urid_at : ℕ → Block → ℕ → Option ℕ
urid_at urid b next = if b.urid == urid then some b.at else none

pub length-le-used : (bs : List Block) → length bs ≤ used bs
length-le-used [] = omega arith
length-le-used (b ∷ bs) = omega (arith, length-le-used bs)

pub few_blocks : (s : SubPool) (bs : List Block) → IsSub s bs → length bs < 4096
few_blocks s bs i = omega (arith, length-le-used bs, i.free_is)

pub block_get_by_urid-first :
    (s : SubPool) (bs : List Block) (urid : ℕ)
    → IsSub s bs
    → block_get_by_urid s urid ≡ ok (first (urid_at urid) bs)
unfolding block_get_by_urid
block_get_by_urid-first s bs urid i =
    ap (search_from 4096 (urid_test urid) s) i.begin_is
    ∙ search_from-first s bs (urid_test urid) (urid_at urid) i
        (λ lo b rest seg.
          rw (read_urid s b seg.1 (omega (arith, Seg-le s.base (end b) rest 4090 seg.3))) refl)
        4096 0 bs i.seg (few_blocks s bs i)

pub urid-cases :
    (urid : ℕ) (bs : List Block)
    → ((first (urid_at urid) bs ≡ none) × Absent urid bs)
      ⊎ ((f : Found urid bs) × (first (urid_at urid) bs ≡ some f.block.at))
unfolding first
urid-cases urid [] = inl (refl, tt)
urid-cases urid (b ∷ bs) = elim (Bool-cases (b.urid == urid)) [
  | inl same ↦ inr (
    record {
      front = [];
      block = b;
      back = bs;
      blocks_are = refl;
      urid_is = (==_iff b.urid urid).0 same;
      absent = tt;
    },
    rw (first, same) refl,
  )
  | inr other ↦
      let ne : b.urid ≢ urid = λ e. differ b.urid urid e other in
      elim (urid-cases urid bs) [
        | inl (e, a) ↦ inl (rw (first, other) e, (ne, a))
        | inr (f, e) ↦ inr (
          record {
            front = b ∷ f.front;
            block = f.block;
            back = f.back;
            blocks_are = ap (λ t. b ∷ t) f.blocks_are;
            urid_is = f.urid_is;
            absent = (ne, f.absent);
          },
          rw (first, other) e,
        )
      ]
]
  where
    differ : (l k : ℕ) → l ≡ k → ¬ ((l == k) ≡ false)
    differ l k same other = let equal = (==_iff l k).1 same in cc
