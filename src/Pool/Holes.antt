-- ===== src/Pool/Holes.antt =====
-- The holes between blocks.
use xenonjs.Base.{
  ℕ, ◌+◌, ◌-◌, ◌^◌, ◌≤◌, ◌<◌, List, [], ◌∷◌, ◌++◌, Option, none, some, ok, ◌≡◌, refl, ap, ◌∙◌,
  arith, if◌then◌else◌, leb, leb→le, false, Bool-cases, inl, inr, ◌⊎◌, u32, u16,
}
use xenonjs.Pool.{SubPool}
use xenonjs.Pool.SubPools.{search_from, hole_test, allocate_space}
use xenonjs.Pool.Chain.{Block, end, IsSub, start_or, Seg, Seg-le, Seg-start}
use xenonjs.Pool.Reads.{read_size, read_next, first, search_from-first}
use xenonjs.Pool.Found.{few_blocks}

-- A block behind which there is room for one of `size` bytes, the first of its kind.
pub record Hole (size : ℕ) (bs : List Block) : Type 0 where
  pub front : List Block
  pub block : Block
  pub back : List Block
  pub blocks_are : bs ≡ front ++ (block ∷ back)
  pub room : end block + (size + 6) ≤ start_or back 4090

-- There is no room behind any block.
abbrev pub IsTight : ℕ → List Block → Type 0
IsTight size [] = Unit
IsTight size (b ∷ bs) = (start_or bs 4090 < end b + (size + 6)) × IsTight size bs

abbrev pub hole_at : ℕ → Block → ℕ → Option ℕ
hole_at size b next = if leb (size + 6) (next - end b) then some b.at else none

pub leb-false : (a b : ℕ) → leb a b ≡ false → b < a
leb-false a b h = ground arith

hole_test-hole_at :
    (s : SubPool) (size : ℕ)
    → size + 6 < 2 ^ 32
    → (lo : ℕ) (b : Block) (bs : List Block) → Seg s.base lo (b ∷ bs) 4090
    → hole_test size s b.at ≡ ok (hole_at size b (start_or bs 4090))
hole_test-hole_at s size small lo b bs seg =
    let inside : end b ≤ 4090 = omega (arith, Seg-le s.base (end b) bs 4090 seg.3) in
    let next = Seg-start s.base (end b) bs 4090 seg.3 in
    rw (read_size s b seg.1 inside, read_next s b seg.1 inside (start_or bs 4090) seg.2)
      (ap ok (same (start_or bs 4090) (end b) (size + 6) next.0 next.1 small))
  where
    same :
        (next at wanted : ℕ)
        → at ≤ next
        → next ≤ 4090
        → wanted < 2 ^ 32
        → (if leb (u32 wanted) (u16 (next + 2 ^ 16 - u16 at)) then some b.at else none)
          ≡ (if leb wanted (next - at) then some b.at else none)
    same next at wanted h k l = ground arith

pub allocate_space-first :
    (s : SubPool) (bs : List Block) (size : ℕ)
    → IsSub s bs
    → size + 6 < 2 ^ 32
    → allocate_space s size ≡ ok (first (hole_at size) bs)
unfolding allocate_space
allocate_space-first s bs size i small =
    ap (search_from 4096 (hole_test size) s) i.begin_is
    ∙ search_from-first s bs (hole_test size) (hole_at size) i (hole_test-hole_at s size small) 4096
        0 bs i.seg (few_blocks s bs i)

pub Hole-cases :
    (size : ℕ) (bs : List Block)
    → ((first (hole_at size) bs ≡ none) × IsTight size bs)
      ⊎ ((h : Hole size bs) × (first (hole_at size) bs ≡ some h.block.at))
unfolding first
Hole-cases size [] = inl (refl, tt)
Hole-cases size (b ∷ bs) = elim (Bool-cases (leb (size + 6) (start_or bs 4090 - end b))) [
  | inl room ↦ inr (
    record {
      front = [];
      block = b;
      back = bs;
      blocks_are = refl;
      room = omega (arith, leb→le (size + 6) (start_or bs 4090 - end b) room);
    },
    rw (first, room) refl,
  )
  | inr tight ↦ elim (Hole-cases size bs) [
    | inl (e, t) ↦ inl (
      rw (first, tight) e,
      (omega (arith, leb-false (size + 6) (start_or bs 4090 - end b) tight), t),
    )
    | inr (h, e) ↦ inr (
      record {
        front = b ∷ h.front;
        block = h.block;
        back = h.back;
        blocks_are = ap (λ t. b ∷ t) h.blocks_are;
        room = h.room;
      },
      rw (first, tight) e,
    )
  ]
]
