-- ===== src/Pool/Urids.antt =====
-- `xjr_mp_get_urid`: the way back from a pointer.
use mathlib.Core.Option.{some-injective}
use mathlib.Core.Path.{subst}
use xenonjs.Base.{
  ℕ, zero, suc, ◌+◌, ◌≤◌, ◌<◌, List, [], ◌∷◌, ◌++◌, false, Option, some, none, ok, ◌≡◌, ◌≢◌, refl,
  sym, ap, ◌∙◌, arith, get_elem?, ◌==◌, ==_iff, ◌&&◌, if◌then◌else◌,
}
use xenonjs.Pool.{Memory, SubPool, urid_invalid}
use xenonjs.Pool.SubPools.{search_from, ptr_test, sub_get_urid}
use xenonjs.Pool.Chain.{Block, IsSub, Seg, end, Seg-le}
use xenonjs.Pool.Found.{Found, few_blocks}
use xenonjs.Pool.Reads.{read_urid, first, search_from-first}
use xenonjs.Pool.Union.{AreSubs}
use xenonjs.Pool.Pools.{mp_get_urid}

abbrev urid_of : ℕ → ℕ × ℕ → Block → ℕ → Option ℕ
urid_of idx ptr b next = if (idx == ptr.0) && (b.at + 6 == ptr.1) then some b.urid else none

differ : (l k : ℕ) → l ≢ k → (l == k) ≡ false
differ l k ne = ground arith

search-first :
    (s : SubPool) (bs : List Block) (idx : ℕ) (ptr : ℕ × ℕ)
    → IsSub s bs
    → search_from 4096 (ptr_test idx ptr) s s.offset_begin ≡ ok (first (urid_of idx ptr) bs)
search-first s bs idx ptr i =
    ap (search_from 4096 (ptr_test idx ptr) s) i.begin_is
    ∙ search_from-first s bs (ptr_test idx ptr) (urid_of idx ptr) i
        (λ lo b rest seg.
          rw (read_urid s b seg.1 (omega (arith, Seg-le s.base (end b) rest 4090 seg.3))) refl)
        4096 0 bs i.seg (few_blocks s bs i)

-- No block of another sub pool is where the pointer is to.
first-elsewhere :
    (bs : List Block) (idx : ℕ) (ptr : ℕ × ℕ) → idx ≢ ptr.0 → first (urid_of idx ptr) bs ≡ none
unfolding first
first-elsewhere [] idx ptr ne = refl
first-elsewhere (b ∷ bs) idx ptr ne =
    rw (first, differ idx (ptr.0) ne) (first-elsewhere bs idx ptr ne)

lo-le :
    (m : Memory) (lo : ℕ) (front : List Block) (b : Block) (back : List Block) (stop : ℕ)
    → Seg m lo (front ++ (b ∷ back)) stop
    → lo ≤ b.at
lo-le m lo [] b back stop h = h.0
lo-le m lo (x ∷ front) b back stop h = omega (arith, h.0, lo-le m (end x) front b back stop h.3)

-- Blocks in front of a block are not where its contents are.
first-here :
    (m : Memory) (lo idx : ℕ) (front : List Block) (b : Block) (back : List Block) (stop : ℕ)
    → Seg m lo (front ++ (b ∷ back)) stop
    → first (urid_of idx (idx, b.at + 6)) (front ++ (b ∷ back)) ≡ some b.urid
unfolding first
first-here m lo idx [] b back stop h =
    rw (first, (==_iff idx idx).1 refl, (==_iff (b.at + 6) (b.at + 6)).1 refl) refl
first-here m lo idx (x ∷ front) b back stop h =
    let apart : x.at + 6 ≢ b.at + 6 =
      (λ e. absurd (omega (arith, e, lo-le m (end x) front b back stop h.3))) in
    rw (first, (==_iff idx idx).1 refl, differ (x.at + 6) (b.at + 6) apart)
      (first-here m (end x) idx front b back stop h.3)

here :
    (s : SubPool) (bs : List Block) (idx urid : ℕ) (f : Found urid bs)
    → IsSub s bs
    → sub_get_urid idx s (idx, f.block.at + 6) ≡ ok urid
unfolding sub_get_urid
here s bs idx urid f i =
    let hit =
      first-here s.base 0 idx f.front f.block f.back 4090
        (subst (λ t. Seg s.base 0 t 4090) f.blocks_are i.seg) in
    rw
      (search-first s bs idx (idx, f.block.at + 6) i
        ∙ ap (λ t. ok (first (urid_of idx (idx, f.block.at + 6)) t)) f.blocks_are
        ∙ ap ok hit)
      (ap ok f.urid_is)

elsewhere :
    (s : SubPool) (bs : List Block) (idx : ℕ) (ptr : ℕ × ℕ)
    → IsSub s bs
    → idx ≢ ptr.0
    → sub_get_urid idx s ptr ≡ ok urid_invalid
unfolding sub_get_urid
elsewhere s bs idx ptr i ne =
    rw (search-first s bs idx ptr i ∙ ap ok (first-elsewhere bs idx ptr ne)) refl

-- The pointer to the contents of a block leads back to its urid.
pub mp_get_urid-Found :
    (pools : List SubPool) (bss : List (List Block)) (idx k urid : ℕ) (bs : List Block)
    (f : Found urid bs)
    → AreSubs pools bss
    → get_elem? bss k ≡ some bs
    → urid < urid_invalid
    → mp_get_urid pools idx (idx + k, f.block.at + 6) ≡ ok urid
unfolding mp_get_urid
mp_get_urid-Found [] [] idx k urid bs f h e valid = absurd cc
mp_get_urid-Found [] (c ∷ bss) idx k urid bs f h e valid = absurd h
mp_get_urid-Found (s ∷ pools) [] idx k urid bs f h e valid = absurd h
mp_get_urid-Found (s ∷ pools) (c ∷ bss) idx zero urid bs f h e valid =
    let is = subst (IsSub s) (some-injective c bs e) h.0 in
    let at : idx + 0 ≡ idx = omega arith in
    rw
      (
        ap (λ n. sub_get_urid idx s (n, f.block.at + 6)) at ∙ here s bs idx urid f is,
        differ urid urid_invalid (omega (arith, valid)),
      )
      refl
mp_get_urid-Found (s ∷ pools) (c ∷ bss) idx (suc k) urid bs f h e valid =
    let later = mp_get_urid-Found pools bss (suc idx) k urid bs f h.1 e valid in
    let same : suc idx + k ≡ idx + suc k = omega arith in
    rw (elsewhere s c idx (idx + suc k, f.block.at + 6) h.0 (λ q. absurd (omega (arith, q))))
      (ap (λ n. mp_get_urid pools (suc idx) (n, f.block.at + 6)) (sym same) ∙ later)
