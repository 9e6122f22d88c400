-- ===== src/Pool/Usable.antt =====
-- rts/src/xjr_mp.c: an allocation in a pool that has room, and the pointer to what it gives.
use mathlib.Core.Option.{some-injective}
use mathlib.Core.Path.{subst}
use xenonjs.Base.{
  ◌+◌, ℕ, zero, suc, ◌≤◌, ◌<◌, List, [], ◌∷◌, ◌++◌, Bool, true, Option, some, none, ok, ◌≡◌, ◌≢◌,
  sym, ap, ◌∙◌, arith, length, length-append, inl, inr, All, All-append, get_elem?, false,
}
use xenonjs.Pool.{urid_invalid}
use xenonjs.Pool.Chain.{Block}
use xenonjs.Pool.Found.{Absent, urid-cases}
use xenonjs.Pool.Sweep.{AreDistinct, AreDistinct-front}
use xenonjs.Pool.Union.{flatten, IsPool, Absent-append_back}
use xenonjs.Pool.Urids.{mp_get_urid-Found}
use xenonjs.Pool.Pools.{Pool, mp_malloc, mp_get_ptr, mp_get_urid}
use xenonjs.Pool.Grow.{mp_malloc-Allocates}
use xenonjs.Pool.Grown.{IsGrown}
use xenonjs.Pool.Collect.{AreDistinct-append_back}
use xenonjs.Pool.Release.{Points, mp_get_ptr-Points}

Absent-insert :
    (urid : ℕ) (front : List Block) (b : Block) (back : List Block)
    → Absent urid (front ++ back)
    → b.urid ≢ urid
    → Absent urid (front ++ (b ∷ back))
Absent-insert urid [] b back h ne = (ne, h)
Absent-insert urid (x ∷ front) b back h ne = (h.0, Absent-insert urid front b back h.1 ne)

-- So many urids are in as many blocks at least.
length-AreUsedUp : (n : ℕ) (bs : List Block) → ((u : ℕ) → u < n → ¬ Absent u bs) → n ≤ length bs
length-AreUsedUp zero bs used_up = omega arith
length-AreUsedUp (suc n) bs used_up = elim (urid-cases n bs) [
  | inl (e, absent) ↦ absurd (used_up n (omega arith) absent)
  | inr (f, e) ↦
      let rest : (u : ℕ) → u < n → ¬ Absent u (f.front ++ f.back) = (λ u below absent.
        used_up u (omega (arith, below)) (
          subst (Absent u) (sym f.blocks_are) (
            Absent-insert u f.front f.block f.back absent
              (λ same. absurd (omega (arith, below, same, f.urid_is)))))) in
      let few = length-AreUsedUp n (f.front ++ f.back) rest in
      omega (
        arith,
        few,
        ap length f.blocks_are,
        length-append {0} f.front (f.block ∷ f.back),
        length-append {0} f.front f.back,
      )
]

-- A block of the urid has the size.
abbrev Sized : ℕ → ℕ → Block → Type 0
Sized urid size b = b.urid ≡ urid → length b.body ≡ size

Sized-Absent : (urid size : ℕ) (bs : List Block) → Absent urid bs → All (Sized urid size) bs
Sized-Absent urid size [] h = tt
Sized-Absent urid size (b ∷ bs) h = (λ e. absurd (h.0 e), Sized-Absent urid size bs h.1)

-- What holds of all blocks holds of those of one sub pool.
All-get_elem? :
    (P : Block → Type 0) (bss : List (List Block)) (idx : ℕ) (bs : List Block)
    → All P (flatten bss)
    → get_elem? bss idx ≡ some bs
    → All P bs
All-get_elem? P [] idx bs h e = absurd (none-some e)
  where
    none-some : ¬ (◌≡◌ {A = Option (List Block)} none (some bs))
    none-some e' = cc
All-get_elem? P (c ∷ bss) zero bs h e =
    subst (All P) (some-injective c bs e) (front c (flatten bss) h)
  where
    front : (xs ys : List Block) → All P (xs ++ ys) → All P xs
    front [] ys k = tt
    front (x ∷ xs) ys k = (k.0, front xs ys k.1)
All-get_elem? P (c ∷ bss) (suc idx) bs h e = All-get_elem? P bss idx bs (back c (flatten bss) h) e
  where
    back : (xs ys : List Block) → All P (xs ++ ys) → All P ys
    back [] ys k = k
    back (x ∷ xs) ys k = back xs ys k.1

-- What a caller gets: a urid whose pointer is to `size` bytes of one sub pool, and leads back.
pub record IsUsable (pool : Pool) (urid size : ℕ) : Type 0 where
  pub bss : List (List Block)
  pub is_pool : IsPool pool bss
  pub idx : ℕ
  pub offset : ℕ
  pub ptr_is : mp_get_ptr pool.pools 0 urid ≡ ok (some (idx, offset))
  pub urid_is : mp_get_urid pool.pools 0 (idx, offset) ≡ ok urid
  pub points : Points pool.pools bss urid idx offset
  pub length_is : length points.found.block.body ≡ size

Sized-IsGrown :
    (bss : List (List Block)) (urid size : ℕ) (managed : Bool) (pool' : Pool)
    → (g : IsGrown bss urid size managed pool') → All (Sized urid size) (flatten g.blocks')
Sized-IsGrown bss urid size managed pool' g =
    let distinct = subst AreDistinct g.blocks_are' g.is_pool.distinct in
    let before =
      subst (λ u. Absent u g.front) g.urid_is (AreDistinct-front g.front g.new g.back distinct) in
    let behind =
      subst (λ u. Absent u g.back) g.urid_is
        (AreDistinct-append_back g.front (g.new ∷ g.back) distinct).0 in
    subst (All (Sized urid size)) (sym g.blocks_are') (
      All-append (Sized urid size) g.front (g.new ∷ g.back) (Sized-Absent urid size g.front before)
        (λ e. g.length_is, Sized-Absent urid size g.back behind))

IsGrown-IsUsable :
    (bss : List (List Block)) (urid size : ℕ) (managed : Bool) (pool' : Pool)
    → IsGrown bss urid size managed pool'
    → urid < urid_invalid
    → IsUsable pool' urid size
IsGrown-IsUsable bss urid size managed pool' g valid =
    elim (mp_get_ptr-Points pool'.pools g.blocks' 0 urid g.is_pool.subs) [
      | inl (e, absent) ↦ absurd (
          (Absent-append_back urid g.front (g.new ∷ g.back)
              (subst (Absent urid) g.blocks_are' absent)).0
            g.urid_is)
      | inr (k, offset, e, p) ↦
          let sized = subst (All (Sized urid size)) p.found.blocks_are (
            All-get_elem? (Sized urid size) g.blocks' k p.blocks
              (Sized-IsGrown bss urid size managed pool' g) p.blocks_are) in
          let from_zero : k ≡ 0 + k = omega arith in
          record {
            bss = g.blocks';
            is_pool = g.is_pool;
            idx = k;
            offset = offset;
            ptr_is = e ∙ ap (λ n. ok (some (n, offset))) (omega arith);
            urid_is =
                ap (λ t. mp_get_urid pool'.pools 0 (k, t)) p.offset_is
                ∙ ap (λ n. mp_get_urid pool'.pools 0 (n, p.found.block.at + 6)) from_zero
                ∙ mp_get_urid-Found pool'.pools g.blocks' 0 k urid p.blocks p.found g.is_pool.subs
                    p.blocks_are valid;
            points = p;
            length_is = behind p.found.front p.found.block p.found.back sized p.found.urid_is;
          }
    ]
  where
    behind :
        (xs : List Block) (b : Block) (ys : List Block)
        → All (Sized urid size) (xs ++ (b ∷ ys))
        → Sized urid size b
    behind [] b ys h = h.0
    behind (x ∷ xs) b ys h = behind xs b ys h.1

-- Where the heap has memory, in a pool of fewer than 16383 blocks with different urids, in fewer
-- than 20 sub pools, an allocation of at most 4084 bytes gives a valid urid, and the pointer for
-- that urid is to as many bytes inside one sub pool, and leads back to the urid.
pub mp_malloc-IsUsable :
    (pool : Pool) (bss : List (List Block)) (size : ℕ) (managed : Bool)
    → IsPool pool bss
    → size ≤ 4084
    → length pool.pools < 20
    → length (flatten bss) < urid_invalid
    → (urid : ℕ) × (pool' : Pool) × (mp_malloc true true pool size managed ≡ ok (urid, pool'))
      × (urid < urid_invalid)
      × IsUsable pool' urid size
mp_malloc-IsUsable pool bss size managed i small slots few =
    elim (mp_malloc-Allocates true true pool bss size managed i (omega arith) (omega arith)) [
      | inl (urid, pool', done, valid, g) ↦
          (urid, pool', done, valid, IsGrown-IsUsable bss urid size managed pool' g valid)
      | inr (pool', bss', done, is, same, why) ↦ elim why [
        | inl large ↦ absurd (omega (arith, large))
        | inr (inl used_up) ↦
            absurd (omega (arith, length-AreUsedUp urid_invalid (flatten bss) used_up))
        | inr (inr (inl full)) ↦ absurd (omega (arith, full))
        | inr (inr (inr (inl h))) ↦ absurd (true-false h)
        | inr (inr (inr (inr h))) ↦ absurd (true-false h)
      ]
    ]
  where
    true-false : ¬ (true ≡ false)
    true-false h = cc
