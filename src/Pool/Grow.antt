-- ===== src/Pool/Grow.antt =====
-- `xjr_mp_malloc_opt`: an allocation adds a block, or is refused for a reason.
use mathlib.Core.List.{append-nil}
use mathlib.Core.Path.{subst}
use xenonjs.Base.{
  ℕ, ◌+◌, ◌^◌, ◌≤◌, ◌<◌, List, [], ◌∷◌, ◌++◌, Bool, true, false, ok, ◌≡◌, refl, sym, ap, ◌∙◌, arith,
  length, inl, inr, ◌⊎◌, ltb, leb, Bool-cases, ltb→lt, leb→le, u32,
}
use xenonjs.Pool.{Access, urid_invalid, sub_new}
use xenonjs.Pool.Chain.{Block}
use xenonjs.Pool.Sweep.{AreDistinct}
use xenonjs.Pool.Union.{flatten, flatten-append, AreSubs-append, IsPool}
use xenonjs.Pool.Pools.{
  Pool, allocated, malloc_in_single_sub_pool, extend, malloc_extended, mp_malloc,
}
use xenonjs.Pool.Allocate.{AreUsedUp, malloc_in-Tried, leb-of_not_ltb, differs}
use xenonjs.Pool.Grown.{IsGrown, sub_new-IsSub, AllRefuse-last, IsAdded-IsGrown}

-- Why an allocation is refused.
abbrev pub IsNoRoom : Bool → Bool → Pool → List (List Block) → ℕ → Type 0
IsNoRoom struct_given base_given pool bss size =
    (4084 < size)
    ⊎ (AreUsedUp (flatten bss)
        ⊎ ((20 ≤ length pool.pools) ⊎ ((struct_given ≡ false) ⊎ (base_given ≡ false))))

-- A block is added, or nothing is, for a reason.
abbrev pub Allocates :
    Bool → Bool → Pool → List (List Block) → ℕ → Bool → Access (ℕ × Pool) → Type 0
Allocates struct_given base_given pool bss size managed m =
    ((r : ℕ) × (pool' : Pool) × (m ≡ ok (r, pool'))
      × (r < urid_invalid)
      × IsGrown bss r size managed pool')
    ⊎ ((pool' : Pool) × (bss' : List (List Block)) × (m ≡ ok (urid_invalid, pool'))
        × IsPool pool' bss'
        × (flatten bss' ≡ flatten bss)
        × IsNoRoom struct_given base_given pool bss size)

module _ (pool : Pool) (bss : List (List Block)) (size : ℕ) (managed : Bool) (i : IsPool pool bss)
    (fits : size ≤ 4090) (few : length (flatten bss) + 1 < 2 ^ 32) where
  extended_try :
      (length pool.pools < 20)
      → Allocates true true pool bss size managed (malloc_extended true true pool size managed)
  unfolding malloc_extended extend malloc_in_single_sub_pool
  extended_try room =
      let (s, new, is, free) = sub_new-IsSub in
      let more = pool.pools ++ (s ∷ []) in
      let blocks = bss ++ ([] ∷ []) in
      let same : flatten blocks ≡ flatten bss =
        flatten-append bss ([] ∷ []) ∙ append-nil (flatten bss) in
      let subs = AreSubs-append pool.pools (s ∷ []) bss ([] ∷ []) i.subs (is, tt) in
      let below : leb 20 (length pool.pools) ≡ false = ground arith in
      elim (malloc_in-Tried size managed (omega arith) [] more [] blocks tt subs) [
        | inl (r, pools', done, small, a) ↦ inl (
          r,
          allocated pools' pool,
          rw (below, new, done, differs r small) refl,
          small,
          IsAdded-IsGrown pool pool bss (flatten blocks) r size managed pools' i few refl same a,
        )
        | inr (done, why) ↦ inr (
          record pool { pools = more },
          blocks,
          rw (below, new, done) refl,
          record {
            subs = subs;
            distinct = subst AreDistinct (sym same) i.distinct;
            counted = i.counted ∙ ap length (sym same);
          },
          same,
          elim why [
            | inl used_up ↦ inr (inl (subst AreUsedUp same used_up))
            | inr all ↦ elim (AllRefuse-last size pool.pools s bss [] i.subs all) [
              | inl full ↦ inl (omega (arith, full, free))
              | inr (tight, _) ↦ inl (omega (arith, tight))
            ]
          ],
        )
      ]

  none_more :
      (struct_given base_given : Bool)
      → IsNoRoom struct_given base_given pool bss size
      → malloc_extended struct_given base_given pool size managed ≡ ok (urid_invalid, pool)
      → Allocates struct_given base_given pool bss size managed
          (malloc_extended struct_given base_given pool size managed)
  none_more struct_given base_given why done = inr (pool, bss, done, i, refl, why)

  extended_or_not :
      (struct_given base_given : Bool)
      → Allocates struct_given base_given pool bss size managed
          (malloc_extended struct_given base_given pool size managed)
  unfolding malloc_extended extend sub_new
  extended_or_not struct_given base_given = elim (Bool-cases (leb 20 (length pool.pools))) [
    | inl full ↦
        none_more struct_given base_given (inr (inr (inl (leb→le 20 (length pool.pools) full))))
          (rw full refl)
    | inr room ↦ given_or_not struct_given base_given room
  ]
    where
      given_or_not :
          (struct_given base_given : Bool)
          → leb 20 (length pool.pools) ≡ false
          → Allocates struct_given base_given pool bss size managed
              (malloc_extended struct_given base_given pool size managed)
      given_or_not true true room = extended_try (ground arith)
      given_or_not true false room =
          none_more true false (inr (inr (inr (inr refl)))) (rw room refl)
      given_or_not false base_given room =
          none_more false base_given (inr (inr (inr (inl refl)))) (rw room refl)

-- In a pool of blocks with different urids, an allocation of fewer than 2^32 - 6 bytes either
-- gives a valid urid that no block had, adds a block of that urid, of the size and mark asked for,
-- and keeps all others with their contents; or it gives the invalid one, keeps all blocks, and the
-- size is above 4084, or all urids are in use, or there are 20 sub pools, or the heap gives none.
pub mp_malloc-Allocates :
    (struct_given base_given : Bool) (pool : Pool) (bss : List (List Block)) (size : ℕ)
    (managed : Bool)
    → IsPool pool bss
    → size + 6 < 2 ^ 32
    → length (flatten bss) + 1 < 2 ^ 32
    → Allocates struct_given base_given pool bss size managed
        (mp_malloc struct_given base_given pool size managed)
unfolding mp_malloc malloc_in_single_sub_pool
mp_malloc-Allocates struct_given base_given pool bss size managed i small few =
    elim (Bool-cases (ltb 4096 (u32 (size + 6)))) [
      | inl large ↦ inr (
        pool,
        bss,
        rw large refl,
        i,
        refl,
        inl (omega (arith, ltb→lt 4096 (u32 (size + 6)) large)),
      )
      | inr fits ↦ elim (malloc_in-Tried size managed small [] pool.pools [] bss tt i.subs) [
        | inl (r, pools', done, below, a) ↦ inl (
          r,
          allocated pools' pool,
          rw (fits, done, differs r below) refl,
          below,
          IsAdded-IsGrown pool pool bss (flatten bss) r size managed pools' i few refl refl a,
        )
        | inr (done, why) ↦
            rw (fits, done)
              (extended_or_not pool bss size managed i
                (omega (arith, leb-of_not_ltb 4096 (u32 (size + 6)) fits)) few struct_given
                base_given)
      ]
    ]
