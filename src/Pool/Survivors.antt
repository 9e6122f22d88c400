-- ===== src/Pool/Survivors.antt =====
-- rts/src/xjr_mp.c: a whole collection, as rts/src/xjr_gc.c runs it: the marks of all blocks are
-- cleared, the blocks that are in use are marked, and the others are swept.
use mathlib.Core.Path.{subst}
use xenonjs.Base.{
  ℕ, ◌+◌, ◌-◌, ◌^◌, ◌<◌, List, [], ◌∷◌, map, Bool, true, false, ok, ◌>>=◌, ◌≡◌, refl, sym, ap, ◌∙◌,
  arith, length, length-map, u32,
}
use xenonjs.Pool.{Access}
use xenonjs.Pool.Chain.{Block}
use xenonjs.Pool.Mark.{with_mark}
use xenonjs.Pool.Sweep.{AreDistinct, kept}
use xenonjs.Pool.Union.{flatten, IsPool}
use xenonjs.Pool.Collect.{touch, clear_all-AreSubs, flatten-map, mark_in-AreSubs}
use xenonjs.Pool.Collected.{flatten-kept, sweep_all-AreSubs, trim-AreSubs}
use xenonjs.Pool.Pools.{Pool, with_sizes, mp_clear, mp_mark, mp_sweep}
use xenonjs.Pool.Marked.{
  survivors, marks, length-marks, kept-marks, AreDistinct-map, touch-urid, AreDistinct-kept,
}

-- The calls of `xjr_gc_mark_urid`.
unfoldable pub mark_all : List ℕ → Pool → Access Pool
mark_all [] pool = ok pool
mark_all (urid ∷ urids) pool = do (marked, pool') ← mp_mark pool urid; mark_all urids pool'

-- `xjr_gc`, where the marking meets the blocks of `urids`.
unfoldable pub collect : Bool → Bool → List ℕ → Pool → Access Pool
collect struct_given base_given urids pool = do
  cleared ← mp_clear pool
  in_use ← mark_all urids cleared
  mp_sweep struct_given base_given in_use

mp_clear-IsPool :
    (pool : Pool) (bss : List (List Block))
    → IsPool pool bss
    → (pool' : Pool) × (bss' : List (List Block)) × (mp_clear pool ≡ ok pool')
      × IsPool pool' bss'
      × (flatten bss' ≡ map (with_mark false) (flatten bss))
unfolding mp_clear
mp_clear-IsPool pool bss i =
    let (pools', done, are) = clear_all-AreSubs pool.pools bss i.subs in
    let flat = flatten-map (with_mark false) bss in
    (
      record pool { pools = pools' },
      map (map (with_mark false)) bss,
      rw done refl,
      record {
        subs = are;
        distinct =
            subst AreDistinct (sym flat)
              (AreDistinct-map (with_mark false) (λ b. refl) (flatten bss) i.distinct);
        counted = i.counted ∙ sym (ap length flat ∙ length-map (flatten bss) (with_mark false));
      },
      flat,
    )

mark_all-IsPool :
    (urids : List ℕ) (pool : Pool) (bss : List (List Block))
    → IsPool pool bss
    → (pool' : Pool) × (bss' : List (List Block)) × (mark_all urids pool ≡ ok pool')
      × IsPool pool' bss'
      × (flatten bss' ≡ marks urids (flatten bss))
unfolding mark_all mp_mark
mark_all-IsPool [] pool bss i = (pool, bss, refl, i, refl)
mark_all-IsPool (u ∷ urids) pool bss i =
    let (m, pools', bss', done, are, flat) = mark_in-AreSubs pool.pools bss u i.subs i.distinct in
    let marked : IsPool (record pool { pools = pools' }) bss' = record {
      subs = are;
      distinct =
          subst AreDistinct (sym flat)
            (AreDistinct-map (touch u) (touch-urid u) (flatten bss) i.distinct);
      counted = i.counted ∙ sym (ap length flat ∙ length-map (flatten bss) (touch u));
    } in
    let (pool₂, bss₂, later, i₂, flat₂) =
      mark_all-IsPool urids (record pool { pools = pools' }) bss' marked in
    (pool₂, bss₂, rw done later, i₂, flat₂ ∙ ap (marks urids) flat)

mp_sweep-IsPool :
    (a b : Bool) (pool : Pool) (bss : List (List Block))
    → IsPool pool bss
    → length (flatten bss) < 2 ^ 32
    → (pool' : Pool) × (bss' : List (List Block)) × (mp_sweep a b pool ≡ ok pool')
      × IsPool pool' bss'
      × (flatten bss' ≡ kept (flatten bss))
unfolding mp_sweep with_sizes
mp_sweep-IsPool a b pool bss i few =
    let (count, swept, done, are, sum) = sweep_all-AreSubs pool.pools bss i.subs i.distinct in
    let (pools', bss', trim, are', flat) = trim-AreSubs a b swept (map kept bss) are in
    let all = flat ∙ flatten-kept bss in
    (
      record (with_sizes pools' pool) {
        num_allocated_blocks = u32 (pool.num_allocated_blocks + 2 ^ 32 - count);
      },
      bss',
      rw (done, trim) refl,
      record {
        subs = are';
        distinct = subst AreDistinct (sym all) (AreDistinct-kept (flatten bss) i.distinct);
        counted = omega (arith, sum, i.counted, few, ap length flat);
      },
      all,
    )

-- In a pool of fewer than 2^32 blocks with different urids, a collection that marks the urids of a
-- list leaves just the blocks that have one of them, in their order, marked and with their
-- contents, and the pool counts them.
pub collect-survivors :
    (struct_given base_given : Bool) (urids : List ℕ) (pool : Pool) (bss : List (List Block))
    → IsPool pool bss
    → length (flatten bss) < 2 ^ 32
    → (pool' : Pool) × (bss' : List (List Block)) × (collect struct_given base_given urids pool
        ≡ ok pool')
      × IsPool pool' bss'
      × (flatten bss' ≡ map (with_mark true) (survivors urids (flatten bss)))
unfolding collect
collect-survivors struct_given base_given urids pool bss i few =
    let (pool₁, bss₁, clear, i₁, flat₁) = mp_clear-IsPool pool bss i in
    let (pool₂, bss₂, marking, i₂, flat₂) = mark_all-IsPool urids pool₁ bss₁ i₁ in
    let cleared : length (map (with_mark false) (flatten bss)) ≡ length (flatten bss) =
      length-map (flatten bss) (with_mark false) in
    let few₂ : length (flatten bss₂) < 2 ^ 32 =
      omega (
        arith,
        few,
        ap length flat₂,
        length-marks urids (flatten bss₁),
        ap length flat₁,
        cleared,
      ) in
    let (pool₃, bss₃, sweep, i₃, flat₃) =
      mp_sweep-IsPool struct_given base_given pool₂ bss₂ i₂ few₂ in
    (
      pool₃,
      bss₃,
      rw (clear, marking) sweep,
      i₃,
      flat₃ ∙ ap kept (flat₂ ∙ ap (marks urids) flat₁) ∙ kept-marks urids (flatten bss),
    )
