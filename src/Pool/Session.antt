-- ===== src/Pool/Session.antt =====
-- rts/src/xjr_mp.c: a new pool, and any calls of it.
use mathlib.Core.Path.{subst}
use xenonjs.Base.{
  ℕ, suc, ◌+◌, ◌^◌, ◌≤◌, ◌<◌, List, [], ◌∷◌, ◌++◌, map, Bool, true, some, ok, ◌>>=◌, ◌≡◌, ◌≢◌, refl,
  sym, ap, arith, length, length-append, length-map, inl, inr, All, All-append, u32, ◌-◌,
}
use xenonjs.Pool.{Access, urid_invalid}
use xenonjs.Pool.Chain.{Block}
use xenonjs.Pool.Found.{Absent}
use xenonjs.Pool.Mark.{with_mark}
use xenonjs.Pool.Sweep.{AreDistinct, AreDistinct-front}
use xenonjs.Pool.Union.{flatten, IsPool}
use xenonjs.Pool.Grown.{IsGrown, sub_new-IsSub}
use xenonjs.Pool.Grow.{mp_malloc-Allocates}
use xenonjs.Pool.Collect.{AreDistinct-append_back}
use xenonjs.Pool.Release.{mp_free-IsFreed}
use xenonjs.Pool.Marked.{survivors}
use xenonjs.Pool.Survivors.{collect, collect-survivors}
use xenonjs.Pool.Pools.{Pool, mp_malloc, mp_free, mp_new, pools_size_capacity, pools_size_free}

-- A call, with what the heap gives while it runs.
pub data Request : Type 0 where
  malloc : (struct_given base_given : Bool) (size : ℕ) (managed : Bool) → Request
  free : (urid : ℕ) → Request
  gc : (struct_given base_given : Bool) (urids : List ℕ) → Request

unfoldable pub call : Request → Pool → Access Pool
call (malloc struct_given base_given size managed) pool = do
  (urid, pool') ← mp_malloc struct_given base_given pool size managed
  ok pool'
call (free urid) pool = mp_free pool urid
call (gc struct_given base_given urids) pool = collect struct_given base_given urids pool

unfoldable pub run : List Request → Pool → Access Pool
run [] pool = ok pool
run (r ∷ rs) pool = do pool' ← call r pool; run rs pool'

-- What a call may do to the blocks of a pool.
pub data Does (bs bs' : List Block) : Request → Type 0 where
  allocates :
      {a b : Bool} {size : ℕ} {managed : Bool} (front back : List Block) (new : Block)
      → bs ≡ front ++ back
      → bs' ≡ front ++ (new ∷ back)
      → Absent new.urid bs
      → new.urid < urid_invalid
      → length new.body ≡ size
      → new.marked ≡ managed
      → Does bs bs' (malloc a b size managed)
  refuses :
      {a b : Bool} {size : ℕ} {managed : Bool} → bs' ≡ bs → Does bs bs' (malloc a b size managed)
  frees :
      {urid : ℕ} (front back : List Block) (old : Block)
      → bs ≡ front ++ (old ∷ back)
      → bs' ≡ front ++ back
      → old.urid ≡ urid
      → Does bs bs' (free urid)
  has_none : {urid : ℕ} → Absent urid bs → bs' ≡ bs → Does bs bs' (free urid)
  collects :
      {a b : Bool} {urids : List ℕ}
      → bs' ≡ map (with_mark true) (survivors urids bs)
      → Does bs bs' (gc a b urids)

-- What calls do, one after the other.
pub data Runs : List Request → List Block → List Block → Type 0 where
  done : {bs : List Block} → Runs [] bs bs
  more :
      {r : Request} {rs : List Request} {bs bs₁ bs' : List Block}
      → Does bs bs₁ r
      → Runs rs bs₁ bs'
      → Runs (r ∷ rs) bs bs'

-- The sum of a size and a header does not wrap.
abbrev pub IsSmall : Request → Type 0
IsSmall (malloc a b size managed) = size + 6 < 2 ^ 32
IsSmall (free urid) = Unit
IsSmall (gc a b urids) = Unit

length-survivors : (urids : List ℕ) (bs : List Block) → length (survivors urids bs) ≤ length bs
length-survivors urids [] = omega arith
length-survivors urids (b ∷ bs) = let rest = length-survivors urids bs in ground arith

length-Does : (r : Request) (bs bs' : List Block) → Does bs bs' r → length bs' ≤ suc (length bs)
length-Does r bs bs' (allocates front back new e e' absent valid size mark) = omega (
  arith,
  ap length e,
  ap length e',
  length-append {0} front back,
  length-append {0} front (new ∷ back),
)
length-Does r bs bs' (refuses e) = omega (arith, ap length e)
length-Does r bs bs' (frees front back old e e' u) = omega (
  arith,
  ap length e,
  ap length e',
  length-append {0} front back,
  length-append {0} front (old ∷ back),
)
length-Does r bs bs' (has_none absent e) = omega (arith, ap length e)
length-Does (gc a b urids) bs bs' (collects e) =
    let marked : length (map (with_mark true) (survivors urids bs)) ≡ length (survivors urids bs) =
      length-map (survivors urids bs) (with_mark true) in
    omega (arith, ap length e, marked, length-survivors urids bs)

IsGrown-allocates :
    (bss : List (List Block)) (a b : Bool) (r size : ℕ) (managed : Bool) (pool' : Pool)
    → r < urid_invalid
    → (g : IsGrown bss r size managed pool')
    → Does (flatten bss) (flatten g.blocks') (malloc a b size managed)
IsGrown-allocates bss a b r size managed pool' valid g =
    let distinct = subst AreDistinct g.blocks_are' g.is_pool.distinct in
    let unused =
      All-append (λ c. c.urid ≢ g.new.urid) g.front g.back
        (AreDistinct-front g.front g.new g.back distinct)
        (AreDistinct-append_back g.front (g.new ∷ g.back) distinct).0 in
    allocates g.front g.back g.new g.blocks_are g.blocks_are'
      (subst (Absent g.new.urid) (sym g.blocks_are) unused) (omega (arith, valid, g.urid_is))
      g.length_is g.marked_is

call-Does :
    (r : Request) (pool : Pool) (bss : List (List Block))
    → IsPool pool bss
    → IsSmall r
    → length (flatten bss) + 1 < 2 ^ 32
    → (pool' : Pool) × (bss' : List (List Block)) × (call r pool ≡ ok pool')
      × IsPool pool' bss'
      × Does (flatten bss) (flatten bss') r
unfolding call
call-Does (malloc a b size managed) pool bss i small few =
    elim (mp_malloc-Allocates a b pool bss size managed i small few) [
      | inl (r, pool', e, valid, g) ↦ (
        pool',
        g.blocks',
        rw e refl,
        g.is_pool,
        IsGrown-allocates bss a b r size managed pool' valid g,
      )
      | inr (pool', bss', e, is, same, why) ↦ (pool', bss', rw e refl, is, refuses same)
    ]
call-Does (free urid) pool bss i small few = elim (mp_free-IsFreed pool bss urid i (omega arith)) [
  | inl (e, absent) ↦ (pool, bss, e, i, has_none absent refl)
  | inr (pool', e, f, is) ↦
      (pool', f.blocks', e, is, frees f.front f.back f.block f.blocks_are f.blocks_are' f.urid_is)
]
call-Does (gc a b urids) pool bss i small few =
    let (pool', bss', e, is, left) = collect-survivors a b urids pool bss i (omega arith) in
    (pool', bss', e, is, collects left)

run-Runs :
    (rs : List Request) (pool : Pool) (bss : List (List Block))
    → IsPool pool bss
    → All IsSmall rs
    → length (flatten bss) + length rs < 2 ^ 32
    → (pool' : Pool) × (bss' : List (List Block)) × (run rs pool ≡ ok pool')
      × IsPool pool' bss'
      × Runs rs (flatten bss) (flatten bss')
unfolding run
run-Runs [] pool bss i small few = (pool, bss, refl, i, done)
run-Runs (r ∷ rs) pool bss i small few =
    let (pool₁, bss₁, e₁, i₁, step) = call-Does r pool bss i small.0 (omega arith) in
    let more_blocks = length-Does r (flatten bss) (flatten bss₁) step in
    let (pool₂, bss₂, e₂, i₂, steps) =
      run-Runs rs pool₁ bss₁ i₁ small.1 (omega (arith, few, more_blocks)) in
    (pool₂, bss₂, rw e₁ e₂, i₂, more step steps)

-- Where the heap has memory a new pool is made, and any fewer than 2^32 calls of it, the
-- allocations of fewer than 2^32 - 6 bytes, return, whatever the heap gives while they run; at the
-- end it is a pool of blocks with different urids, as many as it counts, and these are what the
-- calls do, one after the other, to a list of blocks that is empty at first, as `Does` says.
pub mp_new-Runs :
    (rs : List Request)
    → All IsSmall rs
    → length rs < 2 ^ 32
    → (pool : Pool) × (pool' : Pool) × (bss' : List (List Block)) × (mp_new true true true
        ≡ ok (some pool))
      × (run rs pool ≡ ok pool')
      × IsPool pool' bss'
      × Runs rs [] (flatten bss')
unfolding mp_new
mp_new-Runs rs small few =
    let (s, e, is, free_is) = sub_new-IsSub in
    let capacity = pools_size_capacity (s ∷ []) in
    let usage = u32 (capacity + 2 ^ 32 - pools_size_free (s ∷ [])) in
    let pool : Pool = record {
      pools = s ∷ [];
      size_usage = usage;
      size_capacity = capacity;
      num_allocated_blocks = 0;
      size_usage_peak = usage;
      size_capacity_peak = capacity;
      num_allocated_blocks_peak = 0;
    } in
    let i : IsPool pool ([] ∷ []) = record { subs = (is, tt); distinct = tt; counted = refl } in
    let (pool', bss', ran, i', runs) = run-Runs rs pool ([] ∷ []) i small (omega arith) in
    (pool, pool', bss', rw e refl, ran, i', runs)
