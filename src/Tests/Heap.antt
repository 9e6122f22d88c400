-- ===== src/Tests/Heap.antt =====
-- The theorems on the memory pool at a pool with two blocks.
use xenonjs.Base.{
  ◌<◌, ℕ, ◌+◌, List, [], ◌∷◌, map, some, none, ok, true, false, ◌≡◌, ◌⊎◌, refl, arith,
}
use xenonjs.Pool.{urid_invalid, Memory, SubPool, put}
use xenonjs.Pool.Chain.{Block, IsSub}
use xenonjs.Pool.Found.{Absent}
use xenonjs.Pool.Mark.{with_mark}
use xenonjs.Pool.Union.{flatten, IsPool}
use xenonjs.Pool.Pools.{Pool, mp_malloc, mp_get_ptr, mp_new}
use xenonjs.Pool.Grow.{Allocates, mp_malloc-Allocates}
use xenonjs.Pool.Release.{Points, mp_get_ptr-Points}
use xenonjs.Pool.Usable.{IsUsable, mp_malloc-IsUsable}
use xenonjs.Pool.Marked.{survivors}
use xenonjs.Pool.Session.{Request, malloc, free, gc, run, Runs, mp_new-Runs}
use xenonjs.Pool.Survivors.{collect, collect-survivors}

-- A block of one byte at the start, one of no bytes at offset 16, and the final block.
abbrev memory : Memory
memory =
    put
      (put
        (put
          (put (put (put (put (put (put (λ i. 0) 4090 0x3FFE) 4092 0) 4094 0x3FFF) 0 5) 2 1) 4 16)
          16 6)
        18 0)
      20 4090

abbrev blocks : List Block
blocks =
    record { at = 0; urid = 5; marked = false; body = 0 ∷ [] }
    ∷ record { at = 16; urid = 6; marked = false; body = [] }
    ∷ []

abbrev sub : SubPool
sub = record { base = memory; size_free = 4077; size_capacity = 4096; offset_begin = 0 }

sub-IsSub : IsSub sub blocks
unfolding put
sub-IsSub = record {
  capacity_is = refl;
  begin_is = refl;
  seg = (
    omega arith,
    record { tag_is = refl; size_is = refl; body_is = refl; urid_small = omega arith },
    refl,
    (
      omega arith,
      record { tag_is = refl; size_is = refl; body_is = refl; urid_small = omega arith },
      refl,
      omega arith,
    ),
  );
  final_tag = refl;
  final_size = refl;
  final_next = refl;
  free_is = refl;
}

abbrev pool : Pool
pool = record {
  pools = sub ∷ [];
  size_usage = 19;
  size_capacity = 4096;
  num_allocated_blocks = 2;
  size_usage_peak = 19;
  size_capacity_peak = 4096;
  num_allocated_blocks_peak = 2;
}

pool-IsPool : IsPool pool (blocks ∷ [])
pool-IsPool = record {
  subs = (sub-IsSub, tt);
  distinct = ((λ e. absurd (omega (arith, e)), tt), (tt, tt));
  counted = refl;
}

mp_malloc-Allocates_example :
    Allocates true true pool (blocks ∷ []) 12 true (mp_malloc true true pool 12 true)
mp_malloc-Allocates_example =
    mp_malloc-Allocates true true pool (blocks ∷ []) 12 true pool-IsPool (omega arith) (omega arith)

mp_get_ptr-Points_example :
    ((mp_get_ptr pool.pools 0 6 ≡ ok none) × Absent 6 (flatten (blocks ∷ [])))
    ⊎ ((k : ℕ) × (offset : ℕ) × (mp_get_ptr pool.pools 0 6 ≡ ok (some (0 + k, offset)))
        × Points pool.pools (blocks ∷ []) 6 k offset)
mp_get_ptr-Points_example = mp_get_ptr-Points pool.pools (blocks ∷ []) 0 6 (sub-IsSub, tt)

collect-survivors_example :
    (pool' : Pool) × (bss' : List (List Block)) × (collect true true (6 ∷ []) pool ≡ ok pool')
    × IsPool pool' bss'
    × (flatten bss' ≡ map (with_mark true) (survivors (6 ∷ []) (flatten (blocks ∷ []))))
collect-survivors_example =
    collect-survivors true true (6 ∷ []) pool (blocks ∷ []) pool-IsPool (omega arith)

mp_malloc-IsUsable_example :
    (urid : ℕ) × (pool' : Pool) × (mp_malloc true true pool 12 true ≡ ok (urid, pool'))
    × (urid < urid_invalid)
    × IsUsable pool' urid 12
mp_malloc-IsUsable_example =
    mp_malloc-IsUsable pool (blocks ∷ []) 12 true pool-IsPool (omega arith) (omega arith)
      (omega arith)

-- Two blocks, a release of the first, a large block, and a collection that keeps it.
abbrev requests : List Request
requests =
    malloc true true 12 true
    ∷ malloc true true 40 false
    ∷ free 0
    ∷ malloc true true 4080 true
    ∷ gc true true (0 ∷ [])
    ∷ []

mp_new-Runs_example :
    (new : Pool) × (pool' : Pool) × (bss' : List (List Block)) × (mp_new true true true
      ≡ ok (some new))
    × (run requests new ≡ ok pool')
    × IsPool pool' bss'
    × Runs requests [] (flatten bss')
mp_new-Runs_example =
    mp_new-Runs requests (omega arith, (omega arith, (tt, (omega arith, (tt, tt))))) (omega arith)
