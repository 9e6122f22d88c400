-- ===== src/Pool/Pools.antt =====
-- rts/src/xjr_mp.c: the operations of the pool. The callbacks that record allocations are left
-- out, and the answers of the heap's callback are given.
use xenonjs.Base.{
  ℕ, zero, suc, ◌+◌, ◌-◌, ◌^◌, List, [], ◌∷◌, ◌++◌, Bool, true, false, Option, none, some, ok,
  ◌>>=◌, ltb, leb, ◌==◌, not, if◌then◌else◌, u32, length,
}
use xenonjs.Pool.{Access, sub_mp_size, header_size, urid_invalid, SubPool, is_empty, sub_new}
use xenonjs.Pool.SubPools.{
  allocate_urid_try, malloc_with_urid, sub_free, sub_get_ptr, sub_get_urid, sub_clear, sub_mark,
  sub_sweep,
}

-- XJR_SUB_MP_MAX_NUM
abbrev pub sub_mp_max_num : ℕ
sub_mp_max_num = 20

-- The sub pools in use, of the slots for them, and the figures that are kept.
pub record Pool : Type 0 where
  pub pools : List SubPool
  pub size_usage : ℕ
  pub size_capacity : ℕ
  pub num_allocated_blocks : ℕ
  pub size_usage_peak : ℕ
  pub size_capacity_peak : ℕ
  pub num_allocated_blocks_peak : ℕ

unfoldable pub pools_size_free : List SubPool → ℕ
pools_size_free [] = 0
pools_size_free (s ∷ pools) = u32 (s.size_free + pools_size_free pools)

unfoldable pub pools_size_capacity : List SubPool → ℕ
pools_size_capacity [] = 0
pools_size_capacity (s ∷ pools) = u32 (s.size_capacity + pools_size_capacity pools)

-- The updates of `size_capacity` and `size_usage`, of the pool with other sub pools.
unfoldable pub with_sizes : List SubPool → Pool → Pool
unfolding pools_size_free pools_size_capacity
with_sizes pools pool = record pool {
  pools = pools;
  size_capacity = pools_size_capacity pools;
  size_usage = u32 (pools_size_capacity pools + 2 ^ 32 - pools_size_free pools);
}

-- Whether no block of any sub pool has the urid.
unfoldable pub urid_unused : List SubPool → ℕ → Access Bool
urid_unused [] urid = ok true
urid_unused (s ∷ pools) urid = do
  unused ← allocate_urid_try s urid
  elim unused [ true ↦ urid_unused pools urid | false ↦ ok false ]

-- The loop of `xjr_mp_allocate_urid`, of `left` urids from `new_urid` on.
unfoldable pub allocate_urid_from : ℕ → ℕ → List SubPool → Access ℕ
allocate_urid_from zero new_urid pools = ok urid_invalid
allocate_urid_from (suc left) new_urid pools = do
  unused ← urid_unused pools new_urid
  elim unused [ true ↦ ok new_urid | false ↦ allocate_urid_from left (suc new_urid) pools ]

unfoldable pub allocate_urid : List SubPool → Access ℕ
allocate_urid pools = allocate_urid_from urid_invalid 0 pools

unfoldable pub sub_malloc : List SubPool → SubPool → ℕ → Bool → Access (ℕ × SubPool)
sub_malloc pools s size managed = do
  new_urid ← allocate_urid pools
  if new_urid == urid_invalid
      then ok (urid_invalid, s)
      else malloc_with_urid new_urid s size managed

-- The loop of `xjr_mp_malloc_in_single_sub_pool`, behind the sub pools `before`.
unfoldable pub malloc_in : List SubPool → List SubPool → ℕ → Bool → Access (ℕ × List SubPool)
malloc_in before [] size managed = ok (urid_invalid, before)
malloc_in before (s ∷ rest) size managed =
    let skip = malloc_in (before ++ (s ∷ [])) rest size managed in
    let try : Access (ℕ × List SubPool) = (do
      (new_urid, s') ← sub_malloc (before ++ (s ∷ rest)) s size managed
      let go_on = malloc_in (before ++ (s' ∷ [])) rest size managed
      if new_urid == urid_invalid then go_on else ok (new_urid, before ++ (s' ∷ rest))) in
    if ltb s.size_free (u32 (header_size + size)) then skip else try

unfoldable pub malloc_in_single_sub_pool : List SubPool → ℕ → Bool → Access (ℕ × List SubPool)
malloc_in_single_sub_pool pools size managed = malloc_in [] pools size managed

-- The updates behind `allocated`.
unfoldable pub allocated : List SubPool → Pool → Pool
unfolding with_sizes
allocated pools pool =
    let p = with_sizes pools pool in
    let count = u32 (pool.num_allocated_blocks + 1) in
    record p {
      num_allocated_blocks = count;
      size_capacity_peak =
          if ltb p.size_capacity_peak p.size_capacity
          then p.size_capacity
          else p.size_capacity_peak;
      size_usage_peak =
          if ltb p.size_usage_peak p.size_usage then p.size_usage else p.size_usage_peak;
      num_allocated_blocks_peak =
          if ltb p.num_allocated_blocks_peak count then count else p.num_allocated_blocks_peak;
    }

-- `xjr_mp_free`: the first sub pool that has the block.
unfoldable pub free_in : List SubPool → ℕ → Access (Bool × List SubPool)
free_in [] urid = ok (false, [])
free_in (s ∷ pools) urid = do
  (freed, s') ← sub_free s urid
  elim freed [
    | true ↦ ok (true, s' ∷ pools)
    | false ↦ do (later, pools') ← free_in pools urid; ok (later, s' ∷ pools')
  ]

unfoldable pub mp_free : Pool → ℕ → Access Pool
mp_free pool urid = do
  (freed, pools) ← free_in pool.pools urid
  ok (
      if freed
      then record (with_sizes pools pool) {
        num_allocated_blocks = u32 (pool.num_allocated_blocks + 2 ^ 32 - 1);
      }
      else pool)

-- A pointer: the index of the sub pool and the offset, or NULL.
unfoldable pub mp_get_ptr : List SubPool → ℕ → ℕ → Access (Option (ℕ × ℕ))
mp_get_ptr [] idx urid = ok none
mp_get_ptr (s ∷ pools) idx urid = do
  ptr ← sub_get_ptr s urid
  elim ptr [ some offset ↦ ok (some (idx, offset)) | none ↦ mp_get_ptr pools (suc idx) urid ]

unfoldable pub mp_get_urid : List SubPool → ℕ → ℕ × ℕ → Access ℕ
mp_get_urid [] idx ptr = ok urid_invalid
mp_get_urid (s ∷ pools) idx ptr = do
  urid ← sub_get_urid idx s ptr
  let rest = mp_get_urid pools (suc idx) ptr
  if urid == urid_invalid then rest else ok urid

unfoldable pub clear_all : List SubPool → Access (List SubPool)
clear_all [] = ok []
clear_all (s ∷ pools) = do s' ← sub_clear s; pools' ← clear_all pools; ok (s' ∷ pools')

unfoldable pub mp_clear : Pool → Access Pool
mp_clear pool = do pools ← clear_all pool.pools; ok (record pool { pools = pools })

unfoldable pub mark_in : List SubPool → ℕ → Access (Bool × List SubPool)
mark_in [] urid = ok (false, [])
mark_in (s ∷ pools) urid = do
  (marked, s') ← sub_mark s urid
  elim marked [
    | some m ↦ ok (m, s' ∷ pools)
    | none ↦ do (m, pools') ← mark_in pools urid; ok (m, s' ∷ pools')
  ]

-- `xjr_mp_mark`: whether the block was marked before.
unfoldable pub mp_mark : Pool → ℕ → Access (Bool × Pool)
mp_mark pool urid = do
  (marked, pools) ← mark_in pool.pools urid
  ok (marked, record pool { pools = pools })

-- How many blocks are taken off the count, and what is left.
unfoldable pub sweep_all : List SubPool → Access (ℕ × List SubPool)
sweep_all [] = ok (0, [])
sweep_all (s ∷ pools) = do
  (count, s') ← sub_sweep s
  (later, pools') ← sweep_all pools
  ok (count + later, s' ∷ pools')

-- The sub pools that are not empty, in their order.
unfoldable pub trimmed : List SubPool → Access (List SubPool)
trimmed [] = ok []
trimmed (s ∷ pools) = do
  empty ← is_empty s
  rest ← trimmed pools
  ok (if empty then rest else s ∷ rest)

module _ (struct_given base_given : Bool) where
  unfoldable pub trim_empty_sub_pools : List SubPool → Access (List SubPool)
  trim_empty_sub_pools pools = if length pools == 1 then ok pools else (do
    left ← trimmed pools
    elim left [
      | s ∷ rest ↦ ok (s ∷ rest)
      | [] ↦ do
        new_sub_pool ← sub_new struct_given base_given
        elim new_sub_pool [ none ↦ ok [] | some s ↦ ok (s ∷ []) ]
    ])

  unfoldable pub mp_sweep : Pool → Access Pool
  mp_sweep pool = do
    (count, swept) ← sweep_all pool.pools
    pools ← trim_empty_sub_pools swept
    ok (record (with_sizes pools pool) {
      num_allocated_blocks = u32 (pool.num_allocated_blocks + 2 ^ 32 - count);
    })

  -- The sub pools with a new one, if there may be one more.
  unfoldable pub extend : List SubPool → Access (Option (List SubPool))
  extend pools = if leb sub_mp_max_num (length pools) then ok none else (do
    new_sub_pool ← sub_new struct_given base_given
    elim new_sub_pool [ none ↦ ok none | some s ↦ ok (some (pools ++ (s ∷ []))) ])

  -- The last try, behind the extension.
  unfoldable pub malloc_extended : Pool → ℕ → Bool → Access (ℕ × Pool)
  malloc_extended pool size managed = do
    extended ← extend pool.pools
    elim extended [
      | none ↦ ok (urid_invalid, pool)
      | some more ↦ do
        (new_urid, pools) ← malloc_in_single_sub_pool more size managed
        if new_urid == urid_invalid
            then ok (urid_invalid, record pool { pools = pools })
            else ok (new_urid, allocated pools pool)
    ]

  -- `xjr_mp_malloc_opt`
  unfoldable pub mp_malloc : Pool → ℕ → Bool → Access (ℕ × Pool)
  mp_malloc pool size managed =
      if ltb sub_mp_size (u32 (size + header_size)) then ok (urid_invalid, pool) else (do
        (new_urid, pools) ← malloc_in_single_sub_pool pool.pools size managed
        if not (new_urid == urid_invalid)
            then ok (new_urid, allocated pools pool)
            else malloc_extended (record pool { pools = pools }) size managed)

  -- `xjr_mp_new_opt`, where the heap gives the structure of the pool and its slots, or not.
  unfoldable pub mp_new : Bool → Access (Option Pool)
  mp_new pool_given =
      if pool_given
      then (do
        new_sub_pool ← sub_new struct_given base_given
        elim new_sub_pool [
          | none ↦ ok none
          | some s ↦
              let capacity = pools_size_capacity (s ∷ []) in
              let usage = u32 (capacity + 2 ^ 32 - pools_size_free (s ∷ [])) in
              ok (
                some (record {
                  pools = s ∷ [];
                  size_usage = usage;
                  size_capacity = capacity;
                  num_allocated_blocks = 0;
                  size_usage_peak = usage;
                  size_capacity_peak = capacity;
                  num_allocated_blocks_peak = 0;
                }))
        ])
      else ok none
