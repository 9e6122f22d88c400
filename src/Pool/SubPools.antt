-- ===== src/Pool/SubPools.antt =====
-- rts/src/xjr_mp.c: the operations of one sub pool.
use xenonjs.Base.{
  ℕ, zero, suc, ◌+◌, ◌-◌, ◌^◌, Bool, true, false, Option, none, some, ok, fault, ◌>>=◌, leb, ◌==◌,
  ◌||◌, ◌&&◌, if◌then◌else◌, u16, u32,
}
use xenonjs.Pool.{
  Access, sub_mp_size, header_size, urid_invalid, SubPool, write_block, update_block_offset_next,
  read_block_marked, read_block_urid, clear_block_marked, set_block_marked, read_block_size,
  read_block_offset_next, is_final_block, is_empty,
}

-- The loops over the blocks run on fuel: no more blocks fit into a sub pool than it has bytes.
abbrev pub fuel : ℕ
fuel = sub_mp_size

-- The search from `offset` on for a block at which `test` gives something.
unfoldable pub search_from :
    {A : Type 0} → ℕ → (SubPool → ℕ → Access (Option A)) → SubPool → ℕ → Access (Option A)
search_from zero test s offset = fault
search_from (suc left) test s offset = do
  final ← is_final_block s offset
  elim final [
    | true ↦ ok none
    | false ↦ do
      found ← test s offset
      elim found [
        | some a ↦ ok (some a)
        | none ↦ do
          offset_next ← read_block_offset_next s offset
          search_from left test s offset_next
      ]
  ]

abbrev pub search : {A : Type 0} → (SubPool → ℕ → Access (Option A)) → SubPool → Access (Option A)
search test s = search_from fuel test s s.offset_begin

abbrev pub urid_test : ℕ → SubPool → ℕ → Access (Option ℕ)
urid_test urid s offset = do
  u ← read_block_urid s offset
  ok (if u == urid then some offset else none)

unfoldable pub block_get_by_urid : SubPool → ℕ → Access (Option ℕ)
block_get_by_urid s urid = search (urid_test urid) s

-- Whether the urid is in no block.
unfoldable pub allocate_urid_try : SubPool → ℕ → Access Bool
allocate_urid_try s urid = do
  found ← block_get_by_urid s urid
  elim found [ none ↦ ok true | some offset ↦ ok false ]

-- The offset of the contents of a block, or NULL.
unfoldable pub sub_get_ptr : SubPool → ℕ → Access (Option ℕ)
sub_get_ptr s urid = do
  found ← block_get_by_urid s urid
  elim found [ none ↦ ok none | some offset ↦ ok (some (offset + 6)) ]

-- The urid of the block, of the sub pool of an index, whose contents are where a pointer is to.
abbrev pub ptr_test : ℕ → ℕ × ℕ → SubPool → ℕ → Access (Option ℕ)
ptr_test idx ptr s offset = do
  urid ← read_block_urid s offset
  ok (if (idx == ptr.0) && (offset + 6 == ptr.1) then some urid else none)

unfoldable pub sub_get_urid : ℕ → SubPool → ℕ × ℕ → Access ℕ
sub_get_urid idx s ptr = do
  found ← search (ptr_test idx ptr) s
  elim found [ none ↦ ok urid_invalid | some urid ↦ ok urid ]

-- `xjr_sub_pool_allocate_space`: the block that is followed by a hole that is large enough.
abbrev pub hole_test : ℕ → SubPool → ℕ → Access (Option ℕ)
hole_test size s offset = do
  block_size ← read_block_size s offset
  let offset_end_of_cur_data = u16 (offset + header_size + block_size)
  offset_next_block ← read_block_offset_next s offset
  let size_hole = u16 (offset_next_block + 2 ^ 16 - offset_end_of_cur_data)
  ok (if leb (u32 (size + header_size)) size_hole then some offset else none)

unfoldable pub allocate_space : SubPool → ℕ → Access (Option ℕ)
allocate_space s size = search (hole_test size) s

-- The updates behind the header of a new block.
abbrev pub take_free : ℕ → SubPool → SubPool
take_free size s = record s { size_free = u32 (s.size_free + 2 ^ 32 - u32 (size + header_size)) }

-- A new block at the start.
unfoldable pub malloc_at_start : ℕ → SubPool → ℕ → Bool → Access SubPool
malloc_at_start new_urid s size managed = do
  s' ← write_block s 0 managed new_urid (u16 size) s.offset_begin
  ok (take_free size (record s' { offset_begin = 0 }))

-- A new block behind the one at `offset`.
unfoldable pub malloc_behind : ℕ → SubPool → ℕ → Bool → ℕ → Access SubPool
malloc_behind new_urid s size managed offset = do
  block_size ← read_block_size s offset
  let offset_end_of_cur_data = u16 (offset + header_size + block_size)
  offset_next_block ← read_block_offset_next s offset
  s₁ ← write_block s offset_end_of_cur_data managed new_urid (u16 size) offset_next_block
  s₂ ← update_block_offset_next s₁ offset offset_end_of_cur_data
  ok (take_free size s₂)

unfoldable pub malloc_with_urid : ℕ → SubPool → ℕ → Bool → Access (ℕ × SubPool)
malloc_with_urid new_urid s size managed = do
  empty ← is_empty s
  if empty || leb (u32 (size + header_size)) s.offset_begin
      then (do s' ← malloc_at_start new_urid s size managed; ok (new_urid, s'))
      else (do
        found ← allocate_space s size
        elim found [
          | none ↦ ok (urid_invalid, s)
          | some offset ↦ do s' ← malloc_behind new_urid s size managed offset; ok (new_urid, s')
        ])

-- The block at `offset` is taken out of the chain behind `prev`.
unfoldable pub unchain : SubPool → Option ℕ → ℕ → Access SubPool
unchain s prev offset = do
  offset_next_block ← read_block_offset_next s offset
  size ← read_block_size s offset
  s' ← elim prev [
    | none ↦ ok (record s { offset_begin = offset_next_block })
    | some offset_prev ↦ update_block_offset_next s offset_prev offset_next_block
  ]
  ok (record s' { size_free = u32 (s'.size_free + u32 (size + header_size)) })

-- The loop of `xjr_sub_pool_free`: whether it freed a block.
unfoldable pub free_from : ℕ → SubPool → ℕ → Option ℕ → ℕ → Access (Bool × SubPool)
free_from zero s urid prev offset = fault
free_from (suc left) s urid prev offset = do
  final ← is_final_block s offset
  elim final [
    | true ↦ ok (false, s)
    | false ↦ do
      u ← read_block_urid s offset
      let rest : Access (Bool × SubPool) = (do
        offset_next_block ← read_block_offset_next s offset
        free_from left s urid (some offset) offset_next_block)
      if u == urid then (do s' ← unchain s prev offset; ok (true, s')) else rest
  ]

unfoldable pub sub_free : SubPool → ℕ → Access (Bool × SubPool)
sub_free s urid = free_from fuel s urid none s.offset_begin

unfoldable pub clear_from : ℕ → SubPool → ℕ → Access SubPool
clear_from zero s offset = fault
clear_from (suc left) s offset = do
  final ← is_final_block s offset
  elim final [
    | true ↦ ok s
    | false ↦ do
      s' ← clear_block_marked s offset
      offset_next ← read_block_offset_next s' offset
      clear_from left s' offset_next
  ]

unfoldable pub sub_clear : SubPool → Access SubPool
sub_clear s = clear_from fuel s s.offset_begin

-- Whether the block was marked, if there is one.
unfoldable pub sub_mark : SubPool → ℕ → Access (Option Bool × SubPool)
sub_mark s urid = do
  found ← block_get_by_urid s urid
  elim found [
    | none ↦ ok (none, s)
    | some offset ↦ do
      marked ← read_block_marked s offset
      s' ← set_block_marked s offset
      ok (some marked, s')
  ]

-- The loop of `xjr_sub_pool_sweep`: how many blocks it took off the count of the pool.
unfoldable pub sweep_from : ℕ → SubPool → ℕ → ℕ → Access (ℕ × SubPool)
sweep_from zero s count offset = fault
sweep_from (suc left) s count offset = do
  final ← is_final_block s offset
  elim final [
    | true ↦ ok (count, s)
    | false ↦ do
      offset_next ← read_block_offset_next s offset
      marked ← read_block_marked s offset
      elim marked [
        | true ↦ sweep_from left s count offset_next
        | false ↦ do
          urid ← read_block_urid s offset
          (freed, s') ← sub_free s urid
          sweep_from left s' (suc count) offset_next
      ]
  ]

unfoldable pub sub_sweep : SubPool → Access (ℕ × SubPool)
sub_sweep s = sweep_from fuel s 0 s.offset_begin
