-- ===== src/Pool.antt =====
-- rts/src/xjr_mp.c: the memory pool of the runtime, its sub pools of blocks that are chained by
-- offsets in their headers. The machine makes its pool with XJR_MP_OPTS_NOALIGN, and so does the
-- model: blocks are never moved.
pub mod SubPools
pub mod Words
pub mod Chain
pub mod Reads
pub mod Found
pub mod Writes
pub mod Holes
pub mod Placed
pub mod Malloc
pub mod Unchain
pub mod Free
pub mod Mark
pub mod Sweep
pub mod Pools
pub mod Union
pub mod Allocate
pub mod Grown
pub mod Grow
pub mod Release
pub mod Collect
pub mod Collected
pub mod Marked
pub mod Survivors
pub mod Urids
pub mod Usable
pub mod Session
use xenonjs.Base.{
  ℕ, zero, suc, ◌+◌, ◌-◌, ◌*◌, ◌/◌, ◌%◌, ◌^◌, Bool, true, false, Option, none, some, Result, ok,
  fault, ◌>>=◌, ltb, leb, ◌==◌, not, ◌||◌, if◌then◌else◌, u16, u32,
}

-- A read or a write outside of the block of a sub pool is `fault`.
abbrev pub Access : Type 0 → Type 0
Access = Result (Unit {0})

-- XJR_SUB_MP_SIZE and XJR_MP_BLOCK_HEADER_SIZE
abbrev pub sub_mp_size : ℕ
sub_mp_size = 4096

abbrev pub header_size : ℕ
header_size = 6

abbrev pub urid_invalid : ℕ
urid_invalid = 0x3FFF

abbrev pub urid_final : ℕ
urid_final = 0x3FFE

-- XJR_URID_REFINE_MASK and XJR_URID_MARKED_MASK. A block is managed by the bit of the marked ones.
abbrev pub refine : ℕ → ℕ
refine urid = urid % 2 ^ 14

abbrev pub is_marked : ℕ → Bool
is_marked urid = urid / 2 ^ 14 % 2 == 1

abbrev pub set_marked : ℕ → ℕ
set_marked urid = if is_marked urid then urid else urid + 2 ^ 14

-- The bytes at `base`, by their offsets.
abbrev pub Memory : Type 0
Memory = ℕ → ℕ

pub record SubPool : Type 0 where
  pub base : Memory
  pub size_free : ℕ
  pub size_capacity : ℕ
  pub offset_begin : ℕ

-- A word of two bytes.
abbrev pub word : Memory → ℕ → ℕ
word m offset = m offset + m (offset + 1) * 2 ^ 8

unfoldable pub put : Memory → ℕ → ℕ → Memory
put m offset value i =
    if i == offset then value % 2 ^ 8 else if i == offset + 1 then value / 2 ^ 8 % 2 ^ 8 else m i

abbrev pub read : SubPool → ℕ → Access ℕ
read s offset = if leb (offset + 2) sub_mp_size then ok (word s.base offset) else fault

abbrev pub write_pool_size : SubPool → ℕ → ℕ → Access SubPool
write_pool_size s offset value =
    if leb (offset + 2) sub_mp_size
    then ok (record s { base = put s.base offset (u16 value) })
    else fault

-- `managed` is kept in the bit of the marked blocks.
unfoldable pub write_block : SubPool → ℕ → Bool → ℕ → ℕ → ℕ → Access SubPool
write_block s offset managed urid size offset_next = do
  s₁ ← write_pool_size s offset (if managed then set_marked urid else urid)
  s₂ ← write_pool_size s₁ (u16 (offset + 2)) size
  write_pool_size s₂ (u16 (offset + 4)) offset_next

unfoldable pub write_block_final : SubPool → Access SubPool
unfolding write_block
write_block_final s =
    write_block s (u16 (s.size_capacity - header_size)) false urid_final 0 urid_invalid

abbrev pub update_block_offset_next : SubPool → ℕ → ℕ → Access SubPool
update_block_offset_next s offset offset_next = write_pool_size s (u16 (offset + 4)) offset_next

unfoldable pub read_block_marked : SubPool → ℕ → Access Bool
read_block_marked s offset = do raw ← read s offset; ok (is_marked raw)

unfoldable pub read_block_urid : SubPool → ℕ → Access ℕ
read_block_urid s offset = do raw ← read s offset; ok (refine raw)

unfoldable pub clear_block_marked : SubPool → ℕ → Access SubPool
unfolding read_block_urid
clear_block_marked s offset = do
  raw_urid ← read_block_urid s offset
  write_pool_size s offset (refine raw_urid)

unfoldable pub set_block_marked : SubPool → ℕ → Access SubPool
unfolding read_block_urid
set_block_marked s offset = do
  raw_urid ← read_block_urid s offset
  write_pool_size s offset (set_marked raw_urid)

abbrev pub read_block_size : SubPool → ℕ → Access ℕ
read_block_size s offset = read s (offset + 2)

abbrev pub read_block_offset_next : SubPool → ℕ → Access ℕ
read_block_offset_next s offset = read s (offset + 4)

unfoldable pub is_final_block : SubPool → ℕ → Access Bool
unfolding read_block_urid
is_final_block s offset = do
  urid ← read_block_urid s offset
  if not (urid == urid_final) then ok false else (do
    size ← read_block_size s offset
    if not (size == 0)
        then ok false
        else (do offset_next ← read_block_offset_next s offset; ok (offset_next == urid_invalid)))

unfoldable pub is_empty : SubPool → Access Bool
unfolding is_final_block
is_empty s = is_final_block s s.offset_begin

-- `xjr_mp_sub_new`, where the heap gives the structure and the base or not.
unfoldable pub sub_new : Bool → Bool → Access (Option SubPool)
unfolding write_block_final
sub_new struct_given base_given =
    if struct_given
    then if base_given
      then (do
        s ← write_block_final (record {
          base = λ i. 0;
          size_free = sub_mp_size - header_size;
          size_capacity = sub_mp_size;
          offset_begin = sub_mp_size - header_size;
        })
        ok (some s))
      else ok none
    else ok none
