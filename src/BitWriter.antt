-- ===== src/BitWriter.antt =====
-- compiler/src/xjs_bitwriter.c: the byte buffer of the code generator. Its buffer operations are
-- those of `Buffer` over a 64-bit size type; the writers put a value out lowest byte first.
-- A signed value is given by its bit pattern, and a double by the bytes of its object.
pub mod Encode
use xenonjs.Base.{
  ℕ, zero, suc, ◌/◌, ◌^◌, List, [], ◌∷◌, bit_and, u8, u16, u32, Result, ok, fail, ◌>>=◌, length,
  Option, none, some, get_elem?,
}
use xenonjs.Buffer
use xenonjs.Buffer.{Buffer, Malloc, Outcome, carry_on}

abbrev pub size_mod : ℕ
size_mod = 2 ^ 64

abbrev default_init_size : ℕ
default_init_size = 512

abbrev default_inc_size : ℕ
default_inc_size = 512

unfoldable pub init : Malloc → Outcome Buffer
init malloc = Buffer.init_conf malloc default_init_size default_inc_size

unfoldable pub append : Malloc → Buffer → List ℕ → ℕ → Outcome Buffer
append = Buffer.append size_mod

pub write_u32 : Malloc → Buffer → ℕ → Outcome Buffer
write_u32 malloc bw v =
    append malloc bw
      (bit_and v 0xff
        ∷ bit_and (v / 2 ^ 8) 0xff
        ∷ bit_and (v / 2 ^ 16) 0xff
        ∷ bit_and (v / 2 ^ 24) 0xff
        ∷ [])
      4

pub write_u16 : Malloc → Buffer → ℕ → Outcome Buffer
write_u16 malloc bw v = append malloc bw (bit_and v 0xff ∷ bit_and (v / 2 ^ 8) 0xff ∷ []) 2

pub write_u8 : Malloc → Buffer → ℕ → Outcome Buffer
write_u8 malloc bw v = append malloc bw (v ∷ []) 1

pub write_s32 : Malloc → Buffer → ℕ → Outcome Buffer
write_s32 malloc bw v = write_u32 malloc bw (u32 v)

pub write_s16 : Malloc → Buffer → ℕ → Outcome Buffer
write_s16 malloc bw v = write_u16 malloc bw (u16 v)

pub write_s8 : Malloc → Buffer → ℕ → Outcome Buffer
write_s8 malloc bw v = write_u8 malloc bw (u8 v)

-- The loop of `write_f64` at byte `i`; the results of `write_u8` are dropped.
pub write_f64_from : ℕ → Malloc → Buffer → List ℕ → ℕ → Outcome Buffer
write_f64_from zero malloc bw buf i = ok bw
write_f64_from (suc left) malloc bw buf i = do
  c ← Buffer.peek buf i
  bw' ← carry_on (write_u8 malloc bw c)
  write_f64_from left malloc bw' buf (suc i)

pub write_f64 : Malloc → Buffer → List ℕ → Outcome Buffer
unfolding write_f64_from
write_f64 malloc bw buf = write_f64_from 8 malloc bw buf 0
