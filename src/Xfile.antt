-- ===== src/Xfile.antt =====
-- rts/src/xjr_x.c: a bytecode file in memory, its readers and its loader.
pub mod Readers
pub mod Sits
pub mod Loader
use xenonjs.Base.{
  ℕ, zero, suc, ◌+◌, ◌*◌, ◌^◌, Bool, true, false, not, ◌||◌, List, [], Option, none, some, bit_or,
  Result, ok, fail, fault, ◌>>=◌, ltb, ◌==◌, if◌then◌else◌, u16, u32, get_elem?, length, take, drop,
}

pub record Sections : Type 0 where
  pub text : ℕ
  pub dat : ℕ
  pub attr : ℕ
  pub expr : ℕ
  pub impr : ℕ
  pub dbg0 : ℕ
  pub dbi0 : ℕ

-- `bc` holds the bytes at the pointer; the pointer NULL has none.
pub record Xfile : Type 0 where
  pub bc : List ℕ
  pub len : ℕ
  pub sections : Sections
  pub init_pc : ℕ

-- A reader fails with -1 and nothing else; the loader leaves a file behind.
abbrev pub Read : Type 0 → Type 0
Read = Result (Unit {0})

abbrev pub Load : Type 0 → Type 0
Load = Result Xfile

abbrev no_sections : Sections
no_sections = record { text = 0; dat = 0; attr = 0; expr = 0; impr = 0; dbg0 = 0; dbi0 = 0 }

-- `xjr_xfile_init` does not write `init_pc`.
pub xfile_init : Xfile → Xfile
xfile_init f = record f { bc = []; len = 0; sections = no_sections }

pub byte_at : Xfile → ℕ → Read ℕ
byte_at f i = elim (get_elem? f.bc i) [ none ↦ fault | some b ↦ ok b ]

-- The test `offset + n > f->len`, on unsigned 32-bit numbers.
pub past_end : Xfile → ℕ → ℕ → Bool
past_end f offset n = ltb f.len (u32 (offset + n))

pub read_u32 : Xfile → ℕ → Read ℕ
unfolding byte_at past_end
read_u32 f offset = if past_end f offset 4 then fail tt else (do
  b₀ ← byte_at f offset
  b₁ ← byte_at f (u32 (offset + 1))
  b₂ ← byte_at f (u32 (offset + 2))
  b₃ ← byte_at f (u32 (offset + 3))
  ok (bit_or (bit_or (bit_or b₀ (u32 (b₁ * 2 ^ 8))) (u32 (b₂ * 2 ^ 16))) (u32 (b₃ * 2 ^ 24))))

-- The value is the bit pattern that `read_u32` finds.
pub read_s32 : Xfile → ℕ → Read ℕ
unfolding byte_at past_end
read_s32 f offset = if past_end f offset 4 then fail tt else (do
  b₀ ← byte_at f offset
  b₁ ← byte_at f (u32 (offset + 1))
  b₂ ← byte_at f (u32 (offset + 2))
  b₃ ← byte_at f (u32 (offset + 3))
  ok (bit_or (bit_or (bit_or b₀ (u32 (b₁ * 2 ^ 8))) (u32 (b₂ * 2 ^ 16))) (u32 (b₃ * 2 ^ 24))))

pub read_u16 : Xfile → ℕ → Read ℕ
unfolding byte_at past_end
read_u16 f offset = if past_end f offset 2 then fail tt else (do
  b₀ ← byte_at f offset
  b₁ ← byte_at f (u32 (offset + 1))
  ok (u16 (bit_or b₀ (u32 (b₁ * 2 ^ 8)))))

pub read_s16 : Xfile → ℕ → Read ℕ
unfolding byte_at past_end
read_s16 f offset = if past_end f offset 2 then fail tt else (do
  b₀ ← byte_at f offset
  b₁ ← byte_at f (u32 (offset + 1))
  ok (u16 (bit_or b₀ (u16 (b₁ * 2 ^ 8)))))

pub read_u8 : Xfile → ℕ → Read ℕ
unfolding byte_at past_end
read_u8 f offset = if past_end f offset 1 then fail tt else byte_at f offset

pub read_s8 : Xfile → ℕ → Read ℕ
unfolding byte_at past_end
read_s8 f offset = if past_end f offset 1 then fail tt else byte_at f offset

-- A double is the eight bytes at `offset`.
pub read_f64 : Xfile → ℕ → Read (List ℕ)
unfolding past_end
read_f64 f offset =
    if past_end f offset 8
    then fail tt
    else if ltb (length f.bc) (offset + 8)
    then fault
    else ok (take 8 (drop offset f.bc))

abbrev pub signature_len : ℕ
signature_len = 4

abbrev pub utf8str : ℕ
utf8str = 1

abbrev pub utf8sym : ℕ
utf8sym = 2

-- Where the body of an item is, and how long it is; `body_out` is `f->bc` plus that position.
pub record Item : Type 0 where
  pub position : ℕ
  pub size : ℕ

-- The length and the body of an item, behind its type.
unfoldable pub read_datasec_body : Xfile → ℕ → Read Item
read_datasec_body f offset_item = do
  len ← read_u32 f offset_item
  let body = u32 (offset_item + 4)
  if ltb f.len (u32 (body + len)) then fail tt else ok (record { position = body; size = len })

unfoldable pub read_datasec_item : Xfile → ℕ → ℕ → Read Item
unfolding read_datasec_body
read_datasec_item f offset opt = do
  let offset_item = u32 (f.sections.dat + signature_len + offset)
  type ← read_u16 f offset_item
  if type == opt then read_datasec_body f (u32 (offset_item + 2)) else fail tt

unfoldable pub read_symbol : Xfile → ℕ → Read Item
unfolding read_datasec_item
read_symbol f offset = read_datasec_item f offset utf8sym

unfoldable pub read_string : Xfile → ℕ → Read Item
unfolding read_datasec_item
read_string f offset = read_datasec_item f offset utf8str
