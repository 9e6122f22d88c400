-- ===== src/Debug.antt =====
-- compiler/src/xjs_c4_dbgsec.c: the debug sections. `dbg0` has a record for each instruction, with
-- its file and its place in it, and `dbi0` the offset of the instruction and that of its record.
pub mod Bytes
pub mod Written
use xenonjs.Base.{ℕ, ◌+◌, ◌*◌, ◌%◌, List, [], ◌∷◌, Option, none, some, ok, fault, ◌>>=◌, length}
use xenonjs.Buffer.{Buffer, Malloc, carry_on}
use xenonjs.BitWriter
use xenonjs.BitWriter.{size_mod}
use xenonjs.BitWriter.Encode.{Writer}
use xenonjs.Linker.{signature_dbg0, signature_dbi0}
use xenonjs.Linker.File.{Link, DebugStage, or_fail}
use xenonjs.Text.Writer.{put_u32, put_s8, put_s32, perform, performs}

-- What the section reads of an annotated instruction. A filename may be NULL.
pub record Place : Type 0 where
  pub offset : ℕ
  pub filename : Option (List ℕ)
  pub start_ln : ℕ
  pub start_col : ℕ
  pub end_ln : ℕ
  pub end_col : ℕ
  pub range_start : ℕ
  pub range_end : ℕ

-- The two buffers and `dbg0_offset`.
pub record Debug : Type 0 where
  pub dbg0 : Buffer
  pub dbi0 : Buffer
  pub dbg0_offset : ℕ

module _ (malloc : Malloc) (encode : List ℕ → Option (List ℕ)) where
  -- The UTF-8 bytes of a name. The length is left unset where they cannot be made.
  unfoldable pub write_name : List ℕ → Writer
  write_name name b = elim (encode name) [
    | none ↦ fault
    | some encoded_bytes ↦ do
      b₁ ← perform malloc (put_u32 (length encoded_bytes)) b
      b₂ ← carry_on (BitWriter.append malloc b₁ encoded_bytes (length encoded_bytes))
      perform malloc (put_s8 0) b₂
  ]

  unfoldable pub write_filename : Option (List ℕ) → Writer
  unfolding write_name
  write_filename none = performs malloc (put_u32 0 ∷ put_s8 0 ∷ [])
  write_filename (some []) = performs malloc (put_u32 0 ∷ put_s8 0 ∷ [])
  write_filename (some (c ∷ cs)) = write_name (c ∷ cs)

  -- What `dbg0_offset` goes up by for the name.
  unfoldable pub filename_size : Option (List ℕ) → ℕ
  filename_size none = 5
  filename_size (some []) = 5
  filename_size (some (c ∷ cs)) = elim (encode (c ∷ cs)) [
    | none ↦ 0
    | some encoded_bytes ↦ 4 + length encoded_bytes + 1
  ]

  -- One turn of the inner loop.
  unfoldable pub write_place : Place → Debug → Link Debug
  unfolding write_filename filename_size
  write_place ti s = do
    dbi0 ← or_fail (performs malloc (put_u32 ti.offset ∷ put_u32 s.dbg0_offset ∷ []) s.dbi0)
    named ← or_fail (write_filename ti.filename s.dbg0)
    dbg0 ← or_fail (
        performs malloc
          (put_s32 ti.start_ln
            ∷ put_s32 ti.start_col
            ∷ put_s32 ti.end_ln
            ∷ put_s32 ti.end_col
            ∷ put_s32 ti.range_start
            ∷ put_s32 ti.range_end
            ∷ [])
          named)
    ok (record {
      dbg0 = dbg0;
      dbi0 = dbi0;
      dbg0_offset = (s.dbg0_offset + filename_size ti.filename + 6 * 4) % size_mod;
    })

  unfoldable pub write_places : List Place → Debug → Link Debug
  unfolding write_place
  write_places [] s = ok s
  write_places (ti ∷ items) s = do s' ← write_place ti s; write_places items s'

  unfoldable pub write_all_places : List (List Place) → Debug → Link Debug
  unfolding write_places
  write_all_places [] s = ok s
  write_all_places (func ∷ functions) s = do s' ← write_places func s; write_all_places functions s'

  -- `xjs_c4_write_dbg0`
  unfoldable pub write_dbg0 : List (List Place) → DebugStage
  unfolding write_all_places
  write_dbg0 functions bw_dbg0 bw_dbi0 = do
    dbg0 ← or_fail (carry_on (BitWriter.append malloc bw_dbg0 signature_dbg0 4))
    dbi0 ← or_fail (carry_on (BitWriter.append malloc bw_dbi0 signature_dbi0 4))
    s ← write_all_places functions (record { dbg0 = dbg0; dbi0 = dbi0; dbg0_offset = 0 })
    ok (s.dbg0, s.dbi0)
