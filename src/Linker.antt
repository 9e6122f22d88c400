-- ===== src/Linker.antt =====
-- compiler/src/xjs_c4*.c: how the last stage of the compiler writes a bytecode file, section by
-- section, and merges the sections. The results of the writers are dropped, as in the source.
-- The UTF-8 encoder of deps/ec and the writers of the text and debug sections are given.
pub mod Bytes
pub mod Merge
pub mod Loads
pub mod File
pub mod Texts
pub mod Whole
pub mod EndToEnd
pub mod Items
pub mod Data
use xenonjs.Base.{
  ℕ, zero, suc, ◌+◌, ◌%◌, ◌^◌, List, [], ◌∷◌, ◌++◌, Bool, true, false, Option, none, some, Result,
  ok, fail, fault, ◌>>=◌, ◌==◌, if◌then◌else◌, u32, length,
}
use xenonjs.Buffer
use xenonjs.Buffer.{Buffer, Malloc, Outcome, carry_on}
use xenonjs.BitWriter
use xenonjs.BitWriter.{append, write_u32, write_u16, write_u8}
use xenonjs.BitWriter.Encode.{Writer}

abbrev pub signature : ℕ
signature = 0x00736a78

abbrev pub platform : ℕ
platform = 1

abbrev pub sdkver : ℕ
sdkver = 1

-- Section signatures, "data" and so on, as bytes.
abbrev pub signature_data : List ℕ
signature_data = b'd' ∷ b'a' ∷ b't' ∷ b'a' ∷ []

abbrev pub signature_text : List ℕ
signature_text = b't' ∷ b'e' ∷ b'x' ∷ b't' ∷ []

abbrev pub signature_attr : List ℕ
signature_attr = b'a' ∷ b't' ∷ b't' ∷ b'r' ∷ []

abbrev pub signature_expt : List ℕ
signature_expt = b'e' ∷ b'x' ∷ b'p' ∷ b't' ∷ []

abbrev pub signature_dbg0 : List ℕ
signature_dbg0 = b'd' ∷ b'b' ∷ b'g' ∷ b'0' ∷ []

abbrev pub signature_dbi0 : List ℕ
signature_dbi0 = b'd' ∷ b'b' ∷ b'i' ∷ b'0' ∷ []

abbrev pub signature_impt : List ℕ
signature_impt = b'i' ∷ b'm' ∷ b'p' ∷ b't' ∷ []

-- `xjs_ir_data_item`: the characters of its string, where it has one.
pub data Kind : Type 0 where
  string symbol f32 f64 : Kind

pub record DataItem : Type 0 where
  pub kind : Kind
  pub dataid : ℕ
  pub value : List ℕ

-- `annotated_data_section_item`
pub record Annotated : Type 0 where
  pub kind : Kind
  pub dataid : ℕ
  pub offset : ℕ
  pub content : List ℕ

-- The items in order, each with its offset, and the map from dataid to offset.
pub record Annotation : Type 0 where
  pub items : List Annotated
  pub offsets : List (ℕ × ℕ)

pub record Export : Type 0 where
  pub exported : ℕ
  pub local : ℕ

pub record Import : Type 0 where
  pub local : ℕ
  pub imported : ℕ
  pub source : ℕ

-- The kinds that the data section can hold.
abbrev pub is_text : Kind → Bool
is_text string = true
is_text symbol = true
is_text _ = false

-- The item and its entry in the map, in front of those that follow.
unfoldable pub annotation : DataItem → ℕ → List ℕ → Annotation → Annotation
annotation x offset bytes later = record {
  items =
      record { kind = x.kind; dataid = x.dataid; offset = offset; content = bytes } ∷ later.items;
  offsets = (x.dataid, u32 offset) ∷ later.offsets;
}

-- How many of the sections are not empty.
unfoldable pub sec_count : List Buffer → ℕ
sec_count [] = 0
sec_count (sec ∷ secs) = (if sec.size == 0 then 0 else 1) + sec_count secs

module _ (encode : List ℕ → Option (List ℕ)) where
  -- `xjs_c4_data_section_annotate` from an offset on; `none` is an internal error. The space of
  -- an item is Type:u16 + Length:u32 + Body + NUL.
  unfoldable pub annotate : List DataItem → ℕ → Option Annotation
  annotate [] offset = some (record { items = []; offsets = [] })
  annotate (x ∷ xs) offset =
      if is_text x.kind
      then (elim (encode x.value) [
        | none ↦ none
        | some bytes ↦ elim (annotate xs (offset + (2 + 4 + length bytes + 1))) [
          | none ↦ none
          | some a ↦ some (annotation x offset bytes a)
        ]
      ])
      else none

module _ (malloc : Malloc) where
  pub write_header : Writer
  write_header bw = do
    bw₁ ← carry_on (write_u32 malloc bw signature)
    bw₂ ← carry_on (write_u16 malloc bw₁ platform)
    carry_on (write_u16 malloc bw₂ sdkver)

  -- The type word of an item; no other kind is annotated.
  pub write_kind : Kind → Writer
  write_kind string bw = carry_on (write_u16 malloc bw 1)
  write_kind symbol bw = carry_on (write_u16 malloc bw 2)
  write_kind _ bw = fail bw

  pub write_data_item : Annotated → Writer
  unfolding write_kind
  write_data_item item bw = do
    bw₁ ← write_kind item.kind bw
    bw₂ ← carry_on (write_u32 malloc bw₁ (u32 (length item.content)))
    bw₃ ← carry_on (append malloc bw₂ item.content (length item.content))
    carry_on (write_u8 malloc bw₃ 0)

  pub write_data_items : List Annotated → Writer
  unfolding write_data_item
  write_data_items [] bw = ok bw
  write_data_items (item ∷ items) bw = do bw' ← write_data_item item bw; write_data_items items bw'

  -- `xjs_c4_write_data` behind the annotation.
  pub write_data : List Annotated → Writer
  unfolding write_data_items
  write_data items bw = do
    bw₁ ← carry_on (append malloc bw signature_data 4)
    write_data_items items bw₁

  pub write_attr : ℕ → Writer
  write_attr offset_toplevel bw = do
    bw₁ ← carry_on (append malloc bw signature_attr 4)
    bw₂ ← carry_on (write_u32 malloc bw₁ 1)
    bw₃ ← carry_on (write_u32 malloc bw₂ 0)
    bw₄ ← carry_on (write_u16 malloc bw₃ 1)
    carry_on (write_u32 malloc bw₄ (u32 offset_toplevel))

  pub write_exports : List Export → Writer
  write_exports [] bw = ok bw
  write_exports (x ∷ xs) bw = do
    bw₁ ← carry_on (write_u32 malloc bw x.exported)
    bw₂ ← carry_on (write_u32 malloc bw₁ x.local)
    write_exports xs bw₂

  pub write_export : List Export → Writer
  unfolding write_exports
  write_export exported bw = do
    bw₁ ← carry_on (append malloc bw signature_expt 4)
    bw₂ ← carry_on (write_u32 malloc bw₁ (u32 (length exported)))
    write_exports exported bw₂

  pub write_imports : List Import → Writer
  write_imports [] bw = ok bw
  write_imports (x ∷ xs) bw = do
    bw₁ ← carry_on (write_u32 malloc bw x.local)
    bw₂ ← carry_on (write_u32 malloc bw₁ x.imported)
    bw₃ ← carry_on (write_u32 malloc bw₂ x.source)
    write_imports xs bw₃

  pub write_import : List Import → Writer
  unfolding write_imports
  write_import imported bw = do
    bw₁ ← carry_on (append malloc bw signature_impt 4)
    bw₂ ← carry_on (write_u32 malloc bw₁ (u32 (length imported)))
    write_imports imported bw₂

  -- `WRITE_SECTION` for each buffer in turn, from an offset on. An empty section has no entry.
  pub write_entries : List Buffer → ℕ → Writer
  write_entries [] offset bw = ok bw
  write_entries (sec ∷ secs) offset bw =
      let skip = write_entries secs offset bw in
      let entry = (do
        bw₁ ← carry_on (write_u32 malloc bw (u32 offset))
        bw₂ ← carry_on (write_u32 malloc bw₁ (u32 sec.size))
        write_entries secs (offset + sec.size) bw₂) in
      if sec.size == 0 then skip else entry

  -- `xjs_c4_write_index`, over the sections in the order of the source.
  pub write_index : List Buffer → Writer
  unfolding write_entries sec_count
  write_index secs bw = do
    bw₁ ← carry_on (write_u32 malloc bw (u32 (sec_count secs)))
    write_entries secs 0 bw₁

-- The sum of the sizes, which is the size of the file.
abbrev pub file_size : List Buffer → ℕ
file_size [] = 0
file_size (b ∷ bs) = b.size + file_size bs

-- The copies of the merge, from a place in the new block on.
pub merge_into : List Buffer → List ℕ → ℕ → Outcome (List ℕ)
merge_into [] bytecode p = ok bytecode
merge_into (bw ∷ bws) bytecode p = do
  body ← Buffer.block_of bw.body
  bytecode' ← Buffer.memcpy bw.size bytecode p body 0
  merge_into bws bytecode' (p + bw.size)
