-- ===== src/Linker/Bytes.antt =====
-- The bytes that each writer of the linker adds.
use xenonjs.Base.{
  ℕ, ◌+◌, List, [], ◌∷◌, ◌++◌, none, ◌≡◌, ◌≢◌, u32, length, le_bytes, true, ◌==◌, if◌then◌else◌,
  All, ltb, refl, arith,
}
use xenonjs.Buffer.{Buffer, Malloc, carry_on}
use xenonjs.Buffer.Valid.{IsMalloc}
use xenonjs.BitWriter.{append, write_u32, write_u16}
use xenonjs.BitWriter.Encode.{
  Emits, Emits-then, Emits-nothing, Emits-append, Emits-if, Emits-write_u32, Emits-write_u16,
  Emits-write_u8,
}
use xenonjs.Linker.{
  signature, platform, sdkver, signature_data, signature_attr, signature_expt, signature_impt, Kind,
  string, symbol, f32, f64, is_text, Annotated, Export, Import, write_header, write_kind,
  write_data_item, write_data_items, write_data, write_attr, write_exports, write_export,
  write_imports, write_import, write_entries, write_index, sec_count,
}

abbrev pub header_bytes : List ℕ
header_bytes = le_bytes 4 signature ++ (le_bytes 2 platform ++ le_bytes 2 sdkver)

abbrev pub kind_word : Kind → ℕ
kind_word string = 1
kind_word _ = 2

-- Type, length, body and NUL of an item.
abbrev pub item_bytes : Annotated → List ℕ
item_bytes a =
    le_bytes 2 (kind_word a.kind)
    ++ (le_bytes 4 (u32 (length a.content)) ++ (a.content ++ (0 ∷ [])))

abbrev pub items_bytes : List Annotated → List ℕ
items_bytes [] = []
items_bytes (a ∷ items) = item_bytes a ++ items_bytes items

abbrev pub attr_bytes : ℕ → List ℕ
attr_bytes toplevel =
    signature_attr
    ++ (le_bytes 4 1 ++ (le_bytes 4 0 ++ (le_bytes 2 1 ++ le_bytes 4 (u32 toplevel))))

abbrev pub exports_bytes : List Export → List ℕ
exports_bytes [] = []
exports_bytes (x ∷ xs) = le_bytes 4 x.exported ++ (le_bytes 4 x.local ++ exports_bytes xs)

abbrev pub imports_bytes : List Import → List ℕ
imports_bytes [] = []
imports_bytes (x ∷ xs) =
    le_bytes 4 x.local ++ (le_bytes 4 x.imported ++ (le_bytes 4 x.source ++ imports_bytes xs))

abbrev pub entries_bytes : List Buffer → ℕ → List ℕ
entries_bytes [] offset = []
entries_bytes (sec ∷ secs) offset =
    let skip = entries_bytes secs offset in
    let entry =
      le_bytes 4 (u32 offset)
      ++ (le_bytes 4 (u32 sec.size) ++ entries_bytes secs (offset + sec.size)) in
    if sec.size == 0 then skip else entry

-- The sections that have bytes.
abbrev pub not_empty : List Buffer → List Buffer
not_empty [] = []
not_empty (sec ∷ secs) = if ltb 0 sec.size then sec ∷ not_empty secs else not_empty secs

sec_count-not_empty : (secs : List Buffer) → sec_count secs ≡ length (not_empty secs)
unfolding sec_count
sec_count-not_empty [] = refl
sec_count-not_empty (sec ∷ secs) = let rest = sec_count-not_empty secs in ground arith

module _ (malloc : Malloc) (given : IsMalloc malloc) (plenty : (n : ℕ) → malloc n ≢ none) where
  abbrev u32_of : (v : ℕ) → Emits (λ b. carry_on (write_u32 malloc b v)) (le_bytes 4 v)
  u32_of = Emits-write_u32 malloc given plenty

  abbrev u16_of : (v : ℕ) → Emits (λ b. carry_on (write_u16 malloc b v)) (le_bytes 2 v)
  u16_of = Emits-write_u16 malloc given plenty

  abbrev bytes_of : (s : List ℕ) → Emits (λ b. carry_on (append malloc b s (length s))) s
  bytes_of = Emits-append malloc given plenty

  -- The header: signature, platform and version.
  pub Emits-write_header : Emits (write_header malloc) header_bytes
  unfolding write_header
  Emits-write_header = Emits-then (u32_of signature) (Emits-then (u16_of platform) (u16_of sdkver))

  Emits-write_kind :
      (k : Kind) → is_text k ≡ true → Emits (write_kind malloc k) (le_bytes 2 (kind_word k))
  unfolding write_kind
  Emits-write_kind string h = u16_of 1
  Emits-write_kind symbol h = u16_of 2
  Emits-write_kind f32 h = cc
  Emits-write_kind f64 h = cc

  Emits-write_data_item :
      (a : Annotated) → is_text a.kind ≡ true → Emits (write_data_item malloc a) (item_bytes a)
  unfolding write_data_item
  Emits-write_data_item a h = Emits-then (Emits-write_kind a.kind h) (
      Emits-then (u32_of (u32 (length a.content)))
        (Emits-then (bytes_of a.content) (Emits-write_u8 malloc given plenty 0)))

  Emits-write_data_items :
      (items : List Annotated)
      → All (λ a. is_text a.kind ≡ true) items
      → Emits (write_data_items malloc items) (items_bytes items)
  unfolding write_data_items
  Emits-write_data_items [] h = Emits-nothing
  Emits-write_data_items (a ∷ items) h =
      Emits-then (Emits-write_data_item a h.0) (Emits-write_data_items items h.1)

  -- Over an allocator that has memory, on a ready buffer with room for them within the size type,
  -- the writer of the data section adds the signature and, for each item of a kind that is
  -- annotated, type, length, body and NUL.
  pub Emits-write_data :
      (items : List Annotated)
      → All (λ a. is_text a.kind ≡ true) items
      → Emits (write_data malloc items) (signature_data ++ items_bytes items)
  unfolding write_data
  Emits-write_data items h = Emits-then (bytes_of signature_data) (Emits-write_data_items items h)

  -- Over an allocator that has memory, on a ready buffer with room for them within the size type,
  -- the writer of the attribute section adds a section with one attribute, the offset of the
  -- toplevel.
  pub Emits-write_attr : (toplevel : ℕ) → Emits (write_attr malloc toplevel) (attr_bytes toplevel)
  unfolding write_attr
  Emits-write_attr toplevel = Emits-then (bytes_of signature_attr) (
      Emits-then (u32_of 1) (Emits-then (u32_of 0) (Emits-then (u16_of 1) (u32_of (u32 toplevel)))))

  Emits-write_exports : (xs : List Export) → Emits (write_exports malloc xs) (exports_bytes xs)
  unfolding write_exports
  Emits-write_exports [] = Emits-nothing
  Emits-write_exports (x ∷ xs) =
      Emits-then (u32_of x.exported) (Emits-then (u32_of x.local) (Emits-write_exports xs))

  -- Over an allocator that has memory, on a ready buffer with room for them within the size type,
  -- the writer of the export section adds the signature, the count and the two words of each
  -- export.
  pub Emits-write_export :
      (xs : List Export)
      → Emits
          (write_export malloc xs)
          (signature_expt ++ (le_bytes 4 (u32 (length xs)) ++ exports_bytes xs))
  unfolding write_export
  Emits-write_export xs =
      Emits-then (bytes_of signature_expt)
        (Emits-then (u32_of (u32 (length xs))) (Emits-write_exports xs))

  Emits-write_imports : (xs : List Import) → Emits (write_imports malloc xs) (imports_bytes xs)
  unfolding write_imports
  Emits-write_imports [] = Emits-nothing
  Emits-write_imports (x ∷ xs) =
      Emits-then (u32_of x.local)
        (Emits-then (u32_of x.imported) (Emits-then (u32_of x.source) (Emits-write_imports xs)))

  -- Over an allocator that has memory, on a ready buffer with room for them within the size type,
  -- the writer of the import section adds the signature, the count and the three words of each
  -- import.
  pub Emits-write_import :
      (xs : List Import)
      → Emits
          (write_import malloc xs)
          (signature_impt ++ (le_bytes 4 (u32 (length xs)) ++ imports_bytes xs))
  unfolding write_import
  Emits-write_import xs =
      Emits-then (bytes_of signature_impt)
        (Emits-then (u32_of (u32 (length xs))) (Emits-write_imports xs))

  Emits-write_entries :
      (secs : List Buffer) (offset : ℕ)
      → Emits (write_entries malloc secs offset) (entries_bytes secs offset)
  unfolding write_entries
  Emits-write_entries [] offset = Emits-nothing
  Emits-write_entries (sec ∷ secs) offset =
      Emits-if (sec.size == 0) (Emits-write_entries secs offset) (
        Emits-then (u32_of (u32 offset))
          (Emits-then (u32_of (u32 sec.size)) (Emits-write_entries secs (offset + sec.size))))

  pub Emits-write_index_counted :
      (secs : List Buffer)
      → Emits (write_index malloc secs) (le_bytes 4 (u32 (sec_count secs)) ++ entries_bytes secs 0)
  unfolding write_index
  Emits-write_index_counted secs =
      Emits-then (u32_of (u32 (sec_count secs))) (Emits-write_entries secs 0)

  -- Over an allocator that has memory, on a ready buffer with room for them within the size type,
  -- the index writer adds the count of the sections that are not empty, and the offset and size of
  -- each of them.
  pub Emits-write_index :
      (secs : List Buffer)
      → Emits
          (write_index malloc secs)
          (le_bytes 4 (u32 (length (not_empty secs))) ++ entries_bytes secs 0)
  Emits-write_index secs = rw (← sec_count-not_empty secs) (Emits-write_index_counted secs)
