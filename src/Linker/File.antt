-- ===== src/Linker/File.antt =====
-- compiler/src/xjs_c4.c: the last stage of the compiler as a whole. The text and debug stages
-- are given.
use xenonjs.Base.{
  ℕ, List, [], ◌∷◌, Bool, Option, none, some, Result, ok, fail, fault, ◌>>=◌, if◌then◌else◌,
}
use xenonjs.Buffer.{Buffer, Malloc}
use xenonjs.BitWriter
use xenonjs.Linker.{
  DataItem, Annotation, Export, Import, annotate, write_header, write_data, write_attr,
  write_export, write_import, write_index, merge_into, file_size,
}

-- What the stage reads of the intermediate form, less the code.
pub record Ir : Type 0 where
  pub items : List DataItem
  pub exports : List Export
  pub imports : List Import

-- The bit writers of the context.
pub record Writers : Type 0 where
  pub header : Buffer
  pub indexed : Buffer
  pub attr : Buffer
  pub dat : Buffer
  pub code : Buffer
  pub exported : Buffer
  pub imported : Buffer
  pub dbg0 : Buffer
  pub dbi0 : Buffer

-- -1, with nothing that the caller sees.
abbrev pub Link : Type 0 → Type 0
Link = Result (Unit {0})

abbrev pub or_fail : {A : Type 0} → Result Buffer A → Link A
or_fail (ok a) = ok a
or_fail (fail b) = fail tt
or_fail fault = fault

abbrev pub given_or_fail : {A : Type 0} → Option A → Link A
given_or_fail (some a) = ok a
given_or_fail none = fail tt

-- The annotation and the writing of the text section: the buffer and the offset of the toplevel.
abbrev pub TextStage : Type 0
TextStage = Annotation → Buffer → Link (Buffer × ℕ)

abbrev pub DebugStage : Type 0
DebugStage = Buffer → Buffer → Link (Buffer × Buffer)

-- The merge into a new block.
unfoldable pub merge : Malloc → List Buffer → Link (List ℕ)
merge ec_malloc bs = do
  bytecode ← given_or_fail (ec_malloc (file_size bs))
  or_fail (merge_into bs bytecode 0)

module _ (malloc ec_malloc : Malloc) (encode : List ℕ → Option (List ℕ)) (text : TextStage)
    (debug : DebugStage) where
  -- The stage behind the initialisations.
  unfoldable pub link : Ir → Bool → Writers → Link (List ℕ)
  unfolding merge
  link ir generate_debug_info bw = do
    header ← or_fail (write_header malloc bw.header)
    annotated ← given_or_fail (annotate encode ir.items 0)
    dat ← or_fail (write_data malloc annotated.items bw.dat)
    (code, offset_toplevel) ← text annotated bw.code
    attr ← or_fail (write_attr malloc offset_toplevel bw.attr)
    exported ← or_fail (write_export malloc ir.exports bw.exported)
    imported ← or_fail (write_import malloc ir.imports bw.imported)
    (dbg0, dbi0) ← (if generate_debug_info then debug bw.dbg0 bw.dbi0 else ok (bw.dbg0, bw.dbi0))
    let secs = dat ∷ code ∷ attr ∷ exported ∷ imported ∷ dbg0 ∷ dbi0 ∷ []
    indexed ← or_fail (write_index malloc secs bw.indexed)
    merge ec_malloc (header ∷ indexed ∷ secs)

  -- `xjs_c4_start_ex`: the file, or -1.
  unfoldable pub start_ex : Ir → Bool → Link (List ℕ)
  unfolding link
  start_ex ir generate_debug_info = do
    bw_header ← or_fail (BitWriter.init malloc)
    bw_index ← or_fail (BitWriter.init malloc)
    bw_attr ← or_fail (BitWriter.init malloc)
    bw_data ← or_fail (BitWriter.init malloc)
    bw_text ← or_fail (BitWriter.init malloc)
    bw_export ← or_fail (BitWriter.init malloc)
    bw_import ← or_fail (BitWriter.init malloc)
    bw_dbg0 ← or_fail (BitWriter.init malloc)
    bw_dbi0 ← or_fail (BitWriter.init malloc)
    link ir generate_debug_info (record {
      header = bw_header;
      indexed = bw_index;
      attr = bw_attr;
      dat = bw_data;
      code = bw_text;
      exported = bw_export;
      imported = bw_import;
      dbg0 = bw_dbg0;
      dbi0 = bw_dbi0;
    })
