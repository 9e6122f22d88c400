-- ===== src/Vm/Program.antt =====
-- From the code of the compiler to the virtual machine: the file that the compiler gives is loaded,
-- and the machine fetches each instruction at its offset.
use xenonjs.Base.{
  ℕ, ◌+◌, ◌^◌, ◌<◌, List, [], ◌∷◌, ◌++◌, false, Option, some, none, ok, ◌≡◌, ◌≢◌, sym, refl, arith,
  length, le_bytes, u32, All,
}
use xenonjs.Buffer.{Malloc}
use xenonjs.Buffer.Valid.{IsMalloc}
use xenonjs.Linker.{Annotation, annotate}
use xenonjs.Linker.Loads.{image}
use xenonjs.Linker.File.{Link, Ir, DebugStage, start_ex}
use xenonjs.Linker.Whole.{sections, data_section, text_section}
use xenonjs.Linker.EndToEnd.{start_ex-loads}
use xenonjs.Xfile.{Xfile}
use xenonjs.Xfile.Readers.{IsBytes, IsLoaded}
use xenonjs.Xfile.Sits.{Sits, Sits-left, Sits-right, Sits-at}
use xenonjs.Xfile.Loader.{load}
use xenonjs.Xfile.Loader.Index.{Section, body, bodies, index}
use xenonjs.Xfile.Loader.Image.{header, loaded_image, Sits-whole}
use xenonjs.Text.{Function, Code, AnnotatedItem, AnnotatedFunction}
use xenonjs.Text.Translate.{Whole}
use xenonjs.Text.Annotate.{Scheduler, text_section_annotate}
use xenonjs.Text.Bytes.{IsSound, encode, functions_code}
use xenonjs.Text.Size.{IsItem}
use xenonjs.Text.Functions.{functions_size}
use xenonjs.Text.Places.{text_section_annotate-IsAnnotated}
use xenonjs.Text.Stage.{text_stage, text_stage-WritesText, functions-Sits}
use xenonjs.Vm.{decode}
use xenonjs.Vm.RoundTrip.{cut, decode-encode}

-- The machine fetches the instruction at its offset, and goes on behind it.
abbrev pub IsDecoded : Xfile → AnnotatedItem → Type 0
IsDecoded f ti = decode f ti.offset ≡ ok (cut ti.inst, ti.offset + length (encode ti.inst))

text-Sits :
    (old : Xfile) (ir : Ir) (a : Annotation) (code : List ℕ) (toplevel : ℕ)
    → let ss = sections ir a code toplevel in
      Sits code ((loaded_image old ss).sections.text + 4) (image ss)
unfolding sections
text-Sits old ir a code toplevel =
    let ss = sections ir a code toplevel in
    let s₀ = Sits-whole (image ss) in
    let s₁ = Sits-right header (le_bytes 4 (length ss) ++ (index 0 ss ++ bodies ss)) s₀ in
    let s₂ = Sits-right (le_bytes 4 (length ss)) (index 0 ss ++ bodies ss) s₁ in
    let s₃ = Sits-right (index 0 ss) (bodies ss) s₂ in
    let s₄ = Sits-right (body (data_section a)) _ s₃ in
    let s₅ = Sits-left (body (text_section code)) _ s₄ in
    Sits-at (Sits-right (le_bytes 4 0x74786574) code s₅) refl refl

-- The file as the loader leaves it.
abbrev pub loaded_file : Xfile → List Section → ℕ → Xfile
loaded_file old ss toplevel = record (loaded_image old ss) { init_pc = toplevel }

loaded_file-IsLoaded :
    (old : Xfile) (ss : List Section) (toplevel : ℕ)
    → IsBytes (image ss)
    → length (image ss) + 8 < 2 ^ 32
    → IsLoaded (loaded_file old ss toplevel)
loaded_file-IsLoaded old ss toplevel bytes small = record {
  bytes = bytes;
  length_is = refl;
  fits = omega (arith, small);
}

loaded_file-keeps :
    (old : Xfile) (ss : List Section) (toplevel : ℕ)
    → ((loaded_file old ss toplevel).bc ≡ image ss)
      × ((loaded_file old ss toplevel).len ≡ length (image ss))
loaded_file-keeps old ss toplevel = (refl, refl)

decoded :
    (f : Xfile) (functions : List AnnotatedFunction)
    → IsLoaded f
    → f.len + 8 < 2 ^ 32
    → All (λ func. All (λ ti. IsSound ti.inst) func.items) functions
    → All
        (λ func.
          All (λ ti. Sits (encode ti.inst) (f.sections.text + 4 + ti.offset) f.bc) func.items)
        functions
    → All (λ func. All (IsDecoded f) func.items) functions
decoded f [] loaded small sound at = tt
decoded f (func ∷ functions) loaded small sound at =
    (items func.items sound.0 at.0, decoded f functions loaded small sound.1 at.1)
  where
    items :
        (tis : List AnnotatedItem)
        → All (λ ti. IsSound ti.inst) tis
        → All (λ ti. Sits (encode ti.inst) (f.sections.text + 4 + ti.offset) f.bc) tis
        → All (IsDecoded f) tis
    items [] h s = tt
    items (ti ∷ tis) h s =
        (decode-encode f loaded small ti.inst ti.offset h.0 s.0, items tis h.1 s.1)

module _ (malloc : Malloc) (given : IsMalloc malloc) (plenty : (n : ℕ) → malloc n ≢ none)
    (ec_malloc : Malloc) (ec_given : IsMalloc ec_malloc) (ec_plenty : (n : ℕ) → ec_malloc n ≢ none)
    (encoder : List ℕ → Option (List ℕ)) (debug : DebugStage) (whole : Whole)
    (schedule : Function → Link Scheduler) where
  -- Over allocators that have memory, where the data and the code are annotated, the doubles of
  -- the code have eight bytes, the code is of fewer than 2^32 bytes, and the file of the five
  -- sections is made of bytes and has fewer than 2^32 - 8 of them: the last stage of the compiler,
  -- without debug information, gives that file, the runtime loads it, and at the offset of each
  -- annotated instruction the virtual machine fetches that instruction, its operands cut to the
  -- widths of the file, and goes on behind it.
  pub start_ex-IsDecoded :
      (old : Xfile) (ir : Ir) (code : Code) (a : Annotation) (functions : List AnnotatedFunction)
      (toplevel : ℕ)
      → All (λ func. All IsItem func.items) code.functions
      → functions_size whole code.functions < 2 ^ 32
      → annotate encoder ir.items 0 ≡ some a
      → text_section_annotate whole schedule code a ≡ ok (functions, toplevel)
      → let ss = sections ir a (functions_code functions) toplevel in
        IsBytes (image ss)
        → length (image ss) + 8 < 2 ^ 32
        → let f = loaded_file old ss (u32 toplevel) in
          (start_ex malloc ec_malloc encoder (text_stage malloc whole schedule code) debug ir false
            ≡ ok (image ss))
          × (load old (image ss) (length (image ss)) ≡ ok f)
          × All (λ func. All (IsDecoded f) func.items) functions
  start_ex-IsDecoded old ir code a functions toplevel are fits annotated text bytes small =
      let ss = sections ir a (functions_code functions) toplevel in
      let f = loaded_file old ss (u32 toplevel) in
      let keeps = loaded_file-keeps old ss (u32 toplevel) in
      let known =
        text_section_annotate-IsAnnotated whole schedule code a (functions, toplevel) are fits
          text in
      let laid = known.laid in
      let (compiled, loaded) =
        start_ex-loads malloc given plenty ec_malloc ec_given ec_plenty encoder
          (text_stage malloc whole schedule code) debug old ir a (functions_code functions) toplevel
          annotated
          (text_stage-WritesText malloc given plenty whole schedule code a functions toplevel
            laid.sound text (omega (arith, laid.length_is)))
          bytes (omega arith) in
      (
        compiled,
        loaded,
        decoded f functions (loaded_file-IsLoaded old ss (u32 toplevel) bytes small)
            (omega (arith, keeps.1, small)) laid.sound
            (functions-Sits functions (f.sections.text + 4) 0 f.bc laid.placed (
              Sits-at (text-Sits old ir a (functions_code functions) toplevel) (sym keeps.0)
                (omega arith))),
      )
