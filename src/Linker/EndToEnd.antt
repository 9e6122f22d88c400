-- ===== src/Linker/EndToEnd.antt =====
-- The file that the last stage of the compiler gives, in the loader of the runtime.
use xenonjs.Base.{
  ℕ, ◌+◌, ◌<◌, ◌^◌, List, ◌++◌, false, Option, some, none, ok, ◌≡◌, ◌≢◌, refl, arith, length,
  le_bytes, u32,
}
use xenonjs.Buffer.{Malloc}
use xenonjs.Buffer.Valid.{IsMalloc}
use xenonjs.Linker.{Annotation, annotate}
use xenonjs.Linker.Loads.{image}
use xenonjs.Linker.File.{Ir, TextStage, DebugStage, start_ex}
use xenonjs.Linker.Whole.{
  sections, data_section, text_section, attr_section, WritesText, init-IsFresh, link-image,
}
use xenonjs.Xfile.{Xfile}
use xenonjs.Xfile.Readers.{IsBytes}
use xenonjs.Xfile.Sits.{Sits, Sits-left, Sits-right, Sits-at}
use xenonjs.Xfile.Loader.{load}
use xenonjs.Xfile.Loader.Index.{body, bodies, index}
use xenonjs.Xfile.Loader.Image.{load-image, loaded_image, header, toplevel_attr, Sits-whole}

attr-Sits :
    (old : Xfile) (ir : Ir) (a : Annotation) (code : List ℕ) (toplevel : ℕ)
    → let ss = sections ir a code toplevel in
      Sits (toplevel_attr (u32 toplevel)) (loaded_image old ss).sections.attr (image ss)
unfolding sections
attr-Sits old ir a code toplevel =
    let ss = sections ir a code toplevel in
    let s₀ = Sits-whole (image ss) in
    let s₁ = Sits-right header (le_bytes 4 (length ss) ++ (index 0 ss ++ bodies ss)) s₀ in
    let s₂ = Sits-right (le_bytes 4 (length ss)) (index 0 ss ++ bodies ss) s₁ in
    let s₃ = Sits-right (index 0 ss) (bodies ss) s₂ in
    let s₄ = Sits-right (body (data_section a)) _ s₃ in
    let s₅ = Sits-right (body (text_section code)) _ s₄ in
    Sits-at (Sits-left (body (attr_section toplevel)) _ s₅) refl refl

module _ (malloc : Malloc) (given : IsMalloc malloc) (plenty : (n : ℕ) → malloc n ≢ none)
    (ec_malloc : Malloc) (ec_given : IsMalloc ec_malloc) (ec_plenty : (n : ℕ) → ec_malloc n ≢ none)
    (encode : List ℕ → Option (List ℕ)) (text : TextStage) (debug : DebugStage) where
  -- Over allocators that have memory, where the items are annotated and the text stage writes a
  -- text section on a new buffer: if the file of the five sections is made of bytes and has fewer
  -- than 2^32 - 4 of them, the stage without debug information returns that file, and the runtime
  -- loads it, with the table of sections of `loaded_image` and the program counter at the
  -- toplevel.
  pub start_ex-loads :
      (old : Xfile) (ir : Ir) (a : Annotation) (code : List ℕ) (toplevel : ℕ)
      → annotate encode ir.items 0 ≡ some a
      → WritesText text a code toplevel
      → let ss = sections ir a code toplevel in
        IsBytes (image ss)
        → length (image ss) + 4 < 2 ^ 32
        → (start_ex malloc ec_malloc encode text debug ir false ≡ ok (image ss))
          × (load old (image ss) (length (image ss))
              ≡ ok (record (loaded_image old ss) { init_pc = u32 toplevel }))
  unfolding start_ex sections
  start_ex-loads old ir a code toplevel annotated writes bytes small =
      let ss = sections ir a code toplevel in
      let (b, done, f) = init-IsFresh malloc given plenty in
      (
        rw (done) (
            link-image malloc given plenty ec_malloc ec_given ec_plenty encode text debug ir a code
              toplevel b f annotated writes (omega arith)),
        load-image old ss (u32 toplevel) bytes small
            (omega arith, (omega arith, (omega arith, (omega arith, (omega arith, tt)))))
            (attr-Sits old ir a code toplevel) (omega arith),
      )
