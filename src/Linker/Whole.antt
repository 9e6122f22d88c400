-- ===== src/Linker/Whole.antt =====
-- The whole stage: over allocators that have memory it gives a file that the runtime loads.
use mathlib.Core.Path.{subst}
use xenonjs.Base.{
  ℕ, ◌+◌, ◌<◌, ◌^◌, List, [], ◌∷◌, ◌++◌, false, Option, none, some, ok, ◌≡◌, ◌≢◌, ◌∙◌, sym, ap,
  arith, length, length-append, le_bytes, length-le_bytes, u32, Option-cases, inl, inr,
}
use xenonjs.Buffer.{Buffer, Malloc}
use xenonjs.Buffer.Valid.{IsValid, IsMalloc, contents}
use xenonjs.Buffer.Session.{IsReady, length-contents}
use xenonjs.Buffer.Lifecycle.{init_conf_lem}
use xenonjs.BitWriter
use xenonjs.BitWriter.Encode.{Writer, Emits}
use xenonjs.Linker.{Annotation, Export, Import, annotate, sec_count, merge_into, file_size}
use xenonjs.Linker.Texts.{Texts, annotate-Texts}
use xenonjs.Linker.Bytes.{
  items_bytes, exports_bytes, imports_bytes, entries_bytes, Emits-write_header, Emits-write_data,
  Emits-write_attr, Emits-write_export, Emits-write_import, Emits-write_index_counted,
}
use xenonjs.Linker.Merge.{AreSections, AreSections-index, none_left, empty_one, full_one}
use xenonjs.Linker.Loads.{image, AreWritten, merge-image}
use xenonjs.Linker.File.{Ir, TextStage, DebugStage, merge, link}
use xenonjs.Xfile.Loader.Index.{Section, bodies, index, body}

-- A new buffer.
pub record IsFresh (b : Buffer) : Type 0 where
  pub ready : IsReady b
  pub nothing_in : contents b ≡ []
  pub size_is : b.size ≡ 0
  pub inc_is : b.inc_size ≡ 512

module _ (malloc : Malloc) (given : IsMalloc malloc) (plenty : (n : ℕ) → malloc n ≢ none) where
  pub init-IsFresh : (b : Buffer) × (BitWriter.init malloc ≡ ok b) × IsFresh b
  unfolding BitWriter.init
  init-IsFresh = elim (init_conf_lem malloc 512 512 given (omega arith)) [
    | inl (b, done, e) ↦ (
      b,
      done,
      record {
        ready = record { valid = e.valid; started = omega (arith, e.steps.0) };
        nothing_in = e.no_contents;
        size_is = sym (length-contents b e.valid) ∙ ap length e.no_contents;
        inc_is = e.steps.1;
      },
    )
    | inr (refused, failed) ↦ absurd (plenty 512 refused)
  ]

-- What a writer leaves of a new buffer.
pub fresh-written :
    {w : Writer} {s : List ℕ} (b : Buffer)
    → IsFresh b
    → Emits w s
    → length s + 513 < 2 ^ 64
    → (b' : Buffer) × (w b ≡ ok b') × IsValid b' × (contents b' ≡ s)
fresh-written {s} b f e room =
    let (b', done, a) = e.emits b f.ready (omega (arith, f.size_is, f.inc_is)) in
    (b', done, a.ready.valid, a.bytes_are ∙ ap (λ t. t ++ s) f.nothing_in)

abbrev pub data_section : Annotation → Section
data_section a = record { type = 0x61746164; rest = items_bytes a.items }

abbrev pub text_section : List ℕ → Section
text_section code = record { type = 0x74786574; rest = code }

abbrev pub attr_section : ℕ → Section
attr_section toplevel = record {
  type = 0x72747461;
  rest = le_bytes 4 1 ++ (le_bytes 4 0 ++ (le_bytes 2 1 ++ le_bytes 4 (u32 toplevel)));
}

abbrev pub export_section : List Export → Section
export_section xs = record {
  type = 0x74707865;
  rest = le_bytes 4 (u32 (length xs)) ++ exports_bytes xs;
}

abbrev pub import_section : List Import → Section
import_section xs = record {
  type = 0x74706d69;
  rest = le_bytes 4 (u32 (length xs)) ++ imports_bytes xs;
}

-- The five sections of a file without debug information.
unfoldable pub sections : Ir → Annotation → List ℕ → ℕ → List Section
sections ir a code toplevel =
    data_section a
    ∷ text_section code
    ∷ attr_section toplevel
    ∷ export_section ir.exports
    ∷ import_section ir.imports
    ∷ []

-- What is asked of the text stage: on a new buffer it writes a text section.
abbrev pub WritesText : TextStage → Annotation → List ℕ → ℕ → Type 0
WritesText text a code toplevel =
    (b : Buffer)
    → IsFresh b
    → (b' : Buffer) × (text a b ≡ ok (b', toplevel))
      × IsValid b'
      × (contents b' ≡ le_bytes 4 0x74786574 ++ code)

merge_lem :
    (ec_malloc : Malloc) (bs : List Buffer) (bytes : List ℕ)
    → IsMalloc ec_malloc
    → ((n : ℕ) → ec_malloc n ≢ none)
    → ((block : List ℕ) → length block ≡ file_size bs → merge_into bs block 0 ≡ ok bytes)
    → merge ec_malloc bs ≡ ok bytes
unfolding merge
merge_lem ec_malloc bs bytes given plenty merged = elim (Option-cases (ec_malloc (file_size bs))) [
  | inl refused ↦ absurd (plenty (file_size bs) refused)
  | inr (block, got) ↦ rw (got, merged block (given _ _ got))
]

-- Each of five sections has room in a buffer, if the file is no larger than the loader reads.
HasRoom : Section → Type 0
HasRoom s = length (body s) + 513 < 2 ^ 64

sections-HasRoom :
    (s₁ s₂ s₃ s₄ s₅ : Section)
    → length (bodies (s₁ ∷ s₂ ∷ s₃ ∷ s₄ ∷ s₅ ∷ [])) < 2 ^ 32
    → HasRoom s₁ × HasRoom s₃ × HasRoom s₄ × HasRoom s₅
unfolding HasRoom
sections-HasRoom s₁ s₂ s₃ s₄ s₅ small =
    let n₁ = length-append {0} (body s₁) (bodies (s₂ ∷ s₃ ∷ s₄ ∷ s₅ ∷ [])) in
    let n₂ = length-append {0} (body s₂) (bodies (s₃ ∷ s₄ ∷ s₅ ∷ [])) in
    let n₃ = length-append {0} (body s₃) (bodies (s₄ ∷ s₅ ∷ [])) in
    let n₄ = length-append {0} (body s₄) (bodies (s₅ ∷ [])) in
    let n₅ = length-append {0} (body s₅) [] in (omega arith, omega arith, omega arith, omega arith)

bodies-below : (ss : List Section) → length (image ss) < 2 ^ 32 → length (bodies ss) < 2 ^ 32
bodies-below ss small =
    let n₁ = length-append {0} (le_bytes 4 (length ss)) (index 0 ss ++ bodies ss) in
    let n₂ = length-append {0} (index 0 ss) (bodies ss) in omega arith

index-room :
    (v : ℕ) (bs : List Buffer) (ss : List Section)
    → AreSections bs ss
    → length (image ss) < 2 ^ 32
    → length (le_bytes 4 v ++ entries_bytes bs 0) + 513 < 2 ^ 64
index-room v bs ss parts small =
    let near : 0 + length (bodies ss) < 2 ^ 32 = omega (arith, bodies-below ss small) in
    let same : length (entries_bytes bs 0) ≡ length (index 0 ss) =
      ap length (AreSections-index 0 parts near) in
    let n₁ = length-append {0} (le_bytes 4 (length ss)) (index 0 ss ++ bodies ss) in
    let n₂ = length-append {0} (index 0 ss) (bodies ss) in
    let n₃ = length-append {0} (le_bytes 4 v) (entries_bytes bs 0) in
    omega (arith, length-le_bytes 4 v)

module _ (malloc : Malloc) (given : IsMalloc malloc) (plenty : (n : ℕ) → malloc n ≢ none)
    (ec_malloc : Malloc) (ec_given : IsMalloc ec_malloc) (ec_plenty : (n : ℕ) → ec_malloc n ≢ none)
    (encode : List ℕ → Option (List ℕ)) (text : TextStage) (debug : DebugStage) where
  pub link-image :
      (ir : Ir) (a : Annotation) (code : List ℕ) (toplevel : ℕ) (b : Buffer)
      → IsFresh b
      → annotate encode ir.items 0 ≡ some a
      → WritesText text a code toplevel
      → length (image (sections ir a code toplevel)) < 2 ^ 32
      → link malloc ec_malloc encode text debug ir false (record {
        header = b;
        indexed = b;
        attr = b;
        dat = b;
        code = b;
        exported = b;
        imported = b;
        dbg0 = b;
        dbi0 = b;
      })
        ≡ ok (image (sections ir a code toplevel))
  unfolding link sections HasRoom
  link-image ir a code toplevel b f annotated writes small =
      let ss = sections ir a code toplevel in
      let room =
        sections-HasRoom (data_section a) (text_section code) (attr_section toplevel)
          (export_section ir.exports) (import_section ir.imports) (bodies-below ss small) in
      let texts : Texts (some a) = subst Texts annotated (annotate-Texts encode ir.items 0) in
      let (b₀, done₀, v₀, c₀) =
        fresh-written b f (Emits-write_header malloc given plenty) (omega arith) in
      let (b₁, done₁, v₁, c₁) =
        fresh-written b f (Emits-write_data malloc given plenty a.items texts) room.0 in
      let (b₂, done₂, v₂, c₂) = writes b f in
      let (b₃, done₃, v₃, c₃) =
        fresh-written b f (Emits-write_attr malloc given plenty toplevel) room.1 in
      let (b₄, done₄, v₄, c₄) =
        fresh-written b f (Emits-write_export malloc given plenty ir.exports) room.2 in
      let (b₅, done₅, v₅, c₅) =
        fresh-written b f (Emits-write_import malloc given plenty ir.imports) room.3 in
      let secs : List Buffer = b₁ ∷ b₂ ∷ b₃ ∷ b₄ ∷ b₅ ∷ b ∷ b ∷ [] in
      let parts : AreSections secs ss = full_one b₁ _ _ _ v₁ c₁ (
        full_one b₂ _ _ _ v₂ c₂ (
          full_one b₃ _ _ _ v₃ c₃ (
            full_one b₄ _ _ _ v₄ c₄ (
              full_one b₅ _ _ _ v₅ c₅ (
                empty_one b _ _ f.ready.valid f.size_is
                  (empty_one b _ _ f.ready.valid f.size_is none_left)))))) in
      let (bᵢ, doneᵢ, vᵢ, cᵢ) =
        fresh-written b f (Emits-write_index_counted malloc given plenty secs)
          (index-room (u32 (sec_count secs)) secs ss parts small) in
      let written : AreWritten b₀ bᵢ secs ss = record {
        sections = parts;
        head_valid = v₀;
        head_is = c₀;
        index_valid = vᵢ;
        index_is = cᵢ;
      } in
      rw (done₀, annotated, done₁, done₂, done₃, done₄, done₅, doneᵢ)
        (merge_lem ec_malloc (b₀ ∷ bᵢ ∷ secs) (image ss) ec_given ec_plenty
          (λ block e. merge-image b₀ bᵢ secs ss block written e small))
