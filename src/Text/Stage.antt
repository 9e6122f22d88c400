-- ===== src/Text/Stage.antt =====
-- compiler/src/xjs_c4.c: the text stage of the compiler, and what it writes to a new buffer.
use xenonjs.Base.{
  ℕ, ◌+◌, ◌^◌, ◌<◌, List, [], ◌∷◌, none, ok, ◌>>=◌, ◌≡◌, ◌≢◌, refl, arith, length, length-append,
  All,
}
use xenonjs.Buffer.{Malloc}
use xenonjs.Buffer.Valid.{IsMalloc}
use xenonjs.Linker.{Annotation, signature_text}
use xenonjs.Linker.File.{Link, TextStage, or_fail}
use xenonjs.Linker.Whole.{fresh-written, WritesText}
use xenonjs.Xfile.Sits.{Sits, Sits-left, Sits-right, Sits-at}
use xenonjs.Text.{AnnotatedItem, Function, Code, AnnotatedFunction}
use xenonjs.Text.Translate.{Whole}
use xenonjs.Text.Annotate.{Scheduler, text_section_annotate}
use xenonjs.Text.Writer.{write_text}
use xenonjs.Text.Bytes.{encode, items_code, functions_code, Emits-write_text_encoded}
use xenonjs.Text.Layout.{AreAt, AreSound}
use xenonjs.Text.Functions.{AreFunctionsAt}

-- The annotation and the writing of the text section, as `xjs_c4_start_ex` does them in turn.
unfoldable pub text_stage : Malloc → Whole → (Function → Link Scheduler) → Code → TextStage
text_stage malloc whole schedule code dat bw = do
  (functions, toplevel) ← text_section_annotate whole schedule code dat
  bw' ← or_fail (write_text malloc functions bw)
  ok (bw', toplevel)

module _ (malloc : Malloc) (given : IsMalloc malloc) (plenty : (n : ℕ) → malloc n ≢ none) where
  -- The stage writes a text section, the code of the annotated functions.
  pub text_stage-WritesText :
      (whole : Whole) (schedule : Function → Link Scheduler) (code : Code) (dat : Annotation)
      (functions : List AnnotatedFunction) (toplevel : ℕ)
      → All (λ func. AreSound func.items) functions
      → text_section_annotate whole schedule code dat ≡ ok (functions, toplevel)
      → length (functions_code functions) < 2 ^ 32
      → WritesText (text_stage malloc whole schedule code) dat (functions_code functions) toplevel
  unfolding text_stage
  text_stage-WritesText whole schedule code dat functions toplevel sound done small b fresh =
      let size = length-append {0} signature_text (functions_code functions) in
      let (b', written, valid, bytes_are) =
        fresh-written b fresh (Emits-write_text_encoded malloc given plenty functions sound)
          (omega (arith, size)) in
      (b', rw (done, written), valid, bytes_are)

-- Every instruction sits in the code at its offset.
items-Sits :
    (items : List AnnotatedItem) (base start : ℕ) (bytes : List ℕ)
    → AreAt start items
    → Sits (items_code items) (base + start) bytes
    → All (λ ti. Sits (encode ti.inst) (base + ti.offset) bytes) items
items-Sits [] base start bytes at s = tt
items-Sits (ti ∷ items) base start bytes at s = (
  Sits-at (Sits-left (encode ti.inst) (items_code items) s) refl (omega (arith, at.0)),
  items-Sits items base (start + length (encode ti.inst)) bytes at.1
      (Sits-at (Sits-right (encode ti.inst) (items_code items) s) refl (omega arith)),
)

pub functions-Sits :
    (functions : List AnnotatedFunction) (base start : ℕ) (bytes : List ℕ)
    → AreFunctionsAt start functions
    → Sits (functions_code functions) (base + start) bytes
    → All (λ func. All (λ ti. Sits (encode ti.inst) (base + ti.offset) bytes) func.items) functions
functions-Sits [] base start bytes at s = tt
functions-Sits (func ∷ functions) base start bytes at s =
    let code = items_code func.items in
    let later = functions_code functions in
    (
      items-Sits func.items base start bytes at.0 (Sits-left code later s),
      functions-Sits functions base (start + length code) bytes at.1
          (Sits-at (Sits-right code later s) refl (omega arith)),
    )
