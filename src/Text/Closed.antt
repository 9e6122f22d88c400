-- ===== src/Text/Closed.antt =====
-- Every branch of the annotated code stays in its function.
use mathlib.Core.List.{append_assoc}
use mathlib.Core.Path.{subst}
use xenonjs.Base.{
  ℕ, suc, ◌+◌, ◌*◌, ◌^◌, ◌<◌, List, [], ◌∷◌, ◌++◌, Option, some, ok, ◌≡◌, refl, sym, ap, ◌∙◌, arith,
  length, take, get_elem?, All, All-append, OnOk, OnOk-bind, OnOk-after, OnOk-weaken, OnOk-all,
  OnOk-and, OnOk-eq, take-append, length-append,
}
use xenonjs.Linker.{Annotation}
use xenonjs.Linker.File.{Link}
use xenonjs.Text.{AnnotatedItem, Function, Code, AnnotatedFunction, op_allocreg, label}
use xenonjs.Text.Bytes.{items_code}
use xenonjs.Text.Size.{IsItem}
use xenonjs.Text.Layout.{items_size, IsLaid, parameters-IsLaid}
use xenonjs.Text.Functions.{function_size, functions_size, IsFunctionLaid, function-IsLaid}
use xenonjs.Text.Writer.{operands}
use xenonjs.Text.Branches.{IsCut, Jumps, annotate_items-Jumps}
use xenonjs.Text.Cuts.{
  All-Jumps-weaken, IsCut-behind, LabelsMean, labels_or_null-mean, lbl-mean, AreStraight,
  parameters-Jumps, Cuts, annotate_items_at-IsCut, func_at, functions_size-append,
}
use xenonjs.Text.Labels.{IsLabelOf, label_offsets-IsLabelOf}
use xenonjs.Text.Translate.{Offsets, Whole, map_get, lbl}
use xenonjs.Text.Annotate.{
  Scheduler, Maps, context, boilerplate_size, FunctionOffsets, function_offsets, label_offsets,
  labels_or_null, annotate_parameters, annotate_items, annotate_function, annotate_functions,
  text_section_annotate, size_sum,
}

-- The branches of instructions that begin at `start` go to the first byte of one of them, or
-- behind the last one.
abbrev pub AreClosed : ℕ → List AnnotatedItem → Type 0
AreClosed start items =
    All (λ ti. Jumps (λ d. (n : ℕ) × (d ≡ start + n) × IsCut items n) ti.inst) items

abbrev pub AreAllClosed : ℕ → List AnnotatedFunction → Type 0
AreAllClosed start [] = Unit
AreAllClosed start (func ∷ functions) =
    AreClosed start func.items × AreAllClosed (start + length (items_code func.items)) functions

module _ (whole : Whole) (schedule : Function → Link Scheduler) (code : Code) (datas : Offsets)
    (functions : Offsets) (before : List Function) (func : Function) (rest : List Function)
    (split : code.functions ≡ before ++ (func ∷ rest))
    (small : functions_size whole code.functions < 2 ^ 32) where
  -- What a label of the function means: the bytes in front of one of its items.
  Means : ℕ → ℕ → Type 0
  Means l o =
      (n : ℕ) × (o ≡ functions_size whole before + boilerplate_size func + n)
      × Cuts whole func.items n

  label-Means : (l o : ℕ) → IsLabelOf whole code.functions 0 (length before) 0 l o → Means l o
  unfolding Means Cuts
  label-Means l o a =
      let index : a.index ≡ length before = omega (arith, a.index_is) in
      let at_index : get_elem? code.functions a.index ≡ some func =
        rw (index, split) (func_at before func rest) in
      let same : some a.func ≡ some func = sym a.func_is ∙ at_index in
      let it : a.func ≡ func = cc in
      let front : take a.index code.functions ≡ before =
        rw (index, split) (take-append before (func ∷ rest)) in
      (
        items_size whole a.at_label.before,
        omega
            (arith, a.at_label.offset_is, ap (functions_size whole) front, ap boilerplate_size it),
        (
          a.at_label.before,
          label l ∷ a.at_label.behind,
          ap (λ (f : Function). f.items) (sym it) ∙ a.at_label.items_are,
          refl,
        ),
      )

  labels-Mean :
      OnOk
        (LabelsMean Means)
        (labels_or_null (label_offsets whole (length before) code.functions 0 0 []))
  labels-Mean =
      labels_or_null-mean Means (label_offsets whole (length before) code.functions 0 0 [])
        λ labels done l o e.
          label-Means l o
            (label_offsets-IsLabelOf whole code.functions (length before) labels l o small done e)

  abbrev maps : Option Offsets → Maps
  maps labels = record { labels = labels; datas = datas; functions = functions }

  -- An annotated body that the branches to the function's labels stay in.
  IsBody : ℕ → List AnnotatedItem × ℕ → Type 0
  IsBody start r =
      All (λ ti. Jumps (λ d. (l : ℕ) × Means l d) ti.inst) r.0
      × ((n : ℕ) → Cuts whole func.items n → IsCut r.0 n)

  annotate_items-IsBody :
      (sched : Scheduler) (labels : Option Offsets) (start : ℕ)
      → All IsItem func.items
      → LabelsMean Means labels
      → OnOk (IsBody start) (annotate_items whole sched (maps labels) func.items 0 start)
  unfolding IsBody
  annotate_items-IsBody sched labels start are mean = OnOk-and _ _ _ jumps cuts
    where
      jumps :
          OnOk
            (λ r. All (λ ti. Jumps (λ d. (l : ℕ) × Means l d) ti.inst) r.0)
            (annotate_items whole sched (maps labels) func.items 0 start)
      jumps =
          annotate_items-Jumps (λ d. (l : ℕ) × Means l d) whole sched (maps labels) func.items 0
            start
            λ k l.
              OnOk-weaken (Means l) (λ d. (l : ℕ) × Means l d)
                (lbl (context sched (maps labels) k) l)
                (lbl-mean Means labels datas functions sched k l mean) λ d m. (l, m)

      cuts :
          OnOk
            (λ r. (n : ℕ) → Cuts whole func.items n → IsCut r.0 n)
            (annotate_items whole sched (maps labels) func.items 0 start)
      cuts =
          OnOk-weaken (λ r. (c : (n : ℕ) × Cuts whole func.items n) → IsCut r.0 c.0) _
            (annotate_items whole sched (maps labels) func.items 0 start)
            (OnOk-all (λ (c : (n : ℕ) × Cuts whole func.items n) r. IsCut r.0 c.0)
              (annotate_items whole sched (maps labels) func.items 0 start)
              λ c. annotate_items_at-IsCut whole sched (maps labels) func.items start c.0 are c.1)
            λ r h n c. h (n, c)

  function-AreClosed :
      All IsItem func.items
      → OnOk
          (λ r. AreClosed (functions_size whole before) r.0.items)
          (annotate_function whole schedule code datas functions func
            (length before)
            (functions_size whole before))
  unfolding annotate_function IsBody Means operands
  function-AreClosed are =
      let offset = functions_size whole before in
      let Q = λ (r : AnnotatedFunction × ℕ). AreClosed offset r.0.items in
      let fits : offset + 6 * length func.parameters < 2 ^ 64 = omega (
        arith,
        small,
        ap (functions_size whole) split,
        functions_size-append whole before (func ∷ rest),
      ) in
      OnOk-after Q (schedule func) _ λ sched.
        OnOk-after Q (map_get functions (length before)) _ λ place.
          OnOk-bind (LabelsMean Means) Q _ _ labels-Mean λ labels mean.
            OnOk-bind (λ r. IsLaid offset (6 * length func.parameters) r × AreStraight r.0) Q
              (annotate_parameters datas func.parameters 0 offset) _
              (OnOk-and _ _ _ (parameters-IsLaid datas func.parameters 0 offset fits) (
                OnOk-all (λ P (r : List AnnotatedItem × ℕ). All (λ ti. Jumps P ti.inst) r.0)
                  (annotate_parameters datas func.parameters 0 offset)
                  λ P. parameters-Jumps P datas func.parameters 0 offset))
              λ arguments a.
                OnOk-bind (IsBody (size_sum arguments.1 2)) Q _ _
                  (annotate_items-IsBody sched labels (size_sum arguments.1 2) are mean)
                  λ body b.
                    let count : AnnotatedItem = record {
                      inst = op_allocreg sched.requirement;
                      offset = arguments.1;
                    } in
                    let items = arguments.0 ++ (count ∷ body.0) in
                    let P = λ (d : ℕ). (l : ℕ) × Means l d in
                    let Here = λ (d : ℕ). (n : ℕ) × (d ≡ offset + n) × IsCut items n in
                    let lands : (d : ℕ) → P d → Here d = λ d p. (
                      length (items_code arguments.0) + (2 + p.1.0),
                      omega (arith, p.1.1, a.0.length_is),
                      IsCut-behind arguments.0 (count ∷ body.0) (2 + p.1.0)
                          (IsCut-behind (count ∷ []) body.0 p.1.0 (b.1 p.1.0 p.1.2)),
                    ) in
                    All-append (λ ti. Jumps Here ti.inst) arguments.0 (count ∷ body.0) (a.1 Here)
                      (tt, All-Jumps-weaken P Here body.0 lands b.0)

module _ (whole : Whole) (schedule : Function → Link Scheduler) (code : Code) (datas : Offsets)
    (functions : Offsets) (small : functions_size whole code.functions < 2 ^ 32) where
  functions-AreClosed :
      (before rest : List Function)
      → code.functions ≡ before ++ rest
      → All (λ func. All IsItem func.items) rest
      → OnOk (AreAllClosed (functions_size whole before)) (
          annotate_functions whole schedule code datas functions rest
            (length before)
            (functions_size whole before))
  unfolding annotate_functions
  functions-AreClosed before [] split are = tt
  functions-AreClosed before (func ∷ rest) split are =
      let offset = functions_size whole before in
      let one = annotate_function whole schedule code datas functions func (length before) offset in
      let split' : code.functions ≡ (before ++ (func ∷ [])) ++ rest =
        split ∙ sym (append_assoc before (func ∷ []) rest) in
      let sizes = functions_size-append whole before (func ∷ rest) in
      let count : length (before ++ (func ∷ [])) ≡ suc (length before) =
        omega (arith, length-append {0} before (func ∷ [])) in
      let size : functions_size whole (before ++ (func ∷ [])) ≡ offset + function_size whole func =
        omega (arith, functions_size-append whole before (func ∷ [])) in
      let fits : offset + function_size whole func < 2 ^ 64 =
        omega (arith, small, sizes, ap (functions_size whole) split) in
      let closed =
        function-AreClosed whole schedule code datas functions before func rest split small are.0 in
      let laid =
        function-IsLaid whole schedule code datas functions func (length before) offset are.0
          fits in
      OnOk-bind
        (λ r. AreClosed offset r.0.items × IsFunctionLaid offset (function_size whole func) r)
        (AreAllClosed offset) one _ (OnOk-and _ _ one closed laid)
        λ r h.
          OnOk-bind (AreAllClosed (functions_size whole (before ++ (func ∷ []))))
            (AreAllClosed offset)
            (annotate_functions whole schedule code datas functions rest (suc (length before)) r.1)
            _
            (rw (h.1.end_is ∙ sym size, sym count)
              (functions-AreClosed (before ++ (func ∷ [])) rest split' are.1))
            λ later t. (
              h.0,
              subst (λ k. AreAllClosed k later) (size ∙ ap (λ n. offset + n) (sym h.1.length_is)) t,
            )

-- If the annotation of a code of fewer than 2^32 bytes, whose doubles have eight bytes, gives
-- functions, every branch in a function goes to the first byte of an instruction of the same
-- function, or behind its last one.
pub text_section_annotate-AreAllClosed :
    (whole : Whole) (schedule : Function → Link Scheduler) (code : Code) (dat : Annotation)
    (r : List AnnotatedFunction × ℕ)
    → All (λ func. All IsItem func.items) code.functions
    → functions_size whole code.functions < 2 ^ 32
    → text_section_annotate whole schedule code dat ≡ ok r
    → AreAllClosed 0 r.0
unfolding text_section_annotate
text_section_annotate-AreAllClosed whole schedule code dat r are small done =
    let nothing : FunctionOffsets = record { offsets = []; toplevel = 0 } in
    let Q = λ (r : List AnnotatedFunction × ℕ). AreAllClosed 0 r.0 in
    OnOk-eq Q
      (OnOk-after Q (function_offsets whole code.toplevel code.functions 0 0 nothing) _ λ found.
        OnOk-bind (AreAllClosed 0) Q
          (annotate_functions whole schedule code dat.offsets found.offsets code.functions 0 0) _
          (functions-AreClosed whole schedule code dat.offsets found.offsets small [] code.functions
            refl are)
          λ annotated closed. closed)
      done
