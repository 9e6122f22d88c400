-- ===== src/Text/Cuts.antt =====
-- What a way to cut the items of a function, and the map of its labels, mean for its branches.
use mathlib.Core.List.{append_assoc}
use xenonjs.Base.{
  ℕ, suc, ◌+◌, List, [], ◌∷◌, ◌++◌, Option, none, some, ok, fail, fault, ◌≡◌, refl, sym, ap, ◌∙◌,
  arith, length, get_elem?, All, OnOk, OnOk-bind, OnOk-after, OnOk-weaken, Option-cases, inl, inr,
}
use xenonjs.Linker.File.{Link}
use xenonjs.Text.{TextItem, Inst, AnnotatedItem, Function, op_br, op_brc}
use xenonjs.Text.Bytes.{items_code}
use xenonjs.Text.Size.{IsItem}
use xenonjs.Text.Layout.{items_size}
use xenonjs.Text.Functions.{functions_size, length-items_code}
use xenonjs.Text.Branches.{IsCut, Jumps, annotate_items-IsCut}
use xenonjs.Text.Translate.{Offsets, Whole, find, map_get, lbl}
use xenonjs.Text.Annotate.{
  Scheduler, Maps, context, labels_or_null, annotate_parameters, annotate_items, size_sum,
}

Jumps-weaken : (P Q : ℕ → Type 0) (i : Inst) → ((d : ℕ) → P d → Q d) → Jumps P i → Jumps Q i
Jumps-weaken P Q (op_br d) w h = w d h
Jumps-weaken P Q (op_brc r d) w h = w d h
Jumps-weaken P Q i w h = tt

pub All-Jumps-weaken :
    (P Q : ℕ → Type 0) (items : List AnnotatedItem)
    → ((d : ℕ) → P d → Q d)
    → All (λ ti. Jumps P ti.inst) items
    → All (λ ti. Jumps Q ti.inst) items
All-Jumps-weaken P Q [] w h = tt
All-Jumps-weaken P Q (ti ∷ items) w h =
    (Jumps-weaken P Q ti.inst w h.0, All-Jumps-weaken P Q items w h.1)

-- Instructions in front move a cut.
pub IsCut-behind :
    (front items : List AnnotatedItem) (n : ℕ)
    → IsCut items n
    → IsCut (front ++ items) (length (items_code front) + n)
IsCut-behind front items n c = record {
  front = front ++ c.front;
  back = c.back;
  items_are = ap (λ t. front ++ t) c.items_are ∙ sym (append_assoc front c.front c.back);
  bytes_are = omega (arith, c.bytes_are, length-items_code front c.front);
}

-- What a map of labels that is there means.
abbrev pub LabelsMean : (ℕ → ℕ → Type 0) → Option Offsets → Type 0
LabelsMean P none = Unit
LabelsMean P (some m) = (l o : ℕ) → find m l ≡ some o → P l o

pub labels_or_null-mean :
    (P : ℕ → ℕ → Type 0) (m : Link Offsets)
    → ((labels : Offsets) → m ≡ ok labels → LabelsMean P (some labels))
    → OnOk (LabelsMean P) (labels_or_null m)
unfolding labels_or_null
labels_or_null-mean P (ok labels) h = h labels refl
labels_or_null-mean P (fail e) h = tt
labels_or_null-mean P fault h = tt

map_get-found : (m : Offsets) (l : ℕ) → OnOk (λ o. find m l ≡ some o) (map_get m l)
unfolding map_get
map_get-found m l = elim (Option-cases (find m l)) [
  | inl e ↦ rw (map_get, e) tt
  | inr (o, e) ↦ rw (map_get, e) refl
]

pub lbl-mean :
    (P : ℕ → ℕ → Type 0) (labels : Option Offsets) (datas functions : Offsets) (sched : Scheduler)
    (point l : ℕ)
    → LabelsMean P labels
    → OnOk (P l) (
        lbl
          (context sched (record { labels = labels; datas = datas; functions = functions }) point)
          l)
unfolding lbl
lbl-mean P none datas functions sched point l mean = tt
lbl-mean P (some m) datas functions sched point l mean =
    OnOk-weaken (λ o. find m l ≡ some o) (P l) (map_get m l) (map_get-found m l) (mean l)

pub functions_size-append :
    (whole : Whole) (xs ys : List Function)
    → functions_size whole (xs ++ ys) ≡ functions_size whole xs + functions_size whole ys
functions_size-append whole [] ys = omega arith
functions_size-append whole (x ∷ xs) ys = omega (arith, functions_size-append whole xs ys)

-- A function that is found at its index.
pub func_at :
    (before : List Function) (func : Function) (rest : List Function)
    → get_elem? (before ++ (func ∷ rest)) (length before) ≡ some func
func_at [] func rest = refl
func_at (f ∷ before) func rest = func_at before func rest

-- No instruction is a branch.
abbrev pub AreStraight : List AnnotatedItem → Type 1
AreStraight items = (P : ℕ → Type 0) → All (λ ti. Jumps P ti.inst) items

pub parameters-Jumps :
    (P : ℕ → Type 0) (datas : Offsets) (ps : List ℕ) (idx offset : ℕ)
    → OnOk (λ r. All (λ ti. Jumps P ti.inst) r.0) (annotate_parameters datas ps idx offset)
unfolding annotate_parameters
parameters-Jumps P datas [] idx offset = tt
parameters-Jumps P datas (p ∷ ps) idx offset =
    let Q = λ (r : List AnnotatedItem × ℕ). All (λ ti. Jumps P ti.inst) r.0 in
    OnOk-after Q (map_get datas p) _ λ d.
      OnOk-bind Q Q (annotate_parameters datas ps (suc idx) (size_sum offset 6)) _
        (parameters-Jumps P datas ps (suc idx) (size_sum offset 6)) λ later t. (tt, t)

-- A way to cut the items of a function.
unfoldable pub Cuts : Whole → List TextItem → ℕ → Type 0
Cuts whole items n =
    (front : List TextItem) × (back : List TextItem) × (items ≡ front ++ back)
    × (n ≡ items_size whole front)

pub annotate_items_at-IsCut :
    (whole : Whole) (sched : Scheduler) (maps : Maps) (items : List TextItem) (offset n : ℕ)
    → All IsItem items
    → Cuts whole items n
    → OnOk (λ r. IsCut r.0 n) (annotate_items whole sched maps items 0 offset)
unfolding Cuts
annotate_items_at-IsCut whole sched maps items offset n are (front, back, split, bytes) =
    rw (split, bytes) (annotate_items-IsCut whole sched maps front back 0 offset (rw split at are))
