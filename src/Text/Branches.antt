-- ===== src/Text/Branches.antt =====
-- Where branches go: to a boundary between two instructions of the same function.
use xenonjs.Base.{
  ℕ, suc, ◌+◌, ◌^◌, List, [], ◌∷◌, ◌++◌, Option, none, some, ok, ◌≡◌, refl, ap, arith, length, All,
  OnOk, OnOk-bind, OnOk-after, ltb, if◌then◌else◌, length-append, Bool, true, false, Bool-cases,
  Option-cases, inl, inr, ◌-◌, OnOk-every,
}
use xenonjs.Text.{
  TextItem, Inst, AnnotatedItem, br, br_cond, make_function, call, new, declvar, store, load,
  load_bool, load_number, load_string, op_br, op_brc, argc_max,
}
use xenonjs.Text.Bytes.{encode, items_code}
use xenonjs.Text.Size.{IsItem, SizedAs, translate-Sized}
use xenonjs.Text.Layout.{items_size, SizedAs-OnOk}
use xenonjs.Text.Translate.{
  Context, Whole, lbl, number_inst, checked, call_inst, item_size, translate, dataid, funcid,
  is_negative, in_range,
}
use xenonjs.Text.Annotate.{Scheduler, Maps, context, annotate_items, size_sum, cast_size, push_item}

-- A list of instructions may be cut where `n` bytes of them have passed.
pub record IsCut (items : List AnnotatedItem) (n : ℕ) : Type 0 where
  pub front : List AnnotatedItem
  pub back : List AnnotatedItem
  pub items_are : items ≡ front ++ back
  pub bytes_are : n ≡ length (items_code front)

push-IsCut :
    (whole : Whole) (item : TextItem) (offset m : ℕ) (inst : Option Inst)
    (items : List AnnotatedItem)
    → SizedAs (item_size whole item) (ok inst)
    → IsCut items m
    → IsCut (push_item offset inst items) (cast_size (item_size whole item) + m)
push-IsCut whole item offset m none items s c =
    let none_in : cast_size (item_size whole item) ≡ 0 = ap cast_size s in
    record {
      front = c.front;
      back = c.back;
      items_are = c.items_are;
      bytes_are = omega (arith, none_in, c.bytes_are);
    }
push-IsCut whole item offset m (some i) items s c =
    let size : cast_size (item_size whole item) ≡ length (encode i) = ap cast_size s.1 in
    record {
      front = record { inst = i; offset = offset } ∷ c.front;
      back = c.back;
      items_are = ap (λ t. record { inst = i; offset = offset } ∷ t) c.items_are;
      bytes_are =
          omega (arith, size, c.bytes_are, length-append {0} (encode i) (items_code c.front));
    }

-- What holds of the destination of an instruction, if it is a branch.
abbrev pub Jumps : (ℕ → Type 0) → Inst → Type 0
Jumps P (op_br d) = P d
Jumps P (op_brc r d) = P d
Jumps P i = Unit

abbrev JumpsIf : (ℕ → Type 0) → Option Inst → Type 0
JumpsIf P none = Unit
JumpsIf P (some i) = Jumps P i

if-Jumps :
    (P : ℕ → Type 0) (b : Bool) (i j : Inst) → Jumps P i → Jumps P j → Jumps P (if b then i else j)
if-Jumps P true i j h k = h
if-Jumps P false i j h k = k

number-Jumps :
    (P : ℕ → Type 0) (whole : Whole) (r : ℕ) (value : List ℕ) → Jumps P (number_inst whole r value)
unfolding number_inst
number-Jumps P whole r value = elim (Option-cases (whole value)) [
  | inl e ↦ rw (number_inst, e) tt
  | inr (v, e) ↦
      rw (number_inst, e)
        (if-Jumps P (is_negative v) _ _
          (if-Jumps P (in_range v (2 ^ 32 - 128) (2 ^ 32)) _ _ tt
            (if-Jumps P (in_range v (2 ^ 32 - 32768) (2 ^ 32 - 128)) _ _ tt tt))
          (if-Jumps P (in_range v 0 128) _ _ tt (if-Jumps P (in_range v 128 32768) _ _ tt tt)))
]

checked-Jumps :
    (P : ℕ → Type 0) (arguments : List ℕ) (i : Inst)
    → Jumps P i
    → OnOk (JumpsIf P) (checked arguments i)
unfolding checked
checked-Jumps P arguments i h = elim (Bool-cases (ltb argc_max (length arguments))) [
  | inl e ↦ rw (checked, e) tt
  | inr e ↦ rw (checked, e) h
]

translate-Jumps :
    (P : ℕ → Type 0) (whole : Whole) (ctx : Context)
    → ((l : ℕ) → OnOk P (lbl ctx l))
    → (item : TextItem) → OnOk (JumpsIf P) (translate whole ctx item)
unfolding translate call_inst
translate-Jumps P whole ctx known (br dest) =
    OnOk-bind P (JumpsIf P) (lbl ctx dest) _ (known dest) λ d p. p
translate-Jumps P whole ctx known (br_cond cond dest) =
    OnOk-bind P (JumpsIf P) (lbl ctx dest) _ (known dest) λ d p. p
translate-Jumps P whole ctx known (make_function var func) =
    OnOk-after (JumpsIf P) (funcid ctx func) _ λ d. tt
translate-Jumps P whole ctx known (call dst callee arguments none) = checked-Jumps P arguments _ tt
translate-Jumps P whole ctx known (call dst callee arguments (some self)) =
    checked-Jumps P arguments _ tt
translate-Jumps P whole ctx known (new dst callee arguments) = checked-Jumps P arguments _ tt
translate-Jumps P whole ctx known (declvar variable) =
    OnOk-after (JumpsIf P) (dataid ctx variable) _ λ d. tt
translate-Jumps P whole ctx known (store variable var) =
    OnOk-after (JumpsIf P) (dataid ctx variable) _ λ d. tt
translate-Jumps P whole ctx known (load var variable) =
    OnOk-after (JumpsIf P) (dataid ctx variable) _ λ d. tt
translate-Jumps P whole ctx known (load_bool var false) = tt
translate-Jumps P whole ctx known (load_bool var true) = tt
translate-Jumps P whole ctx known (load_number var value) = number-Jumps P whole _ value
translate-Jumps P whole ctx known (load_string var d) =
    OnOk-after (JumpsIf P) (dataid ctx d) _ λ o. tt
translate-Jumps P whole ctx known item = tt

push-Jumps :
    (P : ℕ → Type 0) (offset : ℕ) (inst : Option Inst) (items : List AnnotatedItem)
    → JumpsIf P inst
    → All (λ ti. Jumps P ti.inst) items
    → All (λ ti. Jumps P ti.inst) (push_item offset inst items)
push-Jumps P offset none items h t = t
push-Jumps P offset (some i) items h t = (h, t)

pub annotate_items-Jumps :
    (P : ℕ → Type 0) (whole : Whole) (sched : Scheduler) (maps : Maps) (items : List TextItem)
    (point offset : ℕ)
    → ((k l : ℕ) → OnOk P (lbl (context sched maps k) l))
    → OnOk
        (λ r. All (λ ti. Jumps P ti.inst) r.0)
        (annotate_items whole sched maps items point offset)
unfolding annotate_items
annotate_items-Jumps P whole sched maps [] point offset known = tt
annotate_items-Jumps P whole sched maps (item ∷ items) point offset known =
    let Q = λ (r : List AnnotatedItem × ℕ). All (λ ti. Jumps P ti.inst) r.0 in
    let next = size_sum offset (cast_size (item_size whole item)) in
    OnOk-bind (JumpsIf P) Q (translate whole (context sched maps point) item) _
      (translate-Jumps P whole (context sched maps point) (known point) item)
      λ inst j.
        OnOk-bind Q Q (annotate_items whole sched maps items (suc point) next) _
          (annotate_items-Jumps P whole sched maps items (suc point) next known)
          λ later t. push-Jumps P offset inst later.0 j t

pub annotate_items-IsCut :
    (whole : Whole) (sched : Scheduler) (maps : Maps) (before rest : List TextItem)
    (point offset : ℕ)
    → All IsItem (before ++ rest)
    → OnOk
        (λ r. IsCut r.0 (items_size whole before))
        (annotate_items whole sched maps (before ++ rest) point offset)
unfolding annotate_items
annotate_items-IsCut whole sched maps [] rest point offset are =
    OnOk-every (λ r. IsCut r.0 0) (annotate_items whole sched maps rest point offset)
      λ r. record { front = []; back = r.0; items_are = refl; bytes_are = refl }
annotate_items-IsCut whole sched maps (item ∷ before) rest point offset are =
    let size = cast_size (item_size whole item) in
    let next = size_sum offset size in
    OnOk-bind (λ inst. SizedAs (item_size whole item) (ok inst))
      (λ r. IsCut r.0 (items_size whole (item ∷ before)))
      (translate whole (context sched maps point) item) _
      (SizedAs-OnOk (item_size whole item) (translate whole (context sched maps point) item)
        (translate-Sized whole (context sched maps point) item are.0))
      λ inst s.
        OnOk-bind (λ r. IsCut r.0 (items_size whole before))
          (λ r. IsCut r.0 (items_size whole (item ∷ before)))
          (annotate_items whole sched maps (before ++ rest) (suc point) next) _
          (annotate_items-IsCut whole sched maps before rest (suc point) next are.1)
          λ later c. push-IsCut whole item offset (items_size whole before) inst later.0 s c
