-- ===== src/Text/Labels.antt =====
-- The offsets of labels are places in the text section.
use native.Mathlib.Nat.{mod-eq_of_lt}
use xenonjs.Base.{
  ℕ, suc, ◌+◌, ◌^◌, ◌<◌, List, [], ◌∷◌, ◌++◌, Option, none, some, ok, ◌>>=◌, ◌≡◌, refl, sym, ap,
  ◌∙◌, arith, take, get_elem?, OnOk, OnOk-bind, OnOk-weaken, OnOk-eq, ◌==◌, ==_iff, if◌then◌else◌,
  u32, Bool-cases, Option-cases, ◌⊎◌, inl, inr, false,
}
use xenonjs.Linker.File.{given_or_fail}
use xenonjs.Text.{TextItem, Function, label}
use xenonjs.Text.Layout.{items_size}
use xenonjs.Text.Functions.{function_size, functions_size, given_size, skip_items-end}
use xenonjs.Text.Places.{find_self, find_other}
use xenonjs.Text.Translate.{Offsets, Whole, find, item_size}
use xenonjs.Text.Annotate.{
  boilerplate_size, skip_items, note_label, label_items, label_offsets, cast_size,
}

-- A label of a map stands in front of an item of the function, at the bytes before that.
pub record IsLabelAt (whole : Whole) (items : List TextItem) (offset l o : ℕ) : Type 0 where
  pub before : List TextItem
  pub behind : List TextItem
  pub items_are : items ≡ before ++ (label l ∷ behind)
  pub offset_is : o ≡ offset + items_size whole before

IsLabelAt-cons :
    (whole : Whole) (item : TextItem) (items : List TextItem) (offset l o : ℕ)
    → IsLabelAt whole items (offset + cast_size (item_size whole item)) l o
    → IsLabelAt whole (item ∷ items) offset l o
IsLabelAt-cons whole item items offset l o a = record {
  before = item ∷ a.before;
  behind = a.behind;
  items_are = ap (λ t. item ∷ t) a.items_are;
  offset_is = omega (arith, a.offset_is);
}

-- Every label of the later map was there before, or is the item's.
AreNoted : TextItem → ℕ → Offsets → Offsets → Type 0
AreNoted item offset old later =
    (l o : ℕ) → find later l ≡ some o → (find old l ≡ some o) ⊎ ((item ≡ label l) × (o ≡ offset))

note_same : (item : TextItem) (offset : ℕ) (old : Offsets) → AreNoted item offset old old
unfolding AreNoted
note_same item offset old l o e = inl e

different : (l k : ℕ) → l ≡ k → ¬ (l == k ≡ false)
different l k same other = let equal = (==_iff l k).1 same in cc

noted_label : (k offset : ℕ) (old : Offsets) → AreNoted (label k) offset old ((k, offset) ∷ old)
unfolding AreNoted
noted_label k offset old l o e = elim (Bool-cases (l == k)) [
  | inl same ↦
      let at_k : l ≡ k = (==_iff l k).0 same in
      let hit : some offset ≡ some o =
        sym (find_self old k offset) ∙ ap (find ((k, offset) ∷ old)) (sym at_k) ∙ e in
      inr (ap label (sym at_k), cc)
  | inr other ↦ inl (sym (find_other old l k offset (λ same. different l k same other)) ∙ e)
]

note_label-AreNoted :
    (item : TextItem) (offset : ℕ) (old : Offsets)
    → OnOk (AreNoted item offset old) (note_label item offset old)
unfolding note_label
note_label-AreNoted (label l) offset old = elim (Option-cases (find old l)) [
  | inl e ↦ rw (note_label, e) (noted_label l offset old)
  | inr (v, e) ↦ rw (note_label, e) tt
]
note_label-AreNoted item offset old = note_same item offset old

-- What the labels of the later map mean, if those of the old map mean nothing.
AreLabelsAt : Whole → List TextItem → ℕ → Offsets → Offsets → Type 0
AreLabelsAt whole items offset old later =
    (l o : ℕ) → find later l ≡ some o → (find old l ≡ some o) ⊎ IsLabelAt whole items offset l o

step-AreLabelsAt :
    (whole : Whole) (item : TextItem) (items : List TextItem) (offset : ℕ)
    (old middle later : Offsets)
    → AreNoted item offset old middle
    → AreLabelsAt whole items (offset + cast_size (item_size whole item)) middle later
    → AreLabelsAt whole (item ∷ items) offset old later
unfolding AreLabelsAt AreNoted
step-AreLabelsAt whole item items offset old middle later noted at_rest l o e =
    elim (at_rest l o e) [
      | inr a ↦ inr (IsLabelAt-cons whole item items offset l o a)
      | inl known ↦ elim (noted l o known) [
        | inl older ↦ inl older
        | inr (is_label, here) ↦ inr (record {
          before = [];
          behind = items;
          items_are = ap (λ t. t ∷ items) is_label;
          offset_is = omega (arith, here);
        })
      ]
    ]

-- The labels of one function.
label_items-AreLabelsAt :
    (whole : Whole) (items : List TextItem) (offset : ℕ) (old : Offsets)
    → offset + items_size whole items < 2 ^ 32
    → OnOk
        (λ r. AreLabelsAt whole items offset old r.0 × (r.1 ≡ offset + items_size whole items))
        (label_items whole items offset old)
unfolding label_items AreLabelsAt
label_items-AreLabelsAt whole [] offset old h = (λ l o e. inl e, omega arith)
label_items-AreLabelsAt whole (item ∷ items) offset old h =
    let size = cast_size (item_size whole item) in
    let Q = λ (r : Offsets × ℕ).
      AreLabelsAt whole (item ∷ items) offset old r.0
      × (r.1 ≡ offset + items_size whole (item ∷ items)) in
    OnOk-bind (λ n. size ≡ n) Q (given_or_fail (item_size whole item)) _
      (given_size (item_size whole item))
      λ n e.
        OnOk-bind (AreNoted item offset old) Q (note_label item offset old) _
          (note_label-AreNoted item offset old)
          λ middle noted.
            let next : u32 (offset + n) ≡ offset + size = rw (← e) (mod-eq_of_lt (omega arith)) in
            OnOk-weaken
              (λ r.
                AreLabelsAt whole items (offset + size) middle r.0
                × (r.1 ≡ offset + size + items_size whole items))
              Q (label_items whole items (u32 (offset + n)) middle)
              (rw next (label_items-AreLabelsAt whole items (offset + size) middle (omega arith)))
              λ r l. (
                step-AreLabelsAt whole item items offset old middle r.0 noted l.0,
                omega (arith, l.1),
              )

-- The label of the map belongs to function `wanted`, of the functions from `funcid` on.
pub record IsLabelOf (whole : Whole) (rest : List Function) (funcid wanted offset l o : ℕ)
    : Type 0 where
  pub func : Function
  pub index : ℕ
  pub index_is : funcid + index ≡ wanted
  pub func_is : get_elem? rest index ≡ some func
  pub at_label :
      IsLabelAt whole func.items
        (offset + functions_size whole (take index rest) + boilerplate_size func)
        l
        o

later-IsLabelOf :
    (whole : Whole) (func : Function) (rest : List Function) (funcid wanted offset l o : ℕ)
    → IsLabelOf whole rest (suc funcid) wanted (offset + function_size whole func) l o
    → IsLabelOf whole (func ∷ rest) funcid wanted offset l o
later-IsLabelOf whole func rest funcid wanted offset l o a = record {
  func = a.func;
  index = suc a.index;
  index_is = omega (arith, a.index_is);
  func_is = a.func_is;
  at_label = record {
    before = a.at_label.before;
    behind = a.at_label.behind;
    items_are = a.at_label.items_are;
    offset_is = omega (arith, a.at_label.offset_is);
  };
}

AreLabelsOf : Whole → List Function → ℕ → ℕ → ℕ → Offsets → Offsets → Type 0
AreLabelsOf whole rest funcid wanted offset old later =
    (l o : ℕ)
    → find later l ≡ some o
    → (find old l ≡ some o) ⊎ IsLabelOf whole rest funcid wanted offset l o

module _ (whole : Whole) (func : Function) (funcid wanted offset : ℕ) (old : Offsets)
    (small : offset + function_size whole func < 2 ^ 32) where
  -- One function: its labels if it is the one, and in any case the offset behind it.
  Pass : Offsets × ℕ → Type 0
  Pass r =
      ((l o : ℕ)
        → find r.0 l ≡ some o
        → (find old l ≡ some o)
          ⊎ ((funcid ≡ wanted) × IsLabelAt whole func.items (offset + boilerplate_size func) l o))
      × (r.1 ≡ offset + function_size whole func)

  one-Pass : OnOk Pass (
      if funcid == wanted
      then label_items whole func.items (u32 (offset + boilerplate_size func)) old
      else (do
        offset' ← skip_items whole func.items (u32 (offset + boilerplate_size func))
        ok (old, offset')))
  unfolding Pass AreLabelsAt
  one-Pass =
      let start = offset + boilerplate_size func in
      let start_is : u32 start ≡ start = mod-eq_of_lt (omega arith) in
      elim (Bool-cases (funcid == wanted)) [
        | inl same ↦
            rw (same, start_is)
              (OnOk-weaken
                (λ r.
                  AreLabelsAt whole func.items start old r.0
                  × (r.1 ≡ start + items_size whole func.items))
                Pass (label_items whole func.items start old)
                (label_items-AreLabelsAt whole func.items start old (omega arith))
                λ r p. (
                  λ l o e. elim (p.0 l o e) [
                    | inl known ↦ inl known
                    | inr a ↦ inr ((==_iff funcid wanted).0 same, a)
                  ],
                  omega (arith, p.1),
                ))
        | inr other ↦
            rw (other, start_is)
              (OnOk-bind (λ end. end ≡ start + items_size whole func.items) Pass
                (skip_items whole func.items start) _
                (skip_items-end whole func.items start (omega arith))
                λ end e. (λ l o found. inl found, omega (arith, e)))
      ]

label_offsets-AreLabelsOf :
    (whole : Whole) (wanted : ℕ) (rest : List Function) (funcid offset : ℕ) (old : Offsets)
    → offset + functions_size whole rest < 2 ^ 32
    → OnOk
        (AreLabelsOf whole rest funcid wanted offset old)
        (label_offsets whole wanted rest funcid offset old)
unfolding label_offsets AreLabelsOf Pass
label_offsets-AreLabelsOf whole wanted [] funcid offset old h = λ l o e. inl e
label_offsets-AreLabelsOf whole wanted (func ∷ rest) funcid offset old h =
    let size = function_size whole func in
    let Q = AreLabelsOf whole (func ∷ rest) funcid wanted offset old in
    OnOk-bind (Pass whole func funcid wanted offset old (omega arith)) Q _ _
      (one-Pass whole func funcid wanted offset old (omega arith))
      λ r p.
        OnOk-weaken (AreLabelsOf whole rest (suc funcid) wanted (offset + size) r.0) Q
          (label_offsets whole wanted rest (suc funcid) r.1 r.0)
          (rw p.1 (
            label_offsets-AreLabelsOf whole wanted rest (suc funcid) (offset + size) r.0
              (omega arith)))
          λ later t l o e. elim (t l o e) [
            | inr a ↦ inr (later-IsLabelOf whole func rest funcid wanted offset l o a)
            | inl known ↦ elim (p.0 l o known) [
              | inl older ↦ inl older
              | inr (same, a) ↦ inr (record {
                func = func;
                index = 0;
                index_is = omega (arith, same);
                func_is = refl;
                at_label = record {
                  before = a.before;
                  behind = a.behind;
                  items_are = a.items_are;
                  offset_is = omega (arith, a.offset_is);
                };
              })
            ]
          ]

-- In code of fewer than 2^32 bytes, the offset that the map of a function's labels gives for a
-- label is the number of bytes in front of it: those of the functions before, of the function's
-- parameters and registers, and of the items before the label.
pub label_offsets-IsLabelOf :
    (whole : Whole) (functions : List Function) (wanted : ℕ) (labels : Offsets) (l o : ℕ)
    → functions_size whole functions < 2 ^ 32
    → label_offsets whole wanted functions 0 0 [] ≡ ok labels
    → find labels l ≡ some o
    → IsLabelOf whole functions 0 wanted 0 l o
unfolding AreLabelsOf find
label_offsets-IsLabelOf whole functions wanted labels l o h done e =
    elim (OnOk-eq (AreLabelsOf whole functions 0 wanted 0 [])
      (label_offsets-AreLabelsOf whole wanted functions 0 0 [] (omega arith)) done l o e) [
        | inl known ↦ absurd (nothing known)
        | inr a ↦ a
      ]
  where
    nothing : ¬ (◌≡◌ {A = Option ℕ} none (some o))
    nothing known = cc
