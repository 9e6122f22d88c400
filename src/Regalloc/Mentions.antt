-- ===== src/Regalloc/Mentions.antt =====
-- Which variables an item of the intermediate form has among its fields, by the fields of
-- compiler/include/xjs_types_ir.h in the order they are declared in.
use xenonjs.Base.{ℕ, List, [], ◌∷◌, none, some, ◌≡◌, ◌⊎◌, inl, inr}
use xenonjs.Text.{
  TextItem, nop, halt, push_scope, pop_scope, inspect, label, br, alloca, load_undefined, load_null,
  load_object, load_array, declvar, ret, this, dynlib, br_cond, load_string, load, store,
  array_push, make_function, make_arrow_function, load_bool, load_number, object_get, merge,
  object_set, call, new, binary, unary,
}
use xenonjs.Regalloc.{variables}

-- A number of a list of variables.
abbrev pub Among : ℕ → List ℕ → Type 0
Among v [] = ⊥
Among v (u ∷ us) = (v ≡ u) ⊎ Among v us

-- A variable that an item reads or writes.
abbrev pub Mentions : ℕ → TextItem → Type 0
Mentions v nop = ⊥
Mentions v halt = ⊥
Mentions v push_scope = ⊥
Mentions v pop_scope = ⊥
Mentions v (inspect src) = (v ≡ src)
Mentions v (label _) = ⊥
Mentions v (br _) = ⊥
Mentions v (alloca dst) = (v ≡ dst)
Mentions v (load_undefined dst) = (v ≡ dst)
Mentions v (load_null dst) = (v ≡ dst)
Mentions v (load_object dst) = (v ≡ dst)
Mentions v (load_array dst) = (v ≡ dst)
Mentions v (declvar _) = ⊥
Mentions v (ret src) = (v ≡ src)
Mentions v (this dst) = (v ≡ dst)
Mentions v (dynlib exports name) = (v ≡ exports) ⊎ (v ≡ name)
Mentions v (br_cond cond _) = (v ≡ cond)
Mentions v (load_string dst _) = (v ≡ dst)
Mentions v (load dst _) = (v ≡ dst)
Mentions v (store _ src) = (v ≡ src)
Mentions v (array_push arr elem) = (v ≡ arr) ⊎ (v ≡ elem)
Mentions v (make_function dst _) = (v ≡ dst)
Mentions v (make_arrow_function dst _) = (v ≡ dst)
Mentions v (load_bool dst _) = (v ≡ dst)
Mentions v (load_number dst _) = (v ≡ dst)
Mentions v (object_get dst obj member) = (v ≡ dst) ⊎ (v ≡ obj) ⊎ (v ≡ member)
Mentions v (merge test csq alt dst) = (v ≡ test) ⊎ (v ≡ csq) ⊎ (v ≡ alt) ⊎ (v ≡ dst)
Mentions v (object_set dst obj member src) = (v ≡ dst) ⊎ (v ≡ obj) ⊎ (v ≡ member) ⊎ (v ≡ src)
Mentions v (binary _ dst lhs rhs) = (v ≡ dst) ⊎ (v ≡ lhs) ⊎ (v ≡ rhs)
Mentions v (unary _ dst src) = (v ≡ dst) ⊎ (v ≡ src)
Mentions v (call dst callee arguments none) = (v ≡ dst) ⊎ (v ≡ callee) ⊎ Among v arguments
Mentions v (call dst callee arguments (some self)) =
    (v ≡ dst) ⊎ (v ≡ callee) ⊎ (v ≡ self) ⊎ Among v arguments
Mentions v (new dst callee arguments) = (v ≡ dst) ⊎ (v ≡ callee) ⊎ Among v arguments

module _ {v a b : ℕ} where
  two : (v ≡ a) ⊎ (v ≡ b) → Among v (a ∷ b ∷ [])
  two (inl e) = inl e
  two (inr e) = inr (inl e)

  three : {c : ℕ} → (v ≡ a) ⊎ ((v ≡ b) ⊎ (v ≡ c)) → Among v (a ∷ b ∷ c ∷ [])
  three (inl e) = inl e
  three (inr h) = inr (elim h [ inl e ↦ inl e | inr e ↦ inr (inl e) ])

  four : {c d : ℕ} → (v ≡ a) ⊎ ((v ≡ b) ⊎ ((v ≡ c) ⊎ (v ≡ d))) → Among v (a ∷ b ∷ c ∷ d ∷ [])
  four (inl e) = inl e
  four (inr h) =
      inr (elim h [ inl e ↦ inl e | inr k ↦ inr (elim k [ inl e ↦ inl e | inr e ↦ inr (inl e) ]) ])

pub Mentions-Among : (v : ℕ) (item : TextItem) → Mentions v item → Among v (variables item)
Mentions-Among v nop h = absurd h
Mentions-Among v halt h = absurd h
Mentions-Among v push_scope h = absurd h
Mentions-Among v pop_scope h = absurd h
Mentions-Among v (inspect src) h = inl h
Mentions-Among v (label _) h = absurd h
Mentions-Among v (br _) h = absurd h
Mentions-Among v (alloca dst) h = inl h
Mentions-Among v (load_undefined dst) h = inl h
Mentions-Among v (load_null dst) h = inl h
Mentions-Among v (load_object dst) h = inl h
Mentions-Among v (load_array dst) h = inl h
Mentions-Among v (declvar _) h = absurd h
Mentions-Among v (ret src) h = inl h
Mentions-Among v (this dst) h = inl h
Mentions-Among v (dynlib exports name) h = two h
Mentions-Among v (br_cond cond _) h = inl h
Mentions-Among v (load_string dst _) h = inl h
Mentions-Among v (load dst _) h = inl h
Mentions-Among v (store _ src) h = inl h
Mentions-Among v (array_push arr elem) h = two h
Mentions-Among v (make_function dst _) h = inl h
Mentions-Among v (make_arrow_function dst _) h = inl h
Mentions-Among v (load_bool dst _) h = inl h
Mentions-Among v (load_number dst _) h = inl h
Mentions-Among v (object_get dst obj member) (inl e) = inl e
Mentions-Among v (object_get dst obj member) (inr (inl e)) = inr (inr (inl e))
Mentions-Among v (object_get dst obj member) (inr (inr e)) = inr (inl e)
Mentions-Among v (merge test csq alt dst) h = four h
Mentions-Among v (object_set dst obj member src) h = four h
Mentions-Among v (binary _ dst lhs rhs) h = three h
Mentions-Among v (unary _ dst src) h = two h
Mentions-Among v (call dst callee arguments none) h = h
Mentions-Among v (call dst callee arguments (some self)) h = h
Mentions-Among v (new dst callee arguments) h = h
