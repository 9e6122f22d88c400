-- ===== src/Text/Functions.antt =====
-- Where the functions stand in the text section, by the map that the first pass makes and by the
-- annotation.
use native.Mathlib.Nat.{mod-eq_of_lt}
use xenonjs.Base.{
  ℕ, suc, ◌+◌, ◌*◌, ◌^◌, ◌<◌, List, [], ◌∷◌, ◌++◌, Option, none, some, ◌≡◌, refl, ap, ◌∙◌, arith,
  length, length-append, All, All-append, OnOk, OnOk-bind, OnOk-after, OnOk-weaken, u32,
}
use xenonjs.Linker.File.{Link, given_or_fail}
use xenonjs.Text.{TextItem, AnnotatedItem, Function, Code, AnnotatedFunction, op_allocreg}
use xenonjs.Text.Bytes.{IsSound, encode, items_code, functions_code}
use xenonjs.Text.Size.{IsItem}
use xenonjs.Text.Layout.{
  items_size, AreAt, AreAt-append, AreSound, IsLaid, parameters-IsLaid, items-IsLaid,
}
use xenonjs.Text.Translate.{Offsets, Whole, map_get, item_size}
use xenonjs.Text.Writer.{operands}
use xenonjs.Text.Annotate.{
  Scheduler, Maps, boilerplate_size, skip_items, label_offsets, labels_or_null, annotate_parameters,
  annotate_items, annotate_function, annotate_functions, size_sum, cast_size,
}

abbrev pub function_size : Whole → Function → ℕ
function_size whole func = boilerplate_size func + items_size whole func.items

abbrev pub functions_size : Whole → List Function → ℕ
functions_size whole [] = 0
functions_size whole (func ∷ functions) = function_size whole func + functions_size whole functions

abbrev pub AreFunctionsAt : ℕ → List AnnotatedFunction → Type 0
AreFunctionsAt start [] = Unit
AreFunctionsAt start (func ∷ functions) =
    AreAt start func.items × AreFunctionsAt (start + length (items_code func.items)) functions

pub given_size : (o : Option ℕ) → OnOk (λ n. cast_size o ≡ n) (given_or_fail o)
given_size (some n) = refl
given_size none = tt

pub skip_items-end :
    (whole : Whole) (items : List TextItem) (offset : ℕ)
    → offset + items_size whole items < 2 ^ 32
    → OnOk (λ end. end ≡ offset + items_size whole items) (skip_items whole items offset)
unfolding skip_items
skip_items-end whole [] offset h = omega arith
skip_items-end whole (item ∷ items) offset h =
    OnOk-bind (λ n. cast_size (item_size whole item) ≡ n)
      (λ end. end ≡ offset + items_size whole (item ∷ items)) (given_or_fail (item_size whole item))
      _ (given_size (item_size whole item))
      λ n size.
        let next : u32 (offset + n) ≡ offset + n = mod-eq_of_lt (omega (arith, size)) in
        OnOk-weaken (λ end. end ≡ offset + n + items_size whole items)
          (λ end. end ≡ offset + items_size whole (item ∷ items))
          (skip_items whole items (u32 (offset + n)))
          (rw next (skip_items-end whole items (offset + n) (omega (arith, size))))
          λ end e. omega (arith, size, e)

-- One function of the annotation, from `start` on, of `n` bytes.
pub record IsFunctionLaid (start n : ℕ) (r : AnnotatedFunction × ℕ) : Type 0 where
  pub placed : AreAt start r.0.items
  pub sound : AreSound r.0.items
  pub length_is : length (items_code r.0.items) ≡ n
  pub end_is : r.1 ≡ start + n

-- The annotated functions stand one behind the other, in as many bytes as their sizes say.
pub record AreLaid (start n : ℕ) (r : List AnnotatedFunction) : Type 0 where
  pub placed : AreFunctionsAt start r
  pub sound : All (λ func. AreSound func.items) r
  pub length_is : length (functions_code r) ≡ n

pub length-items_code :
    (xs ys : List AnnotatedItem)
    → length (items_code (xs ++ ys)) ≡ length (items_code xs) + length (items_code ys)
length-items_code [] ys = omega arith
length-items_code (x ∷ xs) ys = omega (
  arith,
  length-append {0} (encode x.inst) (items_code (xs ++ ys)),
  length-append {0} (encode x.inst) (items_code xs),
  length-items_code xs ys,
)

module _ (whole : Whole) (schedule : Function → Link Scheduler) (code : Code) (datas : Offsets)
    (functions : Offsets) where
  pub function-IsLaid :
      (func : Function) (funcid offset : ℕ)
      → All IsItem func.items
      → offset + function_size whole func < 2 ^ 64
      → OnOk
          (IsFunctionLaid offset (function_size whole func))
          (annotate_function whole schedule code datas functions func funcid offset)
  unfolding annotate_function operands
  function-IsLaid func funcid offset are h =
      let Q = IsFunctionLaid offset (function_size whole func) in
      let start = offset + 6 * length func.parameters in
      let next : size_sum start 2 ≡ start + 2 = mod-eq_of_lt (omega arith) in
      OnOk-after Q (schedule func) _ λ regsched. OnOk-after Q (map_get functions funcid) _ λ place.
        OnOk-after Q (labels_or_null (label_offsets whole funcid code.functions 0 0 [])) _ λ labels.
          OnOk-bind (IsLaid offset (6 * length func.parameters)) Q
            (annotate_parameters datas func.parameters 0 offset) _
            (parameters-IsLaid datas func.parameters 0 offset (omega arith))
            λ arguments a.
              let start_is : size_sum arguments.1 2 ≡ start + 2 =
                ap (λ e. size_sum e 2) a.end_is ∙ next in
              OnOk-bind (IsLaid (start + 2) (items_size whole func.items)) Q
                (annotate_items whole regsched (maps labels) func.items 0 (size_sum arguments.1 2))
                _
                (rw start_is (
                  items-IsLaid whole regsched (maps labels) func.items 0 (start + 2) are
                    (omega arith)))
                λ body l. record {
                  placed =
                      AreAt-append offset arguments.0 _ start (omega (arith, a.length_is)) a.placed
                        (a.end_is, l.placed);
                  sound =
                      All-append (λ ti. IsSound ti.inst) arguments.0 _ a.sound
                        (((tt, tt), tt), l.sound);
                  length_is = omega (
                    arith,
                    length-items_code arguments.0 (
                        record { inst = op_allocreg regsched.requirement; offset = arguments.1 }
                        ∷ body.0),
                    a.length_is,
                    l.length_is,
                  );
                  end_is = omega (arith, l.end_is);
                }
    where
      maps : Option Offsets → Maps
      maps labels = record { labels = labels; datas = datas; functions = functions }

  pub functions-AreLaid :
      (rest : List Function) (funcid offset : ℕ)
      → All (λ func. All IsItem func.items) rest
      → offset + functions_size whole rest < 2 ^ 64
      → OnOk
          (AreLaid offset (functions_size whole rest))
          (annotate_functions whole schedule code datas functions rest funcid offset)
  unfolding annotate_functions
  functions-AreLaid [] funcid offset are h = record { placed = tt; sound = tt; length_is = refl }
  functions-AreLaid (func ∷ rest) funcid offset are h =
      let size = function_size whole func in
      OnOk-bind (IsFunctionLaid offset size) (AreLaid offset (functions_size whole (func ∷ rest)))
        (annotate_function whole schedule code datas functions func funcid offset) _
        (function-IsLaid func funcid offset are.0 (omega arith))
        λ annotated a.
          OnOk-bind (AreLaid (offset + size) (functions_size whole rest))
            (AreLaid offset (functions_size whole (func ∷ rest)))
            (annotate_functions whole schedule code datas functions rest (suc funcid) annotated.1) _
            (rw a.end_is (functions-AreLaid rest (suc funcid) (offset + size) are.1 (omega arith)))
            λ later l. record {
              placed = (a.placed, rw a.length_is l.placed);
              sound = (a.sound, l.sound);
              length_is = omega (
                arith,
                length-append {0} (items_code annotated.0.items) (functions_code later),
                a.length_is,
                l.length_is,
              );
            }
