-- ===== src/Text/Layout.antt =====
-- Where the annotated instructions stand: the offset of each is the number of bytes in front of
-- it.
use mathlib.Core.Path.{subst}
use native.Mathlib.Nat.{mod-eq_of_lt}
use xenonjs.Base.{
  ℕ, suc, ◌+◌, ◌*◌, ◌^◌, ◌<◌, List, [], ◌∷◌, ◌++◌, Option, none, some, ok, fail, fault, ◌≡◌, refl,
  ap, arith, length, length-append, All, OnOk, OnOk-bind, OnOk-after,
}
use xenonjs.Text.{TextItem, Inst, AnnotatedItem}
use xenonjs.Text.Bytes.{IsSound, encode, items_code}
use xenonjs.Text.Size.{IsItem, SizedAs, translate-Sized}
use xenonjs.Text.Translate.{Offsets, Whole, Handled, map_get, item_size, translate}
use xenonjs.Text.Writer.{operands}
use xenonjs.Text.Annotate.{
  Scheduler, Maps, context, annotate_parameters, annotate_items, size_sum, cast_size, push_item,
}

-- The bytes of the items of a function.
abbrev pub items_size : Whole → List TextItem → ℕ
items_size whole [] = 0
items_size whole (item ∷ items) = cast_size (item_size whole item) + items_size whole items

-- Each instruction has as its offset the place of its first byte.
abbrev pub AreAt : ℕ → List AnnotatedItem → Type 0
AreAt start [] = Unit
AreAt start (ti ∷ items) = (ti.offset ≡ start) × AreAt (start + length (encode ti.inst)) items

abbrev pub AreSound : List AnnotatedItem → Type 0
AreSound = All (λ ti. IsSound ti.inst)

-- Instructions of `n` bytes from `start` on.
pub record IsLaid (start n : ℕ) (r : List AnnotatedItem × ℕ) : Type 0 where
  pub placed : AreAt start r.0
  pub sound : AreSound r.0
  pub length_is : length (items_code r.0) ≡ n
  pub end_is : r.1 ≡ start + n

-- The same place under another name for it.
pub AreAt-same : (items : List AnnotatedItem) {i j : ℕ} → AreAt i items → i ≡ j → AreAt j items
AreAt-same items a e = subst (λ k. AreAt k items) e a

pub AreAt-append :
    (start : ℕ) (xs ys : List AnnotatedItem) (middle : ℕ)
    → middle ≡ start + length (items_code xs)
    → AreAt start xs
    → AreAt middle ys
    → AreAt start (xs ++ ys)
AreAt-append start [] ys middle e hx hy = AreAt-same ys hy (omega (arith, e))
AreAt-append start (x ∷ xs) ys middle e hx hy = (
  hx.0,
  AreAt-append (start + length (encode x.inst)) xs ys middle
      (omega (arith, e, length-append {0} (encode x.inst) (items_code xs))) hx.1 hy,
)

pub parameters-IsLaid :
    (datas : Offsets) (ps : List ℕ) (idx offset : ℕ)
    → offset + 6 * length ps < 2 ^ 64
    → OnOk (IsLaid offset (6 * length ps)) (annotate_parameters datas ps idx offset)
unfolding annotate_parameters operands
parameters-IsLaid datas [] idx offset h = record {
  placed = tt;
  sound = tt;
  length_is = omega arith;
  end_is = omega arith;
}
parameters-IsLaid datas (p ∷ ps) idx offset h =
    let next : size_sum offset 6 ≡ offset + 6 = mod-eq_of_lt (omega arith) in
    OnOk-after (IsLaid offset (6 * length (p ∷ ps))) (map_get datas p) _ λ d.
      OnOk-bind (IsLaid (offset + 6) (6 * length ps)) (IsLaid offset (6 * length (p ∷ ps)))
        (annotate_parameters datas ps (suc idx) (size_sum offset 6)) _
        (rw next (parameters-IsLaid datas ps (suc idx) (offset + 6) (omega arith)))
        λ later l. record {
          placed = (refl, l.placed);
          sound = (((tt, (tt, tt)), tt), l.sound);
          length_is = omega (arith, l.length_is);
          end_is = omega (arith, l.end_is);
        }

push-IsLaid :
    (whole : Whole) (item : TextItem) (items : List TextItem) (offset : ℕ) (inst : Option Inst)
    (r : List AnnotatedItem × ℕ)
    → SizedAs (item_size whole item) (ok inst)
    → IsLaid (offset + cast_size (item_size whole item)) (items_size whole items) r
    → IsLaid offset (items_size whole (item ∷ items)) (push_item offset inst r.0, r.1)
push-IsLaid whole item items offset none r s l =
    let none_in : cast_size (item_size whole item) ≡ 0 = ap cast_size s in
    record {
      placed = AreAt-same r.0 l.placed (omega (arith, none_in));
      sound = l.sound;
      length_is = omega (arith, none_in, l.length_is);
      end_is = omega (arith, l.end_is);
    }
push-IsLaid whole item items offset (some i) r s l =
    let size : cast_size (item_size whole item) ≡ length (encode i) = ap cast_size s.1 in
    record {
      placed = (refl, AreAt-same r.0 l.placed (omega (arith, size)));
      sound = (s.0, l.sound);
      length_is = omega (arith, size, l.length_is, length-append {0} (encode i) (items_code r.0));
      end_is = omega (arith, l.end_is);
    }

pub SizedAs-OnOk : (n : Option ℕ) (m : Handled) → SizedAs n m → OnOk (λ inst. SizedAs n (ok inst)) m
SizedAs-OnOk n (ok inst) s = s
SizedAs-OnOk n (fail e) s = tt
SizedAs-OnOk n fault s = tt

pub items-IsLaid :
    (whole : Whole) (sched : Scheduler) (maps : Maps) (items : List TextItem) (point offset : ℕ)
    → All IsItem items
    → offset + items_size whole items < 2 ^ 64
    → OnOk
        (IsLaid offset (items_size whole items))
        (annotate_items whole sched maps items point offset)
unfolding annotate_items
items-IsLaid whole sched maps [] point offset are h = record {
  placed = tt;
  sound = tt;
  length_is = refl;
  end_is = omega arith;
}
items-IsLaid whole sched maps (item ∷ items) point offset are h =
    let size = cast_size (item_size whole item) in
    let next : size_sum offset size ≡ offset + size = mod-eq_of_lt (omega arith) in
    OnOk-bind (λ inst. SizedAs (item_size whole item) (ok inst))
      (IsLaid offset (items_size whole (item ∷ items)))
      (translate whole (context sched maps point) item) _
      (SizedAs-OnOk (item_size whole item) (translate whole (context sched maps point) item)
        (translate-Sized whole (context sched maps point) item are.0))
      λ inst s.
        OnOk-bind (IsLaid (offset + size) (items_size whole items))
          (IsLaid offset (items_size whole (item ∷ items)))
          (annotate_items whole sched maps items (suc point) (size_sum offset size)) _
          (rw next
            (items-IsLaid whole sched maps items (suc point) (offset + size) are.1 (omega arith)))
          λ later l. push-IsLaid whole item items offset inst later s l
