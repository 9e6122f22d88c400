-- ===== src/Text/Size.antt =====
-- The size that the first pass gives an item is the number of bytes that the writer puts out for
-- its instruction.
use mathlib.Core.List.{append-nil}
use xenonjs.Base.{
  ℕ, ◌+◌, List, [], ◌∷◌, ◌++◌, true, false, Option, none, some, ok, fail, fault, ◌>>=◌, ◌≡◌, refl,
  sym, ap, arith, length, length-append, length-map, All, map, Bool-cases, Option-cases, inl, inr,
  if◌then◌else◌, ◌≤◌, ltb, Bool, u8, u16, u32, ◌-◌, ◌^◌,
}
use xenonjs.Linker.File.{Link}
use xenonjs.Text.{
  TextItem, Inst, argc_max, nop, halt, push_scope, pop_scope, inspect, label, br, alloca,
  load_undefined, load_null, load_object, load_array, declvar, ret, this, dynlib, br_cond,
  load_string, load, store, array_push, make_function, make_arrow_function, load_bool, load_number,
  object_get, merge, object_set, call, new, binary, unary, op_br, op_declvar, op_brc, op_load,
  op_store, op_load_s8, op_load_s16, op_load_s32, op_load_string, op_load_function, op_call, op_new,
  op_callt,
}
use xenonjs.Text.Writer.{Write, put_u8, operands, call_operands}
use xenonjs.Text.Bytes.{IsWrite, AreWrites, IsRunnable, writes_bytes, IsSound, encode}
use xenonjs.Text.Translate.{
  is_negative, in_range, Whole, Context, Handled, number_inst, number_size, checked, call_inst,
  translate, item_size, lbl, dataid, funcid, argv, just, vreg,
}

-- A literal that is a double has its eight bytes.
abbrev pub IsItem : TextItem → Type 0
IsItem (load_number _ value) = length value ≡ 8
IsItem _ = Unit

-- What was translated can be written, in so many bytes.
abbrev pub SizedAs : Option ℕ → Handled → Type 0
SizedAs n (ok none) = n ≡ some 0
SizedAs n (ok (some i)) = IsSound i × (n ≡ some (length (encode i)))
SizedAs n (fail e) = Unit
SizedAs n fault = Unit

SizedAs-bind :
    (n : Option ℕ) (m : Link ℕ) (k : ℕ → Handled)
    → ((d : ℕ) → SizedAs n (k d))
    → SizedAs n (m >>= k)
SizedAs-bind n (ok d) k h = h d
SizedAs-bind n (fail e) k h = tt
SizedAs-bind n fault k h = tt

registers-IsWrite :
    (rs : List ℕ) (ws : List Write) → All IsWrite ws → All IsWrite (map put_u8 rs ++ ws)
registers-IsWrite [] ws h = h
registers-IsWrite (r ∷ rs) ws h = (tt, registers-IsWrite rs ws h)

length-registers :
    (rs : List ℕ) (ws : List Write)
    → length (writes_bytes (map put_u8 rs ++ ws)) ≡ length rs + length (writes_bytes ws)
length-registers [] ws = omega arith
length-registers (r ∷ rs) ws = omega (arith, length-registers rs ws)

-- Literals of one, two and four bytes, by the tests on their value.
whole-Sized :
    (negative a b c d : Bool) (r v₁ v₂ v₃ v₄ v₅ v₆ : ℕ)
    → let i : Inst =
        if negative
        then if a then op_load_s8 r v₁ else if b then op_load_s16 r v₂ else op_load_s32 r v₃
        else if c
        then op_load_s8 r v₄
        else if d
        then op_load_s16 r v₅
        else op_load_s32 r v₆ in
      let n : ℕ =
        if negative
        then if a then 1 else if b then 2 else 4
        else if c
        then 1
        else if d
        then 2
        else 4 in
      IsSound i × (length (encode i) ≡ 2 + n)
unfolding operands
whole-Sized true true b c d r v₁ v₂ v₃ v₄ v₅ v₆ = (((tt, (tt, tt)), tt), refl)
whole-Sized true false true c d r v₁ v₂ v₃ v₄ v₅ v₆ = (((tt, (tt, tt)), tt), refl)
whole-Sized true false false c d r v₁ v₂ v₃ v₄ v₅ v₆ = (((tt, (tt, tt)), tt), refl)
whole-Sized false a b true d r v₁ v₂ v₃ v₄ v₅ v₆ = (((tt, (tt, tt)), tt), refl)
whole-Sized false a b false true r v₁ v₂ v₃ v₄ v₅ v₆ = (((tt, (tt, tt)), tt), refl)
whole-Sized false a b false false r v₁ v₂ v₃ v₄ v₅ v₆ = (((tt, (tt, tt)), tt), refl)

number-Sized :
    (whole : Whole) (r : ℕ) (value : List ℕ)
    → length value ≡ 8
    → IsSound (number_inst whole r value)
      × (length (encode (number_inst whole r value)) ≡ 2 + number_size whole value)
unfolding number_inst number_size operands
number-Sized whole r value h = elim (Option-cases (whole value)) [
  | inl e ↦
      rw (number_inst, number_size, e)
        (((tt, (h, tt)), tt), omega (arith, h, length-append {0} value []))
  | inr (v, e) ↦
      rw (number_inst, number_size, e)
        (whole-Sized (is_negative v) (in_range v (2 ^ 32 - 128) (2 ^ 32))
          (in_range v (2 ^ 32 - 32768) (2 ^ 32 - 128)) (in_range v 0 128) (in_range v 128 32768) r
          (u8 v) (u16 v) (u32 v) (u8 v) (u16 v) (u32 v))
]

ltb→le : (a b : ℕ) → ltb a b ≡ false → b ≤ a
ltb→le a b h = ground arith

-- An instruction with arguments, of which there are not too many.
checked-Sized :
    (arguments : List ℕ) (i : Inst) (n : ℕ)
    → AreWrites (operands i)
    → (length arguments ≤ argc_max → IsRunnable i)
    → length (encode i) ≡ n
    → SizedAs (some n) (checked arguments i)
unfolding checked
checked-Sized arguments i n w runs h = elim (Bool-cases (ltb argc_max (length arguments))) [
  | inl e ↦ rw (checked, e) tt
  | inr e ↦ rw (checked, e) ((w, runs (ltb→le argc_max (length arguments) e)), ap some (sym h))
]

call-Sized :
    (ctx : Context) (registers arguments : List ℕ)
    → All IsWrite (call_operands registers (argv ctx arguments))
      × (length (writes_bytes (call_operands registers (argv ctx arguments)))
          ≡ length registers + 1 + length arguments)
call-Sized ctx registers arguments =
    let regs = argv ctx arguments in
    let last = length-registers regs [] in
    let fine = registers-IsWrite regs [] tt in
    (
      registers-IsWrite registers _ (tt, rw (append-nil (map put_u8 regs)) at fine),
      omega (
        arith,
        length-registers registers (put_u8 (length regs) ∷ map put_u8 regs),
        rw (append-nil (map put_u8 regs)) at last,
        length-map {0, 0} arguments (vreg ctx),
      ),
    )

-- Where the handler of an item, whose literal has eight bytes if it is a double, adds an
-- instruction, that can be written and fetched, and its encoding has as many bytes as the item's
-- size says; where it adds nothing, the size is zero.
pub translate-Sized :
    (whole : Whole) (ctx : Context) (item : TextItem)
    → IsItem item
    → SizedAs (item_size whole item) (translate whole ctx item)
unfolding translate item_size operands call_inst
translate-Sized whole ctx nop h = ((tt, tt), refl)
translate-Sized whole ctx halt h = ((tt, tt), refl)
translate-Sized whole ctx (dynlib a b) h = (((tt, (tt, tt)), tt), refl)
translate-Sized whole ctx (inspect a) h = (((tt, tt), tt), refl)
translate-Sized whole ctx (merge a b c d) h = (((tt, (tt, (tt, (tt, tt)))), tt), refl)
translate-Sized whole ctx (ret a) h = (((tt, tt), tt), refl)
translate-Sized whole ctx (this a) h = (((tt, tt), tt), refl)
translate-Sized whole ctx (load_undefined a) h = (((tt, tt), tt), refl)
translate-Sized whole ctx (load_null a) h = (((tt, tt), tt), refl)
translate-Sized whole ctx (load_bool a true) h = (((tt, tt), tt), refl)
translate-Sized whole ctx (load_bool a false) h = (((tt, tt), tt), refl)
translate-Sized whole ctx (load_object a) h = (((tt, tt), tt), refl)
translate-Sized whole ctx (load_array a) h = (((tt, tt), tt), refl)
translate-Sized whole ctx (object_get a b c) h = (((tt, (tt, (tt, tt))), tt), refl)
translate-Sized whole ctx (object_set a b c d) h = (((tt, (tt, (tt, (tt, tt)))), tt), refl)
translate-Sized whole ctx (array_push a b) h = (((tt, (tt, tt)), tt), refl)
translate-Sized whole ctx (binary o a b c) h = (((tt, (tt, (tt, tt))), tt), refl)
translate-Sized whole ctx (unary o a b) h = (((tt, (tt, tt)), tt), refl)
translate-Sized whole ctx push_scope h = tt
translate-Sized whole ctx pop_scope h = tt
translate-Sized whole ctx (make_arrow_function a b) h = tt
translate-Sized whole ctx (label a) h = refl
translate-Sized whole ctx (alloca a) h = refl
translate-Sized whole ctx (br a) h =
    SizedAs-bind (item_size whole (br a)) (lbl ctx a) (λ d. just (op_br d))
      (λ d. (((tt, tt), tt), refl))
translate-Sized whole ctx (br_cond a b) h =
    SizedAs-bind (item_size whole (br_cond a b)) (lbl ctx b) (λ d. just (op_brc (vreg ctx a) d))
      (λ d. (((tt, (tt, tt)), tt), refl))
translate-Sized whole ctx (make_function a b) h =
    SizedAs-bind (item_size whole (make_function a b)) (funcid ctx b)
      (λ d. just (op_load_function (vreg ctx a) (u32 d))) (λ d. (((tt, (tt, tt)), tt), refl))
translate-Sized whole ctx (declvar a) h =
    SizedAs-bind (item_size whole (declvar a)) (dataid ctx a) (λ d. just (op_declvar d))
      (λ d. (((tt, tt), tt), refl))
translate-Sized whole ctx (store a b) h =
    SizedAs-bind (item_size whole (store a b)) (dataid ctx a) (λ d. just (op_store (vreg ctx b) d))
      (λ d. (((tt, (tt, tt)), tt), refl))
translate-Sized whole ctx (load a b) h =
    SizedAs-bind (item_size whole (load a b)) (dataid ctx b) (λ d. just (op_load (vreg ctx a) d))
      (λ d. (((tt, (tt, tt)), tt), refl))
translate-Sized whole ctx (load_string a b) h =
    SizedAs-bind (item_size whole (load_string a b)) (dataid ctx b)
      (λ d. just (op_load_string (vreg ctx a) d)) (λ d. (((tt, (tt, tt)), tt), refl))
translate-Sized whole ctx (load_number a v) h =
    let s = number-Sized whole (vreg ctx a) v h in (s.0, ap some (omega (arith, s.1)))
translate-Sized whole ctx (call a b args none) h =
    let s = call-Sized ctx (vreg ctx a ∷ vreg ctx b ∷ []) args in
    checked-Sized args (op_call (vreg ctx a) (vreg ctx b) (argv ctx args)) _ s.0
      (λ few. omega (arith, few, length-map {0, 0} args (vreg ctx))) (omega (arith, s.1))
translate-Sized whole ctx (call a b args (some t)) h =
    let s = call-Sized ctx (vreg ctx a ∷ vreg ctx b ∷ vreg ctx t ∷ []) args in
    checked-Sized args (op_callt (vreg ctx a) (vreg ctx b) (vreg ctx t) (argv ctx args)) _ s.0
      (λ few. omega (arith, few, length-map {0, 0} args (vreg ctx))) (omega (arith, s.1))
translate-Sized whole ctx (new a b args) h =
    let s = call-Sized ctx (vreg ctx a ∷ vreg ctx b ∷ []) args in
    checked-Sized args (op_new (vreg ctx a) (vreg ctx b) (argv ctx args)) _ s.0
      (λ few. omega (arith, few, length-map {0, 0} args (vreg ctx))) (omega (arith, s.1))
