-- ===== src/Text/Translate.antt =====
-- compiler/src/xjs_c4_textsec_inst.c: an item of a function becomes an instruction, and how many
-- bytes an item takes.
use xenonjs.Base.{
  ℕ, ◌+◌, ◌-◌, ◌^◌, List, [], ◌∷◌, Bool, true, false, Option, none, some, ok, fail, fault, ◌>>=◌,
  ltb, leb, ◌==◌, ◌&&◌, if◌then◌else◌, u8, u16, u32, length, map,
}
use xenonjs.Linker.File.{Link}
use xenonjs.Text.{
  TextItem, Inst, argc_max, nop, halt, push_scope, pop_scope, inspect, label, br, alloca,
  load_undefined, load_null, load_object, load_array, declvar, ret, this, dynlib, br_cond,
  load_string, load, store, array_push, make_function, make_arrow_function, load_bool, load_number,
  object_get, merge, object_set, call, new, binary, unary, op_nop, op_halt, op_inspect, op_ret,
  op_this, op_br, op_declvar, op_dynlib, op_brc, op_load, op_store, op_arrpush, op_load_undefined,
  op_load_null, op_load_false, op_load_true, op_load_object, op_load_array, op_load_s8, op_load_s16,
  op_load_s32, op_load_f64, op_load_string, op_load_function, op_merge, op_objset, op_objget,
  op_call, op_new, op_callt, op_binary, op_unary,
}

-- A map of deps/ec, as pairs: of those with a key the map has the first. A key that is not in it makes `ect_map_get` follow
-- the sentinel of the tree.
abbrev pub Offsets : Type 0
Offsets = List (ℕ × ℕ)

unfoldable pub find : Offsets → ℕ → Option ℕ
find [] k = none
find ((k', v) ∷ m) k = if k == k' then some v else find m k

unfoldable pub map_get : Offsets → ℕ → Link ℕ
unfolding find
map_get m k = elim (find m k) [ none ↦ fault | some v ↦ ok v ]

-- What a handler reads of its context: the register of a variable at the point of the item, and
-- the maps of labels, data and functions. The map of labels may be NULL.
pub record Context : Type 0 where
  pub register : ℕ → ℕ
  pub labels : Option Offsets
  pub datas : Offsets
  pub functions : Offsets

-- XJS_C4_TSA_VREG, _LBL, _DATAID and _FUNCID
abbrev pub vreg : Context → ℕ → ℕ
vreg ctx var = u8 (ctx.register var)

unfoldable pub lbl : Context → ℕ → Link ℕ
unfolding map_get
lbl ctx l = elim (ctx.labels) [ none ↦ fault | some m ↦ map_get m l ]

abbrev pub dataid : Context → ℕ → Link ℕ
dataid ctx d = map_get ctx.datas d

abbrev pub funcid : Context → ℕ → Link ℕ
funcid ctx f = map_get ctx.functions f

abbrev pub argv : Context → List ℕ → List ℕ
argv ctx = map (vreg ctx)

-- `(int)value` as 32 bits, where the value passes IS_INTEGER.
abbrev pub Whole : Type 0
Whole = List ℕ → Option ℕ

-- IN_RANGE on the bit patterns of an `int`, for bounds of the same sign.
abbrev pub in_range : ℕ → ℕ → ℕ → Bool
in_range x lo hi = leb lo x && ltb x hi

abbrev pub is_negative : ℕ → Bool
is_negative x = leb (2 ^ 31) x

-- What a handler adds to the function: nothing for a label or `alloca`.
abbrev pub Handled : Type 0
Handled = Link (Option Inst)

abbrev pub just : Inst → Handled
just i = ok (some i)

-- `xjs_c4_tsa_hdlr_load_number`
unfoldable pub number_inst : Whole → ℕ → List ℕ → Inst
number_inst whole r value = elim (whole value) [
  | none ↦ op_load_f64 r value
  | some v ↦
      if is_negative v
      then if in_range v (2 ^ 32 - 128) (2 ^ 32)
        then op_load_s8 r (u8 v)
        else if in_range v (2 ^ 32 - 32768) (2 ^ 32 - 128)
        then op_load_s16 r (u16 v)
        else op_load_s32 r (u32 v)
      else if in_range v 0 128
      then op_load_s8 r (u8 v)
      else if in_range v 128 32768
      then op_load_s16 r (u16 v)
      else op_load_s32 r (u32 v)
]

-- The size of the literal in `xjs_c4_text_item_instrument_size`
unfoldable pub number_size : Whole → List ℕ → ℕ
number_size whole value = elim (whole value) [
  | none ↦ 8
  | some v ↦
      if is_negative v
      then if in_range v (2 ^ 32 - 128) (2 ^ 32)
        then 1
        else if in_range v (2 ^ 32 - 32768) (2 ^ 32 - 128)
        then 2
        else 4
      else if in_range v 0 128
      then 1
      else if in_range v 128 32768
      then 2
      else 4
]

-- `xjs_c4_tsa_hdlr_call` and `xjs_c4_tsa_hdlr_new`
unfoldable pub checked : List ℕ → Inst → Handled
checked arguments i = if ltb argc_max (length arguments) then fail tt else just i

unfoldable pub call_inst : Context → ℕ → ℕ → List ℕ → Option ℕ → Handled
unfolding checked
call_inst ctx dst callee arguments none =
    checked arguments (op_call (vreg ctx dst) (vreg ctx callee) (argv ctx arguments))
call_inst ctx dst callee arguments (some self) =
    checked arguments
      (op_callt (vreg ctx dst) (vreg ctx callee) (vreg ctx self) (argv ctx arguments))

-- The handler that `xjs_c4_text_section_annotate_get_handler` finds for the item. The table has no
-- row for `make_arrow_function`, and no row that ends it.
unfoldable pub translate : Whole → Context → TextItem → Handled
unfolding lbl map_get number_inst checked call_inst
translate whole ctx nop = just op_nop
translate whole ctx halt = just op_halt
translate whole ctx push_scope = fail tt
translate whole ctx pop_scope = fail tt
translate whole ctx (inspect var) = just (op_inspect (vreg ctx var))
translate whole ctx (label l) = ok none
translate whole ctx (alloca var) = ok none
translate whole ctx (br dest) = do d ← lbl ctx dest; just (op_br d)
translate whole ctx (br_cond cond dest) = do d ← lbl ctx dest; just (op_brc (vreg ctx cond) d)
translate whole ctx (merge test csq alt dst) =
    just (op_merge (vreg ctx dst) (vreg ctx test) (vreg ctx csq) (vreg ctx alt))
translate whole ctx (dynlib exports name) = just (op_dynlib (vreg ctx exports) (vreg ctx name))
translate whole ctx (ret var) = just (op_ret (vreg ctx var))
translate whole ctx (make_function var func) = do
  offset_text ← funcid ctx func
  just (op_load_function (vreg ctx var) (u32 offset_text))
translate whole ctx (make_arrow_function var func) = fault
translate whole ctx (call dst callee arguments self) = call_inst ctx dst callee arguments self
translate whole ctx (new dst callee arguments) =
    checked arguments (op_new (vreg ctx dst) (vreg ctx callee) (argv ctx arguments))
translate whole ctx (this dst) = just (op_this (vreg ctx dst))
translate whole ctx (declvar variable) = do d ← dataid ctx variable; just (op_declvar d)
translate whole ctx (store variable var) = do
  d ← dataid ctx variable
  just (op_store (vreg ctx var) d)
translate whole ctx (load var variable) = do
  d ← dataid ctx variable
  just (op_load (vreg ctx var) d)
translate whole ctx (load_undefined var) = just (op_load_undefined (vreg ctx var))
translate whole ctx (load_null var) = just (op_load_null (vreg ctx var))
translate whole ctx (load_bool var false) = just (op_load_false (vreg ctx var))
translate whole ctx (load_bool var true) = just (op_load_true (vreg ctx var))
translate whole ctx (load_number var value) = just (number_inst whole (vreg ctx var) value)
translate whole ctx (load_string var d) = do
  offset_data ← dataid ctx d
  just (op_load_string (vreg ctx var) offset_data)
translate whole ctx (load_object var) = just (op_load_object (vreg ctx var))
translate whole ctx (load_array var) = just (op_load_array (vreg ctx var))
translate whole ctx (object_get dst obj member) =
    just (op_objget (vreg ctx dst) (vreg ctx obj) (vreg ctx member))
translate whole ctx (object_set dst obj member src) =
    just (op_objset (vreg ctx dst) (vreg ctx obj) (vreg ctx member) (vreg ctx src))
translate whole ctx (array_push arr elem) = just (op_arrpush (vreg ctx arr) (vreg ctx elem))
translate whole ctx (binary o dst lhs rhs) =
    just (op_binary o (vreg ctx dst) (vreg ctx lhs) (vreg ctx rhs))
translate whole ctx (unary o dst src) = just (op_unary o (vreg ctx dst) (vreg ctx src))

-- `xjs_c4_text_item_instrument_size`, `none` for -1
unfoldable pub item_size : Whole → TextItem → Option ℕ
unfolding number_size
item_size whole nop = some 1
item_size whole halt = some 1
item_size whole (dynlib _ _) = some (1 + 1 + 1)
item_size whole push_scope = none
item_size whole pop_scope = none
item_size whole (label _) = some 0
item_size whole (br _) = some (1 + 4)
item_size whole (br_cond _ _) = some (1 + 1 + 4)
item_size whole (merge _ _ _ _) = some (1 + 4)
item_size whole (alloca _) = some 0
item_size whole (load_undefined _) = some (1 + 1)
item_size whole (load_null _) = some (1 + 1)
item_size whole (load_bool _ _) = some (1 + 1)
item_size whole (load_string _ _) = some (1 + 1 + 4)
item_size whole (load_number _ value) = some (1 + 1 + number_size whole value)
item_size whole (load_object _) = some (1 + 1)
item_size whole (load_array _) = some (1 + 1)
item_size whole (declvar _) = some (1 + 4)
item_size whole (load _ _) = some (1 + 1 + 4)
item_size whole (store _ _) = some (1 + 1 + 4)
item_size whole (object_set _ _ _ _) = some (1 + 1 + 1 + 1 + 1)
item_size whole (object_get _ _ _) = some (1 + 1 + 1 + 1)
item_size whole (array_push _ _) = some (1 + 1 + 1)
item_size whole (make_function _ _) = some (1 + 1 + 4)
item_size whole (make_arrow_function _ _) = some (1 + 1 + 4)
item_size whole (inspect _) = some (1 + 1)
item_size whole (ret _) = some (1 + 1)
item_size whole (call _ _ arguments none) = some (1 + 1 + 1 + 1 + length arguments)
item_size whole (call _ _ arguments (some _)) = some (1 + 1 + 1 + 1 + 1 + length arguments)
item_size whole (new _ _ arguments) = some (1 + 1 + 1 + 1 + length arguments)
item_size whole (this _) = some (1 + 1)
item_size whole (binary _ _ _ _) = some (1 + 3)
item_size whole (unary _ _ _) = some (1 + 1 + 1)
