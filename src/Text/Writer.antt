-- ===== src/Text/Writer.antt =====
-- compiler/src/xjs_c4_textsec.c: the writer of the text section. The results of the bit writer
-- are dropped, as in the source.
use xenonjs.Base.{
  ℕ, List, [], ◌∷◌, map, Option, none, some, ok, fail, ◌>>=◌, u8, u16, u32, ◌++◌, length,
}
use xenonjs.Buffer.{Malloc, carry_on}
use xenonjs.BitWriter
use xenonjs.BitWriter.Encode.{Writer}
use xenonjs.Linker.{signature_text}
use xenonjs.Text.{
  Inst, AnnotatedItem, AnnotatedFunction, opcode, op_nop, op_halt, op_debug, op_inspect, op_ret,
  op_this, op_allocreg, op_br, op_declvar, op_dynlib, op_brc, op_arg, op_load, op_store, op_arrpush,
  op_load_undefined, op_load_null, op_load_false, op_load_true, op_load_object, op_load_array,
  op_load_string_empty, op_load_f32, op_load_s8, op_load_s16, op_load_s32, op_load_u8, op_load_u16,
  op_load_u32, op_load_f64, op_load_string, op_load_function, op_merge, op_objset, op_objget,
  op_call, op_new, op_callt, op_binary, op_unary,
}

-- The macros WRITE_U8 and so on, with the value before its cast.
pub data Write : Type 0 where
  put_u8 put_u16 put_u32 put_s8 put_s16 put_s32 : ℕ → Write
  put_f64 : List ℕ → Write

unfoldable pub perform : Malloc → Write → Writer
perform malloc (put_u8 v) b = carry_on (BitWriter.write_u8 malloc b (u8 v))
perform malloc (put_u16 v) b = carry_on (BitWriter.write_u16 malloc b (u16 v))
perform malloc (put_u32 v) b = carry_on (BitWriter.write_u32 malloc b (u32 v))
perform malloc (put_s8 v) b = carry_on (BitWriter.write_s8 malloc b (u8 v))
perform malloc (put_s16 v) b = carry_on (BitWriter.write_s16 malloc b (u16 v))
perform malloc (put_s32 v) b = carry_on (BitWriter.write_s32 malloc b (u32 v))
perform malloc (put_f64 v) b = carry_on (BitWriter.write_f64 malloc b v)

unfoldable pub performs : Malloc → List Write → Writer
performs malloc [] b = ok b
performs malloc (w ∷ ws) b = perform malloc w b >>= performs malloc ws

-- The operands of a call: the registers, the number of the arguments, and the arguments.
abbrev pub call_operands : List ℕ → List ℕ → List Write
call_operands registers arguments =
    map put_u8 registers ++ (put_u8 (length arguments) ∷ map put_u8 arguments)

-- The switch of `text_item_instrument_write`; `none` where it reports an internal error.
unfoldable pub operands : Inst → Option (List Write)
operands op_nop = some []
operands op_halt = some []
operands op_debug = none
operands (op_inspect r) = some (put_u8 r ∷ [])
operands (op_dynlib exports name) = some (put_u8 exports ∷ put_u8 name ∷ [])
operands (op_allocreg cnt) = some (put_u8 cnt ∷ [])
operands (op_arg offset_data idx) = some (put_u32 offset_data ∷ put_u8 idx ∷ [])
operands (op_br dest) = some (put_u32 dest ∷ [])
operands (op_brc cond dest) = some (put_u8 cond ∷ put_u32 dest ∷ [])
operands (op_merge dst test csq alt) =
    some (put_u8 dst ∷ put_u8 test ∷ put_u8 csq ∷ put_u8 alt ∷ [])
operands (op_this dst) = some (put_u8 dst ∷ [])
operands (op_call dst callee arguments) = some (call_operands (dst ∷ callee ∷ []) arguments)
operands (op_callt dst callee self arguments) =
    some (call_operands (dst ∷ callee ∷ self ∷ []) arguments)
operands (op_new dst callee arguments) = some (call_operands (dst ∷ callee ∷ []) arguments)
operands (op_ret r) = some (put_u8 r ∷ [])
operands (op_declvar offset_data) = some (put_s32 offset_data ∷ [])
operands (op_load r offset_data) = some (put_u8 r ∷ put_s32 offset_data ∷ [])
operands (op_store r offset_data) = some (put_u8 r ∷ put_s32 offset_data ∷ [])
operands (op_objset dst obj member src) =
    some (put_u8 dst ∷ put_u8 obj ∷ put_u8 member ∷ put_u8 src ∷ [])
operands (op_objget dst obj member) = some (put_u8 dst ∷ put_u8 obj ∷ put_u8 member ∷ [])
operands (op_arrpush arr elem) = some (put_u8 arr ∷ put_u8 elem ∷ [])
operands (op_load_undefined r) = some (put_u8 r ∷ [])
operands (op_load_null r) = some (put_u8 r ∷ [])
operands (op_load_false r) = some (put_u8 r ∷ [])
operands (op_load_true r) = some (put_u8 r ∷ [])
operands (op_load_object r) = some (put_u8 r ∷ [])
operands (op_load_array r) = some (put_u8 r ∷ [])
operands (op_load_s8 r v) = some (put_u8 r ∷ put_s8 v ∷ [])
operands (op_load_s16 r v) = some (put_u8 r ∷ put_s16 v ∷ [])
operands (op_load_s32 r v) = some (put_u8 r ∷ put_s32 v ∷ [])
operands (op_load_u8 r v) = some (put_u8 r ∷ put_u8 v ∷ [])
operands (op_load_u16 r v) = some (put_u8 r ∷ put_u16 v ∷ [])
operands (op_load_u32 r v) = some (put_u8 r ∷ put_u32 v ∷ [])
operands (op_load_f32 r) = none
operands (op_load_f64 r v) = some (put_u8 r ∷ put_f64 v ∷ [])
operands (op_load_string_empty r) = some (put_u8 r ∷ [])
operands (op_load_string r offset_data) = some (put_u8 r ∷ put_s32 offset_data ∷ [])
operands (op_load_function r offset_text) = some (put_u8 r ∷ put_u32 offset_text ∷ [])
operands (op_binary o dst lhs rhs) = some (put_u8 dst ∷ put_u8 lhs ∷ put_u8 rhs ∷ [])
operands (op_unary o dst src) = some (put_u8 dst ∷ put_u8 src ∷ [])

-- `text_item_instrument_write`
unfoldable pub write_inst : Malloc → Inst → Writer
unfolding operands perform performs
write_inst malloc i b = do
  b' ← perform malloc (put_u8 (opcode i)) b
  elim (operands i) [ none ↦ fail b' | some ws ↦ performs malloc ws b' ]

unfoldable pub write_items : Malloc → List AnnotatedItem → Writer
unfolding write_inst
write_items malloc [] b = ok b
write_items malloc (ti ∷ items) b = write_inst malloc ti.inst b >>= write_items malloc items

unfoldable pub write_functions : Malloc → List AnnotatedFunction → Writer
unfolding write_items
write_functions malloc [] b = ok b
write_functions malloc (func ∷ functions) b =
    write_items malloc func.items b >>= write_functions malloc functions

-- `xjs_c4_write_text`
unfoldable pub write_text : Malloc → List AnnotatedFunction → Writer
unfolding write_functions
write_text malloc functions b = do
  b' ← carry_on (BitWriter.append malloc b signature_text 4)
  write_functions malloc functions b'
