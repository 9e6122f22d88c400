-- ===== src/Text.antt =====
-- compiler/include/xjs_types_ir.h and compiler/src/xjs_c4_helper.h: the items of the intermediate
-- form's functions, and the instructions that the last stage makes of them.
pub mod Translate
pub mod Writer
pub mod Annotate
pub mod Bytes
pub mod Format
pub mod Size
pub mod Layout
pub mod Functions
pub mod Places
pub mod Labels
pub mod Stage
pub mod Branches
pub mod Cuts
pub mod Closed
use xenonjs.Base.{ℕ, List, Bool, Option}

-- `xjs_ir_text_item_type_binary_add` to `_or`
pub data BinaryOp : Type 0 where
  binary_add binary_sub binary_mul binary_div binary_mod : BinaryOp
  binary_e2 binary_ne2 binary_e3 binary_ne3 : BinaryOp
  binary_l binary_le binary_g binary_ge binary_and binary_or : BinaryOp

pub data UnaryOp : Type 0 where
  unary_add unary_sub unary_not unary_bnot : UnaryOp

-- `xjs_ir_text_item`, with the fields of its union in the order of the source; `call` has its
-- `bound_this` last. A double is the bytes of its object.
pub data TextItem : Type 0 where
  nop halt push_scope pop_scope : TextItem
  inspect label br alloca : ℕ → TextItem
  load_undefined load_null load_object load_array : ℕ → TextItem
  declvar ret this : ℕ → TextItem
  dynlib br_cond load_string load store : ℕ → ℕ → TextItem
  array_push make_function make_arrow_function : ℕ → ℕ → TextItem
  load_bool : ℕ → Bool → TextItem
  load_number : ℕ → List ℕ → TextItem
  object_get : ℕ → ℕ → ℕ → TextItem
  merge object_set : ℕ → ℕ → ℕ → ℕ → TextItem
  call : ℕ → ℕ → List ℕ → Option ℕ → TextItem
  new : ℕ → ℕ → List ℕ → TextItem
  binary : BinaryOp → ℕ → ℕ → ℕ → TextItem
  unary : UnaryOp → ℕ → ℕ → TextItem

-- The opcode and the operands of an `annotated_text_section_item`, the operands in the order of
-- the file. The number of arguments of a call is the length of the list.
pub data Inst : Type 0 where
  op_nop op_halt op_debug : Inst
  op_inspect op_ret op_this op_allocreg op_br op_declvar : ℕ → Inst
  op_dynlib op_brc op_arg op_load op_store op_arrpush : ℕ → ℕ → Inst
  op_load_undefined op_load_null op_load_false op_load_true : ℕ → Inst
  op_load_object op_load_array op_load_string_empty op_load_f32 : ℕ → Inst
  op_load_s8 op_load_s16 op_load_s32 op_load_u8 op_load_u16 op_load_u32 : ℕ → ℕ → Inst
  op_load_f64 : ℕ → List ℕ → Inst
  op_load_string op_load_function : ℕ → ℕ → Inst
  op_merge op_objset : ℕ → ℕ → ℕ → ℕ → Inst
  op_objget : ℕ → ℕ → ℕ → Inst
  op_call op_new : ℕ → ℕ → List ℕ → Inst
  op_callt : ℕ → ℕ → ℕ → List ℕ → Inst
  op_binary : BinaryOp → ℕ → ℕ → ℕ → Inst
  op_unary : UnaryOp → ℕ → ℕ → Inst

abbrev pub argc_max : ℕ
argc_max = 16

-- XJS_BC_OP_BINADD and the opcodes behind it
abbrev pub binary_opcode : BinaryOp → ℕ
binary_opcode binary_add = 0x30
binary_opcode binary_sub = 0x31
binary_opcode binary_mul = 0x32
binary_opcode binary_div = 0x33
binary_opcode binary_mod = 0x34
binary_opcode binary_e2 = 0x35
binary_opcode binary_ne2 = 0x36
binary_opcode binary_e3 = 0x37
binary_opcode binary_ne3 = 0x38
binary_opcode binary_l = 0x39
binary_opcode binary_le = 0x3A
binary_opcode binary_g = 0x3B
binary_opcode binary_ge = 0x3C
binary_opcode binary_and = 0x3D
binary_opcode binary_or = 0x3E

abbrev pub unary_opcode : UnaryOp → ℕ
unary_opcode unary_add = 0x40
unary_opcode unary_sub = 0x41
unary_opcode unary_not = 0x42
unary_opcode unary_bnot = 0x43

abbrev pub opcode : Inst → ℕ
opcode op_nop = 0x00
opcode op_halt = 0x01
opcode op_debug = 0x02
opcode (op_inspect _) = 0x03
opcode (op_dynlib _ _) = 0x04
opcode (op_br _) = 0x10
opcode (op_brc _ _) = 0x11
opcode (op_merge _ _ _ _) = 0x12
opcode (op_ret _) = 0x13
opcode (op_call _ _ _) = 0x14
opcode (op_callt _ _ _ _) = 0x15
opcode (op_new _ _ _) = 0x16
opcode (op_this _) = 0x17
opcode (op_allocreg _) = 0x18
opcode (op_arg _ _) = 0x19
opcode (op_declvar _) = 0x1A
opcode (op_load _ _) = 0x1B
opcode (op_store _ _) = 0x1C
opcode (op_load_undefined _) = 0x1D
opcode (op_load_null _) = 0x1E
opcode (op_load_false _) = 0x1F
opcode (op_load_true _) = 0x20
opcode (op_load_string _ _) = 0x21
opcode (op_load_string_empty _) = 0x22
opcode (op_load_s8 _ _) = 0x23
opcode (op_load_s16 _ _) = 0x24
opcode (op_load_s32 _ _) = 0x25
opcode (op_load_u8 _ _) = 0x26
opcode (op_load_u16 _ _) = 0x27
opcode (op_load_u32 _ _) = 0x28
opcode (op_load_f32 _) = 0x29
opcode (op_load_f64 _ _) = 0x2A
opcode (op_load_function _ _) = 0x2B
opcode (op_load_object _) = 0x2D
opcode (op_load_array _) = 0x2E
opcode (op_binary o _ _ _) = binary_opcode o
opcode (op_unary o _ _) = unary_opcode o
opcode (op_objset _ _ _ _) = 0x50
opcode (op_objget _ _ _) = 0x51
opcode (op_arrpush _ _) = 0x52

-- An `annotated_text_section_item`, less its location in the source.
pub record AnnotatedItem : Type 0 where
  pub inst : Inst
  pub offset : ℕ

-- `xjs_ir_function`: the names of its parameters and its items.
pub record Function : Type 0 where
  pub parameters : List ℕ
  pub items : List TextItem

-- The functions of the intermediate form, and which of them is its `toplevel`.
pub record Code : Type 0 where
  pub functions : List Function
  pub toplevel : ℕ

-- `annotated_function`
pub record AnnotatedFunction : Type 0 where
  pub items : List AnnotatedItem
  pub offset : ℕ
