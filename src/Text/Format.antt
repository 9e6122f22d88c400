-- ===== src/Text/Format.antt =====
-- The bytes of each instruction of a bytecode file, with the opcodes of rts/src/xjr_xformat.h and
-- the operands in the order in which rts/src/xjr_vm.c reads them.
use mathlib.Core.List.{append-nil}
use xenonjs.Base.{
  ℕ, List, [], ◌∷◌, ◌++◌, map, u8, u16, u32, le_bytes, length, ◌≡◌, ◌≢◌, refl, ap, ◌∙◌, All, none,
}
use xenonjs.Buffer.{Malloc}
use xenonjs.Buffer.Valid.{IsMalloc}
use xenonjs.BitWriter.Encode.{Emits}
use xenonjs.Text.{
  opcode, binary_opcode, unary_opcode, BinaryOp, UnaryOp, Inst, AnnotatedItem, AnnotatedFunction,
  op_nop, op_halt, op_debug, op_inspect, op_ret, op_this, op_allocreg, op_br, op_declvar, op_dynlib,
  op_brc, op_arg, op_load, op_store, op_arrpush, op_load_undefined, op_load_null, op_load_false,
  op_load_true, op_load_object, op_load_array, op_load_string_empty, op_load_f32, op_load_s8,
  op_load_s16, op_load_s32, op_load_u8, op_load_u16, op_load_u32, op_load_f64, op_load_string,
  op_load_function, op_merge, op_objset, op_objget, op_call, op_new, op_callt, op_binary, op_unary,
  binary_add, binary_sub, binary_mul, binary_div, binary_mod, binary_e2, binary_ne2, binary_e3,
  binary_ne3, binary_l, binary_le, binary_g, binary_ge, binary_and, binary_or, unary_add, unary_sub,
  unary_not, unary_bnot,
}
use xenonjs.Text.Writer.{put_u8, operands, write_text}
use xenonjs.Text.Bytes.{
  IsSound, encode, writes_bytes, items_code, functions_code, Emits-write_text_encoded,
}

abbrev pub binary_byte : BinaryOp → ℕ
binary_byte binary_add = 0x30
binary_byte binary_sub = 0x31
binary_byte binary_mul = 0x32
binary_byte binary_div = 0x33
binary_byte binary_mod = 0x34
binary_byte binary_e2 = 0x35
binary_byte binary_ne2 = 0x36
binary_byte binary_e3 = 0x37
binary_byte binary_ne3 = 0x38
binary_byte binary_l = 0x39
binary_byte binary_le = 0x3A
binary_byte binary_g = 0x3B
binary_byte binary_ge = 0x3C
binary_byte binary_and = 0x3D
binary_byte binary_or = 0x3E

abbrev pub unary_byte : UnaryOp → ℕ
unary_byte unary_add = 0x40
unary_byte unary_sub = 0x41
unary_byte unary_not = 0x42
unary_byte unary_bnot = 0x43

-- A kind that the writer does not know, or the machine does not run, has no bytes.
abbrev pub layout : Inst → List ℕ
layout op_nop = 0x00 ∷ []
layout op_halt = 0x01 ∷ []
layout (op_inspect r) = 0x03 ∷ u8 r ∷ []
layout (op_dynlib exports name) = 0x04 ∷ u8 exports ∷ u8 name ∷ []
layout (op_allocreg cnt) = 0x18 ∷ u8 cnt ∷ []
layout (op_arg offset_data idx) = 0x19 ∷ (le_bytes 4 (u32 offset_data) ++ (u8 idx ∷ []))
layout (op_br dest) = 0x10 ∷ le_bytes 4 (u32 dest)
layout (op_brc cond dest) = 0x11 ∷ u8 cond ∷ le_bytes 4 (u32 dest)
layout (op_merge dst test csq alt) = 0x12 ∷ u8 dst ∷ u8 test ∷ u8 csq ∷ u8 alt ∷ []
layout (op_this dst) = 0x17 ∷ u8 dst ∷ []
layout (op_call dst callee arguments) =
    0x14 ∷ u8 dst ∷ u8 callee ∷ u8 (length arguments) ∷ map u8 arguments
layout (op_callt dst callee self arguments) =
    0x15 ∷ u8 dst ∷ u8 callee ∷ u8 self ∷ u8 (length arguments) ∷ map u8 arguments
layout (op_new dst callee arguments) =
    0x16 ∷ u8 dst ∷ u8 callee ∷ u8 (length arguments) ∷ map u8 arguments
layout (op_ret r) = 0x13 ∷ u8 r ∷ []
layout (op_declvar offset_data) = 0x1A ∷ le_bytes 4 (u32 offset_data)
layout (op_load r offset_data) = 0x1B ∷ u8 r ∷ le_bytes 4 (u32 offset_data)
layout (op_store r offset_data) = 0x1C ∷ u8 r ∷ le_bytes 4 (u32 offset_data)
layout (op_objset dst obj member src) = 0x50 ∷ u8 dst ∷ u8 obj ∷ u8 member ∷ u8 src ∷ []
layout (op_objget dst obj member) = 0x51 ∷ u8 dst ∷ u8 obj ∷ u8 member ∷ []
layout (op_arrpush arr elem) = 0x52 ∷ u8 arr ∷ u8 elem ∷ []
layout (op_load_undefined r) = 0x1D ∷ u8 r ∷ []
layout (op_load_null r) = 0x1E ∷ u8 r ∷ []
layout (op_load_false r) = 0x1F ∷ u8 r ∷ []
layout (op_load_true r) = 0x20 ∷ u8 r ∷ []
layout (op_load_object r) = 0x2D ∷ u8 r ∷ []
layout (op_load_array r) = 0x2E ∷ u8 r ∷ []
layout (op_load_s8 r v) = 0x23 ∷ u8 r ∷ u8 v ∷ []
layout (op_load_s16 r v) = 0x24 ∷ u8 r ∷ le_bytes 2 (u16 v)
layout (op_load_s32 r v) = 0x25 ∷ u8 r ∷ le_bytes 4 (u32 v)
layout (op_load_u8 r v) = 0x26 ∷ u8 r ∷ u8 v ∷ []
layout (op_load_u16 r v) = 0x27 ∷ u8 r ∷ le_bytes 2 (u16 v)
layout (op_load_u32 r v) = 0x28 ∷ u8 r ∷ le_bytes 4 (u32 v)
layout (op_load_f64 r v) = 0x2A ∷ u8 r ∷ v
layout (op_load_string r offset_data) = 0x21 ∷ u8 r ∷ le_bytes 4 (u32 offset_data)
layout (op_load_function r offset_text) = 0x2B ∷ u8 r ∷ le_bytes 4 (u32 offset_text)
layout (op_binary o dst lhs rhs) = binary_byte o ∷ u8 dst ∷ u8 lhs ∷ u8 rhs ∷ []
layout (op_unary o dst src) = unary_byte o ∷ u8 dst ∷ u8 src ∷ []
layout _ = []

map-layout : (arguments : List ℕ) → writes_bytes (map put_u8 arguments) ≡ map u8 arguments
map-layout [] = refl
map-layout (x ∷ xs) = ap (λ t. u8 x ∷ t) (map-layout xs)

binary_lem : (o : BinaryOp) → u8 (binary_opcode o) ≡ binary_byte o
binary_lem binary_add = refl
binary_lem binary_sub = refl
binary_lem binary_mul = refl
binary_lem binary_div = refl
binary_lem binary_mod = refl
binary_lem binary_e2 = refl
binary_lem binary_ne2 = refl
binary_lem binary_e3 = refl
binary_lem binary_ne3 = refl
binary_lem binary_l = refl
binary_lem binary_le = refl
binary_lem binary_g = refl
binary_lem binary_ge = refl
binary_lem binary_and = refl
binary_lem binary_or = refl

unary_lem : (o : UnaryOp) → u8 (unary_opcode o) ≡ unary_byte o
unary_lem unary_add = refl
unary_lem unary_sub = refl
unary_lem unary_not = refl
unary_lem unary_bnot = refl

encode-layout : (i : Inst) → IsSound i → encode i ≡ layout i
unfolding operands
encode-layout op_nop h = refl
encode-layout op_halt h = refl
encode-layout (op_inspect r) h = refl
encode-layout (op_dynlib exports name) h = refl
encode-layout (op_allocreg cnt) h = refl
encode-layout (op_arg offset_data idx) h = refl
encode-layout (op_br dest) h = refl
encode-layout (op_brc cond dest) h = refl
encode-layout (op_merge dst test csq alt) h = refl
encode-layout (op_this dst) h = refl
encode-layout (op_call dst callee arguments) h =
    ap (λ t. opcode (op_call dst callee arguments) ∷ u8 dst ∷ u8 callee ∷ u8 (length arguments) ∷ t)
      (map-layout arguments)
encode-layout (op_callt dst callee self arguments) h =
    ap
      (λ t.
        opcode (op_callt dst callee self arguments)
        ∷ u8 dst
        ∷ u8 callee
        ∷ u8 self
        ∷ u8 (length arguments)
        ∷ t)
      (map-layout arguments)
encode-layout (op_new dst callee arguments) h =
    ap (λ t. opcode (op_new dst callee arguments) ∷ u8 dst ∷ u8 callee ∷ u8 (length arguments) ∷ t)
      (map-layout arguments)
encode-layout (op_ret r) h = refl
encode-layout (op_declvar offset_data) h = refl
encode-layout (op_load r offset_data) h = refl
encode-layout (op_store r offset_data) h = refl
encode-layout (op_objset dst obj member src) h = refl
encode-layout (op_objget dst obj member) h = refl
encode-layout (op_arrpush arr elem) h = refl
encode-layout (op_load_undefined r) h = refl
encode-layout (op_load_null r) h = refl
encode-layout (op_load_false r) h = refl
encode-layout (op_load_true r) h = refl
encode-layout (op_load_object r) h = refl
encode-layout (op_load_array r) h = refl
encode-layout (op_load_s8 r v) h = refl
encode-layout (op_load_s16 r v) h = refl
encode-layout (op_load_s32 r v) h = refl
encode-layout (op_load_u8 r v) h = refl
encode-layout (op_load_u16 r v) h = refl
encode-layout (op_load_u32 r v) h = refl
encode-layout (op_load_f64 r v) h = ap (λ t. 0x2A ∷ u8 r ∷ t) (append-nil v)
encode-layout (op_load_string r offset_data) h = refl
encode-layout (op_load_function r offset_text) h = refl
encode-layout (op_binary o dst lhs rhs) h =
    ap (λ t. t ∷ u8 dst ∷ u8 lhs ∷ u8 rhs ∷ []) (binary_lem o)
encode-layout (op_unary o dst src) h = ap (λ t. t ∷ u8 dst ∷ u8 src ∷ []) (unary_lem o)
encode-layout op_debug h = absurd h.0
encode-layout (op_load_f32 r) h = absurd h.0
encode-layout (op_load_string_empty r) h = absurd h.1

abbrev pub items_layout : List AnnotatedItem → List ℕ
items_layout [] = []
items_layout (ti ∷ items) = layout ti.inst ++ items_layout items

abbrev pub functions_layout : List AnnotatedFunction → List ℕ
functions_layout [] = []
functions_layout (func ∷ functions) = items_layout func.items ++ functions_layout functions

items_code-layout :
    (items : List AnnotatedItem)
    → All (λ ti. IsSound ti.inst) items
    → items_code items ≡ items_layout items
items_code-layout [] h = refl
items_code-layout (ti ∷ items) h =
    ap (λ t. t ++ items_code items) (encode-layout ti.inst h.0)
    ∙ ap (λ t. layout ti.inst ++ t) (items_code-layout items h.1)

functions_code-layout :
    (functions : List AnnotatedFunction)
    → All (λ func. All (λ ti. IsSound ti.inst) func.items) functions
    → functions_code functions ≡ functions_layout functions
functions_code-layout [] h = refl
functions_code-layout (func ∷ functions) h =
    ap (λ t. t ++ functions_code functions) (items_code-layout func.items h.0)
    ∙ ap (λ t. items_layout func.items ++ t) (functions_code-layout functions h.1)

module _ (malloc : Malloc) (given : IsMalloc malloc) (plenty : (n : ℕ) → malloc n ≢ none) where
  -- Over an allocator that has memory, on a ready buffer with room for them within the size type,
  -- the writer of the text section adds, for instructions that can be written, the signature and
  -- then, for each instruction in order, the bytes of `layout`.
  pub Emits-write_text :
      (functions : List AnnotatedFunction)
      → All (λ func. All (λ ti. IsSound ti.inst) func.items) functions
      → Emits (write_text malloc functions) (b't' ∷ b'e' ∷ b'x' ∷ b't' ∷ functions_layout functions)
  Emits-write_text functions h =
      rw (← functions_code-layout functions h)
        (Emits-write_text_encoded malloc given plenty functions h)
