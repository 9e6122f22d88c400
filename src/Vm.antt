-- ===== src/Vm.antt =====
-- rts/src/xjr_vm.c: how the virtual machine fetches an instruction. The operands of each opcode
-- are fetched in the order of `xjr_vm_step`; between the fetches of one instruction that function
-- only reads registers.
pub mod Fetches
pub mod RoundTrip
pub mod Program
use xenonjs.Base.{
  ℕ, zero, suc, ◌+◌, List, [], ◌∷◌, Option, none, some, ok, fail, fault, ltb, ◌==◌, if◌then◌else◌,
  u32,
}
use xenonjs.Xfile.{Xfile, Read, read_u8, read_s8, read_u16, read_s16, read_u32, read_s32, read_f64}
use xenonjs.Text.{
  BinaryOp, UnaryOp, Inst, argc_max, binary_add, binary_sub, binary_mul, binary_div, binary_mod,
  binary_e2, binary_ne2, binary_e3, binary_ne3, binary_l, binary_le, binary_g, binary_ge,
  binary_and, binary_or, unary_add, unary_sub, unary_not, unary_bnot, op_nop, op_halt, op_debug,
  op_inspect, op_ret, op_this, op_allocreg, op_br, op_declvar, op_dynlib, op_brc, op_arg, op_load,
  op_store, op_arrpush, op_load_undefined, op_load_null, op_load_false, op_load_true,
  op_load_object, op_load_array, op_load_s8, op_load_s16, op_load_s32, op_load_u8, op_load_u16,
  op_load_u32, op_load_f64, op_load_string, op_load_function, op_merge, op_objset, op_objget,
  op_call, op_new, op_callt, op_binary, op_unary,
}

-- The result and the program counter behind it, or the -1 of a reader or of the machine.
abbrev pub Fetch : Type 0 → Type 0
Fetch A = ℕ → Read (A × ℕ)

abbrev pub pure : {A : Type 0} → A → Fetch A
pure a pc = ok (a, pc)

infixl 5 ◌>>=◌
abbrev pub ◌>>=◌ : {A B : Type 0} → Fetch A → (A → Fetch B) → Fetch B
◌>>=◌ m k pc = elim (m pc) [ ok (a, pc') ↦ k a pc' | fail e ↦ fail e | fault ↦ fault ]

abbrev pub give_up : {A : Type 0} → Fetch A
give_up pc = fail tt

module _ (f : Xfile) where
  -- OFFSET_PC
  abbrev pub offset_pc : ℕ → ℕ
  offset_pc pc = u32 (f.sections.text + 4 + pc)

  -- A reader of the file at the program counter, which moves on by `n`.
  abbrev pub fetch : {A : Type 0} → (Xfile → ℕ → Read A) → ℕ → Fetch A
  fetch read n pc = elim (read f (offset_pc pc)) [
    | ok v ↦ ok (v, u32 (pc + n))
    | fail e ↦ fail e
    | fault ↦ fault
  ]

  abbrev pub fetch_u8 : Fetch ℕ
  fetch_u8 = fetch read_u8 1

  abbrev pub fetch_s8 : Fetch ℕ
  fetch_s8 = fetch read_s8 1

  abbrev pub fetch_u16 : Fetch ℕ
  fetch_u16 = fetch read_u16 2

  abbrev pub fetch_s16 : Fetch ℕ
  fetch_s16 = fetch read_s16 2

  abbrev pub fetch_u32 : Fetch ℕ
  fetch_u32 = fetch read_u32 4

  abbrev pub fetch_s32 : Fetch ℕ
  fetch_s32 = fetch read_s32 4

  abbrev pub fetch_f64 : Fetch (List ℕ)
  fetch_f64 = fetch read_f64 8

  -- The loop that fetches the arguments of a call.
  abbrev pub fetch_argv : ℕ → Fetch (List ℕ)
  fetch_argv zero = pure []
  fetch_argv (suc n) = do r ← fetch_u8; rs ← fetch_argv n; pure (r ∷ rs)

  -- The number of the arguments, which is tested, and the arguments.
  abbrev pub fetch_arguments : Fetch (List ℕ)
  fetch_arguments = do argc ← fetch_u8; if ltb argc_max argc then give_up else fetch_argv argc

  -- Instructions whose operands are registers.
  abbrev pub decode_1 : (ℕ → Inst) → Fetch Inst
  decode_1 c = do r ← fetch_u8; pure (c r)

  abbrev pub decode_2 : (ℕ → ℕ → Inst) → Fetch Inst
  decode_2 c = do a ← fetch_u8; b ← fetch_u8; pure (c a b)

  abbrev pub decode_3 : (ℕ → ℕ → ℕ → Inst) → Fetch Inst
  decode_3 c = do a ← fetch_u8; b ← fetch_u8; d ← fetch_u8; pure (c a b d)

  abbrev pub decode_4 : (ℕ → ℕ → ℕ → ℕ → Inst) → Fetch Inst
  decode_4 c = do a ← fetch_u8; b ← fetch_u8; d ← fetch_u8; e ← fetch_u8; pure (c a b d e)

  -- A register and a literal or an offset.
  abbrev pub decode_with : {A : Type 0} → Fetch A → (ℕ → A → Inst) → Fetch Inst
  decode_with operand c = do r ← fetch_u8; v ← operand; pure (c r v)

  abbrev pub decode_call : (ℕ → ℕ → List ℕ → Inst) → Fetch Inst
  decode_call c = do
    dst ← fetch_u8
    callee ← fetch_u8
    argv ← fetch_arguments
    pure (c dst callee argv)

  abbrev pub decode_callt : Fetch Inst
  decode_callt = do
    dst ← fetch_u8
    callee ← fetch_u8
    self ← fetch_u8
    argv ← fetch_arguments
    pure (op_callt dst callee self argv)

  -- The cases of the switch for the opcodes below 0x20.
  abbrev pub decode_control : ℕ → Fetch Inst
  decode_control op =
      if op == 0x00
      then pure op_nop
      else if op == 0x01
      then pure op_halt
      else if op == 0x02
      then pure op_debug
      else if op == 0x03
      then decode_1 op_inspect
      else if op == 0x04
      then decode_2 op_dynlib
      else if op == 0x10
      then (do offset ← fetch_u32; pure (op_br offset))
      else if op == 0x11
      then decode_with fetch_u32 op_brc
      else if op == 0x12
      then decode_4 op_merge
      else if op == 0x13
      then decode_1 op_ret
      else if op == 0x14
      then decode_call op_call
      else if op == 0x15
      then decode_callt
      else if op == 0x16
      then decode_call op_new
      else if op == 0x17
      then decode_1 op_this
      else if op == 0x18
      then decode_1 op_allocreg
      else if op == 0x19
      then (do offset ← fetch_u32; idx ← fetch_u8; pure (op_arg offset idx))
      else if op == 0x1A
      then (do offset ← fetch_u32; pure (op_declvar offset))
      else if op == 0x1B
      then decode_with fetch_u32 op_load
      else if op == 0x1C
      then decode_with fetch_u32 op_store
      else if op == 0x1D
      then decode_1 op_load_undefined
      else if op == 0x1E
      then decode_1 op_load_null
      else if op == 0x1F
      then decode_1 op_load_false
      else give_up

  -- The cases for the opcodes from 0x20 on. LOAD_STRING_EMPTY gives up, and LOAD_NUMBER_F32 and
  -- LOAD_ARROWFUNCTION are not among the cases.
  abbrev pub decode_data : ℕ → Fetch Inst
  decode_data op =
      if op == 0x20
      then decode_1 op_load_true
      else if op == 0x21
      then decode_with fetch_u32 op_load_string
      else if op == 0x22
      then give_up
      else if op == 0x23
      then decode_with fetch_s8 op_load_s8
      else if op == 0x24
      then decode_with fetch_s16 op_load_s16
      else if op == 0x25
      then decode_with fetch_s32 op_load_s32
      else if op == 0x26
      then decode_with fetch_u8 op_load_u8
      else if op == 0x27
      then decode_with fetch_u16 op_load_u16
      else if op == 0x28
      then decode_with fetch_u32 op_load_u32
      else if op == 0x2A
      then decode_with fetch_f64 op_load_f64
      else if op == 0x2B
      then decode_with fetch_u32 op_load_function
      else if op == 0x2D
      then decode_1 op_load_object
      else if op == 0x2E
      then decode_1 op_load_array
      else if op == 0x50
      then decode_4 op_objset
      else if op == 0x51
      then decode_3 op_objget
      else if op == 0x52
      then decode_2 op_arrpush
      else give_up

-- The opcodes of the cases that binary and unary operations share.
abbrev pub binary_of : ℕ → Option BinaryOp
binary_of op =
    if op == 0x30
    then some binary_add
    else if op == 0x31
    then some binary_sub
    else if op == 0x32
    then some binary_mul
    else if op == 0x33
    then some binary_div
    else if op == 0x34
    then some binary_mod
    else if op == 0x35
    then some binary_e2
    else if op == 0x36
    then some binary_ne2
    else if op == 0x37
    then some binary_e3
    else if op == 0x38
    then some binary_ne3
    else if op == 0x39
    then some binary_l
    else if op == 0x3A
    then some binary_le
    else if op == 0x3B
    then some binary_g
    else if op == 0x3C
    then some binary_ge
    else if op == 0x3D
    then some binary_and
    else if op == 0x3E
    then some binary_or
    else none

abbrev pub unary_of : ℕ → Option UnaryOp
unary_of op =
    if op == 0x40
    then some unary_add
    else if op == 0x41
    then some unary_sub
    else if op == 0x42
    then some unary_not
    else if op == 0x43
    then some unary_bnot
    else none

-- The switch of `xjr_vm_step`, as far as it fetches.
unfoldable pub decode_operands : Xfile → ℕ → Fetch Inst
decode_operands f op = elim (binary_of op) [
  | some o ↦ decode_3 f (op_binary o)
  | none ↦ elim (unary_of op) [
    | some o ↦ decode_2 f (op_unary o)
    | none ↦ if ltb op 0x20 then decode_control f op else decode_data f op
  ]
]

-- The fetch of a whole instruction.
unfoldable pub decode : Xfile → Fetch Inst
unfolding decode_operands
decode f = do op ← fetch_u8 f; decode_operands f op
