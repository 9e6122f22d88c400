-- ===== src/Vm/RoundTrip.antt =====
-- The virtual machine fetches the instructions that the compiler wrote.
use mathlib.Core.List.{append-nil}
use xenonjs.Base.{ℕ, ◌+◌, ◌^◌, ◌<◌, map, ok, ◌≡◌, length, u8, u16, u32}
use xenonjs.Xfile.{Xfile}
use xenonjs.Xfile.Readers.{IsLoaded}
use xenonjs.Xfile.Sits.{Sits}
use xenonjs.Text.{
  Inst, opcode, binary_add, binary_sub, binary_mul, binary_div, binary_mod, binary_e2, binary_ne2,
  binary_e3, binary_ne3, binary_l, binary_le, binary_g, binary_ge, binary_and, binary_or, unary_add,
  unary_sub, unary_not, unary_bnot, op_nop, op_halt, op_debug, op_inspect, op_ret, op_this,
  op_allocreg, op_br, op_declvar, op_dynlib, op_brc, op_arg, op_load, op_store, op_arrpush,
  op_load_undefined, op_load_null, op_load_false, op_load_true, op_load_object, op_load_array,
  op_load_string_empty, op_load_f32, op_load_s8, op_load_s16, op_load_s32, op_load_u8, op_load_u16,
  op_load_u32, op_load_f64, op_load_string, op_load_function, op_merge, op_objset, op_objget,
  op_call, op_new, op_callt, op_binary, op_unary,
}
use xenonjs.Text.Bytes.{IsSound, encode, operand_bytes}
use xenonjs.Text.Writer.{operands}
use xenonjs.Vm.{
  fetch_u8, fetch_s8, fetch_u16, fetch_s16, fetch_u32, fetch_s32, fetch_f64, decode,
  decode_operands,
}
use xenonjs.Vm.Fetches.{
  Fetches, Fetches-pure, Fetches-bind, Fetches-u8, Fetches-s8, Fetches-u16, Fetches-s16,
  Fetches-u32, Fetches-s32, Fetches-f64, Fetches-last, Fetches-with, Fetches-1, Fetches-2,
  Fetches-3, Fetches-4, Fetches-call, Fetches-callt,
}

-- An instruction with its operands cut to the widths of the file.
abbrev pub cut : Inst → Inst
cut op_nop = op_nop
cut op_halt = op_halt
cut op_debug = op_debug
cut (op_inspect r) = op_inspect (u8 r)
cut (op_ret r) = op_ret (u8 r)
cut (op_this r) = op_this (u8 r)
cut (op_allocreg n) = op_allocreg (u8 n)
cut (op_br d) = op_br (u32 d)
cut (op_declvar d) = op_declvar (u32 d)
cut (op_dynlib a b) = op_dynlib (u8 a) (u8 b)
cut (op_brc r d) = op_brc (u8 r) (u32 d)
cut (op_arg d i) = op_arg (u32 d) (u8 i)
cut (op_load r d) = op_load (u8 r) (u32 d)
cut (op_store r d) = op_store (u8 r) (u32 d)
cut (op_arrpush a b) = op_arrpush (u8 a) (u8 b)
cut (op_load_undefined r) = op_load_undefined (u8 r)
cut (op_load_null r) = op_load_null (u8 r)
cut (op_load_false r) = op_load_false (u8 r)
cut (op_load_true r) = op_load_true (u8 r)
cut (op_load_object r) = op_load_object (u8 r)
cut (op_load_array r) = op_load_array (u8 r)
cut (op_load_string_empty r) = op_load_string_empty (u8 r)
cut (op_load_f32 r) = op_load_f32 (u8 r)
cut (op_load_s8 r v) = op_load_s8 (u8 r) (u8 v)
cut (op_load_s16 r v) = op_load_s16 (u8 r) (u16 v)
cut (op_load_s32 r v) = op_load_s32 (u8 r) (u32 v)
cut (op_load_u8 r v) = op_load_u8 (u8 r) (u8 v)
cut (op_load_u16 r v) = op_load_u16 (u8 r) (u16 v)
cut (op_load_u32 r v) = op_load_u32 (u8 r) (u32 v)
cut (op_load_f64 r v) = op_load_f64 (u8 r) v
cut (op_load_string r d) = op_load_string (u8 r) (u32 d)
cut (op_load_function r d) = op_load_function (u8 r) (u32 d)
cut (op_merge a b c d) = op_merge (u8 a) (u8 b) (u8 c) (u8 d)
cut (op_objset a b c d) = op_objset (u8 a) (u8 b) (u8 c) (u8 d)
cut (op_objget a b c) = op_objget (u8 a) (u8 b) (u8 c)
cut (op_call a b rs) = op_call (u8 a) (u8 b) (map u8 rs)
cut (op_new a b rs) = op_new (u8 a) (u8 b) (map u8 rs)
cut (op_callt a b c rs) = op_callt (u8 a) (u8 b) (u8 c) (map u8 rs)
cut (op_binary o a b c) = op_binary o (u8 a) (u8 b) (u8 c)
cut (op_unary o a b) = op_unary o (u8 a) (u8 b)

module _ (f : Xfile) (loaded : IsLoaded f) (small : f.len + 8 < 2 ^ 32) where
  -- Behind the opcode of a sound instruction the machine fetches its operands.
  operands-Fetches :
      (i : Inst)
      → IsSound i
      → Fetches f (decode_operands f (u8 (opcode i))) (operand_bytes (operands i)) (cut i)
  unfolding decode_operands operands
  operands-Fetches op_debug h = absurd h.0
  operands-Fetches (op_load_f32 r) h = absurd h.0
  operands-Fetches (op_load_string_empty r) h = absurd h.1
  operands-Fetches op_nop h = Fetches-pure f loaded small op_nop
  operands-Fetches op_halt h = Fetches-pure f loaded small op_halt
  operands-Fetches (op_inspect r) h = Fetches-1 f loaded small op_inspect (u8 r)
  operands-Fetches (op_ret r) h = Fetches-1 f loaded small op_ret (u8 r)
  operands-Fetches (op_this r) h = Fetches-1 f loaded small op_this (u8 r)
  operands-Fetches (op_allocreg r) h = Fetches-1 f loaded small op_allocreg (u8 r)
  operands-Fetches (op_load_undefined r) h = Fetches-1 f loaded small op_load_undefined (u8 r)
  operands-Fetches (op_load_null r) h = Fetches-1 f loaded small op_load_null (u8 r)
  operands-Fetches (op_load_false r) h = Fetches-1 f loaded small op_load_false (u8 r)
  operands-Fetches (op_load_true r) h = Fetches-1 f loaded small op_load_true (u8 r)
  operands-Fetches (op_load_object r) h = Fetches-1 f loaded small op_load_object (u8 r)
  operands-Fetches (op_load_array r) h = Fetches-1 f loaded small op_load_array (u8 r)
  operands-Fetches (op_dynlib a b) h = Fetches-2 f loaded small op_dynlib (u8 a) (u8 b)
  operands-Fetches (op_arrpush a b) h = Fetches-2 f loaded small op_arrpush (u8 a) (u8 b)
  operands-Fetches (op_objget a b c) h = Fetches-3 f loaded small op_objget (u8 a) (u8 b) (u8 c)
  operands-Fetches (op_merge a b c d) h =
      Fetches-4 f loaded small op_merge (u8 a) (u8 b) (u8 c) (u8 d)
  operands-Fetches (op_objset a b c d) h =
      Fetches-4 f loaded small op_objset (u8 a) (u8 b) (u8 c) (u8 d)
  operands-Fetches (op_br d) h =
      Fetches-last f loaded small (fetch_u32 f) op_br (Fetches-u32 f loaded small d)
  operands-Fetches (op_declvar d) h =
      Fetches-last f loaded small (fetch_u32 f) op_declvar (Fetches-u32 f loaded small d)
  operands-Fetches (op_brc r d) h =
      Fetches-with f loaded small (fetch_u32 f) op_brc (u8 r) (Fetches-u32 f loaded small d)
  operands-Fetches (op_load r d) h =
      Fetches-with f loaded small (fetch_u32 f) op_load (u8 r) (Fetches-u32 f loaded small d)
  operands-Fetches (op_store r d) h =
      Fetches-with f loaded small (fetch_u32 f) op_store (u8 r) (Fetches-u32 f loaded small d)
  operands-Fetches (op_load_string r d) h =
      Fetches-with f loaded small (fetch_u32 f) op_load_string (u8 r) (Fetches-u32 f loaded small d)
  operands-Fetches (op_load_function r d) h =
      Fetches-with f loaded small (fetch_u32 f) op_load_function (u8 r)
        (Fetches-u32 f loaded small d)
  operands-Fetches (op_load_u32 r d) h =
      Fetches-with f loaded small (fetch_u32 f) op_load_u32 (u8 r) (Fetches-u32 f loaded small d)
  operands-Fetches (op_load_s32 r v) h =
      Fetches-with f loaded small (fetch_s32 f) op_load_s32 (u8 r) (Fetches-s32 f loaded small v)
  operands-Fetches (op_load_s16 r v) h =
      Fetches-with f loaded small (fetch_s16 f) op_load_s16 (u8 r) (Fetches-s16 f loaded small v)
  operands-Fetches (op_load_u16 r v) h =
      Fetches-with f loaded small (fetch_u16 f) op_load_u16 (u8 r) (Fetches-u16 f loaded small v)
  operands-Fetches (op_load_s8 r v) h =
      Fetches-with f loaded small (fetch_s8 f) op_load_s8 (u8 r) (Fetches-s8 f loaded small (u8 v))
  operands-Fetches (op_load_u8 r v) h =
      Fetches-with f loaded small (fetch_u8 f) op_load_u8 (u8 r) (Fetches-u8 f loaded small (u8 v))
  operands-Fetches (op_load_f64 r v) h = rw (append-nil v) (
      Fetches-with f loaded small (fetch_f64 f) op_load_f64 (u8 r)
        (Fetches-f64 f loaded small v h.0.1.0))
  operands-Fetches (op_arg d i) h =
      Fetches-bind f loaded small (fetch_u32 f) _ (Fetches-u32 f loaded small d)
        (Fetches-1 f loaded small (op_arg (u32 d)) (u8 i))
  operands-Fetches (op_call a b rs) h = Fetches-call f loaded small op_call (u8 a) (u8 b) rs h.1
  operands-Fetches (op_new a b rs) h = Fetches-call f loaded small op_new (u8 a) (u8 b) rs h.1
  operands-Fetches (op_callt a b c rs) h = Fetches-callt f loaded small (u8 a) (u8 b) (u8 c) rs h.1
  operands-Fetches (op_binary binary_add a b c) h =
      Fetches-3 f loaded small (op_binary binary_add) (u8 a) (u8 b) (u8 c)
  operands-Fetches (op_binary binary_sub a b c) h =
      Fetches-3 f loaded small (op_binary binary_sub) (u8 a) (u8 b) (u8 c)
  operands-Fetches (op_binary binary_mul a b c) h =
      Fetches-3 f loaded small (op_binary binary_mul) (u8 a) (u8 b) (u8 c)
  operands-Fetches (op_binary binary_div a b c) h =
      Fetches-3 f loaded small (op_binary binary_div) (u8 a) (u8 b) (u8 c)
  operands-Fetches (op_binary binary_mod a b c) h =
      Fetches-3 f loaded small (op_binary binary_mod) (u8 a) (u8 b) (u8 c)
  operands-Fetches (op_binary binary_e2 a b c) h =
      Fetches-3 f loaded small (op_binary binary_e2) (u8 a) (u8 b) (u8 c)
  operands-Fetches (op_binary binary_ne2 a b c) h =
      Fetches-3 f loaded small (op_binary binary_ne2) (u8 a) (u8 b) (u8 c)
  operands-Fetches (op_binary binary_e3 a b c) h =
      Fetches-3 f loaded small (op_binary binary_e3) (u8 a) (u8 b) (u8 c)
  operands-Fetches (op_binary binary_ne3 a b c) h =
      Fetches-3 f loaded small (op_binary binary_ne3) (u8 a) (u8 b) (u8 c)
  operands-Fetches (op_binary binary_l a b c) h =
      Fetches-3 f loaded small (op_binary binary_l) (u8 a) (u8 b) (u8 c)
  operands-Fetches (op_binary binary_le a b c) h =
      Fetches-3 f loaded small (op_binary binary_le) (u8 a) (u8 b) (u8 c)
  operands-Fetches (op_binary binary_g a b c) h =
      Fetches-3 f loaded small (op_binary binary_g) (u8 a) (u8 b) (u8 c)
  operands-Fetches (op_binary binary_ge a b c) h =
      Fetches-3 f loaded small (op_binary binary_ge) (u8 a) (u8 b) (u8 c)
  operands-Fetches (op_binary binary_and a b c) h =
      Fetches-3 f loaded small (op_binary binary_and) (u8 a) (u8 b) (u8 c)
  operands-Fetches (op_binary binary_or a b c) h =
      Fetches-3 f loaded small (op_binary binary_or) (u8 a) (u8 b) (u8 c)
  operands-Fetches (op_unary unary_add a b) h =
      Fetches-2 f loaded small (op_unary unary_add) (u8 a) (u8 b)
  operands-Fetches (op_unary unary_sub a b) h =
      Fetches-2 f loaded small (op_unary unary_sub) (u8 a) (u8 b)
  operands-Fetches (op_unary unary_not a b) h =
      Fetches-2 f loaded small (op_unary unary_not) (u8 a) (u8 b)
  operands-Fetches (op_unary unary_bnot a b) h =
      Fetches-2 f loaded small (op_unary unary_bnot) (u8 a) (u8 b)

  -- In a loaded file of fewer than 2^32 - 8 bytes, where the encoding of an instruction that can
  -- be written and fetched sits in the text section at the program counter, the machine fetches
  -- the instruction, its operands cut to the widths of the file, and the counter is behind its
  -- last byte.
  pub decode-encode :
      (i : Inst) (pc : ℕ)
      → IsSound i
      → Sits (encode i) (f.sections.text + 4 + pc) f.bc
      → decode f pc ≡ ok (cut i, pc + length (encode i))
  unfolding decode
  decode-encode i pc h at =
      let all =
        Fetches-bind f loaded small (fetch_u8 f) (decode_operands f)
          (Fetches-u8 f loaded small (u8 (opcode i))) (operands-Fetches i h) in
      all.fetches pc at
