-- ===== src/Text/Bytes.antt =====
-- The bytes of the text section, over an allocator that has memory.
use native.Mathlib.Nat.{mod-eq_of_lt}
use xenonjs.Base.{
  ℕ, ◌^◌, ◌≤◌, ◌<◌, List, [], ◌∷◌, ◌++◌, Option, none, some, fail, ◌≡◌, ◌≢◌, arith, length,
  le_bytes, u8, u16, u32, All,
}
use xenonjs.Buffer.{Malloc}
use xenonjs.Buffer.Valid.{IsMalloc}
use xenonjs.BitWriter.Encode.{
  Emits, Emits-then, Emits-nothing, Emits-append, Emits-write_u32, Emits-write_u16, Emits-write_u8,
  Emits-write_s8, Emits-write_s16, Emits-write_s32, Emits-write_f64,
}
use xenonjs.Linker.{signature_text}
use xenonjs.Text.{
  Inst, AnnotatedItem, AnnotatedFunction, argc_max, opcode, op_load_string_empty, op_call, op_new,
  op_callt,
}
use xenonjs.Text.Writer.{
  Write, put_u8, put_u16, put_u32, put_s8, put_s16, put_s32, put_f64, perform, performs, operands,
  write_inst, write_items, write_functions, write_text,
}

-- A double has eight bytes.
abbrev pub IsWrite : Write → Type 0
IsWrite (put_f64 v) = length v ≡ 8
IsWrite _ = Unit

abbrev pub write_bytes : Write → List ℕ
write_bytes (put_u8 v) = u8 v ∷ []
write_bytes (put_s8 v) = u8 v ∷ []
write_bytes (put_u16 v) = le_bytes 2 (u16 v)
write_bytes (put_s16 v) = le_bytes 2 (u16 v)
write_bytes (put_u32 v) = le_bytes 4 (u32 v)
write_bytes (put_s32 v) = le_bytes 4 (u32 v)
write_bytes (put_f64 v) = v

abbrev pub writes_bytes : List Write → List ℕ
writes_bytes [] = []
writes_bytes (w ∷ ws) = write_bytes w ++ writes_bytes ws

abbrev pub AreWrites : Option (List Write) → Type 0
AreWrites none = ⊥
AreWrites (some ws) = All IsWrite ws

abbrev pub operand_bytes : Option (List Write) → List ℕ
operand_bytes none = []
operand_bytes (some ws) = writes_bytes ws

-- What the virtual machine does not give up at.
abbrev pub IsRunnable : Inst → Type 0
IsRunnable (op_call _ _ arguments) = length arguments ≤ argc_max
IsRunnable (op_callt _ _ _ arguments) = length arguments ≤ argc_max
IsRunnable (op_new _ _ arguments) = length arguments ≤ argc_max
IsRunnable (op_load_string_empty _) = ⊥
IsRunnable _ = Unit

-- An instruction of the kinds that the writer knows and the virtual machine runs.
abbrev pub IsSound : Inst → Type 0
IsSound i = AreWrites (operands i) × IsRunnable i

-- The opcode and the operands.
abbrev pub encode : Inst → List ℕ
encode i = u8 (opcode i) ∷ operand_bytes (operands i)

abbrev pub items_code : List AnnotatedItem → List ℕ
items_code [] = []
items_code (ti ∷ items) = encode ti.inst ++ items_code items

abbrev pub functions_code : List AnnotatedFunction → List ℕ
functions_code [] = []
functions_code (func ∷ functions) = items_code func.items ++ functions_code functions

u8_below : (v : ℕ) → u8 v < 2 ^ 8
u8_below v = omega arith

u16_below : (v : ℕ) → u16 v < 2 ^ 16
u16_below v = omega arith

u32_below : (v : ℕ) → u32 v < 2 ^ 32
u32_below v = omega arith

module _ (malloc : Malloc) (given : IsMalloc malloc) (plenty : (n : ℕ) → malloc n ≢ none) where
  -- The macros put the bytes of their values behind the contents.
  pub Emits-perform : (w : Write) → IsWrite w → Emits (perform malloc w) (write_bytes w)
  unfolding perform
  Emits-perform (put_u8 v) h = Emits-write_u8 malloc given plenty (u8 v)
  Emits-perform (put_u16 v) h = Emits-write_u16 malloc given plenty (u16 v)
  Emits-perform (put_u32 v) h = Emits-write_u32 malloc given plenty (u32 v)
  Emits-perform (put_s8 v) h =
      rw (mod-eq_of_lt (u8_below v)) at (Emits-write_s8 malloc given plenty (u8 v))
  Emits-perform (put_s16 v) h =
      rw (mod-eq_of_lt (u16_below v)) at (Emits-write_s16 malloc given plenty (u16 v))
  Emits-perform (put_s32 v) h =
      rw (mod-eq_of_lt (u32_below v)) at (Emits-write_s32 malloc given plenty (u32 v))
  Emits-perform (put_f64 v) h = Emits-write_f64 malloc given plenty v h

  pub Emits-performs :
      (ws : List Write) → All IsWrite ws → Emits (performs malloc ws) (writes_bytes ws)
  unfolding performs
  Emits-performs [] h = Emits-nothing
  Emits-performs (w ∷ ws) h = Emits-then (Emits-perform w h.0) (Emits-performs ws h.1)

  Emits-operands :
      (o : Option (List Write))
      → AreWrites o
      → Emits (λ b. elim o [ none ↦ fail b | some ws ↦ performs malloc ws b ]) (operand_bytes o)
  Emits-operands none h = absurd h
  Emits-operands (some ws) h = Emits-performs ws h

  Emits-write_inst : (i : Inst) → IsSound i → Emits (write_inst malloc i) (encode i)
  unfolding write_inst
  Emits-write_inst i h =
      Emits-then (Emits-perform (put_u8 (opcode i)) tt) (Emits-operands (operands i) h.0)

  Emits-write_items :
      (items : List AnnotatedItem)
      → All (λ ti. IsSound ti.inst) items
      → Emits (write_items malloc items) (items_code items)
  unfolding write_items
  Emits-write_items [] h = Emits-nothing
  Emits-write_items (ti ∷ items) h =
      Emits-then (Emits-write_inst ti.inst h.0) (Emits-write_items items h.1)

  Emits-write_functions :
      (functions : List AnnotatedFunction)
      → All (λ func. All (λ ti. IsSound ti.inst) func.items) functions
      → Emits (write_functions malloc functions) (functions_code functions)
  unfolding write_functions
  Emits-write_functions [] h = Emits-nothing
  Emits-write_functions (func ∷ functions) h =
      Emits-then (Emits-write_items func.items h.0) (Emits-write_functions functions h.1)

  pub Emits-write_text_encoded :
      (functions : List AnnotatedFunction)
      → All (λ func. All (λ ti. IsSound ti.inst) func.items) functions
      → Emits (write_text malloc functions) (signature_text ++ functions_code functions)
  unfolding write_text
  Emits-write_text_encoded functions h =
      Emits-then (Emits-append malloc given plenty signature_text)
        (Emits-write_functions functions h)
