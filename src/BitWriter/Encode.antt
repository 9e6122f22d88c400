-- ===== src/BitWriter/Encode.antt =====
-- What the writers put behind the contents, over an allocator that has memory.
use mathlib.Core.List.{append_assoc, append-nil}
use xenonjs.Base.{
  ℕ, ◌+◌, ◌/◌, ◌^◌, ◌<◌, List, [], ◌∷◌, ◌++◌, bit_and, none, ok, ◌>>=◌, ◌≡◌, ◌≢◌, ◌∙◌, refl, sym,
  ap, arith, length, length-append, le_bytes, Bool, true, false, if◌then◌else◌, zero, suc, ◌≤◌, u8,
  u16, u32, take, drop, get_or, get_elem?-eq-get_or, drop-eq-cons, take-length,
}
use xenonjs.Base.Bits.{and-mask}
use xenonjs.Buffer.{Buffer, Malloc, Outcome, carry_on, peek}
use xenonjs.Buffer.Valid.{contents, IsMalloc}
use xenonjs.Buffer.Session.{IsReady, IsAfter, append-Goes}
use xenonjs.BitWriter.{
  size_mod, append, write_u32, write_u16, write_u8, write_s32, write_s16, write_s8, write_f64,
  write_f64_from,
}

-- A stretch of the code generator that writes to one buffer.
abbrev pub Writer : Type 0
Writer = Buffer → Outcome Buffer

-- On a ready buffer that has room for them, `w` returns, and adds just these bytes.
pub record Emits (w : Writer) (bytes : List ℕ) : Type 0 where
  pub emits :
      (b : Buffer)
      → IsReady b
      → b.size + length bytes + 1 + b.inc_size < size_mod
      → (b' : Buffer) × (w b ≡ ok b') × IsAfter b (length bytes) (contents b ++ bytes) b'

pub Emits-then :
    {w₁ w₂ : Writer} {s₁ s₂ : List ℕ}
    → Emits w₁ s₁
    → Emits w₂ s₂
    → Emits (λ b. w₁ b >>= w₂) (s₁ ++ s₂)
Emits-then {s₁} {s₂} e₁ e₂ = record {
  emits = λ b r room.
      let size = length-append {0} s₁ s₂ in
      let (b₁, done₁, a₁) = e₁.emits b r (omega (arith, size)) in
      let (b₂, done₂, a₂) =
        e₂.emits b₁ a₁.ready (omega (arith, size, a₁.size_below, a₁.same_inc)) in
      (
        b₂,
        rw done₁ done₂,
        record {
          ready = a₂.ready;
          bytes_are =
              a₂.bytes_are ∙ ap (λ t. t ++ s₂) a₁.bytes_are ∙ append_assoc (contents b) s₁ s₂;
          size_below = omega (arith, size, a₁.size_below, a₂.size_below);
          same_inc = a₂.same_inc ∙ a₁.same_inc;
        },
      );
}

-- Nothing to write.
pub Emits-nothing : Emits ok []
Emits-nothing = record {
  emits = λ b r room. (
    b,
    refl,
    record {
      ready = r;
      bytes_are = sym (append-nil (contents b));
      size_below = omega arith;
      same_inc = refl;
    },
  );
}

-- A writer that depends on a test.
pub Emits-if :
    (t : Bool) {w₁ w₂ : Writer} {s₁ s₂ : List ℕ}
    → Emits w₁ s₁
    → Emits w₂ s₂
    → Emits (λ b. if t then w₁ b else w₂ b) (if t then s₁ else s₂)
Emits-if true e₁ e₂ = e₁
Emits-if false e₁ e₂ = e₂

u32_bytes :
    (v : ℕ)
    → bit_and v 0xff
        ∷ bit_and (v / 2 ^ 8) 0xff
        ∷ bit_and (v / 2 ^ 16) 0xff
        ∷ bit_and (v / 2 ^ 24) 0xff
        ∷ []
      ≡ le_bytes 4 v
u32_bytes v =
    rw (and-mask 8 v, and-mask 8 (v / 2 ^ 8), and-mask 8 (v / 2 ^ 16), and-mask 8 (v / 2 ^ 24))
      (ground arith)

u16_bytes : (v : ℕ) → bit_and v 0xff ∷ bit_and (v / 2 ^ 8) 0xff ∷ [] ≡ le_bytes 2 v
u16_bytes v = rw (and-mask 8 v, and-mask 8 (v / 2 ^ 8))

module _ (malloc : Malloc) (given : IsMalloc malloc) (plenty : (n : ℕ) → malloc n ≢ none) where
  pub Emits-append : (s : List ℕ) → Emits (λ b. carry_on (append malloc b s (length s))) s
  unfolding append
  Emits-append s = record { emits = append-Goes size_mod malloc given plenty s }

  pub Emits-write_u32 : (v : ℕ) → Emits (λ b. carry_on (write_u32 malloc b v)) (le_bytes 4 v)
  unfolding write_u32
  Emits-write_u32 v = rw (← u32_bytes v) (Emits-append _)

  pub Emits-write_u16 : (v : ℕ) → Emits (λ b. carry_on (write_u16 malloc b v)) (le_bytes 2 v)
  unfolding write_u16
  Emits-write_u16 v = rw (← u16_bytes v) (Emits-append _)

  pub Emits-write_u8 : (v : ℕ) → Emits (λ b. carry_on (write_u8 malloc b v)) (v ∷ [])
  unfolding write_u8
  Emits-write_u8 v = Emits-append (v ∷ [])

  pub Emits-write_s32 : (v : ℕ) → Emits (λ b. carry_on (write_s32 malloc b v)) (le_bytes 4 (u32 v))
  unfolding write_s32
  Emits-write_s32 v = Emits-write_u32 (u32 v)

  pub Emits-write_s16 : (v : ℕ) → Emits (λ b. carry_on (write_s16 malloc b v)) (le_bytes 2 (u16 v))
  unfolding write_s16
  Emits-write_s16 v = Emits-write_u16 (u16 v)

  pub Emits-write_s8 : (v : ℕ) → Emits (λ b. carry_on (write_s8 malloc b v)) (u8 v ∷ [])
  unfolding write_s8
  Emits-write_s8 v = Emits-write_u8 (u8 v)

  Emits-write_f64_from :
      (left : ℕ) (buf : List ℕ) (i : ℕ)
      → i + left ≤ length buf
      → Emits (λ b. write_f64_from left malloc b buf i) (take left (drop i buf))
  unfolding write_f64_from peek
  Emits-write_f64_from zero buf i h = Emits-nothing
  Emits-write_f64_from (suc left) buf i h =
      rw
        (
          write_f64_from,
          peek,
          get_elem?-eq-get_or buf i 0 (omega arith),
          drop-eq-cons buf i 0 (omega arith),
        )
        (Emits-then (Emits-write_u8 (get_or buf i 0))
          (Emits-write_f64_from left buf (suc i) (omega arith)))

  -- A writer whose result is dropped where it cannot fail.
  Emits-carry_on : {w : Writer} {s : List ℕ} → Emits w s → Emits (λ b. carry_on (w b)) s
  unfolding carry_on
  Emits-carry_on e = record {
    emits = λ b r room. let (b', done, a) = e.emits b r room in (b', rw done, a);
  }

  pub Emits-write_f64 : (v : List ℕ) → length v ≡ 8 → Emits (λ b. carry_on (write_f64 malloc b v)) v
  unfolding write_f64
  Emits-write_f64 v h =
      rw (← h, take-length v) at (Emits-carry_on (Emits-write_f64_from 8 v 0 (omega arith)))
