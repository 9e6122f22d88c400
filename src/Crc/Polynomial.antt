-- ===== src/Crc/Polynomial.antt =====
-- The table against the polynomial that it is made of.
use xenonjs.Base.{
  ℕ, zero, suc, ◌/◌, ◌%◌, ◌<◌, Bool, true, false, ◌==◌, ==_iff, bit_xor, get_or, ◌≡◌, refl,
  if◌then◌else◌, arith, inl, inr, ◌&&◌, Bool-cases,
}
use xenonjs.Crc.{crctable}

-- The generator of CRC-32, its digits in reverse.
abbrev polynomial : ℕ
polynomial = 0xedb88320

-- Shifts the register by `n` digits, and takes the polynomial off for each digit that falls out.
unfoldable pub shift_out : ℕ → ℕ → ℕ
shift_out zero crc = crc
shift_out (suc n) crc = shift_out n (if crc % 2 == 1 then bit_xor polynomial (crc / 2) else crc / 2)

-- A test of every number below `n`.
abbrev all_below : ℕ → (ℕ → Bool) → Bool
all_below zero p = true
all_below (suc n) p = p n && all_below n p

and-true : (a b : Bool) → a && b ≡ true → (a ≡ true) × (b ≡ true)
and-true true b h = (refl, h)
and-true false b h = cc

all_below_lem : (n : ℕ) (p : ℕ → Bool) → all_below n p ≡ true → (i : ℕ) → i < n → p i ≡ true
all_below_lem zero p h i below = absurd (omega arith)
all_below_lem (suc n) p h i below =
    let (top, others) = and-true (p n) (all_below n p) h in
    elim (Bool-cases (i == n)) [
      | inl same ↦ let e : i ≡ n = ground arith in rw e top
      | inr other ↦ all_below_lem n p others i (ground arith)
    ]

-- Each of the 256 entries of the table is its index with eight digits shifted out through the
-- polynomial.
pub crctable-shift_out : (b : ℕ) → b < 256 → get_or crctable b 0 ≡ shift_out 8 b
unfolding shift_out
crctable-shift_out b below =
    (==_iff (get_or crctable b 0) (shift_out 8 b)).0
      (all_below_lem 256 (λ i. get_or crctable i 0 == shift_out 8 i) refl b below)
