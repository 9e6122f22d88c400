-- ===== src/Xfile/Readers.antt =====
-- The readers inside the file, at its end, and where the tested sum wraps.
use native.Mathlib.Nat.{mod-eq_of_lt}
use xenonjs.Base.{
  ℕ, suc, ◌+◌, ◌-◌, ◌*◌, ◌^◌, ◌≤◌, ◌<◌, List, [], ◌∷◌, bit_or, false, ok, fail, fault, ◌≡◌, ap,
  arith, lt→ltb, length, take, drop, get_or, get_elem?-eq-get_or, drop-eq-cons, All, All-get_or,
  le_value, u32, u16, le→ltb, get_elem?-past,
}
use xenonjs.Base.Bits.{or-field}
use xenonjs.Xfile.{Xfile, byte_at, past_end, read_u32, read_u16, read_s16, read_u8, read_f64}

abbrev pub IsBytes : List ℕ → Type 0
IsBytes = All (λ b. b < 256)

-- The buffer that the host passes is as long as it says, and its length is an `xjr_size_t`.
pub record IsLoaded (f : Xfile) : Type 0 where
  pub bytes : IsBytes f.bc
  pub length_is : length f.bc ≡ f.len
  pub fits : f.len < 2 ^ 32

byte_at-ok : (f : Xfile) (i : ℕ) → i < length f.bc → byte_at f i ≡ ok (get_or f.bc i 0)
unfolding byte_at
byte_at-ok f i h = rw (byte_at, get_elem?-eq-get_or f.bc i 0 h)

byte_at-past : (f : Xfile) (i : ℕ) → length f.bc ≤ i → byte_at f i ≡ fault
unfolding byte_at
byte_at-past f i h = rw (byte_at, get_elem?-past f.bc i h)

past_end-inside :
    (f : Xfile) (offset n : ℕ)
    → offset + n < 2 ^ 32
    → offset + n ≤ f.len
    → past_end f offset n ≡ false
unfolding past_end
past_end-inside f offset n small inside = rw (past_end, mod-eq_of_lt small) (le→ltb _ _ inside)

-- Four bytes of the file, and the number that they stand for.
slice-4 :
    (bs : List ℕ) (i : ℕ)
    → i + 4 ≤ length bs
    → take 4 (drop i bs)
      ≡ get_or bs i 0 ∷ get_or bs (i + 1) 0 ∷ get_or bs (i + 2) 0 ∷ get_or bs (i + 3) 0 ∷ []
slice-4 bs i h = rw (
  drop-eq-cons bs i 0 (omega arith),
  drop-eq-cons bs (suc i) 0 (omega arith),
  drop-eq-cons bs (suc (suc i)) 0 (omega arith),
  drop-eq-cons bs (suc (suc (suc i))) 0 (omega arith),
  third,
  second,
  first,
)
  where
    first : suc i ≡ i + 1
    first = omega arith

    second : suc (suc i) ≡ i + 2
    second = omega arith

    third : suc (suc (suc i)) ≡ i + 3
    third = omega arith

slice-2 :
    (bs : List ℕ) (i : ℕ)
    → i + 2 ≤ length bs
    → take 2 (drop i bs) ≡ get_or bs i 0 ∷ get_or bs (i + 1) 0 ∷ []
slice-2 bs i h =
    rw (drop-eq-cons bs i 0 (omega arith), drop-eq-cons bs (suc i) 0 (omega arith), first)
  where
    first : suc i ≡ i + 1
    first = omega arith

-- The shifts and `|` of the readers put four bytes together.
join-4 :
    (a b c d : ℕ)
    → a < 256
    → b < 256
    → c < 256
    → d < 256
    → bit_or (bit_or (bit_or a (u32 (b * 2 ^ 8))) (u32 (c * 2 ^ 16))) (u32 (d * 2 ^ 24))
      ≡ le_value (a ∷ b ∷ c ∷ d ∷ [])
join-4 a b c d ha hb hc hd =
    rw
      (
        mod-eq_of_lt (below_8 b hb),
        mod-eq_of_lt (below_16 c hc),
        mod-eq_of_lt (below_24 d hd),
        or-field 8 a b ha,
        or-field 16 (a + b * 2 ^ 8) c (omega arith),
        or-field 24 (a + b * 2 ^ 8 + c * 2 ^ 16) d (omega arith),
      )
      (omega arith)
  where
    below_8 : (x : ℕ) → x < 256 → x * 2 ^ 8 < 2 ^ 32
    below_8 x h = omega arith

    below_16 : (x : ℕ) → x < 256 → x * 2 ^ 16 < 2 ^ 32
    below_16 x h = omega arith

    below_24 : (x : ℕ) → x < 256 → x * 2 ^ 24 < 2 ^ 32
    below_24 x h = omega arith

join-2 : (a b : ℕ) → a < 256 → b < 256 → u16 (bit_or a (u32 (b * 2 ^ 8))) ≡ le_value (a ∷ b ∷ [])
join-2 a b ha hb = rw (mod-eq_of_lt below_8, or-field 8 a b ha) (omega arith)
  where
    below_8 : b * 2 ^ 8 < 2 ^ 32
    below_8 = omega arith

join-2s : (a b : ℕ) → a < 256 → b < 256 → u16 (bit_or a (u16 (b * 2 ^ 8))) ≡ le_value (a ∷ b ∷ [])
join-2s a b ha hb = rw (mod-eq_of_lt below_8, or-field 8 a b ha) (omega arith)
  where
    below_8 : b * 2 ^ 8 < 2 ^ 16
    below_8 = omega arith

wrap_small : (i k : ℕ) → i + k < 2 ^ 32 → u32 (i + k) ≡ i + k
wrap_small i k h = mod-eq_of_lt h

module _ (f : Xfile) (loaded : IsLoaded f) (offset : ℕ) where
  byte : (k : ℕ) → offset + k < f.len → get_or f.bc (offset + k) 0 < 256
  byte k h =
      All-get_or (λ b. b < 256) f.bc (offset + k) 0 (omega (arith, loaded.length_is)) loaded.bytes

  byte_0 : 0 < f.len - offset → get_or f.bc offset 0 < 256
  byte_0 h = All-get_or (λ b. b < 256) f.bc offset 0 (omega (arith, loaded.length_is)) loaded.bytes

  pub read_u32-inside :
      offset + 4 ≤ f.len
      → offset + 4 < 2 ^ 32
      → read_u32 f offset ≡ ok (le_value (take 4 (drop offset f.bc)))
  unfolding read_u32
  read_u32-inside inside small =
      rw
        (
          past_end-inside f offset 4 small inside,
          wrap_small offset 1 (omega arith),
          wrap_small offset 2 (omega arith),
          wrap_small offset 3 (omega arith),
          byte_at-ok f offset (omega (arith, loaded.length_is)),
          byte_at-ok f (offset + 1) (omega (arith, loaded.length_is)),
          byte_at-ok f (offset + 2) (omega (arith, loaded.length_is)),
          byte_at-ok f (offset + 3) (omega (arith, loaded.length_is)),
          slice-4 f.bc offset (omega (arith, loaded.length_is)),
        )
        (ap ok (
          join-4 (get_or f.bc offset 0) _ _ _ (byte_0 (omega arith)) (byte 1 (omega arith))
            (byte 2 (omega arith)) (byte 3 (omega arith))))

  pub read_u16-inside :
      offset + 2 ≤ f.len
      → offset + 2 < 2 ^ 32
      → read_u16 f offset ≡ ok (le_value (take 2 (drop offset f.bc)))
  unfolding read_u16
  read_u16-inside inside small =
      rw
        (
          past_end-inside f offset 2 small inside,
          wrap_small offset 1 (omega arith),
          byte_at-ok f offset (omega (arith, loaded.length_is)),
          byte_at-ok f (offset + 1) (omega (arith, loaded.length_is)),
          slice-2 f.bc offset (omega (arith, loaded.length_is)),
        )
        (ap ok (join-2 (get_or f.bc offset 0) _ (byte_0 (omega arith)) (byte 1 (omega arith))))

  pub read_u8-inside :
      offset + 1 ≤ f.len → offset + 1 < 2 ^ 32 → read_u8 f offset ≡ ok (get_or f.bc offset 0)
  unfolding read_u8
  read_u8-inside inside small = rw (
    past_end-inside f offset 1 small inside,
    byte_at-ok f offset (omega (arith, loaded.length_is)),
  )

  pub read_s16-inside :
      offset + 2 ≤ f.len
      → offset + 2 < 2 ^ 32
      → read_s16 f offset ≡ ok (le_value (take 2 (drop offset f.bc)))
  unfolding read_s16
  read_s16-inside inside small =
      rw
        (
          past_end-inside f offset 2 small inside,
          wrap_small offset 1 (omega arith),
          byte_at-ok f offset (omega (arith, loaded.length_is)),
          byte_at-ok f (offset + 1) (omega (arith, loaded.length_is)),
          slice-2 f.bc offset (omega (arith, loaded.length_is)),
        )
        (ap ok (join-2s (get_or f.bc offset 0) _ (byte_0 (omega arith)) (byte 1 (omega arith))))

  pub read_f64-inside :
      offset + 8 ≤ f.len → offset + 8 < 2 ^ 32 → read_f64 f offset ≡ ok (take 8 (drop offset f.bc))
  unfolding read_f64
  read_f64-inside inside small = rw (
    past_end-inside f offset 8 small inside,
    le→ltb (offset + 8) (length f.bc) (omega (arith, loaded.length_is)),
  )

  -- Where offset + 4 does not wrap, `read_u32` gives the little-endian value of the four bytes
  -- at the offset if they lie inside the file, and -1 if they do not.
  pub read_u32_lem :
      offset + 4 < 2 ^ 32
      → (offset + 4 ≤ f.len → read_u32 f offset ≡ ok (le_value (take 4 (drop offset f.bc))))
        × (f.len < offset + 4 → read_u32 f offset ≡ fail tt)
  unfolding read_u32 past_end
  read_u32_lem small =
      (λ inside. read_u32-inside inside small, λ past. rw (mod-eq_of_lt small, lt→ltb _ _ past))

  -- Where offset + 2 does not wrap, `read_u16` gives the little-endian value of the two bytes at
  -- the offset if they lie inside the file, and -1 if they do not.
  pub read_u16_lem :
      offset + 2 < 2 ^ 32
      → (offset + 2 ≤ f.len → read_u16 f offset ≡ ok (le_value (take 2 (drop offset f.bc))))
        × (f.len < offset + 2 → read_u16 f offset ≡ fail tt)
  unfolding read_u16 past_end
  read_u16_lem small =
      (λ inside. read_u16-inside inside small, λ past. rw (mod-eq_of_lt small, lt→ltb _ _ past))

  -- At the last four offsets of the 32-bit range the sum offset + 4 wraps to a small number: the
  -- bounds test passes, and `read_u32` reads outside of the file.
  pub read_u32-wraps :
      f.len ≤ offset → 2 ^ 32 ≤ offset + 4 → offset + 4 ≤ 2 ^ 32 + f.len → read_u32 f offset ≡ fault
  unfolding read_u32
  read_u32-wraps beyond wraps small =
      rw (passes, byte_at-past f offset (omega (arith, loaded.length_is)))
    where
      passes : past_end f offset 4 ≡ false
      passes =
          unfold past_end in
          rw (past_end, le→ltb (u32 (offset + 4)) f.len (omega (arith, loaded.fits)))
