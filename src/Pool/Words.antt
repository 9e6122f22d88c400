-- ===== src/Pool/Words.antt =====
-- The words and the contents of blocks under a write.
use xenonjs.Base.{
  ℕ, zero, suc, ◌+◌, ◌≤◌, ◌<◌, List, [], ◌∷◌, ◌≡◌, refl, arith, u16, ◌⊎◌, inl, inr, length,
}
use xenonjs.Pool.{Memory, word, put}

-- The bytes from an offset on.
abbrev pub slice : Memory → ℕ → ℕ → List ℕ
slice m start zero = []
slice m start (suc n) = m start ∷ slice m (start + 1) n

-- Both have the same bytes from `lo` to `hi`.
abbrev pub AgreeOn : ℕ → ℕ → Memory → Memory → Type 0
AgreeOn lo hi m m' = (i : ℕ) → lo ≤ i → i < hi → m' i ≡ m i

pub word-put : (m : Memory) (offset value : ℕ) → word (put m offset (u16 value)) offset ≡ u16 value
unfolding put
word-put m offset value = ground arith

pub put-outside :
    (m : Memory) (offset value i : ℕ) → (i < offset) ⊎ (offset + 2 ≤ i) → put m offset value i ≡ m i
unfolding put
put-outside m offset value i (inl h) = ground arith
put-outside m offset value i (inr h) = ground arith

pub word-agree :
    (m m' : Memory) (lo hi offset : ℕ)
    → AgreeOn lo hi m m'
    → lo ≤ offset
    → offset + 2 ≤ hi
    → word m' offset ≡ word m offset
word-agree m m' lo hi offset same h k =
    omega (arith, same offset h (omega arith), same (offset + 1) (omega arith) (omega arith))

pub slice-agree :
    (m m' : Memory) (lo hi start n : ℕ)
    → AgreeOn lo hi m m'
    → lo ≤ start
    → start + n ≤ hi
    → slice m' start n ≡ slice m start n
slice-agree m m' lo hi start zero same h k = refl
slice-agree m m' lo hi start (suc n) same h k =
    let one = same start h (omega arith) in
    let rest = slice-agree m m' lo hi (start + 1) n same (omega arith) (omega arith) in cc

pub length-slice : (m : Memory) (start n : ℕ) → length (slice m start n) ≡ n
length-slice m start zero = refl
length-slice m start (suc n) = omega (arith, length-slice m (start + 1) n)
