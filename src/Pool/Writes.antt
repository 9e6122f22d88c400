-- ===== src/Pool/Writes.antt =====
-- What the writes of headers leave.
use xenonjs.Base.{
  ℕ, ◌+◌, ◌^◌, ◌≤◌, ◌<◌, ◌⊎◌, inl, inr, Bool, true, false, ok, ◌≡◌, refl, arith, if◌then◌else◌, u16,
}
use xenonjs.Pool.{Access, Memory, SubPool, put, word, write_pool_size, write_block, set_marked}
use xenonjs.Pool.Words.{AgreeOn, put-outside}

-- The memory behind the three writes of a header.
abbrev pub header : Memory → ℕ → ℕ → ℕ → ℕ → Memory
header m offset first size next =
    put (put (put m offset (u16 first)) (offset + 2) (u16 size)) (offset + 4) (u16 next)

-- A result, for `ap`.
abbrev pub answer : SubPool → Access SubPool
answer s = ok s

pub write_pool_size-ok :
    (s : SubPool) (offset value : ℕ)
    → offset + 2 ≤ 4096
    → write_pool_size s offset value ≡ ok (record s { base = put s.base offset (u16 value) })
write_pool_size-ok s offset value h = ground arith

pub managed_tag :
    (managed : Bool) (urid : ℕ)
    → urid < 2 ^ 14
    → (if managed then set_marked urid else urid) ≡ (if managed then urid + 2 ^ 14 else urid)
managed_tag true urid h = ground arith
managed_tag false urid h = refl

pub write_block-ok :
    (s : SubPool) (offset : ℕ) (managed : Bool) (urid size next : ℕ)
    → offset + 6 ≤ 4096
    → urid < 2 ^ 14
    → write_block s offset managed urid size next
      ≡ ok (record s {
        base = header s.base offset (if managed then urid + 2 ^ 14 else urid) size next;
      })
unfolding write_block
write_block-ok s offset managed urid size next h k = rw (managed_tag managed urid k) (ground arith)

pub put-AgreeOn_below :
    (m : Memory) (offset value lo hi : ℕ) → hi ≤ offset → AgreeOn lo hi m (put m offset value)
put-AgreeOn_below m offset value lo hi h i p q = put-outside m offset value i (inl (omega arith))

pub put-AgreeOn_above :
    (m : Memory) (offset value lo hi : ℕ) → offset + 2 ≤ lo → AgreeOn lo hi m (put m offset value)
put-AgreeOn_above m offset value lo hi h i p q = put-outside m offset value i (inr (omega arith))

pub header-outside :
    (m : Memory) (offset first size next i : ℕ)
    → (i < offset) ⊎ (offset + 6 ≤ i)
    → header m offset first size next i ≡ m i
unfolding put
header-outside m offset first size next i (inl h) = ground arith
header-outside m offset first size next i (inr h) = ground arith

pub header_words :
    (m : Memory) (offset first size next : ℕ)
    → (word (header m offset first size next) offset ≡ u16 first)
      × (word (header m offset first size next) (offset + 2) ≡ u16 size)
      × (word (header m offset first size next) (offset + 4) ≡ u16 next)
unfolding put
header_words m offset first size next = (ground arith, ground arith, ground arith)
