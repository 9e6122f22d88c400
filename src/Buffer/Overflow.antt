-- ===== src/Buffer/Overflow.antt =====
-- `append` tests a sum that wraps: past the end of the size type the test passes.
use xenonjs.Base.{
  ℕ, zero, suc, ◌+◌, ◌%◌, ◌≤◌, ◌<◌, List, Option, none, some, fault, ◌≡◌, arith, Bool-cases, inl,
  inr, ltb, length, set, get_or, length-set,
}
use xenonjs.Buffer.{Buffer, Malloc, block_of, poke, memcpy, write_tail, append_in_place, append}
use xenonjs.Buffer.Valid.{IsValid, Holds}
use xenonjs.Buffer.Memcpy.{peek-ok}

memcpy_fault :
    (n : ℕ) (dst : List ℕ) (d : ℕ) (src : List ℕ) (i : ℕ)
    → d ≤ length dst
    → length dst < d + n
    → i + n ≤ length src
    → memcpy n dst d src i ≡ fault
unfolding memcpy poke
memcpy_fault zero dst d src i at_most past given = absurd (omega arith)
memcpy_fault (suc n) dst d src i at_most past given =
    rw (peek-ok src i (omega arith)) (elim (Bool-cases (ltb d (length dst))) [
      | inl inside ↦ rw inside (
          memcpy_fault n (set dst d (get_or src i 0)) (suc d) src (suc i)
            (rw length-set (ground arith)) (rw length-set (omega arith)) (omega arith))
      | inr outside ↦ rw outside
    ])

module _ (size_mod : ℕ) where
  overflow-by-body :
      (malloc : Malloc) (body : Option (List ℕ)) (size capacity init inc : ℕ) (s : List ℕ) (len : ℕ)
      → Holds body size capacity
      → len ≤ length s
      → capacity + 1 < size_mod
      → size_mod ≤ size + len + 1
      → (size + len + 1) % size_mod < capacity
      → append size_mod malloc
          (record {
            body = body;
            size = size;
            capacity = capacity;
            init_size = init;
            inc_size = inc;
          })
          s
          len
        ≡ fault
  unfolding append append_in_place block_of write_tail
  overflow-by-body malloc none size capacity init inc s len h given small wraps passes = absurd h
  overflow-by-body malloc (some block) size capacity init inc s len h given small wraps passes =
      ground (arith, memcpy_fault len block size s 0 (omega arith) (omega arith) (omega arith))

  -- If size + len + 1 reaches the end of the size type and its wrapped value is below the
  -- capacity, `append` copies past the end of the block.
  pub append-wraps :
      (malloc : Malloc) (b : Buffer) (s : List ℕ) (len : ℕ)
      → IsValid b
      → len ≤ length s
      → b.capacity + 1 < size_mod
      → size_mod ≤ b.size + len + 1
      → (b.size + len + 1) % size_mod < b.capacity
      → append size_mod malloc b s len ≡ fault
  append-wraps malloc b s len =
      overflow-by-body malloc b.body b.size b.capacity b.init_size b.inc_size s len
