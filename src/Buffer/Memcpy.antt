-- ===== src/Buffer/Memcpy.antt =====
-- What the copy loops leave behind, as slices of the blocks.
use mathlib.Core.List.{append_assoc, append-nil}
use native.Mathlib.Nat.{add-zero}
use xenonjs.Base.{
  ℕ, zero, suc, ◌+◌, ◌≤◌, ◌<◌, List, ◌++◌, ok, ◌≡◌, arith, length, take, drop, set, get_or,
  length-set, take-append-drop, ◌∙◌, get_elem?-eq-get_or, drop-eq-cons, take-suc-set, drop-set,
  lt→ltb,
}
use xenonjs.Buffer.{peek, poke, memcpy, memcpy_within}

pub peek-ok : (block : List ℕ) (i : ℕ) → i < length block → peek block i ≡ ok (get_or block i 0)
unfolding peek
peek-ok block i h = rw (peek, get_elem?-eq-get_or block i 0 h)

pub poke-ok : (block : List ℕ) (i v : ℕ) → i < length block → poke block i v ≡ ok (set block i v)
unfolding poke
poke-ok block i v h = rw (poke, lt→ltb _ _ h)

-- One round of a loop moves one byte from the front of the source slice.
slide :
    (n : ℕ) (dst : List ℕ) (d : ℕ) (src : List ℕ) (i : ℕ)
    → d < length dst
    → i < length src
    → take (suc d) (set dst d (get_or src i 0))
        ++ take n (drop (suc i) src)
        ++ drop (suc d + n) (set dst d (get_or src i 0))
      ≡ take d dst ++ take (suc n) (drop i src) ++ drop (d + suc n) dst
slide n dst d src i hd hi =
    rw
      (
        take-suc-set dst d (get_or src i 0) hd,
        drop-set dst d (suc d + n) (get_or src i 0) (omega arith),
        drop-eq-cons src i 0 hi,
        add_suc_swap,
      )
      (simp append_assoc)
  where
    add_suc_swap : suc d + n ≡ d + suc n
    add_suc_swap = omega arith

pub memcpy_lem :
    (n : ℕ) (dst : List ℕ) (d : ℕ) (src : List ℕ) (i : ℕ)
    → d + n ≤ length dst
    → i + n ≤ length src
    → memcpy n dst d src i ≡ ok (take d dst ++ take n (drop i src) ++ drop (d + n) dst)
unfolding memcpy
memcpy_lem zero dst d src i hd hi = rw (append-nil, add-zero, take-append-drop)
memcpy_lem (suc n) dst d src i hd hi =
    rw (peek-ok src i (omega arith), poke-ok dst d (get_or src i 0) (omega arith))
      (memcpy_lem n (set dst d (get_or src i 0)) (suc d) src (suc i) (rw length-set (omega arith))
          (omega arith)
        ∙ rw (slide n dst d src i (omega arith) (omega arith)))

-- Inside a block the same holds where the bytes move down.
pub memcpy_within_lem :
    (n : ℕ) (block : List ℕ) (d i : ℕ)
    → d ≤ i
    → i + n ≤ length block
    → memcpy_within n block d i ≡ ok (take d block ++ take n (drop i block) ++ drop (d + n) block)
unfolding memcpy_within
memcpy_within_lem zero block d i hd hi = rw (append-nil, add-zero, take-append-drop)
memcpy_within_lem (suc n) block d i hd hi =
    let c : ℕ = get_or block i 0 in
    rw (peek-ok block i (omega arith), poke-ok block d c (omega arith))
      (memcpy_within_lem n (set block d c) (suc d) (suc i) (omega arith)
          (rw length-set (omega arith))
        ∙ rw (drop-set block d (suc i) c (omega arith))
            (rw (slide n block d block i (omega arith) (omega arith))))
