-- ===== src/Buffer.antt =====
-- Growable byte buffers. rts/src/xjr_mbuf.c and compiler/src/xjs_bitwriter.c hold the same
-- functions; they differ in the width of their size type, which is the parameter `size_mod`
-- (2 ^ 32 for `xjr_mbuf_size_t`, 2 ^ 64 for a 64-bit `size_t`). A block of memory is a list of
-- bytes, NULL is `none`, and an access outside of a block is a `fault`.
pub mod Memcpy
pub mod Fill
pub mod Valid
pub mod Growth
pub mod Overflow
pub mod Lifecycle
pub mod Session
use xenonjs.Base.{
  ℕ, zero, suc, ◌+◌, ◌-◌, ◌%◌, Bool, Option, none, some, List, [], ◌∷◌, Result, ok, fail, fault,
  ◌>>=◌, ltb, leb, if◌then◌else◌, length, get_elem?, set,
}

-- The fields of `struct xjr_mbuf` and `struct xjs_bitwriter` other than the callbacks.
pub record Buffer : Type 0 where
  pub body : Option (List ℕ)
  pub size : ℕ
  pub capacity : ℕ
  pub init_size : ℕ
  pub inc_size : ℕ

-- `malloc_cb` in one call: a fresh block of that many bytes, with any content, or NULL.
abbrev pub Malloc : Type 0
Malloc = ℕ → Option (List ℕ)

abbrev pub Outcome : Type 0 → Type 0
Outcome = Result Buffer

unfoldable pub peek : List ℕ → ℕ → Outcome ℕ
peek block i = elim (get_elem? block i) [ none ↦ fault | some c ↦ ok c ]

pub poke : List ℕ → ℕ → ℕ → Outcome (List ℕ)
poke block i v = if ltb i (length block) then ok (set block i v) else fault

unfoldable pub block_of : Option (List ℕ) → Outcome (List ℕ)
block_of none = fault
block_of (some block) = ok block

-- `xjr_memcpy` between two blocks: `n` bytes of `src` from `i` on, into `dst` from `d` on.
pub memcpy : ℕ → List ℕ → ℕ → List ℕ → ℕ → Outcome (List ℕ)
memcpy zero dst d src i = ok dst
memcpy (suc n) dst d src i = do
  c ← peek src i
  dst' ← poke dst d c
  memcpy n dst' (suc d) src (suc i)

-- `xjr_memcpy` inside one block: what it writes it may read again.
pub memcpy_within : ℕ → List ℕ → ℕ → ℕ → Outcome (List ℕ)
memcpy_within zero block d i = ok block
memcpy_within (suc n) block d i = do
  c ← peek block i
  block' ← poke block d c
  memcpy_within n block' (suc d) (suc i)

-- The fields that `init_conf` writes.
pub fresh : Option (List ℕ) → ℕ → ℕ → Buffer
fresh body init_size inc_size = record {
  body = body;
  size = 0;
  capacity = init_size;
  init_size = init_size;
  inc_size = inc_size;
}

-- `init_conf` over uninitialised memory; on failure `body` is NULL.
pub init_conf : Malloc → ℕ → ℕ → Outcome Buffer
unfolding fresh
init_conf malloc init_size inc_size = elim (malloc init_size) [
  | none ↦ fail (fresh none init_size inc_size)
  | some block ↦ ok (fresh (some block) init_size inc_size)
]

pub uninit : Buffer → Buffer
uninit b = record b { body = none }

-- The bytes of `s` behind the first `size` bytes, and a NUL at `new_size`.
pub write_tail : List ℕ → ℕ → List ℕ → ℕ → ℕ → Outcome (List ℕ)
write_tail dst size s len new_size = do buf ← memcpy len dst size s 0; poke buf new_size 0

-- A call whose result the caller drops: what a -1 leaves is what it goes on with.
unfoldable pub carry_on : Outcome Buffer → Outcome Buffer
carry_on (ok b) = ok b
carry_on (fail b) = ok b
carry_on fault = fault

module _ (size_mod : ℕ) where
  -- The branch of `append` that allocates a larger block.
  pub append_extend : Malloc → Buffer → List ℕ → ℕ → Outcome Buffer
  append_extend malloc b s len =
      let new_capacity = (b.size + len + 1 + b.inc_size) % size_mod in
      let size = (b.size + len) % size_mod in
      elim (malloc new_capacity) [
        | none ↦ fail b
        | some new_buf ↦ do
          old ← block_of b.body
          buf₁ ← if ltb 0 b.size then memcpy b.size new_buf 0 old 0 else ok new_buf
          buf₂ ← write_tail buf₁ b.size s len size
          ok (record b { body = some buf₂; size = size; capacity = new_capacity })
      ]

  -- The branch of `append` that writes in place.
  pub append_in_place : Buffer → List ℕ → ℕ → Outcome Buffer
  append_in_place b s len = do
    let size = (b.size + len) % size_mod
    old ← block_of b.body
    buf ← write_tail old b.size s len size
    ok (record b { body = some buf; size = size })

  pub append : Malloc → Buffer → List ℕ → ℕ → Outcome Buffer
  append malloc b s len =
      if leb b.capacity ((b.size + len + 1) % size_mod)
      then append_extend malloc b s len
      else append_in_place b s len

-- `shift`: forgets the first `len` bytes.
pub shift : Buffer → ℕ → Outcome Buffer
shift b len = if ltb b.size len then fail b else (do
  old ← block_of b.body
  block ← memcpy_within (b.size - len) old 0 len
  ok (record b { body = some block; size = b.size - len }))

-- `clear`: a new block of the first size. If it is refused, only `body` has changed.
pub clear : Malloc → Buffer → Outcome Buffer
clear malloc b = elim (malloc b.init_size) [
  | none ↦ fail (record b { body = none })
  | some block ↦ ok (record b { body = some block; size = 0; capacity = b.init_size })
]
