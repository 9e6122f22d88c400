-- ===== src/Buffer/Lifecycle.antt =====
-- `init_conf`, `shift` and `clear`, on each of their branches.

use xenonjs.Base.{
  ℕ, ◌+◌, ◌-◌, ◌≤◌, ◌<◌, List, [], ◌++◌, Option, none, some, ok, fail, ◌≡◌, ◌∙◌, refl, sym, arith,
  length, take, drop, ◌⊎◌, inl, inr, Option-cases, Bool-cases, ltb, drop-take, take-append_eq,
  length-append, length-take, length-drop,
}
use xenonjs.Buffer.{Buffer, Malloc, block_of, fresh, init_conf, shift, clear}
use xenonjs.Buffer.Valid.{IsValid, Holds, contents, IsMalloc}
use xenonjs.Buffer.Memcpy.{memcpy_within_lem}

-- `b` is a valid buffer with no contents and the given steps.
pub record IsEmpty (init inc : ℕ) (b : Buffer) : Type 0 where
  pub valid : IsValid b
  pub no_contents : contents b ≡ []
  pub steps : (b.init_size ≡ init) × (b.inc_size ≡ inc)

-- `init_conf` with a first size above 0 gives an empty valid buffer; or -1, with a NULL body, if
-- there is no memory.
pub init_conf_lem :
    (malloc : Malloc) (init inc : ℕ)
    → IsMalloc malloc
    → 0 < init
    → ((b : Buffer) × (init_conf malloc init inc ≡ ok b) × IsEmpty init inc b)
      ⊎ ((malloc init ≡ none) × (init_conf malloc init inc ≡ fail (fresh none init inc)))
unfolding init_conf
init_conf_lem malloc init inc m pos = elim (Option-cases (malloc init)) [
  | inl refused ↦ inr (refused, rw (init_conf, refused))
  | inr (block, got) ↦ inl (
    fresh (some block) init inc,
    rw (init_conf, got),
    record { valid = (m _ _ got, pos); no_contents = refl; steps = (refl, refl) },
  )
]

-- `clear` of a buffer with a first size above 0 gives an empty valid buffer with the same steps;
-- or -1, with a NULL body and all else as it was, if there is no memory.
pub clear_lem :
    (malloc : Malloc) (b : Buffer)
    → IsMalloc malloc
    → 0 < b.init_size
    → ((b' : Buffer) × (clear malloc b ≡ ok b') × IsEmpty b.init_size b.inc_size b')
      ⊎ ((malloc b.init_size ≡ none) × (clear malloc b ≡ fail (record b { body = none })))
unfolding clear
clear_lem malloc b m pos = elim (Option-cases (malloc b.init_size)) [
  | inl refused ↦ inr (refused, rw (clear, refused))
  | inr (block, got) ↦ inl (
    record b { body = some block; size = 0; capacity = b.init_size },
    rw (clear, got),
    record { valid = (m _ _ got, pos); no_contents = refl; steps = (refl, refl) },
  )
]

-- `b'` is `b` without the first `len` bytes of its contents.
pub record IsShifted (b : Buffer) (len : ℕ) (b' : Buffer) : Type 0 where
  pub valid : IsValid b'
  pub contents_are : contents b' ≡ drop len (contents b)
  pub same_steps : (b'.init_size ≡ b.init_size) × (b'.inc_size ≡ b.inc_size)

-- `shift` drops the first bytes, or returns -1 and changes nothing if there are not so many.
abbrev pub ShiftsOrRefuses : Buffer → ℕ → Type 0
ShiftsOrRefuses b len =
    ((len ≤ b.size) × ((b' : Buffer) × (shift b len ≡ ok b') × IsShifted b len b'))
    ⊎ ((b.size < len) × (shift b len ≡ fail b))

abbrev shifted : List ℕ → ℕ → ℕ → List ℕ
shifted block size len = take (size - len) (drop len block) ++ drop (0 + (size - len)) block

length-shifted :
    (block : List ℕ) (size len : ℕ)
    → size ≤ length block
    → length (shifted block size len) ≡ length block
length-shifted block size len h = omega (
  arith,
  length-append {0} (take (size - len) (drop len block)) (drop (0 + (size - len)) block),
  length-take {0} (size - len) (drop len block),
  length-drop {0} len block,
  length-drop {0} (0 + (size - len)) block,
)

shifted_contents :
    (block : List ℕ) (size len : ℕ)
    → size ≤ length block
    → len ≤ size
    → take (size - len) (shifted block size len) ≡ drop len (take size block)
shifted_contents block size len h k =
    take-append_eq (size - len) (take (size - len) (drop len block)) _
      (omega (arith, length-take {0} (size - len) (drop len block), length-drop {0} len block))
    ∙ sym (drop-take len size block)

shift-by-body :
    (body : Option (List ℕ)) (size capacity init inc len : ℕ)
    → Holds body size capacity
    → ShiftsOrRefuses
        (record { body = body; size = size; capacity = capacity; init_size = init; inc_size = inc })
        len
unfolding shift block_of
shift-by-body none size capacity init inc len h = absurd h
shift-by-body (some block) size capacity init inc len h = elim (Bool-cases (ltb size len)) [
  | inl short ↦ inr (ground arith, rw short)
  | inr enough ↦ inl (
    ground arith,
    (
      record {
        body = some (shifted block size len);
        size = size - len;
        capacity = capacity;
        init_size = init;
        inc_size = inc;
      },
      rw enough (rw (memcpy_within_lem (size - len) block 0 len (omega arith) (ground arith))),
      record {
        valid = (length-shifted block size len (omega arith) ∙ h.0, omega arith);
        contents_are = shifted_contents block size len (omega arith) (ground arith);
        same_steps = (refl, refl);
      },
    ),
  )
]

-- On a valid buffer, `shift` with at most `size` bytes drops them from the front of the
-- contents and keeps the buffer valid; with more it returns -1 and changes nothing.
pub shift-ShiftsOrRefuses : (b : Buffer) (len : ℕ) → IsValid b → ShiftsOrRefuses b len
shift-ShiftsOrRefuses b = shift-by-body b.body b.size b.capacity b.init_size b.inc_size
