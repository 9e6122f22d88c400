-- ===== src/Buffer/Growth.antt =====
-- `append`: every branch keeps the invariant, and adds the bytes or leaves the buffer alone.
use native.Mathlib.Nat.{mod-eq_of_lt}
use xenonjs.Base.{
  ℕ, zero, suc, ◌+◌, ◌≤◌, ◌<◌, List, ◌++◌, Option, none, some, ok, fail, ◌≡◌, ◌∙◌, refl, ap, arith,
  leb, ltb, length, take, drop, length-take, length-append, length-drop, take-append_eq, ◌⊎◌, inl,
  inr, Option-cases, Bool-cases, leb→le, if◌then◌else◌,
}
use xenonjs.Buffer.{Buffer, Malloc, block_of, memcpy, append_extend, append_in_place, append}
use xenonjs.Buffer.Valid.{IsValid, Holds, contents, IsMalloc}
use xenonjs.Buffer.Fill.{filled, filled-IsFilled, write_tail_lem}
use xenonjs.Buffer.Memcpy.{memcpy_lem}

-- `b'` is `b` with the bytes `s` behind its contents.
pub record IsAppended (b : Buffer) (s : List ℕ) (b' : Buffer) : Type 0 where
  pub valid : IsValid b'
  pub contents_are : contents b' ≡ contents b ++ s
  pub size_is : b'.size ≡ b.size + length s
  pub same_steps : (b'.init_size ≡ b.init_size) × (b'.inc_size ≡ b.inc_size)

abbrev buffer : List ℕ → ℕ → ℕ → ℕ → ℕ → Buffer
buffer block size capacity init inc = record {
  body = some block;
  size = size;
  capacity = capacity;
  init_size = init;
  inc_size = inc;
}

module _ (old dst s : List ℕ) (size len : ℕ) (room : size + len < length dst)
    (given : len ≤ length s) (same : take size dst ≡ take size old) where
  IsAppended-filled :
      (capacity new_capacity init inc : ℕ)
      → length dst ≡ new_capacity
      → IsAppended
          (buffer old size capacity init inc)
          (take len s)
          (buffer (filled dst s size len) (size + len) new_capacity init inc)
  IsAppended-filled capacity new_capacity init inc e =
      let f = filled-IsFilled dst s size len room given in
      record {
        valid = (f.same_length ∙ e, omega arith);
        contents_are = f.contents ∙ ap (λ xs. xs ++ take len s) same;
        size_is = omega (arith, length-take {0} len s);
        same_steps = (refl, refl);
      }

tail_below : (size len inc m : ℕ) → size + len + 1 + inc < m → size + len < m
tail_below size len inc m h = omega arith

needed_below : (size len inc m : ℕ) → size + len + 1 + inc < m → size + len + 1 < m
needed_below size len inc m h = omega arith

module _ (size_mod : ℕ) where
  append_in_place_lem :
      (block s : List ℕ) (size len capacity init inc : ℕ)
      → length block ≡ capacity
      → len ≤ length s
      → size + len + 1 < capacity
      → size + len < size_mod
      → append_in_place size_mod (buffer block size capacity init inc) s len
        ≡ ok (buffer (filled block s size len) (size + len) capacity init inc)
  unfolding append_in_place block_of
  append_in_place_lem block s size len capacity init inc h given room below =
      rw (mod-eq_of_lt below) (rw (write_tail_lem block s size len (omega arith) given))

  -- What the extending branch starts from: the old contents at the front of the new block.
  carry_over :
      (block new_buf : List ℕ) (size : ℕ)
      → size ≤ length block
      → size ≤ length new_buf
      → (dst : List ℕ) × ((if ltb 0 size then memcpy size new_buf 0 block 0 else ok new_buf)
          ≡ ok dst)
        × (length dst ≡ length new_buf)
        × (take size dst ≡ take size block)
  carry_over block new_buf zero h k = (new_buf, refl, refl, refl)
  carry_over block new_buf (suc n) h k = (
    take (suc n) block ++ drop (0 + suc n) new_buf,
    ground (arith, memcpy_lem (suc n) new_buf 0 block 0 (omega arith) (omega arith)),
    omega (
      arith,
      length-append {0} (take (suc n) block) (drop (0 + suc n) new_buf),
      length-take {0} (suc n) block,
      length-drop {0} (0 + suc n) new_buf,
    ),
    take-append_eq (suc n) (take (suc n) block) _ (omega (arith, length-take {0} (suc n) block)),
  )

  append_extend_lem :
      (malloc : Malloc) (block new_buf s : List ℕ) (size len capacity init inc : ℕ)
      → length block ≡ capacity
      → size < capacity
      → len ≤ length s
      → size + len + 1 + inc < size_mod
      → malloc (size + len + 1 + inc) ≡ some new_buf
      → length new_buf ≡ size + len + 1 + inc
      → (b' : Buffer) × (append_extend size_mod malloc (buffer block size capacity init inc) s len
          ≡ ok b')
        × IsAppended (buffer block size capacity init inc) (take len s) b'
  unfolding append_extend block_of
  append_extend_lem malloc block new_buf s size len capacity init inc h held given below got
        new_length =
      let (dst, copied, dst_length, same) =
        carry_over block new_buf size (omega arith) (omega arith) in
      (
        buffer (filled dst s size len) (size + len) (size + len + 1 + inc) init inc,
        rw (append_extend, mod-eq_of_lt below, got)
            (rw (copied, mod-eq_of_lt (tail_below size len inc size_mod below))
              (rw (write_tail_lem dst s size len (omega arith) given, mod-eq_of_lt below))),
        IsAppended-filled block dst s size len (omega arith) given same capacity _ init inc
            (dst_length ∙ new_length),
      )

  append_extend-refused :
      (malloc : Malloc) (b : Buffer) (s : List ℕ) (len : ℕ)
      → b.size + len + 1 + b.inc_size < size_mod
      → malloc (b.size + len + 1 + b.inc_size) ≡ none
      → append_extend size_mod malloc b s len ≡ fail b
  unfolding append_extend
  append_extend-refused malloc b s len below refused =
      rw (append_extend, mod-eq_of_lt below, refused)

  abbrev needed : Buffer → ℕ → ℕ
  needed b len = b.size + len + 1

  -- What `append` may do with a valid buffer.
  abbrev pub AppendsOrRefuses : Malloc → Buffer → List ℕ → ℕ → Type 0
  AppendsOrRefuses malloc b s len =
      ((b' : Buffer) × (append size_mod malloc b s len ≡ ok b') × IsAppended b (take len s) b')
      ⊎ ((append size_mod malloc b s len ≡ fail b)
          × (b.capacity ≤ needed b len)
          × (malloc (needed b len + b.inc_size) ≡ none))

  append-by-body :
      (malloc : Malloc) (body : Option (List ℕ)) (size capacity init inc : ℕ) (s : List ℕ) (len : ℕ)
      → IsMalloc malloc
      → Holds body size capacity
      → len ≤ length s
      → size + len + 1 + inc < size_mod
      → AppendsOrRefuses malloc
          (record {
            body = body;
            size = size;
            capacity = capacity;
            init_size = init;
            inc_size = inc;
          })
          s
          len
  unfolding append
  append-by-body malloc none size capacity init inc s len m h given below = absurd h
  append-by-body malloc (some block) size capacity init inc s len m h given below =
      rw (mod-eq_of_lt (needed_below size len inc size_mod below))
        (elim (Bool-cases (leb capacity (size + len + 1))) [
          | inl full ↦ elim (Option-cases (malloc (size + len + 1 + inc))) [
            | inl refused ↦ inr (
              rw full (append_extend-refused malloc _ s len below refused),
              leb→le _ _ full,
              refused,
            )
            | inr (new_buf, got) ↦ inl (
                rw full (
                  append_extend_lem malloc block new_buf s size len capacity init inc h.0 h.1 given
                    below got (m _ new_buf got)))
          ]
          | inr roomy ↦ inl (
            buffer (filled block s size len) (size + len) capacity init inc,
            rw roomy (
                append_in_place_lem block s size len capacity init inc h.0 given (ground arith)
                  (tail_below size len inc size_mod below)),
            IsAppended-filled block block s size len (ground arith) given refl capacity capacity
                init inc h.0,
          )
        ])

  -- On a valid buffer whose grown size fits the size type, `append` either returns 0 with a valid
  -- buffer that holds the old contents and then the `len` bytes, or returns -1 and leaves the
  -- buffer as it was, which happens only if the block was too small and `malloc_cb` gave NULL.
  pub append-AppendsOrRefuses :
      (malloc : Malloc) (b : Buffer) (s : List ℕ) (len : ℕ)
      → IsMalloc malloc
      → IsValid b
      → len ≤ length s
      → b.size + len + 1 + b.inc_size < size_mod
      → AppendsOrRefuses malloc b s len
  append-AppendsOrRefuses malloc b s len =
      append-by-body malloc b.body b.size b.capacity b.init_size b.inc_size s len
