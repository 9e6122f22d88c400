-- ===== src/Pool/Reads.antt =====
-- What the reads of headers give, and the search over a chain.
use xenonjs.Base.{
  ℕ, zero, suc, ◌+◌, ◌^◌, ◌≤◌, ◌<◌, List, [], ◌∷◌, Bool, true, false, Option, none, some, ok, ◌≡◌,
  refl, ap, ◌∙◌, arith, length, if◌then◌else◌, Option-cases, inl, inr,
}
use xenonjs.Pool.{
  Access, SubPool, word, refine, is_marked, read, read_block_marked, read_block_urid,
  read_block_size, read_block_offset_next, is_final_block,
}
use xenonjs.Pool.SubPools.{search_from}
use xenonjs.Pool.Chain.{Block, tag, end, IsBlock, start_or, Seg, IsSub, Seg-le, Seg-start}

pub read-ok :
    (s : SubPool) (offset : ℕ) → offset + 2 ≤ 4096 → read s offset ≡ ok (word s.base offset)
read-ok s offset h = ground arith

refine-tag : (b : Block) → b.urid < 2 ^ 14 → refine (tag b) ≡ b.urid
refine-tag b h = ground arith

is_marked-tag :
    (urid : ℕ) (marked : Bool)
    → urid < 2 ^ 14
    → is_marked (if marked then urid + 2 ^ 14 else urid) ≡ marked
is_marked-tag urid true h = ground arith
is_marked-tag urid false h = ground arith

module _ (s : SubPool) (b : Block) (i : IsBlock s.base b) (inside : end b ≤ 4090) where
  pub read_urid : read_block_urid s b.at ≡ ok b.urid
  unfolding read_block_urid
  read_urid = rw (read-ok s b.at (omega arith), i.tag_is) (ap ok (refine-tag b i.urid_small))

  pub read_marked : read_block_marked s b.at ≡ ok b.marked
  unfolding read_block_marked
  read_marked =
      rw (read-ok s b.at (omega arith), i.tag_is)
        (ap ok (is_marked-tag b.urid b.marked i.urid_small))

  pub read_size : read_block_size s b.at ≡ ok (length b.body)
  read_size = read-ok s (b.at + 2) (omega arith) ∙ ap ok i.size_is

  pub read_next :
      (next : ℕ) → word s.base (b.at + 4) ≡ next → read_block_offset_next s b.at ≡ ok next
  read_next next e = read-ok s (b.at + 4) (omega arith) ∙ ap ok e

  pub not_final :
      (next : ℕ) → word s.base (b.at + 4) ≡ next → next ≤ 4090 → is_final_block s b.at ≡ ok false
  unfolding is_final_block
  not_final next e h = rw (read_urid, read_size, read_next next e) (ground arith)

pub is_final_block-final :
    (s : SubPool) (bs : List Block) → IsSub s bs → is_final_block s 4090 ≡ ok true
unfolding is_final_block read_block_urid
is_final_block-final s bs i = rw (i.final_tag, i.final_size, i.final_next) refl

-- The first of the blocks at which `t` gives something.
unfoldable pub first : {A : Type 0} → (Block → ℕ → Option A) → List Block → Option A
first t [] = none
first t (b ∷ bs) = elim (t b (start_or bs 4090)) [ none ↦ first t bs | some a ↦ some a ]

pub search_from-first :
    {A : Type 0} (s : SubPool) (all : List Block) (test : SubPool → ℕ → Access (Option A))
    (t : Block → ℕ → Option A)
    → IsSub s all
    → ((lo : ℕ) (b : Block) (bs : List Block)
        → Seg s.base lo (b ∷ bs) 4090
        → test s b.at ≡ ok (t b (start_or bs 4090)))
    → (left lo : ℕ) (bs : List Block) → Seg s.base lo bs 4090
    → length bs < left
    → search_from left test s (start_or bs 4090) ≡ ok (first t bs)
unfolding search_from first
search_from-first s all test t i right zero lo bs seg h = absurd (omega arith)
search_from-first s all test t i right (suc left) lo [] seg h =
    rw (is_final_block-final s all i) refl
search_from-first s all test t i right (suc left) lo (b ∷ bs) seg h =
    let inside : end b ≤ 4090 = omega (arith, Seg-le s.base (end b) bs 4090 seg.3) in
    let next = start_or bs 4090 in
    let not_last =
      not_final s b seg.1 inside next seg.2 (Seg-start s.base (end b) bs 4090 seg.3).1 in
    let rest = search_from-first s all test t i right left (end b) bs seg.3 (omega arith) in
    elim (Option-cases (t b next)) [
      | inl e ↦
          rw (not_last, right lo b bs seg, first, e, read_next s b seg.1 inside next seg.2) rest
      | inr (a, e) ↦ rw (not_last, right lo b bs seg, first, e) refl
    ]
