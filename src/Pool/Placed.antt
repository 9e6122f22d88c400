-- ===== src/Pool/Placed.antt =====
-- A new block in a sub pool.
use mathlib.Core.Path.{subst}
use xenonjs.Base.{
  ℕ, ◌+◌, ◌^◌, ◌≤◌, ◌<◌, List, ◌∷◌, ◌++◌, Bool, true, false, ok, ◌≡◌, refl, sym, ap, ◌∙◌, arith,
  if◌then◌else◌, inl, inr, u16, ◌⊎◌,
}
use xenonjs.Pool.{Memory, SubPool, word, put}
use xenonjs.Pool.SubPools.{take_free, malloc_at_start, malloc_behind}
use xenonjs.Pool.Words.{
  slice, AgreeOn, slice-agree, length-slice, word-agree, word-put, put-outside,
}
use xenonjs.Pool.Chain.{
  Block, end, IsBlock, start_or, Seg, used, IsSub, Seg-le, Seg-start, Seg-raise, Seg-agree,
  Seg-split, Seg-append, IsBlock-relink, IsSub-kept, start_or-append, used-append,
}
use xenonjs.Pool.Reads.{read_size, read_next}
use xenonjs.Pool.Writes.{
  answer, header, header_words, header-outside, write_block-ok, write_pool_size-ok,
  put-AgreeOn_above,
}

-- A block whose contents are what the memory has there.
abbrev pub placed : Memory → ℕ → ℕ → Bool → ℕ → Block
placed m at urid managed size = record {
  at = at;
  urid = urid;
  marked = managed;
  body = slice m (at + 6) size;
}

header-IsBlock :
    (m m' : Memory) (at urid : ℕ) (managed : Bool) (size : ℕ)
    → urid < 2 ^ 14
    → size < 2 ^ 16
    → word m' at ≡ u16 (if managed then urid + 2 ^ 14 else urid)
    → word m' (at + 2) ≡ u16 size
    → AgreeOn (at + 6) (at + 6 + size) m m'
    → IsBlock m' (placed m at urid managed size)
header-IsBlock m m' at urid managed size small fits tag_is size_is same = record {
  tag_is = tag_is ∙ below managed;
  size_is = omega (arith, size_is, length-slice m (at + 6) size);
  body_is =
      ap (slice m' (at + 6)) (length-slice m (at + 6) size)
      ∙ slice-agree m m' (at + 6) (at + 6 + size) (at + 6) size same (omega arith) (omega arith);
  urid_small = small;
}
  where
    below :
        (b : Bool) → u16 (if b then urid + 2 ^ 14 else urid) ≡ (if b then urid + 2 ^ 14 else urid)
    below true = omega arith
    below false = omega arith

pub malloc_at_start-IsSub :
    (s : SubPool) (bs : List Block) (urid size : ℕ) (managed : Bool)
    → IsSub s bs
    → urid < 2 ^ 14
    → size + 6 ≤ start_or bs 4090
    → (s' : SubPool) × (malloc_at_start urid s size managed ≡ ok s')
      × IsSub s' (placed s.base 0 urid managed size ∷ bs)
unfolding malloc_at_start
malloc_at_start-IsSub s bs urid size managed i small fits =
    let start = Seg-start s.base 0 bs 4090 i.seg in
    let raised = Seg-raise s.base 0 (6 + size) bs 4090 i.seg (omega arith) in
    let below =
      Seg-le s.base (start_or bs 4090) bs 4090
        (Seg-raise s.base 0 (start_or bs 4090) bs 4090 i.seg (omega arith)) in
    let m' = header s.base 0 (if managed then urid + 2 ^ 14 else urid) (u16 size) s.offset_begin in
    let same : AgreeOn 6 4096 s.base m' =
      λ k h l. header-outside s.base 0 _ _ _ k (inr (omega arith)) in
    let words =
      header_words s.base 0 (if managed then urid + 2 ^ 14 else urid) (u16 size) s.offset_begin in
    let count = length-slice s.base (0 + 6) size in
    (
      take_free size (record s { base = m'; offset_begin = 0 }),
      rw (write_block-ok s 0 managed urid (u16 size) s.offset_begin (omega arith) small) refl,
      IsSub-kept s (take_free size (record s { base = m'; offset_begin = 0 })) bs
          (placed s.base 0 urid managed size ∷ bs) i (λ k h l. same k (omega arith) l) refl refl
          (
            omega arith,
            header-IsBlock s.base m' 0 urid managed size small (omega arith) words.0
                (words.1 ∙ omega arith) (λ k h l. same k (omega arith) (omega arith)),
            words.2 ∙ omega (arith, i.begin_is),
            Seg-raise m' 6 _ bs 4090
                (Seg-agree s.base m' 6 bs 4090 (λ k h l. same k h (omega arith))
                  (Seg-raise s.base 0 6 bs 4090 i.seg (omega arith)))
                (omega (arith, count)),
          )
          (omega (arith, count, below, fits, i.free_is)),
    )

module _ (s : SubPool) (bs front back : List Block) (p : Block) (urid size : ℕ) (managed : Bool)
    (i : IsSub s bs) (split : bs ≡ front ++ (p ∷ back)) (small : urid < 2 ^ 14)
    (room : end p + (size + 6) ≤ start_or back 4090) where
  pub malloc_behind-IsSub :
      (s' : SubPool) × (malloc_behind urid s size managed p.at ≡ ok s')
      × IsSub s' (front ++ (p ∷ placed s.base (end p) urid managed size ∷ back))
  unfolding malloc_behind
  malloc_behind-IsSub =
      let m = s.base in
      let e = end p in
      let next = start_or back 4090 in
      let (before, from) =
        Seg-split m 0 front (p ∷ back) 4090 (subst (λ t. Seg m 0 t 4090) split i.seg) in
      let after = Seg-start m e back 4090 from.3 in
      let inside : e ≤ 4090 = omega (arith, after) in
      let first = if managed then urid + 2 ^ 14 else urid in
      let m₁ = header m e first (u16 size) next in
      let m₂ = put m₁ (p.at + 4) (u16 e) in
      let same : (k : ℕ) → (k < p.at + 4) ⊎ (p.at + 6 ≤ k) → (k < e) ⊎ (e + 6 ≤ k) → m₂ k ≡ m k =
        λ k a b.
          put-outside m₁ (p.at + 4) (u16 e) k (relax k a)
          ∙ header-outside m e first (u16 size) next k b in
      let words = header_words m e first (u16 size) next in
      let kept : AgreeOn e (e + 6) m₁ m₂ =
        put-AgreeOn_above m₁ (p.at + 4) (u16 e) e (e + 6) (omega arith) in
      let new = placed m e urid managed size in
      let count = length-slice m (e + 6) size in
      let s₁ : SubPool = record s { base = m₁ } in
      let s₂ : SubPool = record s { base = m₂ } in
      let new_is : IsBlock m₂ new =
        header-IsBlock m m₂ e urid managed size small (omega arith)
          (word-agree m₁ m₂ e (e + 6) e kept (omega arith) (omega arith) ∙ words.0)
          (word-agree m₁ m₂ e (e + 6) (e + 2) kept (omega arith) (omega arith)
            ∙ words.1
            ∙ omega arith)
          (λ k h l. same k (inr (omega arith)) (inr (omega arith))) in
      let seg : Seg m₂ 0 (front ++ (p ∷ new ∷ back)) 4090 =
        Seg-append m₂ 0 front (p ∷ new ∷ back) 4090
          (Seg-agree m m₂ 0 front p.at (λ k h l. same k (inl (omega arith)) (inl (omega arith)))
            before)
          (
            from.0,
            IsBlock-relink m m₂ p (λ k h l. same k (inl (omega arith)) (inl (omega arith)))
                (λ k h l. same k (inr (omega arith)) (inl (omega arith))) from.1,
            word-put m₁ (p.at + 4) e ∙ omega arith,
            (
              omega arith,
              new_is,
              word-agree m₁ m₂ e (e + 6) (e + 4) kept (omega arith) (omega arith)
                  ∙ words.2
                  ∙ omega arith,
              Seg-raise m₂ (e + (size + 6)) (end new) back 4090
                  (Seg-agree m m₂ (e + (size + 6)) back 4090
                    (λ k h l. same k (inr (omega arith)) (inr (omega arith)))
                    (Seg-raise m e (e + (size + 6)) back 4090 from.3 room))
                  (omega (arith, count, room)),
            ),
          ) in
      let end_is : u16 e ≡ e = omega arith in
      let place : u16 (p.at + 4) ≡ p.at + 4 = omega arith in
      let result = λ (k x : ℕ).
        answer
          (take_free size (record s { base = put (header m x first (u16 size) next) k (u16 x) })) in
      let all = ap used split ∙ used-append front (p ∷ back) in
      (
        take_free size s₂,
        rw
            (
              read_size s p from.1 inside,
              read_next s p from.1 inside next from.2,
              write_block-ok s (u16 e) managed urid (u16 size) next (omega arith) small,
              write_pool_size-ok (record s { base = header m (u16 e) first (u16 size) next })
                  (u16 (p.at + 4)) (u16 e) (omega arith),
            )
            (ap (λ k. result k (u16 e)) place ∙ ap (result (p.at + 4)) end_is),
        IsSub-kept s (take_free size s₂) bs (front ++ (p ∷ new ∷ back)) i
            (λ k h l. same k (inr (omega arith)) (inr (omega arith))) refl
            (i.begin_is
              ∙ ap (λ t. start_or t 4090) split
              ∙ start_or-append front (p ∷ back) 4090
              ∙ sym (start_or-append front (p ∷ new ∷ back) 4090))
            seg
            (omega (
              arith,
              count,
              room,
              all,
              used-append front (p ∷ new ∷ back),
              Seg-le m e back 4090 from.3,
              Seg-le m (start_or back 4090) back 4090
                  (Seg-raise m e (start_or back 4090) back 4090 from.3 (omega arith)),
              i.free_is,
              Seg-le m 0 front p.at before,
            )),
      )
    where
      relax : (k : ℕ) → (k < p.at + 4) ⊎ (p.at + 6 ≤ k) → (k < p.at + 4) ⊎ (p.at + 4 + 2 ≤ k)
      relax k (inl h) = inl h
      relax k (inr h) = inr (omega arith)
