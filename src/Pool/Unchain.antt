-- ===== src/Pool/Unchain.antt =====
-- How a block is taken out of the chain of a sub pool.
use mathlib.Core.List.{append_assoc}
use mathlib.Core.Path.{subst}
use xenonjs.Base.{
  ℕ, ◌+◌, ◌%◌, ◌^◌, ◌≤◌, List, [], ◌∷◌, ◌++◌, Option, none, some, ok, ◌≡◌, refl, sym, ap, ◌∙◌,
  arith, length, inl, inr, u16, u32, ◌⊎◌,
}
use xenonjs.Pool.{SubPool, put}
use xenonjs.Pool.SubPools.{unchain}
use xenonjs.Pool.Words.{word-put, put-outside}
use xenonjs.Pool.Chain.{
  Block, end, start_or, Seg, used, IsSub, Seg-start, Seg-raise, Seg-agree, Seg-split, Seg-append,
  IsBlock-relink, IsSub-kept, start_or-append, used-append,
}
use xenonjs.Pool.Reads.{read_size, read_next}
use xenonjs.Pool.Writes.{answer, write_pool_size-ok}

-- What the loop has in `offset_prev` behind the blocks `front`.
abbrev pub IsPrev : List Block → Option ℕ → Type 0
IsPrev front prev =
    ((front ≡ []) × (prev ≡ none))
    ⊎ ((init : List Block) × (p : Block) × (front ≡ init ++ (p ∷ [])) × (prev ≡ some p.at))

abbrev given_back : ℕ → SubPool → SubPool
given_back size s = record s { size_free = u32 (s.size_free + u32 (size + 6)) }

module _ (s : SubPool) (b : Block) (back : List Block) where
  unchain_first :
      IsSub s (b ∷ back) → (s' : SubPool) × (unchain s none b.at ≡ ok s') × IsSub s' back
  unfolding unchain
  unchain_first i =
      let next = Seg-start s.base (end b) back 4090 i.seg.3 in
      let inside : end b ≤ 4090 = omega (arith, next) in
      (
        given_back (length b.body) (record s { offset_begin = start_or back 4090 }),
        rw (read_next s b i.seg.1 inside (start_or back 4090) i.seg.2, read_size s b i.seg.1 inside)
            refl,
        IsSub-kept s (given_back (length b.body) (record s { offset_begin = start_or back 4090 }))
            (b ∷ back) back i (λ k h l. refl) refl refl
            (Seg-raise s.base (end b) 0 back 4090 i.seg.3 (omega arith)) (omega (arith, i.free_is)),
      )

  unchain_later :
      (bs init : List Block) (p : Block)
      → IsSub s bs
      → bs ≡ init ++ (p ∷ b ∷ back)
      → (s' : SubPool) × (unchain s (some p.at) b.at ≡ ok s') × IsSub s' (init ++ (p ∷ back))
  unfolding unchain
  unchain_later bs init p i split =
      let m = s.base in
      let next = start_or back 4090 in
      let (before, from) =
        Seg-split m 0 init (p ∷ b ∷ back) 4090 (subst (λ t. Seg m 0 t 4090) split i.seg) in
      let at_b = from.3 in
      let after = Seg-start m (end b) back 4090 at_b.3 in
      let inside : end b ≤ 4090 = omega (arith, after) in
      let m' = put m (p.at + 4) (u16 next) in
      let size = length b.body in
      let s' : SubPool = record s { base = m' } in
      let all = ap used split ∙ used-append init (p ∷ b ∷ back) in
      let place : (p.at + 4) % 2 ^ 16 ≡ p.at + 4 = omega (arith, at_b.0) in
      let seg : Seg m' 0 (init ++ (p ∷ back)) 4090 =
        Seg-append m' 0 init (p ∷ back) 4090
          (Seg-agree m m' 0 init p.at
            (λ k h l. put-outside m (p.at + 4) (u16 next) k (inl (omega arith))) before)
          (
            from.0,
            IsBlock-relink m m' p
                (λ k h l. put-outside m (p.at + 4) (u16 next) k (inl (omega arith)))
                (λ k h l. put-outside m (p.at + 4) (u16 next) k (inr (omega arith))) from.1,
            word-put m (p.at + 4) next ∙ omega arith,
            Seg-agree m m' (end p) back 4090
                (λ k h l. put-outside m (p.at + 4) (u16 next) k (inr (omega arith)))
                (Seg-raise m (end b) (end p) back 4090 at_b.3 (omega (arith, at_b.0))),
          ) in
      (
        given_back size s',
        rw
            (
              read_next s b at_b.1 inside next at_b.2,
              read_size s b at_b.1 inside,
              write_pool_size-ok s (u16 (p.at + 4)) next (omega (arith, at_b.0)),
            )
            (ap (λ k. answer (given_back size (record s { base = put m k (u16 next) }))) place),
        IsSub-kept s (given_back size s') bs (init ++ (p ∷ back)) i
            (λ k h l. put-outside m (p.at + 4) (u16 next) k (inr (omega (arith, at_b.0)))) refl
            (i.begin_is
              ∙ ap (λ t. start_or t 4090) split
              ∙ start_or-append init (p ∷ b ∷ back) 4090
              ∙ sym (start_or-append init (p ∷ back) 4090))
            seg (omega (arith, all, used-append init (p ∷ back), i.free_is)),
      )

pub unchain-IsSub :
    (s : SubPool) (bs front : List Block) (b : Block) (back : List Block) (prev : Option ℕ)
    → IsSub s bs
    → bs ≡ front ++ (b ∷ back)
    → IsPrev front prev
    → (s' : SubPool) × (unchain s prev b.at ≡ ok s') × IsSub s' (front ++ back)
unchain-IsSub s bs front b back prev i split (inl (nothing, none_is)) =
    let whole : bs ≡ b ∷ back = split ∙ ap (λ t. t ++ (b ∷ back)) nothing in
    let (s', done, is) = unchain_first s b back (subst (IsSub s) whole i) in
    (
      s',
      ap (λ q. unchain s q b.at) none_is ∙ done,
      subst (λ t. IsSub s' (t ++ back)) (sym nothing) is,
    )
unchain-IsSub s bs front b back prev i split (inr (init, p, front_is, prev_is)) =
    let whole : bs ≡ init ++ (p ∷ b ∷ back) =
      split ∙ ap (λ t. t ++ (b ∷ back)) front_is ∙ append_assoc init (p ∷ []) (b ∷ back) in
    let (s', done, is) = unchain_later s b back bs init p i whole in
    (
      s',
      ap (λ q. unchain s q b.at) prev_is ∙ done,
      subst (IsSub s') (sym (append_assoc init (p ∷ []) back) ∙ ap (λ t. t ++ back) (sym front_is))
          is,
    )
