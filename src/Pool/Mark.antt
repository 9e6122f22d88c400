-- ===== src/Pool/Mark.antt =====
-- What marking and clearing do in a sub pool.
use mathlib.Core.List.{append_assoc}
use mathlib.Core.Path.{subst}
use xenonjs.Base.{
  ℕ, zero, suc, ◌+◌, ◌^◌, ◌≤◌, ◌<◌, List, [], ◌∷◌, ◌++◌, Bool, true, false, none, some, ok, ◌≡◌,
  refl, sym, ap, ◌∙◌, arith, length, if◌then◌else◌, inl, inr, u16, ◌⊎◌, map,
}
use xenonjs.Pool.{SubPool, put, refine, set_marked, clear_block_marked, set_block_marked}
use xenonjs.Pool.SubPools.{clear_from, sub_clear, sub_mark}
use xenonjs.Pool.Words.{word-put, put-outside, word-agree, slice-agree}
use xenonjs.Pool.Chain.{
  Block, tag, end, IsBlock, start_or, IsSub, Seg-start, Seg-agree, Seg-split, Seg-append,
  IsSub-kept, start_or-append, used-append,
}
use xenonjs.Pool.Reads.{read_urid, read_marked, read_next, not_final, is_final_block-final}
use xenonjs.Pool.Writes.{write_pool_size-ok}
use xenonjs.Pool.Found.{Found, Absent, block_get_by_urid-first, urid-cases, few_blocks}

abbrev pub with_mark : Bool → Block → Block
with_mark v b = record b { marked = v }

-- The sub pool with another mark in a header.
abbrev marked_at : SubPool → Block → Bool → SubPool
marked_at s b v = record s { base = put s.base b.at (u16 (tag (with_mark v b))) }

u16-tag :
    (urid : ℕ) (v : Bool)
    → urid < 2 ^ 14
    → u16 (if v then urid + 2 ^ 14 else urid) ≡ (if v then urid + 2 ^ 14 else urid)
u16-tag urid true h = omega arith
u16-tag urid false h = omega arith

module _ (s : SubPool) (front : List Block) (b : Block) (back : List Block) (v : Bool)
    (i : IsSub s (front ++ (b ∷ back))) where
  retag-IsSub : IsSub (marked_at s b v) (front ++ (with_mark v b ∷ back))
  retag-IsSub =
      let m = s.base in
      let m' = put m b.at (u16 (tag (with_mark v b))) in
      let (before, from) = Seg-split m 0 front (b ∷ back) 4090 i.seg in
      let after = Seg-start m (end b) back 4090 from.3 in
      let is = from.1 in
      IsSub-kept s (marked_at s b v) (front ++ (b ∷ back)) (front ++ (with_mark v b ∷ back)) i
        (λ k h l. put-outside m b.at _ k (inr (omega (arith, after)))) refl
        (i.begin_is
          ∙ start_or-append front (b ∷ back) 4090
          ∙ sym (start_or-append front (with_mark v b ∷ back) 4090))
        (Seg-append m' 0 front (with_mark v b ∷ back) 4090
          (Seg-agree m m' 0 front b.at (λ k h l. put-outside m b.at _ k (inl l)) before)
          (
            from.0,
            record {
              tag_is = word-put m b.at (tag (with_mark v b)) ∙ u16-tag b.urid v is.urid_small;
              size_is =
                  word-agree m m' (b.at + 2) 4096 (b.at + 2)
                    (λ k h l. put-outside m b.at _ k (inr h)) (omega arith) (omega (arith, after))
                  ∙ is.size_is;
              body_is =
                  slice-agree m m' (b.at + 2) 4096 (b.at + 6) (length b.body)
                    (λ k h l. put-outside m b.at _ k (inr h)) (omega arith) (omega (arith, after))
                  ∙ is.body_is;
              urid_small = is.urid_small;
            },
            word-agree m m' (b.at + 2) 4096 (b.at + 4) (λ k h l. put-outside m b.at _ k (inr h))
                  (omega arith) (omega (arith, after))
                ∙ from.2,
            Seg-agree m m' (end b) back 4090 (λ k h l. put-outside m b.at _ k (inr (omega arith)))
                from.3,
          ))
        (omega (
          arith,
          i.free_is,
          used-append front (b ∷ back),
          used-append front (with_mark v b ∷ back),
        ))

  head_is : (IsBlock s.base b) × (end b ≤ 4090)
  head_is =
      let from = (Seg-split s.base 0 front (b ∷ back) 4090 i.seg).1 in
      (from.1, omega (arith, Seg-start s.base (end b) back 4090 from.3))

clear_block_marked-ok :
    (s : SubPool) (front : List Block) (b : Block) (back : List Block)
    → IsSub s (front ++ (b ∷ back))
    → clear_block_marked s b.at ≡ ok (marked_at s b false)
unfolding clear_block_marked
clear_block_marked-ok s front b back i =
    let (is, inside) = head_is s front b back false i in
    let plain : refine b.urid ≡ b.urid = omega (arith, is.urid_small) in
    rw (read_urid s b is inside, write_pool_size-ok s b.at (refine b.urid) (omega arith))
      (ap (λ k. ok (record s { base = put s.base b.at (u16 k) })) plain)

set_block_marked-ok :
    (s : SubPool) (front : List Block) (b : Block) (back : List Block)
    → IsSub s (front ++ (b ∷ back))
    → set_block_marked s b.at ≡ ok (marked_at s b true)
unfolding set_block_marked
set_block_marked-ok s front b back i =
    let (is, inside) = head_is s front b back true i in
    rw (read_urid s b is inside, write_pool_size-ok s b.at (set_marked b.urid) (omega arith))
      (ap (λ k. ok (record s { base = put s.base b.at (u16 k) })) (marks b.urid is.urid_small))
  where
    marks : (u : ℕ) → u < 2 ^ 14 → set_marked u ≡ u + 2 ^ 14
    marks u h = ground arith

-- The loop takes the marks off the blocks from an offset on.
clear_from-IsSub :
    (left : ℕ) (s : SubPool) (front rest : List Block)
    → IsSub s (front ++ rest)
    → length rest < left
    → (s' : SubPool) × (clear_from left s (start_or rest 4090) ≡ ok s')
      × IsSub s' (front ++ map (with_mark false) rest)
unfolding clear_from
clear_from-IsSub zero s front rest i h = absurd (omega arith)
clear_from-IsSub (suc left) s front [] i h =
    (s, rw (is_final_block-final s (front ++ []) i) refl, i)
clear_from-IsSub (suc left) s front (b ∷ rest) i h =
    let s₁ = marked_at s b false in
    let clean = with_mark false b in
    let i₁ = retag-IsSub s front b rest false i in
    let from = (Seg-split s.base 0 front (b ∷ rest) 4090 i.seg).1 in
    let from₁ = (Seg-split s₁.base 0 front (clean ∷ rest) 4090 i₁.seg).1 in
    let next = Seg-start s.base (end b) rest 4090 from.3 in
    let inside : end b ≤ 4090 = omega (arith, next) in
    let (s', done, is) =
      clear_from-IsSub left s₁ (front ++ (clean ∷ [])) rest
        (subst (IsSub s₁) (sym (append_assoc front (clean ∷ []) rest)) i₁) (omega arith) in
    (
      s',
      rw
          (
            not_final s b from.1 inside (start_or rest 4090) from.2 next.1,
            clear_block_marked-ok s front b rest i,
            read_next s₁ clean from₁.1 inside (start_or rest 4090) from₁.2,
          )
          done,
      subst (IsSub s') (append_assoc front (clean ∷ []) (map (with_mark false) rest)) is,
    )

pub sub_clear-IsSub :
    (s : SubPool) (bs : List Block)
    → IsSub s bs
    → (s' : SubPool) × (sub_clear s ≡ ok s') × IsSub s' (map (with_mark false) bs)
unfolding sub_clear
sub_clear-IsSub s bs i =
    let (s', done, is) = clear_from-IsSub 4096 s [] bs i (few_blocks s bs i) in
    (s', ap (clear_from 4096 s) i.begin_is ∙ done, is)

-- A mark is set on the first block that has the urid, and what it was before is given.
pub sub_mark-IsSub :
    (s : SubPool) (bs : List Block) (urid : ℕ)
    → IsSub s bs
    → ((sub_mark s urid ≡ ok (none, s)) × Absent urid bs)
      ⊎ ((f : Found urid bs) × (s' : SubPool) × (sub_mark s urid ≡ ok (some f.block.marked, s'))
          × IsSub s' (f.front ++ (with_mark true f.block ∷ f.back)))
unfolding sub_mark
sub_mark-IsSub s bs urid i = elim (urid-cases urid bs) [
  | inl (e, absent) ↦ inl (rw (block_get_by_urid-first s bs urid i, e) refl, absent)
  | inr (f, e) ↦
      let j : IsSub s (f.front ++ (f.block ∷ f.back)) = subst (IsSub s) f.blocks_are i in
      let (is, inside) = head_is s f.front f.block f.back true j in
      inr (
        f,
        marked_at s f.block true,
        rw
            (
              block_get_by_urid-first s bs urid i,
              e,
              read_marked s f.block is inside,
              set_block_marked-ok s f.front f.block f.back j,
            )
            refl,
        retag-IsSub s f.front f.block f.back true j,
      )
]
