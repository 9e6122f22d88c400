-- ===== src/Pool/Free.antt =====
-- What a release in a sub pool does.
use mathlib.Core.List.{append_assoc}
use mathlib.Core.Path.{subst}
use xenonjs.Base.{
  ℕ, zero, suc, ◌≤◌, ◌<◌, List, [], ◌∷◌, ◌++◌, true, false, Option, none, some, ok, ◌≡◌, ◌≢◌, refl,
  sym, ap, ◌∙◌, arith, length, length-append, inl, inr, ==_iff, ◌==◌,
}
use xenonjs.Pool.{SubPool}
use xenonjs.Pool.SubPools.{free_from, sub_free}
use xenonjs.Pool.Chain.{Block, end, start_or, Seg, IsSub, Seg-start, Seg-split}
use xenonjs.Pool.Reads.{read_urid, read_next, not_final, is_final_block-final}
use xenonjs.Pool.Found.{Absent, few_blocks}
use xenonjs.Pool.Unchain.{IsPrev, unchain-IsSub}

differ : (l k : ℕ) → l ≢ k → (l == k) ≡ false
differ l k ne = ground arith

module _ (s : SubPool) (bs : List Block) (urid : ℕ) (i : IsSub s bs) where
  -- The loop, where the first block with the urid is behind `middle`.
  free_from-IsSub :
      (left : ℕ) (front middle : List Block) (b : Block) (back : List Block) (prev : Option ℕ)
      → bs ≡ front ++ (middle ++ (b ∷ back))
      → IsPrev front prev
      → Absent urid middle
      → b.urid ≡ urid
      → length middle < left
      → (s' : SubPool) × (free_from left s urid prev (start_or (middle ++ (b ∷ back)) 4090)
          ≡ ok (true, s'))
        × IsSub s' (front ++ (middle ++ back))
  unfolding free_from
  free_from-IsSub zero front middle b back prev split at absent same h = absurd (omega arith)
  free_from-IsSub (suc left) front [] b back prev split at absent same h =
      let (before, from) =
        Seg-split s.base 0 front (b ∷ back) 4090 (subst (λ t. Seg s.base 0 t 4090) split i.seg) in
      let next = Seg-start s.base (end b) back 4090 from.3 in
      let inside : end b ≤ 4090 = omega (arith, next) in
      let (s', done, is) = unchain-IsSub s bs front b back prev i split at in
      (
        s',
        rw
            (
              not_final s b from.1 inside (start_or back 4090) from.2 next.1,
              read_urid s b from.1 inside,
              (==_iff b.urid urid).1 same,
              done,
            )
            refl,
        is,
      )
  free_from-IsSub (suc left) front (m ∷ middle) b back prev split at absent same h =
      let rest = middle ++ (b ∷ back) in
      let (before, from) =
        Seg-split s.base 0 front (m ∷ rest) 4090 (subst (λ t. Seg s.base 0 t 4090) split i.seg) in
      let next = Seg-start s.base (end m) rest 4090 from.3 in
      let inside : end m ≤ 4090 = omega (arith, next) in
      let (s', done, is) =
        free_from-IsSub left (front ++ (m ∷ [])) middle b back (some m.at)
          (split ∙ sym (append_assoc front (m ∷ []) rest)) (inr (front, m, refl, refl)) absent.1
          same (omega arith) in
      (
        s',
        rw
            (
              not_final s m from.1 inside (start_or rest 4090) from.2 next.1,
              read_urid s m from.1 inside,
              differ m.urid urid absent.0,
              read_next s m from.1 inside (start_or rest 4090) from.2,
            )
            done,
        subst (IsSub s') (append_assoc front (m ∷ []) (middle ++ back)) is,
      )

  free_from-none :
      (left lo : ℕ) (rest : List Block) (prev : Option ℕ)
      → Seg s.base lo rest 4090
      → Absent urid rest
      → length rest < left
      → free_from left s urid prev (start_or rest 4090) ≡ ok (false, s)
  unfolding free_from
  free_from-none zero lo rest prev seg absent h = absurd (omega arith)
  free_from-none (suc left) lo [] prev seg absent h = rw (is_final_block-final s bs i) refl
  free_from-none (suc left) lo (m ∷ rest) prev seg absent h =
      let next = Seg-start s.base (end m) rest 4090 seg.3 in
      let inside : end m ≤ 4090 = omega (arith, next) in
      rw
        (
          not_final s m seg.1 inside (start_or rest 4090) seg.2 next.1,
          read_urid s m seg.1 inside,
          differ m.urid urid absent.0,
          read_next s m seg.1 inside (start_or rest 4090) seg.2,
        )
        (free_from-none left (end m) rest (some m.at) seg.3 absent.1 (omega arith))

  -- The first block that has the urid is taken out, and the others stay as they are.
  pub sub_free-IsSub :
      (front : List Block) (b : Block) (back : List Block)
      → bs ≡ front ++ (b ∷ back)
      → Absent urid front
      → b.urid ≡ urid
      → (s' : SubPool) × (sub_free s urid ≡ ok (true, s')) × IsSub s' (front ++ back)
  unfolding sub_free
  sub_free-IsSub front b back split absent same =
      let few : length front < 4096 =
        omega (arith, few_blocks s bs i, ap length split, length-append {0} front (b ∷ back)) in
      let (s', done, is) =
        free_from-IsSub 4096 [] front b back none split (inl (refl, refl)) absent same few in
      (
        s',
        ap (free_from 4096 s urid none) (i.begin_is ∙ ap (λ t. start_or t 4090) split) ∙ done,
        is,
      )

  pub sub_free-none : Absent urid bs → sub_free s urid ≡ ok (false, s)
  unfolding sub_free
  sub_free-none absent =
      ap (free_from 4096 s urid none) i.begin_is
      ∙ free_from-none 4096 0 bs none i.seg absent (few_blocks s bs i)
