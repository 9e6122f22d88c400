-- ===== src/Pool/Collected.antt =====
-- What is left of a collection.
use xenonjs.Base.{
  ℕ, ◌+◌, List, [], ◌∷◌, ◌++◌, map, Bool, true, false, ok, ◌≡◌, refl, sym, ap, ◌∙◌, arith, length,
  length-append, inl, inr, none, if◌then◌else◌, ◌==◌, Bool-cases,
}
use xenonjs.Pool.{SubPool, sub_new}
use xenonjs.Pool.Chain.{Block}
use xenonjs.Pool.Malloc.{is_empty-none, is_empty-some}
use xenonjs.Pool.Sweep.{AreDistinct, kept, sub_sweep-IsSub}
use xenonjs.Pool.Union.{flatten, AreSubs}
use xenonjs.Pool.Grown.{sub_new-IsSub}
use xenonjs.Pool.Collect.{AreDistinct-append_back, AreDistinct-append_front}
use xenonjs.Pool.Pools.{sweep_all, trimmed, trim_empty_sub_pools}

kept-append : (xs ys : List Block) → kept (xs ++ ys) ≡ kept xs ++ kept ys
kept-append [] ys = refl
kept-append (x ∷ xs) ys = choose x.marked (kept-append xs ys)
  where
    choose :
        (m : Bool)
        → kept (xs ++ ys) ≡ kept xs ++ kept ys
        → (if m then x ∷ kept (xs ++ ys) else kept (xs ++ ys))
          ≡ (if m then x ∷ kept xs else kept xs) ++ kept ys
    choose true e = ap (λ t. x ∷ t) e
    choose false e = e

pub flatten-kept : (bss : List (List Block)) → flatten (map kept bss) ≡ kept (flatten bss)
flatten-kept [] = refl
flatten-kept (bs ∷ bss) =
    ap (λ t. kept bs ++ t) (flatten-kept bss) ∙ sym (kept-append bs (flatten bss))

pub sweep_all-AreSubs :
    (pools : List SubPool) (bss : List (List Block))
    → AreSubs pools bss
    → AreDistinct (flatten bss)
    → (count : ℕ) × (pools' : List SubPool) × (sweep_all pools ≡ ok (count, pools'))
      × AreSubs pools' (map kept bss)
      × (count + length (flatten (map kept bss)) ≡ length (flatten bss))
unfolding sweep_all
sweep_all-AreSubs [] [] h distinct = (0, [], refl, tt, refl)
sweep_all-AreSubs [] (bs ∷ bss) h distinct = absurd h
sweep_all-AreSubs (s ∷ pools) [] h distinct = absurd h
sweep_all-AreSubs (s ∷ pools) (bs ∷ bss) h distinct =
    let (n, s', done, is, sum) =
      sub_sweep-IsSub s bs h.0 (AreDistinct-append_front bs (flatten bss) distinct) in
    let (k, pools', later, are, sum') =
      sweep_all-AreSubs pools bss h.1 (AreDistinct-append_back bs (flatten bss) distinct) in
    (
      n + k,
      s' ∷ pools',
      rw (done, later) refl,
      (is, are),
      omega (
        arith,
        sum,
        sum',
        length-append {0} bs (flatten bss),
        length-append {0} (kept bs) (flatten (map kept bss)),
      ),
    )

trimmed-AreSubs :
    (pools : List SubPool) (bss : List (List Block))
    → AreSubs pools bss
    → (pools' : List SubPool) × (bss' : List (List Block)) × (trimmed pools ≡ ok pools')
      × AreSubs pools' bss'
      × (flatten bss' ≡ flatten bss)
unfolding trimmed
trimmed-AreSubs [] [] h = ([], [], refl, tt, refl)
trimmed-AreSubs [] (bs ∷ bss) h = absurd h
trimmed-AreSubs (s ∷ pools) [] h = absurd h
trimmed-AreSubs (s ∷ pools) ([] ∷ bss) h =
    let (pools', bss', done, are, flat) = trimmed-AreSubs pools bss h.1 in
    (pools', bss', rw (is_empty-none s h.0, done) refl, are, flat)
trimmed-AreSubs (s ∷ pools) ((b ∷ bs) ∷ bss) h =
    let (pools', bss', done, are, flat) = trimmed-AreSubs pools bss h.1 in
    (
      s ∷ pools',
      (b ∷ bs) ∷ bss',
      rw (is_empty-some s b bs h.0, done) refl,
      (h.0, are),
      ap (λ t. (b ∷ bs) ++ t) flat,
    )

sub_new-no_struct : (b : Bool) → sub_new false b ≡ ok none
unfolding sub_new
sub_new-no_struct b = refl

sub_new-no_base : sub_new true false ≡ ok none
unfolding sub_new
sub_new-no_base = refl

-- Without a sub pool that is left, there is a new one or none.
at_least_one :
    (a b : Bool) (pools left : List SubPool) (bss : List (List Block))
    → (length pools == 1) ≡ false
    → trimmed pools ≡ ok left
    → AreSubs left bss
    → (pools' : List SubPool) × (bss' : List (List Block)) × (trim_empty_sub_pools a b pools
        ≡ ok pools')
      × AreSubs pools' bss'
      × (flatten bss' ≡ flatten bss)
unfolding trim_empty_sub_pools
at_least_one a b pools (s ∷ left) bss more done are =
    (s ∷ left, bss, rw (more, done) refl, are, refl)
at_least_one true true pools [] [] more done are =
    let (s, new, is, _) = sub_new-IsSub in
    (s ∷ [], [] ∷ [], rw (more, done, new) refl, (is, tt), refl)
at_least_one true false pools [] [] more done are =
    ([], [], rw (more, done, sub_new-no_base) refl, tt, refl)
at_least_one false b pools [] [] more done are =
    ([], [], rw (more, done, sub_new-no_struct b) refl, tt, refl)
at_least_one a b pools [] (bs ∷ bss) more done are = absurd are

pub trim-AreSubs :
    (a b : Bool) (pools : List SubPool) (bss : List (List Block))
    → AreSubs pools bss
    → (pools' : List SubPool) × (bss' : List (List Block)) × (trim_empty_sub_pools a b pools
        ≡ ok pools')
      × AreSubs pools' bss'
      × (flatten bss' ≡ flatten bss)
unfolding trim_empty_sub_pools
trim-AreSubs a b pools bss h = elim (Bool-cases (length pools == 1)) [
  | inl one ↦ (pools, bss, rw one refl, h, refl)
  | inr more ↦
      let (left, bss', done, are, flat) = trimmed-AreSubs pools bss h in
      let (pools', bss₂, trim, are', flat') = at_least_one a b pools left bss' more done are in
      (pools', bss₂, trim, are', flat' ∙ flat)
]
