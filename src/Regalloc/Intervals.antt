-- ===== src/Regalloc/Intervals.antt =====
-- The life intervals of a function: one for each variable, which contains the points of its uses.
use xenonjs.Base.{
  ℕ, ◌≤◌, [], ◌∷◌, map, true, false, ◌≡◌, ◌≢◌, ◌⊎◌, inl, inr, refl, sym, ap, ◌∙◌, arith, ltb, ◌==◌,
  if◌then◌else◌, Bool-cases,
}
use xenonjs.Regalloc.{Life, Lives, insert_life, has_life}
use xenonjs.Regalloc.Apart.{same_or_not}
use xenonjs.Regalloc.Held.{In}
use xenonjs.Regalloc.Table.{AreOneEach, Contains}

-- One life for each variable, none of which ends behind point `p`.
pub record AreLives (p : ℕ) (lives : Lives) : Type 0 where
  pub one_each : AreOneEach lives
  pub bounded : (a : Life) → In a lives → (a.start ≤ a.end) × (a.end ≤ p)

-- Lives go on, and go further.
unfoldable pub Grows : Lives → Lives → Type 0
Grows lives later =
    (a : Life)
    → In a lives
    → (b : Life) × In b later × (b.var ≡ a.var) × (b.start ≡ a.start) × (a.end ≤ b.end)

-- Variable `v` lives at point `p`.
abbrev pub Covers : ℕ → ℕ → Lives → Type 0
Covers v p lives = (a : Life) × In a lives × (a.var ≡ v) × Contains a p

pub Grows-refl : (lives : Lives) → Grows lives lives
unfolding Grows
Grows-refl lives a m = (a, m, refl, refl, omega arith)

pub Grows-trans : (l₁ l₂ l₃ : Lives) → Grows l₁ l₂ → Grows l₂ l₃ → Grows l₁ l₃
unfolding Grows
Grows-trans l₁ l₂ l₃ g h a m =
    let (b, mb, vb, sb, eb) = g a m in
    let (c, mc, vc, sc, ec) = h b mb in (c, mc, vc ∙ vb, sc ∙ sb, omega (arith, eb, ec))

pub Grows-Covers : (l₁ l₂ : Lives) (v p : ℕ) → Grows l₁ l₂ → Covers v p l₁ → Covers v p l₂
unfolding Grows
Grows-Covers l₁ l₂ v p g (a, m, at_v, c) =
    let (b, mb, vb, sb, eb) = g a m in
    (b, mb, vb ∙ at_v, (omega (arith, c.0, sb), omega (arith, c.1, eb)))

In-map :
    (f : Life → Life) (lives : Lives) (b : Life)
    → In b (map f lives)
    → (a : Life) × In a lives × (b ≡ f a)
In-map f [] b m = absurd m
In-map f (x ∷ lives) b (inl here) = (x, inl refl, here)
In-map f (x ∷ lives) b (inr later) = let (a, m, e) = In-map f lives b later in (a, inr m, e)

pub map-In : (f : Life → Life) (lives : Lives) (a : Life) → In a lives → In (f a) (map f lives)
map-In f [] a m = absurd m
map-In f (x ∷ lives) a (inl here) = inl (ap f here)
map-In f (x ∷ lives) a (inr later) = inr (map-In f lives a later)

-- A change of the lives that moves ends, up to `p` at most.
pub record IsExtension (p : ℕ) (f : Life → Life) : Type 0 where
  same_var : (a : Life) → (f a).var ≡ a.var
  same_start : (a : Life) → (f a).start ≡ a.start
  further : (a : Life) → a.end ≤ p → (a.end ≤ (f a).end) × ((f a).end ≤ p)

pub map-AreLives :
    (p : ℕ) (f : Life → Life) (lives : Lives)
    → IsExtension p f
    → AreLives p lives
    → AreLives p (map f lives) × Grows lives (map f lives)
unfolding Grows
map-AreLives p f lives x l = (
  record {
    one_each = λ a b m n same.
        let (a', ma, ea) = In-map f lives a m in
        let (b', mb, eb) = In-map f lives b n in
        let e =
          sym (ap (λ k. k.var) ea ∙ x.same_var a') ∙ same ∙ ap (λ k. k.var) eb ∙ x.same_var b' in
        ea ∙ ap f (l.one_each a' b' ma mb e) ∙ sym eb;
    bounded = λ a m.
        let (a', ma, ea) = In-map f lives a m in
        let old = l.bounded a' ma in
        let new_end = x.further a' old.1 in
        let s = ap (λ k. k.start) ea ∙ x.same_start a' in
        let e = ap (λ k. k.end) ea in
        (omega (arith, s, e, old.0, new_end.0), omega (arith, e, new_end.1));
  },
  λ a m. (f a, map-In f lives a m, x.same_var a, x.same_start a, (x.further a (l.bounded a m).1).0),
)

In-insert :
    (life : Life) (lives : Lives) (b : Life)
    → In b (insert_life life lives)
    → (b ≡ life) ⊎ In b lives
unfolding insert_life
In-insert life [] b (inl here) = inl here
In-insert life [] b (inr later) = absurd later
In-insert life (x ∷ lives) b m = elim (Bool-cases (ltb life.var x.var)) [
  | inl e ↦ rw e at m
  | inr e ↦ elim (rw e at m) [
    | inl here ↦ inr (inl here)
    | inr later ↦ elim (In-insert life lives b later) [
      | inl is_life ↦ inl is_life
      | inr old ↦ inr (inr old)
    ]
  ]
]

pub insert-In :
    (life : Life) (lives : Lives) (b : Life)
    → (b ≡ life) ⊎ In b lives
    → In b (insert_life life lives)
unfolding insert_life
insert-In life [] b m = m
insert-In life (x ∷ lives) b m = elim (Bool-cases (ltb life.var x.var)) [
  | inl e ↦ rw (insert_life, e) m
  | inr e ↦
      rw (insert_life, e)
        (elim m [
          | inl is_life ↦ inr (insert-In life lives b (inl is_life))
          | inr (inl here) ↦ inl here
          | inr (inr later) ↦ inr (insert-In life lives b (inr later))
        ])
]

has_life-none :
    (lives : Lives) (v : ℕ) → has_life lives v ≡ false → (a : Life) → In a lives → a.var ≢ v
unfolding has_life
has_life-none [] v e a m = absurd m
has_life-none (x ∷ lives) v e a m = elim (same_or_not x.var v) [
  | inl same ↦ absurd (found same e)
  | inr other ↦ elim m [
    | inl here ↦ λ at_v. other (sym (ap (λ k. k.var) here) ∙ at_v)
    | inr later ↦ has_life-none lives v (rest other e) a later
  ]
]
  where
    found : x.var ≡ v → ¬ (has_life (x ∷ lives) v ≡ false)
    found same f = ground arith

    rest : x.var ≢ v → has_life (x ∷ lives) v ≡ false → has_life lives v ≡ false
    rest other f = ground arith

pub has_life-some :
    (lives : Lives) (v : ℕ) → has_life lives v ≡ true → (a : Life) × In a lives × (a.var ≡ v)
unfolding has_life
has_life-some [] v e = cc
has_life-some (x ∷ lives) v e = elim (same_or_not x.var v) [
  | inl same ↦ (x, inl refl, same)
  | inr other ↦ let (a, m, at_v) = has_life-some lives v (rest other e) in (a, inr m, at_v)
]
  where
    rest : x.var ≢ v → has_life (x ∷ lives) v ≡ true → has_life lives v ≡ true
    rest other f = ground arith

pub insert-AreLives :
    (p v : ℕ) (lives : Lives)
    → has_life lives v ≡ false
    → AreLives p lives
    → AreLives p (insert_life (record { var = v; start = p; end = p }) lives)
      × Grows lives (insert_life (record { var = v; start = p; end = p }) lives)
unfolding Grows
insert-AreLives p v lives free l = (
  record {
    one_each = λ a b m n same. one a b (In-insert _ lives a m) (In-insert _ lives b n) same;
    bounded = λ a m. within a (In-insert _ lives a m);
  },
  λ a m. (a, insert-In _ lives a (inr m), refl, refl, omega arith),
)
  where
    one :
        (a b : Life)
        → (a ≡ record { var = v; start = p; end = p }) ⊎ In a lives
        → (b ≡ record { var = v; start = p; end = p }) ⊎ In b lives
        → a.var ≡ b.var
        → a ≡ b
    one a b (inl e) (inl f) same = e ∙ sym f
    one a b (inl e) (inr n) same =
        absurd (has_life-none lives v free b n (sym same ∙ ap (λ k. k.var) e))
    one a b (inr m) (inl f) same =
        absurd (has_life-none lives v free a m (same ∙ ap (λ k. k.var) f))
    one a b (inr m) (inr n) same = l.one_each a b m n same

    within :
        (a : Life)
        → (a ≡ record { var = v; start = p; end = p }) ⊎ In a lives
        → (a.start ≤ a.end) × (a.end ≤ p)
    within a (inl e) =
        let s = ap (λ k. k.start) e in
        let t = ap (λ k. k.end) e in (omega (arith, s, t), omega (arith, t))
    within a (inr m) = l.bounded a m

pub set_end-IsExtension :
    (p v : ℕ) → IsExtension p (λ life. if life.var == v then record life { end = p } else life)
set_end-IsExtension p v = record {
  same_var = λ a. ground arith;
  same_start = λ a. ground arith;
  further = λ a h. ground arith;
}

pub extend-IsExtension :
    (p dest : ℕ)
    → IsExtension p (λ life. if ltb life.end dest then life else record life { end = p })
extend-IsExtension p dest = record {
  same_var = λ a. ground arith;
  same_start = λ a. ground arith;
  further = λ a h. ground arith;
}
