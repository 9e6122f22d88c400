-- ===== src/Regalloc/Held.antt =====
-- A variable has a register at every point of its life.
use xenonjs.Base.{
  ℕ, [], ◌∷◌, true, none, some, ok, ◌≡◌, ◌≢◌, ◌⊎◌, inl, inr, refl, sym, ap, ◌∙◌, ltb, ltb→lt, ◌==◌,
  ==_iff, if◌then◌else◌, length, get_elem?, get_elem?-set_self, get_elem?-set_ne, set, OnOk,
  OnOk-bind, OnOk-after, Bool-cases, Option-cases,
}
use xenonjs.Linker.File.{given_or_fail}
use xenonjs.Regalloc.{
  Life, Lives, Registers, allocate_vreg, start_life, end_life, start_lives, end_lives,
}
use xenonjs.Regalloc.Apart.{same_or_not}

-- Membership with its place.
abbrev pub In : Life → Lives → Type 0
In a [] = ⊥
In a (x ∷ xs) = (a ≡ x) ⊎ In a xs

-- Variable `v` has a register.
abbrev pub Has : ℕ → Registers → Type 0
Has v s = (r : ℕ) × (get_elem? s.regs v ≡ some (some r))

start_life-keeps :
    (life : Life) (v : ℕ) (s : Registers) → Has v s → OnOk (Has v) (start_life life s)
unfolding start_life
start_life-keeps life v s (r, e) =
    OnOk-after (Has v) (given_or_fail (allocate_vreg s.using 0)) _ λ r₀.
      elim (Bool-cases (ltb life.var (length s.regs))) [
        | inr out ↦ rw out tt
        | inl inside ↦ rw inside (elim (same_or_not v life.var) [
          | inl same ↦ (
            r₀,
            ap (get_elem? (set s.regs life.var (some r₀))) same
                ∙ get_elem?-set_self s.regs life.var (some r₀)
                    (ltb→lt life.var (length s.regs) inside),
          )
          | inr other ↦ (r, get_elem?-set_ne s.regs (some r₀) (λ f. other (sym f)) ∙ e)
        ])
      ]

start_life-gives : (life : Life) (s : Registers) → OnOk (Has life.var) (start_life life s)
unfolding start_life
start_life-gives life s =
    OnOk-after (Has life.var) (given_or_fail (allocate_vreg s.using 0)) _ λ r₀.
      elim (Bool-cases (ltb life.var (length s.regs))) [
        | inr out ↦ rw out tt
        | inl inside ↦ rw inside (
          r₀,
          get_elem?-set_self s.regs life.var (some r₀) (ltb→lt life.var (length s.regs) inside),
        )
      ]

end_life-keeps :
    (life : Life) (v : ℕ) (s : Registers) → life.var ≢ v → Has v s → OnOk (Has v) (end_life life s)
unfolding end_life
end_life-keeps life v s other (r, e) = elim (Option-cases (get_elem? s.regs life.var)) [
  | inl f ↦ rw (end_life, f) tt
  | inr (none, f) ↦ rw (end_life, f) tt
  | inr (some r₀, f) ↦ rw (end_life, f) (r, get_elem?-set_ne s.regs none other ∙ e)
]

pub start_lives-keeps :
    (lp : ℕ) (lives : Lives) (v : ℕ) (s : Registers)
    → Has v s
    → OnOk (Has v) (start_lives lp lives s)
unfolding start_lives
start_lives-keeps lp [] v s h = h
start_lives-keeps lp (life ∷ lives) v s h = elim (Bool-cases (lp == life.start)) [
  | inl e ↦
      rw (start_lives, e)
        (OnOk-bind (Has v) (Has v) (start_life life s) (start_lives lp lives)
          (start_life-keeps life v s h) (start_lives-keeps lp lives v))
  | inr e ↦ rw (start_lives, e) (start_lives-keeps lp lives v s h)
]

pub start_lives-gives :
    (lp : ℕ) (lives : Lives) (a : Life) (s : Registers)
    → In a lives
    → lp ≡ a.start
    → OnOk (Has a.var) (start_lives lp lives s)
unfolding start_lives
start_lives-gives lp [] a s m h = absurd m
start_lives-gives lp (life ∷ lives) a s (inl here) h =
    let e : lp == life.start ≡ true = (==_iff lp life.start).1 (h ∙ ap (λ x. x.start) here) in
    rw (start_lives, e, ap (λ (x : Life). x.var) here)
      (OnOk-bind (Has life.var) (Has life.var) (start_life life s) (start_lives lp lives)
        (start_life-gives life s) (start_lives-keeps lp lives life.var))
start_lives-gives lp (life ∷ lives) a s (inr later) h =
    OnOk-after (Has a.var) (if lp == life.start then start_life life s else ok s)
      (start_lives lp lives) λ s'. start_lives-gives lp lives a s' later h

pub end_lives-keeps :
    (lp : ℕ) (lives : Lives) (v : ℕ) (s : Registers)
    → ((b : Life) → In b lives → lp ≡ b.end → b.var ≢ v)
    → Has v s
    → OnOk (Has v) (end_lives lp lives s)
unfolding end_lives
end_lives-keeps lp [] v s others h = h
end_lives-keeps lp (life ∷ lives) v s others h = elim (Bool-cases (lp == life.end)) [
  | inl e ↦
      rw (end_lives, e)
        (OnOk-bind (Has v) (Has v) (end_life life s) (end_lives lp lives)
          (end_life-keeps life v s (others life (inl refl) ((==_iff lp life.end).0 e)) h)
          (λ s'. end_lives-keeps lp lives v s' (λ b m. others b (inr m))))
  | inr e ↦ rw (end_lives, e) (end_lives-keeps lp lives v s (λ b m. others b (inr m)) h)
]
