-- ===== src/Regalloc/Apart.antt =====
-- Variables that have a register at the same point have different ones.
use native.Mathlib.Nat.{mod-eq_of_lt}
use xenonjs.Base.{
  ℕ, zero, suc, ◌+◌, ◌≤◌, ◌<◌, List, [], ◌∷◌, Bool, true, false, none, some, ok, ◌≡◌, ◌≢◌, ◌⊎◌, inl,
  inr, refl, sym, ap, ◌∙◌, arith, ltb, ltb→lt, ◌==◌, ==_iff, if◌then◌else◌, u8, length, get_elem?,
  get_elem?-set_self, get_elem?-set_ne, length-set, set, OnOk, OnOk-bind, OnOk-weaken, Bool-cases,
  Option-cases,
}
use xenonjs.Linker.File.{Link, given_or_fail}
use xenonjs.Regalloc.{
  Life, Lives, Registers, allocate_vreg, start_life, end_life, start_lives, end_lives,
}

-- Every register of the vector is in use, and no two variables have the same one.
pub record IsApart (s : Registers) : Type 0 where
  pub used : (v r : ℕ) → get_elem? s.regs v ≡ some (some r) → get_elem? s.using r ≡ some true
  pub apart :
      (u v r : ℕ) → get_elem? s.regs u ≡ some (some r) → get_elem? s.regs v ≡ some (some r) → u ≡ v
  pub few : length s.using ≤ 256

pub same_or_not : (a b : ℕ) → (a ≡ b) ⊎ (a ≢ b)
same_or_not a b = elim (Bool-cases (a == b)) [
  | inl e ↦ inl ((==_iff a b).0 e)
  | inr e ↦ inr (λ same. different ((==_iff a b).1 same) e)
]
  where
    different : {b : Bool} → b ≡ true → ¬ (b ≡ false)
    different e f = cc

pub get_elem?-inside {ℓ} :
    {A : Type ℓ} (xs : List A) (i : ℕ) (a : A) → get_elem? xs i ≡ some a → i < length xs
get_elem?-inside [] i a e = cc
get_elem?-inside (x ∷ xs) zero a e = omega arith
get_elem?-inside (x ∷ xs) (suc i) a e = omega (arith, get_elem?-inside xs i a e)

-- `allocate_vreg` gives a register that is not in use.
allocate_vreg-free :
    (bits : List Bool) (idx : ℕ)
    → OnOk
        (λ r. (k : ℕ) × (r ≡ idx + k) × (get_elem? bits k ≡ some false))
        (given_or_fail (allocate_vreg bits idx))
unfolding allocate_vreg
allocate_vreg-free [] idx = tt
allocate_vreg-free (false ∷ bits) idx = (0, omega arith, refl)
allocate_vreg-free (true ∷ bits) idx =
    OnOk-weaken (λ r. (k : ℕ) × (r ≡ suc idx + k) × (get_elem? bits k ≡ some false))
      (λ r. (k : ℕ) × (r ≡ idx + k) × (get_elem? (true ∷ bits) k ≡ some false))
      (given_or_fail (allocate_vreg bits (suc idx))) (allocate_vreg-free bits (suc idx))
      λ r (k, e, free). (suc k, omega (arith, e), free)

pub some_inj {ℓ} : {A : Type ℓ} {a b : A} → some a ≡ some b → a ≡ b
some_inj e = cc

-- A variable is given a register that is not in use.
given-IsApart :
    (s : Registers) (v₀ r₀ : ℕ)
    → v₀ < length s.regs
    → get_elem? s.using r₀ ≡ some false
    → IsApart s
    → IsApart (record { using = set s.using r₀ true; regs = set s.regs v₀ (some r₀) })
given-IsApart s v₀ r₀ inside free a = record {
  used = used;
  apart = apart;
  few = omega (arith, length-set s.using r₀ true, a.few);
}
  where
    here : (v r : ℕ) → v ≡ v₀ → get_elem? (set s.regs v₀ (some r₀)) v ≡ some (some r) → r₀ ≡ r
    here v r same e = some_inj (
        some_inj (
          sym (get_elem?-set_self s.regs v₀ (some r₀) inside)
          ∙ ap (get_elem? (set s.regs v₀ (some r₀))) (sym same)
          ∙ e))

    there :
        (v r : ℕ)
        → v ≢ v₀
        → get_elem? (set s.regs v₀ (some r₀)) v ≡ some (some r)
        → get_elem? s.regs v ≡ some (some r)
    there v r other e = sym (get_elem?-set_ne s.regs (some r₀) (λ f. other (sym f))) ∙ e

    not_free : (v r : ℕ) → get_elem? s.regs v ≡ some (some r) → r₀ ≢ r
    not_free v r e same = let in_use = a.used v r e in let f = ap (get_elem? s.using) same in cc

    used :
        (v r : ℕ)
        → get_elem? (set s.regs v₀ (some r₀)) v ≡ some (some r)
        → get_elem? (set s.using r₀ true) r ≡ some true
    used v r e = elim (same_or_not v v₀) [
      | inl same ↦
          ap (get_elem? (set s.using r₀ true)) (sym (here v r same e))
          ∙ get_elem?-set_self s.using r₀ true (get_elem?-inside s.using r₀ false free)
      | inr other ↦
          let e' = there v r other e in
          get_elem?-set_ne s.using true (not_free v r e') ∙ a.used v r e'
    ]

    apart :
        (u v r : ℕ)
        → get_elem? (set s.regs v₀ (some r₀)) u ≡ some (some r)
        → get_elem? (set s.regs v₀ (some r₀)) v ≡ some (some r)
        → u ≡ v
    apart u v r e f = elim (same_or_not u v₀) [
      | inl same_u ↦ elim (same_or_not v v₀) [
        | inl same_v ↦ same_u ∙ sym same_v
        | inr other ↦ absurd (not_free v r (there v r other f) (here u r same_u e))
      ]
      | inr other_u ↦ elim (same_or_not v v₀) [
        | inl same_v ↦ absurd (not_free u r (there u r other_u e) (here v r same_v f))
        | inr other_v ↦ a.apart u v r (there u r other_u e) (there v r other_v f)
      ]
    ]

start_life-IsApart : (life : Life) (s : Registers) → IsApart s → OnOk IsApart (start_life life s)
unfolding start_life
start_life-IsApart life s a =
    OnOk-bind (λ r. (k : ℕ) × (r ≡ 0 + k) × (get_elem? s.using k ≡ some false)) IsApart
      (given_or_fail (allocate_vreg s.using 0)) _ (allocate_vreg-free s.using 0)
      λ r (k, same, free). elim (Bool-cases (ltb life.var (length s.regs))) [
        | inl e ↦
            let at_r : r ≡ k = omega (arith, same) in
            rw (e, at_r) (given-IsApart s life.var k (ltb→lt life.var (length s.regs) e) free a)
        | inr e ↦ rw e tt
      ]

-- A register is given back by the one variable that has it.
freed-IsApart :
    (s : Registers) (v₀ r₀ : ℕ)
    → get_elem? s.regs v₀ ≡ some (some r₀)
    → IsApart s
    → IsApart (record { using = set s.using (u8 r₀) false; regs = set s.regs v₀ none })
freed-IsApart s v₀ r₀ held a = record {
  used = used;
  apart = λ u v r e f. a.apart u v r (there u r e) (there v r f);
  few = omega (arith, length-set s.using (u8 r₀) false, a.few);
}
  where
    nothing : (v r : ℕ) → v ≡ v₀ → ¬ (get_elem? (set s.regs v₀ none) v ≡ some (some r))
    nothing v r same e =
        let cleared =
          get_elem?-set_self s.regs v₀ none (get_elem?-inside s.regs v₀ (some r₀) held) in
        let f = ap (get_elem? (set s.regs v₀ none)) same in cc

    there :
        (v r : ℕ)
        → get_elem? (set s.regs v₀ none) v ≡ some (some r)
        → get_elem? s.regs v ≡ some (some r)
    there v r e = elim (same_or_not v v₀) [
      | inl same ↦ absurd (nothing v r same e)
      | inr other ↦ sym (get_elem?-set_ne s.regs none (λ f. other (sym f))) ∙ e
    ]

    small : u8 r₀ ≡ r₀
    small =
        mod-eq_of_lt (omega (arith, get_elem?-inside s.using r₀ true (a.used v₀ r₀ held), a.few))

    used :
        (v r : ℕ)
        → get_elem? (set s.regs v₀ none) v ≡ some (some r)
        → get_elem? (set s.using (u8 r₀) false) r ≡ some true
    used v r e =
        rw small
          (get_elem?-set_ne s.using false (λ same. kept v r e same) ∙ a.used v r (there v r e))
      where
        kept : (v r : ℕ) → get_elem? (set s.regs v₀ none) v ≡ some (some r) → r₀ ≢ r
        kept v r e same =
            nothing v r (a.apart v v₀ r (there v r e) (held ∙ ap (λ k. some (some k)) same)) e

end_life-IsApart : (life : Life) (s : Registers) → IsApart s → OnOk IsApart (end_life life s)
unfolding end_life
end_life-IsApart life s a = elim (Option-cases (get_elem? s.regs life.var)) [
  | inl e ↦ rw (end_life, e) tt
  | inr (none, e) ↦ rw (end_life, e) tt
  | inr (some r, e) ↦ rw (end_life, e) (freed-IsApart s life.var r e a)
]

-- A loop over the lives that acts on those of a point.
if-IsApart :
    (t : Bool) (m : Link Registers) (s : Registers)
    → IsApart s
    → OnOk IsApart m
    → OnOk IsApart (if t then m else ok s)
if-IsApart true m s a h = h
if-IsApart false m s a h = a

pub start_lives-IsApart :
    (lp : ℕ) (lives : Lives) (s : Registers) → IsApart s → OnOk IsApart (start_lives lp lives s)
unfolding start_lives
start_lives-IsApart lp [] s a = a
start_lives-IsApart lp (life ∷ lives) s a =
    OnOk-bind IsApart IsApart (if lp == life.start then start_life life s else ok s)
      (start_lives lp lives)
      (if-IsApart (lp == life.start) (start_life life s) s a (start_life-IsApart life s a))
      (start_lives-IsApart lp lives)

pub end_lives-IsApart :
    (lp : ℕ) (lives : Lives) (s : Registers) → IsApart s → OnOk IsApart (end_lives lp lives s)
unfolding end_lives
end_lives-IsApart lp [] s a = a
end_lives-IsApart lp (life ∷ lives) s a =
    OnOk-bind IsApart IsApart (if lp == life.end then end_life life s else ok s)
      (end_lives lp lives)
      (if-IsApart (lp == life.end) (end_life life s) s a (end_life-IsApart life s a))
      (end_lives-IsApart lp lives)
