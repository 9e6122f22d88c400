-- ===== src/Lexer/Moves.antt =====
-- Scans that move over characters of the source and keep them as their value.
use mathlib.Core.List.{append_assoc, append-nil}
use xenonjs.Base.{ℕ, List, [], ◌∷◌, ◌++◌, Bool, true, false, if◌then◌else◌, ◌≡◌, ◌∙◌, refl, sym, ap}
use xenonjs.Lexer.{Position, Scan, advance, move, try_more}

-- The position behind some characters.
abbrev pub advance_all : List ℕ → Position → Position
advance_all [] p = p
advance_all (ch ∷ cs) p = advance_all cs (advance ch p)

-- From one state of a scan to another: the characters that were moved over are those that are
-- gone from the source, and those that the value gained.
pub record Moves (s : Scan) (s' : Scan) : Type 0 where
  pub taken : List ℕ
  pub splits : s.rest ≡ taken ++ s'.rest
  pub at_is : s'.at ≡ advance_all taken s.at
  pub value_is : s'.value ≡ s.value ++ taken

pub advance_all-append :
    (xs ys : List ℕ) (p : Position) → advance_all (xs ++ ys) p ≡ advance_all ys (advance_all xs p)
advance_all-append [] ys p = refl
advance_all-append (x ∷ xs) ys p = advance_all-append xs ys (advance x p)

pub Moves-refl : (s : Scan) → Moves s s
Moves-refl s = record {
  taken = [];
  splits = refl;
  at_is = refl;
  value_is = sym (append-nil s.value);
}

pub Moves-trans : {s t u : Scan} → Moves s t → Moves t u → Moves s u
Moves-trans {s} {t} {u} m n = record {
  taken = m.taken ++ n.taken;
  splits = m.splits ∙ ap (λ r. m.taken ++ r) n.splits ∙ sym (append_assoc m.taken n.taken u.rest);
  at_is =
      n.at_is ∙ ap (advance_all n.taken) m.at_is ∙ sym (advance_all-append m.taken n.taken s.at);
  value_is = n.value_is ∙ ap (λ v. v ++ n.taken) m.value_is ∙ append_assoc s.value m.taken n.taken;
}

-- Over one character.
pub Moves-char :
    (ch : ℕ) (rest : List ℕ) (at : Position) (value : List ℕ)
    → Moves
        (record { rest = ch ∷ rest; at = at; value = value })
        (record { rest = rest; at = advance ch at; value = value ++ (ch ∷ []) })
Moves-char ch rest at value = record {
  taken = ch ∷ [];
  splits = refl;
  at_is = refl;
  value_is = refl;
}

Moves-move-rest :
    (rest : List ℕ) (at : Position) (value : List ℕ)
    → Moves
        (record { rest = rest; at = at; value = value })
        (move (record { rest = rest; at = at; value = value }))
Moves-move-rest [] at value = Moves-refl _
Moves-move-rest (ch ∷ rest) at value = Moves-char ch rest at value

pub Moves-move : (s : Scan) → Moves s (move s)
Moves-move s = Moves-move-rest s.rest s.at s.value

pub Moves-if : (t : Bool) {s u v : Scan} → Moves s u → Moves s v → Moves s (if t then u else v)
Moves-if true m n = m
Moves-if false m n = n

Moves-try_more-rest :
    {s₀ : Scan} (rest : List ℕ) (at : Position) (value : List ℕ) (f : ℕ → Scan)
    → Moves s₀ (record { rest = rest; at = at; value = value })
    → ((ch : ℕ) → Moves s₀ (f ch))
    → Moves s₀ (try_more (record { rest = rest; at = at; value = value }) f)
Moves-try_more-rest [] at value f m n = m
Moves-try_more-rest (ch ∷ rest) at value f m n = n ch

pub Moves-try_more :
    {s₀ : Scan} (s : Scan) (f : ℕ → Scan)
    → Moves s₀ s
    → ((ch : ℕ) → Moves s₀ (f ch))
    → Moves s₀ (try_more s f)
Moves-try_more s = Moves-try_more-rest s.rest s.at s.value
