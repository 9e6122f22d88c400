-- ===== src/Lexer/Cover/Gaps.antt =====
-- Blanks and comments.
use mathlib.Core.Path.{subst}
use xenonjs.Base.{
  ℕ, List, [], ◌∷◌, ◌++◌, Bool, true, false, not, ◌&&◌, ◌==◌, ◌≡◌, ◌⊎◌, inl, inr, refl, ap, All,
  arith,
}
use xenonjs.Lexer.{is_ws, Position, Scan, advance}
use xenonjs.Lexer.Comments.{skip_line, skip_block}
use xenonjs.Lexer.Start.{skip_ws}
use xenonjs.Lexer.Cover.{Takes, IsBlank, IsInLine, Holds, Holds-if}

pub Takes-nothing :
    (rest : List ℕ) (at : Position) → Takes [] rest at (record { rest = rest; at = at; value = [] })
Takes-nothing rest at = record { splits = refl; at_is = refl }

pub Takes-char :
    {taken rest : List ℕ} {at : Position} {s : Scan} (ch : ℕ)
    → Takes taken rest (advance ch at) s
    → Takes (ch ∷ taken) (ch ∷ rest) at s
Takes-char ch t = record { splits = ap (λ r. ch ∷ r) t.splits; at_is = t.at_is }

-- The characters of a class at the start of the source.
abbrev pub Runs : (ℕ → Type 0) → List ℕ → Position → Scan → Type 0
Runs P rest at s = (taken : List ℕ) × All P taken × Takes taken rest at s

Runs-char :
    {P : ℕ → Type 0} {rest : List ℕ} {at : Position} {s : Scan} (ch : ℕ)
    → P ch
    → Runs P rest (advance ch at) s
    → Runs P (ch ∷ rest) at s
Runs-char ch p (taken, ps, t) = (ch ∷ taken, (p, ps), Takes-char ch t)

pub skip_ws-Runs : (rest : List ℕ) (at : Position) → Holds (Runs IsBlank rest at) (skip_ws rest at)
unfolding skip_ws
skip_ws-Runs [] at = record { holds = ([], tt, Takes-nothing [] at) }
skip_ws-Runs (ch ∷ rest) at =
    Holds-if (is_ws ch)
      (λ blank. record { holds = Runs-char ch blank (skip_ws-Runs rest (advance ch at)).holds })
      (λ other. record { holds = ([], tt, Takes-nothing (ch ∷ rest) at) })

in-line : (ch : ℕ) → not (ch == 10) && not (ch == 13) ≡ true → IsInLine ch
in-line ch h = (ground arith, ground arith)

pub skip_line-Runs :
    (rest : List ℕ) (at : Position) → Holds (Runs IsInLine rest at) (skip_line rest at)
unfolding skip_line
skip_line-Runs [] at = record { holds = ([], tt, Takes-nothing [] at) }
skip_line-Runs (ch ∷ rest) at =
    Holds-if (not (ch == 10) && not (ch == 13))
      (λ within. record {
        holds = Runs-char ch (in-line ch within) (skip_line-Runs rest (advance ch at)).holds;
      })
      (λ other. record { holds = ([], tt, Takes-nothing (ch ∷ rest) at) })

-- No slash behind a star, the first character included if there is one in front of it.
abbrev pub NoClose : Bool → List ℕ → Type 0
NoClose at_star [] = Unit
NoClose at_star (ch ∷ rest) = (at_star && ch == b'/' ≡ false) × NoClose (ch == b'*') rest

pub NoClose-NeverCloses :
    (at_star : Bool) (front back : List ℕ) → ¬ NoClose at_star (front ++ (b'*' ∷ b'/' ∷ back))
NoClose-NeverCloses at_star [] back h = let slash = h.1.0 in cc
NoClose-NeverCloses at_star (ch ∷ front) back h = NoClose-NeverCloses (ch == b'*') front back h.1

-- The end of a block comment: the slash behind a star, or anything up to the first star
-- with a slash behind it.
abbrev pub Closes : Bool → List ℕ → Type 0
Closes at_star taken =
    ((at_star ≡ true) × (taken ≡ b'/' ∷ []))
    ⊎ ((body : List ℕ) × (taken ≡ body ++ (b'*' ∷ b'/' ∷ []))
        × NoClose at_star (body ++ (b'*' ∷ [])))

Closes-char :
    (ch : ℕ) (at_star : Bool) (taken : List ℕ)
    → at_star && ch == b'/' ≡ false
    → Closes (ch == b'*') taken
    → Closes at_star (ch ∷ taken)
Closes-char ch at_star taken more (inl (star, slash)) =
    let is_star : ch ≡ b'*' = ground arith in
    inr ([], rw (is_star, slash) refl, (subst (λ c. at_star && c == b'/' ≡ false) is_star more, tt))
Closes-char ch at_star taken more (inr (body, e, n)) =
    inr (ch ∷ body, ap (λ r. ch ∷ r) e, (more, n))

-- What a block comment takes; one that is not closed takes all.
abbrev pub BlockEnds : Bool → List ℕ → Position → Bool × Scan → Type 0
BlockEnds at_star rest at (true, s) =
    (taken : List ℕ) × Closes at_star taken × Takes taken rest at s
BlockEnds at_star rest at (false, s) = (s.rest ≡ []) × NoClose at_star rest

BlockEnds-char :
    (ch : ℕ) (at_star : Bool) (rest : List ℕ) (at : Position) (r : Bool × Scan)
    → at_star && ch == b'/' ≡ false
    → BlockEnds (ch == b'*') rest (advance ch at) r
    → BlockEnds at_star (ch ∷ rest) at r
BlockEnds-char ch at_star rest at (true, s) more (taken, c, t) =
    (ch ∷ taken, Closes-char ch at_star taken more c, Takes-char ch t)
BlockEnds-char ch at_star rest at (false, s) more (h, k) = (h, (more, k))

pub skip_block-BlockEnds :
    (at_star : Bool) (rest : List ℕ) (at : Position)
    → Holds (BlockEnds at_star rest at) (skip_block at_star rest at)
unfolding skip_block
skip_block-BlockEnds at_star [] at = record { holds = (refl, tt) }
skip_block-BlockEnds at_star (ch ∷ rest) at =
    Holds-if (at_star && ch == b'/')
      (λ closed. record {
        holds = (
          b'/' ∷ [],
          inl (ground arith, refl),
          (let is_slash : ch ≡ b'/' = ground arith in
              record {
                splits = ap (λ c. c ∷ rest) is_slash;
                at_is = ap (λ c. advance c at) is_slash;
              }),
        );
      })
      (λ more. record {
        holds =
            BlockEnds-char ch at_star rest at _ more
              (skip_block-BlockEnds (ch == b'*') rest (advance ch at)).holds;
      })
