-- ===== src/Lexer/Cover/Stuck.antt =====
-- Where a scanner of a token fails.
use xenonjs.Base.{
  ℕ, List, [], ◌∷◌, ◌++◌, true, false, ◌||◌, ◌==◌, ◌≡◌, ◌≢◌, ◌⊎◌, refl, ap, arith, Result, ok, fail,
  fault, All, All-append,
}
use xenonjs.Lexer.{Position, Scan, TokenType, punctuator, string_literal, is_id_start, is_digit_dec}
use xenonjs.Lexer.Scanners.{scan_string, scan_string_literal}
use xenonjs.Lexer.Punctuators.{scan_punctuator, is_single}
use xenonjs.Lexer.Start.{get_token, typed}
use xenonjs.Lexer.Cover.{
  IsInString, stop, plain, escaped, IsBad, stray, open_string, Holds, Holds-if,
}

-- What holds if a scan fails.
abbrev pub FailsOn {ℓ} : {A : Type ℓ} → Type 0 → Result Scan A → Type 0
FailsOn P (ok a) = Unit
FailsOn P (fail s) = P
FailsOn P fault = Unit

FailsOn-map :
    {P Q : Type 0} (r : Result Scan Scan) → (P → Q) → Holds (FailsOn P) r → Holds (FailsOn Q) r
FailsOn-map (ok s) f h = record { holds = tt }
FailsOn-map (fail s) f h = record { holds = f h.holds }
FailsOn-map fault f h = record { holds = tt }

typed-FailsOn :
    {P : Type 0} (kind : TokenType) (r : Result Scan Scan)
    → Holds (FailsOn P) r
    → Holds (FailsOn P) (typed kind r)
typed-FailsOn kind (ok s) h = record { holds = tt }
typed-FailsOn kind (fail s) h = record { holds = h.holds }
typed-FailsOn kind fault h = record { holds = tt }

-- A string that the source ends in, behind a backslash.
abbrev EndsEscaped : ℕ → List ℕ → Type 0
EndsEscaped quote rest = (body : List ℕ) × (rest ≡ body ++ (b'\\' ∷ [])) × IsInString quote body

differ : (a b : ℕ) → (a == b) ≡ false → a ≢ b
differ a b h = ground arith

scan_string-FailsOn :
    (quote : ℕ) (rest : List ℕ) (at : Position) (value : List ℕ)
    → Holds (FailsOn (EndsEscaped quote rest)) (scan_string quote rest at value)
unfolding scan_string
scan_string-FailsOn quote [] at value = record { holds = tt }
scan_string-FailsOn quote (ch ∷ []) at value =
    Holds-if (ch == quote) (λ _. record { holds = tt })
      (λ _.
        Holds-if (ch == b'\\')
          (λ h.
            let e : ch ≡ b'\\' = ground arith in record { holds = ([], ap (λ c. c ∷ []) e, stop) })
          (λ _. record { holds = tt }))
scan_string-FailsOn quote (ch ∷ next ∷ rest) at value =
    Holds-if (ch == quote) (λ _. record { holds = tt })
      (λ apart.
        Holds-if (ch == b'\\')
          (λ h.
            let e : ch ≡ b'\\' = ground arith in
            FailsOn-map _
              (λ (body, split, inside).
                (b'\\' ∷ next ∷ body, rw (e, split) refl, escaped next body inside))
              (scan_string-FailsOn quote rest _ _))
          (λ other.
            FailsOn-map _
              (λ (body, split, inside). (
                ch ∷ body,
                rw split refl,
                plain ch body (differ ch quote apart) (differ ch b'\\' other) inside,
              ))
              (scan_string-FailsOn quote (next ∷ rest) _ _)))

abbrev Others : List ℕ → ℕ → Type 0
Others cs ch = All (λ c. ch ≢ c) cs

abbrev singles : List ℕ
singles = b'{' ∷ b'}' ∷ b'(' ∷ b')' ∷ b'[' ∷ b']' ∷ b';' ∷ b',' ∷ b'~' ∷ b'?' ∷ b':' ∷ []

single-Others : (ch : ℕ) → is_single ch ≡ false → Others singles ch
single-Others ch h = ground arith

abbrev operators : List ℕ
operators = b'<' ∷ b'>' ∷ b'=' ∷ b'!' ∷ b'+' ∷ b'-' ∷ b'*' ∷ b'%' ∷ b'&' ∷ b'|' ∷ b'^' ∷ b'/' ∷ []

abbrev NoPunctuator : ℕ → Type 0
NoPunctuator ch = (is_single ch ≡ false) × Others operators ch

scan_punctuator-FailsOn :
    (ch : ℕ) (s : Scan) → Holds (FailsOn (NoPunctuator ch)) (scan_punctuator ch s)
unfolding scan_punctuator
scan_punctuator-FailsOn ch s =
    Holds-if (is_single ch) (λ _. record { holds = tt })
      (λ h₀.
        Holds-if (ch == b'<') (λ _. record { holds = tt })
          (λ h₁.
            Holds-if (ch == b'>') (λ _. record { holds = tt })
              (λ h₂.
                Holds-if (ch == b'=') (λ _. record { holds = tt })
                  (λ h₃.
                    Holds-if (ch == b'!') (λ _. record { holds = tt })
                      (λ h₄.
                        Holds-if (ch == b'+') (λ _. record { holds = tt })
                          (λ h₅.
                            Holds-if (ch == b'-') (λ _. record { holds = tt })
                              (λ h₆.
                                Holds-if (ch == b'*') (λ _. record { holds = tt })
                                  (λ h₇.
                                    Holds-if (ch == b'%') (λ _. record { holds = tt })
                                      (λ h₈.
                                        Holds-if (ch == b'&') (λ _. record { holds = tt })
                                          (λ h₉.
                                            Holds-if (ch == b'|') (λ _. record { holds = tt })
                                              (λ h₁₀.
                                                Holds-if (ch == b'^') (λ _. record { holds = tt })
                                                  (λ h₁₁.
                                                    Holds-if (ch == b'/')
                                                      (λ _. record { holds = tt })
                                                      (λ h₁₂. record {
                                                        holds = (
                                                          h₀,
                                                          (
                                                            differ ch b'<' h₁,
                                                            (
                                                            differ ch b'>' h₂,
                                                            (
                                                            differ ch b'=' h₃,
                                                            (
                                                            differ ch b'!' h₄,
                                                            (
                                                            differ ch b'+' h₅,
                                                            (
                                                            differ ch b'-' h₆,
                                                            (
                                                            differ ch b'*' h₇,
                                                            (
                                                            differ ch b'%' h₈,
                                                            (
                                                            differ ch b'&' h₉,
                                                            (
                                                            differ ch b'|' h₁₀,
                                                            (
                                                            differ ch b'^' h₁₁,
                                                            (differ ch b'/' h₁₂, tt),
                                                            ),
                                                            ),
                                                            ),
                                                            ),
                                                            ),
                                                            ),
                                                            ),
                                                            ),
                                                            ),
                                                            ),
                                                          ),
                                                        );
                                                      })))))))))))))

quotes : (ch : ℕ) → ch == b'\'' || ch == b'"' ≡ true → (ch ≡ b'\'') ⊎ (ch ≡ b'"')
quotes ch h = ground arith

no_quotes : (ch : ℕ) → ch == b'\'' || ch == b'"' ≡ false → (ch ≢ b'\'') × (ch ≢ b'"')
no_quotes ch h = (ground arith, ground arith)

-- Where no token is found, none begins there, or a string does not end.
pub get_token-FailsOn :
    (ch : ℕ) (rest : List ℕ) (at : Position)
    → Holds (FailsOn (IsBad (ch ∷ rest))) (get_token (ch ∷ rest) at)
unfolding get_token scan_string_literal
get_token-FailsOn ch rest at =
    Holds-if (is_id_start ch) (λ _. record { holds = tt })
      (λ no_word.
        Holds-if (ch == b'\'' || ch == b'"')
          (λ quote. typed-FailsOn string_literal _ (
            FailsOn-map _
              (λ (body, split, inside). rw split (open_string ch body (quotes ch quote) inside))
              (scan_string-FailsOn ch rest _ _)))
          (λ unquoted.
            Holds-if (is_digit_dec ch) (λ _. record { holds = tt })
              (λ no_number.
                Holds-if (ch == b'.') (λ _. record { holds = tt })
                  (λ no_dot. typed-FailsOn punctuator _ (
                    FailsOn-map _
                      (λ (single, others). stray ch rest (record {
                        no_word = no_word;
                        no_number = no_number;
                        no_other =
                            let (q₁, q₂) = no_quotes ch unquoted in
                            (
                              q₁,
                              (
                                q₂,
                                (
                                  differ ch b'.' no_dot,
                                  All-append (λ c. ch ≢ c) singles operators
                                      (single-Others ch single) others,
                                ),
                              ),
                            );
                      }))
                      (scan_punctuator-FailsOn ch
                        (record { rest = ch ∷ rest; at = at; value = [] })))))))
