-- ===== src/Lexer/Tokens.antt =====
-- What each scanner moves over: the value of a token is the text that it takes.
use xenonjs.Base.{
  ℕ, List, [], ◌∷◌, ◌++◌, Bool, true, false, ◌||◌, ◌==◌, if◌then◌else◌, ◌≡◌, Result, ok, fail,
  fault, Bool-cases, inl, inr, arith,
}
use xenonjs.Lexer.{
  Position, Scan, TokenType, numeric_literal, punctuator, string_literal, advance, move,
  is_digit_dec, is_id_start, is_id_continue,
}
use xenonjs.Lexer.Scanners.{
  scan_while, scan_identifier, scan_string, scan_string_literal, NumberState, init, number_step,
  is_finish, scan_number, scan_numeric_literal, scan_dot_digits, scan_dot,
}
use xenonjs.Lexer.Punctuators.{
  scan_punctuator, try_equal, try_equal_or, try_equal_then, try_equals, try_not_equals,
}
use xenonjs.Lexer.Moves.{
  Moves, Moves-refl, Moves-trans, Moves-char, Moves-move, Moves-if, Moves-try_more,
}
use xenonjs.Lexer.Start.{get_token, typed}

abbrev scan : List ℕ → Position → List ℕ → Scan
scan rest at value = record { rest = rest; at = at; value = value }

Moves-while :
    (p : ℕ → Bool) (rest : List ℕ) (at : Position) (value : List ℕ)
    → Moves (scan rest at value) (scan_while p rest at value)
unfolding scan_while
Moves-while p [] at value = Moves-refl _
Moves-while p (ch ∷ rest) at value =
    Moves-if (p ch)
      (Moves-trans (Moves-char ch rest at value)
        (Moves-while p rest (advance ch at) (value ++ (ch ∷ []))))
      (Moves-refl _)

Moves-number :
    (state : NumberState) (rest : List ℕ) (at : Position) (value : List ℕ)
    → Moves (scan rest at value) (scan_number state rest at value)
unfolding scan_number
Moves-number state [] at value = Moves-refl _
Moves-number state (ch ∷ rest) at value =
    Moves-if (is_finish (number_step state ch)) (Moves-refl _) (
      Moves-trans (Moves-char ch rest at value)
        (Moves-number (number_step state ch) rest (advance ch at) (value ++ (ch ∷ []))))

Moves-dot_digits :
    (rest : List ℕ) (at : Position) (value : List ℕ)
    → Moves (scan rest at value) (scan_dot_digits rest at value)
unfolding scan_dot_digits
Moves-dot_digits [] at value = Moves-refl _
Moves-dot_digits (ch ∷ rest) at value =
    Moves-if (is_digit_dec ch)
      (Moves-trans (Moves-char ch rest at value)
        (Moves-dot_digits rest (advance ch at) (value ++ (ch ∷ []))))
      (Moves-char ch rest at value)

-- A predicate on the value of a result that may fail, and is no access outside of an array.
abbrev pub OfOk {ℓ κ} : {E : Type ℓ} {A : Type κ} → (A → Type 0) → Result E A → Type 0
OfOk P (ok a) = P a
OfOk P (fail e) = Unit
OfOk P fault = ⊥

pub record OnOk {ℓ κ} {E : Type ℓ} {A : Type κ} (P : A → Type 0) (r : Result E A) : Type 0 where
  pub holds : OfOk P r

OnOk-if {ℓ κ} :
    {E : Type ℓ} {A : Type κ} {P : A → Type 0} (t : Bool) {r r' : Result E A}
    → OnOk P r
    → OnOk P r'
    → OnOk P (if t then r else r')
OnOk-if true a b = a
OnOk-if false a b = b

OnOk-ok {ℓ κ} : {E : Type ℓ} {A : Type κ} {P : A → Type 0} {a : A} → P a → OnOk {E = E} P (ok a)
OnOk-ok h = record { holds = h }

OnOk-fail {ℓ κ} : {E : Type ℓ} {A : Type κ} {P : A → Type 0} {e : E} → OnOk {A = A} P (fail e)
OnOk-fail = record { holds = tt }

Moves-string :
    {s₀ : Scan} (quote : ℕ) (rest : List ℕ) (at : Position) (value : List ℕ)
    → Moves s₀ (scan rest at value)
    → OnOk (Moves s₀) (scan_string quote rest at value)
unfolding scan_string
Moves-string quote [] at value m = OnOk-ok m
Moves-string quote (ch ∷ []) at value m =
    let step = Moves-trans m (Moves-char ch [] at value) in
    OnOk-if (ch == quote) (OnOk-ok step) (OnOk-if (ch == b'\\') OnOk-fail (OnOk-ok step))
Moves-string quote (ch ∷ next ∷ rest) at value m =
    let step = Moves-trans m (Moves-char ch (next ∷ rest) at value) in
    let behind =
      Moves-string quote rest _ _
        (Moves-trans step (Moves-char next rest (advance ch at) (value ++ (ch ∷ [])))) in
    let later = Moves-string quote (next ∷ rest) _ _ step in
    OnOk-if (ch == quote) (OnOk-ok step) (OnOk-if (ch == b'\\') behind later)

Moves-try_equal : {s₀ : Scan} (s : Scan) → Moves s₀ s → Moves s₀ (try_equal s)
Moves-try_equal s m =
    Moves-try_more s _ m (λ ch. Moves-if (ch == b'=') (Moves-trans m (Moves-move s)) m)

Moves-try_equal_or :
    {s₀ : Scan} (second : ℕ) (s : Scan) → Moves s₀ s → Moves s₀ (try_equal_or second s)
Moves-try_equal_or second s m =
    let step = Moves-trans m (Moves-move s) in
    Moves-try_more s _ m (λ ch. Moves-if (ch == b'=') step (Moves-if (ch == second) step m))

Moves-try_equal_then :
    {s₀ : Scan} (second : ℕ) (follow : Scan → Scan)
    → ((t : Scan) → Moves s₀ t → Moves s₀ (follow t))
    → (s : Scan) → Moves s₀ s
    → Moves s₀ (try_equal_then second follow s)
Moves-try_equal_then second follow f s m =
    let step = Moves-trans m (Moves-move s) in
    Moves-try_more s _ m
      (λ ch. Moves-if (ch == b'=') step (Moves-if (ch == second) (f (move s) step) m))

Moves-try_equals : {s₀ : Scan} (s : Scan) → Moves s₀ s → Moves s₀ (try_equals s)
Moves-try_equals s m =
    let step = Moves-trans m (Moves-move s) in
    Moves-try_more s _ m
      (λ ch. Moves-if (ch == b'=') (Moves-try_equal (move s) step) (Moves-if (ch == b'>') step m))

Moves-try_not_equals : {s₀ : Scan} (s : Scan) → Moves s₀ s → Moves s₀ (try_not_equals s)
Moves-try_not_equals s m =
    Moves-try_more s _ m
      (λ ch. Moves-if (ch == b'=') (Moves-try_equal (move s) (Moves-trans m (Moves-move s))) m)

Moves-punctuator : (ch : ℕ) (s : Scan) → OnOk (Moves (move s)) (scan_punctuator ch s)
unfolding scan_punctuator
Moves-punctuator ch s =
    let m = Moves-refl (move s) in
    let equal = Moves-try_equal (move s) m in
    let either = λ (second : ℕ). Moves-try_equal_or second (move s) m in
    let again = λ (second : ℕ). Moves-try_equal_then second try_equal Moves-try_equal (move s) m in
    let shifts =
      Moves-try_equal_then b'>' (try_equal_then b'>' try_equal)
        (Moves-try_equal_then b'>' try_equal Moves-try_equal) (move s) m in
    OnOk-if _ (OnOk-ok m) (
      OnOk-if _ (OnOk-ok (again b'<')) (
        OnOk-if _ (OnOk-ok shifts) (
          OnOk-if _ (OnOk-ok (Moves-try_equals (move s) m)) (
            OnOk-if _ (OnOk-ok (Moves-try_not_equals (move s) m)) (
              OnOk-if _ (OnOk-ok (either b'+')) (
                OnOk-if _ (OnOk-ok (either b'-')) (
                  OnOk-if _ (OnOk-ok (again b'*')) (
                    OnOk-if (ch == b'%') (OnOk-ok equal) (
                      OnOk-if (ch == b'&') (OnOk-ok (either b'&')) (
                        OnOk-if (ch == b'|') (OnOk-ok (either b'|')) (
                          OnOk-if (ch == b'^') (OnOk-ok equal)
                            (OnOk-if (ch == b'/') (OnOk-ok equal) (OnOk-fail {e = s})))))))))))))

Moves-dot-rest :
    (rest : List ℕ) (at : Position) (value : List ℕ)
    → Moves
        (scan rest at value)
        (elim rest as (λ _. TokenType × Scan) [
          | [] ↦ (punctuator, scan rest at value)
          | ch ∷ more ↦
              if is_digit_dec ch
              then (numeric_literal, scan_dot_digits rest at value)
              else (punctuator, scan rest at value)
        ]).1
Moves-dot-rest [] at value = Moves-refl _
Moves-dot-rest (ch ∷ more) at value =
    elim (is_digit_dec ch)
      as (λ t.
        Moves (scan (ch ∷ more) at value)
          (if◌then◌else◌ {A = TokenType × Scan} t
            (numeric_literal, scan_dot_digits (ch ∷ more) at value)
            (punctuator, scan (ch ∷ more) at value)).1) [
              | true ↦ Moves-dot_digits (ch ∷ more) at value
              | false ↦ Moves-refl _
            ]

Moves-dot :
    (ch : ℕ) (rest : List ℕ) (at : Position)
    → Moves (move (scan (ch ∷ rest) at [])) (scan_dot (scan (ch ∷ rest) at [])).1
unfolding scan_dot
Moves-dot ch rest at = Moves-dot-rest rest (advance ch at) (ch ∷ [])

digit-goes-on : (ch : ℕ) → is_digit_dec ch ≡ true → is_finish (number_step init ch) ≡ false
digit-goes-on ch h = ground arith

Moves-numeric :
    (ch : ℕ) (rest : List ℕ) (at : Position)
    → is_digit_dec ch ≡ true
    → Moves (move (scan (ch ∷ rest) at [])) (scan_numeric_literal (scan (ch ∷ rest) at []))
unfolding scan_numeric_literal scan_number
Moves-numeric ch rest at h =
    rw (digit-goes-on ch h) (Moves-number (number_step init ch) rest (advance ch at) (ch ∷ []))

-- The scan of a token behind its first character.
abbrev pub Behind : ℕ → List ℕ → Position → TokenType × Scan → Type 0
Behind ch rest at r = Moves (scan rest (advance ch at) (ch ∷ [])) r.1

typed-OnOk :
    (ch : ℕ) (rest : List ℕ) (at : Position) (kind : TokenType) (r : Result Scan Scan)
    → OnOk (Moves (scan rest (advance ch at) (ch ∷ []))) r
    → OnOk (Behind ch rest at) (typed kind r)
typed-OnOk ch rest at kind (ok s) h = OnOk-ok h.holds
typed-OnOk ch rest at kind (fail s) h = OnOk-fail {e = s}
typed-OnOk ch rest at kind fault h = absurd h.holds

pub get_token-Behind :
    (ch : ℕ) (rest : List ℕ) (at : Position) → OnOk (Behind ch rest at) (get_token (ch ∷ rest) at)
unfolding get_token scan_identifier scan_string_literal
get_token-Behind ch rest at =
    OnOk-if (is_id_start ch) (OnOk-ok (Moves-while is_id_continue rest (advance ch at) (ch ∷ []))) (
      OnOk-if (ch == b'\'' || ch == b'"')
        (typed-OnOk ch rest at string_literal _
          (Moves-string ch rest (advance ch at) (ch ∷ []) (Moves-refl _)))
        (elim (Bool-cases (is_digit_dec ch)) [
          | inl digit ↦ rw digit (OnOk-ok (Moves-numeric ch rest at digit))
          | inr other ↦ rw other (
              OnOk-if (ch == b'.') (OnOk-ok (Moves-dot ch rest at))
                (typed-OnOk ch rest at punctuator _ (Moves-punctuator ch (scan (ch ∷ rest) at []))))
        ]))
