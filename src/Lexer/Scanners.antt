-- ===== src/Lexer/Scanners.antt =====
-- compiler/src/xjs_lexer.c: the scanners of identifiers, strings, numbers and dots.
use xenonjs.Base.{
  ℕ, List, [], ◌∷◌, ◌++◌, Bool, true, false, ◌||◌, ◌&&◌, ◌==◌, leb, if◌then◌else◌, Result, ok, fail,
}
use xenonjs.Lexer.{
  is_digit_oct, is_digit_dec, is_digit_hex, is_id_continue, Position, Scan, advance, move,
  TokenType, numeric_literal, punctuator,
}

-- Moves over characters while they are of a class.
unfoldable pub scan_while : (ℕ → Bool) → List ℕ → Position → List ℕ → Scan
scan_while p [] at value = record { rest = []; at = at; value = value }
scan_while p (ch ∷ rest) at value =
    let later = scan_while p rest (advance ch at) (value ++ (ch ∷ [])) in
    if p ch then later else record { rest = ch ∷ rest; at = at; value = value }

-- `xjs_lexer_get_token_identifier`, at its first character.
unfoldable pub scan_identifier : Scan → Scan
unfolding scan_while
scan_identifier s = let s₁ = move s in scan_while is_id_continue s₁.rest s₁.at s₁.value

-- The loop of a string literal behind its opening quote. It ends at the end of the source too,
-- but not behind a backslash.
unfoldable pub scan_string : ℕ → List ℕ → Position → List ℕ → Result Scan Scan
scan_string quote [] at value = ok (record { rest = []; at = at; value = value })
scan_string quote (ch ∷ []) at value =
    let s : Scan = record { rest = []; at = advance ch at; value = value ++ (ch ∷ []) } in
    if ch == quote then ok s else (if ch == b'\\' then fail s else ok s)
scan_string quote (ch ∷ next ∷ rest) at value =
    let at₁ = advance ch at in
    let value₁ = value ++ (ch ∷ []) in
    let later = scan_string quote (next ∷ rest) at₁ value₁ in
    let behind = scan_string quote rest (advance next at₁) (value₁ ++ (next ∷ [])) in
    if ch == quote
    then ok (record { rest = next ∷ rest; at = at₁; value = value₁ })
    else (if ch == b'\\' then behind else later)

-- `xjs_lexer_get_token_string_literal`
unfoldable pub scan_string_literal : Scan → Result Scan Scan
unfolding scan_string
scan_string_literal s = elim s.rest [
  | [] ↦ ok s
  | quote ∷ rest ↦ scan_string quote rest (advance quote s.at) (s.value ++ (quote ∷ []))
]

-- `xjs_lexer_get_token_numeric_literal_state`, with the end of the scan.
pub data NumberState : Type 0 where
  init zero_seen binary hex decint octal decdot finish : NumberState

-- The switch: the state behind a character that is moved over, or `finish`.
abbrev pub number_step : NumberState → ℕ → NumberState
number_step init ch =
    if ch == b'0'
    then zero_seen
    else (if ch == b'.' then decdot else (if leb b'1' ch && leb ch b'9' then decint else finish))
number_step zero_seen ch =
    if ch == b'b' || ch == b'B'
    then binary
    else (if ch == b'x' || ch == b'X'
        then hex
        else (if ch == b'.'
            then decdot
            else (if leb b'0' ch && leb ch b'7' then octal else finish)))
number_step binary ch = if ch == b'0' || ch == b'1' then binary else finish
number_step hex ch = if is_digit_hex ch then hex else finish
number_step decint ch = if is_digit_dec ch then decint else (if ch == b'.' then decdot else finish)
number_step decdot ch = if is_digit_dec ch then decdot else finish
number_step octal ch = if is_digit_oct ch then octal else finish
number_step finish ch = finish

abbrev pub is_finish : NumberState → Bool
is_finish finish = true
is_finish _ = false

unfoldable pub scan_number : NumberState → List ℕ → Position → List ℕ → Scan
scan_number state [] at value = record { rest = []; at = at; value = value }
scan_number state (ch ∷ rest) at value =
    let later = scan_number (number_step state ch) rest (advance ch at) (value ++ (ch ∷ [])) in
    if is_finish (number_step state ch)
    then record { rest = ch ∷ rest; at = at; value = value }
    else later

-- `xjs_lexer_get_token_numeric_literal`
unfoldable pub scan_numeric_literal : Scan → Scan
unfolding scan_number
scan_numeric_literal s = scan_number init s.rest s.at s.value

-- The loop behind a dot: it looks at a character after it has moved over it.
unfoldable pub scan_dot_digits : List ℕ → Position → List ℕ → Scan
scan_dot_digits [] at value = record { rest = []; at = at; value = value }
scan_dot_digits (ch ∷ rest) at value =
    let at₁ = advance ch at in
    let value₁ = value ++ (ch ∷ []) in
    let later = scan_dot_digits rest at₁ value₁ in
    if is_digit_dec ch then later else record { rest = rest; at = at₁; value = value₁ }

-- `xjs_lexer_get_token_dot`
unfoldable pub scan_dot : Scan → TokenType × Scan
unfolding scan_dot_digits
scan_dot s =
    let s₁ = move s in
    elim s₁.rest [
      | [] ↦ (punctuator, s₁)
      | ch ∷ rest ↦
          if is_digit_dec ch
          then (numeric_literal, scan_dot_digits s₁.rest s₁.at s₁.value)
          else (punctuator, s₁)
    ]
