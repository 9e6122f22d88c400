-- ===== src/Lexer/Start.antt =====
-- compiler/src/xjs_lexer.c: the choice of a scanner and the loop of the lexer.
use xenonjs.Base.{
  ℕ, zero, suc, ◌+◌, List, [], ◌∷◌, ◌++◌, Bool, true, false, ◌||◌, ◌==◌, if◌then◌else◌, Option,
  none, some, Result, ok, fail, fault, length,
}
use xenonjs.Lexer.{
  u64, is_ws, is_id_start, is_digit_dec, Position, Token, TokenType, comment, eof, punctuator,
  string_literal, numeric_literal, Scan, begin, advance,
}
use xenonjs.Lexer.Words.{word_type}
use xenonjs.Lexer.Scanners.{scan_identifier, scan_string_literal, scan_numeric_literal, scan_dot}
use xenonjs.Lexer.Punctuators.{scan_punctuator}
use xenonjs.Lexer.Comments.{token_of, get_comment}

-- Why the lexer stops: the place of an unexpected token, or (never) too little fuel.
pub data Stop : Type 0 where
  unexpected : ℕ → ℕ → Stop
  out_of_fuel : Stop

-- A scanner's result as a token type with what it scanned.
abbrev pub typed : TokenType → Result Scan Scan → Result Scan (TokenType × Scan)
typed kind (ok s) = ok (kind, s)
typed kind (fail s) = fail s
typed kind fault = fault

-- `xjs_lexer_get_token`. At the end (behind an open block comment, or a lone `#`) it peeks at the
-- terminator behind the source, 0, with which no token begins.
unfoldable pub get_token : List ℕ → Position → Result Scan (TokenType × Scan)
unfolding scan_identifier scan_string_literal scan_numeric_literal scan_dot scan_punctuator
get_token [] at = fail (record { rest = []; at = at; value = [] })
get_token (ch ∷ rest) at =
    let s : Scan = record { rest = ch ∷ rest; at = at; value = [] } in
    let word = scan_identifier s in
    if is_id_start ch
    then ok (word_type word.value, word)
    else (if ch == b'\'' || ch == b'"'
        then typed string_literal (scan_string_literal s)
        else (if is_digit_dec ch
            then ok (numeric_literal, scan_numeric_literal s)
            else (if ch == b'.' then ok (scan_dot s) else typed punctuator (scan_punctuator ch s))))

unfoldable pub skip_ws : List ℕ → Position → Scan
skip_ws [] at = record { rest = []; at = at; value = [] }
skip_ws (ch ∷ rest) at =
    let later = skip_ws rest (advance ch at) in
    if is_ws ch then later else record { rest = ch ∷ rest; at = at; value = [] }

abbrev pub is_comment : TokenType → Bool
is_comment comment = true
is_comment _ = false

-- The token of a scan, or the place of the error.
abbrev pub token_or_stop :
    Position → Result Scan (TokenType × Scan) → Result Stop (Option Token × Scan)
token_or_stop start (ok (kind, s)) = ok (some (token_of kind s.value start s.at), s)
token_or_stop start (fail s) = fail (unexpected s.at.ln (u64 (s.at.col + 1)))
token_or_stop start fault = fault

-- What a turn of the loop does, given what `get_comment` gave back: a token to add or none.
abbrev pub turn_with : Position → Option Token × Scan → Result Stop (Option Token × Scan)
turn_with start (some t, s) = if is_comment t.kind then ok (none, s) else ok (some t, s)
turn_with start (none, s) = token_or_stop start (get_token s.rest s.at)

unfoldable pub turn : List ℕ → Position → Result Stop (Option Token × Scan)
unfolding get_comment get_token
turn rest at = turn_with at (get_comment rest at)

-- The list with one more token, where there is one.
abbrev pub push_back : List Token → Option Token → List Token
push_back ts none = ts
push_back ts (some t) = ts ++ (t ∷ [])

abbrev pub Lexing : Type 0
Lexing = Result Stop (List Token × Scan)

-- Behind a turn of the loop, which goes on by `again`.
abbrev pub after_turn :
    (List ℕ → Position → List Token → Lexing)
    → List Token
    → Result Stop (Option Token × Scan)
    → Lexing
after_turn again ts (ok (t, s)) = again s.rest s.at (push_back ts t)
after_turn again ts (fail stop) = fail stop
after_turn again ts fault = fault

-- A turn of the loop behind the blanks.
abbrev pub from_token :
    (List ℕ → Position → List Token → Lexing) → List Token → List ℕ → Position → Lexing
from_token again ts [] at = ok (ts, record { rest = []; at = at; value = [] })
from_token again ts (ch ∷ more) at = after_turn again ts (turn (ch ∷ more) at)

-- The loop of `xjs_lexer_start_ex`.
unfoldable pub lex : ℕ → List ℕ → Position → List Token → Lexing
unfolding skip_ws turn
lex zero rest at ts = fail out_of_fuel
lex (suc fuel) rest at ts = from_token (lex fuel) ts (skip_ws rest at).rest (skip_ws rest at).at

-- The last token of a list.
abbrev pub last_of : List Token → Option Token
last_of [] = none
last_of (t ∷ ts) = elim (last_of ts) [ none ↦ some t | some u ↦ some u ]

-- The `EOF` token.
abbrev pub eof_token : Option Token → Position → Token
eof_token (some t) at =
    token_of eof [] t.end
      (record { ln = t.end.ln; col = u64 (t.end.col + 1); idx = u64 (t.end.idx + 1) })
eof_token none at = token_of eof [] at at

-- The list with its last token.
abbrev pub with_eof : Lexing → Result Stop (List Token)
with_eof (ok (ts, s)) = ok (ts ++ (eof_token (last_of ts) s.at ∷ []))
with_eof (fail stop) = fail stop
with_eof fault = fault

-- `xjs_lexer_start_ex`; a turn of the loop takes a character at least.
unfoldable pub start_ex : List ℕ → Result Stop (List Token)
unfolding lex
start_ex src = with_eof (lex (suc (length src)) src begin [])
