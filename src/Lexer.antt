-- ===== src/Lexer.antt =====
-- compiler/src/xjs_lexer*.c and xjs_token.c: the characters, tokens and context of the lexer.
-- The iterator is what is left of the source; a character is its code point. A character that is
-- read at the end and then not looked at leaves no trace here.
pub mod Words
pub mod Scanners
pub mod Punctuators
pub mod Comments
pub mod Start
pub mod Moves
pub mod Tokens
pub mod Munch
pub mod Cover
use xenonjs.Base.{
  ℕ, zero, suc, ◌+◌, ◌%◌, ◌^◌, List, [], ◌∷◌, ◌++◌, Bool, true, false, ◌||◌, ◌&&◌, ◌==◌, leb,
  if◌then◌else◌,
}

-- `xjs_size_t`, of 64 bits.
abbrev pub u64 : ℕ → ℕ
u64 n = n % 2 ^ 64

abbrev pub is_ws : ℕ → Bool
is_ws ch =
    ch == 9
    || ch == 11
    || ch == 32
    || ch == 12
    || ch == 13
    || ch == 10
    || ch == 0xa0
    || ch == 0xfeff

abbrev pub is_digit_oct : ℕ → Bool
is_digit_oct ch = leb b'0' ch && leb ch b'7'

abbrev pub is_digit_dec : ℕ → Bool
is_digit_dec ch = leb b'0' ch && leb ch b'9'

abbrev pub is_digit_hex : ℕ → Bool
is_digit_hex ch = is_digit_dec ch || (leb b'a' ch && leb ch b'f') || (leb b'A' ch && leb ch b'F')

abbrev pub is_id_start : ℕ → Bool
is_id_start ch =
    ch == b'$' || ch == b'_' || (leb b'a' ch && leb ch b'z') || (leb b'A' ch && leb ch b'Z')

abbrev pub is_id_continue : ℕ → Bool
is_id_continue ch =
    ch == b'$'
    || ch == b'_'
    || (leb b'a' ch && leb ch b'z')
    || (leb b'A' ch && leb ch b'Z')
    || (leb b'0' ch && leb ch b'9')

pub data TokenType : Type 0 where
  unknown keyword identifier punctuator comment : TokenType
  null_literal boolean_literal string_literal numeric_literal : TokenType
  eof : TokenType

-- Line, column and index.
pub record Position : Type 0 where
  pub ln : ℕ
  pub col : ℕ
  pub idx : ℕ

-- A token, with its `loc` and `range` as the positions of its start and end.
pub record Token : Type 0 where
  pub kind : TokenType
  pub value : List ℕ
  pub start : Position
  pub end : Position

-- The context, less its error and file name, and the string that a scanner builds.
pub record Scan : Type 0 where
  pub rest : List ℕ
  pub at : Position
  pub value : List ℕ

abbrev pub begin : Position
begin = record { ln = 1; col = 0; idx = 1 }

-- What `xjs_lexer_ctx_next` does to the position, at a character.
abbrev pub advance : ℕ → Position → Position
advance ch p =
    if ch == 10
    then record { ln = u64 (p.ln + 1); col = 0; idx = u64 (p.idx + 1) }
    else record { ln = p.ln; col = u64 (p.col + 1); idx = u64 (p.idx + 1) }

-- `MOV`: the character goes into the value.
abbrev pub move : Scan → Scan
move s = elim s.rest [
  | [] ↦ s
  | ch ∷ rest ↦ record { rest = rest; at = advance ch s.at; value = s.value ++ (ch ∷ []) }
]

-- `TRY_MORE`: what follows if there is another character.
abbrev pub try_more : Scan → (ℕ → Scan) → Scan
try_more s f = elim s.rest [ [] ↦ s | ch ∷ rest ↦ f ch ]
