-- ===== src/Lexer/Cover.antt =====
-- How the tokens of a source stand in it: the lexer's output against the source, read as blanks,
-- comments and the text of the tokens, in order and with nothing left out.
pub mod Gaps
pub mod Stuck
pub mod Comments
pub mod Turns
pub mod Loop
use xenonjs.Base.{
  ℕ, zero, suc, ◌+◌, ◌<◌, List, [], ◌∷◌, ◌++◌, Bool, true, false, ◌≡◌, ◌≢◌, ◌⊎◌, All, length,
  length-append, arith, ap, ◌∙◌, if◌then◌else◌, refl,
}
use xenonjs.Lexer.{is_ws, is_id_start, is_digit_dec, Position, Scan, Token, TokenType}
use xenonjs.Lexer.Moves.{Moves, advance_all}

-- `taken` is what is gone from the source, and the position went over it.
pub record Takes (taken : List ℕ) (rest : List ℕ) (at : Position) (s : Scan) : Type 0 where
  pub splits : rest ≡ taken ++ s.rest
  pub at_is : s.at ≡ advance_all taken at

abbrev pub IsBlank : ℕ → Type 0
IsBlank ch = is_ws ch ≡ true

abbrev pub IsInLine : ℕ → Type 0
IsInLine ch = (ch ≢ 10) × (ch ≢ 13)

-- No star has a slash behind it.
abbrev pub NeverCloses : List ℕ → Type 0
NeverCloses body = (front back : List ℕ) → body ≢ front ++ (b'*' ∷ b'/' ∷ back)

-- A comment of a line, one between stars, up to the first that has a
-- slash behind it, and a line that names an interpreter.
pub data IsComment : List ℕ → Type 0 where
  line : (body : List ℕ) → All IsInLine body → IsComment (b'/' ∷ b'/' ∷ body)
  shebang : (body : List ℕ) → All IsInLine body → IsComment (b'#' ∷ b'!' ∷ body)
  block :
      (body : List ℕ)
      → NeverCloses (body ++ (b'*' ∷ []))
      → IsComment (b'/' ∷ b'*' ∷ body ++ (b'*' ∷ b'/' ∷ []))

-- Where the first line begins.
abbrev pub IsFirst : Position → Type 0
IsFirst at = (at.ln ≡ 1) × (at.col ≡ 0)

-- What may stand between the start of a token and its text: nothing, or a lone `#` where the first
-- line begins.
pub data IsPrefix (at : Position) : List ℕ → Type 0 where
  nothing : IsPrefix at []
  hash : IsFirst at → IsPrefix at (b'#' ∷ [])

-- A character with which no token begins.
pub record IsStray (ch : ℕ) : Type 0 where
  pub no_word : is_id_start ch ≡ false
  pub no_number : is_digit_dec ch ≡ false
  pub no_other :
      All
        (λ c. ch ≢ c)
        (b'\'' ∷ b'"' ∷ b'.' ∷ b'{' ∷ b'}' ∷ b'(' ∷ b')' ∷ b'[' ∷ b']' ∷ b';' ∷ b',' ∷ b'~' ∷ b'?'
          ∷ b':' ∷ b'<' ∷ b'>' ∷ b'=' ∷ b'!' ∷ b'+' ∷ b'-' ∷ b'*' ∷ b'%' ∷ b'&' ∷ b'|' ∷ b'^' ∷ b'/'
          ∷ [])

-- Text in a string: no quote and no backslash, but for those behind a backslash.
pub data IsInString (quote : ℕ) : List ℕ → Type 0 where
  stop : IsInString quote []
  plain :
      (ch : ℕ) (rest : List ℕ)
      → ch ≢ quote
      → ch ≢ b'\\'
      → IsInString quote rest
      → IsInString quote (ch ∷ rest)
  escaped : (ch : ℕ) (rest : List ℕ) → IsInString quote rest → IsInString quote (b'\\' ∷ ch ∷ rest)

-- What begins no token and no comment: a stray character, a string whose last character is a
-- backslash, and a block comment that is not closed.
pub data IsBad : List ℕ → Type 0 where
  stray : (ch : ℕ) (rest : List ℕ) → IsStray ch → IsBad (ch ∷ rest)
  open_string :
      (quote : ℕ) (body : List ℕ)
      → (quote ≡ b'\'') ⊎ (quote ≡ b'"')
      → IsInString quote body
      → IsBad (quote ∷ (body ++ (b'\\' ∷ [])))
  open_block : (body : List ℕ) → NeverCloses body → IsBad (b'/' ∷ b'*' ∷ body)

-- Where the lexer stops: at something bad, or at a `#` where the first line begins, with something
-- bad or the end behind it.
pub data IsStuck (at : Position) : List ℕ → Type 0 where
  bad : (rest : List ℕ) → IsBad rest → IsStuck at rest
  lone_hash : IsFirst at → IsStuck at (b'#' ∷ [])
  behind_hash : (rest : List ℕ) → IsFirst at → IsBad rest → IsStuck at (b'#' ∷ rest)

-- A token that the source has at a place, with the state behind it.
pub record IsTokenAt (t : Token) (rest : List ℕ) (at : Position) (s : Scan) : Type 0 where
  pub prefix : List ℕ
  pub prefix_is : IsPrefix at prefix
  pub takes : Takes (prefix ++ t.value) rest at s
  pub not_empty : 0 < length t.value
  pub start_is : t.start ≡ at
  pub end_is : t.end ≡ s.at

-- The tokens of a source from a position on, up to what is left of it at another.
pub data Lexes (rest' : List ℕ) (at' : Position) : List ℕ → Position → List Token → Type 0 where
  arrived : Lexes rest' at' rest' at' []
  over_blank :
      (blanks rest : List ℕ) (at : Position) (s : Scan) (ts : List Token)
      → All IsBlank blanks
      → Takes blanks rest at s
      → Lexes rest' at' s.rest s.at ts
      → Lexes rest' at' rest at ts
  over_comment :
      (text rest : List ℕ) (at : Position) (s : Scan) (ts : List Token)
      → IsComment text
      → Takes text rest at s
      → Lexes rest' at' s.rest s.at ts
      → Lexes rest' at' rest at ts
  over_token :
      (t : Token) (rest : List ℕ) (at : Position) (s : Scan) (ts : List Token)
      → IsTokenAt t rest at s
      → Lexes rest' at' s.rest s.at ts
      → Lexes rest' at' rest at (t ∷ ts)

-- A predicate as a record, so that a branch of a test is found by its type.
pub record Holds {ℓ} {A : Type ℓ} (P : A → Type 0) (a : A) : Type 0 where
  pub holds : P a

pub Holds-if {ℓ} :
    {A : Type ℓ} {P : A → Type 0} (t : Bool) {a b : A}
    → (t ≡ true → Holds P a)
    → (t ≡ false → Holds P b)
    → Holds P (if t then a else b)
Holds-if true h k = h refl
Holds-if false h k = k refl

pub Takes-shorter :
    {taken rest : List ℕ} {at : Position} {s : Scan}
    → Takes taken rest at s
    → length rest ≡ length taken + length s.rest
Takes-shorter {taken} {s} t = ap length t.splits ∙ length-append {0} taken s.rest
