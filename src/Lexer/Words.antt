-- ===== src/Lexer/Words.antt =====
-- compiler/src/xjs_lexer.c and xjs_aux.c: the words that are not identifiers.
use xenonjs.Base.{ℕ, List, [], ◌∷◌, Bool, true, false, ◌||◌, ◌==◌, if◌then◌else◌, length}
use xenonjs.Lexer.{TokenType, null_literal, boolean_literal, keyword, identifier}

-- The loop of the comparison; it reads as many characters of each string.
unfoldable pub same_chars : List ℕ → List ℕ → Bool
same_chars [] ys = true
same_chars (x ∷ xs) [] = false
same_chars (x ∷ xs) (y ∷ ys) = let later = same_chars xs ys in if x == y then later else false

-- `xjs_aux_string_match_with`
abbrev pub match_with : List ℕ → List ℕ → Bool
match_with s word = if length word == length s then same_chars s word else false

abbrev pub keywords : List (List ℕ)
keywords =
    (b'a' ∷ b'w' ∷ b'a' ∷ b'i' ∷ b't' ∷ [])
    ∷ (b'a' ∷ b's' ∷ [])
    ∷ (b'b' ∷ b'r' ∷ b'e' ∷ b'a' ∷ b'k' ∷ [])
    ∷ (b'c' ∷ b'a' ∷ b's' ∷ b'e' ∷ [])
    ∷ (b'c' ∷ b'a' ∷ b't' ∷ b'c' ∷ b'h' ∷ [])
    ∷ (b'c' ∷ b'l' ∷ b'a' ∷ b's' ∷ b's' ∷ [])
    ∷ (b'c' ∷ b'o' ∷ b'n' ∷ b's' ∷ b't' ∷ [])
    ∷ (b'c' ∷ b'o' ∷ b'n' ∷ b't' ∷ b'i' ∷ b'n' ∷ b'u' ∷ b'e' ∷ [])
    ∷ (b'd' ∷ b'e' ∷ b'b' ∷ b'u' ∷ b'g' ∷ b'g' ∷ b'e' ∷ b'r' ∷ [])
    ∷ (b'd' ∷ b'e' ∷ b'f' ∷ b'a' ∷ b'u' ∷ b'l' ∷ b't' ∷ [])
    ∷ (b'd' ∷ b'e' ∷ b'l' ∷ b'e' ∷ b't' ∷ b'e' ∷ [])
    ∷ (b'd' ∷ b'o' ∷ [])
    ∷ (b'e' ∷ b'l' ∷ b's' ∷ b'e' ∷ [])
    ∷ (b'e' ∷ b'x' ∷ b'p' ∷ b'o' ∷ b'r' ∷ b't' ∷ [])
    ∷ (b'e' ∷ b'x' ∷ b't' ∷ b'e' ∷ b'n' ∷ b'd' ∷ b's' ∷ [])
    ∷ (b'f' ∷ b'i' ∷ b'n' ∷ b'a' ∷ b'l' ∷ b'l' ∷ b'y' ∷ [])
    ∷ (b'f' ∷ b'o' ∷ b'r' ∷ [])
    ∷ (b'f' ∷ b'r' ∷ b'o' ∷ b'm' ∷ [])
    ∷ (b'f' ∷ b'u' ∷ b'n' ∷ b'c' ∷ b't' ∷ b'i' ∷ b'o' ∷ b'n' ∷ [])
    ∷ (b'i' ∷ b'f' ∷ [])
    ∷ (b'i' ∷ b'm' ∷ b'p' ∷ b'o' ∷ b'r' ∷ b't' ∷ [])
    ∷ (b'i' ∷ b'n' ∷ [])
    ∷ (b'i' ∷ b'n' ∷ b's' ∷ b't' ∷ b'a' ∷ b'n' ∷ b'c' ∷ b'e' ∷ b'o' ∷ b'f' ∷ [])
    ∷ (b'l' ∷ b'e' ∷ b't' ∷ [])
    ∷ (b'n' ∷ b'e' ∷ b'w' ∷ [])
    ∷ (b'r' ∷ b'e' ∷ b't' ∷ b'u' ∷ b'r' ∷ b'n' ∷ [])
    ∷ (b's' ∷ b't' ∷ b'a' ∷ b't' ∷ b'i' ∷ b'c' ∷ [])
    ∷ (b's' ∷ b'u' ∷ b'p' ∷ b'e' ∷ b'r' ∷ [])
    ∷ (b's' ∷ b'w' ∷ b'i' ∷ b't' ∷ b'c' ∷ b'h' ∷ [])
    ∷ (b't' ∷ b'h' ∷ b'i' ∷ b's' ∷ [])
    ∷ (b't' ∷ b'h' ∷ b'r' ∷ b'o' ∷ b'w' ∷ [])
    ∷ (b't' ∷ b'r' ∷ b'y' ∷ [])
    ∷ (b't' ∷ b'y' ∷ b'p' ∷ b'e' ∷ b'o' ∷ b'f' ∷ [])
    ∷ (b'v' ∷ b'a' ∷ b'r' ∷ [])
    ∷ (b'v' ∷ b'o' ∷ b'i' ∷ b'd' ∷ [])
    ∷ (b'w' ∷ b'h' ∷ b'i' ∷ b'l' ∷ b'e' ∷ [])
    ∷ (b'w' ∷ b'i' ∷ b't' ∷ b'h' ∷ [])
    ∷ (b'y' ∷ b'i' ∷ b'e' ∷ b'l' ∷ b'd' ∷ [])
    ∷ (b'i' ∷ b'n' ∷ b's' ∷ b'p' ∷ b'e' ∷ b'c' ∷ b't' ∷ [])
    ∷ []

-- `ec_string_match_with_keyword` from one word of the table on.
unfoldable pub match_with_any : List ℕ → List (List ℕ) → Bool
match_with_any s [] = false
match_with_any s (word ∷ words) =
    let later = match_with_any s words in if match_with s word then true else later

abbrev pub match_with_keyword : List ℕ → Bool
match_with_keyword s = match_with_any s keywords

-- The type that the scanner of identifiers gives to a word.
abbrev pub word_type : List ℕ → TokenType
word_type value =
    if match_with value (b'n' ∷ b'u' ∷ b'l' ∷ b'l' ∷ [])
    then null_literal
    else (if match_with value (b'f' ∷ b'a' ∷ b'l' ∷ b's' ∷ b'e' ∷ [])
          || match_with value (b't' ∷ b'r' ∷ b'u' ∷ b'e' ∷ [])
        then boolean_literal
        else (if match_with_keyword value then keyword else identifier))
