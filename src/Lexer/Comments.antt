-- ===== src/Lexer/Comments.antt =====
-- compiler/src/xjs_lexer.c: comments, and the two punctuators that begin like them. The text of a
-- comment is thrown away with its token, so it is left out here. A peek at the end of the source
-- gives the terminator behind it; a test for the end follows, or the peek goes to that text.
use xenonjs.Base.{
  ℕ, List, [], ◌∷◌, Bool, true, false, not, ◌&&◌, ◌==◌, if◌then◌else◌, Option, none, some,
}
use xenonjs.Lexer.{Position, Token, TokenType, comment, punctuator, Scan, advance}

abbrev pub token_of : TokenType → List ℕ → Position → Position → Token
token_of kind value start end = record { kind = kind; value = value; start = start; end = end }

-- To the end of the line.
unfoldable pub skip_line : List ℕ → Position → Scan
skip_line [] at = record { rest = []; at = at; value = [] }
skip_line (ch ∷ rest) at =
    let later = skip_line rest (advance ch at) in
    if not (ch == 10) && not (ch == 13)
    then later
    else record { rest = ch ∷ rest; at = at; value = [] }

-- The loop of a block comment: whether it is closed, and the place behind.
unfoldable pub skip_block : Bool → List ℕ → Position → Bool × Scan
skip_block at_star [] at = (false, record { rest = []; at = at; value = [] })
skip_block at_star (ch ∷ rest) at =
    let at₁ = advance ch at in
    let later = skip_block (ch == b'*') rest at₁ in
    if at_star && ch == b'/' then (true, record { rest = rest; at = at₁; value = [] }) else later

-- Behind a `/` at `start`.
unfoldable pub get_comment_slash : Position → List ℕ → Position → Option Token × Scan
unfolding skip_line skip_block
get_comment_slash start [] at =
    (some (token_of punctuator (b'/' ∷ []) start at), record { rest = []; at = at; value = [] })
get_comment_slash start (ch ∷ rest) at =
    let line = skip_line (ch ∷ rest) at in
    let block = skip_block false rest (advance ch at) in
    let at₁ = advance ch at in
    if ch == b'/'
    then (some (token_of comment [] start line.at), line)
    else (if ch == b'='
        then (
          some (token_of punctuator (b'/' ∷ b'=' ∷ []) start at₁),
          record { rest = rest; at = at₁; value = [] },
        )
        else (if ch == b'*'
            then ((if block.0 then some (token_of comment [] start block.1.at) else none), block.1)
            else (
              some (token_of punctuator (b'/' ∷ []) start at),
              record { rest = ch ∷ rest; at = at; value = [] },
            )))

-- Behind a `#` at the start of the first line. There is no way back over it.
unfoldable pub get_shebang : Position → List ℕ → Position → Option Token × Scan
unfolding skip_line
get_shebang start [] at = (none, record { rest = []; at = at; value = [] })
get_shebang start (ch ∷ rest) at =
    let line = skip_line (ch ∷ rest) at in
    if ch == b'!'
    then (some (token_of comment [] start line.at), line)
    else (none, record { rest = ch ∷ rest; at = at; value = [] })

-- `xjs_lexer_get_comment`
unfoldable pub get_comment : List ℕ → Position → Option Token × Scan
unfolding get_comment_slash get_shebang
get_comment [] at = (none, record { rest = []; at = at; value = [] })
get_comment (ch ∷ rest) at =
    let slash = get_comment_slash at rest (advance ch at) in
    let shebang = get_shebang at rest (advance ch at) in
    if ch == b'/'
    then slash
    else (if ch == b'#' && at.ln == 1 && at.col == 0
        then shebang
        else (none, record { rest = ch ∷ rest; at = at; value = [] }))
