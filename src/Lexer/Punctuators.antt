-- ===== src/Lexer/Punctuators.antt =====
-- compiler/src/xjs_lexer.c: the scanner of punctuators.
use xenonjs.Base.{ℕ, Bool, ◌||◌, ◌==◌, if◌then◌else◌, Result, ok, fail}
use xenonjs.Lexer.{Scan, move, try_more}

-- The punctuators of one character.
abbrev pub is_single : ℕ → Bool
is_single ch =
    ch == b'{'
    || ch == b'}'
    || ch == b'('
    || ch == b')'
    || ch == b'['
    || ch == b']'
    || ch == b';'
    || ch == b','
    || ch == b'~'
    || ch == b'?'
    || ch == b':'

-- Moves over an `=` where there is one.
abbrev pub try_equal : Scan → Scan
try_equal s = try_more s (λ ch. if ch == b'=' then move s else s)

-- Moves over an `=`, or over a second character of the operator.
abbrev pub try_equal_or : ℕ → Scan → Scan
try_equal_or second s =
    try_more s (λ ch. if ch == b'=' then move s else (if ch == second then move s else s))

-- Behind `<` or `*`: an `=`, or the same character again and what may follow it.
abbrev pub try_equal_then : ℕ → (Scan → Scan) → Scan → Scan
try_equal_then second follow s =
    try_more s (λ ch. if ch == b'=' then move s else (if ch == second then follow (move s) else s))

-- Behind the first `=`.
abbrev pub try_equals : Scan → Scan
try_equals s =
    try_more s (λ ch. if ch == b'=' then try_equal (move s) else (if ch == b'>' then move s else s))

-- Behind `!`.
abbrev pub try_not_equals : Scan → Scan
try_not_equals s = try_more s (λ ch. if ch == b'=' then try_equal (move s) else s)

-- `xjs_lexer_get_token_punctuator`, at a character.
unfoldable pub scan_punctuator : ℕ → Scan → Result Scan Scan
scan_punctuator ch s =
    let s₁ = move s in
    if is_single ch
    then ok (s₁)
    else (if ch == b'<'
        then ok (try_equal_then b'<' try_equal s₁)
        else (if ch == b'>'
            then ok (try_equal_then b'>' (try_equal_then b'>' try_equal) s₁)
            else (if ch == b'='
                then ok (try_equals s₁)
                else (if ch == b'!'
                    then ok (try_not_equals s₁)
                    else (if ch == b'+'
                        then ok (try_equal_or b'+' s₁)
                        else (if ch == b'-'
                            then ok (try_equal_or b'-' s₁)
                            else (if ch == b'*'
                                then ok (try_equal_then b'*' try_equal s₁)
                                else (if ch == b'%'
                                    then ok (try_equal s₁)
                                    else (if ch == b'&'
                                        then ok (try_equal_or b'&' s₁)
                                        else (if ch == b'|'
                                            then ok (try_equal_or b'|' s₁)
                                            else (if ch == b'^'
                                                then ok (try_equal s₁)
                                                else (if ch == b'/'
                                                    then ok (try_equal s₁)
                                                    else fail s))))))))))))
