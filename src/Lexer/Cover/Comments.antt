-- ===== src/Lexer/Cover/Comments.antt =====
-- The scanner of comments, in each case.
use mathlib.Core.Path.{subst}
use xenonjs.Base.{
  ℕ, List, [], ◌∷◌, Bool, true, false, ◌&&◌, ◌==◌, ◌≡◌, ◌⊎◌, ◌++◌, inl, inr, refl, arith, Option,
  some, none, if◌then◌else◌,
}
use xenonjs.Lexer.{Position, Scan, Token, comment, punctuator, advance}
use xenonjs.Lexer.Comments.{skip_line, get_comment_slash, get_shebang, get_comment, token_of}
use xenonjs.Lexer.Start.{is_comment}
use xenonjs.Lexer.Cover.{
  Takes, IsComment, line, shebang, block, IsFirst, NeverCloses, IsPrefix, nothing, hash, IsTokenAt,
  Holds, Holds-if,
}
use xenonjs.Lexer.Cover.Gaps.{
  Takes-nothing, Takes-char, skip_line-Runs, BlockEnds, skip_block-BlockEnds, NoClose,
  NoClose-NeverCloses,
}

-- A comment at a place, with the state behind it.
abbrev pub CommentAt : List ℕ → Position → Scan → Type 0
CommentAt rest at s = (text : List ℕ) × IsComment text × Takes text rest at s

-- A block comment that is not closed.
abbrev pub IsOpen : List ℕ → Type 0
IsOpen rest = (body : List ℕ) × (rest ≡ b'/' ∷ b'*' ∷ body) × NeverCloses body

-- What `get_comment` gives back: a comment, a token, or nothing. Then it may have gone over a
-- lone `#`, or over a block comment that is not closed, up to the end.
abbrev pub CommentOk : List ℕ → Position → Option Token × Scan → Type 0
CommentOk rest at (some t, s) =
    ((is_comment t.kind ≡ true) × CommentAt rest at s)
    ⊎ ((is_comment t.kind ≡ false) × IsTokenAt t rest at s)
CommentOk rest at (none, s) =
    ((prefix : List ℕ) × IsPrefix at prefix × Takes prefix rest at s)
    ⊎ ((s.rest ≡ []) × IsOpen rest)

line-CommentAt :
    (rest : List ℕ) (at : Position)
    → CommentAt (b'/' ∷ b'/' ∷ rest) at (skip_line (b'/' ∷ rest) (advance b'/' at))
unfolding skip_line
line-CommentAt rest at =
    let (body, all, t) = (skip_line-Runs rest (advance b'/' (advance b'/' at))).holds in
    (b'/' ∷ b'/' ∷ body, line body all, Takes-char b'/' (Takes-char b'/' t))

shebang-CommentAt :
    (rest : List ℕ) (at : Position)
    → CommentAt (b'#' ∷ b'!' ∷ rest) at (skip_line (b'!' ∷ rest) (advance b'#' at))
unfolding skip_line
shebang-CommentAt rest at =
    let (body, all, t) = (skip_line-Runs rest (advance b'!' (advance b'#' at))).holds in
    (b'#' ∷ b'!' ∷ body, shebang body all, Takes-char b'#' (Takes-char b'!' t))

-- A block comment that is closed, or one that is not.
block-CommentOk :
    (rest : List ℕ) (at : Position) (r : Bool × Scan)
    → BlockEnds false rest (advance b'*' (advance b'/' at)) r
    → CommentOk
        (b'/' ∷ b'*' ∷ rest)
        at
        (if r.0 then some (token_of comment [] at r.1.at) else none, r.1)
block-CommentOk rest at (true, s) (taken, inl (never, e), t) = cc
block-CommentOk rest at (true, s) (taken, inr (body, e, n), t) =
    let never : NeverCloses (body ++ (b'*' ∷ [])) =
      (λ front back split. NoClose-NeverCloses false front back (subst (NoClose false) split n)) in
    inl (refl, (b'/' ∷ b'*' ∷ taken, rw e (block body never), Takes-char b'/' (Takes-char b'*' t)))
block-CommentOk rest at (false, s) (e, h) = inr (
  e,
  (
    rest,
    refl,
    λ front back split. NoClose-NeverCloses false front back (subst (NoClose false) split h),
  ),
)

-- A punctuator that begins with a slash.
slash-IsTokenAt :
    (rest : List ℕ) (at : Position)
    → IsTokenAt
        (token_of punctuator (b'/' ∷ []) at (advance b'/' at))
        (b'/' ∷ rest)
        at
        (record { rest = rest; at = advance b'/' at; value = [] })
slash-IsTokenAt rest at = record {
  prefix = [];
  prefix_is = nothing;
  takes = record { splits = refl; at_is = refl };
  not_empty = omega arith;
  start_is = refl;
  end_is = refl;
}

slash_equal-IsTokenAt :
    (rest : List ℕ) (at : Position)
    → let end = advance b'=' (advance b'/' at) in
      IsTokenAt
        (token_of punctuator (b'/' ∷ b'=' ∷ []) at end)
        (b'/' ∷ b'=' ∷ rest)
        at
        (record { rest = rest; at = end; value = [] })
slash_equal-IsTokenAt rest at = record {
  prefix = [];
  prefix_is = nothing;
  takes = record { splits = refl; at_is = refl };
  not_empty = omega arith;
  start_is = refl;
  end_is = refl;
}

slash-CommentOk :
    (rest : List ℕ) (at : Position)
    → Holds (CommentOk (b'/' ∷ rest) at) (get_comment_slash at rest (advance b'/' at))
unfolding get_comment_slash
slash-CommentOk [] at = record { holds = inr (refl, slash-IsTokenAt [] at) }
slash-CommentOk (ch ∷ rest) at =
    Holds-if (ch == b'/')
      (λ h.
        let e : ch ≡ b'/' = ground arith in
        rw e (record { holds = inl (refl, line-CommentAt rest at) }))
      (λ _.
        Holds-if (ch == b'=')
          (λ h.
            let e : ch ≡ b'=' = ground arith in
            rw e (record { holds = inr (refl, slash_equal-IsTokenAt rest at) }))
          (λ _.
            Holds-if (ch == b'*')
              (λ h.
                let e : ch ≡ b'*' = ground arith in
                rw e (record {
                  holds = block-CommentOk rest at _ (skip_block-BlockEnds false rest _).holds;
                }))
              (λ _. record { holds = inr (refl, slash-IsTokenAt (ch ∷ rest) at) })))

hash-CommentOk :
    (rest : List ℕ) (at : Position)
    → IsFirst at
    → Holds (CommentOk (b'#' ∷ rest) at) (get_shebang at rest (advance b'#' at))
unfolding get_shebang
hash-CommentOk [] at is_first = record {
  holds = inl (b'#' ∷ [], hash is_first, Takes-char b'#' (Takes-nothing [] (advance b'#' at)));
}
hash-CommentOk (ch ∷ rest) at is_first =
    Holds-if (ch == b'!')
      (λ h.
        let e : ch ≡ b'!' = ground arith in
        rw e (record { holds = inl (refl, shebang-CommentAt rest at) }))
      (λ _. record {
        holds = inl (
          b'#' ∷ [],
          hash is_first,
          Takes-char b'#' (Takes-nothing (ch ∷ rest) (advance b'#' at)),
        );
      })

line-IsFirst : (b : Bool) (at : Position) → b && at.ln == 1 && at.col == 0 ≡ true → IsFirst at
line-IsFirst true at h = (ground arith, ground arith)
line-IsFirst false at h = cc

pub get_comment-CommentOk :
    (rest : List ℕ) (at : Position) → Holds (CommentOk rest at) (get_comment rest at)
unfolding get_comment
get_comment-CommentOk [] at = record { holds = inl ([], nothing, Takes-nothing [] at) }
get_comment-CommentOk (ch ∷ rest) at =
    Holds-if (ch == b'/') (λ h. let e : ch ≡ b'/' = ground arith in rw e (slash-CommentOk rest at))
      (λ _.
        Holds-if (ch == b'#' && at.ln == 1 && at.col == 0)
          (λ h.
            let e : ch ≡ b'#' = ground arith in
            rw e (hash-CommentOk rest at (line-IsFirst (ch == b'#') at h)))
          (λ _. record { holds = inl ([], nothing, Takes-nothing (ch ∷ rest) at) }))
