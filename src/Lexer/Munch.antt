-- ===== src/Lexer/Munch.antt =====
-- Identifiers: how far they go, and how they are compared with a word.
use mathlib.Core.List.{append_assoc, append-nil}
use xenonjs.Base.{
  ℕ, List, [], ◌∷◌, ◌++◌, Bool, true, false, ◌≡◌, ◌↔◌, ◌∙◌, refl, sym, ap, All, arith, length, ◌==◌,
  if◌then◌else◌,
}
use xenonjs.Lexer.{Position, Scan, advance, is_id_continue}
use xenonjs.Lexer.Scanners.{scan_while, scan_identifier}
use xenonjs.Lexer.Words.{same_chars, match_with}

-- The source is at its end or at a character that is not of the class.
abbrev pub Stops : (ℕ → Bool) → List ℕ → Type 0
Stops p [] = Unit
Stops p (ch ∷ rest) = p ch ≡ false

-- The longest run of a class: what it adds to the value is what it takes from the source.
pub record IsLongest (p : ℕ → Bool) (rest : List ℕ) (value : List ℕ) (s : Scan) : Type 0 where
  pub run : List ℕ
  pub splits : rest ≡ run ++ s.rest
  pub value_is : s.value ≡ value ++ run
  pub all : All (λ ch. p ch ≡ true) run
  pub stops : Stops p s.rest

IsLongest-if :
    {p : ℕ → Bool} {rest value : List ℕ} (t : Bool) {u v : Scan}
    → (t ≡ true → IsLongest p rest value u)
    → (t ≡ false → IsLongest p rest value v)
    → IsLongest p rest value (if t then u else v)
IsLongest-if true h k = h refl
IsLongest-if false h k = k refl

IsLongest-char :
    (p : ℕ → Bool) (ch : ℕ) (rest value : List ℕ) (s : Scan)
    → p ch ≡ true
    → IsLongest p rest (value ++ (ch ∷ [])) s
    → IsLongest p (ch ∷ rest) value s
IsLongest-char p ch rest value s h l = record {
  run = ch ∷ l.run;
  splits = ap (λ r. ch ∷ r) l.splits;
  value_is = l.value_is ∙ append_assoc value (ch ∷ []) l.run;
  all = (h, l.all);
  stops = l.stops;
}

scan_while-IsLongest :
    (p : ℕ → Bool) (rest : List ℕ) (at : Position) (value : List ℕ)
    → IsLongest p rest value (scan_while p rest at value)
unfolding scan_while
scan_while-IsLongest p [] at value = record {
  run = [];
  splits = refl;
  value_is = sym (append-nil value);
  all = tt;
  stops = tt;
}
scan_while-IsLongest p (ch ∷ rest) at value =
    IsLongest-if (p ch)
      (λ h.
        IsLongest-char p ch rest value _ h
          (scan_while-IsLongest p rest (advance ch at) (value ++ (ch ∷ []))))
      (λ h. record {
        run = [];
        splits = refl;
        value_is = sym (append-nil value);
        all = tt;
        stops = h;
      })

-- The scanner of identifiers takes its first character and the longest run of identifier
-- characters behind it.
pub scan_identifier-IsLongest :
    (ch : ℕ) (rest : List ℕ) (at : Position)
    → IsLongest is_id_continue rest
        (ch ∷ [])
        (scan_identifier (record { rest = ch ∷ rest; at = at; value = [] }))
unfolding scan_identifier
scan_identifier-IsLongest ch rest at =
    scan_while-IsLongest is_id_continue rest (advance ch at) (ch ∷ [])

-- Both parts of a test that is written as a guard.
guard-true : (t b : Bool) → (if t then b else false) ≡ true → (t ≡ true) × (b ≡ true)
guard-true true b h = (refl, h)
guard-true false b h = cc

same_chars-eq : (s word : List ℕ) → length word ≡ length s → same_chars s word ≡ true → s ≡ word
unfolding same_chars
same_chars-eq [] [] e h = refl
same_chars-eq [] (y ∷ ys) e h = absurd (omega arith)
same_chars-eq (x ∷ xs) [] e h = cc
same_chars-eq (x ∷ xs) (y ∷ ys) e h =
    let (same, rest) = guard-true (x == y) _ h in
    let head : x ≡ y = ground arith in
    let tail : xs ≡ ys = same_chars-eq xs ys (omega arith) rest in cc

same_chars_refl : (s : List ℕ) → same_chars s s ≡ true
unfolding same_chars
same_chars_refl [] = refl
same_chars_refl (x ∷ xs) = let same : (x == x) ≡ true = ground arith in rw same (same_chars_refl xs)

-- The comparison of a string with a word is true just when they are equal.
pub match_with_iff : (s word : List ℕ) → (match_with s word ≡ true) ↔ (s ≡ word)
match_with_iff s word = (
  (λ h.
      let (same, rest) = guard-true (length word == length s) _ h in
      same_chars-eq s word (ground arith) rest),
  (λ e.
      let same : (length word == length s) ≡ true = rw e (ground arith) in
      rw same (rw e (same_chars_refl word))),
)
