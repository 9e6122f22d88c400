-- ===== src/Lexer/Cover/Turns.antt =====
-- A turn of the loop: it takes a comment, or a token.
use mathlib.Core.List.{append_assoc}
use xenonjs.Base.{
  ℕ, ◌<◌, List, [], ◌∷◌, ◌++◌, ◌≡◌, inl, inr, refl, sym, ap, ◌∙◌, arith, Option, some, none, Result,
  ok, fail, fault, length,
}
use xenonjs.Lexer.{Position, Scan, Token, TokenType, advance}
use xenonjs.Lexer.Moves.{Moves, advance_all, advance_all-append}
use xenonjs.Lexer.Tokens.{OnOk, Behind, get_token-Behind}
use xenonjs.Lexer.Start.{get_token, turn, turn_with, token_or_stop, Stop, unexpected, out_of_fuel}
use xenonjs.Lexer.Cover.{
  Takes, IsPrefix, nothing, hash, IsTokenAt, IsBad, open_block, IsStuck, bad, lone_hash,
  behind_hash, Holds,
}
use xenonjs.Lexer.Cover.Stuck.{FailsOn, get_token-FailsOn}
use xenonjs.Lexer.Cover.Comments.{CommentAt, CommentOk, IsOpen, get_comment-CommentOk}

-- What a turn gives back: it has gone over a comment, or has a token.
abbrev pub TurnOk : List ℕ → Position → Result Stop (Option Token × Scan) → Type 0
TurnOk rest at (ok (none, s)) = CommentAt rest at s
TurnOk rest at (ok (some t, s)) = IsTokenAt t rest at s
TurnOk rest at (fail (unexpected ln col)) = IsStuck at rest
TurnOk rest at (fail out_of_fuel) = ⊥
TurnOk rest at fault = ⊥

Takes-then :
    {xs ys rest : List ℕ} {at : Position} {s t : Scan}
    → Takes xs rest at s
    → Takes ys s.rest s.at t
    → Takes (xs ++ ys) rest at t
Takes-then {xs} {ys} {at} {t} a b = record {
  splits = a.splits ∙ ap (λ r. xs ++ r) b.splits ∙ sym (append_assoc xs ys t.rest);
  at_is = b.at_is ∙ ap (advance_all ys) a.at_is ∙ sym (advance_all-append xs ys at);
}

Moves-Takes :
    (ch : ℕ) (rest : List ℕ) (at : Position) (s : Scan)
    → Moves (record { rest = rest; at = advance ch at; value = ch ∷ [] }) s
    → Takes s.value (ch ∷ rest) at s
Moves-Takes ch rest at s m =
    rw m.value_is (record { splits = ap (λ r. ch ∷ r) m.splits; at_is = m.at_is })

prefix-IsStuck :
    (prefix rest later : List ℕ) (at : Position)
    → IsPrefix at prefix
    → rest ≡ prefix ++ later
    → IsBad later
    → IsStuck at rest
prefix-IsStuck _ rest later at nothing e b = rw e (bad later b)
prefix-IsStuck _ rest later at (hash h) e b = rw e (behind_hash later h b)

-- A token that `get_token` finds behind what `get_comment` went over.
token-TurnOk :
    (rest : List ℕ) (at : Position) (prefix : List ℕ) (ch : ℕ) (more : List ℕ) (at₁ : Position)
    → IsPrefix at prefix
    → rest ≡ prefix ++ (ch ∷ more)
    → at₁ ≡ advance_all prefix at
    → (r : Result Scan (TokenType × Scan)) → OnOk (Behind ch more at₁) r
    → Holds (FailsOn (IsBad (ch ∷ more))) r
    → TurnOk rest at (token_or_stop at r)
token-TurnOk rest at prefix ch more at₁ p splits at_is (ok (kind, s)) h k =
    let m = h.holds in
    record {
      prefix = prefix;
      prefix_is = p;
      takes =
          Takes-then {s = record { rest = ch ∷ more; at = at₁; value = [] }}
            (record { splits = splits; at_is = at_is }) (Moves-Takes ch more at₁ s m);
      not_empty = rw (m.value_is) (omega arith);
      start_is = refl;
      end_is = refl;
    }
token-TurnOk rest at prefix ch more at₁ p splits at_is (fail s) h k =
    prefix-IsStuck prefix rest (ch ∷ more) at p splits k.holds
token-TurnOk rest at prefix ch more at₁ p splits at_is fault h k = absurd h.holds

prefix-at_end :
    (prefix : List ℕ) (rest : List ℕ) (at : Position)
    → IsPrefix at prefix
    → 0 < length rest
    → rest ≡ prefix ++ []
    → IsStuck at rest
prefix-at_end _ rest at nothing some_left e =
    absurd (let is_zero : length rest ≡ 0 = ap length e in omega arith)
prefix-at_end _ rest at (hash h) some_left e = rw e (lone_hash h)

behind-TurnOk :
    (rest : List ℕ) (at : Position) (prefix : List ℕ) (rest₁ : List ℕ) (at₁ : Position)
    → 0 < length rest
    → IsPrefix at prefix
    → rest ≡ prefix ++ rest₁
    → at₁ ≡ advance_all prefix at
    → TurnOk rest at (token_or_stop at (get_token rest₁ at₁))
unfolding get_token
behind-TurnOk rest at prefix [] at₁ left p splits at_is = prefix-at_end prefix rest at p left splits
behind-TurnOk rest at prefix (ch ∷ more) at₁ left p splits at_is =
    token-TurnOk rest at prefix ch more at₁ p splits at_is _ (get_token-Behind ch more at₁)
      (get_token-FailsOn ch more at₁)

-- At the end of the source there is no token.
end-TurnOk :
    (rest : List ℕ) (at : Position) (rest₁ : List ℕ) (at₁ : Position)
    → rest₁ ≡ []
    → IsOpen rest
    → TurnOk rest at (token_or_stop at (get_token rest₁ at₁))
unfolding get_token
end-TurnOk rest at rest₁ at₁ h (body, e, never) = rw (h, e) (bad _ (open_block body never))

turn_with-TurnOk :
    (rest : List ℕ) (at : Position) (r : Option Token × Scan)
    → 0 < length rest
    → CommentOk rest at r
    → TurnOk rest at (turn_with at r)
turn_with-TurnOk rest at (some t, s) left (inl (c, h)) = rw c h
turn_with-TurnOk rest at (some t, s) left (inr (c, h)) = rw c h
turn_with-TurnOk rest at (none, s) left (inl (prefix, p, t)) =
    behind-TurnOk rest at prefix s.rest s.at left p t.splits t.at_is
turn_with-TurnOk rest at (none, s) left (inr (h, is_open)) =
    end-TurnOk rest at s.rest s.at h is_open

pub turn-TurnOk :
    (ch : ℕ) (rest : List ℕ) (at : Position) → TurnOk (ch ∷ rest) at (turn (ch ∷ rest) at)
unfolding turn
turn-TurnOk ch rest at =
    turn_with-TurnOk (ch ∷ rest) at _ (omega arith) (get_comment-CommentOk (ch ∷ rest) at).holds
