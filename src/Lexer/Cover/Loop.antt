-- ===== src/Lexer/Cover/Loop.antt =====
-- The loop of the lexer, and the whole source.
use xenonjs.Base.{ℕ, ◌<◌, List, [], ◌∷◌, ◌++◌, ◌≡◌, Result, ok, fail, fault, length}
use xenonjs.Lexer.{Position, Token, begin}
use xenonjs.Lexer.Start.{Stop, unexpected, out_of_fuel, Lexing, last_of, eof_token}
use xenonjs.Lexer.Cover.{IsStuck, Lexes}

-- Where the lexer stops: behind some tokens of the source, at what begins no other.
abbrev pub Stops : List ℕ → Position → Type 0
Stops rest at =
    (ts : List Token) × (rest' : List ℕ) × (at' : Position) × Lexes rest' at' rest at ts
    × IsStuck at' rest'

-- The tokens that the loop adds are those of the source; it never lacks fuel.
abbrev LexOk : List ℕ → Position → List Token → Lexing → Type 0
LexOk rest at ts (ok (ts', s)) = (new : List Token) × (ts' ≡ ts ++ new) × Lexes [] s.at rest at new
LexOk rest at ts (fail (unexpected ln col)) = Stops rest at
LexOk rest at ts (fail out_of_fuel) = ⊥
LexOk rest at ts fault = ⊥

-- Enough fuel for what is left.
abbrev GoesOn : ℕ → (List ℕ → Position → List Token → Lexing) → Type 0
GoesOn fuel again =
    (rest : List ℕ) (at : Position) (ts : List Token)
    → length rest < fuel
    → LexOk rest at ts (again rest at ts)

-- What the lexer gives back for a source.
abbrev pub StartOk : List ℕ → Result Stop (List Token) → Type 0
StartOk src (ok ts) =
    (new : List Token) × (end : Position) × (ts ≡ new ++ (eof_token (last_of new) end ∷ []))
    × Lexes [] end src begin new
StartOk src (fail (unexpected ln col)) = Stops src begin
StartOk src (fail out_of_fuel) = ⊥
StartOk src fault = ⊥
