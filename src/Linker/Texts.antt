-- ===== src/Linker/Texts.antt =====
-- The annotation of the data section takes strings and symbols only.
use mathlib.Core.Path.{subst}
use xenonjs.Base.{
  ℕ, ◌+◌, List, [], ◌∷◌, true, Option, none, some, ◌≡◌, length, All, Bool-cases, Option-cases, inl,
  inr,
}
use xenonjs.Linker.{Annotation, DataItem, is_text, annotate, annotation}

-- Annotated items are of the kinds that the data section can hold.
abbrev pub Texts : Option Annotation → Type 0
Texts none = Unit
Texts (some a) = All (λ item. is_text item.kind ≡ true) a.items

pub annotate-Texts :
    (encode : List ℕ → Option (List ℕ)) (xs : List DataItem) (offset : ℕ)
    → Texts (annotate encode xs offset)
unfolding annotate annotation
annotate-Texts encode [] offset = tt
annotate-Texts encode (x ∷ xs) offset = elim (Bool-cases (is_text x.kind)) [
  | inr other ↦ rw other tt
  | inl kind ↦ elim (Option-cases (encode x.value)) [
    | inl failed ↦ rw (kind, failed) tt
    | inr (bytes, got) ↦
        let next = offset + (2 + 4 + length bytes + 1) in
        elim (Option-cases (annotate encode xs next)) [
          | inl failed ↦ rw (kind, got, failed) tt
          | inr (a, e) ↦
              let later : Texts (some a) = subst Texts e (annotate-Texts encode xs next) in
              rw (kind, got, e) (kind, later)
        ]
  ]
]
