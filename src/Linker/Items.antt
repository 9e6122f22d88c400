-- ===== src/Linker/Items.antt =====
-- rts/src/xjr_x.c: the reader of an item of the data section, where the item sits.
use mathlib.Core.Path.{subst}
use native.Mathlib.Nat.{mod-eq_of_lt}
use xenonjs.Base.{
  ℕ, ◌+◌, ◌<◌, ◌^◌, List, [], ◌∷◌, ◌++◌, Option, none, some, ok, ◌≡◌, refl, true, arith, length,
  le_bytes, length-append, u32, All, Bool-cases, Option-cases, inl, inr, ◌==◌, le→ltb,
}
use xenonjs.Linker.{
  Kind, string, symbol, f32, f64, DataItem, Annotated, Annotation, annotate, annotation, is_text,
}
use xenonjs.Linker.Bytes.{item_bytes, items_bytes, kind_word}
use xenonjs.Xfile.{
  Xfile, Read, Item, read_datasec_item, read_datasec_body, read_symbol, read_string,
}
use xenonjs.Xfile.Readers.{IsLoaded}
use xenonjs.Xfile.Sits.{Sits, Sits-left, Sits-right, Sits-at, Sits-le, read_u32-Sits, read_u16-Sits}

-- Each item stands at its offset from a base.
abbrev pub AreAt : ℕ → List ℕ → List Annotated → Type 0
AreAt base whole items = All (λ item. Sits (item_bytes item) (base + item.offset) whole) items

abbrev pub AnnotatedAt : ℕ → ℕ → List ℕ → Option Annotation → Type 0
AnnotatedAt base offset whole none = Unit
AnnotatedAt base offset whole (some a) =
    Sits (items_bytes a.items) (base + offset) whole → AreAt base whole a.items

length-item : (x : Annotated) → length (item_bytes x) ≡ 2 + 4 + length x.content + 1
length-item x = omega (arith, length-append {0} x.content (0 ∷ []))

pub annotate-AnnotatedAt :
    (encode : List ℕ → Option (List ℕ)) (base : ℕ) (whole : List ℕ) (xs : List DataItem)
    (offset : ℕ)
    → AnnotatedAt base offset whole (annotate encode xs offset)
unfolding annotate annotation
annotate-AnnotatedAt encode base whole [] offset = λ s. tt
annotate-AnnotatedAt encode base whole (x ∷ xs) offset = elim (Bool-cases (is_text x.kind)) [
  | inr other ↦ rw other tt
  | inl kind ↦ elim (Option-cases (encode x.value)) [
    | inl failed ↦ rw (kind, failed) tt
    | inr (bytes, got) ↦
        let next = offset + (2 + 4 + length bytes + 1) in
        let item : Annotated = record {
          kind = x.kind;
          dataid = x.dataid;
          offset = offset;
          content = bytes;
        } in
        elim (Option-cases (annotate encode xs next)) [
          | inl failed ↦ rw (kind, got, failed) tt
          | inr (a, e) ↦
              let later : AnnotatedAt base next whole (some a) =
                subst (AnnotatedAt base next whole) e
                  (annotate-AnnotatedAt encode base whole xs next) in
              rw (kind, got, e)
                (λ s. (
                  Sits-left (item_bytes item) (items_bytes a.items) s,
                  later (
                      Sits-at (Sits-right (item_bytes item) (items_bytes a.items) s) refl
                        (omega (arith, length-item item))),
                ))
        ]
  ]
]

-- The reader for an item of a kind.
abbrev pub read_item : Kind → Xfile → ℕ → Read Item
read_item string = read_string
read_item _ = read_symbol

-- Type, length, body and NUL at a place of the data section, as the reader finds them.
read_datasec_item-Sits :
    (f : Xfile) (offset k : ℕ) (content : List ℕ)
    → IsLoaded f
    → f.len + 4 < 2 ^ 32
    → k < 2 ^ 16
    → Sits
        (le_bytes 2 k ++ (le_bytes 4 (u32 (length content)) ++ (content ++ (0 ∷ []))))
        (f.sections.dat + 4 + offset)
        f.bc
    → read_datasec_item f offset k
      ≡ ok (record { position = f.sections.dat + 4 + offset + 2 + 4; size = length content })
unfolding read_datasec_item read_datasec_body
read_datasec_item-Sits f offset k content loaded small fits s =
    let at = f.sections.dat + 4 + offset in
    let n = u32 (length content) in
    let s₁ = Sits-right (le_bytes 2 k) (le_bytes 4 n ++ (content ++ (0 ∷ []))) s in
    let s₂ = Sits-right (le_bytes 4 n) (content ++ (0 ∷ [])) s₁ in
    let end = Sits-le s₂ in
    let long = length-append {0} content (0 ∷ []) in
    let inside : at + 2 + 4 + length content < 2 ^ 32 = omega (arith, loaded.length_is) in
    let in₀ : at < 2 ^ 32 = omega arith in
    let in₁ : at + 2 < 2 ^ 32 = omega arith in
    let in₂ : at + 2 + 4 < 2 ^ 32 = omega arith in
    let short : length content < 2 ^ 32 = omega arith in
    let same : (k == k) ≡ true = ground arith in
    rw (
      mod-eq_of_lt in₀,
      read_u16-Sits loaded at k (omega arith) (Sits-left (le_bytes 2 k) _ s) fits,
      same,
      mod-eq_of_lt in₁,
      read_u32-Sits loaded (at + 2) n (omega arith) (Sits-left (le_bytes 4 n) _ s₁) (omega arith),
      mod-eq_of_lt in₂,
      mod-eq_of_lt short,
      mod-eq_of_lt inside,
      le→ltb (at + 2 + 4 + length content) f.len (omega (arith, loaded.length_is)),
    )

-- An item is found at its offset in the data section.
read_item-Sits :
    (f : Xfile) (x : Annotated)
    → IsLoaded f
    → f.len + 4 < 2 ^ 32
    → is_text x.kind ≡ true
    → Sits (item_bytes x) (f.sections.dat + 4 + x.offset) f.bc
    → read_item x.kind f x.offset
      ≡ ok (record { position = f.sections.dat + 4 + x.offset + 2 + 4; size = length x.content })
unfolding read_symbol read_string
read_item-Sits f x loaded small text s = by_kind x.kind text s
  where
    by_kind :
        (k : Kind)
        → is_text k ≡ true
        → Sits
            (le_bytes 2 (kind_word k)
              ++ (le_bytes 4 (u32 (length x.content)) ++ (x.content ++ (0 ∷ []))))
            (f.sections.dat + 4 + x.offset)
            f.bc
        → read_item k f x.offset
          ≡ ok
              (record { position = f.sections.dat + 4 + x.offset + 2 + 4; size = length x.content })
    by_kind string h s = read_datasec_item-Sits f x.offset 1 x.content loaded small (omega arith) s
    by_kind symbol h s = read_datasec_item-Sits f x.offset 2 x.content loaded small (omega arith) s
    by_kind f32 h s = cc
    by_kind f64 h s = cc

content-Sits :
    (i k : ℕ) (content whole : List ℕ)
    → Sits (le_bytes 2 k ++ (le_bytes 4 (u32 (length content)) ++ (content ++ (0 ∷ [])))) i whole
    → Sits content (i + 2 + 4) whole
content-Sits i k content whole s =
    let n = u32 (length content) in
    Sits-left content (0 ∷ []) (
      Sits-right (le_bytes 4 n) (content ++ (0 ∷ []))
        (Sits-right (le_bytes 2 k) (le_bytes 4 n ++ (content ++ (0 ∷ []))) s))

-- The reader of its kind finds an item by its offset, and its text stands where the reader says.
pub record IsFound (f : Xfile) (x : Annotated) : Type 0 where
  pub near : x.offset < 2 ^ 32
  pub position : ℕ
  pub reads :
      read_item x.kind f x.offset ≡ ok (record { position = position; size = length x.content })
  pub text_there : Sits x.content position f.bc

pub IsFound-All :
    (f : Xfile) (items : List Annotated)
    → IsLoaded f
    → f.len + 4 < 2 ^ 32
    → All (λ item. is_text item.kind ≡ true) items
    → AreAt (f.sections.dat + 4) f.bc items
    → All (IsFound f) items
IsFound-All f [] loaded small texts places = tt
IsFound-All f (x ∷ items) loaded small texts places = (
  record {
    near = omega (arith, Sits-le places.0, loaded.length_is);
    position = f.sections.dat + 4 + x.offset + 2 + 4;
    reads = read_item-Sits f x loaded small texts.0 places.0;
    text_there =
        content-Sits (f.sections.dat + 4 + x.offset) (kind_word x.kind) x.content f.bc places.0;
  },
  IsFound-All f items loaded small texts.1 places.1,
)
