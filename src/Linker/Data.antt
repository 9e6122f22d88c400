-- ===== src/Linker/Data.antt =====
-- The data section: what the compiler annotates and writes, the runtime finds at the offsets of
-- the annotation.
use mathlib.Core.Option.{some-injective}
use mathlib.Core.Path.{subst}
use native.Mathlib.Nat.{mod-eq_of_lt}
use xenonjs.Base.{
  ℕ, ◌+◌, ◌<◌, ◌^◌, List, [], ◌∷◌, ◌++◌, Option, none, some, ok, ◌≡◌, refl, arith, length, u32, All,
  Bool-cases, Option-cases, inl, inr, ◌==◌, if◌then◌else◌, sym, ap, ◌∙◌,
}
use xenonjs.Linker.{DataItem, Annotated, Annotation, annotate, annotation, is_text, signature_data}
use xenonjs.Linker.Texts.{Texts, annotate-Texts}
use xenonjs.Linker.Bytes.{items_bytes}
use xenonjs.Text.Translate.{find}
use xenonjs.Xfile.{Xfile}
use xenonjs.Xfile.Readers.{IsLoaded}
use xenonjs.Xfile.Sits.{Sits, Sits-right, Sits-at}
use xenonjs.Linker.Items.{AnnotatedAt, annotate-AnnotatedAt, read_item, IsFound, IsFound-All}

-- The item that a dataid stands for: a map keeps what is inserted first.
abbrev pub first_item : List DataItem → ℕ → Option DataItem
first_item [] dataid = none
first_item (x ∷ xs) dataid = if dataid == x.dataid then some x else first_item xs dataid

-- The map of the annotation leads from a dataid to an annotated item with what holds of all.
module _ (encode : List ℕ → Option (List ℕ)) (P : Annotated → Type 0) where
  abbrev AllLead : List DataItem → Option Annotation → Type 0
  AllLead xs none = Unit
  AllLead xs (some a) =
      All P a.items
      → (x : DataItem) (dataid : ℕ) → first_item xs dataid ≡ some x
      → (y : Annotated) × (find a.offsets dataid ≡ some (u32 y.offset))
        × (y.kind ≡ x.kind)
        × (encode x.value ≡ some y.content)
        × P y

  annotate-AllLead : (xs : List DataItem) (offset : ℕ) → AllLead xs (annotate encode xs offset)
  unfolding annotate annotation find
  annotate-AllLead [] offset = λ h x dataid e. absurd (none_some x e)
    where
      none_some : (x : DataItem) → ¬ (◌≡◌ {A = Option DataItem} none (some x))
      none_some x e = cc
  annotate-AllLead (x ∷ xs) offset = elim (Bool-cases (is_text x.kind)) [
    | inr other ↦ rw other tt
    | inl kind ↦ elim (Option-cases (encode x.value)) [
      | inl failed ↦ rw (kind, failed) tt
      | inr (bytes, got) ↦
          let next = offset + (2 + 4 + length bytes + 1) in
          let item : Annotated = record {
            kind = x.kind;
            dataid = x.dataid;
            offset = offset;
            content = bytes;
          } in
          elim (Option-cases (annotate encode xs next)) [
            | inl failed ↦ rw (kind, got, failed) tt
            | inr (a, e) ↦
                let later : AllLead xs (some a) = subst (AllLead xs) e (annotate-AllLead xs next) in
                rw (kind, got, e)
                  (λ h z dataid found. elim (Bool-cases (dataid == x.dataid)) [
                    | inl same ↦
                        let is_x : x ≡ z = some-injective x z (
                          sym (ap (λ t. if t then some x else first_item xs dataid) same)
                          ∙ found) in
                        (
                          item,
                          rw (find, same) refl,
                          ap (λ (t : DataItem). t.kind) is_x,
                          subst (λ (t : DataItem). encode t.value ≡ some bytes) is_x got,
                          h.0,
                        )
                    | inr other ↦
                        let elsewhere =
                          sym (ap (λ t. if t then some x else first_item xs dataid) other)
                          ∙ found in
                        let (y, at, k, content, p) = later h.1 z dataid elsewhere in
                        (y, rw (find, other) at, k, content, p)
                  ])
          ]
    ]
  ]

-- What a dataid leads to: by the offset that the map has for it the reader of the item's kind
-- finds the encoding of the item's text.
pub record IsReached (encode : List ℕ → Option (List ℕ)) (f : Xfile) (a : Annotation) (x : DataItem)
    (dataid : ℕ) : Type 0 where
  pub offset : ℕ
  pub position : ℕ
  pub content : List ℕ
  pub offset_is : find a.offsets dataid ≡ some offset
  pub content_is : encode x.value ≡ some content
  pub reads : read_item x.kind f offset ≡ ok (record { position = position; size = length content })
  pub text_there : Sits content position f.bc

-- In a loaded file of fewer than 2^32 - 4 bytes whose data section holds the signature and the
-- annotated items, for the first item of a dataid, the map of the annotation gives an offset for
-- the dataid, at which the reader for the kind of the item finds it with its length, and its
-- encoded text stands at the position found.
pub read_item-annotate :
    (encode : List ℕ → Option (List ℕ)) (items : List DataItem) (a : Annotation) (f : Xfile)
    (x : DataItem) (dataid : ℕ)
    → annotate encode items 0 ≡ some a
    → IsLoaded f
    → f.len + 4 < 2 ^ 32
    → Sits (signature_data ++ items_bytes a.items) f.sections.dat f.bc
    → first_item items dataid ≡ some x
    → IsReached encode f a x dataid
read_item-annotate encode items a f x dataid annotated loaded small s first =
    let texts : Texts (some a) = subst Texts annotated (annotate-Texts encode items 0) in
    let at : AnnotatedAt (f.sections.dat + 4) 0 f.bc (some a) =
      subst (AnnotatedAt (f.sections.dat + 4) 0 f.bc) annotated
        (annotate-AnnotatedAt encode (f.sections.dat + 4) f.bc items 0) in
    let found =
      IsFound-All f a.items loaded small texts
        (at (Sits-at (Sits-right signature_data (items_bytes a.items) s) refl (omega arith))) in
    let leads : AllLead encode (IsFound f) items (some a) =
      subst (AllLead encode (IsFound f) items) annotated
        (annotate-AllLead encode (IsFound f) items 0) in
    let (y, at_y, kind, content, is) = leads found x dataid first in
    record {
      offset = y.offset;
      position = is.position;
      content = y.content;
      offset_is = at_y ∙ ap some (mod-eq_of_lt is.near);
      content_is = content;
      reads = ap (λ k. read_item k f y.offset) (sym kind) ∙ is.reads;
      text_there = is.text_there;
    }
