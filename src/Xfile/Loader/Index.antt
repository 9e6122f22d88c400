-- ===== src/Xfile/Loader/Index.antt =====
-- The loader on an index of sections, and on the attributes.
use native.Mathlib.Nat.{mod-eq_of_lt}
use xenonjs.Base.{
  ℕ, suc, ◌+◌, ◌*◌, ◌^◌, ◌<◌, List, ◌∷◌, [], ◌++◌, ok, ◌≡◌, ◌∙◌, sym, refl, ap, arith, length,
  length-append, le_bytes, length-le_bytes, u32, All, Bool-cases, ==_iff, ◌==◌, inl, inr,
  if◌then◌else◌, le_value,
}
use xenonjs.Xfile.{Xfile, Sections, read_u32}
use xenonjs.Xfile.Readers.{IsLoaded}
use xenonjs.Xfile.Sits.{Sits, Sits-left, Sits-right, Sits-le, Sits-at, read_u32-Sits}
use xenonjs.Xfile.Loader.{or_leave, place, load_sections}

-- A section of a file: its type word, and what follows it.
pub record Section : Type 0 where
  pub type : ℕ
  pub rest : List ℕ

abbrev pub body : Section → List ℕ
body s = le_bytes 4 s.type ++ s.rest

abbrev pub bodies : List Section → List ℕ
bodies [] = []
bodies (s ∷ ss) = body s ++ bodies ss

-- The index: for each section its offset from the first one, and its size.
abbrev pub index : ℕ → List Section → List ℕ
index off [] = []
index off (s ∷ ss) =
    le_bytes 4 off ++ (le_bytes 4 (length (body s)) ++ index (off + length (body s)) ss)

-- The file once the sections are placed in turn.
abbrev pub place_all : ℕ → List Section → Xfile → Xfile
place_all at [] f = f
place_all at (s ∷ ss) f = place_all (at + length (body s)) ss (place s.type at f)

-- Only the table of sections changes.
place-keeps :
    (type at : ℕ) (f : Xfile)
    → ((place type at f).bc ≡ f.bc)
      × ((place type at f).len ≡ f.len)
      × ((place type at f).init_pc ≡ f.init_pc)
unfolding place
place-keeps type at f = ground arith

place-IsLoaded : (type at : ℕ) {f : Xfile} → IsLoaded f → IsLoaded (place type at f)
place-IsLoaded type at {f} loaded =
    let (same_bc, same_len, _) = place-keeps type at f in
    record {
      bytes = rw same_bc loaded.bytes;
      length_is = rw (same_bc, same_len) loaded.length_is;
      fits = rw same_len loaded.fits;
    }

pub place_all-keeps :
    (at : ℕ) (ss : List Section) (f : Xfile)
    → ((place_all at ss f).bc ≡ f.bc) × ((place_all at ss f).len ≡ f.len)
place_all-keeps at [] f = (refl, refl)
place_all-keeps at (s ∷ ss) f =
    let (same_bc, same_len, _) = place-keeps s.type at f in
    let (bc_after, len_after) = place_all-keeps (at + length (body s)) ss (place s.type at f) in
    (bc_after ∙ same_bc, len_after ∙ same_len)

pub place_all-IsLoaded :
    (at : ℕ) (ss : List Section) {f : Xfile} → IsLoaded f → IsLoaded (place_all at ss f)
place_all-IsLoaded at [] loaded = loaded
place_all-IsLoaded at (s ∷ ss) loaded =
    place_all-IsLoaded (at + length (body s)) ss (place-IsLoaded s.type at loaded)

-- A read of the loader that finds a word.
pub word :
    {f : Xfile} (i v : ℕ)
    → IsLoaded f
    → f.len + 4 < 2 ^ 32
    → Sits (le_bytes 4 v) i f.bc
    → v < 2 ^ 32
    → or_leave f (read_u32 f (u32 i)) ≡ ok v
unfolding or_leave
word {f} i v loaded small s fits =
    let inside : i < 2 ^ 32 = omega (arith, Sits-le s, loaded.length_is, length-le_bytes 4 v) in
    rw (
      mod-eq_of_lt inside,
      read_u32-Sits loaded i v (omega (arith, Sits-le s, loaded.length_is, length-le_bytes 4 v)) s
          fits,
    )

module _ (start base : ℕ) where
  -- One round of the loop.
  round :
      (s : Section) (ss : List Section) (left i off : ℕ) (f : Xfile)
      → IsLoaded f
      → f.len + 4 < 2 ^ 32
      → s.type < 2 ^ 32
      → Sits (index off (s ∷ ss)) (start + 8 * i) f.bc
      → Sits (bodies (s ∷ ss)) (base + off) f.bc
      → load_sections (suc left) i start base f
        ≡ load_sections left (suc i) start base (place s.type (base + off) f)
  unfolding load_sections
  round s ss left i off f loaded small typed entries all =
      let fits = Sits-le all in
      let size = length-append {0} (body s) (bodies ss) in
      let offset_at = Sits-left (le_bytes 4 off) _ entries in
      let size_at =
        Sits-left (le_bytes 4 (length (body s))) _ (Sits-right (le_bytes 4 off) _ entries) in
      let type_at = Sits-left (le_bytes 4 s.type) s.rest (Sits-left (body s) (bodies ss) all) in
      rw (
        word (start + 8 * i) off loaded small offset_at (omega (arith, fits, loaded.length_is)),
        word (start + 8 * i + 4) (length (body s)) loaded small size_at
            (omega (arith, fits, size, loaded.length_is)),
        word (base + off) s.type loaded small type_at typed,
        mod-eq_of_lt (in_range all),
      )
    where
      in_range : Sits (bodies (s ∷ ss)) (base + off) f.bc → base + off < 2 ^ 32
      in_range a = omega (arith, Sits-le a, loaded.length_is)

  -- The loop, from entry `i` of the index on, with the body of that section at `base + off`.
  pub load_sections-index :
      (ss : List Section) (i off : ℕ) (f : Xfile)
      → IsLoaded f
      → f.len + 4 < 2 ^ 32
      → All (λ s. s.type < 2 ^ 32) ss
      → Sits (index off ss) (start + 8 * i) f.bc
      → Sits (bodies ss) (base + off) f.bc
      → load_sections (length ss) i start base f ≡ ok (place_all (base + off) ss f)
  load_sections-index [] i off f loaded small types entries all = unfold load_sections in refl
  load_sections-index (s ∷ ss) i off f loaded small types entries all =
      let f' = place s.type (base + off) f in
      let (same_bc, same_len, _) = place-keeps s.type (base + off) f in
      let later_entries =
        Sits-right (le_bytes 4 (length (body s))) _ (Sits-right (le_bytes 4 off) _ entries) in
      let later_bodies = Sits-right (body s) (bodies ss) all in
      round s ss (length ss) i off f loaded small types.0 entries all
      ∙ load_sections-index ss (suc i) (off + length (body s)) f'
          (place-IsLoaded s.type (base + off) loaded) (omega (arith, same_len)) types.1
          (Sits-at later_entries (sym same_bc) (omega arith))
          (Sits-at later_bodies (sym same_bc) (omega arith))
      ∙ ap (λ at. ok (place_all at ss f')) (add_assoc_to base off (length (body s)))
    where
      add_assoc_to : (a b c : ℕ) → a + (b + c) ≡ a + b + c
      add_assoc_to a b c = omega arith

-- The word of four characters that a section begins with, and where the last section of that word
-- stands, if there is one.
abbrev pub type_word : List ℕ → ℕ
type_word characters = le_value characters

abbrev pub last_of : List ℕ → ℕ → List Section → ℕ → ℕ
last_of characters at [] old = old
last_of characters at (s ∷ ss) old =
    last_of characters (at + length (body s)) ss
      (if s.type == type_word characters then at else old)

-- The table of sections of a file: each known one by its name.
abbrev pub sections_at : ℕ → List Section → Sections → Sections
sections_at at ss old = record {
  text = last_of (b't' ∷ b'e' ∷ b'x' ∷ b't' ∷ []) at ss old.text;
  dat = last_of (b'd' ∷ b'a' ∷ b't' ∷ b'a' ∷ []) at ss old.dat;
  attr = last_of (b'a' ∷ b't' ∷ b't' ∷ b'r' ∷ []) at ss old.attr;
  expr = last_of (b'e' ∷ b'x' ∷ b'p' ∷ b't' ∷ []) at ss old.expr;
  impr = last_of (b'i' ∷ b'm' ∷ b'p' ∷ b't' ∷ []) at ss old.impr;
  dbg0 = last_of (b'd' ∷ b'b' ∷ b'g' ∷ b'0' ∷ []) at ss old.dbg0;
  dbi0 = last_of (b'd' ∷ b'b' ∷ b'i' ∷ b'0' ∷ []) at ss old.dbi0;
}

-- One section.
place-sections_at :
    (s : Section) (at : ℕ) (f : Xfile)
    → place s.type at f ≡ record f { sections = sections_at at (s ∷ []) f.sections }
unfolding place
place-sections_at s at f = by_type s.type
  where
    by_type :
        (t : ℕ)
        → place t at f
          ≡ record f { sections = sections_at at (record { type = t; rest = [] } ∷ []) f.sections }
    by_type t = elim (Bool-cases (t == 0x61746164)) [
      | inl h ↦ rw ((==_iff t 0x61746164).0 h) refl
      | inr h₁ ↦ elim (Bool-cases (t == 0x74786574)) [
        | inl h ↦ rw ((==_iff t 0x74786574).0 h) refl
        | inr h₂ ↦ elim (Bool-cases (t == 0x72747461)) [
          | inl h ↦ rw ((==_iff t 0x72747461).0 h) refl
          | inr h₃ ↦ elim (Bool-cases (t == 0x74707865)) [
            | inl h ↦ rw ((==_iff t 0x74707865).0 h) refl
            | inr h₄ ↦ elim (Bool-cases (t == 0x74706d69)) [
              | inl h ↦ rw ((==_iff t 0x74706d69).0 h) refl
              | inr h₅ ↦ elim (Bool-cases (t == 0x30676264)) [
                | inl h ↦ rw ((==_iff t 0x30676264).0 h) refl
                | inr h₆ ↦ elim (Bool-cases (t == 0x30696264)) [
                  | inl h ↦ rw ((==_iff t 0x30696264).0 h) refl
                  | inr h₇ ↦ rw (h₁, h₂, h₃, h₄, h₅, h₆, h₇) refl
                ]
              ]
            ]
          ]
        ]
      ]
    ]

pub place_all-sections_at :
    (at : ℕ) (ss : List Section) (f : Xfile)
    → place_all at ss f ≡ record f { sections = sections_at at ss f.sections }
place_all-sections_at at [] f = refl
place_all-sections_at at (s ∷ ss) f =
    ap (place_all (at + length (body s)) ss) (place-sections_at s at f)
    ∙ place_all-sections_at (at + length (body s)) ss
        (record f { sections = sections_at at (s ∷ []) f.sections })
