-- ===== src/Xfile/Loader/Image.antt =====
-- The loader on a whole file.
use mathlib.Core.List.{append-nil}
use mathlib.Core.Path.{subst}
use native.Mathlib.Nat.{mod-eq_of_lt, add-zero}
use xenonjs.Base.{
  ℕ, ◌+◌, ◌*◌, ◌^◌, ◌<◌, List, ◌∷◌, [], ◌++◌, ok, ◌≡◌, ◌∙◌, ap, sym, refl, arith, length,
  length-append, le_bytes, length-le_bytes, u32, All,
}
use xenonjs.Xfile.{Xfile, read_u32, read_u16, byte_at, xfile_init}
use xenonjs.Xfile.Readers.{IsLoaded, IsBytes}
use xenonjs.Xfile.Sits.{Sits, Sits-left, Sits-right, Sits-le, Sits-at, read_u32-Sits, read_u16-Sits}
use xenonjs.Xfile.Loader.{
  or_leave, load_attr, load_attrs, load_attributes, verify_signature, verify_platform,
  verify_sdk_version, load,
}
use xenonjs.Xfile.Loader.Index.{
  Section, bodies, index, place_all, place_all-keeps, sections_at, place_all-sections_at,
  place_all-IsLoaded, load_sections-index, word,
}

-- An attribute section with the one attribute that says where the program starts.
abbrev pub toplevel_attr : ℕ → List ℕ
toplevel_attr pc =
    le_bytes 4 0x72747461 ++ (le_bytes 4 1 ++ (le_bytes 4 0 ++ (le_bytes 2 1 ++ le_bytes 4 pc)))

half_word :
    {f : Xfile} (i v : ℕ)
    → IsLoaded f
    → f.len + 4 < 2 ^ 32
    → Sits (le_bytes 2 v) i f.bc
    → v < 2 ^ 16
    → or_leave f (read_u16 f (u32 i)) ≡ ok v
unfolding or_leave
half_word {f} i v loaded small s fits =
    let inside : i < 2 ^ 32 = omega (arith, Sits-le s, loaded.length_is, length-le_bytes 2 v) in
    rw (
      mod-eq_of_lt inside,
      read_u16-Sits loaded i v (omega (arith, Sits-le s, loaded.length_is, length-le_bytes 2 v)) s
          fits,
    )

load_attributes-toplevel :
    (f : Xfile) (pc : ℕ)
    → IsLoaded f
    → f.len + 4 < 2 ^ 32
    → Sits (toplevel_attr pc) f.sections.attr f.bc
    → pc < 2 ^ 32
    → load_attributes f ≡ ok (record f { init_pc = pc })
unfolding load_attributes load_attrs load_attr
load_attributes-toplevel f pc loaded small s fits =
    let a = f.sections.attr in
    let s₁ = Sits-right (le_bytes 4 0x72747461) _ s in
    let s₂ = Sits-right (le_bytes 4 1) _ s₁ in
    let s₃ = Sits-right (le_bytes 4 0) _ s₂ in
    let s₄ = Sits-right (le_bytes 2 1) (le_bytes 4 pc) s₃ in
    rw (
      word (a + 4) 1 loaded small (Sits-left (le_bytes 4 1) _ s₁) (omega arith),
      word (a + 4 + 4 + 0) 0 loaded small
          (Sits-at (Sits-left (le_bytes 4 0) _ s₂) refl (omega arith)) (omega arith),
      half_word (a + 4 + 4 + 4 * 1 + 0) 1 loaded small
          (Sits-at (Sits-left (le_bytes 2 1) _ s₃) refl (omega arith)) (omega arith),
      word (a + 4 + 4 + 4 * 1 + 0 + 2) pc loaded small (Sits-at s₄ refl (omega arith)) fits,
    )

-- The eight bytes that the loader asks for.
abbrev pub header : List ℕ
header = 0x78 ∷ 0x6a ∷ 0x73 ∷ 0x00 ∷ 0x01 ∷ 0x00 ∷ 0x01 ∷ 0x00 ∷ []

module _ (old : Xfile) (tail : List ℕ) where
  abbrev given : Xfile
  given = record old { bc = header ++ tail; len = length (header ++ tail) }

  header-IsVerified :
      (verify_signature given ≡ ok tt)
      × (verify_platform given ≡ ok tt)
      × (verify_sdk_version given ≡ ok tt)
  unfolding verify_signature verify_platform verify_sdk_version byte_at
  header-IsVerified = ground arith

  read_count :
      (n : ℕ)
      → IsLoaded given
      → Sits (le_bytes 4 n) 8 (header ++ tail)
      → length (header ++ tail) + 4 < 2 ^ 32
      → n < 2 ^ 32
      → or_leave (xfile_init given) (read_u32 given 8) ≡ ok n
  unfolding or_leave
  read_count n loaded s small fits = rw (read_u32-Sits loaded 8 n (omega arith) s fits)

pub Sits-whole : (bytes : List ℕ) → Sits bytes 0 bytes
Sits-whole bytes = record {
  front = [];
  back = [];
  whole_is = sym (append-nil bytes);
  front_is = refl;
}

pub length-index : (off : ℕ) (ss : List Section) → length (index off ss) ≡ 8 * length ss
length-index off [] = refl
length-index off (s ∷ ss) =
    omega (arith, length-index (off + length (le_bytes 4 s.type ++ s.rest)) ss)

-- The file of some sections as the loader has it: the table of sections says where they begin.
abbrev pub loaded_image : Xfile → List Section → Xfile
loaded_image old ss =
    let bc = header ++ (le_bytes 4 (length ss) ++ (index 0 ss ++ bodies ss)) in
    record old {
      bc = bc;
      len = length bc;
      sections = sections_at (12 + 8 * length ss) ss old.sections;
    }

-- A file of fewer than 2^32 - 4 bytes, of a header, a section index that counts and measures its
-- sections, and the sections, with one attribute section where the table of sections has it, is
-- loaded: each place of the table has the first byte of the last section of its type, as
-- `loaded_image` says, and the program starts at the toplevel.
pub load-image :
    (old : Xfile) (ss : List Section) (pc : ℕ)
    → let tail = le_bytes 4 (length ss) ++ (index 0 ss ++ bodies ss) in
      let bc = header ++ tail in
      let f = loaded_image old ss in
      IsBytes bc
      → length bc + 4 < 2 ^ 32
      → All (λ s. s.type < 2 ^ 32) ss
      → Sits (toplevel_attr pc) f.sections.attr bc
      → pc < 2 ^ 32
      → load old bc (length bc) ≡ ok (record f { init_pc = pc })
unfolding load
load-image old ss pc bytes small types attr fits =
    let tail = le_bytes 4 (length ss) ++ (index 0 ss ++ bodies ss) in
    let n = length ss in
    let f = given old tail in
    let g = place_all (12 + 8 * n) ss f in
    let same : g ≡ loaded_image old ss = place_all-sections_at (12 + 8 * n) ss f in
    let attr' : Sits (toplevel_attr pc) g.sections.attr (header ++ tail) =
      subst (λ (h : Xfile). Sits (toplevel_attr pc) h.sections.attr (header ++ tail)) (sym same)
        attr in
    let (v₁, v₂, v₃) = header-IsVerified old tail in
    let loaded : IsLoaded f = record { bytes = bytes; length_is = refl; fits = omega arith } in
    let s₁ = Sits-right header tail (Sits-whole (header ++ tail)) in
    let s₂ = Sits-right (le_bytes 4 n) (index 0 ss ++ bodies ss) s₁ in
    let s₃ = Sits-right (index 0 ss) (bodies ss) s₂ in
    rw
      (
        v₁,
        v₂,
        v₃,
        read_count old tail n loaded (Sits-at (Sits-left (le_bytes 4 n) _ s₁) refl refl) small (
            omega
              (arith, Sits-le s₂, length-append {0} (index 0 ss) (bodies ss), length-index 0 ss)),
        load_sections-index 12 (12 + 8 * n) ss 0 0 f loaded small types
            (Sits-at (Sits-left (index 0 ss) (bodies ss) s₂) refl refl)
            (Sits-at s₃ refl (omega (arith, length-index 0 ss))),
        add-zero,
      )
      (load_attributes-toplevel (place_all (12 + 8 * n) ss f) pc
          (place_all-IsLoaded (12 + 8 * n) ss loaded)
          (omega (arith, (place_all-keeps (12 + 8 * n) ss f).1))
          (Sits-at attr' (sym (place_all-keeps (12 + 8 * n) ss f).0) refl) fits
        ∙ ap (λ (h : Xfile). ok (record h { init_pc = pc })) same)
