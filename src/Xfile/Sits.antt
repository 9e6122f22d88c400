-- ===== src/Xfile/Sits.antt =====
-- Where a run of bytes sits in a file, and what the readers find there.
use mathlib.Core.List.{append_assoc}
use xenonjs.Base.{
  ℕ, ◌+◌, ◌^◌, ◌<◌, ◌≤◌, List, ◌++◌, ok, ◌≡◌, ◌∙◌, sym, ap, arith, length, length-append, le_bytes,
  drop-append, length-le_bytes, take-append_eq, get_or, ◌∷◌, [], refl,
}
use xenonjs.Xfile.{Xfile, read_u32, read_u16, read_u8, read_s8, read_s16, read_s32, read_f64}
use xenonjs.Xfile.Readers.{
  IsLoaded, read_u32-inside, read_u16-inside, read_u8-inside, read_s16-inside, read_f64-inside,
}

-- `bytes` stand in `whole` from index `i` on.
pub record Sits (bytes : List ℕ) (i : ℕ) (whole : List ℕ) : Type 0 where
  pub front : List ℕ
  pub back : List ℕ
  pub whole_is : whole ≡ front ++ (bytes ++ back)
  pub front_is : length front ≡ i

module _ (xs ys : List ℕ) {whole : List ℕ} {i : ℕ} where
  pub Sits-left : Sits (xs ++ ys) i whole → Sits xs i whole
  Sits-left s = record {
    front = s.front;
    back = ys ++ s.back;
    whole_is = s.whole_is ∙ ap (◌++◌ s.front) (append_assoc xs ys s.back);
    front_is = s.front_is;
  }

  pub Sits-right : Sits (xs ++ ys) i whole → Sits ys (i + length xs) whole
  Sits-right s = record {
    front = s.front ++ xs;
    back = s.back;
    whole_is =
        s.whole_is
        ∙ ap (◌++◌ s.front) (append_assoc xs ys s.back)
        ∙ sym (append_assoc s.front xs (ys ++ s.back));
    front_is = omega (arith, length-append {0} s.front xs, s.front_is);
  }

-- The same place under another name for it, and in an equal file.
pub Sits-at : {bytes v w : List ℕ} {i j : ℕ} → Sits bytes i v → v ≡ w → i ≡ j → Sits bytes j w
Sits-at s same e = record {
  front = s.front;
  back = s.back;
  whole_is = sym same ∙ s.whole_is;
  front_is = s.front_is ∙ e;
}

pub Sits-le : {bytes whole : List ℕ} {i : ℕ} → Sits bytes i whole → i + length bytes ≤ length whole
Sits-le {bytes} s = omega (
  arith,
  ap length s.whole_is,
  length-append {0} s.front (bytes ++ s.back),
  length-append {0} bytes s.back,
  s.front_is,
)

module _ {f : Xfile} (loaded : IsLoaded f) (i v : ℕ) (small : i + 4 < 2 ^ 32) where
  pub read_u32-Sits : Sits (le_bytes 4 v) i f.bc → v < 2 ^ 32 → read_u32 f i ≡ ok v
  read_u32-Sits s fits =
      read_u32-inside f loaded i (omega (arith, Sits-le s, length-le_bytes 4 v, loaded.length_is))
        small
      ∙ rw (← s.front_is, s.whole_is, drop-append s.front (le_bytes 4 v ++ s.back))
          (ap ok (omega arith))

  pub read_u16-Sits : Sits (le_bytes 2 v) i f.bc → v < 2 ^ 16 → read_u16 f i ≡ ok v
  read_u16-Sits s fits =
      read_u16-inside f loaded i (omega (arith, Sits-le s, length-le_bytes 2 v, loaded.length_is))
        (omega arith)
      ∙ rw (← s.front_is, s.whole_is, drop-append s.front (le_bytes 2 v ++ s.back))
          (ap ok (omega arith))

get_or-front :
    (front : List ℕ) (v : ℕ) (back : List ℕ) → get_or (front ++ (v ∷ back)) (length front) 0 ≡ v
get_or-front [] v back = refl
get_or-front (x ∷ front) v back = get_or-front front v back

module _ {f : Xfile} (loaded : IsLoaded f) (i : ℕ) (small : i + 8 < 2 ^ 32) where
  pub read_u8-Sits : (v : ℕ) → Sits (v ∷ []) i f.bc → read_u8 f i ≡ ok v
  read_u8-Sits v s =
      read_u8-inside f loaded i (omega (arith, Sits-le s, loaded.length_is)) (omega arith)
      ∙ rw (← s.front_is, s.whole_is, get_or-front s.front v s.back) refl

  pub read_s8-Sits : (v : ℕ) → Sits (v ∷ []) i f.bc → read_s8 f i ≡ ok v
  unfolding read_s8 read_u8
  read_s8-Sits = read_u8-Sits

  pub read_s16-Sits : (v : ℕ) → Sits (le_bytes 2 v) i f.bc → v < 2 ^ 16 → read_s16 f i ≡ ok v
  read_s16-Sits v s fits =
      read_s16-inside f loaded i (omega (arith, Sits-le s, length-le_bytes 2 v, loaded.length_is))
        (omega arith)
      ∙ rw (← s.front_is, s.whole_is, drop-append s.front (le_bytes 2 v ++ s.back))
          (ap ok (omega arith))

  pub read_s32-Sits : (v : ℕ) → Sits (le_bytes 4 v) i f.bc → v < 2 ^ 32 → read_s32 f i ≡ ok v
  unfolding read_s32 read_u32
  read_s32-Sits v s fits = read_u32-Sits loaded i v (omega arith) s fits

  pub read_f64-Sits : (v : List ℕ) → Sits v i f.bc → length v ≡ 8 → read_f64 f i ≡ ok v
  read_f64-Sits v s size =
      read_f64-inside f loaded i (omega (arith, Sits-le s, loaded.length_is)) (omega arith)
      ∙ rw
          (
            ← s.front_is,
            s.whole_is,
            drop-append s.front (v ++ s.back),
            take-append_eq 8 v s.back size,
          )
          refl
