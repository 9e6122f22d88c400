-- ===== src/Linker/Merge.antt =====
-- The merge of the sections: the bytes of the file, as the loader of the runtime expects them.
use mathlib.Core.List.{append_assoc}
use native.Mathlib.Nat.{mod-eq_of_lt}
use xenonjs.Base.{
  ℕ, suc, ◌+◌, ◌≤◌, ◌<◌, ◌^◌, List, [], ◌∷◌, ◌++◌, Option, none, some, ok, ◌>>=◌, ◌≡◌, ◌∙◌, refl,
  sym, ap, arith, length, drop, length-append, length-drop, Result, fail, fault, take-append, true,
  false, ◌==◌, le_bytes, length-le_bytes, All,
}
use xenonjs.Buffer.{Buffer, block_of, memcpy}
use xenonjs.Buffer.Memcpy.{memcpy_lem}
use xenonjs.Buffer.Valid.{IsValid, Holds, contents, contents_of}
use xenonjs.Buffer.Session.{length-contents}
use xenonjs.Linker.{merge_into, sec_count, file_size}
use xenonjs.Linker.Bytes.{entries_bytes}
use xenonjs.Xfile.Loader.Index.{Section, body, bodies, index}

abbrev pub all_contents : List Buffer → List ℕ
all_contents [] = []
all_contents (b ∷ bs) = contents b ++ all_contents bs

drop-past_front :
    (front rest : List ℕ) (n : ℕ) → drop (length front + n) (front ++ rest) ≡ drop n rest
drop-past_front [] rest n = let e : 0 + n ≡ n = omega arith in ap (λ m. drop m rest) e
drop-past_front (x ∷ front) rest n =
    let e : length (x ∷ front) + n ≡ suc (length front + n) = omega arith in
    ap (λ m. drop m (x ∷ (front ++ rest))) e ∙ drop-past_front front rest n

-- What follows a chain of two that has a value.
bind-ok :
    {E A B C : Type 0} {x : B} (m : Result E A) (f : A → Result E B) (k : B → Result E C)
    → m >>= f ≡ ok x
    → m >>= (λ a. f a >>= k) ≡ k x
bind-ok (ok a) f k h = rw h refl
bind-ok (fail e) f k h = cc
bind-ok fault f k h = cc

-- One copy of the merge.
copy_lem :
    (body : Option (List ℕ)) (size capacity : ℕ) (front rest : List ℕ)
    → Holds body size capacity
    → size ≤ length rest
    → (block_of body >>= λ block. memcpy size (front ++ rest) (length front) block 0)
      ≡ ok (front ++ contents_of body size ++ drop size rest)
unfolding block_of
copy_lem none size capacity front rest h room = absurd h
copy_lem (some block) size capacity front rest h room =
    memcpy_lem size (front ++ rest) (length front) block 0
      (omega (arith, length-append {0} front rest)) (omega arith)
    ∙ rw (take-append front rest, drop-past_front front rest size)

pub merge_into_lem :
    (bs : List Buffer) (front rest : List ℕ)
    → All IsValid bs
    → length rest ≡ file_size bs
    → merge_into bs (front ++ rest) (length front) ≡ ok (front ++ all_contents bs)
unfolding merge_into
merge_into_lem [] front [] valid e = refl
merge_into_lem [] front (x ∷ rest) valid e = absurd (omega arith)
merge_into_lem (b ∷ bs) front rest valid e =
    let copy = copy_lem b.body b.size b.capacity front rest valid.0 (omega arith) in
    let place : length front + b.size ≡ length (front ++ contents b) =
      omega (arith, length-append {0} front (contents b), length-contents b valid.0) in
    let left : length (drop b.size rest) ≡ file_size bs =
      omega (arith, length-drop {0} b.size rest) in
    bind-ok (block_of b.body) _ (λ bytecode. merge_into bs bytecode (length front + b.size)) copy
    ∙ ap (merge_into bs (front ++ contents b ++ drop b.size rest)) place
    ∙ merge_into_lem bs (front ++ contents b) (drop b.size rest) valid.1 left
    ∙ ap ok (append_assoc front (contents b) (all_contents bs))

-- Each buffer is empty, or holds a section, in order.
pub data AreSections : List Buffer → List Section → Type 0 where
  none_left : AreSections [] []
  empty_one :
      (b : Buffer) (bs : List Buffer) (ss : List Section)
      → IsValid b
      → b.size ≡ 0
      → AreSections bs ss
      → AreSections (b ∷ bs) ss
  full_one :
      (b : Buffer) (bs : List Buffer) (s : Section) (ss : List Section)
      → IsValid b
      → contents b ≡ body s
      → AreSections bs ss
      → AreSections (b ∷ bs) (s ∷ ss)

contents-empty : (b : Buffer) → IsValid b → b.size ≡ 0 → contents b ≡ []
contents-empty b valid e = empty_by_length (contents b) (length-contents b valid ∙ e)
  where
    empty_by_length : (xs : List ℕ) → length xs ≡ 0 → xs ≡ []
    empty_by_length [] h = refl
    empty_by_length (x ∷ xs) h = absurd (omega arith)

size-full : (b : Buffer) (s : Section) → IsValid b → contents b ≡ body s → b.size ≡ length (body s)
size-full b s valid e = sym (length-contents b valid) ∙ ap length e

body-not-empty : (s : Section) → 0 < length (body s)
body-not-empty s =
    omega (arith, length-append {0} (le_bytes 4 s.type) s.rest, length-le_bytes 4 s.type)

pub AreSections-IsValid :
    {bs : List Buffer} {ss : List Section} → AreSections bs ss → All IsValid bs
AreSections-IsValid none_left = tt
AreSections-IsValid (empty_one b bs ss v e a) = (v, AreSections-IsValid a)
AreSections-IsValid (full_one b bs s ss v e a) = (v, AreSections-IsValid a)

pub AreSections-contents :
    {bs : List Buffer} {ss : List Section} → AreSections bs ss → all_contents bs ≡ bodies ss
AreSections-contents none_left = refl
AreSections-contents (empty_one b bs ss v e a) = rw (contents-empty b v e) (AreSections-contents a)
AreSections-contents (full_one b bs s ss v e a) = rw (e, AreSections-contents a)

pub AreSections-count :
    {bs : List Buffer} {ss : List Section} → AreSections bs ss → sec_count bs ≡ length ss
unfolding sec_count
AreSections-count none_left = refl
AreSections-count (empty_one b bs ss v e a) =
    let test : (b.size == 0) ≡ true = ground arith in rw test (omega (arith, AreSections-count a))
AreSections-count (full_one b bs s ss v e a) =
    let positive : 0 < b.size = omega (arith, size-full b s v e, body-not-empty s) in
    let test : (b.size == 0) ≡ false = ground arith in rw test (omega (arith, AreSections-count a))

-- The index of the linker is the one that the loader reads, as long as no offset wraps.
pub AreSections-index :
    {bs : List Buffer} {ss : List Section} (off : ℕ)
    → AreSections bs ss
    → off + length (bodies ss) < 2 ^ 32
    → entries_bytes bs off ≡ index off ss
AreSections-index off none_left small = refl
AreSections-index off (empty_one b bs ss v e a) small =
    let test : (b.size == 0) ≡ true = ground arith in rw test (AreSections-index off a small)
AreSections-index off (full_one b bs s ss v e a) small =
    let size = size-full b s v e in
    let positive : 0 < b.size = omega (arith, size, body-not-empty s) in
    let test : (b.size == 0) ≡ false = ground arith in
    let whole = length-append {0} (body s) (bodies ss) in
    let first : off < 2 ^ 32 = omega arith in
    let second : b.size < 2 ^ 32 = omega (arith, whole, size) in
    rw (test, mod-eq_of_lt first, mod-eq_of_lt second, size)
      (ap (λ r. le_bytes 4 off ++ (le_bytes 4 (length (body s)) ++ r))
        (AreSections-index (off + length (body s)) a (omega (arith, whole))))
