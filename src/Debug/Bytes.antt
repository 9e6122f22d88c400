-- ===== src/Debug/Bytes.antt =====
-- The bytes of the debug sections, and parts of their writer one behind the other.
use mathlib.Core.List.{append_assoc, append-nil}
use xenonjs.Base.{
  ℕ, ◌+◌, ◌<◌, List, [], ◌∷◌, ◌++◌, Option, none, some, ok, ◌>>=◌, ◌≡◌, ◌≢◌, refl, sym, ap, ◌∙◌,
  arith, length, length-append, le_bytes, u32,
}
use xenonjs.Buffer.{Buffer}
use xenonjs.Buffer.Valid.{contents}
use xenonjs.Buffer.Session.{IsReady, IsAfter}
use xenonjs.BitWriter.{size_mod}
use xenonjs.Linker.File.{Link}
use xenonjs.Debug.{Place, Debug}

-- A filename that has bytes.
abbrev pub IsNamed : (List ℕ → Option (List ℕ)) → Option (List ℕ) → Type 0
IsNamed encode none = Unit
IsNamed encode (some []) = Unit
IsNamed encode (some (c ∷ cs)) = encode (c ∷ cs) ≢ none

abbrev pub given_bytes : Option (List ℕ) → List ℕ
given_bytes none = []
given_bytes (some s) = s

abbrev pub name_text : (List ℕ → Option (List ℕ)) → Option (List ℕ) → List ℕ
name_text encode none = []
name_text encode (some []) = []
name_text encode (some (c ∷ cs)) = given_bytes (encode (c ∷ cs))

-- The record of an instruction: its file, with a length and a NUL, and its place there.
abbrev pub place_bytes : (List ℕ → Option (List ℕ)) → Place → List ℕ
place_bytes encode ti =
    let name = name_text encode ti.filename in
    (le_bytes 4 (u32 (length name)) ++ (name ++ (0 ∷ [])))
    ++ (le_bytes 4 (u32 ti.start_ln)
        ++ (le_bytes 4 (u32 ti.start_col)
            ++ (le_bytes 4 (u32 ti.end_ln)
                ++ (le_bytes 4 (u32 ti.end_col)
                    ++ (le_bytes 4 (u32 ti.range_start)
                        ++ (le_bytes 4 (u32 ti.range_end) ++ []))))))

abbrev pub places_bytes : (List ℕ → Option (List ℕ)) → List Place → List ℕ
places_bytes encode [] = []
places_bytes encode (ti ∷ items) = place_bytes encode ti ++ places_bytes encode items

-- The entries of instructions whose records begin at `offset`.
abbrev pub index_bytes : (List ℕ → Option (List ℕ)) → ℕ → List Place → List ℕ
index_bytes encode offset [] = []
index_bytes encode offset (ti ∷ items) =
    (le_bytes 4 (u32 ti.offset) ++ (le_bytes 4 (u32 offset) ++ []))
    ++ index_bytes encode (offset + length (place_bytes encode ti)) items

abbrev pub all_bytes : (List ℕ → Option (List ℕ)) → List (List Place) → List ℕ
all_bytes encode [] = []
all_bytes encode (func ∷ functions) = places_bytes encode func ++ all_bytes encode functions

abbrev pub all_index : (List ℕ → Option (List ℕ)) → ℕ → List (List Place) → List ℕ
all_index encode offset [] = []
all_index encode offset (func ∷ functions) =
    index_bytes encode offset func
    ++ all_index encode (offset + length (places_bytes encode func)) functions

-- What a part of the writer leaves.
pub record Leaves (s : Debug) (records entries : List ℕ) (m : Link Debug) : Type 0 where
  pub after : Debug
  pub done : m ≡ ok after
  pub dbg0 : IsAfter s.dbg0 (length records) (contents s.dbg0 ++ records) after.dbg0
  pub dbi0 : IsAfter s.dbi0 (length entries) (contents s.dbi0 ++ entries) after.dbi0
  pub offset_is : after.dbg0_offset ≡ s.dbg0_offset + length records

pub IsAfter-then :
    (b b₁ b₂ : Buffer) (s₁ s₂ : List ℕ)
    → IsAfter b (length s₁) (contents b ++ s₁) b₁
    → IsAfter b₁ (length s₂) (contents b₁ ++ s₂) b₂
    → IsAfter b (length (s₁ ++ s₂)) (contents b ++ (s₁ ++ s₂)) b₂
IsAfter-then b b₁ b₂ s₁ s₂ a₁ a₂ = record {
  ready = a₂.ready;
  bytes_are = a₂.bytes_are ∙ ap (λ t. t ++ s₂) a₁.bytes_are ∙ append_assoc (contents b) s₁ s₂;
  size_below = omega (arith, length-append {0} s₁ s₂, a₁.size_below, a₂.size_below);
  same_inc = a₂.same_inc ∙ a₁.same_inc;
}

pub Leaves-then :
    {s : Debug} {records entries more later : List ℕ} {m : Link Debug} (k : Debug → Link Debug)
    → (l : Leaves s records entries m) → Leaves l.after more later (k l.after)
    → Leaves s (records ++ more) (entries ++ later) (m >>= k)
Leaves-then {s} {records} {entries} {more} {later} k l r = record {
  after = r.after;
  done = rw l.done r.done;
  dbg0 = IsAfter-then s.dbg0 l.after.dbg0 r.after.dbg0 records more l.dbg0 r.dbg0;
  dbi0 = IsAfter-then s.dbi0 l.after.dbi0 r.after.dbi0 entries later l.dbi0 r.dbi0;
  offset_is = omega (arith, l.offset_is, r.offset_is, length-append {0} records more);
}

IsAfter-nothing : (b : Buffer) → IsReady b → IsAfter b 0 (contents b ++ []) b
IsAfter-nothing b r = record {
  ready = r;
  bytes_are = sym (append-nil (contents b));
  size_below = omega arith;
  same_inc = refl;
}

pub nothing-Leaves : (s : Debug) → IsReady s.dbg0 → IsReady s.dbi0 → Leaves s [] [] (ok s)
nothing-Leaves s g i = record {
  after = s;
  done = refl;
  dbg0 = IsAfter-nothing s.dbg0 g;
  dbi0 = IsAfter-nothing s.dbi0 i;
  offset_is = omega arith;
}

-- Room for `records` and `entries`.
pub record HasRoom (s : Debug) (records entries : List ℕ) : Type 0 where
  pub dbg0 : s.dbg0.size + length records + 1 + s.dbg0.inc_size < size_mod
  pub dbi0 : s.dbi0.size + length entries + 1 + s.dbi0.inc_size < size_mod
  pub offset : s.dbg0_offset + length records < size_mod
  pub dbg0_ready : IsReady s.dbg0
  pub dbi0_ready : IsReady s.dbi0

pub HasRoom-first :
    {s : Debug} (records entries more later : List ℕ)
    → HasRoom s (records ++ more) (entries ++ later)
    → HasRoom s records entries
HasRoom-first records entries more later h =
    let r = length-append {0} records more in
    let e = length-append {0} entries later in
    record {
      dbg0 = omega (arith, h.dbg0, r);
      dbi0 = omega (arith, h.dbi0, e);
      offset = omega (arith, h.offset, r);
      dbg0_ready = h.dbg0_ready;
      dbi0_ready = h.dbi0_ready;
    }

pub HasRoom-behind :
    {s : Debug} {m : Link Debug} (records entries more later : List ℕ)
    → HasRoom s (records ++ more) (entries ++ later)
    → (l : Leaves s records entries m) → HasRoom l.after more later
HasRoom-behind records entries more later h l =
    let r = length-append {0} records more in
    let e = length-append {0} entries later in
    record {
      dbg0 = omega (arith, h.dbg0, r, l.dbg0.size_below, l.dbg0.same_inc);
      dbi0 = omega (arith, h.dbi0, e, l.dbi0.size_below, l.dbi0.same_inc);
      offset = omega (arith, h.offset, r, l.offset_is);
      dbg0_ready = l.dbg0.ready;
      dbi0_ready = l.dbi0.ready;
    }
