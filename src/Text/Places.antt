-- ===== src/Text/Places.antt =====
-- The offsets of functions are places in the text section, and so are those of all instructions.
use native.Mathlib.Nat.{mod-eq_of_lt}
use xenonjs.Base.{
  ℕ, zero, suc, ◌+◌, ◌^◌, ◌<◌, List, [], ◌∷◌, some, ok, ◌≡◌, ◌≢◌, refl, ap, ◌∙◌, arith, length,
  take, All, OnOk, OnOk-bind, OnOk-weaken, OnOk-eq, ◌==◌, if◌then◌else◌, u32,
}
use xenonjs.Linker.{Annotation}
use xenonjs.Linker.File.{Link}
use xenonjs.Text.{Function, Code, AnnotatedFunction}
use xenonjs.Text.Layout.{items_size}
use xenonjs.Text.Functions.{
  function_size, functions_size, skip_items-end, AreLaid, functions-AreLaid,
}
use xenonjs.Text.Size.{IsItem}
use xenonjs.Text.Translate.{Offsets, Whole, find}
use xenonjs.Text.Annotate.{
  boilerplate_size, FunctionOffsets, skip_items, function_offsets, Scheduler, annotate_functions,
  text_section_annotate,
}

pub find_self : (m : Offsets) (k v : ℕ) → find ((k, v) ∷ m) k ≡ some v
unfolding find
find_self m k v = ground arith

pub find_other : (m : Offsets) (k k' v : ℕ) → k ≢ k' → find ((k', v) ∷ m) k ≡ find m k
unfolding find
find_other m k k' v h = ground arith

-- What a pass over `rest`, function `funcid` being the first of them, adds to what is known.
pub record AreFound (whole : Whole) (toplevel : ℕ) (rest : List Function) (funcid offset : ℕ)
    (old later : FunctionOffsets) : Type 0 where
  pub kept : (k : ℕ) → k < funcid → find later.offsets k ≡ find old.offsets k
  pub found :
      (k : ℕ)
      → k < length rest
      → find later.offsets (funcid + k) ≡ some (offset + functions_size whole (take k rest))
  pub toplevel_kept : toplevel < funcid → later.toplevel ≡ old.toplevel
  pub toplevel_found :
      (k : ℕ)
      → k < length rest
      → toplevel ≡ funcid + k
      → later.toplevel ≡ offset + functions_size whole (take k rest)

plus_zero : (n : ℕ) → n + 0 ≡ n
plus_zero n = omega arith

plus_suc : (n k : ℕ) → n + suc k ≡ suc n + k
plus_suc n k = omega arith

module _ (whole : Whole) (toplevel : ℕ) where
  step-AreFound :
      (func : Function) (rest : List Function) (funcid offset : ℕ) (old later : FunctionOffsets)
      → AreFound whole toplevel rest
          (suc funcid)
          (offset + function_size whole func)
          (record {
            offsets = (funcid, offset) ∷ old.offsets;
            toplevel = if funcid == toplevel then offset else old.toplevel;
          })
          later
      → AreFound whole toplevel (func ∷ rest) funcid offset old later
  step-AreFound func rest funcid offset old later r = record {
    kept = λ k h.
        r.kept k (omega arith) ∙ find_other old.offsets k funcid offset (λ e. omega (arith, e));
    found = found;
    toplevel_kept = λ h. r.toplevel_kept (omega arith) ∙ ground arith;
    toplevel_found = toplevel_found;
  }
    where
      found :
          (k : ℕ)
          → k < length (func ∷ rest)
          → find later.offsets (funcid + k)
            ≡ some (offset + functions_size whole (take k (func ∷ rest)))
      found zero h =
          rw (plus_zero funcid, plus_zero offset)
            (r.kept funcid (omega arith) ∙ find_self old.offsets funcid offset)
      found (suc k) h = rw (plus_suc funcid k) (r.found k (omega arith) ∙ ap some (omega arith))

      toplevel_found :
          (k : ℕ)
          → k < length (func ∷ rest)
          → toplevel ≡ funcid + k
          → later.toplevel ≡ offset + functions_size whole (take k (func ∷ rest))
      toplevel_found zero h e = r.toplevel_kept (omega (arith, e)) ∙ ground arith
      toplevel_found (suc k) h e = r.toplevel_found k (omega arith) (omega (arith, e)) ∙ omega arith

  function_offsets-AreFound :
      (rest : List Function) (funcid offset : ℕ) (old : FunctionOffsets)
      → offset + functions_size whole rest < 2 ^ 32
      → OnOk
          (AreFound whole toplevel rest funcid offset old)
          (function_offsets whole toplevel rest funcid offset old)
  unfolding function_offsets
  function_offsets-AreFound [] funcid offset old h = record {
    kept = λ k h'. refl;
    found = λ k h'. absurd (omega arith);
    toplevel_kept = λ h'. refl;
    toplevel_found = λ k h' e. absurd (omega arith);
  }
  function_offsets-AreFound (func ∷ rest) funcid offset old h =
      let Q = AreFound whole toplevel (func ∷ rest) funcid offset old in
      let start = offset + boilerplate_size func in
      let found' : FunctionOffsets = record {
        offsets = (funcid, offset) ∷ old.offsets;
        toplevel = if funcid == toplevel then offset else old.toplevel;
      } in
      let start_is : u32 start ≡ start = mod-eq_of_lt (omega arith) in
      OnOk-bind (λ end. end ≡ start + items_size whole func.items) Q
        (skip_items whole func.items (u32 start)) _
        (rw start_is (skip_items-end whole func.items start (omega arith)))
        λ end e.
          let next : end ≡ offset + function_size whole func = omega (arith, e) in
          OnOk-weaken
            (AreFound whole toplevel rest (suc funcid) (offset + function_size whole func) found') Q
            (function_offsets whole toplevel rest (suc funcid) end found')
            (rw next (
              function_offsets-AreFound rest (suc funcid) (offset + function_size whole func) found'
                (omega arith)))
            λ r found. step-AreFound func rest funcid offset old r found

-- What is known of an annotation: where its instructions stand, how many bytes they are, that they
-- can be written, and where the toplevel is.
pub record IsAnnotated (whole : Whole) (code : Code) (r : List AnnotatedFunction × ℕ) : Type 0 where
  pub laid : AreLaid 0 (functions_size whole code.functions) r.0
  pub toplevel_is :
      code.toplevel < length code.functions
      → r.1 ≡ functions_size whole (take code.toplevel code.functions)

-- If the annotation of a code of fewer than 2^32 bytes, whose doubles have eight bytes, gives
-- functions, each instruction has as its offset the number of bytes in front of it, the functions
-- take as many bytes as the first pass counted, all instructions can be written and fetched, and
-- the toplevel's offset, if it is one of the functions, is that of its first byte.
pub text_section_annotate-IsAnnotated :
    (whole : Whole) (schedule : Function → Link Scheduler) (code : Code) (dat : Annotation)
    (r : List AnnotatedFunction × ℕ)
    → All (λ func. All IsItem func.items) code.functions
    → functions_size whole code.functions < 2 ^ 32
    → text_section_annotate whole schedule code dat ≡ ok r
    → IsAnnotated whole code r
unfolding text_section_annotate
text_section_annotate-IsAnnotated whole schedule code dat r are small done =
    let nothing : FunctionOffsets = record { offsets = []; toplevel = 0 } in
    let Q = IsAnnotated whole code in
    OnOk-eq Q
      (OnOk-bind (AreFound whole code.toplevel code.functions 0 0 nothing) Q
        (function_offsets whole code.toplevel code.functions 0 0 nothing) _
        (function_offsets-AreFound whole code.toplevel code.functions 0 0 nothing (omega arith))
        λ found f.
          OnOk-bind (AreLaid 0 (functions_size whole code.functions)) Q
            (annotate_functions whole schedule code dat.offsets found.offsets code.functions 0 0) _
            (functions-AreLaid whole schedule code dat.offsets found.offsets code.functions 0 0 are
              (omega arith))
            λ annotated l. record {
              laid = l;
              toplevel_is = λ h. f.toplevel_found code.toplevel h (omega arith) ∙ omega arith;
            })
      done
