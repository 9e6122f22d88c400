-- ===== src/Debug/Written.antt =====
-- What the debug sections hold.
use mathlib.Core.Path.{subst}
use native.Mathlib.Nat.{mod-eq_of_lt}
use xenonjs.Base.{
  ℕ, ◌+◌, ◌*◌, ◌%◌, ◌^◌, ◌<◌, List, [], ◌∷◌, ◌++◌, Option, none, some, ok, ◌≡◌, ◌≢◌, refl, ◌∙◌,
  arith, length, length-append, le_bytes, u32, All, Option-cases, inl, inr,
}
use xenonjs.Buffer.{Buffer, Malloc}
use xenonjs.Buffer.Valid.{contents, IsMalloc}
use xenonjs.Buffer.Session.{IsReady}
use xenonjs.BitWriter.{size_mod}
use xenonjs.BitWriter.Encode.{Emits, Emits-then, Emits-append}
use xenonjs.Linker.{signature_dbg0, signature_dbi0}
use xenonjs.Text.Writer.{put_u32, put_s8, put_s32}
use xenonjs.Text.Bytes.{writes_bytes, Emits-perform, Emits-performs}
use xenonjs.Debug.{
  Place, Debug, write_name, write_filename, filename_size, write_place, write_places,
  write_all_places, write_dbg0,
}
use xenonjs.Debug.Bytes.{
  IsNamed, name_text, place_bytes, places_bytes, index_bytes, all_bytes, all_index, Leaves,
  IsAfter-then, Leaves-then, nothing-Leaves, HasRoom, HasRoom-first, HasRoom-behind,
}

module _ (malloc : Malloc) (given : IsMalloc malloc) (plenty : (n : ℕ) → malloc n ≢ none)
    (encode : List ℕ → Option (List ℕ)) where
  abbrev name_bytes : List ℕ → List ℕ
  name_bytes name = le_bytes 4 (u32 (length name)) ++ (name ++ (0 ∷ []))

  Emits-write_filename :
      (name : Option (List ℕ))
      → IsNamed encode name
      → Emits (write_filename malloc encode name) (name_bytes (name_text encode name))
  unfolding write_filename
  Emits-write_filename none h =
      Emits-performs malloc given plenty (put_u32 0 ∷ put_s8 0 ∷ []) (tt, (tt, tt))
  Emits-write_filename (some []) h =
      Emits-performs malloc given plenty (put_u32 0 ∷ put_s8 0 ∷ []) (tt, (tt, tt))
  Emits-write_filename (some (c ∷ cs)) h = elim (Option-cases (encode (c ∷ cs))) [
    | inl e ↦ absurd (h e)
    | inr (bytes, e) ↦
        rw (write_name, e)
          (Emits-then (Emits-perform malloc given plenty (put_u32 (length bytes)) tt) (
            Emits-then (Emits-append malloc given plenty bytes)
              (Emits-perform malloc given plenty (put_s8 0) tt)))
  ]

  filename_size_lem :
      (name : Option (List ℕ))
      → IsNamed encode name
      → filename_size malloc encode name ≡ length (name_bytes (name_text encode name))
  unfolding filename_size
  filename_size_lem none h = refl
  filename_size_lem (some []) h = refl
  filename_size_lem (some (c ∷ cs)) h = elim (Option-cases (encode (c ∷ cs))) [
    | inl e ↦ absurd (h e)
    | inr (bytes, e) ↦ rw (filename_size, e) (omega (arith, length-append {0} bytes (0 ∷ [])))
  ]

  place-Leaves :
      (ti : Place) (s : Debug)
      → IsNamed encode ti.filename
      → HasRoom s
          (place_bytes encode ti)
          (le_bytes 4 (u32 ti.offset) ++ (le_bytes 4 (u32 s.dbg0_offset) ++ []))
      → Leaves s
          (place_bytes encode ti)
          (le_bytes 4 (u32 ti.offset) ++ (le_bytes 4 (u32 s.dbg0_offset) ++ []))
          (write_place malloc encode ti s)
  unfolding write_place
  place-Leaves ti s named h =
      let name = name_bytes (name_text encode ti.filename) in
      let ws =
        put_s32 ti.start_ln
        ∷ put_s32 ti.start_col
        ∷ put_s32 ti.end_ln
        ∷ put_s32 ti.end_col
        ∷ put_s32 ti.range_start
        ∷ put_s32 ti.range_end
        ∷ [] in
      let size = length-append {0} name (writes_bytes ws) in
      let counted = filename_size_lem ti.filename named in
      let (i, done_i, after_i) =
        (Emits-performs malloc given plenty (put_u32 ti.offset ∷ put_u32 s.dbg0_offset ∷ [])
            (tt, (tt, tt))).emits
          s.dbi0 h.dbi0_ready h.dbi0 in
      let (g₁, done₁, after₁) =
        (Emits-write_filename ti.filename named).emits s.dbg0 h.dbg0_ready
          (omega (arith, h.dbg0, size)) in
      let (g₂, done₂, after₂) =
        (Emits-performs malloc given plenty ws (tt, (tt, (tt, (tt, (tt, (tt, tt))))))).emits g₁
          after₁.ready (omega (arith, h.dbg0, size, after₁.size_below, after₁.same_inc)) in
      record {
        after = record {
          dbg0 = g₂;
          dbi0 = i;
          dbg0_offset =
              (s.dbg0_offset + filename_size malloc encode ti.filename + 6 * 4) % size_mod;
        };
        done = rw (done_i, done₁, done₂) refl;
        dbg0 = IsAfter-then s.dbg0 g₁ g₂ name (writes_bytes ws) after₁ after₂;
        dbi0 = after_i;
        offset_is =
            mod-eq_of_lt (omega (arith, h.offset, size, counted)) ∙ omega (arith, size, counted);
      }

  places-Leaves :
      (items : List Place) (s : Debug)
      → All (λ ti. IsNamed encode ti.filename) items
      → HasRoom s (places_bytes encode items) (index_bytes encode s.dbg0_offset items)
      → Leaves s
          (places_bytes encode items)
          (index_bytes encode s.dbg0_offset items)
          (write_places malloc encode items s)
  unfolding write_places
  places-Leaves [] s named h = nothing-Leaves s h.dbg0_ready h.dbi0_ready
  places-Leaves (ti ∷ items) s named h =
      let records = place_bytes encode ti in
      let entries = le_bytes 4 (u32 ti.offset) ++ (le_bytes 4 (u32 s.dbg0_offset) ++ []) in
      let more = places_bytes encode items in
      let later = index_bytes encode (s.dbg0_offset + length records) items in
      let l = place-Leaves ti s named.0 (HasRoom-first records entries more later h) in
      Leaves-then (write_places malloc encode items) l (
        subst
          (λ o.
            HasRoom l.after more (index_bytes encode o items)
            → Leaves l.after more (index_bytes encode o items)
                (write_places malloc encode items l.after))
          l.offset_is (places-Leaves items l.after named.1)
          (HasRoom-behind records entries more later h l))

  functions-Leaves :
      (functions : List (List Place)) (s : Debug)
      → All (All (λ ti. IsNamed encode ti.filename)) functions
      → HasRoom s (all_bytes encode functions) (all_index encode s.dbg0_offset functions)
      → Leaves s
          (all_bytes encode functions)
          (all_index encode s.dbg0_offset functions)
          (write_all_places malloc encode functions s)
  unfolding write_all_places
  functions-Leaves [] s named h = nothing-Leaves s h.dbg0_ready h.dbi0_ready
  functions-Leaves (func ∷ functions) s named h =
      let records = places_bytes encode func in
      let entries = index_bytes encode s.dbg0_offset func in
      let more = all_bytes encode functions in
      let later = all_index encode (s.dbg0_offset + length records) functions in
      let l = places-Leaves func s named.0 (HasRoom-first records entries more later h) in
      Leaves-then (write_all_places malloc encode functions) l (
        subst
          (λ o.
            HasRoom l.after more (all_index encode o functions)
            → Leaves l.after more (all_index encode o functions)
                (write_all_places malloc encode functions l.after))
          l.offset_is (functions-Leaves functions l.after named.1)
          (HasRoom-behind records entries more later h l))

  -- Over an allocator that has memory, on ready buffers with room for them within the size type,
  -- the writer of the debug sections adds, for instructions whose filenames have UTF-8 bytes, the
  -- signature and a record of each to the first, and to the second the signature and, for each
  -- instruction in order, its offset and how many bytes of records are in front of its own.
  pub write_dbg0-writes :
      (functions : List (List Place)) (dbg0 dbi0 : Buffer)
      → All (All (λ ti. IsNamed encode ti.filename)) functions
      → IsReady dbg0
      → IsReady dbi0
      → dbg0.size + 4 + length (all_bytes encode functions) + 1 + dbg0.inc_size < 2 ^ 64
      → dbi0.size + 4 + length (all_index encode 0 functions) + 1 + dbi0.inc_size < 2 ^ 64
      → (g : Buffer) × (i : Buffer) × (write_dbg0 malloc encode functions dbg0 dbi0 ≡ ok (g, i))
        × (contents g ≡ contents dbg0 ++ (signature_dbg0 ++ all_bytes encode functions))
        × (contents i ≡ contents dbi0 ++ (signature_dbi0 ++ all_index encode 0 functions))
  unfolding write_dbg0
  write_dbg0-writes functions dbg0 dbi0 named ready_g ready_i room_g room_i =
      let records = all_bytes encode functions in
      let entries = all_index encode 0 functions in
      let (g, done_g, after_g) =
        (Emits-append malloc given plenty signature_dbg0).emits dbg0 ready_g (omega arith) in
      let (i, done_i, after_i) =
        (Emits-append malloc given plenty signature_dbi0).emits dbi0 ready_i (omega arith) in
      let s : Debug = record { dbg0 = g; dbi0 = i; dbg0_offset = 0 } in
      let l = functions-Leaves functions s named (record {
        dbg0 = omega (arith, after_g.size_below, after_g.same_inc);
        dbi0 = omega (arith, after_i.size_below, after_i.same_inc);
        offset = omega arith;
        dbg0_ready = after_g.ready;
        dbi0_ready = after_i.ready;
      }) in
      let whole_g = IsAfter-then dbg0 g l.after.dbg0 signature_dbg0 records after_g l.dbg0 in
      let whole_i = IsAfter-then dbi0 i l.after.dbi0 signature_dbi0 entries after_i l.dbi0 in
      (
        l.after.dbg0,
        l.after.dbi0,
        rw (done_g, done_i, l.done) refl,
        whole_g.bytes_are,
        whole_i.bytes_are,
      )
