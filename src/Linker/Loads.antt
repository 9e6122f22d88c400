-- ===== src/Linker/Loads.antt =====
-- From the linker to the loader: what the one merges the other loads.
use xenonjs.Base.{
  ℕ, ◌+◌, ◌<◌, ◌^◌, List, [], ◌∷◌, ◌++◌, ok, ◌≡◌, ◌∙◌, arith, length, length-append, le_bytes, u32,
}
use native.Mathlib.Nat.{mod-eq_of_lt}
use xenonjs.Buffer.{Buffer}
use xenonjs.Buffer.Valid.{IsValid, contents}
use xenonjs.Linker.{merge_into, sec_count, file_size}
use xenonjs.Linker.Bytes.{header_bytes, entries_bytes}
use xenonjs.Linker.Merge.{
  merge_into_lem, AreSections, AreSections-IsValid, AreSections-contents, AreSections-count,
  AreSections-index,
}
use xenonjs.Xfile.Loader.Index.{Section, bodies, index}
use xenonjs.Xfile.Loader.Image.{header, length-index}

-- The bytes of a file with these sections.
abbrev pub image : List Section → List ℕ
image ss = header ++ (le_bytes 4 (length ss) ++ (index 0 ss ++ bodies ss))

-- The buffers of the linker before the merge: the header and the index as they are written, and
-- the others, each of them empty or a section.
pub record AreWritten (head indexed : Buffer) (bs : List Buffer) (ss : List Section) : Type 0 where
  pub sections : AreSections bs ss
  pub head_valid : IsValid head
  pub head_is : contents head ≡ header_bytes
  pub index_valid : IsValid indexed
  pub index_is : contents indexed ≡ le_bytes 4 (u32 (sec_count bs)) ++ entries_bytes bs 0

-- The sizes of the buffers add up to a block; the merge fills it with the file.
pub merge-image :
    (head indexed : Buffer) (bs : List Buffer) (ss : List Section) (block : List ℕ)
    → AreWritten head indexed bs ss
    → length block ≡ file_size (head ∷ indexed ∷ bs)
    → length (image ss) < 2 ^ 32
    → merge_into (head ∷ indexed ∷ bs) block 0 ≡ ok (image ss)
merge-image head indexed bs ss block w e small =
    let whole = length-append {0} (index 0 ss) (bodies ss) in
    let word = length-append {0} (le_bytes 4 (length ss)) (index 0 ss ++ bodies ss) in
    let entries = length-index 0 ss in
    let few : length ss < 2 ^ 32 = omega arith in
    let near : 0 + length (bodies ss) < 2 ^ 32 = omega arith in
    merge_into_lem (head ∷ indexed ∷ bs) [] block
      (w.head_valid, (w.index_valid, AreSections-IsValid w.sections)) e
    ∙ rw (
      w.head_is,
      w.index_is,
      AreSections-contents w.sections,
      AreSections-count w.sections,
      mod-eq_of_lt few,
      AreSections-index 0 w.sections near,
    )
