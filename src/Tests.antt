-- ===== src/Tests.antt =====
-- The theorems at concrete buffers, files and sources.
mod Code
mod Heap
use xenonjs.Base.{
  ℕ, ◌+◌, ◌^◌, ◌<◌, ◌≤◌, List, [], ◌∷◌, ◌++◌, some, none, ok, fail, fault, Bool, false, ltb, ltb→lt,
  ◌&&◌, true, ◌≡◌, ◌≢◌, ◌⊎◌, ◌↔◌, refl, arith, length, replicate, length-replicate, take, drop,
  le_value, le_bytes, get_or, All, u32,
}
use xenonjs.Buffer
use xenonjs.Buffer.{Buffer, Malloc, init_conf, clear}
use xenonjs.Buffer.Valid.{IsMalloc, contents}
use xenonjs.Buffer.Session.{Call, appends, shifts, session, effects, IsReady, session-effects}
use xenonjs.Buffer.Growth.{AppendsOrRefuses, append-AppendsOrRefuses}
use xenonjs.Buffer.Overflow.{append-wraps}
use xenonjs.Buffer.Lifecycle.{
  IsEmpty, ShiftsOrRefuses, init_conf_lem, clear_lem, shift-ShiftsOrRefuses,
}
use xenonjs.BitWriter.Encode.{Emits}
use xenonjs.Linker
use xenonjs.Linker.{DataItem, Annotated, Annotation, annotate, annotation, Export, Import}
use xenonjs.Linker.File.{Ir, TextStage, DebugStage, start_ex}
use xenonjs.Linker.Loads.{image}
use xenonjs.Linker.Whole.{sections, WritesText}
use xenonjs.Linker.Data.{IsReached, read_item-annotate}
use xenonjs.Linker.EndToEnd.{start_ex-loads}
use xenonjs.Linker.Bytes.{
  entries_bytes, not_empty, items_bytes, attr_bytes, exports_bytes, imports_bytes,
  Emits-write_index, Emits-write_data, Emits-write_attr, Emits-write_export, Emits-write_import,
}
use xenonjs.Xfile.{Xfile, Sections, read_u32, read_u16}
use xenonjs.Xfile.Readers.{IsBytes, IsLoaded, read_u32_lem, read_u16_lem, read_u32-wraps}
use xenonjs.Xfile.Sits.{Sits}
use xenonjs.Xfile.Loader.{load}
use xenonjs.Xfile.Loader.Index.{Section, bodies, index}
use xenonjs.Xfile.Loader.Image.{Sits-whole, loaded_image, load-image, header, toplevel_attr}
use xenonjs.Lexer.{begin, is_id_continue, identifier}
use xenonjs.Lexer.Start
use xenonjs.Lexer.Words.{match_with, match_with_any, same_chars, keywords, word_type}
use xenonjs.Lexer.Scanners.{scan_identifier}
use xenonjs.Lexer.Munch.{IsLongest, scan_identifier-IsLongest, match_with_iff}
use xenonjs.Crc.{crctable, crc32_update}
use xenonjs.Crc.Polynomial.{shift_out, crctable-shift_out}

-- An allocator that always has memory, and one that never has.
abbrev zeroed : Malloc
zeroed n = some (replicate n 0)

abbrev refusing : Malloc
refusing n = none

zeroed-IsMalloc : IsMalloc zeroed
zeroed-IsMalloc n block h = let e : replicate n 0 ≡ block = cc in rw (← e) (length-replicate n 0)

zeroed-never-none : (n : ℕ) → zeroed n ≢ none
zeroed-never-none n h = cc

refusing-IsMalloc : IsMalloc refusing
refusing-IsMalloc n block h = cc

-- Two bytes in a block of three.
abbrev pub two_bytes : Buffer
two_bytes = record {
  body = some (7 ∷ 8 ∷ 0 ∷ []);
  size = 2;
  capacity = 3;
  init_size = 3;
  inc_size = 4;
}

pub two_bytes-IsReady : IsReady two_bytes
two_bytes-IsReady = record { valid = (refl, omega arith); started = omega arith }

abbrev some_calls : List Call
some_calls = appends (1 ∷ 2 ∷ 3 ∷ []) ∷ shifts 1 ∷ shifts 9 ∷ appends (4 ∷ []) ∷ []

session-effects_example :
    (b' : Buffer) × (session (2 ^ 32) zeroed some_calls two_bytes ≡ ok b')
    × IsReady b'
    × (contents b' ≡ effects some_calls (7 ∷ 8 ∷ []))
session-effects_example =
    session-effects (2 ^ 32) zeroed zeroed-IsMalloc zeroed-never-none some_calls two_bytes
      two_bytes-IsReady (omega arith)

append-AppendsOrRefuses_example : AppendsOrRefuses (2 ^ 32) refusing two_bytes (5 ∷ 6 ∷ []) 2
append-AppendsOrRefuses_example =
    append-AppendsOrRefuses (2 ^ 32) refusing two_bytes (5 ∷ 6 ∷ []) 2 refusing-IsMalloc
      (refl, omega arith) (omega arith) (omega arith)

-- With a size type of three bits, the sum 2 + 5 + 1 wraps to 0.
append-wraps_example : Buffer.append (2 ^ 3) zeroed two_bytes (1 ∷ 2 ∷ 3 ∷ 4 ∷ 5 ∷ []) 5 ≡ fault
append-wraps_example =
    append-wraps (2 ^ 3) zeroed two_bytes (1 ∷ 2 ∷ 3 ∷ 4 ∷ 5 ∷ []) 5 (refl, omega arith)
      (omega arith) (omega arith) (omega arith) (omega arith)

shift-ShiftsOrRefuses_example : ShiftsOrRefuses two_bytes 1
shift-ShiftsOrRefuses_example = shift-ShiftsOrRefuses two_bytes 1 (refl, omega arith)

init_conf_lem_example :
    ((b : Buffer) × (init_conf zeroed 3 4 ≡ ok b) × IsEmpty 3 4 b)
    ⊎ ((zeroed 3 ≡ none) × (init_conf zeroed 3 4 ≡ fail (Buffer.fresh none 3 4)))
init_conf_lem_example = init_conf_lem zeroed 3 4 zeroed-IsMalloc (omega arith)

clear_lem_example :
    ((b' : Buffer) × (clear refusing two_bytes ≡ ok b') × IsEmpty 3 4 b')
    ⊎ ((refusing 3 ≡ none) × (clear refusing two_bytes ≡ fail (record two_bytes { body = none })))
clear_lem_example = clear_lem refusing two_bytes refusing-IsMalloc (omega arith)

abbrev two_sections : List Buffer
two_sections = two_bytes ∷ record two_bytes { size = 0 } ∷ record two_bytes { size = 1 } ∷ []

Emits-write_index_example :
    Emits
      (Linker.write_index zeroed two_sections)
      (le_bytes 4 (u32 (length (not_empty two_sections))) ++ entries_bytes two_sections 0)
Emits-write_index_example = Emits-write_index zeroed zeroed-IsMalloc zeroed-never-none two_sections

abbrev one_item : List Annotated
one_item = record { kind = Linker.symbol; dataid = 5; offset = 0; content = 97 ∷ 98 ∷ [] } ∷ []

Emits-write_data_example :
    Emits (Linker.write_data zeroed one_item) (Linker.signature_data ++ items_bytes one_item)
Emits-write_data_example =
    Emits-write_data zeroed zeroed-IsMalloc zeroed-never-none one_item (refl, tt)

Emits-write_attr_example : Emits (Linker.write_attr zeroed 258) (attr_bytes 258)
Emits-write_attr_example = Emits-write_attr zeroed zeroed-IsMalloc zeroed-never-none 258

abbrev one_export : List Export
one_export = record { exported = 5; local = 6 } ∷ []

Emits-write_export_example :
    Emits
      (Linker.write_export zeroed one_export)
      (Linker.signature_expt ++ (le_bytes 4 (u32 (length one_export)) ++ exports_bytes one_export))
Emits-write_export_example = Emits-write_export zeroed zeroed-IsMalloc zeroed-never-none one_export

abbrev one_import : List Import
one_import = record { local = 5; imported = 6; source = 7 } ∷ []

Emits-write_import_example :
    Emits
      (Linker.write_import zeroed one_import)
      (Linker.signature_impt ++ (le_bytes 4 (u32 (length one_import)) ++ imports_bytes one_import))
Emits-write_import_example = Emits-write_import zeroed zeroed-IsMalloc zeroed-never-none one_import

abbrev nowhere : Sections
nowhere = record { text = 0; dat = 0; attr = 0; expr = 0; impr = 0; dbg0 = 0; dbi0 = 0 }

abbrev is_bytes : List ℕ → Bool
is_bytes [] = true
is_bytes (b ∷ bs) = ltb b 256 && is_bytes bs

both : (a b : Bool) → a && b ≡ true → (a ≡ true) × (b ≡ true)
both true b h = (refl, h)
both false b h = cc

is_bytes-IsBytes : (bs : List ℕ) → is_bytes bs ≡ true → IsBytes bs
is_bytes-IsBytes [] h = tt
is_bytes-IsBytes (b ∷ bs) h =
    let (first, rest) = both (ltb b 256) (is_bytes bs) h in
    (ltb→lt b 256 first, is_bytes-IsBytes bs rest)

abbrev five_bytes : Xfile
five_bytes = record { bc = 9 ∷ 1 ∷ 2 ∷ 3 ∷ 4 ∷ []; len = 5; sections = nowhere; init_pc = 0 }

five_bytes-IsLoaded : IsLoaded five_bytes
five_bytes-IsLoaded = record {
  bytes = is_bytes-IsBytes five_bytes.bc refl;
  length_is = refl;
  fits = omega arith;
}

read_u32_lem_example :
    (1 + 4 ≤ 5 → read_u32 five_bytes 1 ≡ ok (le_value (take 4 (drop 1 five_bytes.bc))))
    × (5 < 1 + 4 → read_u32 five_bytes 1 ≡ fail tt)
read_u32_lem_example = read_u32_lem five_bytes five_bytes-IsLoaded 1 (omega arith)

read_u16_lem_example :
    (4 + 2 ≤ 5 → read_u16 five_bytes 4 ≡ ok (le_value (take 2 (drop 4 five_bytes.bc))))
    × (5 < 4 + 2 → read_u16 five_bytes 4 ≡ fail tt)
read_u16_lem_example = read_u16_lem five_bytes five_bytes-IsLoaded 4 (omega arith)

read_u32-wraps_example : read_u32 five_bytes 0xffffffff ≡ fault
read_u32-wraps_example =
    read_u32-wraps five_bytes five_bytes-IsLoaded 0xffffffff (omega arith) (omega arith)
      (omega arith)

scan_identifier-IsLongest_example :
    IsLongest is_id_continue
      (98 ∷ 49 ∷ 43 ∷ [])
      (97 ∷ [])
      (scan_identifier (record { rest = 97 ∷ 98 ∷ 49 ∷ 43 ∷ []; at = begin; value = [] }))
scan_identifier-IsLongest_example = scan_identifier-IsLongest 97 (98 ∷ 49 ∷ 43 ∷ []) begin

match_with_iff_example :
    (match_with (97 ∷ 115 ∷ []) (97 ∷ 116 ∷ []) ≡ true)
    ↔ (◌≡◌ {A = List ℕ} (97 ∷ 115 ∷ []) (97 ∷ 116 ∷ []))
match_with_iff_example = match_with_iff (97 ∷ 115 ∷ []) (97 ∷ 116 ∷ [])

crctable-shift_out_example : get_or crctable 200 0 ≡ shift_out 8 200
crctable-shift_out_example = crctable-shift_out 200 (omega arith)

-- A file with one section, which says that the program starts at 258.
abbrev attr_section : Section
attr_section = record {
  type = 0x72747461;
  rest = le_bytes 4 1 ++ (le_bytes 4 0 ++ (le_bytes 2 1 ++ le_bytes 4 258));
}

abbrev attr_tail : List ℕ
attr_tail = le_bytes 4 1 ++ (index 0 (attr_section ∷ []) ++ bodies (attr_section ∷ []))

abbrev attr_file : List ℕ
attr_file = header ++ attr_tail

-- The toplevel attribute stands where the loader puts the section.
attr-Sits :
    Sits (toplevel_attr 258) (loaded_image five_bytes (attr_section ∷ [])).sections.attr attr_file
attr-Sits = record { front = take 20 attr_file; back = []; whole_is = refl; front_is = refl }

load-image_example :
    load five_bytes attr_file (length attr_file)
    ≡ ok (record (loaded_image five_bytes (attr_section ∷ [])) { init_pc = 258 })
load-image_example =
    load-image five_bytes (attr_section ∷ []) 258 (is_bytes-IsBytes attr_file refl) (omega arith)
      (omega arith, tt) attr-Sits (omega arith)

-- A text section without code, whatever the annotation says.
abbrev no_code : TextStage
no_code a b = ok (
  record {
    body = some (116 ∷ 101 ∷ 120 ∷ 116 ∷ 0 ∷ []);
    size = 4;
    capacity = 5;
    init_size = 5;
    inc_size = 5;
  },
  0,
)

abbrev no_debug : DebugStage
no_debug b₀ b₁ = ok (b₀, b₁)

abbrev symbol_item : DataItem
symbol_item = record { kind = Linker.symbol; dataid = 5; value = 97 ∷ 98 ∷ [] }

-- One symbol, one export and one import.
abbrev small_ir : Ir
small_ir = record { items = symbol_item ∷ []; exports = one_export; imports = one_import }

abbrev small_annotation : Annotation
small_annotation = record { items = one_item; offsets = (5, 0) ∷ [] }

small_annotated : annotate some small_ir.items 0 ≡ some small_annotation
unfolding annotate annotation
small_annotated = refl

no_code-WritesText : WritesText no_code small_annotation [] 0
no_code-WritesText b fresh = (_, refl, (refl, omega arith), refl)

start_ex-loads_example :
    (start_ex zeroed zeroed some no_code no_debug small_ir false
      ≡ ok (image (sections small_ir small_annotation [] 0)))
    × (load five_bytes
          (image (sections small_ir small_annotation [] 0))
          (length (image (sections small_ir small_annotation [] 0)))
        ≡ ok (record (loaded_image five_bytes (sections small_ir small_annotation [] 0)) {
          init_pc = u32 0;
        }))
unfolding sections
start_ex-loads_example =
    start_ex-loads zeroed zeroed-IsMalloc zeroed-never-none zeroed zeroed-IsMalloc zeroed-never-none
      some no_code no_debug five_bytes small_ir small_annotation [] 0 small_annotated
      no_code-WritesText (is_bytes-IsBytes (image (sections small_ir small_annotation [] 0)) refl)
      (omega arith)

-- A file that begins with its data section.
abbrev data_file : Xfile
data_file = record {
  bc = Linker.signature_data ++ items_bytes one_item;
  len = 13;
  sections = nowhere;
  init_pc = 0;
}

data_file-IsLoaded : IsLoaded data_file
data_file-IsLoaded = record {
  bytes = is_bytes-IsBytes data_file.bc refl;
  length_is = refl;
  fits = omega arith;
}

read_item-annotate_example : IsReached some data_file small_annotation symbol_item 5
read_item-annotate_example =
    read_item-annotate some small_ir.items small_annotation data_file symbol_item 5 small_annotated
      data_file-IsLoaded (omega arith) (Sits-whole (Linker.signature_data ++ items_bytes one_item))
      refl
