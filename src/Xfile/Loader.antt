-- ===== src/Xfile/Loader.antt =====
-- `xjr_xfile_load` and the checks of the header, rts/src/xjr_x.c. An unsigned sum of 32 bits is
-- cut once, where its value is used.
pub mod Index
pub mod Image
use xenonjs.Base.{
  ℕ, zero, suc, ◌+◌, ◌*◌, List, Result, ok, fail, fault, ◌>>=◌, ◌>>◌, ltb, ◌==◌, if◌then◌else◌, u32,
}
use xenonjs.Xfile.{Sections, Xfile, Read, Load, xfile_init, byte_at, read_u32, read_u16}

-- One disjunct `f->bc[i] != v` of a check.
pub expect : Xfile → ℕ → ℕ → Read (Unit {0})
expect f i v = do b ← byte_at f i; if b == v then ok tt else fail tt

pub verify_signature : Xfile → Read (Unit {0})
unfolding expect
verify_signature f =
    if ltb f.len 4
    then fail tt
    else (do expect f 0 0x78; expect f 1 0x6a; expect f 2 0x73; expect f 3 0x00)

pub verify_platform : Xfile → Read (Unit {0})
unfolding expect
verify_platform f = if ltb f.len 6 then fail tt else (do expect f 4 0x01; expect f 5 0x00)

pub verify_sdk_version : Xfile → Read (Unit {0})
unfolding expect
verify_sdk_version f = if ltb f.len 8 then fail tt else (do expect f 6 0x01; expect f 7 0x00)

-- A failed read, where the loader leaves `g` behind: `f` itself after `return -1`, and the
-- initialised file after `goto fail`.
pub or_leave {ℓ} : {A : Type ℓ} → Xfile → Result (Unit {0}) A → Result Xfile A
or_leave g (ok a) = ok a
or_leave g (fail _) = fail g
or_leave g fault = fault

-- The switch on the type of a section.
unfoldable pub place : ℕ → ℕ → Xfile → Xfile
place type offset f =
    let s = f.sections in
    if type == 0x61746164
    then record f { sections = record s { dat = offset } }
    else if type == 0x74786574
    then record f { sections = record s { text = offset } }
    else if type == 0x72747461
    then record f { sections = record s { attr = offset } }
    else if type == 0x74707865
    then record f { sections = record s { expr = offset } }
    else if type == 0x74706d69
    then record f { sections = record s { impr = offset } }
    else if type == 0x30676264
    then record f { sections = record s { dbg0 = offset } }
    else if type == 0x30696264
    then record f { sections = record s { dbi0 = offset } }
    else f

abbrev pub size_header : ℕ
size_header = 8

abbrev pub size_offset_count : ℕ
size_offset_count = 4

abbrev pub size_addr : ℕ
size_addr = 4

-- The loop over the index of sections, at entry `i`.
pub load_sections : ℕ → ℕ → ℕ → ℕ → Xfile → Load Xfile
unfolding or_leave place
load_sections zero i offset_section_index offset_section_data f = ok f
load_sections (suc left) i offset_section_index offset_section_data f = do
  let entry = offset_section_index + (size_addr + size_addr) * i
  offset_section ← or_leave f (read_u32 f (u32 entry))
  size_section ← or_leave f (read_u32 f (u32 (entry + size_addr)))
  section_type ← or_leave f (read_u32 f (u32 (offset_section_data + offset_section)))
  load_sections left (suc i) offset_section_index offset_section_data
      (place section_type (u32 (offset_section_data + offset_section)) f)

abbrev pub attr_type_toplevel : ℕ
attr_type_toplevel = 1

-- The switch on the type of an attribute.
pub load_attr : ℕ → ℕ → Xfile → Load Xfile
unfolding or_leave
load_attr attr_type at f =
    if attr_type == attr_type_toplevel
    then (do pc ← or_leave f (read_u32 f (u32 (at + 2))); ok (record f { init_pc = pc }))
    else ok f

-- The loop over the attributes, at entry `i`.
pub load_attrs : ℕ → ℕ → ℕ → ℕ → Xfile → Load Xfile
unfolding or_leave load_attr
load_attrs zero i offset_attr_index offset_attr_data f = ok f
load_attrs (suc left) i offset_attr_index offset_attr_data f = do
  offset_attr ← or_leave f (read_u32 f (u32 (offset_attr_index + size_addr * i)))
  attr_type ← or_leave f (read_u16 f (u32 (offset_attr_data + offset_attr)))
  f' ← load_attr attr_type (offset_attr_data + offset_attr) f
  load_attrs left (suc i) offset_attr_index offset_attr_data f'

-- The second half of the loader.
pub load_attributes : Xfile → Load Xfile
unfolding or_leave load_attrs
load_attributes f = do
  attrs_count ← or_leave f (read_u32 f (u32 (f.sections.attr + 4)))
  let index = f.sections.attr + 4 + size_offset_count
  load_attrs attrs_count 0 index (index + size_addr * attrs_count) f

pub load : Xfile → List ℕ → ℕ → Load Xfile
unfolding or_leave load_sections load_attributes verify_signature verify_platform verify_sdk_version
load old bc len = do
  let f = record old { bc = bc; len = len }
  or_leave (xfile_init f) (verify_signature f)
  or_leave (xfile_init f) (verify_platform f)
  or_leave (xfile_init f) (verify_sdk_version f)
  sections_count ← or_leave (xfile_init f) (read_u32 f 8)
  let index = size_header + size_offset_count
  f' ← load_sections sections_count 0 index (index + size_addr * 2 * sections_count) f
  load_attributes f'
