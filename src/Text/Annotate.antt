-- ===== src/Text/Annotate.antt =====
-- compiler/src/xjs_c4_ant.c: the offsets of functions and labels, and the annotation of the
-- functions. A function is known by its index, where the source compares pointers.
use xenonjs.Base.{
  ℕ, suc, ◌+◌, ◌-◌, ◌*◌, ◌%◌, List, [], ◌∷◌, ◌++◌, Option, none, some, ok, fail, fault, ◌>>=◌, ◌==◌,
  if◌then◌else◌, u8, u32, length,
}
use xenonjs.BitWriter.{size_mod}
use xenonjs.Linker.{Annotation}
use xenonjs.Linker.File.{Link, given_or_fail}
use xenonjs.Text.Translate.{Offsets, Context, Whole, find, map_get, translate, item_size}
use xenonjs.Text.{
  TextItem, Inst, AnnotatedItem, Function, Code, AnnotatedFunction, label, op_allocreg, op_arg,
}

-- `function_boilerplate_instrument_size`
abbrev pub boilerplate_size : Function → ℕ
boilerplate_size func = (1 + 4 + 1) * length func.parameters + (1 + 1)

-- What a register scheduler answers: the register of a variable at a point, and how many it needs.
pub record Scheduler : Type 0 where
  pub alloc : ℕ → ℕ → ℕ
  pub requirement : ℕ

-- The map from functions to offsets, and `ctx->offset_toplevel`.
pub record FunctionOffsets : Type 0 where
  pub offsets : Offsets
  pub toplevel : ℕ

-- The pass over the items of a function: the offset behind them.
unfoldable pub skip_items : Whole → List TextItem → ℕ → Link ℕ
unfolding item_size
skip_items whole [] offset = ok offset
skip_items whole (item ∷ items) offset = do
  instrument_size ← given_or_fail (item_size whole item)
  skip_items whole items (u32 (offset + instrument_size))

-- `xjs_c4_functionid_offset_map_extract`, from function `funcid` on; and, since a function is
-- known by its index, `xjs_c4_function_offset_map_extract`.
unfoldable pub function_offsets :
    Whole → ℕ → List Function → ℕ → ℕ → FunctionOffsets → Link FunctionOffsets
unfolding skip_items
function_offsets whole toplevel [] funcid offset found = ok found
function_offsets whole toplevel (func ∷ functions) funcid offset found = do
  let found' : FunctionOffsets = record {
    offsets = (funcid, offset) ∷ found.offsets;
    toplevel = if funcid == toplevel then offset else found.toplevel;
  }
  offset' ← skip_items whole func.items (u32 (offset + boilerplate_size func))
  function_offsets whole toplevel functions (suc funcid) offset' found'

-- A label may be there once.
unfoldable pub note_label : TextItem → ℕ → Offsets → Link Offsets
unfolding find
note_label (label l) offset labels = elim (find labels l) [
  | none ↦ ok ((l, offset) ∷ labels)
  | some v ↦ fail tt
]
note_label item offset labels = ok labels

-- The pass over the items of the function whose labels are wanted.
unfoldable pub label_items : Whole → List TextItem → ℕ → Offsets → Link (Offsets × ℕ)
unfolding item_size note_label
label_items whole [] offset labels = ok (labels, offset)
label_items whole (item ∷ items) offset labels = do
  instrument_size ← given_or_fail (item_size whole item)
  labels' ← note_label item offset labels
  label_items whole items (u32 (offset + instrument_size)) labels'

-- `xjs_c4_label_offset_map_extract` for function `wanted`, from function `funcid` on
unfoldable pub label_offsets : Whole → ℕ → List Function → ℕ → ℕ → Offsets → Link Offsets
unfolding skip_items label_items
label_offsets whole wanted [] funcid offset labels = ok labels
label_offsets whole wanted (func ∷ functions) funcid offset labels = do
  let start = u32 (offset + boilerplate_size func)
  (labels', offset') ←
      (if funcid == wanted
        then label_items whole func.items start labels
        else (do offset' ← skip_items whole func.items start; ok (labels, offset')))
  label_offsets whole wanted functions (suc funcid) offset' labels'

-- NULL for a map that could not be made: its caller does not look.
unfoldable pub labels_or_null : Link Offsets → Link (Option Offsets)
labels_or_null (ok m) = ok (some m)
labels_or_null (fail e) = ok none
labels_or_null fault = fault

abbrev pub size_sum : ℕ → ℕ → ℕ
size_sum offset n = (offset + n) % size_mod

-- The instructions of the parameters, from parameter `idx` on.
unfoldable pub annotate_parameters : Offsets → List ℕ → ℕ → ℕ → Link (List AnnotatedItem × ℕ)
unfolding map_get
annotate_parameters datas [] idx offset = ok ([], offset)
annotate_parameters datas (varname ∷ parameters) idx offset = do
  offset_data ← map_get datas varname
  (later, end) ← annotate_parameters datas parameters (suc idx) (size_sum offset (1 + 4 + 1))
  ok (record { inst = op_arg offset_data (u8 idx); offset = offset } ∷ later, end)

-- The size as it is added without a test, -1 as the largest number.
abbrev pub cast_size : Option ℕ → ℕ
cast_size none = size_mod - 1
cast_size (some n) = n

abbrev pub push_item : ℕ → Option Inst → List AnnotatedItem → List AnnotatedItem
push_item offset none items = items
push_item offset (some i) items = record { inst = i; offset = offset } ∷ items

-- What all items of a function have in common.
pub record Maps : Type 0 where
  pub labels : Option Offsets
  pub datas : Offsets
  pub functions : Offsets

abbrev pub context : Scheduler → Maps → ℕ → Context
context regsched maps point = record {
  register = regsched.alloc point;
  labels = maps.labels;
  datas = maps.datas;
  functions = maps.functions;
}

-- The instructions of the body, from the item at `point` on.
unfoldable pub annotate_items :
    Whole → Scheduler → Maps → List TextItem → ℕ → ℕ → Link (List AnnotatedItem × ℕ)
unfolding translate item_size
annotate_items whole regsched maps [] point offset = ok ([], offset)
annotate_items whole regsched maps (item ∷ items) point offset = do
  inst ← translate whole (context regsched maps point) item
  let next = size_sum offset (cast_size (item_size whole item))
  (later, end) ← annotate_items whole regsched maps items (suc point) next
  ok (push_item offset inst later, end)

module _ (whole : Whole) (schedule : Function → Link Scheduler) (code : Code) (datas : Offsets)
    (functions : Offsets) where
  -- One turn of the loop of `xjs_c4_text_section_annotate`.
  unfoldable pub annotate_function : Function → ℕ → ℕ → Link (AnnotatedFunction × ℕ)
  unfolding map_get label_offsets labels_or_null annotate_parameters annotate_items
  annotate_function func funcid offset = do
    regsched ← schedule func
    start ← map_get functions funcid
    labels ← labels_or_null (label_offsets whole funcid code.functions 0 0 [])
    (arguments, offset₁) ← annotate_parameters datas func.parameters 0 offset
    let count : AnnotatedItem = record { inst = op_allocreg regsched.requirement; offset = offset₁ }
    let maps : Maps = record { labels = labels; datas = datas; functions = functions }
    (body, end) ← annotate_items whole regsched maps func.items 0 (size_sum offset₁ (1 + 1))
    ok (record { items = arguments ++ (count ∷ body); offset = start }, end)

  unfoldable pub annotate_functions : List Function → ℕ → ℕ → Link (List AnnotatedFunction)
  unfolding annotate_function
  annotate_functions [] funcid offset = ok []
  annotate_functions (func ∷ rest) funcid offset = do
    (annotated, end) ← annotate_function func funcid offset
    later ← annotate_functions rest (suc funcid) end
    ok (annotated ∷ later)

-- `xjs_c4_text_section_annotate`: the functions and the offset of the toplevel.
unfoldable pub text_section_annotate :
    Whole → (Function → Link Scheduler) → Code → Annotation → Link (List AnnotatedFunction × ℕ)
unfolding function_offsets annotate_functions
text_section_annotate whole schedule code dat = do
  let nothing : FunctionOffsets = record { offsets = []; toplevel = 0 }
  found ← function_offsets whole code.toplevel code.functions 0 0 nothing
  annotated ← annotate_functions whole schedule code dat.offsets found.offsets code.functions 0 0
  ok (annotated, found.toplevel)
