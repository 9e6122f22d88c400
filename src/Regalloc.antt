-- ===== src/Regalloc.antt =====
-- compiler/src/xjs_c4_regalloc.c: the life intervals of the variables of a function, and the
-- registers that the R1 scheduler gives them at each point.
pub mod Apart
pub mod Held
pub mod Table
pub mod Intervals
pub mod Mentions
pub mod Uses
use xenonjs.Base.{
  ℕ, zero, suc, ◌+◌, ◌-◌, ◌^◌, List, [], ◌∷◌, ◌++◌, map, Bool, true, false, Option, none, some,
  Result, ok, fail, fault, ◌>>=◌, ◌&&◌, ltb, leb, ◌==◌, if◌then◌else◌, u8, length, get_elem?, set,
  replicate,
}
use xenonjs.Linker.File.{Link, given_or_fail}
use xenonjs.Text.{
  TextItem, nop, halt, push_scope, pop_scope, inspect, label, br, alloca, load_undefined, load_null,
  load_object, load_array, declvar, ret, this, dynlib, br_cond, load_string, load, store,
  array_push, make_function, make_arrow_function, load_bool, load_number, object_get, merge,
  object_set, call, new, binary, unary, Function,
}
use xenonjs.Text.Translate.{Offsets, find}
use xenonjs.Text.Annotate.{Scheduler}

-- A variable and its `xjs_var_life_interval`.
pub record Life : Type 0 where
  pub var : ℕ
  pub start : ℕ
  pub end : ℕ

-- The map of deps/ec from variables to intervals, which is gone over by rising variables.
abbrev pub Lives : Type 0
Lives = List Life

unfoldable pub insert_life : Life → Lives → Lives
insert_life life [] = life ∷ []
insert_life life (first ∷ lives) =
    let rest = insert_life life lives in
    if ltb life.var first.var then life ∷ first ∷ lives else first ∷ rest

unfoldable pub has_life : Lives → ℕ → Bool
has_life [] ir_var = false
has_life (life ∷ lives) ir_var = if life.var == ir_var then true else has_life lives ir_var

unfoldable pub set_end : ℕ → ℕ → Lives → Lives
set_end ir_var point =
    map (λ life. if life.var == ir_var then record life { end = point } else life)

unfoldable pub update_point : ℕ → ℕ → Lives → Lives
unfolding insert_life has_life set_end
update_point cur_point ir_var lpm =
    if has_life lpm ir_var
    then set_end ir_var cur_point lpm
    else insert_life (record { var = ir_var; start = cur_point; end = cur_point }) lpm

unfoldable pub update_points : ℕ → List ℕ → Lives → Lives
unfolding update_point
update_points cur_point [] lpm = lpm
update_points cur_point (v ∷ vs) lpm = update_points cur_point vs (update_point cur_point v lpm)

-- Lives that go on to the destination of a branch go on to the branch. A failure leaves the map.
unfoldable pub extend_point : Offsets → ℕ → ℕ → Lives → Result Lives Lives
unfolding find
extend_point labels cur_point dest lpm = elim (find labels dest) [
  | none ↦ fail lpm
  | some dest_point ↦
      ok (
        map (λ life. if ltb life.end dest_point then life else record life { end = cur_point }) lpm)
]

-- The calls of UPDATE_POINT for an item.
abbrev pub variables : TextItem → List ℕ
variables nop = []
variables halt = []
variables push_scope = []
variables pop_scope = []
variables (label _) = []
variables (dynlib exports name) = exports ∷ name ∷ []
variables (br _) = []
variables (br_cond cond _) = cond ∷ []
variables (merge test csq alt dst) = test ∷ csq ∷ alt ∷ dst ∷ []
variables (alloca var) = var ∷ []
variables (load_undefined var) = var ∷ []
variables (load_null var) = var ∷ []
variables (load_bool var _) = var ∷ []
variables (load_string var _) = var ∷ []
variables (load_number var _) = var ∷ []
variables (load_object var) = var ∷ []
variables (load_array var) = var ∷ []
variables (declvar _) = []
variables (load var _) = var ∷ []
variables (store _ var) = var ∷ []
variables (object_set dst obj member src) = dst ∷ obj ∷ member ∷ src ∷ []
variables (object_get dst obj member) = dst ∷ member ∷ obj ∷ []
variables (array_push arr elem) = arr ∷ elem ∷ []
variables (inspect var) = var ∷ []
variables (ret var) = var ∷ []
variables (make_function var _) = var ∷ []
variables (make_arrow_function var _) = var ∷ []
variables (call dst callee arguments none) = dst ∷ callee ∷ arguments
variables (call dst callee arguments (some self)) = dst ∷ callee ∷ self ∷ arguments
variables (new dst callee arguments) = dst ∷ callee ∷ arguments
variables (this dst) = dst ∷ []
variables (binary _ dst lhs rhs) = dst ∷ lhs ∷ rhs ∷ []
variables (unary _ dst src) = dst ∷ src ∷ []

-- The calls of EXTEND_POINT behind them.
unfoldable pub branch : Offsets → ℕ → TextItem → Lives → Result Lives Lives
unfolding extend_point
branch labels cur_point (br dest) lpm = extend_point labels cur_point dest lpm
branch labels cur_point (br_cond _ dest) lpm = extend_point labels cur_point dest lpm
branch labels cur_point _ lpm = ok lpm

-- `xjs_c4_function_var_life_interval_extract`, from the item at `cur_point` on: where it fails it
-- gives the map as it is.
unfoldable pub life_intervals : Offsets → List TextItem → ℕ → Lives → Lives
unfolding update_points branch
life_intervals labels [] cur_point lpm = lpm
life_intervals labels (item ∷ items) cur_point lpm =
    elim (branch labels cur_point item (update_points cur_point (variables item) lpm)) [
      | ok lpm' ↦ life_intervals labels items (suc cur_point) lpm'
      | fail lpm' ↦ lpm'
      | fault ↦ lpm
    ]

-- `xjs_c4_label_point_map_extract`, from the item at `point` on: of the points of a label the map
-- keeps the first.
unfoldable pub label_points : List TextItem → ℕ → Offsets
label_points [] point = []
label_points (label l ∷ items) point = (l, point) ∷ label_points items (suc point)
label_points (item ∷ items) point = label_points items (suc point)

-- `vreg_using` and `vec_ir_var_to_reg`, where `none` is -1.
pub record Registers : Type 0 where
  pub using : List Bool
  pub regs : List (Option ℕ)

-- The search of `allocate_vreg` from index `idx` on.
unfoldable pub allocate_vreg : List Bool → ℕ → Option ℕ
allocate_vreg [] idx = none
allocate_vreg (false ∷ bits) idx = some idx
allocate_vreg (true ∷ bits) idx = allocate_vreg bits (suc idx)

-- A life that starts. A variable beyond the vector is set outside of it.
unfoldable pub start_life : Life → Registers → Link Registers
unfolding allocate_vreg
start_life life s = do
  vreg ← given_or_fail (allocate_vreg s.using 0)
  if ltb life.var (length s.regs)
      then ok (record { using = set s.using vreg true; regs = set s.regs life.var (some vreg) })
      else fault

-- A life that ends; its register is cast to 8 bits before it is given back.
unfoldable pub end_life : Life → Registers → Link Registers
end_life life s = elim (get_elem? s.regs life.var) [
  | none ↦ fault
  | some none ↦ fail tt
  | some (some vreg) ↦
      ok (record { using = set s.using (u8 vreg) false; regs = set s.regs life.var none })
]

unfoldable pub start_lives : ℕ → Lives → Registers → Link Registers
unfolding start_life
start_lives cur_lp [] s = ok s
start_lives cur_lp (life ∷ lives) s = do
  s' ← (if cur_lp == life.start then start_life life s else ok s)
  start_lives cur_lp lives s'

unfoldable pub end_lives : ℕ → Lives → Registers → Link Registers
unfolding end_life
end_lives cur_lp [] s = ok s
end_lives cur_lp (life ∷ lives) s = do
  s' ← (if cur_lp == life.end then end_life life s else ok s)
  end_lives cur_lp lives s'

-- The columns of the table for `left` points from `cur_lp` on.
unfoldable pub timeline : Lives → ℕ → ℕ → Registers → Link (List (List (Option ℕ)))
unfolding start_lives end_lives
timeline lives zero cur_lp s = ok []
timeline lives (suc left) cur_lp s = do
  s₁ ← start_lives cur_lp lives s
  s₂ ← end_lives cur_lp lives s₁
  later ← timeline lives left (suc cur_lp) s₂
  ok (s₁.regs ∷ later)

-- How many of the variables below `num` live at a point.
unfoldable pub living : Lives → ℕ → ℕ → ℕ
living [] num lp = 0
living (life ∷ lives) num lp =
    let rest = living lives num lp in
    if ltb life.var num && (leb life.start lp && leb lp life.end) then suc rest else rest

abbrev pub max2 : ℕ → ℕ → ℕ
max2 a b = if ltb a b then b else a

-- The largest number at `left` points from `lp` on.
unfoldable pub max_living : Lives → ℕ → ℕ → ℕ → ℕ → ℕ
unfolding living
max_living lives num zero lp best = best
max_living lives num (suc left) lp best =
    max_living lives num left (suc lp) (max2 best (living lives num lp))

unfoldable pub last_end : Lives → ℕ → ℕ
last_end [] found = found
last_end (life ∷ lives) found = last_end lives (max2 found life.end)

-- What the R1 scheduler keeps.
pub record R1 : Type 0 where
  pub reg_alloc_tbl : List (List (Option ℕ))
  pub regs_count : ℕ

-- `xjs_regsched_set_r1` behind the extraction of the intervals.
unfoldable pub schedule_lives : Lives → Link R1
unfolding timeline max_living last_end
schedule_lives lpm = do
  let ir_var_num = length lpm
  let period_end = last_end lpm 0 + 1
  let count = max_living lpm ir_var_num period_end 0 0
  let s : Registers = record {
    using = replicate (max2 count 1) false;
    regs = replicate ir_var_num none;
  }
  tbl ← timeline lpm period_end 0 s
  ok (record { reg_alloc_tbl = tbl; regs_count = count })

unfoldable pub set_r1 : Function → Link R1
unfolding schedule_lives life_intervals label_points
set_r1 func = schedule_lives (life_intervals (label_points func.items 0) func.items 0 [])

-- `xjs_regsched_alloc`: the `int` of the table, -1 for no register. A read outside of the table is
-- `fault`.
unfoldable pub r1_alloc : R1 → ℕ → ℕ → Link ℕ
r1_alloc sched lp_cur var = elim (get_elem? sched.reg_alloc_tbl lp_cur) [
  | none ↦ fault
  | some column ↦ elim (get_elem? column var) [
    | none ↦ fault
    | some none ↦ ok (2 ^ 32 - 1)
    | some (some r) ↦ ok r
  ]
]

-- `xjs_regsched_initialize`, for the annotation of the text section; `beyond` is what the memory
-- around a table holds.
unfoldable pub regsched_initialize : (ℕ → ℕ → ℕ) → Function → Link Scheduler
unfolding set_r1 r1_alloc
regsched_initialize beyond func = do
  sched ← set_r1 func
  ok (record {
    alloc = λ lp var. elim (r1_alloc sched lp var) [ ok r ↦ r | _ ↦ beyond lp var ];
    requirement = sched.regs_count;
  })
