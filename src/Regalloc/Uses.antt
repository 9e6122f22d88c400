-- ===== src/Regalloc/Uses.antt =====
-- Every use of a variable lies in its life, and the variables of an item have different registers.
use xenonjs.Base.{ℕ, ◌<◌, [], some, Result, ok, fail, fault, ◌≡◌, get_elem?}
use xenonjs.Regalloc.{Lives, R1, life_intervals, label_points, r1_alloc}
use xenonjs.Regalloc.Mentions.{Mentions}
use xenonjs.Regalloc.Table.{IsScheduled}
use xenonjs.Regalloc.Intervals.{AreLives, Grows}
use xenonjs.Text.{TextItem, br, br_cond, Function}
use xenonjs.Text.Translate.{Offsets, find}

-- What a branch leaves, if it fails too.
Branched : ℕ → Lives → Result Lives Lives → Type 0
Branched p lives (ok later) = AreLives p later × Grows lives later
Branched p lives (fail later) = AreLives p later × Grows lives later
Branched p lives fault = ⊥

-- The lives that come out of others.
GrownFrom : Lives → Lives → Type 0
GrownFrom lives later = ((q : ℕ) × AreLives q later) × Grows lives later

-- The destination of a branch is a label of the function.
abbrev pub IsLabelled : Offsets → TextItem → Type 0
IsLabelled labels (br dest) = (point : ℕ) × (find labels dest ≡ some point)
IsLabelled labels (br_cond _ dest) = (point : ℕ) × (find labels dest ≡ some point)
IsLabelled labels _ = Unit

-- The lives of a function.
abbrev pub lives_of : Function → Lives
lives_of func = life_intervals (label_points func.items 0) func.items 0 []

-- What the registers of a function are to its items.
pub record IsAllocated (func : Function) (sched : R1) : Type 0 where
  pub scheduled : IsScheduled (lives_of func) sched
  pub small :
      (k v : ℕ) (item : TextItem)
      → get_elem? func.items k ≡ some item
      → Mentions v item
      → (r : ℕ) × (r1_alloc sched k v ≡ ok r) × (r < 256)
  pub apart :
      (k u v : ℕ) (item : TextItem)
      → get_elem? func.items k ≡ some item
      → Mentions u item
      → Mentions v item
      → r1_alloc sched k u ≡ r1_alloc sched k v
      → u ≡ v
