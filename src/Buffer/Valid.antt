-- ===== src/Buffer/Valid.antt =====
-- The representation invariant of a buffer, and the bytes that a buffer stands for.
use xenonjs.Base.{ℕ, ◌<◌, List, [], Option, none, some, ◌≡◌, length, take}
use xenonjs.Buffer.{Buffer, Malloc}

-- A byte is left behind the contents, for the NUL.
abbrev pub Holds : Option (List ℕ) → ℕ → ℕ → Type 0
Holds none size capacity = ⊥
Holds (some block) size capacity = (length block ≡ capacity) × (size < capacity)

abbrev pub IsValid : Buffer → Type 0
IsValid b = Holds b.body b.size b.capacity

abbrev pub contents_of : Option (List ℕ) → ℕ → List ℕ
contents_of none size = []
contents_of (some block) size = take size block

abbrev pub contents : Buffer → List ℕ
contents b = contents_of b.body b.size

-- What the allocator documents: a block that it gives has the size asked for.
abbrev pub IsMalloc : Malloc → Type 0
IsMalloc malloc = (n : ℕ) (block : List ℕ) → malloc n ≡ some block → length block ≡ n
