-- ===== src/Pool/Chain.antt =====
-- What a sub pool means: the blocks of its chain.
use xenonjs.Base.{
  ℕ, ◌+◌, ◌^◌, ◌≤◌, ◌<◌, List, [], ◌∷◌, ◌++◌, Bool, ◌≡◌, refl, sym, ◌∙◌, arith, length,
  if◌then◌else◌,
}
use xenonjs.Pool.{Memory, SubPool, word}
use xenonjs.Pool.Words.{slice, AgreeOn, word-agree, slice-agree}

-- A block: where its header is, its urid, whether it is marked, and its contents.
pub record Block : Type 0 where
  pub at : ℕ
  pub urid : ℕ
  pub marked : Bool
  pub body : List ℕ

-- The first word of a header.
abbrev pub tag : Block → ℕ
tag b = if b.marked then b.urid + 2 ^ 14 else b.urid

-- The offset behind a block.
abbrev pub end : Block → ℕ
end b = b.at + 6 + length b.body

pub record IsBlock (m : Memory) (b : Block) : Type 0 where
  pub tag_is : word m b.at ≡ tag b
  pub size_is : word m (b.at + 2) ≡ length b.body
  pub body_is : slice m (b.at + 6) (length b.body) ≡ b.body
  pub urid_small : b.urid < 2 ^ 14

abbrev pub start_or : List Block → ℕ → ℕ
start_or [] stop = stop
start_or (b ∷ bs) stop = b.at

abbrev pub end_or : ℕ → List Block → ℕ
end_or lo [] = lo
end_or lo (b ∷ bs) = end_or (end b) bs

-- From `lo` on `bs` stand one behind the other, each with the offset of the next, the last with
-- `stop`.
abbrev pub Seg : Memory → ℕ → List Block → ℕ → Type 0
Seg m lo [] stop = lo ≤ stop
Seg m lo (b ∷ bs) stop =
    (lo ≤ b.at) × IsBlock m b × (word m (b.at + 4) ≡ start_or bs stop) × Seg m (end b) bs stop

-- The bytes of blocks and their headers.
abbrev pub used : List Block → ℕ
used [] = 0
used (b ∷ bs) = 6 + length b.body + used bs

-- The offset of the final block.
abbrev pub final_at : ℕ
final_at = 4090

pub record IsSub (s : SubPool) (bs : List Block) : Type 0 where
  pub capacity_is : s.size_capacity ≡ 4096
  pub begin_is : s.offset_begin ≡ start_or bs final_at
  pub seg : Seg s.base 0 bs final_at
  pub final_tag : word s.base 4090 ≡ 0x3FFE
  pub final_size : word s.base 4092 ≡ 0
  pub final_next : word s.base 4094 ≡ 0x3FFF
  pub free_is : s.size_free + used bs ≡ 4090

pub Seg-le :
    (m : Memory) (lo : ℕ) (bs : List Block) (stop : ℕ) → Seg m lo bs stop → lo + used bs ≤ stop
Seg-le m lo [] stop h = omega arith
Seg-le m lo (b ∷ bs) stop h = omega (arith, h.0, Seg-le m (end b) bs stop h.3)

pub Seg-start :
    (m : Memory) (lo : ℕ) (bs : List Block) (stop : ℕ)
    → Seg m lo bs stop
    → (lo ≤ start_or bs stop) × (start_or bs stop ≤ stop)
Seg-start m lo [] stop h = (h, omega arith)
Seg-start m lo (b ∷ bs) stop h = (h.0, omega (arith, Seg-le m (end b) bs stop h.3))

pub Seg-raise :
    (m : Memory) (lo lo' : ℕ) (bs : List Block) (stop : ℕ)
    → Seg m lo bs stop
    → lo' ≤ start_or bs stop
    → Seg m lo' bs stop
Seg-raise m lo lo' [] stop h k = k
Seg-raise m lo lo' (b ∷ bs) stop h k = (k, h.1, h.2, h.3)

pub IsBlock-agree :
    (m m' : Memory) (lo hi : ℕ) (b : Block)
    → AgreeOn lo hi m m'
    → lo ≤ b.at
    → end b ≤ hi
    → IsBlock m b
    → IsBlock m' b
IsBlock-agree m m' lo hi b same h k i = record {
  tag_is = word-agree m m' lo hi b.at same h (omega arith) ∙ i.tag_is;
  size_is = word-agree m m' lo hi (b.at + 2) same (omega arith) (omega arith) ∙ i.size_is;
  body_is =
      slice-agree m m' lo hi (b.at + 6) (length b.body) same (omega arith) (omega arith)
      ∙ i.body_is;
  urid_small = i.urid_small;
}

-- A chain is still there after a change elsewhere.
pub Seg-agree :
    (m m' : Memory) (lo : ℕ) (bs : List Block) (stop : ℕ)
    → AgreeOn lo stop m m'
    → Seg m lo bs stop
    → Seg m' lo bs stop
Seg-agree m m' lo [] stop same h = h
Seg-agree m m' lo (b ∷ bs) stop same h =
    let below = Seg-le m (end b) bs stop h.3 in
    (
      h.0,
      IsBlock-agree m m' lo stop b same h.0 (omega arith) h.1,
      word-agree m m' lo stop (b.at + 4) same (omega (arith, h.0)) (omega arith) ∙ h.2,
      Seg-agree m m' (end b) bs stop (λ i p q. same i (omega (arith, h.0)) q) h.3,
    )

pub start_or-append :
    (xs ys : List Block) (stop : ℕ) → start_or (xs ++ ys) stop ≡ start_or xs (start_or ys stop)
start_or-append [] ys stop = refl
start_or-append (x ∷ xs) ys stop = refl

-- A chain is two, the first of which leads to the second.
pub Seg-split :
    (m : Memory) (lo : ℕ) (xs ys : List Block) (stop : ℕ)
    → Seg m lo (xs ++ ys) stop
    → Seg m lo xs (start_or ys stop) × Seg m (end_or lo xs) ys stop
Seg-split m lo [] ys stop h = ((Seg-start m lo ys stop h).0, h)
Seg-split m lo (x ∷ xs) ys stop h =
    let (front, back) = Seg-split m (end x) xs ys stop h.3 in
    ((h.0, h.1, h.2 ∙ start_or-append xs ys stop, front), back)

pub Seg-append :
    (m : Memory) (lo : ℕ) (xs ys : List Block) (stop : ℕ)
    → Seg m lo xs (start_or ys stop)
    → Seg m (end_or lo xs) ys stop
    → Seg m lo (xs ++ ys) stop
Seg-append m lo [] ys stop h k = k
Seg-append m lo (x ∷ xs) ys stop h k =
    (h.0, h.1, h.2 ∙ sym (start_or-append xs ys stop), Seg-append m (end x) xs ys stop h.3 k)

pub used-append : (xs ys : List Block) → used (xs ++ ys) ≡ used xs + used ys
used-append [] ys = omega arith
used-append (x ∷ xs) ys = omega (arith, used-append xs ys)

-- A block is still there if only its offset of the next one is another.
pub IsBlock-relink :
    (m m' : Memory) (b : Block)
    → AgreeOn b.at (b.at + 4) m m'
    → AgreeOn (b.at + 6) (end b) m m'
    → IsBlock m b
    → IsBlock m' b
IsBlock-relink m m' b head body i = record {
  tag_is = word-agree m m' b.at (b.at + 4) b.at head (omega arith) (omega arith) ∙ i.tag_is;
  size_is = word-agree m m' b.at (b.at + 4) (b.at + 2) head (omega arith) (omega arith) ∙ i.size_is;
  body_is =
      slice-agree m m' (b.at + 6) (end b) (b.at + 6) (length b.body) body (omega arith)
        (omega arith)
      ∙ i.body_is;
  urid_small = i.urid_small;
}

-- What is known of the final block, of the capacity and of the start.
pub IsSub-kept :
    (s s' : SubPool) (bs bs' : List Block)
    → IsSub s bs
    → AgreeOn 4090 4096 s.base s'.base
    → s'.size_capacity ≡ s.size_capacity
    → s'.offset_begin ≡ start_or bs' final_at
    → Seg s'.base 0 bs' final_at
    → s'.size_free + used bs' ≡ 4090
    → IsSub s' bs'
IsSub-kept s s' bs bs' i same capacity begin seg free = record {
  capacity_is = capacity ∙ i.capacity_is;
  begin_is = begin;
  seg = seg;
  final_tag =
      word-agree s.base s'.base 4090 4096 4090 same (omega arith) (omega arith) ∙ i.final_tag;
  final_size =
      word-agree s.base s'.base 4090 4096 4092 same (omega arith) (omega arith) ∙ i.final_size;
  final_next =
      word-agree s.base s'.base 4090 4096 4094 same (omega arith) (omega arith) ∙ i.final_next;
  free_is = free;
}
