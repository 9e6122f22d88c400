-- ===== src/Pool/Union.antt =====
-- The blocks of all sub pools.
use mathlib.Core.List.{append_assoc}
use mathlib.Core.Path.{subst}
use xenonjs.Base.{
  ℕ, List, [], ◌∷◌, ◌++◌, true, false, ok, ◌≡◌, ◌≢◌, refl, sym, ap, ◌∙◌, length, inl, inr, ◌⊎◌,
  All-append,
}
use xenonjs.Pool.{SubPool}
use xenonjs.Pool.SubPools.{allocate_urid_try}
use xenonjs.Pool.Chain.{Block, IsSub}
use xenonjs.Pool.Found.{Absent, Found, block_get_by_urid-first, urid-cases}
use xenonjs.Pool.Sweep.{AreDistinct}
use xenonjs.Pool.Pools.{Pool, urid_unused}

abbrev pub flatten : List (List Block) → List Block
flatten [] = []
flatten (bs ∷ bss) = bs ++ flatten bss

-- Each sub pool has the blocks that are listed for it.
abbrev pub AreSubs : List SubPool → List (List Block) → Type 0
AreSubs [] [] = Unit
AreSubs [] (bs ∷ bss) = ⊥
AreSubs (s ∷ pools) [] = ⊥
AreSubs (s ∷ pools) (bs ∷ bss) = IsSub s bs × AreSubs pools bss

-- A pool of blocks with different urids, as many as it counts.
pub record IsPool (pool : Pool) (bss : List (List Block)) : Type 0 where
  pub subs : AreSubs pool.pools bss
  pub distinct : AreDistinct (flatten bss)
  pub counted : pool.num_allocated_blocks ≡ length (flatten bss)

pub flatten-append : (xs ys : List (List Block)) → flatten (xs ++ ys) ≡ flatten xs ++ flatten ys
flatten-append [] ys = refl
flatten-append (x ∷ xs) ys =
    ap (λ t. x ++ t) (flatten-append xs ys) ∙ sym (append_assoc x (flatten xs) (flatten ys))

pub AreSubs-append :
    (xs ys : List SubPool) (cs bs : List (List Block))
    → AreSubs xs cs
    → AreSubs ys bs
    → AreSubs (xs ++ ys) (cs ++ bs)
AreSubs-append [] ys [] bs h k = k
AreSubs-append [] ys (c ∷ cs) bs h k = absurd h
AreSubs-append (x ∷ xs) ys [] bs h k = absurd h
AreSubs-append (x ∷ xs) ys (c ∷ cs) bs h k = (h.0, AreSubs-append xs ys cs bs h.1 k)

pub Absent-append_front : (urid : ℕ) (xs ys : List Block) → Absent urid (xs ++ ys) → Absent urid xs
Absent-append_front urid [] ys h = tt
Absent-append_front urid (x ∷ xs) ys h = (h.0, Absent-append_front urid xs ys h.1)

pub Absent-append_back : (urid : ℕ) (xs ys : List Block) → Absent urid (xs ++ ys) → Absent urid ys
Absent-append_back urid [] ys h = h
Absent-append_back urid (x ∷ xs) ys h = Absent-append_back urid xs ys h.1

pub AreDistinct-insert :
    (front : List Block) (b : Block) (back : List Block)
    → AreDistinct (front ++ back)
    → Absent b.urid (front ++ back)
    → AreDistinct (front ++ (b ∷ back))
AreDistinct-insert [] b back h a = (a, h)
AreDistinct-insert (x ∷ front) b back h a = (
  All-append (λ c. c.urid ≢ x.urid) front (b ∷ back) (Absent-append_front x.urid front back h.0)
      (λ e. a.0 (sym e), Absent-append_back x.urid front back h.0),
  AreDistinct-insert front b back h.1 a.1,
)

Found-present : (urid : ℕ) (bs : List Block) → Found urid bs → ¬ Absent urid bs
Found-present urid bs f absent =
    (Absent-append_back urid f.front (f.block ∷ f.back) (subst (Absent urid) f.blocks_are absent)).0
      f.urid_is

allocate_urid_try-cases :
    (s : SubPool) (bs : List Block) (urid : ℕ)
    → IsSub s bs
    → ((allocate_urid_try s urid ≡ ok true) × Absent urid bs)
      ⊎ ((allocate_urid_try s urid ≡ ok false) × ¬ Absent urid bs)
unfolding allocate_urid_try
allocate_urid_try-cases s bs urid i = elim (urid-cases urid bs) [
  | inl (e, absent) ↦ inl (rw (block_get_by_urid-first s bs urid i, e) refl, absent)
  | inr (f, e) ↦ inr (rw (block_get_by_urid-first s bs urid i, e) refl, Found-present urid bs f)
]

pub urid_unused-cases :
    (pools : List SubPool) (bss : List (List Block)) (urid : ℕ)
    → AreSubs pools bss
    → ((urid_unused pools urid ≡ ok true) × Absent urid (flatten bss))
      ⊎ ((urid_unused pools urid ≡ ok false) × ¬ Absent urid (flatten bss))
unfolding urid_unused
urid_unused-cases [] [] urid h = inl (refl, tt)
urid_unused-cases [] (bs ∷ bss) urid h = absurd h
urid_unused-cases (s ∷ pools) [] urid h = absurd h
urid_unused-cases (s ∷ pools) (bs ∷ bss) urid h = elim (allocate_urid_try-cases s bs urid h.0) [
  | inr (e, present) ↦
      inr (rw e refl, λ absent. present (Absent-append_front urid bs (flatten bss) absent))
  | inl (e, absent) ↦ elim (urid_unused-cases pools bss urid h.1) [
    | inl (e', rest) ↦ inl (rw e e', All-append (λ c. c.urid ≢ urid) bs (flatten bss) absent rest)
    | inr (e', present) ↦
        inr (rw e e', λ all. present (Absent-append_back urid bs (flatten bss) all))
  ]
]
