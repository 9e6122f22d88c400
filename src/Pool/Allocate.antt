-- ===== src/Pool/Allocate.antt =====
-- What an allocation in the pool does.
use mathlib.Core.List.{append_assoc, append-nil}
use mathlib.Core.Path.{subst}
use xenonjs.Base.{
  ℕ, zero, suc, ◌+◌, ◌^◌, ◌≤◌, ◌<◌, List, [], ◌∷◌, ◌++◌, Bool, false, ok, ◌≡◌, refl, sym, ap, ◌∙◌,
  arith, length, inl, inr, ◌⊎◌, ltb, ◌==◌, Bool-cases, ltb→lt, u32,
}
use xenonjs.Pool.{Access, SubPool, urid_invalid}
use xenonjs.Pool.Chain.{Block}
use xenonjs.Pool.Found.{Absent}
use xenonjs.Pool.Malloc.{IsPlaced, IsFull, malloc_with_urid-IsPlaced}
use xenonjs.Pool.Union.{flatten, flatten-append, AreSubs, AreSubs-append, urid_unused-cases}
use xenonjs.Pool.Pools.{allocate_urid_from, allocate_urid, sub_malloc, malloc_in}

-- No urid is left.
abbrev pub AreUsedUp : List Block → Type 0
AreUsedUp bs = (u : ℕ) → u < urid_invalid → ¬ Absent u bs

allocate_urid_from-cases :
    (left u : ℕ) (pools : List SubPool) (bss : List (List Block))
    → AreSubs pools bss
    → ((r : ℕ) × (allocate_urid_from left u pools ≡ ok r) × (r < u + left) × Absent r (flatten bss))
      ⊎ ((allocate_urid_from left u pools ≡ ok urid_invalid)
          × ((v : ℕ) → u ≤ v → v < u + left → ¬ Absent v (flatten bss)))
unfolding allocate_urid_from
allocate_urid_from-cases zero u pools bss h = inr (refl, λ v p q. absurd (omega arith))
allocate_urid_from-cases (suc left) u pools bss h = elim (urid_unused-cases pools bss u h) [
  | inl (e, absent) ↦ inl (u, rw e refl, omega arith, absent)
  | inr (e, present) ↦ elim (allocate_urid_from-cases left (suc u) pools bss h) [
    | inl (r, e', small, absent) ↦ inl (r, rw e e', omega (arith, small), absent)
    | inr (e', none_left) ↦ inr (
      rw e e',
      λ v p q. elim (same_or_above u v p) [
        | inl same ↦ subst (λ w. ¬ Absent w (flatten bss)) same present
        | inr above ↦ none_left v above (omega arith)
      ],
    )
  ]
]
  where
    same_or_above : (a b : ℕ) → a ≤ b → (a ≡ b) ⊎ (suc a ≤ b)
    same_or_above a b h = elim (Bool-cases (a == b)) [
      | inl e ↦ inl (ground arith)
      | inr e ↦ inr (ground arith)
    ]

pub allocate_urid-cases :
    (pools : List SubPool) (bss : List (List Block))
    → AreSubs pools bss
    → ((r : ℕ) × (allocate_urid pools ≡ ok r) × (r < urid_invalid) × Absent r (flatten bss))
      ⊎ ((allocate_urid pools ≡ ok urid_invalid) × AreUsedUp (flatten bss))
unfolding allocate_urid
allocate_urid-cases pools bss h = elim (allocate_urid_from-cases urid_invalid 0 pools bss h) [
  | inl (r, e, small, absent) ↦ inl (r, e, omega (arith, small), absent)
  | inr (e, used_up) ↦ inr (e, λ u small. used_up u (omega arith) (omega (arith, small)))
]

-- The sub pools have a new block with an unused urid, and all of the others as they were.
pub record IsAdded (bs : List Block) (urid size : ℕ) (managed : Bool) (pools' : List SubPool)
    : Type 0 where
  pub front : List Block
  pub back : List Block
  pub new : Block
  pub blocks' : List (List Block)
  pub blocks_are : bs ≡ front ++ back
  pub blocks_are' : flatten blocks' ≡ front ++ (new ∷ back)
  pub urid_is : new.urid ≡ urid
  pub marked_is : new.marked ≡ managed
  pub length_is : length new.body ≡ size
  pub unused : Absent urid bs
  pub subs : AreSubs pools' blocks'

-- A sub pool is too full, or too split up.
abbrev pub Refuses : ℕ → SubPool → List Block → Type 0
Refuses size s bs = (s.size_free < size + 6) ⊎ IsFull size bs

abbrev pub AllRefuse : ℕ → List SubPool → List (List Block) → Type 0
AllRefuse size [] bss = Unit
AllRefuse size (s ∷ pools) [] = ⊥
AllRefuse size (s ∷ pools) (bs ∷ bss) = Refuses size s bs × AllRefuse size pools bss

-- A block is added, or none, for want of a urid or for the reason `R`.
abbrev pub Tried :
    List SubPool → List Block → ℕ → Bool → Type 0 → Access (ℕ × List SubPool) → Type 0
Tried pools bs size managed R m =
    ((r : ℕ) × (pools' : List SubPool) × (m ≡ ok (r, pools'))
      × (r < urid_invalid)
      × IsAdded bs r size managed pools')
    ⊎ ((m ≡ ok (urid_invalid, pools)) × (AreUsedUp bs ⊎ R))

Tried-shift :
    (pools pools' : List SubPool) (bs bs' : List Block) (size : ℕ) (managed : Bool) (R R' : Type 0)
    (m m' : Access (ℕ × List SubPool))
    → pools ≡ pools'
    → bs ≡ bs'
    → m' ≡ m
    → (AreUsedUp bs ⊎ R → AreUsedUp bs ⊎ R')
    → Tried pools bs size managed R m
    → Tried pools' bs' size managed R' m'
Tried-shift pools pools' bs bs' size managed R R' m m' p e step why
      (inl (r, after, done, small, is)) =
    inl (r, after, step ∙ done, small, subst (λ t. IsAdded t r size managed after) e is)
Tried-shift pools pools' bs bs' size managed R R' m m' p e step why (inr (done, reason)) =
    inr (step ∙ done ∙ ap (λ t. refused t) p, subst (λ t. AreUsedUp t ⊎ R') e (why reason))
  where
    refused : List SubPool → Access (ℕ × List SubPool)
    refused t = ok (urid_invalid, t)

pub leb-of_not_ltb : (a b : ℕ) → ltb a b ≡ false → b ≤ a
leb-of_not_ltb a b h = ground arith

pub differs : (r : ℕ) → r < urid_invalid → (r == urid_invalid) ≡ false
differs r h = ground arith

module _ (size : ℕ) (managed : Bool) (small : size + 6 < 2 ^ 32) where
  added :
      (before rest : List SubPool) (bssb bssr : List (List Block)) (bs : List Block) (s' : SubPool)
      (r : ℕ)
      → AreSubs before bssb
      → AreSubs rest bssr
      → Absent r (flatten (bssb ++ (bs ∷ bssr)))
      → IsPlaced bs r size managed s'
      → IsAdded (flatten (bssb ++ (bs ∷ bssr))) r size managed (before ++ (s' ∷ rest))
  added before rest bssb bssr bs s' r hb hr unused p = record {
    front = flatten bssb ++ p.front;
    back = p.back ++ flatten bssr;
    new = p.new;
    blocks' = bssb ++ ((p.front ++ (p.new ∷ p.back)) ∷ bssr);
    blocks_are =
        flatten-append bssb (bs ∷ bssr)
        ∙ ap (λ t. flatten bssb ++ (t ++ flatten bssr)) p.blocks_are
        ∙ regroup p.back;
    blocks_are' =
        flatten-append bssb ((p.front ++ (p.new ∷ p.back)) ∷ bssr) ∙ regroup (p.new ∷ p.back);
    urid_is = p.urid_is;
    marked_is = p.marked_is;
    length_is = p.length_is;
    unused = unused;
    subs =
        AreSubs-append before (s' ∷ rest) bssb ((p.front ++ (p.new ∷ p.back)) ∷ bssr) hb
          (p.is_sub, hr);
  }
    where
      regroup :
          (t : List Block)
          → flatten bssb ++ ((p.front ++ t) ++ flatten bssr)
            ≡ (flatten bssb ++ p.front) ++ (t ++ flatten bssr)
      regroup t =
          ap (λ x. flatten bssb ++ x) (append_assoc p.front t (flatten bssr))
          ∙ sym (append_assoc (flatten bssb) p.front (t ++ flatten bssr))

  pub malloc_in-Tried :
      (before rest : List SubPool) (bssb bssr : List (List Block))
      → AreSubs before bssb
      → AreSubs rest bssr
      → Tried
          (before ++ rest)
          (flatten (bssb ++ bssr))
          size
          managed
          (AllRefuse size rest bssr)
          (malloc_in before rest size managed)
  unfolding malloc_in sub_malloc
  malloc_in-Tried before [] bssb [] hb hr =
      inr (ap (λ t. ok (urid_invalid, t)) (sym (append-nil before)), inr tt)
  malloc_in-Tried before [] bssb (bs ∷ bssr) hb hr = absurd hr
  malloc_in-Tried before (s ∷ rest) bssb [] hb hr = absurd hr
  malloc_in-Tried before (s ∷ rest) bssb (bs ∷ bssr) hb hr =
      let all = before ++ (s ∷ rest) in
      let blocks = flatten (bssb ++ (bs ∷ bssr)) in
      let later =
        malloc_in-Tried (before ++ (s ∷ [])) rest (bssb ++ (bs ∷ [])) bssr
          (AreSubs-append before (s ∷ []) bssb (bs ∷ []) hb (hr.0, tt)) hr.1 in
      let subs = AreSubs-append before (s ∷ rest) bssb (bs ∷ bssr) hb hr in
      let flat = ap flatten (append_assoc bssb (bs ∷ []) bssr) in
      let next = malloc_in (before ++ (s ∷ [])) rest size managed in
      let shift =
        Tried-shift ((before ++ (s ∷ [])) ++ rest) all (flatten ((bssb ++ (bs ∷ [])) ++ bssr))
          blocks size managed (AllRefuse size rest bssr)
          (Refuses size s bs × AllRefuse size rest bssr) next
          (malloc_in before (s ∷ rest) size managed) (append_assoc before (s ∷ []) rest) flat in
      elim (Bool-cases (ltb s.size_free (u32 (6 + size)))) [
        | inl full ↦
            shift (rw full refl)
              (and_this (inl (omega (arith, ltb→lt s.size_free (u32 (6 + size)) full)))) later
        | inr room ↦ elim (allocate_urid-cases all (bssb ++ (bs ∷ bssr)) subs) [
          | inr (e, used_up) ↦
              shift (rw (room, e) refl) (λ why. inl (subst AreUsedUp (sym flat) used_up)) later
          | inl (r, e, below, unused) ↦
              elim (malloc_with_urid-IsPlaced s r size managed (omega (arith, below)) bs hr.0
                (omega (arith, leb-of_not_ltb s.size_free (u32 (6 + size)) room))) [
                  | inl (s', done, p) ↦ inl (
                    r,
                    before ++ (s' ∷ rest),
                    rw (room, e, differs r below, done, differs r below) refl,
                    below,
                    added before rest bssb bssr bs s' r hb hr.1 unused p,
                  )
                  | inr (done, tight) ↦
                      shift (rw (room, e, differs r below, done) refl) (and_this (inr tight)) later
                ]
        ]
      ]
    where
      and_this : {U Q R : Type 0} → Q → U ⊎ R → U ⊎ (Q × R)
      and_this q (inl u) = inl u
      and_this q (inr r) = inr (q, r)
