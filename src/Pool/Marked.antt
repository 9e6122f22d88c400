-- ===== src/Pool/Marked.antt =====
-- Which blocks the marks of a collection keep.
use mathlib.Core.Path.{subst}
use xenonjs.Base.{
  ℕ, List, [], ◌∷◌, map, Bool, true, false, ◌≡◌, refl, sym, ap, ◌∙◌, length, length-map, inl, inr,
  if◌then◌else◌, ◌==◌, ◌||◌, Bool-cases,
}
use xenonjs.Pool.Chain.{Block}
use xenonjs.Pool.Found.{Absent}
use xenonjs.Pool.Mark.{with_mark}
use xenonjs.Pool.Sweep.{AreDistinct, kept}
use xenonjs.Pool.Collect.{touch}

abbrev pub member : List ℕ → ℕ → Bool
member [] urid = false
member (u ∷ urids) urid = (urid == u) || member urids urid

-- The blocks with a urid of the list.
abbrev pub survivors : List ℕ → List Block → List Block
survivors urids [] = []
survivors urids (b ∷ bs) =
    if member urids b.urid then b ∷ survivors urids bs else survivors urids bs

abbrev pub marks : List ℕ → List Block → List Block
marks [] bs = bs
marks (u ∷ urids) bs = marks urids (map (touch u) bs)

abbrev mark : List ℕ → Block → Block
mark [] b = b
mark (u ∷ urids) b = mark urids (touch u b)

marks-nil : (urids : List ℕ) → marks urids [] ≡ []
marks-nil [] = refl
marks-nil (u ∷ urids) = marks-nil urids

marks-cons :
    (urids : List ℕ) (b : Block) (bs : List Block)
    → marks urids (b ∷ bs) ≡ mark urids b ∷ marks urids bs
marks-cons [] b bs = refl
marks-cons (u ∷ urids) b bs = marks-cons urids (touch u b) (map (touch u) bs)

pub length-marks : (urids : List ℕ) (bs : List Block) → length (marks urids bs) ≡ length bs
length-marks [] bs = refl
length-marks (u ∷ urids) bs = length-marks urids (map (touch u) bs) ∙ length-map bs (touch u)

-- A block is marked by its urid.
mark_lem :
    (urids : List ℕ) (v : Bool) (b : Block)
    → mark urids (with_mark v b) ≡ with_mark (v || member urids b.urid) b
mark_lem [] true b = refl
mark_lem [] false b = refl
mark_lem (u ∷ urids) v b = elim (Bool-cases (b.urid == u)) [
  | inl hit ↦
      ap (λ t. mark urids (if t then with_mark true b else with_mark v b)) hit
      ∙ mark_lem urids true b
      ∙ ap (λ t. with_mark t b) (sym (by_this v))
      ∙ ap (λ t. with_mark (v || (t || member urids b.urid)) b) (sym hit)
  | inr miss ↦
      ap (λ t. mark urids (if t then with_mark true b else with_mark v b)) miss
      ∙ mark_lem urids v b
      ∙ ap (λ t. with_mark (v || (t || member urids b.urid)) b) (sym miss)
]
  where
    by_this : (w : Bool) → (w || true) ≡ true
    by_this true = refl
    by_this false = refl

pub kept-marks :
    (urids : List ℕ) (bs : List Block)
    → kept (marks urids (map (with_mark false) bs)) ≡ map (with_mark true) (survivors urids bs)
kept-marks urids [] = ap kept (marks-nil urids)
kept-marks urids (b ∷ bs) =
    ap kept (
      marks-cons urids (with_mark false b) (map (with_mark false) bs)
      ∙ ap (λ t. t ∷ marks urids (map (with_mark false) bs)) (mark_lem urids false b))
    ∙ choose (member urids b.urid) (kept-marks urids bs)
  where
    choose :
        (m : Bool)
        → kept (marks urids (map (with_mark false) bs)) ≡ map (with_mark true) (survivors urids bs)
        → kept (with_mark m b ∷ marks urids (map (with_mark false) bs))
          ≡ map (with_mark true) (if m then b ∷ survivors urids bs else survivors urids bs)
    choose true e = ap (λ t. with_mark true b ∷ t) e
    choose false e = e

module _ (f : Block → Block) (same : (b : Block) → (f b).urid ≡ b.urid) where
  Absent-map : (urid : ℕ) (bs : List Block) → Absent urid bs → Absent urid (map f bs)
  Absent-map urid [] h = tt
  Absent-map urid (b ∷ bs) h = (λ e. h.0 (sym (same b) ∙ e), Absent-map urid bs h.1)

  pub AreDistinct-map : (bs : List Block) → AreDistinct bs → AreDistinct (map f bs)
  AreDistinct-map [] h = tt
  AreDistinct-map (b ∷ bs) h = (
    subst (λ u. Absent u (map f bs)) (sym (same b)) (Absent-map b.urid bs h.0),
    AreDistinct-map bs h.1,
  )

pub touch-urid : (u : ℕ) (b : Block) → (touch u b).urid ≡ b.urid
touch-urid u b = choose (b.urid == u)
  where
    choose : (m : Bool) → (if m then with_mark true b else b).urid ≡ b.urid
    choose true = refl
    choose false = refl

Absent-kept : (urid : ℕ) (bs : List Block) → Absent urid bs → Absent urid (kept bs)
Absent-kept urid [] h = tt
Absent-kept urid (b ∷ bs) h = choose b.marked (Absent-kept urid bs h.1)
  where
    choose : (m : Bool) → Absent urid (kept bs) → Absent urid (if m then b ∷ kept bs else kept bs)
    choose true rest = (h.0, rest)
    choose false rest = rest

pub AreDistinct-kept : (bs : List Block) → AreDistinct bs → AreDistinct (kept bs)
AreDistinct-kept [] h = tt
AreDistinct-kept (b ∷ bs) h = choose b.marked (AreDistinct-kept bs h.1)
  where
    choose : (m : Bool) → AreDistinct (kept bs) → AreDistinct (if m then b ∷ kept bs else kept bs)
    choose true rest = (Absent-kept b.urid bs h.0, rest)
    choose false rest = rest
