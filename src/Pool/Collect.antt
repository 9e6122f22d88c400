-- ===== src/Pool/Collect.antt =====
-- A collection: the marks are cleared, blocks are marked, and the others are swept.
use mathlib.Core.List.{append_assoc}
use mathlib.Core.Path.{subst}
use xenonjs.Base.{
  ℕ, List, [], ◌∷◌, ◌++◌, map, Bool, true, false, ok, ◌≡◌, ◌≢◌, refl, sym, ap, ◌∙◌, arith, inl, inr,
  if◌then◌else◌, ◌==◌, ==_iff,
}
use xenonjs.Pool.{SubPool}
use xenonjs.Pool.Chain.{Block, IsSub}
use xenonjs.Pool.Found.{Absent, Found}
use xenonjs.Pool.Mark.{with_mark, sub_clear-IsSub, sub_mark-IsSub}
use xenonjs.Pool.Sweep.{AreDistinct}
use xenonjs.Pool.Union.{flatten, AreSubs, Absent-append_back, Absent-append_front}
use xenonjs.Pool.Pools.{clear_all, mark_in}

-- The mark of a urid.
abbrev pub touch : ℕ → Block → Block
touch urid b = if b.urid == urid then with_mark true b else b

map-append : (f : Block → Block) (xs ys : List Block) → map f (xs ++ ys) ≡ map f xs ++ map f ys
map-append f [] ys = refl
map-append f (x ∷ xs) ys = ap (λ t. f x ∷ t) (map-append f xs ys)

pub flatten-map :
    (f : Block → Block) (bss : List (List Block)) → flatten (map (map f) bss) ≡ map f (flatten bss)
flatten-map f [] = refl
flatten-map f (bs ∷ bss) =
    ap (λ t. map f bs ++ t) (flatten-map f bss) ∙ sym (map-append f bs (flatten bss))

pub clear_all-AreSubs :
    (pools : List SubPool) (bss : List (List Block))
    → AreSubs pools bss
    → (pools' : List SubPool) × (clear_all pools ≡ ok pools')
      × AreSubs pools' (map (map (with_mark false)) bss)
unfolding clear_all
clear_all-AreSubs [] [] h = ([], refl, tt)
clear_all-AreSubs [] (bs ∷ bss) h = absurd h
clear_all-AreSubs (s ∷ pools) [] h = absurd h
clear_all-AreSubs (s ∷ pools) (bs ∷ bss) h =
    let (s', done, is) = sub_clear-IsSub s bs h.0 in
    let (pools', later, are) = clear_all-AreSubs pools bss h.1 in
    (s' ∷ pools', rw (done, later) refl, (is, are))

untouched : (urid : ℕ) (bs : List Block) → Absent urid bs → map (touch urid) bs ≡ bs
untouched urid [] h = refl
untouched urid (b ∷ bs) h =
    let same : touch urid b ≡ b = ap (λ t. if t then with_mark true b else b) (differ b.urid h.0) in
    ap (λ t. t ∷ map (touch urid) bs) same ∙ ap (λ t. b ∷ t) (untouched urid bs h.1)
  where
    differ : (u : ℕ) → u ≢ urid → (u == urid) ≡ false
    differ u ne = ground arith

pub AreDistinct-append_back : (xs ys : List Block) → AreDistinct (xs ++ ys) → AreDistinct ys
AreDistinct-append_back [] ys h = h
AreDistinct-append_back (x ∷ xs) ys h = AreDistinct-append_back xs ys h.1

pub AreDistinct-append_front : (xs ys : List Block) → AreDistinct (xs ++ ys) → AreDistinct xs
AreDistinct-append_front [] ys h = tt
AreDistinct-append_front (x ∷ xs) ys h =
    (Absent-append_front x.urid xs ys h.0, AreDistinct-append_front xs ys h.1)

-- Behind a block of a urid there is no other.
Absent-behind :
    (urid : ℕ) (front : List Block) (b : Block) (back : List Block)
    → AreDistinct (front ++ (b ∷ back))
    → b.urid ≡ urid
    → Absent urid back
Absent-behind urid front b back h e =
    subst (λ u. Absent u back) e (AreDistinct-append_back front (b ∷ back) h).0

touched :
    (urid : ℕ) (bs : List Block)
    → AreDistinct bs
    → (f : Found urid bs) → f.front ++ (with_mark true f.block ∷ f.back) ≡ map (touch urid) bs
touched urid bs distinct f =
    let back =
      Absent-behind urid f.front f.block f.back (subst AreDistinct f.blocks_are distinct)
        f.urid_is in
    let hit : touch urid f.block ≡ with_mark true f.block =
      ap (λ t. if t then with_mark true f.block else f.block)
        ((==_iff f.block.urid urid).1 f.urid_is) in
    ap (λ t. t ++ (with_mark true f.block ∷ f.back)) (sym (untouched urid f.front f.absent))
    ∙ ap (λ t. map (touch urid) f.front ++ (with_mark true f.block ∷ t))
        (sym (untouched urid f.back back))
    ∙ ap (λ t. map (touch urid) f.front ++ (t ∷ map (touch urid) f.back)) (sym hit)
    ∙ sym (map-append (touch urid) f.front (f.block ∷ f.back))
    ∙ ap (map (touch urid)) (sym f.blocks_are)

pub mark_in-AreSubs :
    (pools : List SubPool) (bss : List (List Block)) (urid : ℕ)
    → AreSubs pools bss
    → AreDistinct (flatten bss)
    → (m : Bool) × (pools' : List SubPool) × (bss' : List (List Block)) × (mark_in pools urid
        ≡ ok (m, pools'))
      × AreSubs pools' bss'
      × (flatten bss' ≡ map (touch urid) (flatten bss))
unfolding mark_in
mark_in-AreSubs [] [] urid h distinct = (false, [], [], refl, tt, refl)
mark_in-AreSubs [] (bs ∷ bss) urid h distinct = absurd h
mark_in-AreSubs (s ∷ pools) [] urid h distinct = absurd h
mark_in-AreSubs (s ∷ pools) (bs ∷ bss) urid h distinct = elim (sub_mark-IsSub s bs urid h.0) [
  | inl (e, absent) ↦
      let (m, pools', bss', done, are, flat) =
        mark_in-AreSubs pools bss urid h.1 (AreDistinct-append_back bs (flatten bss) distinct) in
      (
        m,
        s ∷ pools',
        bs ∷ bss',
        rw (e, done) refl,
        (h.0, are),
        ap (λ t. bs ++ t) flat
            ∙ ap (λ t. t ++ map (touch urid) (flatten bss)) (sym (untouched urid bs absent))
            ∙ sym (map-append (touch urid) bs (flatten bss)),
      )
  | inr (f, s', e, is) ↦
      let here = AreDistinct-append_front bs (flatten bss) distinct in
      let split = f.blocks_are in
      let later : Absent urid (flatten bss) = Absent-append_back urid f.back (flatten bss) (
        Absent-behind urid f.front f.block (f.back ++ flatten bss)
          (subst AreDistinct
            (ap (λ t. t ++ flatten bss) split
              ∙ append_assoc f.front (f.block ∷ f.back) (flatten bss))
            distinct)
          f.urid_is) in
      (
        f.block.marked,
        s' ∷ pools,
        map (touch urid) bs ∷ bss,
        rw e refl,
        (subst (IsSub s') (touched urid bs here f) is, h.1),
        ap (λ t. map (touch urid) bs ++ t) (sym (untouched urid (flatten bss) later))
            ∙ sym (map-append (touch urid) bs (flatten bss)),
      )
]
