-- ===== src/Pool/Sweep.antt =====
-- What a sweep does in a sub pool.
use mathlib.Core.List.{append_assoc}
use mathlib.Core.Path.{subst}
use xenonjs.Base.{
  ℕ, zero, suc, ◌+◌, ◌≤◌, ◌<◌, List, [], ◌∷◌, ◌++◌, ok, ◌≡◌, ◌≢◌, refl, sym, ap, ◌∙◌, arith, length,
  if◌then◌else◌, inl, inr, Bool-cases,
}
use xenonjs.Pool.{SubPool}
use xenonjs.Pool.SubPools.{sweep_from, sub_sweep}
use xenonjs.Pool.Chain.{Block, end, start_or, IsSub, Seg-start, Seg-split}
use xenonjs.Pool.Reads.{read_urid, read_marked, read_next, not_final, is_final_block-final}
use xenonjs.Pool.Found.{Absent, few_blocks}
use xenonjs.Pool.Free.{sub_free-IsSub}

-- No two blocks have the same urid.
abbrev pub AreDistinct : List Block → Type 0
AreDistinct [] = Unit
AreDistinct (b ∷ bs) = Absent b.urid bs × AreDistinct bs

abbrev pub kept : List Block → List Block
kept [] = []
kept (b ∷ bs) = if b.marked then b ∷ kept bs else kept bs

Absent-middle :
    (urid : ℕ) (front : List Block) (b : Block) (back : List Block)
    → Absent urid (front ++ (b ∷ back))
    → b.urid ≢ urid
Absent-middle urid [] b back h = h.0
Absent-middle urid (x ∷ front) b back h = Absent-middle urid front b back h.1

Absent-drop :
    (urid : ℕ) (front : List Block) (b : Block) (back : List Block)
    → Absent urid (front ++ (b ∷ back))
    → Absent urid (front ++ back)
Absent-drop urid [] b back h = h.1
Absent-drop urid (x ∷ front) b back h = (h.0, Absent-drop urid front b back h.1)

pub AreDistinct-front :
    (front : List Block) (b : Block) (back : List Block)
    → AreDistinct (front ++ (b ∷ back))
    → Absent b.urid front
AreDistinct-front [] b back h = tt
AreDistinct-front (x ∷ front) b back h =
    (λ e. Absent-middle x.urid front b back h.0 (sym e), AreDistinct-front front b back h.1)

pub AreDistinct-drop :
    (front : List Block) (b : Block) (back : List Block)
    → AreDistinct (front ++ (b ∷ back))
    → AreDistinct (front ++ back)
AreDistinct-drop [] b back h = h.1
AreDistinct-drop (x ∷ front) b back h =
    (Absent-drop x.urid front b back h.0, AreDistinct-drop front b back h.1)

sweep_from-IsSub :
    (left : ℕ) (s : SubPool) (front rest : List Block) (count : ℕ)
    → IsSub s (front ++ rest)
    → AreDistinct (front ++ rest)
    → length rest < left
    → (count' : ℕ) × (s' : SubPool) × (sweep_from left s count (start_or rest 4090)
        ≡ ok (count', s'))
      × IsSub s' (front ++ kept rest)
      × (count' + length (kept rest) ≡ count + length rest)
unfolding sweep_from
sweep_from-IsSub zero s front rest count i distinct h = absurd (omega arith)
sweep_from-IsSub (suc left) s front [] count i distinct h =
    (count, s, rw (is_final_block-final s (front ++ []) i) refl, i, refl)
sweep_from-IsSub (suc left) s front (b ∷ rest) count i distinct h =
    let from = (Seg-split s.base 0 front (b ∷ rest) 4090 i.seg).1 in
    let next = Seg-start s.base (end b) rest 4090 from.3 in
    let inside : end b ≤ 4090 = omega (arith, next) in
    let not_last = not_final s b from.1 inside (start_or rest 4090) from.2 next.1 in
    let to_next = read_next s b from.1 inside (start_or rest 4090) from.2 in
    let mark = read_marked s b from.1 inside in
    elim (Bool-cases b.marked) [
      | inl yes_marked ↦
          let regroup = append_assoc front (b ∷ []) rest in
          let keeps : kept (b ∷ rest) ≡ b ∷ kept rest =
            ap (λ v. if v then b ∷ kept rest else kept rest) yes_marked in
          let (count', s', done, is, sum) =
            sweep_from-IsSub left s (front ++ (b ∷ [])) rest count (subst (IsSub s) (sym regroup) i)
              (subst AreDistinct (sym regroup) distinct) (omega arith) in
          (
            count',
            s',
            rw (not_last, to_next, mark ∙ ap ok yes_marked) done,
            subst (IsSub s')
                (append_assoc front (b ∷ []) (kept rest) ∙ ap (λ t. front ++ t) (sym keeps)) is,
            omega (arith, sum, ap length keeps),
          )
      | inr not_marked ↦
          let drops : kept (b ∷ rest) ≡ kept rest =
            ap (λ v. if v then b ∷ kept rest else kept rest) not_marked in
          let (s₁, freed, is₁) =
            sub_free-IsSub s (front ++ (b ∷ rest)) b.urid i front b rest refl
              (AreDistinct-front front b rest distinct) refl in
          let (count', s', done, is, sum) =
            sweep_from-IsSub left s₁ front rest (suc count) is₁
              (AreDistinct-drop front b rest distinct) (omega arith) in
          (
            count',
            s',
            rw (not_last, to_next, mark ∙ ap ok not_marked, read_urid s b from.1 inside, freed)
                done,
            subst (λ t. IsSub s' (front ++ t)) (sym drops) is,
            omega (arith, sum, ap length drops),
          )
    ]

-- The marked blocks stay as they are, and the others are counted and taken out.
pub sub_sweep-IsSub :
    (s : SubPool) (bs : List Block)
    → IsSub s bs
    → AreDistinct bs
    → (count : ℕ) × (s' : SubPool) × (sub_sweep s ≡ ok (count, s'))
      × IsSub s' (kept bs)
      × (count + length (kept bs) ≡ length bs)
unfolding sub_sweep
sub_sweep-IsSub s bs i distinct =
    let (count, s', done, is, sum) =
      sweep_from-IsSub 4096 s [] bs 0 i distinct (few_blocks s bs i) in
    (count, s', ap (sweep_from 4096 s 0) i.begin_is ∙ done, is, omega (arith, sum))
