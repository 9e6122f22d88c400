-- ===== src/Pool/Malloc.antt =====
-- What an allocation in a sub pool does.
use xenonjs.Base.{
  ℕ, ◌+◌, ◌^◌, ◌≤◌, ◌<◌, List, [], ◌∷◌, ◌++◌, Bool, true, false, ok, ◌≡◌, refl, sym, ap, ◌∙◌, arith,
  length, leb, leb→le, inl, inr, u32, ◌⊎◌, Bool-cases,
}
use mathlib.Core.List.{append_assoc}
use mathlib.Core.Path.{subst}
use xenonjs.Pool.{SubPool, urid_invalid, is_final_block, is_empty}
use xenonjs.Pool.SubPools.{malloc_at_start, malloc_behind, malloc_with_urid}
use xenonjs.Pool.Words.{length-slice}
use xenonjs.Pool.Chain.{Block, end, start_or, IsSub, Seg-start}
use xenonjs.Pool.Reads.{not_final, is_final_block-final}
use xenonjs.Pool.Holes.{leb-false, IsTight, Hole, allocate_space-first, Hole-cases}
use xenonjs.Pool.Placed.{placed, malloc_at_start-IsSub, malloc_behind-IsSub}

-- The sub pool has a new block, and all of the others as they were.
pub record IsPlaced (bs : List Block) (urid size : ℕ) (managed : Bool) (s' : SubPool) : Type 0 where
  pub front : List Block
  pub back : List Block
  pub new : Block
  pub blocks_are : bs ≡ front ++ back
  pub urid_is : new.urid ≡ urid
  pub marked_is : new.marked ≡ managed
  pub length_is : length new.body ≡ size
  pub is_sub : IsSub s' (front ++ (new ∷ back))

-- There is no room in front of the first block, nor behind any.
abbrev pub IsFull : ℕ → List Block → Type 0
IsFull size bs = (start_or bs 4090 < size + 6) × IsTight size bs

pub is_empty-none : (s : SubPool) → IsSub s [] → is_empty s ≡ ok true
unfolding is_empty
is_empty-none s i = ap (is_final_block s) i.begin_is ∙ is_final_block-final s [] i

pub is_empty-some :
    (s : SubPool) (b : Block) (bs : List Block) → IsSub s (b ∷ bs) → is_empty s ≡ ok false
unfolding is_empty
is_empty-some s b bs i =
    let next = Seg-start s.base (end b) bs 4090 i.seg.3 in
    ap (is_final_block s) i.begin_is
    ∙ not_final s b i.seg.1 (omega (arith, next)) (start_or bs 4090) i.seg.2 next.1

module _ (s : SubPool) (urid size : ℕ) (managed : Bool) (small : urid < 2 ^ 14) where
  at_start :
      (bs : List Block)
      → IsSub s bs
      → size + 6 ≤ start_or bs 4090
      → (s' : SubPool) × (malloc_at_start urid s size managed ≡ ok s')
        × IsPlaced bs urid size managed s'
  at_start bs i fits =
      let (s', done, is) = malloc_at_start-IsSub s bs urid size managed i small fits in
      (
        s',
        done,
        record {
          front = [];
          back = bs;
          new = placed s.base 0 urid managed size;
          blocks_are = refl;
          urid_is = refl;
          marked_is = refl;
          length_is = length-slice s.base (0 + 6) size;
          is_sub = is;
        },
      )

  behind :
      (bs : List Block)
      → IsSub s bs
      → (h : Hole size bs)
      → (s' : SubPool) × (malloc_behind urid s size managed h.block.at ≡ ok s')
        × IsPlaced bs urid size managed s'
  behind bs i h =
      let new = placed s.base (end h.block) urid managed size in
      let (s', done, is) =
        malloc_behind-IsSub s bs h.front h.back h.block urid size managed i h.blocks_are small
          h.room in
      let regroup = append_assoc h.front (h.block ∷ []) h.back in
      let regroup' = append_assoc h.front (h.block ∷ []) (new ∷ h.back) in
      (
        s',
        done,
        record {
          front = h.front ++ (h.block ∷ []);
          back = h.back;
          new = new;
          blocks_are = h.blocks_are ∙ sym regroup;
          urid_is = refl;
          marked_is = refl;
          length_is = length-slice s.base (end h.block + 6) size;
          is_sub = subst (IsSub s') (sym regroup') is;
        },
      )

  -- The allocation gives the urid and adds a block, or there is no room and nothing changes.
  pub malloc_with_urid-IsPlaced :
      (bs : List Block)
      → IsSub s bs
      → size + 6 ≤ s.size_free
      → ((s' : SubPool) × (malloc_with_urid urid s size managed ≡ ok (urid, s'))
          × IsPlaced bs urid size managed s')
        ⊎ ((malloc_with_urid urid s size managed ≡ ok (urid_invalid, s)) × IsFull size bs)
  unfolding malloc_with_urid
  malloc_with_urid-IsPlaced [] i fits =
      let (s', done, is) = at_start [] i (omega (arith, i.free_is)) in
      inl (s', rw (is_empty-none s i, done) refl, is)
  malloc_with_urid-IsPlaced (b ∷ bs) i fits =
      let small_size : u32 (size + 6) ≡ size + 6 = omega (arith, i.free_is) in
      elim (Bool-cases (leb (u32 (size + 6)) s.offset_begin)) [
        | inl room ↦
            let (s', done, is) = at_start (b ∷ bs) i (
              omega (arith, small_size, leb→le (u32 (size + 6)) s.offset_begin room, i.begin_is)) in
            inl (s', rw (is_empty-some s b bs i, room, done) refl, is)
        | inr none_before ↦ elim (Hole-cases size (b ∷ bs)) [
          | inl (e, tight) ↦ inr (
            rw
                (
                  is_empty-some s b bs i,
                  none_before,
                  allocate_space-first s (b ∷ bs) size i (omega (arith, i.free_is)),
                  e,
                )
                refl,
            (
              omega (
                arith,
                small_size,
                leb-false (u32 (size + 6)) s.offset_begin none_before,
                i.begin_is,
              ),
              tight,
            ),
          )
          | inr (h, e) ↦
              let (s', done, is) = behind (b ∷ bs) i h in
              inl (
                s',
                rw
                    (
                      is_empty-some s b bs i,
                      none_before,
                      allocate_space-first s (b ∷ bs) size i (omega (arith, i.free_is)),
                      e,
                      done,
                    )
                    refl,
                is,
              )
        ]
      ]
