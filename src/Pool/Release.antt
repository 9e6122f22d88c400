-- ===== src/Pool/Release.antt =====
-- `xjr_mp_free` and `xjr_mp_get_ptr` in the pool as a whole.
use mathlib.Core.List.{append_assoc}
use mathlib.Core.Path.{subst}
use xenonjs.Base.{
  ℕ, suc, ◌+◌, ◌-◌, ◌^◌, ◌≤◌, ◌<◌, List, [], ◌∷◌, ◌++◌, true, false, ok, ◌≡◌, ◌≢◌, refl, sym, ap,
  ◌∙◌, arith, length, length-append, inl, inr, ◌⊎◌, none, some, All-append, get_elem?, u32,
}
use xenonjs.Pool.{SubPool}
use xenonjs.Pool.SubPools.{sub_get_ptr, sub_free}
use xenonjs.Pool.Words.{slice}
use xenonjs.Pool.Chain.{Block, IsBlock, IsSub, Seg, end, Seg-le, Seg-split}
use xenonjs.Pool.Found.{Absent, Found, block_get_by_urid-first, urid-cases}
use xenonjs.Pool.Free.{sub_free-IsSub, sub_free-none}
use xenonjs.Pool.Sweep.{AreDistinct, AreDistinct-drop}
use xenonjs.Pool.Union.{flatten, AreSubs, IsPool}
use xenonjs.Pool.Pools.{Pool, with_sizes, free_in, mp_free, mp_get_ptr}

-- The block with the urid is taken out, and all of the others are as they were.
pub record IsFreed (bs : List Block) (urid : ℕ) (pools' : List SubPool) : Type 0 where
  pub front : List Block
  pub block : Block
  pub back : List Block
  pub blocks' : List (List Block)
  pub blocks_are : bs ≡ front ++ (block ∷ back)
  pub urid_is : block.urid ≡ urid
  pub blocks_are' : flatten blocks' ≡ front ++ back
  pub subs : AreSubs pools' blocks'

sub_free-cases :
    (s : SubPool) (bs : List Block) (urid : ℕ)
    → IsSub s bs
    → ((sub_free s urid ≡ ok (false, s)) × Absent urid bs)
      ⊎ ((f : Found urid bs) × (s' : SubPool) × (sub_free s urid ≡ ok (true, s'))
          × IsSub s' (f.front ++ f.back))
sub_free-cases s bs urid i = elim (urid-cases urid bs) [
  | inl (e, absent) ↦ inl (sub_free-none s bs urid i absent, absent)
  | inr (f, e) ↦
      let (s', done, is) =
        sub_free-IsSub s bs urid i f.front f.block f.back f.blocks_are f.absent f.urid_is in
      inr (f, s', done, is)
]

free_in-IsFreed :
    (pools : List SubPool) (bss : List (List Block)) (urid : ℕ)
    → AreSubs pools bss
    → ((free_in pools urid ≡ ok (false, pools)) × Absent urid (flatten bss))
      ⊎ ((pools' : List SubPool) × (free_in pools urid ≡ ok (true, pools'))
          × IsFreed (flatten bss) urid pools')
unfolding free_in
free_in-IsFreed [] [] urid h = inl (refl, tt)
free_in-IsFreed [] (bs ∷ bss) urid h = absurd h
free_in-IsFreed (s ∷ pools) [] urid h = absurd h
free_in-IsFreed (s ∷ pools) (bs ∷ bss) urid h = elim (sub_free-cases s bs urid h.0) [
  | inr (f, s', done, is) ↦ inr (
    s' ∷ pools,
    rw done refl,
    record {
      front = f.front;
      block = f.block;
      back = f.back ++ flatten bss;
      blocks' = (f.front ++ f.back) ∷ bss;
      blocks_are =
          ap (λ t. t ++ flatten bss) f.blocks_are
          ∙ append_assoc f.front (f.block ∷ f.back) (flatten bss);
      urid_is = f.urid_is;
      blocks_are' = append_assoc f.front f.back (flatten bss);
      subs = (is, h.1);
    },
  )
  | inl (e, absent) ↦ elim (free_in-IsFreed pools bss urid h.1) [
    | inl (e', later) ↦
        inl (rw (e, e') refl, All-append (λ c. c.urid ≢ urid) bs (flatten bss) absent later)
    | inr (pools', e', f) ↦ inr (
      s ∷ pools',
      rw (e, e') refl,
      record {
        front = bs ++ f.front;
        block = f.block;
        back = f.back;
        blocks' = bs ∷ f.blocks';
        blocks_are =
            ap (λ t. bs ++ t) f.blocks_are ∙ sym (append_assoc bs f.front (f.block ∷ f.back));
        urid_is = f.urid_is;
        blocks_are' = ap (λ t. bs ++ t) f.blocks_are' ∙ sym (append_assoc bs f.front f.back);
        subs = (h.0, f.subs);
      },
    )
  ]
]

-- In a pool of fewer than 2^32 blocks with different urids, a release of a urid takes out the
-- block that has it, and keeps all others with their contents; where no block has it, nothing
-- changes.
pub mp_free-IsFreed :
    (pool : Pool) (bss : List (List Block)) (urid : ℕ)
    → IsPool pool bss
    → length (flatten bss) < 2 ^ 32
    → ((mp_free pool urid ≡ ok pool) × Absent urid (flatten bss))
      ⊎ ((pool' : Pool) × (mp_free pool urid ≡ ok pool')
          × (f : IsFreed (flatten bss) urid pool'.pools) × IsPool pool' f.blocks')
unfolding mp_free with_sizes
mp_free-IsFreed pool bss urid i few = elim (free_in-IsFreed pool.pools bss urid i.subs) [
  | inl (e, absent) ↦ inl (rw e refl, absent)
  | inr (pools', e, f) ↦ inr (
    record (with_sizes pools' pool) {
      num_allocated_blocks = u32 (pool.num_allocated_blocks + 2 ^ 32 - 1);
    },
    rw e refl,
    f,
    record {
      subs = f.subs;
      distinct =
          subst AreDistinct (sym f.blocks_are')
            (AreDistinct-drop f.front f.block f.back (subst AreDistinct f.blocks_are i.distinct));
      counted = omega (
        arith,
        i.counted,
        ap length f.blocks_are,
        ap length f.blocks_are',
        length-append {0} f.front (f.block ∷ f.back),
        length-append {0} f.front f.back,
      );
    },
  )
]

-- What a pointer of a urid points to: the contents of its block.
pub record Points (pools : List SubPool) (bss : List (List Block)) (urid idx offset : ℕ)
    : Type 0 where
  pub sub : SubPool
  pub blocks : List Block
  pub found : Found urid blocks
  pub sub_is : get_elem? pools idx ≡ some sub
  pub blocks_are : get_elem? bss idx ≡ some blocks
  pub offset_is : offset ≡ found.block.at + 6
  pub inside : offset + length found.block.body ≤ 4090
  pub contents_are : slice sub.base offset (length found.block.body) ≡ found.block.body

sub_get_ptr-cases :
    (s : SubPool) (bs : List Block) (urid : ℕ)
    → IsSub s bs
    → ((sub_get_ptr s urid ≡ ok none) × Absent urid bs)
      ⊎ ((f : Found urid bs) × (sub_get_ptr s urid ≡ ok (some (f.block.at + 6)))
          × IsBlock s.base f.block
          × (f.block.at + 6 + length f.block.body ≤ 4090))
unfolding sub_get_ptr
sub_get_ptr-cases s bs urid i = elim (urid-cases urid bs) [
  | inl (e, absent) ↦ inl (rw (block_get_by_urid-first s bs urid i, e) refl, absent)
  | inr (f, e) ↦
      let from =
        (Seg-split s.base 0 f.front (f.block ∷ f.back) 4090
          (subst (λ t. Seg s.base 0 t 4090) f.blocks_are i.seg)).1 in
      inr (
        f,
        rw (block_get_by_urid-first s bs urid i, e) refl,
        from.1,
        omega (arith, Seg-le s.base (end f.block) f.back 4090 from.3),
      )
]

-- In a pool of blocks the pointer for a urid is NULL, where no block has it, or is into one sub
-- pool, in which it points to the contents of a block that has the urid.
pub mp_get_ptr-Points :
    (pools : List SubPool) (bss : List (List Block)) (idx urid : ℕ)
    → AreSubs pools bss
    → ((mp_get_ptr pools idx urid ≡ ok none) × Absent urid (flatten bss))
      ⊎ ((k : ℕ) × (offset : ℕ) × (mp_get_ptr pools idx urid ≡ ok (some (idx + k, offset)))
          × Points pools bss urid k offset)
unfolding mp_get_ptr
mp_get_ptr-Points [] [] idx urid h = inl (refl, tt)
mp_get_ptr-Points [] (bs ∷ bss) idx urid h = absurd h
mp_get_ptr-Points (s ∷ pools) [] idx urid h = absurd h
mp_get_ptr-Points (s ∷ pools) (bs ∷ bss) idx urid h = elim (sub_get_ptr-cases s bs urid h.0) [
  | inr (f, e, is, inside) ↦ inr (
    0,
    f.block.at + 6,
    rw e (ap (λ n. ok (some (n, f.block.at + 6))) (omega arith)),
    record {
      sub = s;
      blocks = bs;
      found = f;
      sub_is = refl;
      blocks_are = refl;
      offset_is = refl;
      inside = inside;
      contents_are = is.body_is;
    },
  )
  | inl (e, absent) ↦ elim (mp_get_ptr-Points pools bss (suc idx) urid h.1) [
    | inl (e', later) ↦
        inl (rw (e, e') refl, All-append (λ c. c.urid ≢ urid) bs (flatten bss) absent later)
    | inr (k, offset, e', p) ↦ inr (
      suc k,
      offset,
      rw (e, e') (ap (λ n. ok (some (n, offset))) (omega arith)),
      record {
        sub = p.sub;
        blocks = p.blocks;
        found = p.found;
        sub_is = p.sub_is;
        blocks_are = p.blocks_are;
        offset_is = p.offset_is;
        inside = p.inside;
        contents_are = p.contents_are;
      },
    )
  ]
]
