-- ===== src/Pool/Grown.antt =====
-- A new sub pool, and a pool with one block more.
use mathlib.Core.Path.{subst}
use xenonjs.Base.{
  ℕ, ◌+◌, ◌^◌, ◌<◌, List, [], ◌∷◌, ◌++◌, Bool, true, ok, ◌≡◌, refl, sym, ap, ◌∙◌, arith, length,
  length-append, some,
}
use xenonjs.Pool.{SubPool, sub_new, write_block_final}
use xenonjs.Pool.Chain.{Block, IsSub}
use xenonjs.Pool.Found.{Absent}
use xenonjs.Pool.Writes.{header, header_words}
use xenonjs.Pool.Sweep.{AreDistinct}
use xenonjs.Pool.Union.{flatten, AreSubs, IsPool, AreDistinct-insert}
use xenonjs.Pool.Pools.{Pool, allocated}
use xenonjs.Pool.Allocate.{IsAdded, Refuses, AllRefuse}

-- The pool has one block more, with an unused urid and of the size asked for, and all of the
-- others as they were.
pub record IsGrown (bss : List (List Block)) (urid size : ℕ) (managed : Bool) (pool' : Pool)
    : Type 0 where
  pub front : List Block
  pub back : List Block
  pub new : Block
  pub blocks' : List (List Block)
  pub blocks_are : flatten bss ≡ front ++ back
  pub blocks_are' : flatten blocks' ≡ front ++ (new ∷ back)
  pub urid_is : new.urid ≡ urid
  pub marked_is : new.marked ≡ managed
  pub length_is : length new.body ≡ size
  pub is_pool : IsPool pool' blocks'

-- The memory of a new sub pool.
abbrev pub fresh : SubPool
fresh = record {
  base = header (λ i. 0) 4090 0x3FFE 0 0x3FFF;
  size_free = 4090;
  size_capacity = 4096;
  offset_begin = 4090;
}

pub sub_new-IsSub :
    (s : SubPool) × (sub_new true true ≡ ok (some s)) × IsSub s [] × (s.size_free ≡ 4090)
unfolding sub_new write_block_final
sub_new-IsSub =
    let words = header_words (λ i. 0) 4090 0x3FFE 0 0x3FFF in
    (
      fresh,
      refl,
      record {
        capacity_is = refl;
        begin_is = refl;
        seg = omega arith;
        final_tag = words.0;
        final_size = words.1;
        final_next = words.2;
        free_is = refl;
      },
      refl,
    )

pub AllRefuse-last :
    (size : ℕ) (pools : List SubPool) (s : SubPool) (bss : List (List Block)) (bs : List Block)
    → AreSubs pools bss
    → AllRefuse size (pools ++ (s ∷ [])) (bss ++ (bs ∷ []))
    → Refuses size s bs
AllRefuse-last size [] s [] bs h all = all.0
AllRefuse-last size [] s (b ∷ bss) bs h all = absurd h
AllRefuse-last size (p ∷ pools) s [] bs h all = absurd h
AllRefuse-last size (p ∷ pools) s (b ∷ bss) bs h all = AllRefuse-last size pools s bss bs h.1 all.1

pub IsAdded-IsGrown :
    (pool base : Pool) (bss : List (List Block)) (bs : List Block) (urid size : ℕ) (managed : Bool)
    (pools' : List SubPool)
    → IsPool pool bss
    → length (flatten bss) + 1 < 2 ^ 32
    → base.num_allocated_blocks ≡ pool.num_allocated_blocks
    → bs ≡ flatten bss
    → IsAdded bs urid size managed pools'
    → IsGrown bss urid size managed (allocated pools' base)
unfolding allocated
IsAdded-IsGrown pool base bss bs urid size managed pools' i few same e a =
    let split = sym e ∙ a.blocks_are in
    record {
      front = a.front;
      back = a.back;
      new = a.new;
      blocks' = a.blocks';
      blocks_are = split;
      blocks_are' = a.blocks_are';
      urid_is = a.urid_is;
      marked_is = a.marked_is;
      length_is = a.length_is;
      is_pool = record {
        subs = a.subs;
        distinct = subst AreDistinct (sym a.blocks_are') (
            AreDistinct-insert a.front a.new a.back (subst AreDistinct split i.distinct) (
              subst (λ u. Absent u (a.front ++ a.back)) (sym a.urid_is)
                (subst (Absent urid) a.blocks_are a.unused)));
        counted = omega (
          arith,
          i.counted,
          same,
          ap length split,
          ap length a.blocks_are',
          length-append {0} a.front a.back,
          length-append {0} a.front (a.new ∷ a.back),
        );
      };
    }
