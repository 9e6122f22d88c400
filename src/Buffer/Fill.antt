-- ===== src/Buffer/Fill.antt =====
-- The step that both branches of `append` share: copy the bytes behind the contents, and put a
-- NUL behind them.
use xenonjs.Base.{
  ℕ, ◌+◌, ◌≤◌, ◌<◌, List, ◌++◌, some, ok, ◌≡◌, ◌∙◌, arith, length, take, drop, set, get_elem?,
  length-set, length-append, length-take, length-drop, take-set, take-append_eq, get_elem?-set_self,
}
use xenonjs.Buffer.{write_tail}
use xenonjs.Buffer.Memcpy.{memcpy_lem, poke-ok}

-- `out` is `dst` with `len` bytes of `s` and a NUL written at `size`.
pub record IsFilled (dst s : List ℕ) (size len : ℕ) (out : List ℕ) : Type 0 where
  pub same_length : length out ≡ length dst
  pub contents : take (size + len) out ≡ take size dst ++ take len s
  pub terminated : get_elem? out (size + len) ≡ some 0

abbrev pub filled : List ℕ → List ℕ → ℕ → ℕ → List ℕ
filled dst s size len = set (take size dst ++ take len s ++ drop (size + len) dst) (size + len) 0

module _ (dst s : List ℕ) (size len : ℕ) (room : size + len < length dst)
    (given : len ≤ length s) where
  length_slices : length (take size dst ++ take len s ++ drop (size + len) dst) ≡ length dst
  length_slices = omega (
    arith,
    length-append {0} (take size dst ++ take len s) (drop (size + len) dst),
    length-append {0} (take size dst) (take len s),
    length-take {0} size dst,
    length-take {0} len s,
    length-drop {0} (size + len) dst,
  )

  length_front : length (take size dst ++ take len s) ≡ size + len
  length_front = omega (
    arith,
    length-append {0} (take size dst) (take len s),
    length-take {0} size dst,
    length-take {0} len s,
  )

  pub filled-IsFilled : IsFilled dst s size len (filled dst s size len)
  filled-IsFilled = record {
    same_length = length-set _ _ _ ∙ length_slices;
    contents =
        take-set (take size dst ++ take len s ++ drop (size + len) dst) (size + len) 0
        ∙ take-append_eq (size + len) (take size dst ++ take len s) _ length_front;
    terminated =
        get_elem?-set_self (take size dst ++ take len s ++ drop (size + len) dst) (size + len) 0
          (rw length_slices room);
  }

  pub write_tail_lem : write_tail dst size s len (size + len) ≡ ok (filled dst s size len)
  unfolding write_tail
  write_tail_lem =
      rw (memcpy_lem len dst size s 0 (omega arith) (omega arith))
        (poke-ok _ _ _ (rw length_slices room))
