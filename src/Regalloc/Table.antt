-- ===== src/Regalloc/Table.antt =====
-- The table of the R1 scheduler: at each point the variables that live have registers, and
-- different ones.
use mathlib.Core.Path.{subst}
use xenonjs.Base.{
  ℕ, zero, suc, ◌+◌, ◌≤◌, ◌<◌, List, [], ◌∷◌, true, false, Option, none, some, ok, ◌≡◌, ◌≢◌, inl,
  inr, refl, sym, ap, ◌∙◌, arith, length, get_elem?, replicate, length-replicate, OnOk, OnOk-bind,
  OnOk-weaken, OnOk-all, OnOk-and, OnOk-eq,
}
use xenonjs.Regalloc.{
  Life, Lives, Registers, R1, start_lives, end_lives, timeline, last_end, max2, max_living,
  schedule_lives, r1_alloc,
}
use xenonjs.Regalloc.Apart.{
  IsApart, same_or_not, get_elem?-inside, start_lives-IsApart, end_lives-IsApart,
}
use xenonjs.Linker.File.{Link}
use xenonjs.Regalloc.Held.{In, Has, start_lives-keeps, start_lives-gives, end_lives-keeps}

-- No variable has two lives.
abbrev pub AreOneEach : Lives → Type 0
AreOneEach lives = (a b : Life) → In a lives → In b lives → a.var ≡ b.var → a ≡ b

-- A life that contains a point.
abbrev pub Contains : Life → ℕ → Type 0
Contains a lp = (a.start ≤ lp) × (lp ≤ a.end)

-- A column of the table, for point `lp`.
pub record IsColumn (lives : Lives) (lp : ℕ) (column : List (Option ℕ)) : Type 0 where
  pub held :
      (a : Life) → In a lives → Contains a lp → (r : ℕ) × (get_elem? column a.var ≡ some (some r))
  pub apart :
      (u v r : ℕ) → get_elem? column u ≡ some (some r) → get_elem? column v ≡ some (some r) → u ≡ v
  pub small : (v r : ℕ) → get_elem? column v ≡ some (some r) → r < 256

-- The columns from point `lp` on.
AreColumns : Lives → ℕ → ℕ → List (List (Option ℕ)) → Type 0
AreColumns lives lp left columns =
    (k : ℕ)
    → k < left
    → (column : List (Option ℕ)) × (get_elem? columns k ≡ some column)
      × IsColumn lives (lp + k) column

-- What holds in front of point `lp`.
record IsReady (lives : Lives) (lp : ℕ) (s : Registers) : Type 0 where
  apart : IsApart s
  held : (a : Life) → In a lives → a.start < lp → lp ≤ a.end → Has a.var s

less : (x y : ℕ) → x ≤ y → y ≢ x → x < y
less x y h other = omega (arith, other)

module _ (lives : Lives) (one_each : AreOneEach lives) (lp : ℕ) where
  -- The lives that begin have registers, too.
  IsStarted : Registers → Type 0
  IsStarted s = IsApart s × ((a : Life) → In a lives → Contains a lp → Has a.var s)

  start-IsStarted : (s : Registers) → IsReady lives lp s → OnOk IsStarted (start_lives lp lives s)
  unfolding IsStarted
  start-IsStarted s ready =
      OnOk-and IsApart (λ s'. (a : Life) → In a lives → Contains a lp → Has a.var s')
        (start_lives lp lives s) (start_lives-IsApart lp lives s ready.apart)
        (OnOk-all (λ (a : Life) s'. In a lives → Contains a lp → Has a.var s')
          (start_lives lp lives s)
          λ a.
            OnOk-all (λ (m : In a lives) s'. Contains a lp → Has a.var s') (start_lives lp lives s)
              λ m.
                OnOk-all (λ (c : Contains a lp) s'. Has a.var s') (start_lives lp lives s)
                  λ c. one a m c)
    where
      one : (a : Life) → In a lives → Contains a lp → OnOk (Has a.var) (start_lives lp lives s)
      one a m c = elim (same_or_not lp a.start) [
        | inl now ↦ start_lives-gives lp lives a s m now
        | inr before ↦
            start_lives-keeps lp lives a.var s (ready.held a m (less a.start lp c.0 before) c.1)
      ]

  end-IsReady : (s : Registers) → IsStarted s → OnOk (IsReady lives (suc lp)) (end_lives lp lives s)
  unfolding IsStarted
  end-IsReady s (apart, held) =
      OnOk-weaken
        (λ s'.
          IsApart s' × ((a : Life) → In a lives → a.start < suc lp → suc lp ≤ a.end → Has a.var s'))
        (IsReady lives (suc lp)) (end_lives lp lives s)
        (OnOk-and IsApart
          (λ s'. (a : Life) → In a lives → a.start < suc lp → suc lp ≤ a.end → Has a.var s')
          (end_lives lp lives s) (end_lives-IsApart lp lives s apart)
          (OnOk-all (λ (a : Life) s'. In a lives → a.start < suc lp → suc lp ≤ a.end → Has a.var s')
            (end_lives lp lives s)
            λ a.
              OnOk-all (λ (m : In a lives) s'. a.start < suc lp → suc lp ≤ a.end → Has a.var s')
                (end_lives lp lives s)
                λ m.
                  OnOk-all (λ (b : a.start < suc lp) s'. suc lp ≤ a.end → Has a.var s')
                    (end_lives lp lives s)
                    λ b.
                      OnOk-all (λ (e : suc lp ≤ a.end) s'. Has a.var s') (end_lives lp lives s)
                        λ e.
                          end_lives-keeps lp lives a.var s (others a m e)
                            (held a m (omega (arith, b), omega (arith, e)))))
        λ s' r. record { apart = r.0; held = r.1 }
    where
      others :
          (a : Life)
          → In a lives
          → suc lp ≤ a.end
          → (b : Life) → In b lives
          → lp ≡ b.end
          → b.var ≢ a.var
      others a m e b n now same =
          let ends : b.end ≡ a.end = ap (λ x. x.end) (one_each b a n m same) in
          omega (arith, e, now, ends)

-- What the invariant says of the column that is kept.
started-IsColumn :
    (lives : Lives) (one_each : AreOneEach lives) (lp : ℕ) (s : Registers)
    → IsStarted lives one_each lp s
    → IsColumn lives lp s.regs
unfolding IsStarted
started-IsColumn lives one_each lp s (apart, held) = record {
  held = held;
  apart = apart.apart;
  small = λ v r e. omega (arith, get_elem?-inside s.using r true (apart.used v r e), apart.few);
}

cons-AreColumns :
    (lives : Lives) (lp left : ℕ) (column : List (Option ℕ)) (later : List (List (Option ℕ)))
    → IsColumn lives lp column
    → AreColumns lives (suc lp) left later
    → AreColumns lives lp (suc left) (column ∷ later)
unfolding AreColumns
cons-AreColumns lives lp left column later c at_later zero h =
    (column, refl, subst (λ k. IsColumn lives k column) (plus_zero lp) c)
  where
    plus_zero : (n : ℕ) → n ≡ n + 0
    plus_zero n = omega arith
cons-AreColumns lives lp left column later c at_later (suc k) h =
    let (next, found, is) = at_later k (omega arith) in
    (next, found, subst (λ j. IsColumn lives j next) (plus_suc lp k) is)
  where
    plus_suc : (n k : ℕ) → suc n + k ≡ n + suc k
    plus_suc n k = omega arith

timeline-AreColumns :
    (lives : Lives) (left lp : ℕ) (s : Registers)
    → AreOneEach lives
    → IsReady lives lp s
    → OnOk (AreColumns lives lp left) (timeline lives left lp s)
unfolding timeline AreColumns
timeline-AreColumns lives zero lp s one_each ready = λ k h. absurd (omega arith)
timeline-AreColumns lives (suc left) lp s one_each ready =
    let Q = AreColumns lives lp (suc left) in
    OnOk-bind (IsStarted lives one_each lp) Q (start_lives lp lives s) _
      (start-IsStarted lives one_each lp s ready)
      λ s₁ started.
        OnOk-bind (IsReady lives (suc lp)) Q (end_lives lp lives s₁) _
          (end-IsReady lives one_each lp s₁ started)
          λ s₂ ready₂.
            OnOk-bind (AreColumns lives (suc lp) left) Q (timeline lives left (suc lp) s₂) _
              (timeline-AreColumns lives left (suc lp) s₂ one_each ready₂)
              λ later at_later.
                cons-AreColumns lives lp left s₁.regs later
                  (started-IsColumn lives one_each lp s₁ started) at_later

none-replicate : (n v r : ℕ) → ¬ (get_elem? {A = Option ℕ} (replicate n none) v ≡ some (some r))
none-replicate zero v r e = cc
none-replicate (suc n) zero r e = cc
none-replicate (suc n) (suc v) r e = none-replicate n v r e

max2-right : (a b : ℕ) → b ≤ max2 a b
max2-right a b = ground arith

max2-left : (a b : ℕ) → a ≤ max2 a b
max2-left a b = ground arith

max2-le : (a b n : ℕ) → a ≤ n → b ≤ n → max2 a b ≤ n
max2-le a b n h k = ground arith

last_end-le : (lives : Lives) (found : ℕ) → found ≤ last_end lives found
unfolding last_end
last_end-le [] found = omega arith
last_end-le (life ∷ lives) found =
    omega (arith, last_end-le lives (max2 found life.end), max2-left found life.end)

last_end-In : (lives : Lives) (found : ℕ) (a : Life) → In a lives → a.end ≤ last_end lives found
unfolding last_end
last_end-In [] found a m = absurd m
last_end-In (life ∷ lives) found a (inl here) =
    let same : a.end ≡ life.end = ap (λ x. x.end) here in
    omega (arith, same, max2-right found life.end, last_end-le lives (max2 found life.end))
last_end-In (life ∷ lives) found a (inr later) = last_end-In lives (max2 found life.end) a later

-- At each point of its life a variable has a register, no other variable that lives then has it.
pub record IsScheduled (lives : Lives) (sched : R1) : Type 0 where
  pub held :
      (a : Life) (lp : ℕ)
      → In a lives
      → Contains a lp
      → (r : ℕ) × (r1_alloc sched lp a.var ≡ ok r) × (r < 256)
  pub apart :
      (a b : Life) (lp : ℕ)
      → In a lives
      → In b lives
      → Contains a lp
      → Contains b lp
      → r1_alloc sched lp a.var ≡ r1_alloc sched lp b.var
      → a.var ≡ b.var

start-IsReady :
    (lives : Lives) (count : ℕ)
    → count ≤ 256
    → IsReady lives 0
        (record { using = replicate (max2 count 1) false; regs = replicate (length lives) none })
start-IsReady lives count h = record {
  apart = record {
    used = λ v r e. absurd (none-replicate (length lives) v r e);
    apart = λ u v r e f. absurd (none-replicate (length lives) u r e);
    few =
        omega
          (arith, length-replicate {0} (max2 count 1) false, max2-le count 1 256 h (omega arith));
  };
  held = λ a m b e. absurd (omega (arith, b));
}

r1_alloc-eq :
    (sched : R1) (lp v r : ℕ) (column : List (Option ℕ))
    → get_elem? sched.reg_alloc_tbl lp ≡ some column
    → get_elem? column v ≡ some (some r)
    → r1_alloc sched lp v ≡ ok r
unfolding r1_alloc
r1_alloc-eq sched lp v r column e f = rw (r1_alloc, e, f)

ok_injective : {r q : ℕ} → ◌≡◌ {A = Link ℕ} (ok r) (ok q) → r ≡ q
ok_injective e = cc

columns-IsScheduled :
    (lives : Lives) (sched : R1)
    → AreColumns lives 0 (last_end lives 0 + 1) sched.reg_alloc_tbl
    → IsScheduled lives sched
unfolding AreColumns
columns-IsScheduled lives sched columns = record {
  held = λ a lp m c.
      let (column, at_lp, is) = columns lp (omega (arith, c.1, last_end-In lives 0 a m)) in
      let (r, has) = is.held a m (omega (arith, c.0), omega (arith, c.1)) in
      (r, r1_alloc-eq sched lp a.var r column at_lp has, is.small a.var r has);
  apart = λ a b lp m n c d same.
      let (column, at_lp, is) = columns lp (omega (arith, c.1, last_end-In lives 0 a m)) in
      let (r, has) = is.held a m (omega (arith, c.0), omega (arith, c.1)) in
      let (q, has_b) = is.held b n (omega (arith, d.0), omega (arith, d.1)) in
      let first = r1_alloc-eq sched lp a.var r column at_lp has in
      let second = r1_alloc-eq sched lp b.var q column at_lp has_b in
      let equal = ok_injective (sym first ∙ same ∙ second) in
      is.apart a.var b.var q (has ∙ ap (λ k. some (some k)) equal) has_b;
}

-- If the scheduler makes a table for lives of different variables, and needs no more than 256
-- registers, then at each point every variable that lives has a register below 256, and no two of
-- them have the same one.
pub schedule_lives-IsScheduled :
    (lives : Lives) (sched : R1)
    → AreOneEach lives
    → schedule_lives lives ≡ ok sched
    → sched.regs_count ≤ 256
    → IsScheduled lives sched
unfolding schedule_lives
schedule_lives-IsScheduled lives sched one_each done few =
    let count = max_living lives (length lives) (last_end lives 0 + 1) 0 0 in
    let s : Registers = record {
      using = replicate (max2 count 1) false;
      regs = replicate (length lives) none;
    } in
    let Q = λ (r : R1). r.regs_count ≤ 256 → IsScheduled lives r in
    OnOk-eq Q
      (OnOk-bind (λ tbl. count ≤ 256 → AreColumns lives 0 (last_end lives 0 + 1) tbl) Q
        (timeline lives (last_end lives 0 + 1) 0 s) _
        (OnOk-all (λ (h : count ≤ 256) tbl. AreColumns lives 0 (last_end lives 0 + 1) tbl)
          (timeline lives (last_end lives 0 + 1) 0 s)
          λ h.
            timeline-AreColumns lives (last_end lives 0 + 1) 0 s one_each
              (start-IsReady lives count h))
        λ tbl columns h.
          columns-IsScheduled lives (record { reg_alloc_tbl = tbl; regs_count = count })
            (columns h))
      done few
