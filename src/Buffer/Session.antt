-- ===== src/Buffer/Session.antt =====
-- A buffer under any sequence of calls, against plain lists of bytes.
use xenonjs.Base.{
  ℕ, ◌+◌, ◌≤◌, ◌<◌, List, [], ◌∷◌, ◌++◌, Option, none, some, ok, ◌>>=◌, ◌≡◌, ◌≢◌, ◌∙◌, refl, ap,
  arith, length, drop, inl, inr, ltb, lt→ltb, le→ltb, if◌then◌else◌, length-take, length-drop,
  take-length,
}
use xenonjs.Buffer.{Buffer, Malloc, Outcome, append, shift, clear, carry_on}
use xenonjs.Buffer.Valid.{IsValid, Holds, contents, contents_of, IsMalloc}
use xenonjs.Buffer.Growth.{append-AppendsOrRefuses}
use xenonjs.Buffer.Lifecycle.{IsShifted, shift-ShiftsOrRefuses, clear_lem}

-- One call of a client.
pub data Call : Type 0 where
  appends : List ℕ → Call
  shifts : ℕ → Call
  clears : Call

pub perform : ℕ → Malloc → Call → Buffer → Outcome Buffer
unfolding carry_on
perform size_mod malloc (appends s) b = carry_on (append size_mod malloc b s (length s))
perform size_mod malloc (shifts n) b = carry_on (shift b n)
perform size_mod malloc clears b = carry_on (clear malloc b)

pub session : ℕ → Malloc → List Call → Buffer → Outcome Buffer
session size_mod malloc [] b = ok b
session size_mod malloc (c ∷ cs) b = perform size_mod malloc c b >>= session size_mod malloc cs

-- The same calls on the bytes alone.
pub effect : Call → List ℕ → List ℕ
effect (appends s) bytes = bytes ++ s
effect (shifts n) bytes = if ltb (length bytes) n then bytes else drop n bytes
effect clears bytes = []

pub effects : List Call → List ℕ → List ℕ
effects [] bytes = bytes
effects (c ∷ cs) bytes = effects cs (effect c bytes)

abbrev pub volume : Call → ℕ
volume (appends s) = length s
volume (shifts n) = 0
volume clears = 0

abbrev pub total : List Call → ℕ
total [] = 0
total (c ∷ cs) = volume c + total cs

length-contents_of :
    (body : Option (List ℕ)) (size capacity : ℕ)
    → Holds body size capacity
    → length (contents_of body size) ≡ size
length-contents_of none size capacity h = absurd h
length-contents_of (some block) size capacity h = omega (arith, length-take {0} size block)

pub length-contents : (b : Buffer) → IsValid b → length (contents b) ≡ b.size
length-contents b = length-contents_of b.body b.size b.capacity

-- What holds between two calls.
pub record IsReady (b : Buffer) : Type 0 where
  pub valid : IsValid b
  pub started : 0 < b.init_size

-- `b'` is what a call of volume `v` may leave of `b`.
pub record IsAfter (b : Buffer) (v : ℕ) (bytes : List ℕ) (b' : Buffer) : Type 0 where
  pub ready : IsReady b'
  pub bytes_are : contents b' ≡ bytes
  pub size_below : b'.size ≤ b.size + v
  pub same_inc : b'.inc_size ≡ b.inc_size

IsAfter-shift :
    (b b' : Buffer) (n : ℕ)
    → IsReady b
    → n ≤ b.size
    → IsShifted b n b'
    → IsAfter b 0 (effect (shifts n) (contents b)) b'
unfolding effect
IsAfter-shift b b' n r enough s = record {
  ready = record { valid = s.valid; started = omega (arith, s.same_steps.0, r.started) };
  bytes_are = rw (length-contents b r.valid, le→ltb _ _ enough) s.contents_are;
  size_below = omega (
    arith,
    length-contents b' s.valid,
    length-contents b r.valid,
    ap length s.contents_are,
    length-drop {0} n (contents b),
  );
  same_inc = s.same_steps.1;
}

module _ (size_mod : ℕ) (malloc : Malloc) (given : IsMalloc malloc)
    (plenty : (n : ℕ) → malloc n ≢ none) where
  abbrev pub Goes : Call → Buffer → Type 0
  Goes c b =
      (b' : Buffer) × (perform size_mod malloc c b ≡ ok b')
      × IsAfter b (volume c) (effect c (contents b)) b'

  pub perform-Goes :
      (c : Call) (b : Buffer) → IsReady b → b.size + volume c + 1 + b.inc_size < size_mod → Goes c b
  unfolding perform effect carry_on
  perform-Goes (appends s) b r below =
      elim (append-AppendsOrRefuses size_mod malloc b s (length s) given r.valid (omega arith)
        below) [
          | inl (b', done, a) ↦ (
            b',
            rw done,
            record {
              ready = record { valid = a.valid; started = omega (arith, a.same_steps.0) };
              bytes_are = a.contents_are ∙ ap (λ t. contents b ++ t) (take-length s);
              size_below = omega (arith, a.size_is, ap length (take-length s));
              same_inc = a.same_steps.1;
            },
          )
          | inr (_, _, refused) ↦ absurd (plenty _ refused)
        ]
  perform-Goes (shifts n) b r below = elim (shift-ShiftsOrRefuses b n r.valid) [
    | inl (enough, (b', done, s)) ↦ (b', rw done, IsAfter-shift b b' n r enough s)
    | inr (short, refused) ↦ (
      b,
      rw refused,
      record {
        ready = r;
        bytes_are = rw (length-contents b r.valid, lt→ltb _ _ short);
        size_below = omega arith;
        same_inc = refl;
      },
    )
  ]
  perform-Goes clears b r below = elim (clear_lem malloc b given r.started) [
    | inl (b', done, e) ↦ (
      b',
      rw done,
      record {
        ready = record { valid = e.valid; started = omega (arith, e.steps.0, r.started) };
        bytes_are = e.no_contents;
        size_below = omega (arith, length-contents b' e.valid, ap length e.no_contents);
        same_inc = e.steps.1;
      },
    )
    | inr (refused, _) ↦ absurd (plenty _ refused)
  ]

  pub append-Goes :
      (s : List ℕ) (b : Buffer)
      → IsReady b
      → b.size + length s + 1 + b.inc_size < size_mod
      → (b' : Buffer) × (carry_on (append size_mod malloc b s (length s)) ≡ ok b')
        × IsAfter b (length s) (contents b ++ s) b'
  unfolding perform effect
  append-Goes s b r below = perform-Goes (appends s) b r below

  -- Over an allocator that always has memory, a ready buffer under any sequence of `append`,
  -- `shift` and `clear` whose total volume fits the size type never faults, stays valid, and
  -- holds what the same operations leave of the plain list of bytes.
  pub session-effects :
      (cs : List Call) (b : Buffer)
      → IsReady b
      → b.size + total cs + 1 + b.inc_size < size_mod
      → (b' : Buffer) × (session size_mod malloc cs b ≡ ok b')
        × IsReady b'
        × (contents b' ≡ effects cs (contents b))
  unfolding session effects
  session-effects [] b r below = (b, refl, r, refl)
  session-effects (c ∷ cs) b r below =
      let (b₁, done, a) = perform-Goes c b r (omega arith) in
      let (b₂, rest, r₂, same) =
        session-effects cs b₁ a.ready (omega (arith, a.size_below, a.same_inc)) in
      (b₂, rw (done) rest, r₂, same ∙ ap (effects cs) a.bytes_are)
