-- ===== src/Vm/Fetches.antt =====
-- What the fetches find where bytes sit in the text section.
use mathlib.Core.List.{append-nil}
use native.Mathlib.Nat.{mod-eq_of_lt}
use xenonjs.Base.{
  ℕ, ◌+◌, ◌^◌, ◌≤◌, ◌<◌, List, [], ◌∷◌, ◌++◌, map, ok, ◌≡◌, refl, ap, arith, length, length-append,
  le_bytes, u8, u16, u32, le→ltb,
}
use xenonjs.Xfile.{Xfile, Read, read_u8, read_s8, read_u16, read_s16, read_u32, read_s32, read_f64}
use xenonjs.Xfile.Readers.{IsLoaded}
use xenonjs.Xfile.Sits.{
  Sits, Sits-left, Sits-right, Sits-at, Sits-le, read_u8-Sits, read_s8-Sits, read_u16-Sits,
  read_s16-Sits, read_u32-Sits, read_s32-Sits, read_f64-Sits,
}
use xenonjs.Text.{Inst, argc_max, op_callt}
use xenonjs.Text.Writer.{put_u8}
use xenonjs.Text.Bytes.{writes_bytes}
use xenonjs.Vm.{
  Fetch, pure, ◌>>=◌, fetch, fetch_u8, fetch_s8, fetch_u16, fetch_s16, fetch_u32, fetch_s32,
  fetch_f64, fetch_argv, fetch_arguments, decode_1, decode_2, decode_3, decode_4, decode_with,
  decode_call, decode_callt,
}

-- Where these bytes sit at the program counter, `m` gives `a` and moves on behind them.
pub record Fetches (f : Xfile) {A : Type 0} (m : Fetch A) (bytes : List ℕ) (a : A) : Type 0 where
  pub fetches :
      (pc : ℕ) → Sits bytes (f.sections.text + 4 + pc) f.bc → m pc ≡ ok (a, pc + length bytes)

module _ (f : Xfile) (loaded : IsLoaded f) (small : f.len + 8 < 2 ^ 32) where
  pub Fetches-pure : {A : Type 0} (a : A) → Fetches f (pure a) [] a
  Fetches-pure a = record { fetches = λ pc s. ap (λ n. ok (a, n)) (omega arith) }

  pub Fetches-bind :
      {A B : Type 0} (m : Fetch A) (k : A → Fetch B) {s t : List ℕ} {a : A} {b : B}
      → Fetches f m s a
      → Fetches f (k a) t b
      → Fetches f (m >>= k) (s ++ t) b
  Fetches-bind m k {s} {t} {b} e₁ e₂ = record {
    fetches = λ pc at.
        let first = e₁.fetches pc (Sits-left s t at) in
        let second = e₂.fetches (pc + length s) (Sits-at (Sits-right s t at) refl (omega arith)) in
        rw (◌>>=◌, first, second) (ap (λ n. ok (b, n)) (omega (arith, length-append {0} s t)));
  }

  -- A reader that finds the bytes anywhere finds them at the program counter.
  Fetches-fetch :
      {A : Type 0} (read : Xfile → ℕ → Read A) (n : ℕ) (bytes : List ℕ) (a : A)
      → length bytes ≡ n
      → ((i : ℕ) → i + 8 < 2 ^ 32 → Sits bytes i f.bc → read f i ≡ ok a)
      → n ≤ 8
      → Fetches f (fetch f read n) bytes a
  Fetches-fetch read n bytes a size finds short = record {
    fetches = λ pc at.
        let inside = Sits-le at in
        let place : u32 (f.sections.text + 4 + pc) ≡ f.sections.text + 4 + pc =
          mod-eq_of_lt (omega (arith, inside, loaded.length_is)) in
        let next : u32 (pc + n) ≡ pc + n =
          mod-eq_of_lt (omega (arith, inside, size, loaded.length_is)) in
        rw
          (
            fetch,
            place,
            finds (f.sections.text + 4 + pc) (omega (arith, inside, loaded.length_is)) at,
            next,
          )
          (ap (λ k. ok (a, k)) (omega (arith, size)));
  }

  pub Fetches-u8 : (v : ℕ) → Fetches f (fetch_u8 f) (v ∷ []) v
  Fetches-u8 v =
      Fetches-fetch read_u8 1 (v ∷ []) v refl (λ i h at. read_u8-Sits loaded i h v at) (omega arith)

  pub Fetches-s8 : (v : ℕ) → Fetches f (fetch_s8 f) (v ∷ []) v
  Fetches-s8 v =
      Fetches-fetch read_s8 1 (v ∷ []) v refl (λ i h at. read_s8-Sits loaded i h v at) (omega arith)

  pub Fetches-u16 : (v : ℕ) → Fetches f (fetch_u16 f) (le_bytes 2 (u16 v)) (u16 v)
  Fetches-u16 v =
      Fetches-fetch read_u16 2 (le_bytes 2 (u16 v)) (u16 v) refl
        (λ i h at. read_u16-Sits loaded i (u16 v) (omega arith) at (omega arith)) (omega arith)

  pub Fetches-s16 : (v : ℕ) → Fetches f (fetch_s16 f) (le_bytes 2 (u16 v)) (u16 v)
  Fetches-s16 v =
      Fetches-fetch read_s16 2 (le_bytes 2 (u16 v)) (u16 v) refl
        (λ i h at. read_s16-Sits loaded i h (u16 v) at (omega arith)) (omega arith)

  pub Fetches-u32 : (v : ℕ) → Fetches f (fetch_u32 f) (le_bytes 4 (u32 v)) (u32 v)
  Fetches-u32 v =
      Fetches-fetch read_u32 4 (le_bytes 4 (u32 v)) (u32 v) refl
        (λ i h at. read_u32-Sits loaded i (u32 v) (omega arith) at (omega arith)) (omega arith)

  pub Fetches-s32 : (v : ℕ) → Fetches f (fetch_s32 f) (le_bytes 4 (u32 v)) (u32 v)
  Fetches-s32 v =
      Fetches-fetch read_s32 4 (le_bytes 4 (u32 v)) (u32 v) refl
        (λ i h at. read_s32-Sits loaded i h (u32 v) at (omega arith)) (omega arith)

  pub Fetches-f64 : (v : List ℕ) → length v ≡ 8 → Fetches f (fetch_f64 f) v v
  Fetches-f64 v size =
      Fetches-fetch read_f64 8 v v size (λ i h at. read_f64-Sits loaded i h v at size) (omega arith)

  -- The last fetch, and what is made of its value.
  pub Fetches-last :
      {A B : Type 0} (m : Fetch A) (g : A → B) {s : List ℕ} {a : A}
      → Fetches f m s a
      → Fetches f (m >>= λ x. pure (g x)) s (g a)
  Fetches-last m g {s} {a} e =
      rw (append-nil s) at (Fetches-bind m (λ x. pure (g x)) e (Fetches-pure (g a)))

  pub Fetches-1 : (c : ℕ → Inst) (a : ℕ) → Fetches f (decode_1 f c) (a ∷ []) (c a)
  Fetches-1 c a = Fetches-bind (fetch_u8 f) _ (Fetches-u8 a) (Fetches-pure (c a))

  pub Fetches-2 : (c : ℕ → ℕ → Inst) (a b : ℕ) → Fetches f (decode_2 f c) (a ∷ b ∷ []) (c a b)
  Fetches-2 c a b = Fetches-bind (fetch_u8 f) _ (Fetches-u8 a) (Fetches-1 (c a) b)

  pub Fetches-3 :
      (c : ℕ → ℕ → ℕ → Inst) (a b d : ℕ) → Fetches f (decode_3 f c) (a ∷ b ∷ d ∷ []) (c a b d)
  Fetches-3 c a b d = Fetches-bind (fetch_u8 f) _ (Fetches-u8 a) (Fetches-2 (c a) b d)

  pub Fetches-4 :
      (c : ℕ → ℕ → ℕ → ℕ → Inst) (a b d e : ℕ)
      → Fetches f (decode_4 f c) (a ∷ b ∷ d ∷ e ∷ []) (c a b d e)
  Fetches-4 c a b d e = Fetches-bind (fetch_u8 f) _ (Fetches-u8 a) (Fetches-3 (c a) b d e)

  pub Fetches-with :
      {A : Type 0} (operand : Fetch A) (c : ℕ → A → Inst) (r : ℕ) {bytes : List ℕ} {a : A}
      → Fetches f operand bytes a
      → Fetches f (decode_with f operand c) (r ∷ bytes) (c r a)
  Fetches-with operand c r e =
      Fetches-bind (fetch_u8 f) _ (Fetches-u8 r) (Fetches-last operand (c r) e)

  -- The arguments of a call, as the writer puts them out.
  Fetches-argv :
      (rs : List ℕ)
      → Fetches f (fetch_argv f (length rs)) (writes_bytes (map put_u8 rs)) (map u8 rs)
  Fetches-argv [] = Fetches-pure []
  Fetches-argv (r ∷ rs) =
      Fetches-bind (fetch_u8 f) (λ a. do later ← fetch_argv f (length rs); pure (a ∷ later))
        (Fetches-u8 (u8 r))
        (Fetches-last (fetch_argv f (length rs)) (λ later. u8 r ∷ later) (Fetches-argv rs))

  Fetches-arguments :
      (rs : List ℕ)
      → length rs ≤ argc_max
      → Fetches f (fetch_arguments f) (u8 (length rs) ∷ writes_bytes (map put_u8 rs)) (map u8 rs)
  Fetches-arguments rs short =
      let size : u8 (length rs) ≡ length rs = mod-eq_of_lt (omega (arith, short)) in
      rw size (
        Fetches-bind (fetch_u8 f) _ (Fetches-u8 (length rs))
          (rw (le→ltb (length rs) argc_max short) (Fetches-argv rs)))

  pub Fetches-call :
      (c : ℕ → ℕ → List ℕ → Inst) (dst callee : ℕ) (rs : List ℕ)
      → length rs ≤ argc_max
      → Fetches f
          (decode_call f c)
          (dst ∷ callee ∷ u8 (length rs) ∷ writes_bytes (map put_u8 rs))
          (c dst callee (map u8 rs))
  Fetches-call c dst callee rs short = Fetches-bind (fetch_u8 f) _ (Fetches-u8 dst) (
      Fetches-bind (fetch_u8 f) _ (Fetches-u8 callee)
        (Fetches-last (fetch_arguments f) (c dst callee) (Fetches-arguments rs short)))

  pub Fetches-callt :
      (dst callee self : ℕ) (rs : List ℕ)
      → length rs ≤ argc_max
      → Fetches f
          (decode_callt f)
          (dst ∷ callee ∷ self ∷ u8 (length rs) ∷ writes_bytes (map put_u8 rs))
          (op_callt dst callee self (map u8 rs))
  Fetches-callt dst callee self rs short = Fetches-bind (fetch_u8 f) _ (Fetches-u8 dst) (
      Fetches-bind (fetch_u8 f) _ (Fetches-u8 callee) (
        Fetches-bind (fetch_u8 f) _ (Fetches-u8 self) (
          Fetches-last (fetch_arguments f) (op_callt dst callee self)
            (Fetches-arguments rs short))))
