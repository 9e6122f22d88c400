-- ===== src/Base/Results.antt =====
-- What a C function gives back: a value, a failure that the caller sees, or undefined behaviour.

use mathlib.Core.Path.{◌≡◌, subst}

-- `fail e` is a return of -1 (or of NULL), with what it leaves behind; `fault` is an access
-- outside of an array, which C leaves undefined.
pub data Result {ℓ κ} (E : Type ℓ) (A : Type κ) : Type (ℓ ⊔ κ) where
  ok : A → Result E A
  fail : E → Result E A
  fault : Result E A

infixl 5 ◌>>=◌ ◌>>◌
abbrev pub ◌>>=◌ {ℓ κ μ} :
    {E : Type ℓ} {A : Type κ} {B : Type μ} → Result E A → (A → Result E B) → Result E B
ok a >>= f = f a
fail e >>= f = fail e
fault >>= f = fault

abbrev pub ◌>>◌ {ℓ κ μ} :
    {E : Type ℓ} {A : Type κ} {B : Type μ} → Result E A → Result E B → Result E B
m >> k = m >>= λ _. k

-- What holds of the value, if there is one.
abbrev pub OnOk {ℓ κ μ} : {E : Type ℓ} {A : Type κ} → (A → Type μ) → Result E A → Type μ
OnOk P (ok a) = P a
OnOk P (fail e) = Unit
OnOk P fault = Unit

pub OnOk-bind {ℓ κ μ ν ξ} :
    {E : Type ℓ} {A : Type κ} {B : Type μ} (P : A → Type ν) (Q : B → Type ξ) (m : Result E A)
    (k : A → Result E B)
    → OnOk P m
    → ((a : A) → P a → OnOk Q (k a))
    → OnOk Q (m >>= k)
OnOk-bind P Q (ok a) k h then = then a h
OnOk-bind P Q (fail e) k h then = tt
OnOk-bind P Q fault k h then = tt

-- Where nothing is known of the first value.
pub OnOk-after {ℓ κ μ ξ} :
    {E : Type ℓ} {A : Type κ} {B : Type μ} (Q : B → Type ξ) (m : Result E A) (k : A → Result E B)
    → ((a : A) → OnOk Q (k a))
    → OnOk Q (m >>= k)
OnOk-after Q (ok a) k then = then a
OnOk-after Q (fail e) k then = tt
OnOk-after Q fault k then = tt

pub OnOk-eq {ℓ κ μ} :
    {E : Type ℓ} {A : Type κ} (P : A → Type μ) {m : Result E A} {a : A} → OnOk P m → m ≡ ok a → P a
OnOk-eq P h e = subst (OnOk P) e h

pub OnOk-weaken {ℓ κ μ ν} :
    {E : Type ℓ} {A : Type κ} (P : A → Type μ) (Q : A → Type ν) (m : Result E A)
    → OnOk P m
    → ((a : A) → P a → Q a)
    → OnOk Q m
OnOk-weaken P Q (ok a) h w = w a h
OnOk-weaken P Q (fail e) h w = tt
OnOk-weaken P Q fault h w = tt

pub OnOk-all {ℓ κ μ ν} :
    {E : Type ℓ} {A : Type κ} {I : Type ν} (P : I → A → Type μ) (m : Result E A)
    → ((i : I) → OnOk (P i) m)
    → OnOk (λ a. (i : I) → P i a) m
OnOk-all P (ok a) h = h
OnOk-all P (fail e) h = tt
OnOk-all P fault h = tt

pub OnOk-and {ℓ κ μ ν} :
    {E : Type ℓ} {A : Type κ} (P : A → Type μ) (Q : A → Type ν) (m : Result E A)
    → OnOk P m
    → OnOk Q m
    → OnOk (λ a. P a × Q a) m
OnOk-and P Q (ok a) h k = (h, k)
OnOk-and P Q (fail e) h k = tt
OnOk-and P Q fault h k = tt

-- What holds of every value.
pub OnOk-every {ℓ κ μ} :
    {E : Type ℓ} {A : Type κ} (P : A → Type μ) (m : Result E A) → ((a : A) → P a) → OnOk P m
OnOk-every P (ok a) h = h a
OnOk-every P (fail e) h = tt
OnOk-every P fault h = tt
