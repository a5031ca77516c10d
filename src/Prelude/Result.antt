-- ===== src/Prelude/Result.antt =====
-- What a call of the program comes to: a value, the NULL by which it reports an error to its
-- caller, or the end of the process (a failed assertion, or memory written out of bounds).

use mathlib.Core.Path.{◌≡◌, refl, subst}

pub data Outcome {ℓ} (A : Type ℓ) : Type ℓ where
  ok : A → Outcome A
  null : Outcome A
  abort : Outcome A

infixl 5 ◌>>=◌ ◌>>◌
abbrev pub ◌>>=◌ {ℓ κ} : {A : Type ℓ} {B : Type κ} → Outcome A → (A → Outcome B) → Outcome B
ok a >>= f = f a
null >>= f = null
abort >>= f = abort

abbrev pub ◌>>◌ {ℓ} : {B : Type ℓ} → Outcome (Unit {0}) → Outcome B → Outcome B
m >> k = m >>= λ _. k

-- What holds of the value that a call returns, if it returns one.
abbrev pub Post {ℓ κ} : {A : Type ℓ} → Outcome A → (A → Type κ) → Type κ
Post (ok a) P = P a
Post null P = Unit
Post abort P = Unit

pub Post-bind {ℓ κ μ} :
    {A : Type ℓ} {B : Type κ} (P : B → Type μ) (m : Outcome A) (f : A → Outcome B)
    → Post m (λ a. Post (f a) P)
    → Post (m >>= f) P
Post-bind P (ok a) f h = h
Post-bind P null f h = tt
Post-bind P abort f h = tt

-- The value may be known to be what the call returned.
pub Post_self {ℓ} : {A : Type ℓ} (m : Outcome A) → Post m (λ a. m ≡ ok a)
Post_self (ok a) = refl
Post_self null = tt
Post_self abort = tt

pub Post-imp {ℓ κ μ} :
    {A : Type ℓ} (P : A → Type κ) (Q : A → Type μ) (m : Outcome A)
    → ((a : A) → P a → Q a)
    → Post m P
    → Post m Q
Post-imp P Q (ok a) f h = f a h
Post-imp P Q null f h = tt
Post-imp P Q abort f h = tt

pub Post-then {ℓ κ μ ν} :
    {A : Type ℓ} {B : Type κ} (P : B → Type μ) (Q : A → Type ν) (m : Outcome A) (f : A → Outcome B)
    → Post m Q
    → ((a : A) → Q a → Post (f a) P)
    → Post (m >>= f) P
Post-then P Q (ok a) f h k = k a h
Post-then P Q null f h k = tt
Post-then P Q abort f h k = tt

pub Post-at {ℓ κ} :
    {A : Type ℓ} (P : A → Type κ) (m : Outcome A) (a : A) → Post m P → m ≡ ok a → P a
Post-at P m a h e = subst (λ m'. Post m' P) e h
