-- ===== src/Base/Outcome.antt =====
-- The outcome of kernel code: it returns, or it calls `panic`, which never returns.
use os_lab.Base.{◌≡◌, refl, ◌≢◌, Bool, true, false}

pub data Outcome {ℓ} (A : Type ℓ) : Type ℓ where
  ok : A → Outcome A
  panic : Outcome A

infixl 5 ◌>>=◌ ◌>>◌
abbrev pub ◌>>=◌ {ℓ κ} : {A : Type ℓ} {B : Type κ} → Outcome A → (A → Outcome B) → Outcome B
ok a >>= f = f a
panic >>= f = panic

abbrev pub ◌>>◌ {ℓ} : {B : Type ℓ} → Outcome (Unit {0}) → Outcome B → Outcome B
m >> k = m >>= λ _. k

-- `if (b) panic(...);`
abbrev pub panic_if : Bool → Outcome (Unit {0})
panic_if true = panic
panic_if false = ok tt

-- A result with the property.
abbrev pub Returns {ℓ} : {A : Type ℓ} → (A → Type 0) → Outcome A → Type 0
Returns P (ok a) = P a
Returns P panic = ⊥

-- A call that returns with a property, and then the rest.
pub Returns-bind {ℓ κ} :
    {A : Type ℓ} {B : Type κ} (P : A → Type 0) (Q : B → Type 0) (m : Outcome A) (f : A → Outcome B)
    → Returns P m
    → ((a : A) → P a → Returns Q (f a))
    → Returns Q (m >>= f)
Returns-bind P Q (ok a) f r k = k a r
Returns-bind P Q panic f r k = elim r [ ]

pub Returns-imp {ℓ} :
    {A : Type ℓ} (P Q : A → Type 0) (m : Outcome A)
    → Returns P m
    → ((a : A) → P a → Q a)
    → Returns Q m
Returns-imp P Q (ok a) r k = k a r
Returns-imp P Q panic r k = elim r [ ]

pub panic_after {ℓ κ} :
    {A : Type ℓ} {B : Type κ} (P : A → Type 0) (m : Outcome A) (f : A → Outcome B)
    → Returns P m
    → ((a : A) → P a → f a ≡ panic)
    → (m >>= f) ≡ panic
panic_after P (ok a) f r k = k a r
panic_after P panic f r k = refl

module _ {ℓ} {A : Type ℓ} where
  pub panics : (a : A) → ◌≢◌ {A = Outcome A} panic (ok a)
  panics a e = cc

  pub ok-injective : (a b : A) → ◌≡◌ {A = Outcome A} (ok a) (ok b) → a ≡ b
  ok-injective a b e = cc
