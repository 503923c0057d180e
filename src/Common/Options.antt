-- ===== src/Common/Options.antt =====
-- Options as results: the chain of a `do` block, and what holds of a value where there is one.
use mathlib.Core.Option
use mathlib.Core.Path.{◌≡◌, refl}
use mathlib.Core.Option.{Option, none, some}

infixl 1 ◌>>=◌
abbrev pub ◌>>=◌ {ℓ κ} : {A : Type ℓ} {B : Type κ} → Option A → (A → Option B) → Option B
none >>= f = none
some a >>= f = f a

-- What holds of a value, and `E` where there is none.
abbrev pub OrElse {ℓ κ} : {A : Type ℓ} → Type κ → (A → Type κ) → Option A → Type κ
OrElse E S none = E
OrElse E S (some a) = S a

module _ {ℓ κ μ} {A : Type ℓ} {B : Type κ} (E : Type μ) where
  pub OrElse-map :
      (S : B → Type μ) (f : A → B) (o : Option A)
      → OrElse E (λ a. S (f a)) o
      → OrElse E S (Option.map f o)
  OrElse-map S f none h = h
  OrElse-map S f (some a) h = h

  pub OrElse-bind :
      (P : A → Type μ) (S : B → Type μ) (f : A → Option B) (o : Option A)
      → OrElse E P o
      → ((a : A) → P a → OrElse E S (f a))
      → OrElse E S (o >>= f)
  OrElse-bind P S f none h k = h
  OrElse-bind P S f (some a) h k = k a h

module _ {ℓ κ} {A : Type ℓ} (S : A → Type κ) where
  -- What holds of any value that there can be.
  pub OrElse-intro : (o : Option A) → ((a : A) → o ≡ some a → S a) → OrElse Unit S o
  OrElse-intro none h = tt
  OrElse-intro (some a) h = h a refl

  pub OrElse-weaken :
      (E : Type κ) (T : A → Type κ) (o : Option A)
      → OrElse E S o
      → ((a : A) → S a → T a)
      → OrElse E T o
  OrElse-weaken E T none h k = h
  OrElse-weaken E T (some a) h k = k a h
