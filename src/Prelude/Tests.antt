-- ===== src/Prelude/Tests.antt =====
-- Boolean tests on the native numbers, the conditional, and case splits that keep an equation.
use Prim.Native.Nat.{ℕ, compare, Ordering}
use mathlib.Core.Bool.{Bool, true, false}
use mathlib.Core.Logic.{◌⊎◌, inl, inr}
use mathlib.Core.Option.{Option, none, some}
use mathlib.Core.Path.{◌≡◌, refl, subst}

abbrev pub ltb : ℕ → ℕ → Bool
ltb a b = elim (compare a b) [ Ordering.lt ↦ true | _ ↦ false ]

abbrev pub leb : ℕ → ℕ → Bool
leb a b = elim (compare a b) [ Ordering.gt ↦ false | _ ↦ true ]

infix 50 ◌==◌
abbrev pub ◌==◌ : ℕ → ℕ → Bool
a == b = elim (compare a b) [ Ordering.eq ↦ true | _ ↦ false ]

infix 1 if◌then◌else◌
abbrev pub if◌then◌else◌ {ℓ} : {A : Type ℓ} → Bool → A → A → A
if true then x else y = x
if false then x else y = y

pub Bool-cases : (b : Bool) → (b ≡ true) ⊎ (b ≡ false)
Bool-cases true = inl refl
Bool-cases false = inr refl

pub Option-cases {ℓ} : {A : Type ℓ} (o : Option A) → (o ≡ none) ⊎ ((a : A) × (o ≡ some a))
Option-cases none = inl refl
Option-cases (some a) = inr (a, refl)

-- The empty type at any level.
pub data Absurd {ℓ} : Type ℓ where

-- A chain of steps that may panic: `none` is a panic.
infixl 5 ◌>>=◌
abbrev pub ◌>>=◌ {ℓ κ} : {A : Type ℓ} {B : Type κ} → Option A → (A → Option B) → Option B
none >>= f = none
some a >>= f = f a

infixl 5 ◌>>◌
abbrev pub ◌>>◌ {ℓ κ} : {A : Type ℓ} {B : Type κ} → Option A → Option B → Option B
r >> s = r >>= λ _. s

-- The run does not panic, and its result satisfies `P`.
abbrev pub Ensures {ℓ κ} : {A : Type ℓ} → (A → Type κ) → Option A → Type κ
Ensures P none = Absurd
Ensures P (some a) = P a

abbrev pub is_some {ℓ} : {A : Type ℓ} → Option A → Bool
is_some none = false
is_some (some a) = true

-- If the run does not panic, its result satisfies `P`.
abbrev pub Always {ℓ κ} : {A : Type ℓ} → (A → Type κ) → Option A → Type κ
Always P none = Unit
Always P (some a) = P a

module _ {ℓ κ} {A : Type ℓ} {B : Type κ} where
  pub Ensures-bind {μ ν} :
      (P : A → Type μ) (Q : B → Type ν) (r : Option A) (f : A → Option B)
      → Ensures P r
      → ((a : A) → r ≡ some a → P a → Ensures Q (f a))
      → Ensures Q (r >>= f)
  Ensures-bind P Q none f h next = elim h [ ]
  Ensures-bind P Q (some a) f h next = next a refl h

  pub Always-bind {ν} :
      (Q : B → Type ν) (r : Option A) (f : A → Option B)
      → ((a : A) → r ≡ some a → Always Q (f a))
      → Always Q (r >>= f)
  Always-bind Q none f next = tt
  Always-bind Q (some a) f next = next a refl

  pub Always-then {μ ν} :
      (P : A → Type μ) (Q : B → Type ν) (r : Option A) (f : A → Option B)
      → Always P r
      → ((a : A) → P a → Always Q (f a))
      → Always Q (r >>= f)
  Always-then P Q none f h next = tt
  Always-then P Q (some a) f h next = next a h

module _ {ℓ} {A : Type ℓ} where
  pub Ensures-with {μ ν} :
      (P : A → Type μ) (Q : A → Type ν) (r : Option A)
      → Ensures P r
      → Always Q r
      → Ensures (λ a. P a × Q a) r
  Ensures-with P Q none h g = elim h [ ]
  Ensures-with P Q (some a) h g = (h, g)

  pub Always-some {ν} : (Q : A → Type ν) (r : Option A) (a : A) → Always Q r → r ≡ some a → Q a
  Always-some Q r a h e = subst (Always Q) e h

  pub Ensures-imp {μ ν} :
      (P : A → Type μ) (Q : A → Type ν) (r : Option A)
      → Ensures P r
      → ((a : A) → P a → Q a)
      → Ensures Q r
  Ensures-imp P Q none h f = elim h [ ]
  Ensures-imp P Q (some a) h f = f a h

  pub Always-imp {μ ν} :
      (P : A → Type μ) (Q : A → Type ν) (r : Option A)
      → Always P r
      → ((a : A) → P a → Q a)
      → Always Q r
  Always-imp P Q none h f = tt
  Always-imp P Q (some a) h f = f a h

  pub Ensures-some {ν} : (Q : A → Type ν) (r : Option A) (a : A) → Ensures Q r → r ≡ some a → Q a
  Ensures-some Q r a h e = subst (Ensures Q) e h

  pub Always-of {μ ν} :
      (P : A → Type μ) (Q : A → Type ν) (r : Option A)
      → Ensures P r
      → ((a : A) → P a → Q a)
      → Always Q r
  Always-of P Q none h f = tt
  Always-of P Q (some a) h f = f a h
