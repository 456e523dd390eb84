-- ===== src/Base/Tests.antt =====
-- Boolean tests on the native numbers, the conditional, Rust's `Result`, and case lemmas.
use Prim.Native.Nat.{ℕ, compare, Ordering}
use mathlib.Core.Path.{◌≡◌, refl}
use mathlib.Core.Logic.{◌⊎◌, inl, inr, ite}
use mathlib.Core.Bool.{Bool, true, false}
use mathlib.Core.Option.{Option, none, some}

abbrev pub ltb : ℕ → ℕ → Bool
ltb a b = elim (compare a b) [ Ordering.lt ↦ true | _ ↦ false ]

abbrev pub leb : ℕ → ℕ → Bool
leb a b = elim (compare a b) [ Ordering.gt ↦ false | _ ↦ true ]

infix 50 ◌==◌
abbrev pub ◌==◌ : ℕ → ℕ → Bool
a == b = elim (compare a b) [ Ordering.eq ↦ true | _ ↦ false ]

infix 1 if◌then◌else◌
abbrev pub if◌then◌else◌ {ℓ} : {A : Type ℓ} → Bool → A → A → A
if true then x else y = x
if false then x else y = y

-- The answer of a decision, for tests that are joined by `&&` and `||`.
abbrev pub holds {ℓ} : {P : Type ℓ} → Dec P → Bool
holds (yes h) = true
holds (no h) = false

pub data Result {ℓ κ} (A : Type ℓ) (E : Type κ) : Type (ℓ ⊔ κ) where
  ok : A → Result A E
  err : E → Result A E

abbrev pub is_ok {ℓ κ} : {A : Type ℓ} {E : Type κ} → Result A E → Bool
is_ok (ok a) = true
is_ok (err e) = false

-- To split on a computed value and keep the equation.
pub Bool-cases : (b : Bool) → (b ≡ true) ⊎ (b ≡ false)
Bool-cases true = inl refl
Bool-cases false = inr refl

pub Option-cases {ℓ} : {A : Type ℓ} (o : Option A) → (o ≡ none) ⊎ ((a : A) × (o ≡ some a))
Option-cases none = inl refl
Option-cases (some a) = inr (a, refl)

-- To prove a property of a branch from its two sides.
pub ite_intro {ℓ κ τ} :
    {P : Type ℓ} {A : Type κ} (Q : A → Type τ) (d : Dec P) {x y : A}
    → (P → Q x)
    → (¬ P → Q y)
    → Q (ite d x y)
ite_intro Q (yes p) f g = f p
ite_intro Q (no p) f g = g p

pub if_intro {ℓ κ} :
    {A : Type ℓ} (Q : A → Type κ) (b : Bool) {x y : A}
    → (b ≡ true → Q x)
    → (b ≡ false → Q y)
    → Q (if b then x else y)
if_intro Q true f g = f refl
if_intro Q false f g = g refl

pub holds-true {ℓ} : {P : Type ℓ} (d : Dec P) → holds d ≡ true → P
holds-true (yes p) h = p
holds-true (no p) h = cc

pub holds-false {ℓ} : {P : Type ℓ} (d : Dec P) → holds d ≡ false → ¬ P
holds-false (yes p) h = cc
holds-false (no p) h = p

pub Result-cases {ℓ κ} :
    {A : Type ℓ} {E : Type κ} (r : Result A E) → ((a : A) × (r ≡ ok a)) ⊎ ((e : E) × (r ≡ err e))
Result-cases (ok a) = inl (a, refl)
Result-cases (err e) = inr (e, refl)
