-- ===== src/Base/Lists.antt =====
-- Lists with native lengths, Boolean filters and predicates by recursion.
use Prim.Native.Nat.{ℕ, zero, suc, ◌+◌, ◌<◌}
use mathlib.Core.Path.{◌≡◌, refl, sym, subst}
use mathlib.Core.Logic.{◌≢◌, inl, inr}
use mathlib.Core.Bool.{Bool, true, false, ◌||◌}
use mathlib.Core.Option.{Option, none, some}
use mathlib.Core.List.{List, [], ◌∷◌, ◌++◌}
use native.Mathlib.Omega.{arith}
use nexus_kvm.Base.Tests.{if◌then◌else◌, Bool-cases}

module _ {ℓ} {A : Type ℓ} where
  abbrev pub length : List A → ℕ
  length [] = 0
  length (x ∷ xs) = suc (length xs)

  abbrev pub get_elem? : List A → ℕ → Option A
  get_elem? [] i = none
  get_elem? (x ∷ xs) zero = some x
  get_elem? (x ∷ xs) (suc i) = get_elem? xs i

  -- `iter().filter(p)`
  abbrev pub keep_if : (A → Bool) → List A → List A
  keep_if p [] = []
  keep_if p (x ∷ xs) = let rest = keep_if p xs in if p x then x ∷ rest else rest

  -- `iter().find(p)`
  abbrev pub find_if : (A → Bool) → List A → Option A
  find_if p [] = none
  find_if p (x ∷ xs) = let rest = find_if p xs in if p x then some x else rest

  -- `iter().any(p)`
  abbrev pub any_of : (A → Bool) → List A → Bool
  any_of p [] = false
  any_of p (x ∷ xs) = p x || any_of p xs

  abbrev pub is_empty : List A → Bool
  is_empty [] = true
  is_empty (x ∷ xs) = false

  abbrev pub All {κ} : (A → Type κ) → List A → Type κ
  All P [] = Unit
  All P (x ∷ xs) = P x × All P xs

  pub length-append : (xs ys : List A) → length (xs ++ ys) ≡ length xs + length ys
  length-append [] ys = omega arith
  length-append (x ∷ xs) ys = omega (arith, length-append xs ys)

module _ {ℓ} {A : Type ℓ} where
  -- No value stands twice.
  abbrev pub NoRepeat : List A → Type ℓ
  NoRepeat [] = Unit
  NoRepeat (x ∷ xs) = All (λ y. y ≢ x) xs × NoRepeat xs

  pub All-keep_if {κ} :
      (P : A → Type κ) (p : A → Bool) (xs : List A) → All P xs → All P (keep_if p xs)
  All-keep_if P p [] h = tt
  All-keep_if P p (x ∷ xs) h = elim (Bool-cases (p x)) [
    | inl e ↦ rw e (h.0, All-keep_if P p xs h.1)
    | inr e ↦ rw e (All-keep_if P p xs h.1)
  ]

  pub NoRepeat-keep_if : (p : A → Bool) (xs : List A) → NoRepeat xs → NoRepeat (keep_if p xs)
  NoRepeat-keep_if p [] h = tt
  NoRepeat-keep_if p (x ∷ xs) h = elim (Bool-cases (p x)) [
    | inl e ↦ rw e (All-keep_if (λ y. y ≢ x) p xs h.0, NoRepeat-keep_if p xs h.1)
    | inr e ↦ rw e (NoRepeat-keep_if p xs h.1)
  ]

  pub All-get {κ} :
      (P : A → Type κ) (xs : List A) (i : ℕ) (x : A) → All P xs → get_elem? xs i ≡ some x → P x
  All-get P [] i x h e = cc
  All-get P (y ∷ xs) zero x h e = let same : y ≡ x = cc in subst P same h.0
  All-get P (y ∷ xs) (suc i) x h e = All-get P xs i x h.1 e

  pub get-range : (xs : List A) (i : ℕ) → i < length xs → (x : A) × (get_elem? xs i ≡ some x)
  get-range [] i h = absurd (omega arith)
  get-range (x ∷ xs) zero h = (x, refl)
  get-range (x ∷ xs) (suc i) h = get-range xs i (omega arith)

  pub get-lt-length : (xs : List A) (i : ℕ) (x : A) → get_elem? xs i ≡ some x → i < length xs
  get-lt-length [] i x e = cc
  get-lt-length (y ∷ xs) zero x e = omega arith
  get-lt-length (y ∷ xs) (suc i) x e = omega (arith, get-lt-length xs i x e)

  pub keep_if-passes : (p : A → Bool) (xs : List A) → All (λ x. p x ≡ true) (keep_if p xs)
  keep_if-passes p [] = tt
  keep_if-passes p (x ∷ xs) = elim (Bool-cases (p x)) [
    | inl e ↦ rw e (e, keep_if-passes p xs)
    | inr e ↦ rw e (keep_if-passes p xs)
  ]

  pub All-append {κ} : (P : A → Type κ) (xs ys : List A) → All P xs → All P ys → All P (xs ++ ys)
  All-append P [] ys h k = k
  All-append P (x ∷ xs) ys h k = (h.0, All-append P xs ys h.1 k)

  pub NoRepeat-snoc :
      (xs : List A) (y : A) → All (λ x. x ≢ y) xs → NoRepeat xs → NoRepeat (xs ++ y ∷ [])
  NoRepeat-snoc [] y h k = (tt, tt)
  NoRepeat-snoc (x ∷ xs) y h k =
      (All-append (λ z. z ≢ x) xs (y ∷ []) k.0 ((λ e. h.0 (sym e)), tt), NoRepeat-snoc xs y h.1 k.1)
