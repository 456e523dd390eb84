-- ===== src/Base/Dict.antt =====
-- Maps as association lists: `HashMap` (insertion order) and `BTreeMap` (order of the keys).
use mathlib.Core.Path.{◌≡◌, refl}
use mathlib.Core.Logic.{ite}
use mathlib.Core.Option
use mathlib.Core.Option.{Option, none, some}
use mathlib.Core.List.{List, [], ◌∷◌}
use mathlib.Core.Bool.{Bool, true, false}
use Prim.Native.Nat.{Ordering}
use Prim.Native.String.{String, compare}
use native.Mathlib.Omega.{arith}
use nexus_kvm.Base.Tests.{if◌then◌else◌}
use nexus_kvm.Base.Text.{str_dec}

module _ {ℓ} {K V : Type ℓ} (dec : Discrete K) where
  unfoldable pub lookup : K → List (K × V) → Option V
  lookup k [] = none
  lookup k ((j, v) ∷ m) = ite (dec j k) (some v) (lookup k m)

  -- `HashMap::insert`: a new key goes to the end.
  unfoldable pub insert : K → V → List (K × V) → List (K × V)
  insert k v [] = (k, v) ∷ []
  insert k v ((j, w) ∷ m) = ite (dec j k) ((k, v) ∷ m) ((j, w) ∷ insert k v m)

  unfoldable pub remove : K → List (K × V) → List (K × V)
  remove k [] = []
  remove k ((j, v) ∷ m) = let rest = remove k m in ite (dec j k) rest ((j, v) ∷ rest)

  -- `if let Some(v) = get_mut(k) { *v = f(v) }`
  unfoldable pub adjust : (V → V) → K → List (K × V) → List (K × V)
  adjust f k [] = []
  adjust f k ((j, v) ∷ m) = ite (dec j k) ((j, f v) ∷ m) ((j, v) ∷ adjust f k m)

  pub lookup-insert :
      (q k : K) (v : V) (m : List (K × V))
      → lookup q (insert k v m) ≡ ite (dec k q) (some v) (lookup q m)
  unfolding lookup insert
  lookup-insert q k v [] = refl
  lookup-insert q k v ((j, w) ∷ m) = ground (arith, lookup-insert q k v m)

  pub lookup-remove :
      (q k : K) (m : List (K × V)) → lookup q (remove k m) ≡ ite (dec k q) none (lookup q m)
  unfolding lookup remove
  lookup-remove q k [] = ground arith
  lookup-remove q k ((j, w) ∷ m) = ground (arith, lookup-remove q k m)

  pub lookup-adjust :
      (f : V → V) (q k : K) (m : List (K × V))
      → lookup q (adjust f k m) ≡ ite (dec k q) (Option.map f (lookup q m)) (lookup q m)
  unfolding lookup adjust
  lookup-adjust f q k [] = ground arith
  lookup-adjust f q k ((j, w) ∷ m) = ground (arith, lookup-adjust f q k m)

-- `a < b` on texts, by their bytes.
abbrev pub str_lt : String → String → Bool
str_lt a b = elim (compare a b) [ Ordering.lt ↦ true | _ ↦ false ]

-- `BTreeMap::insert`: the entries stand in the order of their keys.
unfoldable pub tree_insert {ℓ} : {V : Type ℓ} → String → V → List (String × V) → List (String × V)
tree_insert k v [] = (k, v) ∷ []
tree_insert k v ((j, w) ∷ m) =
    let rest = (j, w) ∷ tree_insert k v m in
    ite (str_dec j k) ((k, v) ∷ m) (if str_lt k j then (k, v) ∷ (j, w) ∷ m else rest)

pub lookup-tree_insert :
    {V : Type 0} (q k : String) (v : V) (m : List (String × V))
    → lookup str_dec q (tree_insert k v m) ≡ ite (str_dec k q) (some v) (lookup str_dec q m)
unfolding lookup tree_insert
lookup-tree_insert q k v [] = refl
lookup-tree_insert q k v ((j, w) ∷ m) = ground (arith, lookup-tree_insert q k v m)
