-- ===== src/Input/Caps.antt =====
-- rkvm-master/rkvm-input/src: the capabilities of a device (interceptor/caps.rs), the codes that a writer
-- enables for them (`WriterBuilder`, writer.rs), and the axes of nonsense ranges that
-- `Interceptor::open` disables. What libevdev says of a device is an argument.
use nexus_kvm.Base.{
  ℕ, zero, suc, ◌+◌, ◌<◌, ◌≡◌, refl, ap, subst, ◌∙◌, String, Bool, true, false, Option, none, some,
  List, [], ◌∷◌, ◌&&◌, not, if◌then◌else◌, keep_if, arith, Bool-cases, inl, inr, Option-cases,
  holds, str_dec, ◌==◌,
}
use mathlib.Core.Option
use mathlib.Core.List.{Perm, filter_map}
use mathlib.Core.List.Perm
use nexus_kvm.Base.Int.{ℤ, pos, leb_ℤ}
use nexus_kvm.Input.Axes.{RelAxis, AbsAxis}
use nexus_kvm.Input.Codes.{
  Key, as_u16, rel_from_raw, rel_to_raw, abs_from_raw, abs_to_raw, key_from_raw, key_to_raw,
}
use nexus_kvm.Input.Faithful.{rel_to_raw-from_raw, abs_to_raw-from_raw, key_to_raw-from_raw}

-- The codes that the iterator has before it, from `current` on: `left` of them.
abbrev pub codes_from : ℕ → ℕ → List ℕ
codes_from current zero = []
codes_from current (suc left) = current ∷ codes_from (current + 1) left

-- The items of `RelCaps`, `AbsCaps` and `KeyCaps`: `next` until it returns `None`.
unfoldable pub caps_from {ℓ} : {A : Type ℓ} → (ℕ → Bool) → (ℕ → Option A) → ℕ → ℕ → List A
caps_from has from current zero = []
caps_from has from current (suc left) =
    let later = caps_from has from (current + 1) left in
    elim (has current) [
      | false ↦ later
      | true ↦ elim (from current) [ some a ↦ a ∷ later | none ↦ later ]
    ]

-- `new`: a device without events of the type starts at the end.
unfoldable pub caps {ℓ} : {A : Type ℓ} → Bool → (ℕ → Bool) → (ℕ → Option A) → ℕ → List A
caps has_type has from max = if has_type then caps_from has from 0 max else []

-- The codes that `rel`, `abs` and `key` of the builder enable; a value without a code is skipped.
unfoldable pub enabled {ℓ} : {A : Type ℓ} → (A → Option ℕ) → List A → List ℕ
enabled to [] = []
enabled to (a ∷ items) = elim (to a) [
  | none ↦ enabled to items
  | some code ↦ code ∷ enabled to items
]

abbrev pub is_some {ℓ} : {A : Type ℓ} → Option A → Bool
is_some none = false
is_some (some a) = true

enabled-caps_from :
    {A : Type 0} (has : ℕ → Bool) (from : ℕ → Option A) (to : A → Option ℕ) (current left : ℕ)
    → ((code : ℕ) → code < current + left → (a : A) → from code ≡ some a → to a ≡ some code)
    → enabled to (caps_from has from current left)
      ≡ keep_if (λ code. has code && is_some (from code)) (codes_from current left)
unfolding enabled caps_from
enabled-caps_from has from to current zero back = refl
enabled-caps_from has from to current (suc left) back =
    let ih = enabled-caps_from has from to (current + 1) left (λ code h. back code (omega arith)) in
    elim (Bool-cases (has current)) [
      | inl here ↦ elim (Option-cases (from current)) [
        | inl no_value ↦ rw (here, caps_from) (rw (no_value, caps_from) ih)
        | inr (a, value) ↦
            rw (here, caps_from)
              (rw (value, caps_from)
                (rw (back current (omega arith) a value, enabled) (ap (λ l. current ∷ l) ih)))
      ]
      | inr absent ↦ rw (absent, caps_from) ih
    ]

-- `AbsInfo`
pub record AbsInfo : Type 0 where
  pub min : ℤ
  pub max : ℤ
  pub fuzz : ℤ
  pub flat : ℤ
  pub resolution : ℤ

-- What libevdev says of a device: its types of events, the codes of each, and its axes.
pub record Device : Type 0 where
  pub has_type : String → Bool
  pub has_code : String → ℕ → Bool
  pub abs_info : ℕ → AbsInfo

is_zero : ℤ → Bool
is_zero (pos n) = n == 0
is_zero _ = false

-- The axes whose ranges `Interceptor::open` takes for nonsense: `(min != 0 || max != 0) && max < min`.
unfoldable pub is_nonsense : AbsInfo → Bool
unfolding is_zero
is_nonsense info = not (is_zero info.min && is_zero info.max) && not (leb_ℤ info.min info.max)

unfoldable pub disable_nonsense : Device → Device
unfolding is_nonsense
disable_nonsense d = record d {
  has_code = λ name code.
      if holds (str_dec name "EV_ABS")
      then d.has_code name code && not (is_nonsense (d.abs_info code))
      else d.has_code name code;
}

enabled-filter_map :
    {A : Type 0} (to : A → Option ℕ) (items : List A) → filter_map to items ≡ enabled to items
unfolding enabled filter_map
enabled-filter_map to [] = refl
enabled-filter_map to (a ∷ items) = elim (Option-cases (to a)) [
  | inl no_code ↦ rw (no_code, filter_map, enabled) (enabled-filter_map to items)
  | inr (code, e) ↦ rw (e, filter_map, enabled) (ap (λ l. code ∷ l) (enabled-filter_map to items))
]

-- The order of the items is that of the codes.
enabled-perm :
    {A : Type 0} (to : A → Option ℕ) (xs ys : List A)
    → Perm xs ys
    → Perm (enabled to xs) (enabled to ys)
enabled-perm to xs ys p =
    subst (λ l. Perm l (enabled to ys)) (enabled-filter_map to xs)
      (subst (λ l. Perm (filter_map to xs) l) (enabled-filter_map to ys) (Perm.filter_map to p))

module _ (glue : String → ℕ) (profile : Bool) where
  unfoldable pub rel_caps : Device → List RelAxis
  unfolding caps
  rel_caps d =
      caps (d.has_type "EV_REL") (d.has_code "EV_REL") (rel_from_raw glue profile)
        (as_u16 (glue "REL_MAX"))

  unfoldable pub abs_item : Device → ℕ → Option (AbsAxis × AbsInfo)
  abs_item d code = Option.map (λ a. (a, d.abs_info code)) (abs_from_raw glue profile code)

  unfoldable pub abs_caps : Device → List (AbsAxis × AbsInfo)
  unfolding caps abs_item
  abs_caps d =
      caps (d.has_type "EV_ABS") (d.has_code "EV_ABS") (abs_item d) (as_u16 (glue "ABS_MAX"))

  unfoldable pub key_caps : Device → List Key
  unfolding caps
  key_caps d =
      caps (d.has_type "EV_KEY") (d.has_code "EV_KEY") (key_from_raw glue profile)
        (as_u16 (glue "KEY_MAX"))

  -- The codes that a writer which is built from a device's capabilities has.
  abbrev pub Clone : Type 0
  Clone = List ℕ × List ℕ × List ℕ

  -- The capabilities reach the builder as `HashSet`s and a `HashMap`, whose order is their own.
  pub record Sets : Type 0 where
    pub rel : List RelAxis
    pub abs : List (AbsAxis × AbsInfo)
    pub keys : List Key

  unfoldable pub clone_of : Sets → Clone
  clone_of sets = (
    enabled (rel_to_raw glue profile) sets.rel,
    enabled (λ (item : AbsAxis × AbsInfo). abs_to_raw glue profile item.0) sets.abs,
    enabled (key_to_raw glue profile) sets.keys,
  )

  -- The codes of a type below its maximum that the device has and that can be read.
  abbrev pub known_codes : {A : Type 0} → Device → String → String → (ℕ → Option A) → List ℕ
  known_codes d kind max from =
      if d.has_type kind
      then keep_if (λ code. d.has_code kind code && is_some (from code))
          (codes_from 0 (as_u16 (glue max)))
      else []

  axis_of : AbsAxis → Option (AbsAxis × AbsInfo) → AbsAxis
  axis_of a none = a
  axis_of a (some (axis, info)) = axis

  abs_back :
      (d : Device) (code : ℕ)
      → code < 65536
      → (item : AbsAxis × AbsInfo) → abs_item d code ≡ some item
      → abs_to_raw glue profile item.0 ≡ some code
  unfolding abs_item axis_of
  abs_back d code h (axis, info) e = elim (Option-cases (abs_from_raw glue profile code)) [
    | inl unknown ↦
        let no_item : ◌≡◌ {A = Option (AbsAxis × AbsInfo)} none (some (axis, info)) =
          rw unknown at e in
        cc
    | inr (a, known) ↦
        let found : ◌≡◌ {A = Option (AbsAxis × AbsInfo)} (some (a, d.abs_info code))
            (some (axis, info)) =
          rw known at e in
        let same : a ≡ axis = ap (λ (p : Option (AbsAxis × AbsInfo)). axis_of a p) found in
        abs_to_raw-from_raw glue profile code h axis (known ∙ ap some same)
  ]

  enabled-caps :
      {A : Type 0} (d : Device) (kind max : String) (from : ℕ → Option A) (to : A → Option ℕ)
      → ((code : ℕ) → code < 65536 → (a : A) → from code ≡ some a → to a ≡ some code)
      → enabled to (caps (d.has_type kind) (d.has_code kind) from (as_u16 (glue max)))
        ≡ known_codes d kind max from
  unfolding caps enabled
  enabled-caps d kind max from to back = elim (Bool-cases (d.has_type kind)) [
    | inl has ↦ rw has (
        enabled-caps_from (d.has_code kind) from to 0 (as_u16 (glue max))
          (λ code h. back code (omega arith)))
    | inr lacks ↦ rw lacks refl
  ]

  -- The sets of a device's capabilities, in any order.
  pub record IsSets (d : Device) (sets : Sets) : Type 0 where
    pub rel : Perm (rel_caps d) sets.rel
    pub abs : Perm (abs_caps d) sets.abs
    pub keys : Perm (key_caps d) sets.keys

  enabled_known :
      {A : Type 0} (to : A → Option ℕ) (caps items : List A) (codes : List ℕ)
      → Perm caps items
      → enabled to caps ≡ codes
      → Perm codes (enabled to items)
  enabled_known to caps items codes p e =
      subst (λ l. Perm l (enabled to items)) e (enabled-perm to caps items p)

  -- A device that is built on another machine from the sets of a device's capabilities has exactly the
  -- codes below the maximum of their type that the device has and that are known, each once, in some
  -- order.
  pub clone_of-codes :
      (d : Device) (sets : Sets)
      → IsSets d sets
      → let (rel, abs, keys) = clone_of sets in
        Perm (known_codes d "EV_REL" "REL_MAX" (rel_from_raw glue profile)) rel
        × Perm (known_codes d "EV_ABS" "ABS_MAX" (abs_item d)) abs
        × Perm (known_codes d "EV_KEY" "KEY_MAX" (key_from_raw glue profile)) keys
  unfolding clone_of rel_caps abs_caps key_caps
  clone_of-codes d sets same = (
    enabled_known (rel_to_raw glue profile) (rel_caps d) sets.rel _ same.rel (
        enabled-caps d "EV_REL" "REL_MAX" (rel_from_raw glue profile) (rel_to_raw glue profile)
          (λ code h a e. rel_to_raw-from_raw glue profile code h a e)),
    enabled_known _ (abs_caps d) sets.abs _ same.abs (
        enabled-caps d "EV_ABS" "ABS_MAX" (abs_item d) _
          (λ code h item e. abs_back d code h item e)),
    enabled_known (key_to_raw glue profile) (key_caps d) sets.keys _ same.keys (
        enabled-caps d "EV_KEY" "KEY_MAX" (key_from_raw glue profile) (key_to_raw glue profile)
          (λ code h a e. key_to_raw-from_raw glue profile code h a e)),
  )
