-- ===== src/Agent/Paths/Names.antt =====
-- One name: `safe_file_name` in crates/nexus-agent/src/peer_channel.rs.
use nexus_kvm.Base.{
  ℕ, zero, suc, ◌≤◌, ◌≡◌, refl, sym, ◌∙◌, ap, ap₂, Bool, true, false, ◌||◌, none, some, [], ◌∷◌,
  ◌++◌, map, is_empty, length, All, All-append, length-append, subst, ◌<◌, arith, Option-cases, inl,
  inr, Bool-cases,
}
use mathlib.Core.Bool.{false≢true}
use nexus_kvm.Common.Auth.{take}
use nexus_kvm.Common.Auth.Sealing
use nexus_kvm.Agent.Paths.{
  Text, is_slash, is_separator, is_dot, is_dot_dot, split, last_name, file_name, is_allowed, clean,
  is_blank, name_limit, cleaned_name, safe_file_name,
}

abbrev pub Allowed : ℕ → Type 0
Allowed c = is_allowed c ≡ true

-- What a component of a path may be: it is no parent, and has no separator.
pub record IsSafe (t : Text) : Type 0 where
  pub allowed : All Allowed t
  pub short : length t ≤ name_limit
  pub no_dot : is_dot t ≡ false
  pub no_dot_dot : is_dot_dot t ≡ false
  pub shown : is_blank t ≡ false

clean-Allowed : (c : ℕ) → Allowed (clean c)
unfolding clean is_allowed
clean-Allowed c = ground arith

clean-kept : (c : ℕ) → Allowed c → clean c ≡ c
unfolding clean
clean-kept c h = ground arith

pub Allowed-no_separator : (c : ℕ) → Allowed c → is_separator c ≡ false
unfolding is_allowed
Allowed-no_separator c h = ground arith

pub Allowed-no_slash : (c : ℕ) → Allowed c → is_slash c ≡ false
unfolding is_allowed
Allowed-no_slash c h = ground arith

map-clean-Allowed : (k : ℕ) (t : Text) → All Allowed (take k (map clean t))
map-clean-Allowed zero t = tt
map-clean-Allowed (suc k) [] = tt
map-clean-Allowed (suc k) (c ∷ t) = (clean-Allowed c, map-clean-Allowed k t)

map-clean-kept : (t : Text) → All Allowed t → map clean t ≡ t
map-clean-kept [] h = refl
map-clean-kept (c ∷ t) h = ap₂ ◌∷◌ (clean-kept c h.0) (map-clean-kept t h.1)

take_short : (k : ℕ) (t : Text) → length t ≤ k → take k t ≡ t
take_short zero [] h = refl
take_short zero (c ∷ t) h = absurd (omega arith)
take_short (suc k) [] h = refl
take_short (suc k) (c ∷ t) h = ap (◌∷◌ c) (take_short k t (omega arith))

length-take : (k : ℕ) (t : Text) → length (take k t) ≤ k
length-take zero t = omega arith
length-take (suc k) [] = omega arith
length-take (suc k) (c ∷ t) = omega (arith, length-take k t)

-- A text of allowed characters is one part.
pub split-Allowed :
    (p : ℕ → Bool)
    → ((c : ℕ) → Allowed c → p c ≡ false)
    → (t : Text) → All Allowed t
    → split p t ≡ t ∷ []
unfolding split
split-Allowed p none_splits [] h = refl
split-Allowed p none_splits (c ∷ t) h =
    rw (none_splits c h.0, split-Allowed p none_splits t h.1) refl

-- Cleaning and cutting a name makes it a dot or two only if it was one.
cleaned-no_dot : (t : Text) → is_dot t ≡ false → is_dot (take name_limit (map clean t)) ≡ false
unfolding clean is_allowed
cleaned-no_dot [] h = refl
cleaned-no_dot (c ∷ []) h = ground arith
cleaned-no_dot (c ∷ d ∷ t) h = refl

cleaned-no_dot_dot :
    (t : Text) → is_dot_dot t ≡ false → is_dot_dot (take name_limit (map clean t)) ≡ false
unfolding clean is_allowed
cleaned-no_dot_dot [] h = refl
cleaned-no_dot_dot (c ∷ []) h = refl
cleaned-no_dot_dot (c ∷ d ∷ []) h = ground arith
cleaned-no_dot_dot (c ∷ d ∷ e ∷ t) h = refl

cleaned_name-IsSafe : (base t : Text) → cleaned_name base ≡ some t → IsSafe t
unfolding cleaned_name
cleaned_name-IsSafe base t e = elim (Bool-cases (is_blank cut)) [
  | inl blank ↦ absurd (ground arith)
  | inr shown ↦ elim (Bool-cases (is_dot base || is_dot_dot base)) [
    | inl dots ↦ absurd (ground arith)
    | inr plain ↦
        let same : cut ≡ t = ground arith in
        rw (← same) (record {
          allowed = map-clean-Allowed name_limit base;
          short = length-take name_limit (map clean base);
          no_dot = cleaned-no_dot base (ground arith);
          no_dot_dot = cleaned-no_dot_dot base (ground arith);
          shown = shown;
        })
  ]
]
  where
    cut : Text
    cut = take name_limit (map clean base)

pub safe_file_name-IsSafe : (name t : Text) → safe_file_name name ≡ some t → IsSafe t
unfolding safe_file_name
safe_file_name-IsSafe name t e = elim (Option-cases (file_name name)) [
  | inl nothing ↦ absurd (ground arith)
  | inr (base, found) ↦ cleaned_name-IsSafe base t (ground arith)
]

pub IsSafe-full : (t : Text) → IsSafe t → is_empty t ≡ false
unfolding is_blank
IsSafe-full [] s = absurd (false≢true (sym s.shown))
IsSafe-full (c ∷ t) s = refl

last_name_one :
    (t : Text)
    → is_empty t ≡ false
    → is_dot t ≡ false
    → is_dot_dot t ≡ false
    → last_name none (t ∷ []) ≡ some t
unfolding last_name
last_name_one t e f g = rw (last_name, e, f, g) refl

cleaned_name_kept : (t : Text) → IsSafe t → cleaned_name t ≡ some t
unfolding cleaned_name
cleaned_name_kept t s =
    rw
      (
        map-clean-kept t s.allowed,
        take_short name_limit t s.short,
        IsSafe-full t s,
        s.no_dot,
        s.no_dot_dot,
        s.shown,
      )
      refl

-- A name of allowed characters is its own last component.
pub safe_file_name-Allowed :
    (t : Text)
    → All Allowed t
    → is_empty t ≡ false
    → is_dot t ≡ false
    → is_dot_dot t ≡ false
    → safe_file_name t ≡ cleaned_name t
unfolding safe_file_name file_name
safe_file_name-Allowed t h e f g =
    let found : file_name t ≡ some t =
      ap (last_name none) (split-Allowed is_slash Allowed-no_slash t h) ∙ last_name_one t e f g in
    rw (safe_file_name, found) refl

-- A safe name stays as it is.
pub safe_file_name_kept : (t : Text) → IsSafe t → safe_file_name t ≡ some t
safe_file_name_kept t s =
    safe_file_name-Allowed t s.allowed (IsSafe-full t s) s.no_dot s.no_dot_dot
    ∙ cleaned_name_kept t s

pub long_name :
    (t : Text) → 2 < length t → (is_empty t ≡ false) × (is_dot t ≡ false) × (is_dot_dot t ≡ false)
long_name [] h = absurd (omega arith)
long_name (c ∷ []) h = absurd (omega arith)
long_name (c ∷ d ∷ []) h = absurd (omega arith)
long_name (c ∷ d ∷ e ∷ t) h = (refl, refl, refl)

take-append : (k : ℕ) (t suffix : Text) → length t ≡ k → take k (t ++ suffix) ≡ t
take-append k t suffix h = subst (λ n. take n (t ++ suffix) ≡ t) h (Sealing.take-append t suffix)

-- A name that goes on after the limit is cut.
pub cleaned_name_cut :
    (root suffix : Text)
    → IsSafe root
    → length root ≡ name_limit
    → All Allowed suffix
    → cleaned_name (root ++ suffix) ≡ some root
unfolding cleaned_name
cleaned_name_cut root suffix s long h =
    let all = All-append Allowed root suffix s.allowed h in
    let (e, f, g) = long_name (root ++ suffix) (omega (arith, length-append root suffix)) in
    rw
      (
        e,
        f,
        g,
        map-clean-kept (root ++ suffix) all,
        take-append name_limit root suffix long,
        s.shown,
      )
      refl
