-- ===== src/Input/Faithful.antt =====
-- The events that the interceptor reads are written with the codes that they came with.
use nexus_kvm.Base.{
  ℕ, ◌<◌, ◌≡◌, ◌≢◌, ◌⊎◌, inl, inr, refl, sym, ap, ◌∙◌, String, Bool, true, false, some, List, [],
  ◌∷◌, ◌==◌, arith, All, All-keep_if, Bool-cases, holds, holds-true, str_dec, not, ◌||◌, keep_if,
  keep_if-passes, subst, ◌&&◌, Option-cases,
}
use nexus_kvm.Base.Int.{ℤ, pos, negsuc, InI32}
use nexus_kvm.Input.Axes.{
  RelAxis, rel_constant, rel_arms, AbsAxis, abs_constant, abs_arms, ToolType, tool_constant,
  tool_arms,
}
use nexus_kvm.Input.Button.{button_constant, button_arms}
use nexus_kvm.Input.Keyboard.{Keyboard, keyboard_constant}
use nexus_kvm.Input.Keyboard.Arms.{keyboard_arms}
use nexus_kvm.Input.Codes.{
  Key, keyboard, button, match_arms, as_u16, as_u32, as_i32, rel_from_raw, rel_to_raw, abs_from_raw,
  abs_to_raw, tool_from_raw, tool_to_raw, key_from_raw, key_to_raw,
}

-- Each arm names the constant that its value is written as.
agree : {A : Type 0} → (A → String) → List (String × A) → Bool
agree constant [] = true
agree constant ((name, a) ∷ arms) = holds (str_dec (constant a) name) && agree constant arms

Agree : {A : Type 0} → (A → String) → List (String × A) → Type 0
Agree constant arms = All (λ e. constant e.1 ≡ e.0) arms

&&-right : (a b : Bool) → (a && b) ≡ true → b ≡ true
&&-right true b h = h
&&-right false b h = cc

agree-Agree :
    {A : Type 0} (constant : A → String) (arms : List (String × A))
    → agree constant arms ≡ true
    → Agree constant arms
unfolding agree Agree
agree-Agree constant [] h = tt
agree-Agree constant ((name, a) ∷ arms) h = elim (Bool-cases (holds (str_dec (constant a) name))) [
  | inl same ↦
      (holds-true (str_dec (constant a) name) same, agree-Agree constant arms (rw same at h))
  | inr other ↦ cc
]

-- The arm that was taken.
match_arms-found :
    {A : Type 0} (P : String × A → Type 0) (glue : String → ℕ) (raw : ℕ) (arms : List (String × A))
    {a : A}
    → All P arms
    → match_arms glue raw arms ≡ some a
    → (name : String) × P (name, a) × (glue name ≡ raw)
unfolding match_arms
match_arms-found P glue raw [] h e = cc
match_arms-found P glue raw ((name, b) ∷ arms) {a} h e = elim (Bool-cases (raw == glue name)) [
  | inl same ↦
      let met : some b ≡ some a = rw same at e in
      let found : b ≡ a = cc in (name, subst (λ c. P (name, c)) found h.0, ground arith)
  | inr other ↦ match_arms-found P glue raw arms h.1 (rw other at e)
]

match_arms-constant :
    {A : Type 0} (glue : String → ℕ) (constant : A → String) (raw : ℕ) (arms : List (String × A))
    {a : A}
    → Agree constant arms
    → match_arms glue raw arms ≡ some a
    → glue (constant a) ≡ raw
unfolding Agree
match_arms-constant glue constant raw arms h e =
    let (name, same, met) = match_arms-found (λ e. constant e.1 ≡ e.0) glue raw arms h e in
    rw same met

All-both :
    {A : Type 0} (P Q : A → Type 0) (xs : List A) → All P xs → All Q xs → All (λ x. P x × Q x) xs
All-both P Q [] h k = tt
All-both P Q (x ∷ xs) h k = ((h.0, k.0), All-both P Q xs h.1 k.1)

rel_arms-Agree : Agree rel_constant rel_arms
unfolding agree str_dec rel_constant rel_arms
rel_arms-Agree = agree-Agree rel_constant rel_arms refl

abs_arms-Agree : Agree abs_constant abs_arms
unfolding agree str_dec abs_constant abs_arms
abs_arms-Agree = agree-Agree abs_constant abs_arms refl

tool_arms-Agree : Agree tool_constant tool_arms
unfolding agree str_dec tool_constant tool_arms
tool_arms-Agree = agree-Agree tool_constant tool_arms refl

button_arms-Agree : Agree button_constant button_arms
unfolding agree str_dec button_constant button_arms
button_arms-Agree = agree-Agree button_constant button_arms refl

keyboard_arms-Agree : Agree keyboard_constant keyboard_arms
unfolding agree str_dec keyboard_constant keyboard_arms
keyboard_arms-Agree = agree-Agree keyboard_constant keyboard_arms refl

pub as_u16-below : (n : ℕ) → n < 65536 → as_u16 n ≡ n
as_u16-below n h = omega arith

as_i32-as_u32 : (v : ℤ) → InI32 v → as_i32 (as_u32 v) ≡ v
unfolding as_i32 as_u32
as_i32-as_u32 (pos n) h = ground arith
as_i32-as_u32 (negsuc n) h = ground arith

profile_dropped :
    (name : String)
    → name ≡ abs_constant AbsAxis.profile
    → not (holds (str_dec name "ABS_PROFILE")) ≡ true
    → ⊥
unfolding abs_constant str_dec
profile_dropped name e keeps =
    let is_false : false ≡ true =
      subst (λ n. not (holds (str_dec n "ABS_PROFILE")) ≡ true) e keeps in
    cc

module _ (glue : String → ℕ) (profile : Bool) (raw : ℕ) (small : raw < 65536) where
  written_back : (n : ℕ) → n ≡ raw → some (as_u16 n) ≡ some raw
  written_back n e = ap some (rw e (as_u16-below raw small))

  pub rel_to_raw-from_raw :
      (a : RelAxis) → rel_from_raw glue profile raw ≡ some a → rel_to_raw glue profile a ≡ some raw
  unfolding rel_from_raw rel_to_raw
  rel_to_raw-from_raw a e =
      written_back _ (match_arms-constant glue rel_constant raw rel_arms rel_arms-Agree e)

  abs_to_raw-known :
      (a : AbsAxis)
      → profile ≡ true ⊎ (a ≢ AbsAxis.profile)
      → abs_to_raw glue profile a ≡ some (as_u16 (glue (abs_constant a)))
  unfolding abs_to_raw
  abs_to_raw-known AbsAxis.profile (inl e) = rw e refl
  abs_to_raw-known AbsAxis.profile (inr e) = absurd (e refl)
  abs_to_raw-known _ e = refl

  is_known :
      (a : AbsAxis) (name : String)
      → abs_constant a ≡ name
      → (profile || not (holds (str_dec name "ABS_PROFILE"))) ≡ true
      → profile ≡ true ⊎ (a ≢ AbsAxis.profile)
  is_known a name same keeps = elim (Bool-cases profile) [
    | inl has ↦ inl has
    | inr lacks ↦ inr (λ e. profile_dropped name (sym same ∙ ap abs_constant e) (rw lacks at keeps))
  ]

  pub abs_to_raw-from_raw :
      (a : AbsAxis) → abs_from_raw glue profile raw ≡ some a → abs_to_raw glue profile a ≡ some raw
  unfolding abs_from_raw Agree
  abs_to_raw-from_raw a e =
      let kept = λ (e : String × AbsAxis). profile || not (holds (str_dec e.0 "ABS_PROFILE")) in
      let (name, (same, keeps), met) =
        match_arms-found (λ e. (abs_constant e.1 ≡ e.0) × (kept e ≡ true)) glue raw
          (keep_if kept abs_arms)
          (All-both (λ e. abs_constant e.1 ≡ e.0) (λ e. kept e ≡ true) (keep_if kept abs_arms)
            (All-keep_if (λ e. abs_constant e.1 ≡ e.0) kept abs_arms abs_arms-Agree)
            (keep_if-passes kept abs_arms))
          e in
      abs_to_raw-known a (is_known a name same keeps) ∙ written_back _ (rw same met)

  pub key_to_raw-from_raw :
      (k : Key) → key_from_raw glue profile raw ≡ some k → key_to_raw glue profile k ≡ some raw
  unfolding key_from_raw key_to_raw
  key_to_raw-from_raw k e = elim (Option-cases (match_arms glue raw keyboard_arms)) [
    | inl not_key ↦ elim (Option-cases (match_arms glue raw button_arms)) [
      | inl not_button ↦ cc
      | inr (b, found) ↦
          let same : button b ≡ k = cc in
          rw (← same) (
            written_back _
              (match_arms-constant glue button_constant raw button_arms button_arms-Agree found))
    ]
    | inr (b, found) ↦
        let same : keyboard b ≡ k = cc in
        rw (← same) (
          written_back _ (
            match_arms-constant glue keyboard_constant raw keyboard_arms keyboard_arms-Agree found))
  ]

pub tool_to_raw-from_raw :
    (glue : String → ℕ) (profile : Bool) (v : ℤ)
    → InI32 v
    → (t : ToolType) → tool_from_raw glue profile v ≡ some t
    → tool_to_raw glue profile t ≡ some v
unfolding tool_from_raw tool_to_raw
tool_to_raw-from_raw glue profile v h t e = ap some (
    rw (match_arms-constant glue tool_constant (as_u32 v) tool_arms tool_arms-Agree e)
      (as_i32-as_u32 v h))

-- No arm has the name.
avoids : {A : Type 0} → String → List (String × A) → Bool
avoids name [] = true
avoids name ((other, a) ∷ arms) = not (holds (str_dec other name)) && avoids name arms

match_arms-avoids :
    {A : Type 0} (constant : A → String) (a : A) (glue : String → ℕ) (raw : ℕ)
    (arms : List (String × A))
    → Agree constant arms
    → avoids (constant a) arms ≡ true
    → match_arms glue raw arms ≢ some a
unfolding match_arms Agree avoids
match_arms-avoids constant a glue raw [] agrees h e = cc
match_arms-avoids constant a glue raw ((name, b) ∷ arms) agrees h e =
    elim (Bool-cases (raw == glue name)) [
      | inl same ↦
          let met : some b ≡ some a = rw same at e in
          let found : b ≡ a = cc in ground (arith, agrees.0, ap constant found)
      | inr other ↦
          match_arms-avoids constant a glue raw arms agrees.1 (&&-right _ _ h) (rw other at e)
    ]

display_toggle_avoided :
    (glue : String → ℕ) (code : ℕ)
    → match_arms glue code keyboard_arms ≢ some Keyboard.display_toggle
unfolding avoids str_dec keyboard_constant keyboard_arms
display_toggle_avoided glue code =
    match_arms-avoids keyboard_constant Keyboard.display_toggle glue code keyboard_arms
      keyboard_arms-Agree refl

-- Whatever the codes of the kernel's headers are, no code is read as the key `DisplayToggle`.
pub key_from_raw-display_toggle :
    (glue : String → ℕ) (profile : Bool) (code : ℕ)
    → key_from_raw glue profile code ≢ some (keyboard Keyboard.display_toggle)
unfolding key_from_raw
key_from_raw-display_toggle glue profile code e =
    elim (Option-cases (match_arms glue code keyboard_arms)) [
      | inl not_key ↦ elim (Option-cases (match_arms glue code button_arms)) [
        | inl not_button ↦ cc
        | inr (b, found) ↦ let other : button b ≡ keyboard Keyboard.display_toggle = cc in cc
      ]
      | inr (k, found) ↦
          let same : k ≡ Keyboard.display_toggle = cc in
          display_toggle_avoided glue code (rw same at found)
    ]
