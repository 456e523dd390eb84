-- ===== src/Input/Codes.antt =====
-- rkvm-master/rkvm-input/src: `Convert` (convert.rs) for axes, tools, ends of packets and keys, and the
-- data of events. The constants of the kernel's headers (`glue`) are what the build finds there: an
-- argument, by their names. So is whether they have `ABS_PROFILE`.
use nexus_kvm.Base.{
  ℕ, ◌-◌, ◌%◌, String, Bool, Option, none, some, List, [], ◌∷◌, ◌==◌, if◌then◌else◌, ltb, not,
  keep_if, holds, str_dec, ◌||◌,
}
use nexus_kvm.Base.Int.{ℤ, pos, negsuc}
use nexus_kvm.Input.Axes.{
  RelAxis, rel_constant, rel_arms, AbsAxis, abs_constant, abs_arms, ToolType, tool_constant,
  tool_arms, SyncEvent, sync_constant, sync_arms,
}
use nexus_kvm.Input.Button.{Button, button_constant, button_arms}
use nexus_kvm.Input.Keyboard.{Keyboard, keyboard_constant}
use nexus_kvm.Input.Keyboard.Arms.{keyboard_arms}

pub data Key : Type 0 where
  keyboard : Keyboard → Key
  button : Button → Key

pub record KeyEvent : Type 0 where
  pub key : Key
  pub down : Bool

pub record RelEvent : Type 0 where
  pub axis : RelAxis
  pub value : ℤ

pub data AbsEvent : Type 0 where
  axis_event : AbsAxis → ℤ → AbsEvent
  mt_tool_type : ToolType → AbsEvent

pub data Event : Type 0 where
  rel : RelEvent → Event
  abs : AbsEvent → Event
  key : KeyEvent → Event
  sync : SyncEvent → Event

-- `raw as u16`
abbrev pub as_u16 : ℕ → ℕ
as_u16 n = n % 65536

-- `raw as u32` and `value as i32`
unfoldable pub as_u32 : ℤ → ℕ
as_u32 (pos n) = n
as_u32 (negsuc n) = 4294967295 - n

unfoldable pub as_i32 : ℕ → ℤ
as_i32 n = if ltb n 2147483648 then pos n else negsuc (4294967295 - n)

-- A `match` whose patterns are constants of the headers: the first arm that fits.
unfoldable pub match_arms {ℓ} : {A : Type ℓ} → (String → ℕ) → ℕ → List (String × A) → Option A
match_arms glue raw [] = none
match_arms glue raw ((name, a) ∷ arms) =
    let rest = match_arms glue raw arms in if raw == glue name then some a else rest

module _ (glue : String → ℕ) (profile : Bool) where
  unfoldable pub rel_from_raw : ℕ → Option RelAxis
  rel_from_raw raw = match_arms glue raw rel_arms

  unfoldable pub rel_to_raw : RelAxis → Option ℕ
  rel_to_raw a = some (as_u16 (glue (rel_constant a)))

  -- Without `have_abs_profile` there is no arm for `ABS_PROFILE`.
  unfoldable pub abs_from_raw : ℕ → Option AbsAxis
  abs_from_raw raw = match_arms glue raw (
      keep_if (λ (e : String × AbsAxis). profile || not (holds (str_dec e.0 "ABS_PROFILE")))
        abs_arms)

  unfoldable pub abs_to_raw : AbsAxis → Option ℕ
  abs_to_raw AbsAxis.profile =
      if profile then some (as_u16 (glue (abs_constant AbsAxis.profile))) else none
  abs_to_raw a = some (as_u16 (glue (abs_constant a)))

  unfoldable pub tool_from_raw : ℤ → Option ToolType
  unfolding as_u32
  tool_from_raw raw = match_arms glue (as_u32 raw) tool_arms

  unfoldable pub tool_to_raw : ToolType → Option ℤ
  unfolding as_i32
  tool_to_raw t = some (as_i32 (glue (tool_constant t)))

  unfoldable pub sync_from_raw : ℕ → Option SyncEvent
  sync_from_raw raw = match_arms glue raw sync_arms

  unfoldable pub sync_to_raw : SyncEvent → Option ℕ
  sync_to_raw s = some (as_u16 (glue (sync_constant s)))

  unfoldable pub key_from_raw : ℕ → Option Key
  key_from_raw code = elim (match_arms glue code keyboard_arms) [
    | some k ↦ some (keyboard k)
    | none ↦ elim (match_arms glue code button_arms) [ some b ↦ some (button b) | none ↦ none ]
  ]

  unfoldable pub key_to_raw : Key → Option ℕ
  key_to_raw (keyboard pressed) = some (as_u16 (glue (keyboard_constant pressed)))
  key_to_raw (button b) = some (as_u16 (glue (button_constant b)))
