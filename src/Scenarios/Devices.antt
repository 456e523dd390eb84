-- ===== src/Scenarios/Devices.antt =====
-- Runs of the interceptor and of the opening of devices.
use mathlib.Core.List.{Perm}
use mathlib.Core.List.Perm
use nexus_kvm.Base.{
  ℕ, ◌+◌, ◌≡◌, ◌≢◌, refl, String, true, false, some, [], ◌∷◌, ◌++◌, ok, arith, All, List,
  if◌then◌else◌, holds, str_dec, NoRepeat,
}
use nexus_kvm.Base.Int.{pos}
use nexus_kvm.Input.Keyboard.{Keyboard}
use nexus_kvm.Input.Keyboard.Arms.{keyboard_arms}
use nexus_kvm.Input.Codes.{key, keyboard, match_arms, key_from_raw, rel_from_raw}
use nexus_kvm.Input.Faithful.{key_from_raw-display_toggle}
use nexus_kvm.Input.Interceptor.{
  Raw, done, cancelled, arrival, read_error, fate, is_switch, is_one, queue_some,
}
use nexus_kvm.Input.Interceptor.Written.{IsWritten, fate-IsWritten}
use nexus_kvm.Input.Interceptor.Packets.{Call}
use nexus_kvm.Input.Caps.{
  Sets, rel_caps, abs_caps, key_caps, Device, clone_of, known_codes, abs_item, clone_of-codes,
}
use nexus_kvm.Input.Registry.{Found, event_node, Node, grabbed, held_by_other, scan}
use nexus_kvm.Input.Registry.Scans.{files, GoesOn, and_then, scan-files}

-- Some of the constants of Linux.
abbrev kernel : String → ℕ
kernel name =
    if holds (str_dec name "EV_SYN")
    then 0
    else if holds (str_dec name "EV_KEY")
    then 1
    else if holds (str_dec name "EV_REL")
    then 2
    else if holds (str_dec name "EV_ABS")
    then 3
    else if holds (str_dec name "SYN_REPORT")
    then 0
    else if holds (str_dec name "SYN_DROPPED")
    then 3
    else if holds (str_dec name "SYN_MT_REPORT")
    then 2
    else if holds (str_dec name "KEY_A")
    then 30
    else if holds (str_dec name "KEY_MAX")
    then 767
    else 60000

abbrev press : Raw
press = record { kind = 1; code = 30; value = pos 1 }

-- A scan code, which is passed on.
abbrev scan_code : Raw
scan_code = record { kind = 4; code = 4; value = pos 458756 }

abbrev report : Raw
report = record { kind = 0; code = 0; value = pos 0 }

abbrev overflow : Raw
overflow = record { kind = 0; code = 3; value = pos 0 }

fate-IsWritten_example :
    IsWritten kernel true press (key (record { key = keyboard Keyboard.a; down = true }))
unfolding fate is_switch is_one queue_some key_from_raw match_arms keyboard_arms str_dec
fate-IsWritten_example =
    fate-IsWritten kernel true press (omega arith, omega arith, omega arith) false
      (key (record { key = keyboard Keyboard.a; down = true })) refl

-- The first call is dropped at a write, the second one makes up for it.
abbrev two_calls : List Call
two_calls =
    record { resumes = done; more = arrival press done ∷ arrival scan_code cancelled ∷ [] }
    ∷ record { resumes = done; more = arrival report done ∷ read_error ∷ [] }
    ∷ []

abbrev lossy_calls : List Call
lossy_calls =
    record {
      resumes = done;
      more =
          arrival overflow done
          ∷ arrival press done
          ∷ arrival scan_code done
          ∷ arrival report done
          ∷ [];
    }
    ∷ []

key_from_raw-display_toggle_example :
    key_from_raw kernel true 30 ≢ some (keyboard Keyboard.display_toggle)
key_from_raw-display_toggle_example = key_from_raw-display_toggle kernel true 30

abbrev small_keyboard : Device
small_keyboard = record {
  has_type = λ name. holds (str_dec name "EV_KEY");
  has_code = λ name code. true;
  abs_info =
      λ code. record { min = pos 0; max = pos 0; fuzz = pos 0; flat = pos 0; resolution = pos 0 };
}

-- The sets of the keyboard's capabilities, as they come.
abbrev keyboard_sets : Sets kernel true
keyboard_sets = record {
  rel = rel_caps kernel true small_keyboard;
  abs = abs_caps kernel true small_keyboard;
  keys = key_caps kernel true small_keyboard;
}

clone_of-codes_example :
    let (rel, abs, keys) = clone_of kernel true keyboard_sets in
    Perm (known_codes kernel true small_keyboard "EV_REL" "REL_MAX" (rel_from_raw kernel true)) rel
    × Perm
        (known_codes kernel true small_keyboard "EV_ABS" "ABS_MAX"
          (abs_item kernel true small_keyboard))
        abs
    × Perm
        (known_codes kernel true small_keyboard "EV_KEY" "KEY_MAX" (key_from_raw kernel true))
        keys
clone_of-codes_example =
    clone_of-codes kernel true small_keyboard keyboard_sets
      (record { rel = Perm.refl _; abs = Perm.refl _; keys = Perm.refl _ })

abbrev node : ℕ → ℕ → Node
node n attempt = record {
  opens = ok tt;
  is_virtual = false;
  file = ok (record { device = 13; inode = n });
  has_switches = false;
  disabled = ok tt;
  grab = grabbed;
  writer = ok (record { device = 13; inode = n + 100 });
}

-- A node that another program holds, and one node twice.
abbrev held : List Found
held = event_node (λ attempt. record (node 2 attempt) { grab = held_by_other }) true ∷ []

abbrev twice : List Found
twice = event_node (node 1) true ∷ event_node (node 1) true ∷ []

scan-files_example :
    let r = scan (held ++ twice) [] in
    (r.0 ≡ files r.1 ++ []) × NoRepeat r.0 × (All GoesOn held → r ≡ and_then (scan held []) twice)
scan-files_example = scan-files held twice [] tt
