-- ===== src/Input/Registry.antt =====
-- rkvm-master/rkvm-input/src/registry.rs, and of interceptor.rs and monitor.rs what opens a device: the
-- registry holds the files of the devices that are intercepted and of the virtual devices that are
-- written, so that none of them is intercepted again. A `Handle` that goes out of scope removes its
-- entry. What the kernel says of a node is an argument.
pub mod Scans
use mathlib.Core.List.{append_assoc}
use nexus_kvm.Base.{
  ℕ, zero, suc, ◌+◌, ◌≡◌, ◌≢◌, refl, sym, subst, ap, ◌∙◌, All, NoRepeat, ◌||◌, String, Bool, true,
  false, Option, none, some, List, [], ◌∷◌, ◌++◌, ◌&&◌, not, if◌then◌else◌, keep_if, any_of, arith,
  Bool-cases, inl, inr, holds, Result, ok, err, ℕ_discrete,
}

-- `Entry`
pub record Entry : Type 0 where
  pub device : ℕ
  pub inode : ℕ

unfoldable pub entry_dec : Discrete Entry
entry_dec = hlevel ℕ_discrete

abbrev pub Registry : Type 0
Registry = List Entry

unfoldable pub is_in : Entry → Registry → Bool
is_in e entries = any_of (λ x. holds (entry_dec x e)) entries

-- `register`: `None` if the entry is there already.
unfoldable pub register : Entry → Registry → Option Registry
unfolding is_in
register e entries = if is_in e entries then none else some (e ∷ entries)

-- `Handle::drop`
unfoldable pub release : Entry → Registry → Registry
release e entries = keep_if (λ x. not (holds (entry_dec x e))) entries

pub data OpenError : Type 0 where
  not_appliable : OpenError
  io : Bool → String → OpenError

pub data GrabEnd : Type 0 where
  grabbed held_by_other : GrabEnd
  grab_failed : String → GrabEnd

-- What opening a node meets. The error of a step stops there; `io true` is one of access.
pub record Node : Type 0 where
  pub opens : Result (Unit {0}) OpenError
  pub is_virtual : Bool
  pub file : Result Entry OpenError
  pub has_switches : Bool
  pub disabled : Result (Unit {0}) OpenError
  pub grab : GrabEnd
  pub writer : Result Entry OpenError

-- The two handles of an interceptor.
pub record Handles : Type 0 where
  pub reader : Entry
  pub writer : Entry

-- `open` behind the registration of the writer.
unfoldable pub with_both :
    Registry → Entry → Entry → Option Registry → Registry × Result Handles OpenError
unfolding release
with_both entries reader writer none =
    (release reader entries, err (io false "Writer already registered"))
with_both entries reader writer (some both) =
    (both, ok (record { reader = reader; writer = writer }))

-- `open` from the making of the writer on.
unfoldable pub with_writer :
    Registry → Entry → Result Entry OpenError → Registry × Result Handles OpenError
unfolding with_both register
with_writer entries reader (err e) = (release reader entries, err e)
with_writer entries reader (ok writer) = with_both entries reader writer (register writer entries)

unfoldable pub with_grab :
    Registry → Entry → GrabEnd → Result Entry OpenError → Registry × Result Handles OpenError
unfolding with_writer
with_grab entries reader grabbed writer = with_writer entries reader writer
with_grab entries reader held_by_other writer = (release reader entries, err not_appliable)
with_grab entries reader (grab_failed e) writer = (release reader entries, err (io false e))

-- `open` from the disabling of axes on.
unfoldable pub with_axes :
    Registry → Entry → Node → Result (Unit {0}) OpenError → Registry × Result Handles OpenError
unfolding with_grab
with_axes entries reader node (err e) = (release reader entries, err e)
with_axes entries reader node (ok done) = with_grab entries reader node.grab node.writer

-- `open` behind the registration of the reader.
unfoldable pub with_reader :
    Registry → Entry → Node → Option Registry → Registry × Result Handles OpenError
unfolding with_axes
with_reader entries reader node none = (entries, err not_appliable)
with_reader entries reader node (some with_it) =
    if node.has_switches
    then (release reader with_it, err not_appliable)
    else with_axes with_it reader node node.disabled

-- `open` from the file's entry on.
unfoldable pub with_file :
    Registry → Node → Result Entry OpenError → Registry × Result Handles OpenError
unfolding with_reader register
with_file entries node (err e) = (entries, err e)
with_file entries node (ok reader) = with_reader entries reader node (register reader entries)

-- `open` from the bus type on.
unfoldable pub with_device :
    Registry → Node → Result (Unit {0}) OpenError → Registry × Result Handles OpenError
unfolding with_file
with_device entries node (err e) = (entries, err e)
with_device entries node (ok done) =
    if node.is_virtual then (entries, err not_appliable) else with_file entries node node.file

-- `Interceptor::open`
unfoldable pub open_node : Registry → Node → Registry × Result Handles OpenError
unfolding with_device
open_node entries node = with_device entries node node.opens

-- `try_open`: a device without permission is tried again, 8 times in all. `node` is what each attempt
-- meets. `after_attempt` is the rest of `try_open` behind an attempt, with the attempts that follow.
unfoldable pub after_attempt :
    (Registry → Registry × Result (Option Handles) OpenError)
    → Registry × Result Handles OpenError
    → Registry × Result (Option Handles) OpenError
after_attempt again (entries, ok h) = (entries, ok (some h))
after_attempt again (entries, err not_appliable) = (entries, ok none)
after_attempt again (entries, err (io false e)) = (entries, err (io false e))
after_attempt again (entries, err (io true e)) = again entries

unfoldable pub attempts :
    ℕ → ℕ → (ℕ → Node) → Registry → Registry × Result (Option Handles) OpenError
unfolding open_node after_attempt
attempts zero attempt node entries = (entries, ok none)
attempts (suc left) attempt node entries =
    after_attempt (attempts left (attempt + 1) node) (open_node entries (node attempt))

unfoldable pub try_open : (ℕ → Node) → Registry → Registry × Result (Option Handles) OpenError
unfolding attempts
try_open node entries = attempts 8 0 node entries

-- What `next_entry` gives: a node of an event device, with whether the monitor still takes its
-- interceptor; another entry; or an error.
pub data Found : Type 0 where
  event_node : (ℕ → Node) → Bool → Found
  other_entry entry_error : Found

-- An interceptor that nobody takes is dropped, with its two handles.
unfoldable pub dropped : Handles → Registry → Registry
unfolding release
dropped h entries = release h.reader (release h.writer entries)

-- What follows a node: a node that fails is skipped, and a scan ends where nobody takes an interceptor.
unfoldable pub after_node :
    Bool
    → Registry × Result (Option Handles) OpenError
    → Registry × List Handles
    → Registry × List Handles
unfolding dropped
after_node true (entries, ok (some h)) later = (later.0, h ∷ later.1)
after_node false (entries, ok (some h)) later = (dropped h entries, [])
after_node takes (entries, ok none) later = later
after_node takes (entries, err e) later = later

-- `scan_dir`: the interceptors that are sent for the entries of a directory.
unfoldable pub scan : List Found → Registry → Registry × List Handles
unfolding try_open after_node
scan [] entries = (entries, [])
scan (entry_error ∷ found) entries = (entries, [])
scan (other_entry ∷ found) entries = scan found entries
scan (event_node node takes ∷ found) entries =
    let o = try_open node entries in let later = scan found o.0 in after_node takes o later
