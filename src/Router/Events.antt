-- ===== src/Router/Events.antt =====
-- rkvm-master/rkvm-server/src/target.rs: every call on a router, in any order.
use nexus_kvm.Base.{String, ◌≡◌, ◌≢◌, Bool, true, false, List, [], ◌∷◌, ◌++◌, arith, err, str_dec}
use nexus_kvm.Base.Dict.{lookup, lookup-insert, lookup-remove, lookup-adjust}
use nexus_kvm.Base.Int.{ℤ}
use nexus_kvm.Router.{
  Router, Key, PeerEntry, transition_in_progress, new, snapshot, insert_peer, fail_local,
  remove_peer, mark_disconnected, take_local_warp, note_remote_motion, is_connected, contains,
  without, alloc_transition, drain_held,
}
use nexus_kvm.Router.Switch.{apply_switch, apply_local, switch_next, finish_chord}
use nexus_kvm.Router.Published.{
  IsRegistered, IsHonest, moved_registration, apply-IsRegistered, snapshot-IsHonest,
}
use nexus_kvm.Router.Keys.{note_key, restore_held}
use nexus_kvm.Router.Commands.{Command, apply}
use nexus_kvm.Router.Invariant.{
  Inv, new-Inv, insert_peer-Inv, remove_peer-Inv, mark_disconnected-Inv, take_local_warp-Inv,
  note_remote_motion-Inv, switch_next-Inv, apply-Inv,
}

-- Everything that the server does to its router.
pub data Event : Type 0 where
  command : Command → Event
  registers : String → String → Event
  removes : String → Event
  disconnects : String → Event
  key_event : Key → Bool → Event
  restores : Key → String → Event
  drains : Event
  shortcut : Event
  chord_ends : Event
  moves : ℤ → ℤ → Event
  local_warp_taken : Event

unfoldable pub handle : Event → Router → Router
handle (command c) r = (apply c r).router
handle (registers id address) r = insert_peer r id address
handle (removes id) r = (remove_peer r id).0
handle (disconnects id) r = (mark_disconnected r id).0
handle (key_event k down) r = (note_key r k down).0
handle (restores k dest) r = restore_held r k dest
handle drains r = (drain_held r).0
handle shortcut r = (switch_next r).0
handle chord_ends r = finish_chord r
handle (moves dx dy) r = note_remote_motion r dx dy
handle local_warp_taken r = (take_local_warp r).0

pub handle_all : Router → List Event → Router
handle_all r [] = r
handle_all r (e ∷ es) = handle_all (handle e r) es

handle-Inv : (e : Event) (r : Router) → Inv r → Inv (handle e r)
unfolding handle note_key restore_held finish_chord
handle-Inv (command c) r v = apply-Inv c r v
handle-Inv (registers id address) r v = insert_peer-Inv r id address v
handle-Inv (removes id) r v = remove_peer-Inv r id v
handle-Inv (disconnects id) r v = mark_disconnected-Inv r id v
handle-Inv (key_event k true) r v = ground arith
handle-Inv (key_event k false) r v = ground arith
handle-Inv (restores k dest) r v = ground arith
handle-Inv drains r v = ground arith
handle-Inv shortcut r v = switch_next-Inv r v
handle-Inv chord_ends r v = ground arith
handle-Inv (moves dx dy) r v = note_remote_motion-Inv r dx dy v
handle-Inv local_warp_taken r v = take_local_warp-Inv r v

contains-append :
    (x id : String) (order : List String)
    → contains x order ≡ true
    → contains x (order ++ id ∷ []) ≡ true
contains-append x id [] h = cc
contains-append x id (y ∷ order) h = ground (arith, contains-append x id order)

contains-snoc : (id : String) (order : List String) → contains id (order ++ id ∷ []) ≡ true
contains-snoc id [] = ground arith
contains-snoc id (y ∷ order) = ground (arith, contains-snoc id order)

contains-without :
    (x id : String) (order : List String)
    → x ≢ id
    → contains x order ≡ true
    → contains x (without id order) ≡ true
contains-without x id [] away h = cc
contains-without x id (y ∷ order) away h = ground (arith, contains-without x id order away)

insert_peer-IsRegistered :
    (r : Router) (id address : String) → IsRegistered r → IsRegistered (insert_peer r id address)
unfolding insert_peer is_connected
insert_peer-IsRegistered r id address reg = λ x up. ground (
  arith,
  reg x,
  lookup-insert str_dec x id (record { address = address; connected = true }) r.peers,
  contains-append x id r.order,
  contains-snoc id r.order,
)

remove_peer-IsRegistered :
    (r : Router) (id : String) → IsRegistered r → IsRegistered (remove_peer r id).0
unfolding remove_peer fail_local is_connected
remove_peer-IsRegistered r id reg =
    λ x up. ground (arith, reg x, lookup-remove str_dec x id r.peers, contains-without x id r.order)

mark_disconnected-IsRegistered :
    (r : Router) (id : String) → IsRegistered r → IsRegistered (mark_disconnected r id).0
unfolding mark_disconnected fail_local is_connected
mark_disconnected-IsRegistered r id reg = λ x up. ground (
  arith,
  reg x,
  lookup-adjust str_dec (λ (p : PeerEntry). record p { connected = false }) x id r.peers,
)

-- The other events leave the peers alone.
abbrev SamePeers : Router → Router → Type 0
SamePeers r s = (s.order ≡ r.order) × (s.peers ≡ r.peers)

shortcut-peers : (r : Router) → SamePeers r (switch_next r).0
unfolding switch_next apply_local apply_switch alloc_transition
shortcut-peers r = ground arith

moves-peers : (r : Router) (dx dy : ℤ) → SamePeers r (note_remote_motion r dx dy)
unfolding note_remote_motion
moves-peers r dx dy = ground arith

handle-IsRegistered : (e : Event) (r : Router) → IsRegistered r → IsRegistered (handle e r)
unfolding handle note_key restore_held finish_chord take_local_warp
handle-IsRegistered (command c) r reg = apply-IsRegistered c r reg
handle-IsRegistered (registers id address) r reg = insert_peer-IsRegistered r id address reg
handle-IsRegistered (removes id) r reg = remove_peer-IsRegistered r id reg
handle-IsRegistered (disconnects id) r reg = mark_disconnected-IsRegistered r id reg
handle-IsRegistered (key_event k true) r reg = reg
handle-IsRegistered (key_event k false) r reg = reg
handle-IsRegistered (restores k dest) r reg = reg
handle-IsRegistered drains r reg = reg
handle-IsRegistered shortcut r reg = moved_registration r (switch_next r).0 (shortcut-peers r) reg
handle-IsRegistered chord_ends r reg = reg
handle-IsRegistered (moves dx dy) r reg =
    moved_registration r (note_remote_motion r dx dy) (moves-peers r dx dy) reg
handle-IsRegistered local_warp_taken r reg = reg

new-IsRegistered : IsRegistered new
unfolding new is_connected lookup
new-IsRegistered = λ id up. cc

-- What the owner of a router keeps.
abbrev pub IsSound : Router → Type 0
IsSound r = Inv r × IsRegistered r

pub handle-IsSound : (e : Event) (r : Router) → IsSound r → IsSound (handle e r)
handle-IsSound e r (v, reg) = (handle-Inv e r v, handle-IsRegistered e r reg)

pub new-IsSound : IsSound new
new-IsSound = (new-Inv, new-IsRegistered)

handle_all-IsSound :
    (r : Router) (es : List Event)
    → Inv r
    → IsRegistered r
    → Inv (handle_all r es) × IsRegistered (handle_all r es)
unfolding handle_all
handle_all-IsSound r [] v reg = (v, reg)
handle_all-IsSound r (e ∷ es) v reg =
    handle_all-IsSound (handle e r) es (handle-Inv e r v) (handle-IsRegistered e r reg)

-- A router that is reached from `new` by any calls in any order: its target is this machine or a
-- connected peer, no transition is half done, its edges are edges and its counter fits in 64 bits,
-- every connected peer takes part in the shortcut, and its snapshot is honest.
pub handle_all-new :
    (es : List Event) → let r = handle_all new es in Inv r × IsRegistered r × IsHonest (snapshot r)
handle_all-new es =
    let (v, reg) = handle_all-IsSound new es new-Inv new-IsRegistered in
    (v, reg, snapshot-IsHonest (handle_all new es) v reg)

-- So "transition in progress" is never the answer to a switch.
pub never_in_progress :
    (es : List Event) (id : String) (chord : Bool)
    → (apply_switch (handle_all new es) id chord).1 ≢ err transition_in_progress
unfolding apply_switch
never_in_progress es id chord = λ e. ground (arith, (handle_all-new es).0)
