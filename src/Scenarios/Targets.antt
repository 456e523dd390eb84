-- ===== src/Scenarios/Targets.antt =====
-- Runs of the router.
use nexus_kvm.Base.{
  ◌+◌, ◌%◌, ◌≡◌, refl, ◌≢◌, inl, true, false, none, some, List, [], ◌∷◌, length, get_elem?, leb,
  if◌then◌else◌, arith, str_dec,
}
use nexus_kvm.Base.Dict.{lookup}
use nexus_kvm.Base.Float.{f32_zero}
use nexus_kvm.Base.Int.{ℤ, pos, negsuc}
use nexus_kvm.Router.{
  Router, key, local_target, remove_peer, is_connected, peer_return_allowed, event_target, snapshot,
  new,
}
use nexus_kvm.Router.Switch.{switch_local_from_peer, apply_switch}
use nexus_kvm.Router.Keys.{note_key}
use nexus_kvm.Router.Commands.{Command, prepares, activates, locals_from_peer, nexts, releases}
use nexus_kvm.Router.Travel.{away_from, note_motions, enter, switch_local_from_peer-travel}
use nexus_kvm.Router.Cycle.{IsListed, presses, round_of, presses-cycle}
use nexus_kvm.Router.Failsafe.{IsLost, remove_peer-IsLost}
use nexus_kvm.Router.Edges.{aborted, aborted-return_refused}
use nexus_kvm.Router.HeldKeys
use nexus_kvm.Router.HeldKeys.{
  note_key-destination, IsReleased, release_all-IsReleased, between_all,
}
use nexus_kvm.Router.Invariant.{Inv}
use nexus_kvm.Router.Published.{IsRegistered, IsHonest}
use nexus_kvm.Router.Events
use nexus_kvm.Router.Events.{handle_all, handle_all-new, never_in_progress}
use nexus_kvm.Scenarios.{two_peers, at_desk}

-- 40 pixels to the right, 10 back, 30 to the right.
abbrev wander : List (ℤ × ℤ)
wander = (pos 40, pos 3) ∷ (negsuc 9, pos 0) ∷ (pos 30, pos 0) ∷ []

apart : "desk" ≢ local_target
apart = λ e. cc

switch_local_from_peer-travel_example :
    (switch_local_from_peer (note_motions (enter two_peers "desk" (0, f32_zero)) wander)).0.active
    ≡ (if leb 60 (away_from 0 wander) then local_target else "desk")
unfolding is_connected lookup str_dec
switch_local_from_peer-travel_example =
    switch_local_from_peer-travel two_peers "desk" (0, f32_zero) wander refl refl apart

two_peers-IsListed : IsListed two_peers
two_peers-IsListed = (((λ e. cc), ((λ e. cc), tt)), (((λ e. cc), tt), (tt, tt)))

presses-cycle_example :
    get_elem? (round_of two_peers) ((0 + 4) % length (round_of two_peers))
    ≡ some (presses 4 two_peers).active
unfolding is_connected lookup str_dec
presses-cycle_example = presses-cycle 4 two_peers 0 refl two_peers-IsListed refl

remove_peer-IsLost_example : IsLost at_desk "desk" (remove_peer at_desk "desk")
remove_peer-IsLost_example = remove_peer-IsLost at_desk "desk"

-- The router after `prepare`.
abbrev prepared_desk : Router
prepared_desk = record two_peers { pending_warp = some (0, f32_zero); return_edge = some 1 }

aborted-return_refused_example :
    peer_return_allowed (apply_switch (aborted two_peers "desk" (0, f32_zero)) "tv" true).0 ≡ false
unfolding is_connected lookup str_dec
aborted-return_refused_example =
    aborted-return_refused two_peers "desk" "tv" (0, f32_zero) refl refl refl refl

-- Another key, a switch by the shortcut, and a crossing, while the key 57 is down.
abbrev meanwhile : List HeldKeys.Between
meanwhile = HeldKeys.key_event (key 31) true ∷ HeldKeys.shortcut ∷ HeldKeys.switches "tv" false ∷ []

note_key-destination_example :
    let (r', dest) =
      note_key (between_all meanwhile (note_key at_desk (key 57) true).0) (key 57) false in
    (dest ≡ some (event_target at_desk)) × ((note_key r' (key 57) false).1 ≡ none)
note_key-destination_example =
    note_key-destination at_desk (key 57) meanwhile ((λ e. cc), (tt, (tt, tt)))

abbrev commands : List Command
commands = prepares "desk" none ∷ activates "desk" ∷ locals_from_peer ∷ nexts ∷ releases none ∷ []

two_peers-Inv : Inv two_peers
two_peers-Inv = record {
  reachable = inl refl;
  idle = refl;
  edge = tt;
  warp_edge = tt;
  counter = omega arith;
}

two_peers-IsRegistered : IsRegistered two_peers
unfolding is_connected lookup str_dec
two_peers-IsRegistered = λ id up. ground arith

abbrev calls : List Events.Event
calls =
    Events.registers "desk" "10.0.0.2:4040"
    ∷ Events.command (activates "desk")
    ∷ Events.moves (pos 5) (pos 0)
    ∷ Events.disconnects "desk"
    ∷ []

handle_all-new_example :
    let r = handle_all new calls in Inv r × IsRegistered r × IsHonest (snapshot r)
handle_all-new_example = handle_all-new calls
