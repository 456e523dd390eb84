-- ===== src/Scenarios.antt =====
-- Concrete runs of the modelled code.
pub mod Targets
pub mod Servers
pub mod Daemons
pub mod Shared
pub mod Links
pub mod Sockets
pub mod Clips
pub mod Devices
pub mod Services
pub mod Transfers
pub mod Inboxes
use nexus_kvm.Base.{String, Bool, true, false, none, some, [], ◌∷◌}
use nexus_kvm.Router.{Router, PeerEntry, Key, key, local_target}

-- Two peers are connected, a key is held, and input goes to this machine.
abbrev pub two_peers : Router
two_peers = record {
  active = local_target;
  previous = local_target;
  chord_changed = false;
  busy = false;
  order = "desk" ∷ "tv" ∷ [];
  peers =
      ("desk", record { address = "10.0.0.2:4040"; connected = true })
      ∷ ("tv", record { address = "10.0.0.3:4040"; connected = true })
      ∷ [];
  held_keys = (key 30, local_target) ∷ [];
  next_transition = 4;
  pending_warp = none;
  return_edge = none;
  pending_local_warp = none;
  remote_inward_px = 0;
}

-- The peer "desk" was entered through its left edge.
abbrev pub at_desk : Router
at_desk = record two_peers {
  active = "desk";
  return_edge = some 1;
  held_keys = (key 30, "desk") ∷ (key 42, local_target) ∷ [];
}
