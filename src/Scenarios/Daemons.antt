-- ===== src/Scenarios/Daemons.antt =====
-- Runs of the daemon's controller, over the router.
use nexus_kvm.Base.{refl, inl, inr, false, none, some, [], ◌∷◌, arith, str_dec}
use nexus_kvm.Base.Dict.{lookup}
use nexus_kvm.Router.{local_target, is_connected}
use nexus_kvm.Router.Published.{IsRegistered}
use nexus_kvm.Common.Model.{local, remote}
use nexus_kvm.Daemon.Controller.{in_transition}
use nexus_kvm.Daemon.Controller.Truth.{Daemon, IsReady}
use nexus_kvm.Daemon.Adapter.{Host}
use nexus_kvm.Scenarios.{two_peers, at_desk}

-- Input goes to this machine.
abbrev pub resting : Daemon
resting = record {
  transport = record { router = two_peers; rtt = ("desk", 3) ∷ [] };
  state = local;
  active_target = local_target;
  peers = [];
  last_heartbeat = none;
  portal_available = false;
  last_transition_at = none;
}

-- The peer "desk" got control at 1000 ms.
abbrev visiting : Daemon
visiting = record resting {
  transport = record { router = at_desk; rtt = [] };
  state = remote "desk" 7;
  active_target = "desk";
  last_transition_at = some 1000;
}

pub resting-IsReady : IsReady resting
unfolding in_transition
resting-IsReady = record {
  sound = record {
    reachable = inl refl;
    idle = refl;
    edge = tt;
    warp_edge = tt;
    counter = omega arith;
  };
  settled = refl;
}

visiting-IsReady : IsReady visiting
unfolding is_connected lookup str_dec in_transition
visiting-IsReady = record {
  sound = record {
    reachable = inr refl;
    idle = refl;
    edge = omega arith;
    warp_edge = tt;
    counter = omega arith;
  };
  settled = refl;
}

at_desk-IsRegistered : IsRegistered at_desk
unfolding is_connected lookup str_dec
at_desk-IsRegistered = λ id up. ground arith

abbrev behind : Host
behind = record { router = two_peers; rtt = ("desk", 3) ∷ [] }
