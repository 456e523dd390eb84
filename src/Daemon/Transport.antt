-- ===== src/Daemon/Transport.antt =====
-- crates/nexus-daemon/src/transport.rs: the trait `InputTransport`. A call that may change the
-- transport takes its state and returns the new one.
use nexus_kvm.Base.{ℕ, Option, List, Result}
use nexus_kvm.Router.{TargetError}
use nexus_kvm.Common.Model.{PeerId, Peer, EntryPoint}

-- The errors of the daemon: those of the transport, and the texts of `bail!`.
pub data DaemonError : Type 0 where
  transport_error : TargetError → DaemonError
  no_peer_for_edge : DaemonError
  no_peer_to_switch : DaemonError
  unavailable : PeerId → DaemonError
  in_progress : DaemonError

abbrev pub Answer : Type 0
Answer = Result (Unit {0}) DaemonError

pub record InputTransport : Type 1 where
  pub World : Type 0
  pub peers : World → Result (List Peer) DaemonError
  pub active_target : World → PeerId
  pub latencies : World → List (PeerId × ℕ)
  pub prepare : World → PeerId → EntryPoint → World × Answer
  pub activate : World → PeerId → World × Answer
  pub next : World → World × Answer
  pub activate_local : World → World × Answer
  pub local_from_peer : World → World × Answer
  pub release_all : World → Option PeerId → World × Answer
