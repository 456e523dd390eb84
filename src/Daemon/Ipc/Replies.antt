-- ===== src/Daemon/Ipc/Replies.antt =====
-- What the sessions of crates/nexus-daemon/src/ipc_server.rs do to the daemon and answer.
use nexus_kvm.Base.{
  ℕ, ◌<◌, ◌≡◌, refl, false, Option, none, some, ok, length, Result-cases, inl, inr,
}
use nexus_kvm.Common.Auth.{Bytes, Crypto, token_eq}
use nexus_kvm.Common.Model.{AppStatus}
use nexus_kvm.Daemon.Transport.{InputTransport}
use nexus_kvm.Daemon.Controller.{Controller}
use nexus_kvm.Daemon.Controller.Truth.{Daemon, Agrees, IsTrue}
use nexus_kvm.Daemon.Ipc.{
  ControlRequest, ControlResponse, Json, Moment, answer, handle, error_response,
}
use nexus_kvm.Daemon.Ipc.Sessions.{Lines, Lines-map, Ends, handle-Ends}

-- A status that is reported agrees with the target that it names.
abbrev pub AgreesInside : Option AppStatus → Type 0
AgreesInside none = Unit
AgreesInside (some s) = Agrees s.state s.active_target

abbrev Honest : Daemon × ControlResponse → Type 0
Honest (c, reply) = IsTrue c × AgreesInside reply.status

module _ (x : Crypto) (json : Json) (expected : Bytes) where
  module _ (t : InputTransport) (before : Controller t.World) where
    -- The line is no request with the token.
    abbrev pub LacksToken : Bytes → Type 0
    LacksToken line =
        (req : ControlRequest) → json.from_str line ≡ ok req → token_eq x expected req.token ≡ false

    refused :
        (line : Bytes)
        → LacksToken line
        → (m : Moment) (c : Controller t.World) → c ≡ before
        → let (c', reply) = answer t x json expected m (json.from_str line) c in
          (c' ≡ before) × (reply.succeeded ≡ false)
    unfolding answer error_response
    refused line no_token m c same = elim (Result-cases (json.from_str line)) [
      | inl (req, e) ↦ rw (e, no_token req e) (same, refl)
      | inr (problem, e) ↦ rw e (same, refl)
    ]

    -- A session of which no line carries the token changes nothing of the daemon, over any transport,
    -- and none of its replies says that it succeeded.
    pub handle_refused :
        (fuel n : ℕ) (moments : ℕ → Moment) (input : Bytes)
        → Lines LacksToken fuel input
        → length input < fuel
        → Ends t x json expected
            (λ c. c ≡ before)
            (λ reply. reply.succeeded ≡ false)
            (handle t x json expected fuel n moments input before)
    handle_refused fuel n moments input no_token h =
        handle-Ends t x json expected (λ c. c ≡ before) (λ reply. reply.succeeded ≡ false) fuel n
          moments input before (Lines-map LacksToken _ refused fuel input no_token) h refl
