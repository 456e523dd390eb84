-- ===== src/Net/Handshake.antt =====
-- The version and the password, before any update: rkvm-master/rkvm-net/src/auth.rs and version.rs,
-- and the first parts of `run` in rkvm-master/rkvm-client/src/client.rs and of `client` in
-- rkvm-master/rkvm-server/src/server.rs. What the reads and writes of a side return, time-outs
-- included, is an argument; a write that fails delivers nothing.
pub mod Agree
use nexus_kvm.Base.{
  ℕ, Bool, true, false, not, List, [], ◌∷◌, ◌++◌, ◌==◌, if◌then◌else◌, Result, ok, err,
}
use nexus_kvm.Common.Auth.{Bytes, Crypto}
use nexus_kvm.Net.{IoError}

-- `Version::CURRENT`
abbrev pub current : ℕ
current = 6

pub data AuthStatus : Type 0 where
  passed rejected : AuthStatus

module _ (x : Crypto) where
  -- `AuthChallenge::respond`
  unfoldable pub respond : Bytes → Bytes → Bytes
  respond challenge password = x.hmac password challenge

  -- `AuthResponse::verify`: `verify_slice` compares in constant time.
  unfoldable pub verify : Bytes → Bytes → Bytes → Bool
  verify response challenge password = x.ct_eq (x.hmac password challenge) response

pub data Greeting : Type 0 where
  version_sent : ℕ → Greeting
  challenge_sent : Bytes → Greeting
  response_sent : Bytes → Greeting
  status_sent : AuthStatus → Greeting

-- The errors of both sides. `version_error server client` has the fields of `Error::Version`.
pub data GreetError : Type 0 where
  network : IoError → GreetError
  version_error : ℕ → ℕ → GreetError
  auth_error : GreetError

-- What a side has sent, and how it ends.
pub record Session {ℓ} (A : Type ℓ) : Type ℓ where
  pub sent : List Greeting
  pub result : Result A GreetError

abbrev pub outcome {ℓ} : {A : Type ℓ} → Result A GreetError → Session A
outcome r = record { sent = []; result = r }

abbrev pub then_run {ℓ κ} :
    {A : Type ℓ} {B : Type κ} → List Greeting → Result A GreetError → (A → Session B) → Session B
then_run sent (err problem) rest = record { sent = sent; result = err problem }
then_run sent (ok a) rest =
    let next = rest a in record { sent = sent ++ next.sent; result = next.result }

infixl 5 ◌>>=◌
abbrev pub ◌>>=◌ {ℓ κ} : {A : Type ℓ} {B : Type κ} → Session A → (A → Session B) → Session B
first >>= rest = then_run first.sent first.result rest

-- A read, and a write with its flush, under their time-outs.
abbrev pub receive {ℓ} : {A : Type ℓ} → Result A IoError → Session A
receive (ok a) = outcome (ok a)
receive (err problem) = outcome (err (network problem))

abbrev pub send : Greeting → Result (Unit {0}) IoError → Session (Unit {0})
send greeting (ok done) = record { sent = greeting ∷ []; result = ok tt }
send greeting (err problem) = outcome (err (network problem))

pub record ClientIo : Type 0 where
  pub write_version : Result (Unit {0}) IoError
  pub read_version : Result ℕ IoError
  pub read_challenge : Result Bytes IoError
  pub write_response : Result (Unit {0}) IoError
  pub read_status : Result AuthStatus IoError

pub record ServerIo : Type 0 where
  pub write_version : Result (Unit {0}) IoError
  pub read_version : Result ℕ IoError
  pub write_challenge : Result (Unit {0}) IoError
  pub read_response : Result Bytes IoError
  pub write_status : Result (Unit {0}) IoError

unfoldable pub client_status : AuthStatus → Session (Unit {0})
client_status passed = outcome (ok tt)
client_status rejected = outcome (err auth_error)

-- The error of the client has the two versions exchanged.
unfoldable pub client_version : ℕ → Session (Unit {0})
client_version version =
    if not (version == current)
    then outcome (err (version_error current version))
    else outcome (ok tt)

unfoldable pub server_version : ℕ → Session (Unit {0})
server_version version =
    if not (version == current)
    then outcome (err (version_error current version))
    else outcome (ok tt)

unfoldable pub server_status : AuthStatus → Session (Unit {0})
server_status passed = outcome (ok tt)
server_status rejected = outcome (err auth_error)

module _ (x : Crypto) where
  unfoldable pub greet_server : Bytes → ClientIo → Session (Unit {0})
  unfolding respond client_version client_status
  greet_server password io = do
    _ ← send (version_sent current) io.write_version
    version ← receive io.read_version
    _ ← client_version version
    challenge ← receive io.read_challenge
    _ ← send (response_sent (respond x challenge password)) io.write_response
    status ← receive io.read_status
    client_status status

  unfoldable pub judge : Bytes → Bytes → Bytes → AuthStatus
  unfolding verify
  judge response challenge password =
      if verify x response challenge password then passed else rejected

  -- The challenge is random: it is an argument.
  unfoldable pub greet_client : Bytes → Bytes → ServerIo → Session (Unit {0})
  unfolding server_version judge server_status
  greet_client challenge password io = do
    _ ← send (version_sent current) io.write_version
    version ← receive io.read_version
    _ ← server_version version
    _ ← send (challenge_sent challenge) io.write_challenge
    response ← receive io.read_response
    _ ← send (status_sent (judge response challenge password)) io.write_status
    server_status (judge response challenge password)
