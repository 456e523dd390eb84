-- ===== src/Agent/Clipboard/Retries.antt =====
-- The watcher of crates/nexus-agent/src/clipboard.rs after a clip that could not be sent.
use native.Mathlib.Nat.{one-le-pow}
use nexus_kvm.Base.{
  ℕ, ◌+◌, ◌-◌, ◌≤◌, ◌<◌, ◌≡◌, refl, Bool, true, false, Option, none, some, arith, holds,
}
use nexus_kvm.Common.Auth.{Bytes}
use nexus_kvm.Common.Auth.Replay.{bytes_dec}
use nexus_kvm.Agent.Clipboard.{
  SendGate, Watch, backoff, held_back, poll, fails_of, finish, retry_base, retry_max,
}

-- A failed clip waits for two seconds at least and for a minute at most.
backoff_bounds : (fails : ℕ) → (retry_base ≤ backoff fails) × (backoff fails ≤ retry_max)
unfolding backoff
backoff_bounds fails = omega (arith, one-le-pow (fails - 1) 2 (omega arith))

poll_held :
    (now : ℕ) (has_peer can_send : Bool) (fp : Bytes) (w : Watch)
    → held_back now fp w.gate ≡ true
    → poll now has_peer fp can_send w ≡ (w, none)
unfolding poll
poll_held now has_peer can_send fp w h = ground arith

same_bytes : (b : Bytes) → holds (bytes_dec b b) ≡ true
same_bytes b = ground arith

held_back-backoff :
    (now later fails : ℕ) (fp : Bytes)
    → later < now + retry_base
    → let gate : Option SendGate =
        some (record { fp = fp; fails = fails; next_try = now + backoff fails }) in
      (held_back later fp gate ≡ true) × (held_back (now + retry_max) fp gate ≡ false)
unfolding held_back
held_back-backoff now later fails fp soon =
    let bounds = backoff_bounds fails in
    rw (same_bytes fp) (ground (arith, bounds), ground (arith, bounds))

-- A clip that could not be sent is not sent again within two seconds: a poll then changes nothing.
-- After a minute it is held back no more. The clip that was noted as sent before it is noted again,
-- and the watcher is free to send another one at once.
pub finish-poll :
    (now later : ℕ) (fp prev : Bytes) (has_peer can_send : Bool) (w : Watch)
    → w.last_fp ≡ fp
    → later < now + retry_base
    → let w' = finish now fp prev false w in
      (poll later has_peer fp can_send w' ≡ (w', none))
      × (held_back (now + retry_max) fp w'.gate ≡ false)
      × (w'.last_fp ≡ prev)
      × (w'.sending ≡ false)
unfolding finish
finish-poll now later fp prev has_peer can_send w same soon =
    let (held, free) = held_back-backoff now later (fails_of fp w.gate) fp soon in
    (
      poll_held later has_peer can_send fp (finish now fp prev false w) held,
      free,
      ground arith,
      refl,
    )
