-- ===== src/Desktop/Supervisor/Stops.antt =====
-- Services that run, services that are started again, and a stop of the program.
use nexus_kvm.Base.{
  ℕ, ◌≡◌, refl, sym, ap, ◌∙◌, Bool, true, false, not, Option, none, some, List, [], ◌∷◌, ◌++◌,
  if◌then◌else◌, if_intro,
}
use nexus_kvm.Desktop.Supervisor.{
  Role, host, Inner, AppRuntime, Backoff, noted, should_attempt, shutdown, Round, child_running,
  child_of, set_child, Supervised, start_role, try_role, revive_role, supervise_role, try_agent,
  supervise_agent, supervise_once, turn,
}

-- Turns one after another.
unfoldable pub turns : Option Role → List Round → AppRuntime → Backoff → Supervised
turns role [] rt b = record { runtime = rt; backoff = b; started = []; goes_on = true }
turns role (r ∷ rounds) rt b =
    let s = turn role r rt b in
    let later = turns role rounds s.runtime s.backoff in
    record later { started = s.started ++ later.started }

abbrev pub running : Inner → AppRuntime
running inner = record { inner = inner; desired_running = true }

abbrev pub stopped : Inner → AppRuntime
stopped inner = record { inner = inner; desired_running = false }

-- While the program is not to run, no turn starts a service or changes what runs.
turns-stopped :
    (role : Option Role) (rounds : List Round) (inner : Inner) (b : Backoff)
    → ((turns role rounds (stopped inner) b).runtime ≡ stopped inner)
      × ((turns role rounds (stopped inner) b).started ≡ [])
unfolding turns turn
turns-stopped role [] inner b = (refl, refl)
turns-stopped role (r ∷ rounds) inner b = turns-stopped role rounds inner b

-- What the supervisor of a host finds of a daemon that is gone, and that it can start.
pub record IsGone (r : Round) (inner : Inner) (b : Backoff) (pid : ℕ) : Type 0 where
  pub session : r.boot_active ≡ false
  pub gone : child_running r.runs inner.daemon ≡ false
  pub silent : r.socket ≡ false
  pub allowed : should_attempt "nexus-kvmd" r.now b ≡ (noted "nexus-kvmd" r.now b, true)
  pub binary : r.has_binary ≡ true
  pub config : r.has_config ≡ true
  pub spawned : r.spawned ≡ some pid

module _ (r : Round) (inner : Inner) (b : Backoff) (pid : ℕ) (gone : IsGone r inner b pid) where
  start_role-gone :
      (rt : AppRuntime) (a : Backoff)
      → start_role host r rt a ≡ record {
        runtime = record rt { inner = record rt.inner { daemon = some pid; last_error = none } };
        backoff = a;
        started = ("nexus-kvmd", pid) ∷ [];
        goes_on = true;
      }
  unfolding start_role set_child
  start_role-gone rt a = rw (gone.binary, gone.config) (rw (gone.spawned, start_role) refl)

  revive_role-gone :
      (rt : AppRuntime)
      → revive_role host r r.socket rt b ≡ start_role host r rt (noted "nexus-kvmd" r.now b)
  unfolding revive_role try_role
  revive_role-gone rt =
      ap (λ s. revive_role host r s rt b) gone.silent ∙ ap (λ a. try_role host r rt a) gone.allowed

  supervise_role-gone :
      supervise_role host r (running inner) b
      ≡ start_role host r
          (if r.stops then shutdown (running inner) else running inner)
          (noted "nexus-kvmd" r.now b)
  unfolding supervise_role child_of
  supervise_role-gone =
      rw (gone.session, gone.gone)
        (revive_role-gone (if r.stops then shutdown (running inner) else running inner))

-- The agent's part of a round leaves the daemon, the client and the user's wish alone.
record IsAside (s t : Supervised) : Type 0 where
  daemon_kept : t.runtime.inner.daemon ≡ s.runtime.inner.daemon
  client_kept : t.runtime.inner.client ≡ s.runtime.inner.client
  wish_kept : t.runtime.desired_running ≡ s.runtime.desired_running

try_agent-IsAside : (r : Round) (s : Supervised) (a : Backoff × Bool) → IsAside s (try_agent r s a)
unfolding try_agent
try_agent-IsAside r s (b, false) = record {
  daemon_kept = refl;
  client_kept = refl;
  wish_kept = refl;
}
try_agent-IsAside r s (b, true) =
    elim r.agent_spawned
      as (λ p. IsAside s (elim p [
        | none ↦ record s { backoff = b }
        | some pid ↦ record s {
          runtime = record s.runtime { inner = record s.runtime.inner { agent = some pid } };
          backoff = b;
          started = s.started ++ ("nexus-agent", pid) ∷ [];
        }
      ])) [
        | none ↦ record { daemon_kept = refl; client_kept = refl; wish_kept = refl }
        | some pid ↦ record { daemon_kept = refl; client_kept = refl; wish_kept = refl }
      ]

supervise_agent-IsAside : (r : Round) (s : Supervised) → IsAside s (supervise_agent r s)
unfolding supervise_agent
supervise_agent-IsAside r s =
    if_intro (IsAside s) (child_running r.runs s.runtime.inner.agent)
      (λ alive. record { daemon_kept = refl; client_kept = refl; wish_kept = refl })
      (λ gone. try_agent-IsAside r s (should_attempt "nexus-agent" r.agent_now s.backoff))

wish_after :
    (b : Bool) (inner : Inner)
    → (if b then shutdown (running inner) else running inner).desired_running ≡ not b
unfolding shutdown
wish_after true inner = refl
wish_after false inner = refl

-- A runtime that is not to run is left as it is.
turns_off :
    (role : Option Role) (rounds : List Round) (rt : AppRuntime) (b : Backoff)
    → rt.desired_running ≡ false
    → (turns role rounds rt b).runtime ≡ rt
turns_off role rounds rt b off =
    let same : rt ≡ stopped rt.inner =
      ap (λ d. record { inner = rt.inner; desired_running = d }) off in
    ap (λ x. (turns role rounds x b).runtime) same
    ∙ (turns-stopped role rounds rt.inner b).0
    ∙ sym same

module _ (r : Round) (inner : Inner) (b : Backoff) (pid : ℕ) (gone : IsGone r inner b pid) where
  -- Where the user may have stopped the program in the round.
  awaited : AppRuntime
  awaited = if r.stops then shutdown (running inner) else running inner

  -- A daemon that is gone is started again by the next turn, if the wait for it is over, and a stop in
  -- that turn is remembered.
  pub turn-gone :
      ((turn (some host) r (running inner) b).runtime.inner.daemon ≡ some pid)
      × ((turn (some host) r (running inner) b).runtime.desired_running ≡ not r.stops)
  unfolding turn supervise_once awaited
  turn-gone =
      let a = noted "nexus-kvmd" r.now b in
      let begun : Supervised = record {
        runtime = record awaited {
          inner = record awaited.inner { daemon = some pid; last_error = none };
        };
        backoff = a;
        started = ("nexus-kvmd", pid) ∷ [];
        goes_on = true;
      } in
      let same =
        ap (λ s. if s.goes_on then supervise_agent r s else s)
          (supervise_role-gone r inner b pid gone ∙ start_role-gone r inner b pid gone awaited a) in
      let aside = supervise_agent-IsAside r begun in
      (
        ap (λ s. s.runtime.inner.daemon) same ∙ aside.daemon_kept,
        ap (λ s. s.runtime.desired_running) same ∙ aside.wish_kept ∙ wish_after r.stops inner,
      )

-- If the user stops the program while a turn awaits the control socket, a daemon that is gone is
-- started by that turn nevertheless, and runs on: the program is not to run, and later turns, of any
-- number, do not change what runs.
pub turns_undo :
    (r : Round) (inner : Inner) (b : Backoff) (pid : ℕ)
    → IsGone r inner b pid
    → r.stops ≡ true
    → (rounds : List Round)
    → let after = (turns (some host) (r ∷ rounds) (running inner) b).runtime in
      (after.inner.daemon ≡ some pid) × (after.desired_running ≡ false)
unfolding turns
turns_undo r inner b pid gone stop rounds =
    let t = turn (some host) r (running inner) b in
    let done = turn-gone r inner b pid gone in
    let off = done.1 ∙ ap not stop in
    let kept = turns_off (some host) rounds t.runtime t.backoff off in
    (ap (λ rt. rt.inner.daemon) kept ∙ done.0, ap (λ rt. rt.desired_running) kept ∙ off)
