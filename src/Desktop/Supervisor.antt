-- ===== src/Desktop/Supervisor.antt =====
-- src-tauri/src/runtime.rs: the supervisor of the services (`should_attempt`, `supervise_once` and the loop
-- of `spawn_supervisor`), `shutdown` and `detach_if_boot_owned`. Processes are their numbers. What the
-- system answers in a round is an argument. Times are whole seconds since the start of the program.
pub mod Starts
pub mod Stops
use nexus_kvm.Base.{
  ℕ, ◌+◌, ◌-◌, ◌^◌, ◌≤◌, String, Bool, true, false, not, ◌&&◌, ◌||◌, Option, none, some, List, [],
  ◌∷◌, ◌++◌, ltb, if◌then◌else◌, str_dec,
}
use nexus_kvm.Base.Dict.{lookup, insert}

pub data Role : Type 0 where
  host client : Role

-- `Inner`
pub record Inner : Type 0 where
  pub daemon : Option ℕ
  pub client : Option ℕ
  pub agent : Option ℕ
  pub last_error : Option String

-- `AppRuntime`, without its metrics
pub record AppRuntime : Type 0 where
  pub inner : Inner
  pub desired_running : Bool

-- The counts of failed starts and the times of the last ones.
pub record Backoff : Type 0 where
  pub fails : List (String × ℕ)
  pub last : List (String × ℕ)

unfoldable pub min_of : ℕ → ℕ → ℕ
min_of a b = if ltb b a then b else a

-- `fails.get(key).copied().unwrap_or(0)`
unfoldable pub fails_of : String → Backoff → ℕ
fails_of key b = elim (lookup str_dec key b.fails) [ none ↦ 0 | some n ↦ n ]

-- `2u64.saturating_pow(attempts.min(5)).min(30)`
unfoldable pub backoff_secs : ℕ → ℕ
unfolding min_of
backoff_secs attempts = min_of (2 ^ min_of attempts 5) 30

-- `now.duration_since(*t) < backoff`; an earlier `now` counts as no time.
unfoldable pub too_soon : Option ℕ → ℕ → ℕ → Bool
too_soon none now wait = false
too_soon (some t) now wait = ltb (now - t) wait

-- An attempt is noted with its time before its outcome is known.
unfoldable pub noted : String → ℕ → Backoff → Backoff
unfolding fails_of
noted key now b = record {
  fails = insert str_dec key (fails_of key b + 1) b.fails;
  last = insert str_dec key now b.last;
}

unfoldable pub should_attempt : String → ℕ → Backoff → Backoff × Bool
unfolding fails_of backoff_secs too_soon noted
should_attempt key now b =
    if too_soon (lookup str_dec key b.last) now (backoff_secs (fails_of key b))
    then (b, false)
    else (noted key now b, true)

-- `fails.insert(key, 0)`
unfoldable pub seen_alive : String → Backoff → Backoff
seen_alive key b = record b { fails = insert str_dec key 0 b.fails }

-- `shutdown`: `kill` takes a child out.
unfoldable pub shutdown : AppRuntime → AppRuntime
shutdown rt = record {
  inner = record rt.inner { daemon = none; client = none; agent = none };
  desired_running = false;
}

-- What the system answers in a round: if systemd runs the role, which processes run, if the control
-- socket answers, if the user stops the program while that is awaited, the binary and its
-- configuration, the processes that are started, and the times of the two starts.
pub record Round : Type 0 where
  pub boot_active : Bool
  pub runs : ℕ → Bool
  pub socket : Bool
  pub stops : Bool
  pub has_binary : Bool
  pub has_config : Bool
  pub spawned : Option ℕ
  pub agent_spawned : Option ℕ
  pub now : ℕ
  pub agent_now : ℕ

abbrev pub role_key : Role → String
role_key host = "nexus-kvmd"
role_key client = "rkvm-client"

-- `child_running`
unfoldable pub child_running : (ℕ → Bool) → Option ℕ → Bool
child_running runs none = false
child_running runs (some pid) = runs pid

unfoldable pub child_of : Role → Inner → Option ℕ
child_of host inner = inner.daemon
child_of client inner = inner.client

unfoldable pub set_child : Role → Option ℕ → Inner → Inner
set_child host child inner = record inner { daemon = child }
set_child client child inner = record inner { client = child }

-- What a round leaves: the runtime, the counts, the services that it started with the processes that
-- they replaced, and if it goes on to the agent.
pub record Supervised : Type 0 where
  pub runtime : AppRuntime
  pub backoff : Backoff
  pub started : List (String × ℕ)
  pub goes_on : Bool

-- The start of the role's service, as far as `spawn_logged` and what follows it.
unfoldable pub start_role : Role → Round → AppRuntime → Backoff → Supervised
unfolding set_child
start_role role r rt b =
    if not r.has_binary || not r.has_config
    then record { runtime = rt; backoff = b; started = []; goes_on = false }
    else elim r.spawned [
      | none ↦ record { runtime = rt; backoff = b; started = []; goes_on = true }
      | some pid ↦ record {
        runtime = record rt {
          inner = record (set_child role (some pid) rt.inner) { last_error = none };
        };
        backoff = b;
        started = (role_key role, pid) ∷ [];
        goes_on = true;
      }
    ]

unfoldable pub try_role : Role → Round → AppRuntime → Backoff × Bool → Supervised
unfolding start_role
try_role role r rt (b, true) = start_role role r rt b
try_role role r rt (b, false) = record { runtime = rt; backoff = b; started = []; goes_on = true }

-- The role's part behind the test of what is reachable. The user may have stopped the program while
-- the socket was awaited.
unfoldable pub revive_role : Role → Round → Bool → AppRuntime → Backoff → Supervised
unfolding try_role should_attempt seen_alive
revive_role role r true rt b = record {
  runtime = rt;
  backoff = seen_alive (role_key role) b;
  started = [];
  goes_on = true;
}
revive_role role r false rt b = try_role role r rt (should_attempt (role_key role) r.now b)

-- The socket is asked only for a host whose child does not run.
unfoldable pub supervise_role : Role → Round → AppRuntime → Backoff → Supervised
unfolding revive_role child_running child_of shutdown
supervise_role role r rt b =
    if r.boot_active
    then record { runtime = rt; backoff = b; started = []; goes_on = true }
    else if child_running r.runs (child_of role rt.inner)
    then revive_role role r true rt b
    else elim role [
      | host ↦ revive_role host r r.socket (if r.stops then shutdown rt else rt) b
      | client ↦ revive_role client r false rt b
    ]

unfoldable pub try_agent : Round → Supervised → Backoff × Bool → Supervised
try_agent r s (b, false) = record s { backoff = b }
try_agent r s (b, true) = elim r.agent_spawned [
  | none ↦ record s { backoff = b }
  | some pid ↦ record s {
    runtime = record s.runtime { inner = record s.runtime.inner { agent = some pid } };
    backoff = b;
    started = s.started ++ ("nexus-agent", pid) ∷ [];
  }
]

-- The agent's part of `supervise_once`.
unfoldable pub supervise_agent : Round → Supervised → Supervised
unfolding try_agent should_attempt seen_alive child_running
supervise_agent r s =
    if child_running r.runs s.runtime.inner.agent
    then record s { backoff = seen_alive "nexus-agent" s.backoff }
    else try_agent r s (should_attempt "nexus-agent" r.agent_now s.backoff)

unfoldable pub supervise_once : Role → Round → AppRuntime → Backoff → Supervised
unfolding supervise_role supervise_agent
supervise_once role r rt b =
    let s = supervise_role role r rt b in if s.goes_on then supervise_agent r s else s

-- A turn of the loop of `spawn_supervisor`, with the role that is configured, if one is.
unfoldable pub turn : Option Role → Round → AppRuntime → Backoff → Supervised
unfolding supervise_once
turn role r rt b =
    if not rt.desired_running
    then record { runtime = rt; backoff = b; started = []; goes_on = true }
    else elim role [
      | none ↦ record { runtime = rt; backoff = b; started = []; goes_on = true }
      | some role ↦ supervise_once role r rt b
    ]

-- `detach_if_boot_owned`: the handles of the role's processes are dropped, the processes run on.
unfoldable pub detach_if_boot_owned : Bool → AppRuntime → AppRuntime
detach_if_boot_owned boot_active rt =
    if boot_active
    then record rt { inner = record rt.inner { daemon = none; client = none } }
    else rt
