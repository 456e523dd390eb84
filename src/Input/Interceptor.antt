-- ===== src/Input/Interceptor.antt =====
-- rkvm-master/rkvm-input/src/interceptor.rs (`read`) and writer.rs (`write`). A call of `read` meets the
-- events that the kernel has for it, each with what becomes of its write if it is written back; the call
-- is dropped where no more events come or where a write does not become ready.
pub mod Written
pub mod Packets
pub mod Steps
pub mod Kept
pub mod Local
pub mod Runs
pub mod Overflow
use nexus_kvm.Base.{
  ℕ, String, Bool, true, false, not, ◌&&◌, ◌||◌, Option, none, some, List, [], ◌∷◌, ◌++◌, ◌==◌,
  if◌then◌else◌, Result, ok, err,
}
use nexus_kvm.Base.Int.{ℤ, pos}
use nexus_kvm.Input.Axes.{all, mt}
use nexus_kvm.Input.Codes.{
  Key, RelEvent, AbsEvent, axis_event, mt_tool_type, Event, rel, abs, key, sync, rel_from_raw,
  rel_to_raw, abs_from_raw, abs_to_raw, tool_from_raw, tool_to_raw, sync_to_raw, key_from_raw,
  key_to_raw, as_u16,
}

pub record Raw : Type 0 where
  pub kind : ℕ
  pub code : ℕ
  pub value : ℤ

pub record Interceptor : Type 0 where
  pub events : List Event
  pub writing : Option Raw
  pub dropped : Bool

-- How an awaited write ends: it is done, it fails, or the call is dropped before it.
pub data WriteEnd : Type 0 where
  done failed cancelled : WriteEnd

-- What `read_raw` returns: an event, with how a write of it would end, or an error.
pub data Arrival : Type 0 where
  arrival : Raw → WriteEnd → Arrival
  read_error : Arrival

pub data Answer : Type 0 where
  delivered : Event → Answer
  broken : Answer
  dropped_call : Answer

-- What a call of `read` leaves: its answer, what it wrote to the local device, and the events that
-- the kernel still has.
pub record Reading : Type 0 where
  pub interceptor : Interceptor
  pub answer : Answer
  pub written : List Raw
  pub rest : List Arrival

-- `matches!(events.back(), Some(Event::Sync(SyncEvent::All)))`
unfoldable pub is_complete : List Event → Bool
is_complete [] = false
is_complete (sync all ∷ []) = true
is_complete (e ∷ []) = false
is_complete (e ∷ f ∷ events) = is_complete (f ∷ events)

-- What becomes of a raw event.
pub data Fate : Type 0 where
  queued : Event → Fate
  skipped : Fate
  restart : Fate
  resumed : Fate
  passed : Fate

unfoldable pub queue_some : {A : Type 0} → (A → Event) → Option A → Fate
queue_some f (some a) = queued (f a)
queue_some f none = passed

-- `value == 0 || value == 1`, and `value == 1`
unfoldable pub is_switch : ℤ → Bool
is_switch (pos n) = n == 0 || n == 1
is_switch _ = false

unfoldable pub is_one : ℤ → Bool
is_one (pos n) = n == 1
is_one _ = false

module _ (glue : String → ℕ) (profile : Bool) where
  unfoldable pub abs_event : ℕ → ℤ → Fate
  unfolding queue_some
  abs_event code value =
      if code == glue "ABS_MT_TOOL_TYPE"
      then queue_some (λ t. abs (mt_tool_type t)) (tool_from_raw glue profile value)
      else queue_some (λ a. abs (axis_event a value)) (abs_from_raw glue profile code)

  -- The arm for `EV_SYN`.
  unfoldable pub syn_event : Bool → ℕ → Fate
  syn_event dropped code =
      if code == glue "SYN_REPORT"
      then (if dropped then resumed else queued (sync all))
      else if code == glue "SYN_DROPPED"
      then restart
      else if code == glue "SYN_MT_REPORT" && not dropped
      then queued (sync mt)
      else skipped

  -- Motion, positions and keys.
  unfoldable pub is_input : ℕ → Bool
  is_input kind = kind == glue "EV_REL" || kind == glue "EV_ABS" || kind == glue "EV_KEY"

  -- The `match` of `read`, and the test behind it that keeps input from the local device.
  unfoldable pub fate : Bool → Raw → Fate
  unfolding abs_event syn_event is_switch is_one is_input queue_some
  fate dropped raw =
      if raw.kind == glue "EV_REL" && not dropped
      then queue_some (λ a. rel (record { axis = a; value = raw.value }))
          (rel_from_raw glue profile raw.code)
      else if raw.kind == glue "EV_ABS" && not dropped
      then abs_event raw.code raw.value
      else if raw.kind == glue "EV_KEY" && not dropped && is_switch raw.value
      then queue_some (λ k. key (record { key = k; down = is_one raw.value }))
          (key_from_raw glue profile raw.code)
      else if raw.kind == glue "EV_SYN"
      then syn_event dropped raw.code
      else if dropped && is_input raw.kind
      then skipped
      else passed

  -- The rest of `read` at a write: `after` is the loop behind it.
  unfoldable pub write_back : Interceptor → Raw → List Arrival → WriteEnd → Reading → Reading
  write_back i raw rest done after = record after { written = raw ∷ after.written }
  write_back i raw rest failed after = record {
    interceptor = record i { writing = some raw };
    answer = broken;
    written = [];
    rest = rest;
  }
  write_back i raw rest cancelled after = record {
    interceptor = record i { writing = some raw };
    answer = dropped_call;
    written = [];
    rest = rest;
  }

  unfoldable pub pop_front : Interceptor → List Event → List Arrival → Reading
  pop_front i (e ∷ events) arrivals = record {
    interceptor = record i { events = events };
    answer = delivered e;
    written = [];
    rest = arrivals;
  }
  pop_front i [] arrivals = record {
    interceptor = i;
    answer = broken;
    written = [];
    rest = arrivals;
  }

  -- The loop of `read`.
  unfoldable pub read_loop : Interceptor → List Arrival → Reading
  read_loop i [] = elim (is_complete i.events) [
    | true ↦ pop_front i i.events []
    | false ↦ record { interceptor = i; answer = dropped_call; written = []; rest = [] }
  ]
  read_loop i (read_error ∷ arrivals) = elim (is_complete i.events) [
    | true ↦ pop_front i i.events (read_error ∷ arrivals)
    | false ↦ record { interceptor = i; answer = broken; written = []; rest = arrivals }
  ]
  read_loop i (arrival raw end ∷ arrivals) = elim (is_complete i.events) [
    | true ↦ pop_front i i.events (arrival raw end ∷ arrivals)
    | false ↦ elim (fate i.dropped raw) [
      | queued e ↦ read_loop (record i { events = i.events ++ e ∷ [] }) arrivals
      | skipped ↦ read_loop i arrivals
      | restart ↦ read_loop (record i { events = []; dropped = true }) arrivals
      | resumed ↦ read_loop (record i { dropped = false }) arrivals
      | passed ↦ write_back i raw arrivals end (read_loop (record i { writing = none }) arrivals)
    ]
  ]

  -- An interrupted write is made up for first.
  unfoldable pub resume : Option Raw → Interceptor → WriteEnd → List Arrival → Reading
  resume none i resumes arrivals = read_loop i arrivals
  resume (some raw) i resumes arrivals =
      write_back i raw arrivals resumes (read_loop (record i { writing = none }) arrivals)

  -- `Interceptor::read`. `resumes` is how the write that an earlier call left would end.
  unfoldable pub read : Interceptor → WriteEnd → List Arrival → Reading
  unfolding resume
  read i resumes arrivals = resume i.writing i resumes arrivals

  unfoldable pub to_write : String → Option ℕ → Option ℤ → Option Raw
  to_write kind (some code) (some value) =
      some (record { kind = as_u16 (glue kind); code = code; value = value })
  to_write kind _ _ = none

  -- What `Writer::write` writes, if anything.
  unfoldable pub raw_of : Event → Option Raw
  unfolding to_write
  raw_of e = elim e [
    | rel r ↦ to_write "EV_REL" (rel_to_raw glue profile r.axis) (some r.value)
    | abs (axis_event a value) ↦ to_write "EV_ABS" (abs_to_raw glue profile a) (some value)
    | abs (mt_tool_type t) ↦
        to_write "EV_ABS" (some (as_u16 (glue "ABS_MT_TOOL_TYPE"))) (tool_to_raw glue profile t)
    | key k ↦
        to_write "EV_KEY" (key_to_raw glue profile k.key) (some (pos (if k.down then 1 else 0)))
    | sync s ↦ to_write "EV_SYN" (sync_to_raw glue profile s) (some (pos 0))
  ]
