-- ===== src/Server/Connection.antt =====
-- rkvm-master/rkvm-server/src/server.rs: the loop of `client`, the task of one connection, after its
-- greeting. Times are in milliseconds. `init_updates` is always empty in the source.
pub mod Written
pub mod Silent
use nexus_kvm.Base.{
  ℕ, ◌+◌, ◌-◌, String, Bool, true, false, ◌&&◌, Option, none, some, List, [], ◌∷◌, ◌++◌, map,
  any_of, leb, if◌then◌else◌, Result, ok, err, str_dec,
}
use nexus_kvm.Base.Dict.{insert}
use Prim.Native.Nat.{min}
use nexus_kvm.Net.{IoError, broken_pipe, timed_out}
use nexus_kvm.Server.{Update}

-- `Update` as the wire carries it: what the server's loop sends, and `Ping`.
pub data NetUpdate : Type 0 where
  ping : NetUpdate
  carried : Update → NetUpdate

pub data ClientEvent : Type 0 where
  pong : ClientEvent
  ready : ℕ → ClientEvent

abbrev pub ping_interval : ℕ
ping_interval = 1000

abbrev pub read_timeout : ℕ
read_timeout = 1500

abbrev pub write_timeout : ℕ
write_timeout = 1500

abbrev pub pong_limit : ℕ
pong_limit = ping_interval + read_timeout

abbrev pub u32_max : ℕ
u32_max = 4294967295

-- The variables of the loop, the tick that comes next, what was written to the stream, what was sent
-- to the server's loop, and the latencies that the connections share.
pub record Connection : Type 0 where
  pub awaiting_pong : Bool
  pub ping_sent_at : ℕ
  pub next_tick : ℕ
  pub written : List NetUpdate
  pub readies : List (String × ℕ)
  pub latencies : List (String × ℕ)

-- What a round of the loop meets: the time, what `recv` has ready, whether the server's loop still
-- takes `Ready`, the updates in the channel, whether its senders are gone, and what the write returns
-- and when it is over.
pub record Round : Type 0 where
  pub now : ℕ
  pub received : Option (Result ClientEvent IoError)
  pub loop_open : Bool
  pub queue : List Update
  pub senders_gone : Bool
  pub written_at : ℕ
  pub write : Result (Unit {0}) IoError

pub data Outcome : Type 0 where
  goes_on : Outcome
  ended : Outcome
  broken : IoError → Outcome

unfoldable pub is_ping : NetUpdate → Bool
is_ping ping = true
is_ping (carried update) = false

unfoldable pub pong_is_late : ℕ → Connection → Bool
pong_is_late now c = c.awaiting_pong && leb pong_limit (now - c.ping_sent_at)

module _ (id : String) where
  -- `ClientEvent::Pong`
  unfoldable pub on_pong : ℕ → Connection → Connection
  on_pong now c =
      if c.awaiting_pong
      then record c {
        latencies = insert str_dec id (min (now - c.ping_sent_at) u32_max) c.latencies;
        awaiting_pong = false;
      }
      else c

  unfoldable pub on_event : Bool → ℕ → ClientEvent → Connection → Connection × Outcome
  unfolding on_pong
  on_event loop_open now pong c = (on_pong now c, goes_on)
  on_event loop_open now (ready epoch) c =
      if loop_open
      then (record c { readies = c.readies ++ (id, epoch) ∷ [] }, goes_on)
      else (c, broken broken_pipe)

  unfoldable pub on_received :
      Bool → ℕ → Result ClientEvent IoError → Connection → Connection × Outcome
  unfolding on_event
  on_received loop_open now (ok event) c = on_event loop_open now event c
  on_received loop_open now (err problem) c = (c, broken problem)

  unfoldable pub after_write : Round → List NetUpdate → Connection → Connection
  unfolding is_ping
  after_write r batch c =
      if any_of is_ping batch
      then record c {
        written = c.written ++ batch;
        awaiting_pong = true;
        ping_sent_at = r.written_at;
      }
      else record c { written = c.written ++ batch }

  -- The end of a round: the batch is written and flushed under one time-out.
  unfoldable pub write_batch : Round → List NetUpdate → Connection → Connection × Outcome
  unfolding after_write
  write_batch r batch c = elim r.write [
    | ok done ↦ (after_write r batch c, goes_on)
    | err problem ↦ (c, broken problem)
  ]

  -- The updates of the channel: the first wakes the task, the others are taken by `try_recv`.
  unfoldable pub on_queue : Round → List Update → Connection → Connection × Outcome
  unfolding write_batch
  on_queue r [] c = if r.senders_gone then (c, ended) else (c, goes_on)
  on_queue r (update ∷ queue) c = write_batch r (carried update ∷ map carried queue) c

  unfoldable pub on_tick : Round → Connection → Connection × Outcome
  unfolding write_batch
  on_tick r c =
      write_batch r (ping ∷ map carried r.queue)
        (record c { next_tick = c.next_tick + ping_interval })

  unfoldable pub on_timers : Round → Connection → Connection × Outcome
  unfolding pong_is_late on_tick on_queue
  on_timers r c =
      if pong_is_late r.now c
      then (c, broken timed_out)
      else if leb c.next_tick r.now
      then on_tick r c
      else on_queue r r.queue c

  -- A round: `select!` is biased, and tries its branches in this order.
  unfoldable pub round : Round → Connection → Connection × Outcome
  unfolding on_received on_timers
  round r c = elim r.received [
    | some result ↦ on_received r.loop_open r.now result c
    | none ↦ on_timers r c
  ]

  unfoldable pub rounds : List Round → Connection → Connection × Outcome
  rounds [] c = (c, goes_on)
  rounds (r ∷ rs) c =
      let (next, outcome) = round r c in
      elim outcome [
        | goes_on ↦ rounds rs next
        | ended ↦ (next, ended)
        | broken problem ↦ (next, broken problem)
      ]
