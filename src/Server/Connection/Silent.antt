-- ===== src/Server/Connection/Silent.antt =====
-- The time-out of the pong in `client` of rkvm-master/rkvm-server/src/server.rs, for a peer that has
-- stopped to answer.
use nexus_kvm.Base.{
  ℕ, ◌+◌, ◌≤◌, ◌<◌, ◌≡◌, ◌≢◌, refl, String, true, false, none, List, [], ◌∷◌, leb, ok, arith,
  Bool-cases, if_intro, inl, inr, any_of, map,
}
use Prim.Native.Nat.{max}
use nexus_kvm.Net.{timed_out}
use nexus_kvm.Server.{Update}
use nexus_kvm.Server.Connection.{
  Connection, Round, Outcome, goes_on, ended, broken, round, rounds, on_timers, on_tick, on_queue,
  pong_is_late, write_batch, after_write, is_ping, carried, pong_limit, ping_interval,
  write_timeout,
}

-- A round in which nothing arrives from the peer. The task is woken by the next tick at the latest,
-- after the round before, which was over at `over`; a write takes its time-out at most.
pub record IsQuiet (over : ℕ) (r : Round) (c : Connection) : Type 0 where
  pub nothing : r.received ≡ none
  pub in_time : r.now ≤ max over c.next_tick
  pub after : r.now ≤ r.written_at
  pub works : r.write ≡ ok tt
  pub short : r.written_at ≤ r.now + write_timeout

-- What holds between the rounds.
record IsFresh (over : ℕ) (c : Connection) : Type 0 where
  tick : c.awaiting_pong ≡ true → c.next_tick ≤ c.ping_sent_at + ping_interval
  time : c.awaiting_pong ≡ true → over < c.ping_sent_at + pong_limit

goes_≢ : goes_on ≢ broken timed_out
goes_≢ e = cc

ended_≢ : ended ≢ broken timed_out
ended_≢ e = cc

round_nothing :
    (id : String) (r : Round) (c : Connection) → r.received ≡ none → round id r c ≡ on_timers id r c
unfolding round
round_nothing id r c e = ground arith

any_of-carried : (queue : List Update) → any_of is_ping (map carried queue) ≡ false
unfolding is_ping
any_of-carried [] = refl
any_of-carried (update ∷ queue) = any_of-carried queue

tick_round :
    (id : String) (over : ℕ) (r : Round) (c : Connection)
    → IsQuiet over r c
    → c.next_tick ≤ r.now
    → ((on_tick id r c).1 ≢ broken timed_out) × IsFresh r.written_at (on_tick id r c).0
unfolding on_tick write_batch after_write is_ping
tick_round id over r c quiet due =
    rw quiet.works
      (goes_≢, record { tick = λ _. omega (arith, quiet.after, due); time = λ _. omega arith })

queue_round :
    (id : String) (over : ℕ) (r : Round) (c : Connection) (queue : List Update)
    → IsQuiet over r c
    → IsFresh over c
    → r.now < c.next_tick
    → ((on_queue id r queue c).1 ≢ broken timed_out)
      × IsFresh r.written_at (on_queue id r queue c).0
unfolding on_queue write_batch after_write is_ping
queue_round id over r c [] quiet fresh early =
    if_intro (λ (p : Connection × Outcome). (p.1 ≢ broken timed_out) × IsFresh r.written_at p.0)
      r.senders_gone (λ _. (ended_≢, still)) (λ _. (goes_≢, still))
  where
    still : IsFresh r.written_at c
    still = record {
      tick = fresh.tick;
      time = λ h. omega (arith, fresh.tick h, quiet.short, early);
    }
queue_round id over r c (update ∷ queue) quiet fresh early =
    rw (quiet.works, any_of-carried queue)
      (
        goes_≢,
        record { tick = fresh.tick; time = λ h. omega (arith, fresh.tick h, quiet.short, early) },
      )

not_late :
    (over : ℕ) (r : Round) (c : Connection)
    → IsQuiet over r c
    → IsFresh over c
    → pong_is_late r.now c ≡ false
unfolding pong_is_late
not_late over r c quiet fresh = elim (Bool-cases c.awaiting_pong) [
  | inl h ↦ ground (arith, fresh.tick h, fresh.time h, quiet.in_time)
  | inr h ↦ rw h refl
]

quiet_round :
    (id : String) (over : ℕ) (r : Round) (c : Connection)
    → IsQuiet over r c
    → IsFresh over c
    → ((round id r c).1 ≢ broken timed_out) × IsFresh r.written_at (round id r c).0
unfolding on_timers
quiet_round id over r c quiet fresh =
    rw (round_nothing id r c quiet.nothing, not_late over r c quiet fresh)
      (if_intro (λ (p : Connection × Outcome). (p.1 ≢ broken timed_out) × IsFresh r.written_at p.0)
        (leb c.next_tick r.now) (λ due. tick_round id over r c quiet (ground arith))
        (λ early. queue_round id over r c r.queue quiet fresh (ground arith)))

-- The rounds of a peer that never sends anything.
unfoldable pub IsSilent : String → ℕ → Connection → List Round → Type 0
IsSilent id over c [] = Unit
IsSilent id over c (r ∷ rs) = IsQuiet over r c × IsSilent id r.written_at (round id r c).0 rs

silent_rounds :
    (id : String) (over : ℕ) (rs : List Round) (c : Connection)
    → IsFresh over c
    → IsSilent id over c rs
    → (rounds id rs c).1 ≢ broken timed_out
unfolding rounds IsSilent
silent_rounds id over [] c fresh quiet = λ e. cc
silent_rounds id over (r ∷ rs) c fresh quiet =
    let (fine, after) = quiet_round id over r c quiet.0 fresh in
    ground (arith, silent_rounds id r.written_at rs (round id r c).0 after quiet.1)

-- The time-out of the pong never ends the connection of a peer that answers no ping and sends nothing
-- at all, as long as its stream takes what is written: each ping sets the time that is measured
-- back, and a ping is sent every second.
pub rounds-silent :
    (id : String) (over : ℕ) (rs : List Round) (c : Connection)
    → c.awaiting_pong ≡ false
    → IsSilent id over c rs
    → (rounds id rs c).1 ≢ broken timed_out
rounds-silent id over rs c idle quiet =
    silent_rounds id over rs c (record { tick = λ h. cc; time = λ h. cc }) quiet
