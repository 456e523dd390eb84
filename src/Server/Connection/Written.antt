-- ===== src/Server/Connection/Written.antt =====
-- What the loop of `client` in rkvm-master/rkvm-server/src/server.rs writes to the stream.
use nexus_kvm.Base.{
  ◌≡◌, ◌⊎◌, refl, sym, ap, ◌∙◌, String, none, some, List, [], ◌∷◌, ◌++◌, map, leb, ◌+◌,
  Option-cases, inl, inr, arith, Result, ok, err, if_intro,
}
use nexus_kvm.Net.{IoError}
use nexus_kvm.Server.{Update}
use nexus_kvm.Server.Connection.{
  Connection, Round, NetUpdate, ClientEvent, pong, ready, on_event, on_pong, ping, ping_interval,
  carried, Outcome, goes_on, ended, broken, round, rounds, on_timers, on_tick, on_queue,
  on_received, pong_is_late, write_batch, after_write,
}
use mathlib.Core.List.{append-nil, append_assoc}

-- The updates among what was written.
unfoldable pub updates : List NetUpdate → List Update
updates [] = []
updates (ping ∷ batch) = updates batch
updates (carried update ∷ batch) = update ∷ updates batch

updates-append : (a b : List NetUpdate) → updates (a ++ b) ≡ updates a ++ updates b
unfolding updates
updates-append [] b = refl
updates-append (ping ∷ a) b = updates-append a b
updates-append (carried update ∷ a) b = ap (◌∷◌ update) (updates-append a b)

updates-map : (queue : List Update) → updates (map carried queue) ≡ queue
unfolding updates
updates-map [] = refl
updates-map (update ∷ queue) = ap (◌∷◌ update) (updates-map queue)

-- The updates that a round takes from the channel.
unfoldable pub taken : Round → List Update
taken r = elim r.received [ some result ↦ [] | none ↦ r.queue ]

-- The updates that a run of rounds takes from the channel.
unfoldable pub all_taken : List Round → List Update
all_taken [] = []
all_taken (r ∷ rs) = taken r ++ all_taken rs

Outcome-cases :
    (o : Outcome) → (o ≡ goes_on) ⊎ ((o ≡ ended) ⊎ ((problem : IoError) × (o ≡ broken problem)))
Outcome-cases goes_on = inl refl
Outcome-cases ended = inr (inl refl)
Outcome-cases (broken problem) = inr (inr (problem, refl))

module _ (id : String) where
  write_batch-updates :
      (r : Round) (batch : List NetUpdate) (c : Connection)
      → (write_batch id r batch c).1 ≡ goes_on
      → updates (write_batch id r batch c).0.written ≡ updates c.written ++ updates batch
  unfolding write_batch after_write
  write_batch-updates r batch c e = ground (arith, updates-append c.written batch)

  on_queue-updates :
      (r : Round) (queue : List Update) (c : Connection)
      → (on_queue id r queue c).1 ≡ goes_on
      → updates (on_queue id r queue c).0.written ≡ updates c.written ++ queue
  unfolding on_queue
  on_queue-updates r [] c e = ground (arith, append-nil (updates c.written))
  on_queue-updates r (update ∷ queue) c e =
      write_batch-updates r (map carried (update ∷ queue)) c e
      ∙ ap (λ t. updates c.written ++ t) (updates-map (update ∷ queue))

  on_tick-updates :
      (r : Round) (c : Connection)
      → (on_tick id r c).1 ≡ goes_on
      → updates (on_tick id r c).0.written ≡ updates c.written ++ r.queue
  unfolding on_tick updates
  on_tick-updates r c e =
      write_batch-updates r (ping ∷ map carried r.queue)
        (record c { next_tick = c.next_tick + ping_interval }) e
      ∙ ap (λ t. updates c.written ++ t) (updates-map r.queue)

  on_received-updates :
      (r : Round) (result : Result ClientEvent IoError) (c : Connection)
      → (on_received id r.loop_open r.now result c).0.written ≡ c.written
  unfolding on_received on_event on_pong
  on_received-updates r (ok pong) c = ground arith
  on_received-updates r (ok (ready epoch)) c = ground arith
  on_received-updates r (err problem) c = refl

  on_timers-updates :
      (r : Round) (c : Connection)
      → (on_timers id r c).1 ≡ goes_on
      → updates (on_timers id r c).0.written ≡ updates c.written ++ r.queue
  unfolding on_timers
  on_timers-updates r c =
      if_intro {A = Connection × Outcome}
        (λ p. p.1 ≡ goes_on → updates p.0.written ≡ updates c.written ++ r.queue)
        (pong_is_late r.now c) (λ _ e. cc)
        (λ _.
          if_intro {A = Connection × Outcome}
            (λ p. p.1 ≡ goes_on → updates p.0.written ≡ updates c.written ++ r.queue)
            (leb c.next_tick r.now) (λ _. on_tick-updates r c) (λ _. on_queue-updates r r.queue c))

  round-updates :
      (r : Round) (c : Connection)
      → (round id r c).1 ≡ goes_on
      → updates (round id r c).0.written ≡ updates c.written ++ taken r
  unfolding round taken
  round-updates r c e = elim (Option-cases r.received) [
    | inl nothing ↦ ground (arith, on_timers-updates r c)
    | inr (result, came) ↦
        ground (arith, on_received-updates r result c, append-nil (updates c.written))
  ]

  first_goes :
      (r : Round) (rs : List Round) (c : Connection)
      → (rounds id (r ∷ rs) c).1 ≡ goes_on
      → ((round id r c).1 ≡ goes_on) × (rounds id (r ∷ rs) c ≡ rounds id rs (round id r c).0)
  unfolding rounds
  first_goes r rs c e = elim (Outcome-cases (round id r c).1) [
    | inl goes ↦ (goes, rw (rounds, goes) refl)
    | inr (inl ends) ↦ absurd (ground arith)
    | inr (inr (problem, breaks)) ↦ absurd (ground arith)
  ]

  -- While the connection goes on, every update that its rounds took from the channel has been written
  -- to the stream, once, in the order of the channel and behind what was written before, whatever
  -- pings, pongs and confirmations came between.
  pub rounds-written :
      (rs : List Round) (c : Connection)
      → (rounds id rs c).1 ≡ goes_on
      → updates (rounds id rs c).0.written ≡ updates c.written ++ all_taken rs
  unfolding all_taken rounds
  rounds-written [] c e = sym (append-nil (updates c.written))
  rounds-written (r ∷ rs) c e =
      let (here, same) = first_goes r rs c e in
      let later = rounds-written rs (round id r c).0 (ap (λ p. p.1) (sym same) ∙ e) in
      ap (λ p. updates p.0.written) same
      ∙ later
      ∙ ap (λ t. t ++ all_taken rs) (round-updates r c here)
      ∙ append_assoc (updates c.written) (taken r) (all_taken rs)
