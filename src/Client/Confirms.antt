-- ===== src/Client/Confirms.antt =====
-- What the loop of rkvm-master/rkvm-client/src/client.rs does for the messages that it receives, and
-- what its server's connection learns of it.
use nexus_kvm.Base.{
  ℕ, ◌≡◌, ◌≢◌, ◌⊎◌, inl, inr, refl, sym, ap, ◌∙◌, String, none, List, [], ◌∷◌, ◌++◌, map, arith,
  Option-cases,
}
use nexus_kvm.Server.{Update, create_device, destroy_device, event_update, take_control}
use nexus_kvm.Server.Connection.{
  NetUpdate, ping, carried, pong, ready, Connection, Round, rounds, goes_on,
}
use nexus_kvm.Server.Connection.Written.{updates, all_taken, rounds-written}
use nexus_kvm.Client.{
  Client, Io, Wake, received, lost, ticked, on_create, on_destroy, on_input, reply, on_update, wake,
  run, run_goes, run_stops, start_client, Effect, built, dropped, wrote, replied,
}
use mathlib.Core.List.{append-nil, append_assoc}

-- What an update asks for.
abbrev pub effect_of : NetUpdate → Effect
effect_of ping = replied pong
effect_of (carried (create_device id)) = built id
effect_of (carried (destroy_device id)) = dropped id
effect_of (carried (event_update id event)) = wrote id event
effect_of (carried (take_control epoch)) = replied (ready epoch)

-- The messages among what wakes the loop.
unfoldable pub messages : List Wake → List NetUpdate
messages [] = []
messages (received io u ∷ ws) = u ∷ messages ws
messages (lost problem ∷ ws) = messages ws
messages (ticked ∷ ws) = messages ws

on_update-effects :
    (io : Io) (u : NetUpdate) (c : Client)
    → let h = on_update io u c in
      ((h.1 ≡ none) × (h.0.effects ≡ c.effects ++ effect_of u ∷ []))
      ⊎ ((h.1 ≢ none) × (h.0.effects ≡ c.effects))
unfolding on_update on_create on_destroy on_input reply
on_update-effects io ping c = ground arith
on_update-effects io (carried (create_device id)) c = ground arith
on_update-effects io (carried (destroy_device id)) c = ground arith
on_update-effects io (carried (event_update id event)) c = ground arith
on_update-effects io (carried (take_control epoch)) c = ground arith

-- What the loop has done is what the messages ask for, each in its turn and once, up to the message
-- that ended it. So the confirmation of a handoff goes out behind the writes of all events that came
-- before it, and never twice.
pub run-effects :
    (ws : List Wake) (c : Client)
    → let h = run ws c in
      (done : List NetUpdate) × (rest : List NetUpdate) × (messages ws ≡ done ++ rest)
      × (h.0.effects ≡ c.effects ++ map effect_of done)
      × ((rest ≡ []) ⊎ (h.1 ≢ none))
unfolding run messages wake
run-effects [] c = ([], [], refl, sym (append-nil c.effects), inl refl)
run-effects (lost problem ∷ ws) c =
    ([], messages ws, refl, sym (append-nil c.effects), inr (λ e. cc))
run-effects (ticked ∷ ws) c = ([], messages ws, refl, sym (append-nil c.effects), inr (λ e. cc))
run-effects (received io u ∷ ws) c = elim (on_update-effects io u c) [
  | inl (fine, one) ↦
      let (done, rest, parts, all, end) = run-effects ws (on_update io u c).0 in
      rw (run_goes (received io u) ws c fine) (
        u ∷ done,
        rest,
        ap (◌∷◌ u) parts,
        all
            ∙ ap (λ t. t ++ map effect_of done) one
            ∙ append_assoc c.effects (effect_of u ∷ []) (map effect_of done),
        end,
      )
  | inr (ends, same) ↦ elim (Option-cases (on_update io u c).1) [
    | inl fine ↦ absurd (ends fine)
    | inr (e, broken) ↦
        rw (run_stops (received io u) ws c e broken)
          ([], u ∷ messages ws, refl, same ∙ sym (append-nil c.effects), inr (λ e. cc))
  ]
]

-- The confirmations among the effects, and the handoffs among the updates of the server's loop.
unfoldable pub confirmed : List Effect → List ℕ
confirmed [] = []
confirmed (replied (ready epoch) ∷ effects) = epoch ∷ confirmed effects
confirmed (_ ∷ effects) = confirmed effects

unfoldable pub handoffs : List Update → List ℕ
handoffs [] = []
handoffs (take_control epoch ∷ us) = epoch ∷ handoffs us
handoffs (_ ∷ us) = handoffs us

confirmed-effect_of : (us : List NetUpdate) → confirmed (map effect_of us) ≡ handoffs (updates us)
unfolding confirmed handoffs updates
confirmed-effect_of [] = refl
confirmed-effect_of (ping ∷ us) = confirmed-effect_of us
confirmed-effect_of (carried (create_device id) ∷ us) = confirmed-effect_of us
confirmed-effect_of (carried (destroy_device id) ∷ us) = confirmed-effect_of us
confirmed-effect_of (carried (event_update id event) ∷ us) = confirmed-effect_of us
confirmed-effect_of (carried (take_control epoch) ∷ us) = ap (◌∷◌ epoch) (confirmed-effect_of us)

-- A connection that has written its first update and goes on, and a client that has received all
-- that was written and goes on: the client has sent the confirmation of each handoff that the
-- connection took from the server's loop, once, in their order, and no other.
pub confirmed-handoffs :
    (id : String) (rs : List Round) (s : Connection) (ws : List Wake) (now : ℕ)
    → s.written ≡ []
    → (rounds id rs s).1 ≡ goes_on
    → messages ws ≡ (rounds id rs s).0.written
    → (run ws (start_client now)).1 ≡ none
    → confirmed (run ws (start_client now)).0.effects ≡ handoffs (all_taken rs)
unfolding updates
confirmed-handoffs id rs s ws now empty goes came fine =
    let (done, rest, parts, all, end) = run-effects ws (start_client now) in
    elim end [
      | inl nothing ↦
          ap confirmed all
          ∙ confirmed-effect_of done
          ∙ ap (λ t. handoffs (updates t)) (whole done rest parts nothing)
          ∙ ap (λ t. handoffs (updates t)) came
          ∙ ap handoffs (rounds-written id rs s goes ∙ ap (λ t. updates t ++ all_taken rs) empty)
      | inr ends ↦ absurd (ends fine)
    ]
  where
    whole :
        (done rest : List NetUpdate) → messages ws ≡ done ++ rest → rest ≡ [] → done ≡ messages ws
    whole done rest parts nothing =
        sym (append-nil done) ∙ ap (λ t. done ++ t) (sym nothing) ∙ sym parts
