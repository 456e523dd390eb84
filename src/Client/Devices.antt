-- ===== src/Client/Devices.antt =====
-- The devices that the loop of rkvm-master/rkvm-client/src/client.rs keeps.
use nexus_kvm.Base.{
  ℕ, ◌≡◌, ◌⊎◌, inl, inr, refl, ap, ite, Option, none, some, List, [], ◌∷◌, ◌++◌, map, ok,
  ℕ_discrete, arith, Option-cases,
}
use nexus_kvm.Base.Dict.{lookup, lookup-insert, lookup-remove}
use nexus_kvm.Net.{invalid_data}
use nexus_kvm.Server.{Event, create_device, destroy_device, event_update, take_control}
use nexus_kvm.Server.Connection.{NetUpdate, ping, carried}
use nexus_kvm.Client.{
  network_error, Client, Io, received, Handled, on_create, on_destroy, on_input, reply, on_update,
  wake, run, run_goes, run_stops,
}

-- One device by itself: absent, or what was written to it since it was made. The answer is `none`
-- where an update does not fit it.
abbrev pub device_update : ℕ → NetUpdate → Option (List Event) → Option (Option (List Event))
device_update q ping device = some device
device_update q (carried (create_device id)) none =
    ite (ℕ_discrete id q) (some (some [])) (some none)
device_update q (carried (create_device id)) (some events) =
    ite (ℕ_discrete id q) none (some (some events))
device_update q (carried (destroy_device id)) none = ite (ℕ_discrete id q) none (some none)
device_update q (carried (destroy_device id)) (some events) =
    ite (ℕ_discrete id q) (some none) (some (some events))
device_update q (carried (event_update id event)) none = ite (ℕ_discrete id q) none (some none)
device_update q (carried (event_update id event)) (some events) =
    ite (ℕ_discrete id q) (some (some (events ++ event ∷ []))) (some (some events))
device_update q (carried (take_control epoch)) device = some device

unfoldable pub device : ℕ → List NetUpdate → Option (List Event) → Option (Option (List Event))
device q [] d = some d
device q (u ∷ us) d = elim (device_update q u d) [ some next ↦ device q us next | none ↦ none ]

-- The calls of `uinput` and of the stream that succeed.
abbrev pub clear : Io
clear = record { now = 0; build = ok tt; write = ok tt; reply = ok tt }

abbrev pub Fits : ℕ → NetUpdate → Client → Handled → Type 0
Fits q u c h =
    device_update q u (lookup ℕ_discrete q c.writers) ≡ some (lookup ℕ_discrete q h.0.writers)

abbrev pub Refuses : NetUpdate → Client → Handled → Type 0
Refuses u c h =
    (h.1 ≡ some (network_error invalid_data))
    × (q : ℕ) × (device_update q u (lookup ℕ_discrete q c.writers) ≡ none)

on_create-cases :
    (id : ℕ) (c : Client)
    → let h = on_create clear id c in
      let u = carried (create_device id) in
      ((h.1 ≡ none) × ((q : ℕ) → Fits q u c h)) ⊎ Refuses u c h
unfolding on_create
on_create-cases id c = elim (Option-cases (lookup ℕ_discrete id c.writers)) [
  | inl absent ↦ inl (ground arith, λ q. ground (arith, lookup-insert ℕ_discrete q id [] c.writers))
  | inr (events, present) ↦ inr (ground arith, id, ground arith)
]

on_destroy-cases :
    (id : ℕ) (c : Client)
    → let h = on_destroy id c in
      let u = carried (destroy_device id) in
      ((h.1 ≡ none) × ((q : ℕ) → Fits q u c h)) ⊎ Refuses u c h
unfolding on_destroy
on_destroy-cases id c = elim (Option-cases (lookup ℕ_discrete id c.writers)) [
  | inl absent ↦ inr (ground arith, id, ground arith)
  | inr (events, present) ↦
      inl (ground arith, λ q. ground (arith, lookup-remove ℕ_discrete q id c.writers))
]

on_input-cases :
    (id : ℕ) (event : Event) (c : Client)
    → let h = on_input clear id event c in
      let u = carried (event_update id event) in
      ((h.1 ≡ none) × ((q : ℕ) → Fits q u c h)) ⊎ Refuses u c h
unfolding on_input
on_input-cases id event c = elim (Option-cases (lookup ℕ_discrete id c.writers)) [
  | inl absent ↦ inr (ground arith, id, ground arith)
  | inr (events, present) ↦ inl (
    ground arith,
    λ q. ground (arith, lookup-insert ℕ_discrete q id (events ++ event ∷ []) c.writers),
  )
]

on_update-cases :
    (u : NetUpdate) (c : Client)
    → let h = on_update clear u c in ((h.1 ≡ none) × ((q : ℕ) → Fits q u c h)) ⊎ Refuses u c h
unfolding on_update reply
on_update-cases ping c = inl (refl, λ q. refl)
on_update-cases (carried (create_device id)) c = on_create-cases id c
on_update-cases (carried (destroy_device id)) c = on_destroy-cases id c
on_update-cases (carried (event_update id event)) c = on_input-cases id event c
on_update-cases (carried (take_control epoch)) c = inl (refl, λ q. refl)

-- Where no call fails, the loop handles a list of updates exactly if each device by itself takes
-- them: then every writer has written, in order, the events that came for its device since it was
-- made. Otherwise the loop ends with `InvalidData`, and some device does not take its updates.
pub run-device :
    (us : List NetUpdate) (c : Client)
    → let h = run (map (received clear) us) c in
      ((h.1 ≡ none)
        × ((q : ℕ)
            → device q us (lookup ℕ_discrete q c.writers) ≡ some (lookup ℕ_discrete q h.0.writers)))
      ⊎ ((h.1 ≡ some (network_error invalid_data))
          × (q : ℕ) × (device q us (lookup ℕ_discrete q c.writers) ≡ none))
unfolding run wake device
run-device [] c = inl (refl, λ q. refl)
run-device (u ∷ us) c = elim (on_update-cases u c) [
  | inl (fine, fits) ↦
      rw (run_goes (received clear u) (map (received clear) us) c fine)
        (elim (run-device us (on_update clear u c).0) [
          | inl (done, all_fit) ↦ inl (done, λ q. rw (device, fits q) (all_fit q))
          | inr (ends, q, bad) ↦ inr (ends, q, rw (device, fits q) bad)
        ])
  | inr (ends, q, bad) ↦ inr (
    ap (λ h. h.1)
        (run_stops (received clear u) (map (received clear) us) c (network_error invalid_data)
          ends),
    q,
    rw (device, bad) refl,
  )
]
