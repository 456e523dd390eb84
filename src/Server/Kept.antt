-- ===== src/Server/Kept.antt =====
-- rkvm-master/rkvm-server/src/server.rs: the router through `route_events` and its callers, for any
-- property of routers.
use nexus_kvm.Base.{
  ℕ, String, ◌≡◌, refl, sym, subst, ◌⊎◌, inl, inr, not, ◌&&◌, ◌==◌, List, [], ◌∷◌, if_intro,
  Option-cases, holds, str_dec, arith,
}
use nexus_kvm.Base.Float.{F32}
use nexus_kvm.Base.Int.{ℤ}
use nexus_kvm.Router.{Router, Key, local_target, remove_peer, take_local_warp}
use nexus_kvm.Server.{Event, ClientSlot, Server, find_client}
use nexus_kvm.Server.Routing.{
  note_motion, Delivery, delivered, lost, deliver, route_remote, route_events, is_missing,
  release_remote, release_of, emit_releases, emit_local_warp, emit_warp, find_absolute,
}
use nexus_kvm.Server.Handlers.{arm_ready, is_unset, warp_home, await_ready, settle_handoff}

pub Delivery-cases : (d : Delivery) → ((slot : ClientSlot) × (d ≡ delivered slot)) ⊎ (d ≡ lost)
Delivery-cases (delivered slot) = inl (slot, refl)
Delivery-cases lost = inr refl

module _ (P : Router → Type 0) (keep_motion : (e : Event) (r : Router) → P r → P (note_motion e r))
    (keep_removed : (r : Router) (id : String) → P r → P (remove_peer r id).0) where
  route_remote-kept :
      (device : ℕ) (dest : String) (events : List Event) (s : Server)
      → P s.router
      → P (route_remote device dest events s).router
  unfolding route_remote
  route_remote-kept device dest [] s h = h
  route_remote-kept device dest (e ∷ es) s h =
      let noted = keep_motion e s.router h in
      elim (Option-cases (find_client dest s.clients)) [
        | inl e' ↦ rw (route_remote, e') h
        | inr (slot, e') ↦ elim (Delivery-cases (deliver device e slot)) [
          | inl (slot', e'') ↦ rw (route_remote, e', e'') (route_remote-kept device dest es _ noted)
          | inr e'' ↦ rw (route_remote, e', e'') (keep_removed _ dest noted)
        ]
      ]

  pub route_events-kept :
      (device : ℕ) (dest : String) (events : List Event) (s : Server)
      → P s.router
      → P (route_events device dest events s).router
  unfolding route_events
  route_events-kept device dest events s h =
      if_intro (λ (t : Server). P t.router) (holds (str_dec dest local_target)) (λ e. h)
        (λ e.
          if_intro (λ (t : Server). P t.router) (is_missing (find_client dest s.clients))
            (λ e'. keep_removed s.router dest h) (λ e'. route_remote-kept device dest events s h))

  release_remote-kept :
      (ids : List ℕ) (k : Key) (dest : String) (s : Server)
      → P s.router
      → P (release_remote ids k dest s).router
  unfolding release_remote
  release_remote-kept [] k dest s h = h
  release_remote-kept (id ∷ ids) k dest s h =
      release_remote-kept ids k dest _ (route_events-kept id dest (release_of k) s h)

  pub emit_releases-kept :
      (keys : List (Key × String)) (s : Server) → P s.router → P (emit_releases keys s).router
  unfolding emit_releases
  emit_releases-kept [] s h = h
  emit_releases-kept ((k, dest) ∷ keys) s h = emit_releases-kept keys _ (
      if_intro (λ (t : Server). P t.router) (holds (str_dec dest local_target)) (λ e. h)
        (λ e. release_remote-kept _ k dest s h))

  pub emit_warp-kept :
      (scaled : F32 → ℤ → ℤ → ℤ) (dest : String) (edge : ℕ) (x : F32) (s : Server)
      → P s.router
      → P (emit_warp scaled dest edge x s).router
  unfolding emit_warp
  emit_warp-kept scaled dest edge x s h = elim (Option-cases (find_absolute s.devices)) [
    | inl e ↦ rw (emit_warp, e) h
    | inr ((device, ranges), e) ↦ rw (emit_warp, e) (route_events-kept device dest _ s h)
  ]

  module _ (keep_warp : (r : Router) → P r → P (take_local_warp r).0) where
    pub warp_home-kept : (s : Server) → P s.router → P (warp_home s).router
    unfolding warp_home emit_local_warp take_local_warp
    warp_home-kept s h =
        let taken = keep_warp s.router h in
        elim (Option-cases s.router.pending_local_warp) [
          | inl e ↦ rw e taken
          | inr (x, e) ↦ rw e taken
        ]

    arm_ready-router : (s : Server) → (arm_ready s).0.router ≡ s.router
    unfolding arm_ready
    arm_ready-router s = ground arith

    await_ready-router : (now : ℕ) (s : Server) → (await_ready now s).router ≡ s.router
    unfolding await_ready
    await_ready-router now s = ground (arith, arm_ready-router s)

    pub settle_handoff-kept : (now : ℕ) (s : Server) → P s.router → P (settle_handoff now s).router
    unfolding settle_handoff
    settle_handoff-kept now s h =
        if_intro (λ (t : Server). P t.router) (holds (str_dec s.router.active local_target))
          (λ e. warp_home-kept s h)
          (λ e.
            if_intro (λ (t : Server). P t.router)
              (not (s.router.next_transition == s.confirmed_epoch) && is_unset s.pending_ready)
              (λ e'. subst P (sym (await_ready-router now s)) h) (λ e'. h))
