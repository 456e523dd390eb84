-- ===== src/Server/Rest.antt =====
-- rkvm-master/rkvm-server/src/server.rs: the variables of `run` other than the devices, the clients
-- and the router, through `route_events` and its callers.
use nexus_kvm.Base.{
  ℕ, String, ◌≡◌, refl, ◌∙◌, inl, inr, Bool, Option, List, [], ◌∷◌, if_intro, Option-cases, holds,
  str_dec,
}
use nexus_kvm.Router.{Key, local_target, take_local_warp}
use nexus_kvm.Server.{Event, PendingReady, Server, find_client}
use nexus_kvm.Server.Routing.{
  deliver, route_remote, route_events, is_missing, release_remote, release_of, emit_releases,
  emit_local_warp,
}
use nexus_kvm.Server.Handlers.{warp_home}
use nexus_kvm.Server.Kept.{Delivery-cases}

pub record Rest : Type 0 where
  pub pressed_keys : List Key
  pub chord_active : Bool
  pub pending_ready : Option PendingReady
  pub confirmed_epoch : ℕ

abbrev pub rest : Server → Rest
rest s = record {
  pressed_keys = s.pressed_keys;
  chord_active = s.chord_active;
  pending_ready = s.pending_ready;
  confirmed_epoch = s.confirmed_epoch;
}

rest-route_remote :
    (device : ℕ) (dest : String) (events : List Event) (s : Server)
    → rest (route_remote device dest events s) ≡ rest s
unfolding route_remote
rest-route_remote device dest [] s = refl
rest-route_remote device dest (e ∷ es) s = elim (Option-cases (find_client dest s.clients)) [
  | inl e' ↦ rw (route_remote, e') refl
  | inr (slot, e') ↦ elim (Delivery-cases (deliver device e slot)) [
    | inl (slot', e'') ↦ rw (route_remote, e', e'') (rest-route_remote device dest es _)
    | inr e'' ↦ rw (route_remote, e', e'') refl
  ]
]

pub rest-route_events :
    (device : ℕ) (dest : String) (events : List Event) (s : Server)
    → rest (route_events device dest events s) ≡ rest s
unfolding route_events
rest-route_events device dest events s =
    if_intro (λ (t : Server). rest t ≡ rest s) (holds (str_dec dest local_target)) (λ e. refl)
      (λ e.
        if_intro (λ (t : Server). rest t ≡ rest s) (is_missing (find_client dest s.clients))
          (λ e'. refl) (λ e'. rest-route_remote device dest events s))

rest-release_remote :
    (ids : List ℕ) (k : Key) (dest : String) (s : Server)
    → rest (release_remote ids k dest s) ≡ rest s
unfolding release_remote
rest-release_remote [] k dest s = refl
rest-release_remote (id ∷ ids) k dest s =
    rest-release_remote ids k dest _ ∙ rest-route_events id dest (release_of k) s

pub rest-emit_releases :
    (keys : List (Key × String)) (s : Server) → rest (emit_releases keys s) ≡ rest s
unfolding emit_releases
rest-emit_releases [] s = refl
rest-emit_releases ((k, dest) ∷ keys) s =
    rest-emit_releases keys _
    ∙ if_intro (λ (t : Server). rest t ≡ rest s) (holds (str_dec dest local_target)) (λ e. refl)
        (λ e. rest-release_remote _ k dest s)

pub rest-warp_home : (s : Server) → rest (warp_home s) ≡ rest s
unfolding warp_home emit_local_warp take_local_warp
rest-warp_home s = elim (Option-cases s.router.pending_local_warp) [
  | inl e ↦ rw (warp_home, e) refl
  | inr (x, e) ↦ rw (warp_home, e) refl
]
