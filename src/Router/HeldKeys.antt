-- ===== src/Router/HeldKeys.antt =====
-- rkvm-master/rkvm-server/src/target.rs: `note_key` and `release_all` over the held keys.
use mathlib.Core.List.{Perm, perm_middle}
use mathlib.Core.List.Perm
use nexus_kvm.Base.{
  String, ◌≡◌, refl, ◌∙◌, ◌≢◌, inl, inr, Bool, true, false, Option, none, some, List, [], ◌∷◌, ◌++◌,
  arith, ok, keep_if, not, Bool-cases, All, keep_if-passes,
}
use nexus_kvm.Base.Dict.{lookup, lookup-insert, lookup-remove}
use nexus_kvm.Base.Int.{ℤ}
use nexus_kvm.Router.{
  Router, Key, key_dec, Warp, event_target, insert_peer, note_remote_motion, take_local_warp,
  alloc_transition,
}
use nexus_kvm.Router.Switch.{
  prepare, take_warp, apply_switch, apply_local, switch_next, finish_chord,
}
use nexus_kvm.Router.Keys.{note_key, release_all, goes_to}

-- What may happen between the press and the release of a key while the key stays held.
pub data Between : Type 0 where
  key_event : Key → Bool → Between
  switches : String → Bool → Between
  shortcut : Between
  chord_ends : Between
  prepared : String → Option Warp → Between
  moves : ℤ → ℤ → Between
  registers : String → String → Between
  warps_taken : Between

unfoldable pub between : Between → Router → Router
between (key_event k down) r = (note_key r k down).0
between (switches id chord) r = (apply_switch r id chord).0
between shortcut r = (switch_next r).0
between chord_ends r = finish_chord r
between (prepared id w) r = (prepare r id w).0
between (moves dx dy) r = note_remote_motion r dx dy
between (registers id address) r = insert_peer r id address
between warps_taken r = (take_warp (take_local_warp r).0).0

-- The event is not about the key `k`.
abbrev pub Spares : Key → Between → Type 0
Spares k (key_event j down) = j ≢ k
Spares k _ = Unit

pub between_all : List Between → Router → Router
between_all [] r = r
between_all (b ∷ bs) r = between_all bs (between b r)

between-held :
    (k : Key) (b : Between) (r : Router)
    → Spares k b
    → lookup key_dec k (between b r).held_keys ≡ lookup key_dec k r.held_keys
unfolding between note_key apply_switch switch_next apply_local finish_chord prepare
    note_remote_motion insert_peer take_warp take_local_warp alloc_transition
between-held k (key_event j true) r h =
    ground (arith, lookup-insert key_dec k j (event_target r) r.held_keys)
between-held k (key_event j false) r h = ground (arith, lookup-remove key_dec k j r.held_keys)
between-held k (switches id chord) r h = ground arith
between-held k shortcut r h = ground arith
between-held k chord_ends r h = refl
between-held k (prepared id w) r h = ground arith
between-held k (moves dx dy) r h = ground arith
between-held k (registers id address) r h = refl
between-held k warps_taken r h = refl

between_all-held :
    (k : Key) (bs : List Between) (r : Router)
    → All (Spares k) bs
    → lookup key_dec k (between_all bs r).held_keys ≡ lookup key_dec k r.held_keys
unfolding between_all
between_all-held k [] r h = refl
between_all-held k (b ∷ bs) r h = between_all-held k bs (between b r) h.1 ∙ between-held k b r h.0

-- Whatever comes between of other keys, switches to peers, presses and releases of the shortcut,
-- preparations, motions, registrations and warps that are taken, the release of a key gives the machine
-- that it was pressed on, and a second release gives none. Commands that hand the held keys over, and
-- the loss of a peer, are not among these.
pub note_key-destination :
    (r : Router) (k : Key) (bs : List Between)
    → All (Spares k) bs
    → let (r', dest) = note_key (between_all bs (note_key r k true).0) k false in
      (dest ≡ some (event_target r)) × ((note_key r' k false).1 ≡ none)
unfolding note_key
note_key-destination r k bs h =
    let pressed = (note_key r k true).0 in
    let later = between_all bs pressed in
    ground (
      arith,
      between_all-held k bs pressed h,
      lookup-insert key_dec k k (event_target r) r.held_keys,
      lookup-remove key_dec k k later.held_keys,
    )

split-perm {ℓ} :
    {A : Type ℓ} (p : A → Bool) (xs : List A)
    → Perm xs (keep_if p xs ++ keep_if (λ x. not (p x)) xs)
split-perm p [] = Perm.refl []
split-perm p (x ∷ xs) = elim (Bool-cases (p x)) [
  | inl e ↦ rw e (Perm.cons x (split-perm p xs))
  | inr e ↦ rw e (
      Perm.trans (Perm.cons x (split-perm p xs))
        (Perm.symm (perm_middle (keep_if p xs) (keep_if (λ y. not (p y)) xs))))
]

-- What a release for the peer `id` does: the keys that are handed over and those that stay are
-- together the keys that were held, the former were all pressed on `id`, the latter all elsewhere.
pub record IsReleased (id : String) (before out kept : List (Key × String)) : Type 0 where
  pub all : Perm before (out ++ kept)
  pub theirs : All (λ e. goes_to id e ≡ true) out
  pub others : All (λ e. not (goes_to id e) ≡ true) kept

released_parts :
    (r : Router) (id : String) (out : List (Key × String))
    → (release_all r (some id)).1 ≡ ok out
    → (out ≡ keep_if (goes_to id) r.held_keys)
      × ((release_all r (some id)).0.held_keys ≡ keep_if (λ e. not (goes_to id e)) r.held_keys)
unfolding release_all
released_parts r id out h = ground arith

-- A release by peer that succeeds splits the held keys by the machine that they were pressed on.
pub release_all-IsReleased :
    (r : Router) (id : String) (out : List (Key × String))
    → (release_all r (some id)).1 ≡ ok out
    → IsReleased id r.held_keys out (release_all r (some id)).0.held_keys
release_all-IsReleased r id out h =
    let (first, second) = released_parts r id out h in
    rw (first, second)
      (record {
        all = split-perm (goes_to id) r.held_keys;
        theirs = keep_if-passes (goes_to id) r.held_keys;
        others = keep_if-passes (λ e. not (goes_to id e)) r.held_keys;
      })
