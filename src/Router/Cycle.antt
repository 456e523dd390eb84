-- ===== src/Router/Cycle.antt =====
-- rkvm-master/rkvm-server/src/target.rs: `switch_next` and the order of the peers.
use mathlib.Core.Option
use native.Mathlib.Nat.{mod-add-mod, mod-eq_of_lt, mod-lt}
use nexus_kvm.Base.{
  ℕ, zero, suc, ◌+◌, ◌%◌, ◌^◌, ◌<◌, ok, String, ◌≡◌, refl, sym, ap, subst, ◌∙◌, ◌≢◌, inl, inr, true,
  false, some, List, [], ◌∷◌, arith, length, get_elem?, keep_if, All, All-append, Bool-cases,
  NoRepeat, All-keep_if, NoRepeat-keep_if, All-get, get-range, get-lt-length, keep_if-passes,
  str_dec, holds, NoRepeat-snoc, not,
}
use nexus_kvm.Router.{
  Router, TransitionId, hex_fixed, local_target, is_connected, alloc_transition, insert_peer,
  fail_local, remove_peer, contains, without,
}
use nexus_kvm.Router.Switch.{
  apply_switch, apply_local, cycle, position, next_target, switch_next, finish_chord,
}

-- The peers are listed once each, and none of them is called "local".
abbrev pub IsListed : Router → Type 0
IsListed r = NoRepeat (local_target ∷ r.order)

cycle-NoRepeat : (r : Router) → IsListed r → NoRepeat (cycle r)
unfolding cycle
cycle-NoRepeat r h = (
  All-keep_if (λ y. y ≢ local_target) (is_connected r.peers) r.order h.0,
  NoRepeat-keep_if (is_connected r.peers) r.order h.1,
)

-- With no value twice, the position that is found is the one where the value stands.
position-get :
    (xs : List String) (i : ℕ) (id : String)
    → NoRepeat xs
    → get_elem? xs i ≡ some id
    → position id xs ≡ some i
unfolding position
position-get [] i id h e = cc
position-get (x ∷ xs) zero id h e = ground arith
position-get (x ∷ xs) (suc i) id h e =
    ground (arith, position-get xs i id h.1, All-get (λ y. y ≢ x) xs i id h.0 e)

-- The target after the one at position `i`.
next_target-get :
    (r : Router) (i : ℕ)
    → IsListed r
    → get_elem? (cycle r) i ≡ some r.active
    → get_elem? (cycle r) ((i + 1) % length (cycle r)) ≡ some (next_target r)
unfolding next_target
next_target-get r i h e =
    let bound = get-lt-length (cycle r) i r.active e in
    let (x, at) = get-range (cycle r) ((i + 1) % length (cycle r)) (omega arith) in
    ground (arith, position-get (cycle r) i r.active (cycle-NoRepeat r h) e)

-- A member of the cycle can be switched to.
next_target-connected :
    (r : Router) (j : ℕ) (x : String)
    → get_elem? (cycle r) j ≡ some x
    → x ≢ local_target
    → is_connected r.peers x ≡ true
unfolding cycle
next_target-connected r zero x e away = absurd (away (ground arith))
next_target-connected r (suc j) x e away =
    All-get (λ y. is_connected r.peers y ≡ true) (keep_if (is_connected r.peers) r.order) j x
      (keep_if-passes (is_connected r.peers) r.order) e

-- What a press of the shortcut leaves as it was.
record IsPress (r s : Router) : Type 0 where
  active : s.active ≡ next_target r
  idle : s.busy ≡ false
  order : s.order ≡ r.order
  peers : s.peers ≡ r.peers

-- One press of the shortcut, and its release.
abbrev pub press : Router → Router
press r = finish_chord (switch_next r).0

press-IsPress :
    (r : Router)
    → r.busy ≡ false
    → (next_target r ≢ local_target → is_connected r.peers (next_target r) ≡ true)
    → IsPress r (press r)
unfolding switch_next finish_chord apply_local apply_switch alloc_transition
press-IsPress r idle up = ground arith

pub presses : ℕ → Router → Router
presses zero r = r
presses (suc k) r = presses k (press r)

cycle_of_IsPress : {r s : Router} → IsPress r s → cycle s ≡ cycle r
unfolding cycle
cycle_of_IsPress v = rw (v.order, v.peers)

round_step : (i k n : ℕ) → 0 < n → ((i + 1) % n + k) % n ≡ (i + suc k) % n
round_step i k n h = rw (mod-add-mod (i + 1) n k) (ap (λ t. t % n) (omega arith))

same_place : (i n : ℕ) → i < n → i ≡ (i + 0) % n
same_place i n h = sym (ap (λ t. t % n) (omega arith) ∙ mod-eq_of_lt h)

presses_round :
    (k : ℕ) (r : Router) (i : ℕ)
    → r.busy ≡ false
    → IsListed r
    → get_elem? (cycle r) i ≡ some r.active
    → get_elem? (cycle r) ((i + k) % length (cycle r)) ≡ some (presses k r).active
unfolding presses
presses_round zero r i idle h e =
    let bound = get-lt-length (cycle r) i r.active e in
    subst (λ j. get_elem? (cycle r) j ≡ some r.active) (same_place i (length (cycle r)) bound) e
presses_round (suc k) r i idle h e =
    let n = length (cycle r) in
    let bound = get-lt-length (cycle r) i r.active e in
    let following = next_target-get r i h e in
    let v =
      press-IsPress r idle (next_target-connected r ((i + 1) % n) (next_target r) following) in
    let same = cycle_of_IsPress v in
    let ih =
      presses_round k (press r) ((i + 1) % n) v.idle (rw v.order h)
        (rw (same, v.active) following) in
    subst (λ j. get_elem? (cycle r) j ≡ some (presses k (press r)).active)
      (round_step i k n (omega arith)) (rw same at ih)

-- This machine, and behind it the connected peers in the order of their registration.
abbrev pub round_of : Router → List String
round_of r = local_target ∷ keep_if (is_connected r.peers) r.order

cycle-round_of : (r : Router) → cycle r ≡ round_of r
unfolding cycle
cycle-round_of r = refl

-- Between two calls, with peers that are listed once each: after `k` presses and releases of the
-- shortcut the active target is the one `k` places further in the round of this machine and the
-- connected peers.
pub presses-cycle :
    (k : ℕ) (r : Router) (i : ℕ)
    → r.busy ≡ false
    → IsListed r
    → get_elem? (round_of r) i ≡ some r.active
    → get_elem? (round_of r) ((i + k) % length (round_of r)) ≡ some (presses k r).active
presses-cycle k r i idle h e =
    subst (λ l. get_elem? l ((i + k) % length l) ≡ some (presses k r).active) (cycle-round_of r)
      (presses_round k r i idle h
        (subst (λ l. get_elem? l i ≡ some r.active) (sym (cycle-round_of r)) e))

not-contains : (id : String) (xs : List String) → contains id xs ≡ false → All (λ x. x ≢ id) xs
not-contains id [] h = tt
not-contains id (x ∷ xs) h = ground (arith, not-contains id xs)

-- A peer that registers under a name other than "local" is listed once, also when it was known.
pub insert_peer-IsListed :
    (r : Router) (id address : String)
    → id ≢ local_target
    → IsListed r
    → IsListed (insert_peer r id address)
unfolding insert_peer
insert_peer-IsListed r id address away h = elim (Bool-cases (contains id r.order)) [
  | inl e ↦ rw e h
  | inr e ↦ rw e (
    All-append (λ y. y ≢ local_target) r.order (id ∷ []) h.0 (away, tt),
    NoRepeat-snoc r.order id (not-contains id r.order e) h.1,
  )
]

remove_peer-order : (r : Router) (id : String) → (remove_peer r id).0.order ≡ without id r.order
unfolding remove_peer fail_local
remove_peer-order r id = ground arith

pub remove_peer-IsListed : (r : Router) (id : String) → IsListed r → IsListed (remove_peer r id).0
remove_peer-IsListed r id h = rw (remove_peer-order r id) (
  All-keep_if (λ y. y ≢ local_target) (λ x. not (holds (str_dec x id))) r.order h.0,
  NoRepeat-keep_if (λ x. not (holds (str_dec x id))) r.order h.1,
)

switched :
    (r : Router)
    → r.busy ≡ false
    → (next_target r ≢ local_target → is_connected r.peers (next_target r) ≡ true)
    → (t : TransitionId) × ((switch_next r).1 ≡ ok t)
unfolding switch_next apply_local apply_switch alloc_transition
switched r idle up = (hex_fixed 16 ((r.next_transition + 1) % 2 ^ 64), ground arith)

-- The target that the shortcut picks is a member of the cycle.
next_target-member : (r : Router) → (j : ℕ) × (get_elem? (cycle r) j ≡ some (next_target r))
unfolding next_target cycle
next_target-member r =
    let n = length (cycle r) in
    let i = Option.get_or (position r.active (cycle r)) 0 in
    let j = (i + 1) % n in
    let bound : j < n = mod-lt (i + 1) {m = n} (omega arith) in
    let (x, at) = get-range (cycle r) j bound in (j, ground (arith, at))

-- Between two calls the shortcut never fails: what it picks is this machine or a connected peer.
pub switch_next_ok : (r : Router) → r.busy ≡ false → (t : TransitionId) × ((switch_next r).1 ≡ ok t)
switch_next_ok r idle =
    let (j, at) = next_target-member r in
    switched r idle (next_target-connected r j (next_target r) at)
