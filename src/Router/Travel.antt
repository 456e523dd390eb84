-- ===== src/Router/Travel.antt =====
-- rkvm-master/rkvm-server/src/target.rs: `note_remote_motion` and `peer_return_allowed`, with the sum
-- in `f32` beside the exact distance.
use nexus_kvm.Base.{
  ℕ, zero, suc, ◌+◌, ◌≤◌, ◌<◌, String, ◌≡◌, refl, sym, ap, ap₂, ◌∙◌, ◌≢◌, ◌⊎◌, inl, inr, true,
  false, Option, some, List, [], ◌∷◌, arith, ltb, leb, if◌then◌else◌, Bool-cases,
}
use nexus_kvm.Base.Float.{round_f32, round_f32_exact, round_f32_large}
use nexus_kvm.Base.Int.{ℤ, pos_part, neg_i32}
use nexus_kvm.Router.{
  Router, Warp, local_target, inward, note_remote_motion, is_connected, peer_return_allowed,
  remote_return_min_px, alloc_transition,
}
use nexus_kvm.Router.Switch.{
  prepare, switch_to, apply_switch, apply_local, switch_local_from_peer, crossed_edge,
}

-- A sequence of motions, in the order of their arrival.
pub note_motions : Router → List (ℤ × ℤ) → Router
note_motions r [] = r
note_motions r ((dx, dy) ∷ ms) = note_motions (note_remote_motion r dx dy) ms

-- The exact distance that the motions go away from the edge, in pixels.
abbrev pub travel : Option ℕ → List (ℤ × ℤ) → ℕ
travel edge [] = 0
travel edge ((dx, dy) ∷ ms) = pos_part (inward edge dx dy) + travel edge ms

-- One motion of `px` pixels on the sum.
gain : ℕ → ℕ → ℕ
gain acc px = if ltb 0 px then round_f32 (acc + round_f32 px) else acc

pub gains : ℕ → Option ℕ → List (ℤ × ℤ) → ℕ
gains acc edge [] = acc
gains acc edge ((dx, dy) ∷ ms) = gains (gain acc (pos_part (inward edge dx dy))) edge ms

note_remote_motion-gain :
    (r : Router) (dx dy : ℤ)
    → r.active ≢ local_target
    → note_remote_motion r dx dy ≡ record r {
      remote_inward_px = gain r.remote_inward_px (pos_part (inward r.return_edge dx dy));
    }
unfolding note_remote_motion gain
note_remote_motion-gain r dx dy away = ground arith

pub note_motions-gains :
    (r : Router) (ms : List (ℤ × ℤ))
    → r.active ≢ local_target
    → note_motions r ms ≡ record r { remote_inward_px = gains r.remote_inward_px r.return_edge ms }
unfolding note_motions gains
note_motions-gains r [] away = refl
note_motions-gains r ((dx, dy) ∷ ms) away =
    ap (λ s. note_motions s ms) (note_remote_motion-gain r dx dy away)
    ∙ note_motions-gains
        (record r {
          remote_inward_px = gain r.remote_inward_px (pos_part (inward r.return_edge dx dy));
        })
        ms away

-- The sum is exact below 2 ^ 24, and stays at or above 2 ^ 24 once the distance does.
abbrev Tracks : ℕ → ℕ → Type 0
Tracks acc exact = ((exact < 0x1000000) × (acc ≡ exact)) ⊎ ((0x1000000 ≤ exact) × (0x1000000 ≤ acc))

round_f32-Tracks : (n : ℕ) → Tracks (round_f32 n) n
round_f32-Tracks n = elim (Bool-cases (ltb n 0x1000000)) [
  | inl h ↦ inl (ground arith, round_f32_exact n (ground arith))
  | inr h ↦ inr (ground arith, round_f32_large n (ground arith))
]

gain-Tracks : (acc exact px : ℕ) → Tracks acc exact → Tracks (gain acc px) (exact + px)
unfolding gain
gain-Tracks acc exact px t =
    ground (arith, round_f32-Tracks px, round_f32-Tracks (acc + round_f32 px))

gains-Tracks :
    (acc exact : ℕ) (edge : Option ℕ) (ms : List (ℤ × ℤ))
    → Tracks acc exact
    → Tracks (gains acc edge ms) (exact + travel edge ms)
unfolding gains
gains-Tracks acc exact edge [] t = ground arith
gains-Tracks acc exact edge ((dx, dy) ∷ ms) t =
    let px = pos_part (inward edge dx dy) in
    ground (arith, gains-Tracks (gain acc px) (exact + px) edge ms (gain-Tracks acc exact px t))

-- Rounding in `f32` never changes the answer: after any motions on a peer that was entered through
-- an edge, a return is allowed exactly when the exact travel away from that edge is 60 pixels.
pub peer_return_allowed-travel :
    (r : Router) (e : ℕ) (ms : List (ℤ × ℤ))
    → r.active ≢ local_target
    → r.return_edge ≡ some e
    → r.remote_inward_px ≡ 0
    → peer_return_allowed (note_motions r ms) ≡ leb remote_return_min_px (travel (some e) ms)
unfolding peer_return_allowed
peer_return_allowed-travel r e ms away edge fresh =
    rw (note_motions-gains r ms away, edge, fresh)
      (ground (arith, gains-Tracks 0 0 (some e) ms (inl (omega arith, refl))))

-- A peer just entered through an edge.
abbrev pub enter : Router → String → Warp → Router
enter r id w = (switch_to (prepare r id (some w)).0 id).0

pub record IsEntered (s : Router) (id : String) (edge : ℕ) : Type 0 where
  pub active : s.active ≡ id
  pub idle : s.busy ≡ false
  pub crossed : s.return_edge ≡ some edge
  pub fresh : s.remote_inward_px ≡ 0

pub enter-IsEntered :
    (r : Router) (id : String) (w : Warp)
    → r.busy ≡ false
    → is_connected r.peers id ≡ true
    → IsEntered (enter r id w) id (crossed_edge w.0)
unfolding prepare apply_switch
enter-IsEntered r id w idle up = ground arith

-- A return of the peer is decided by `peer_return_allowed` alone.
returned_active :
    (s : Router)
    → s.busy ≡ false
    → s.active ≢ local_target
    → (switch_local_from_peer s).0.active
      ≡ (if peer_return_allowed s then local_target else s.active)
unfolding switch_local_from_peer apply_local alloc_transition
returned_active s idle away = ground arith

-- How far motions go from the edge of the peer's screen through which the pointer came: right from the
-- left edge (0), left from the right one (1), down from the top one (2), up from the bottom one.
abbrev pub away_by : ℕ → ℤ → ℤ → ℤ
away_by zero dx dy = dx
away_by (suc zero) dx dy = neg_i32 dx
away_by (suc (suc zero)) dx dy = dy
away_by (suc (suc (suc e))) dx dy = neg_i32 dy

abbrev pub away_from : ℕ → List (ℤ × ℤ) → ℕ
away_from entry [] = 0
away_from entry ((dx, dy) ∷ ms) = pos_part (away_by entry dx dy) + away_from entry ms

inward-crossed :
    (entry : ℕ) (dx dy : ℤ) → inward (some (crossed_edge entry)) dx dy ≡ away_by entry dx dy
unfolding inward crossed_edge
inward-crossed zero dx dy = refl
inward-crossed (suc zero) dx dy = refl
inward-crossed (suc (suc zero)) dx dy = refl
inward-crossed (suc (suc (suc e))) dx dy = refl

travel-crossed :
    (entry : ℕ) (ms : List (ℤ × ℤ)) → travel (some (crossed_edge entry)) ms ≡ away_from entry ms
travel-crossed entry [] = refl
travel-crossed entry ((dx, dy) ∷ ms) =
    ap₂ (λ a b. pos_part a + b) (inward-crossed entry dx dy) (travel-crossed entry ms)

-- The whole path of an edge crossing: after `prepare` with the entry edge and `switch_to`, the
-- peer's request for a return takes control back to this machine exactly when the motions since
-- then went 60 pixels or more away from the entry edge, counted without the motions towards it;
-- otherwise the peer keeps control.
pub switch_local_from_peer-travel :
    (r : Router) (id : String) (w : Warp) (ms : List (ℤ × ℤ))
    → r.busy ≡ false
    → is_connected r.peers id ≡ true
    → id ≢ local_target
    → (switch_local_from_peer (note_motions (enter r id w) ms)).0.active
      ≡ (if leb 60 (away_from w.0 ms) then local_target else id)
switch_local_from_peer-travel r id w ms idle up away =
    let s = enter r id w in
    let v = enter-IsEntered r id w idle up in
    let away' : s.active ≢ local_target = λ e. away (sym v.active ∙ e) in
    let same = note_motions-gains s ms away' in
    let kept : (note_motions s ms).active ≡ id = ap (λ t. t.active) same ∙ v.active in
    returned_active (note_motions s ms) (ap (λ t. t.busy) same ∙ v.idle) (λ e. away (sym kept ∙ e))
    ∙ ap₂ (λ b t. if b then local_target else t)
        (peer_return_allowed-travel s (crossed_edge w.0) ms away' v.crossed v.fresh
          ∙ ap (λ n. leb 60 n) (travel-crossed w.0 ms))
        kept
