-- ===== src/Daemon/Controller/Methods.antt =====
-- crates/nexus-daemon/src/controller.rs: the methods that call the transport.
use nexus_kvm.Base.{
  ℕ, String, Bool, true, false, not, ◌&&◌, ◌||◌, Option, none, some, List, [], ◌∷◌, if◌then◌else◌,
  holds, Result, ok, err, str_dec,
}
use nexus_kvm.Base.Float.{F32}
use nexus_kvm.Router.{local_target}
use nexus_kvm.Common.Model.{
  PeerId, Peer, Edge, EntryPoint, local, preparing_remote, remote, returning_local, recovering,
  AppStatus,
}
use nexus_kvm.Common.Geometry.{entry_for}
use nexus_kvm.Daemon.Transport.{
  DaemonError, no_peer_for_edge, no_peer_to_switch, unavailable, in_progress, Answer,
  InputTransport,
}
use nexus_kvm.Daemon.Controller.{
  Controller, agent_ttl, edge_containment, nil_id, status_connected, in_transition, was_returning,
  state_for_active, heal_transition, collect, is_alive, mark_transition, with_latencies, within,
}

-- A transition's id, or an error.
abbrev pub Moved : Type 0
Moved = Result ℕ DaemonError

abbrev is_home : PeerId → Bool
is_home active = holds (str_dec active local_target)

-- Control is at `active`, by the transport's own word.
abbrev pub settle_at : {W : Type 0} → PeerId → Controller W → Controller W
settle_at active c = record c { active_target = active; state = state_for_active active }

abbrev pub settle_home : {W : Type 0} → Controller W → Controller W
settle_home c = record c { active_target = local_target; state = local }

-- `peers.values().find(|p| p.status == Connected).map(|p| p.id.clone())`
unfoldable pub first_connected : List (PeerId × Peer) → Option PeerId
first_connected [] = none
first_connected ((id, p) ∷ ps) =
    let rest = first_connected ps in if status_connected p then some p.id else rest

module _ (t : InputTransport) where
  unfoldable pub refresh_peers : Controller t.World → Controller t.World × Answer
  refresh_peers c = elim (t.peers c.transport) [
    | err e ↦ (c, err e)
    | ok ps ↦ (record c { peers = collect [] ps }, ok tt)
  ]

  unfoldable pub ensure_local_transport : Controller t.World → Controller t.World × Bool
  ensure_local_transport c =
      let active = t.active_target c.transport in
      let released = t.release_all c.transport none in
      let moving = t.activate_local released.0 in
      let c' = record c { transport = moving.0 } in
      if is_home active
      then (settle_home c, true)
      else elim moving.1 [ ok u ↦ (settle_home c', true) | err e ↦ (settle_at active c', false) ]

  -- The end of `sync_target`: a state that was returning, or a target that is not alive, is forced
  -- to local.
  unfoldable pub force_local : PeerId → Bool → Controller t.World → Controller t.World
  force_local active returning c =
      if not (is_home active) && (returning || not (is_alive c.peers active))
      then (ensure_local_transport c).0
      else c

  unfoldable pub sync_target : Controller t.World → Controller t.World × Answer
  sync_target c =
      let active = t.active_target c.transport in
      let returning = was_returning c.state in
      let (c', answer) =
        refresh_peers (heal_transition active (record c { active_target = active })) in
      elim answer [ err e ↦ (c', err e) | ok u ↦ (force_local active returning c', ok tt) ]

  unfoldable pub status : ℕ → Controller t.World → Controller t.World × AppStatus
  status now c =
      let active = t.active_target c.transport in
      let c' = heal_transition active (record c { active_target = active }) in
      (
        c',
        record {
          state = c'.state;
          active_target = active;
          peers = with_latencies (t.latencies c.transport) c'.peers;
          agent_connected = within now agent_ttl c'.last_heartbeat;
          portal_available = c'.portal_available;
          emergency_shortcut = "Left Alt + Left Ctrl";
        },
      )

  -- The part of `switch_locked` after `prepare` succeeded.
  unfoldable pub activate_locked : ℕ → ℕ → PeerId → Controller t.World → Controller t.World × Moved
  activate_locked id now peer c =
      let (w, activated) = t.activate c.transport peer in
      let back = (t.activate_local w).0 in
      elim activated [
        | err e ↦ (record c { transport = back; state = local }, err e)
        | ok u ↦ (
          record (mark_transition now c) {
            transport = w;
            active_target = peer;
            state = remote peer id;
          },
          ok id,
        )
      ]

  unfoldable pub switch_locked :
      ℕ → ℕ → PeerId → EntryPoint → Controller t.World → Controller t.World × Moved
  switch_locked id now peer entry c =
      let (w, prepared) = t.prepare c.transport peer entry in
      elim prepared [
        | err e ↦ (record c { transport = w; state = state_for_active (t.active_target w) }, err e)
        | ok u ↦
            activate_locked id now peer
              (record c { transport = w; state = preparing_remote peer id })
      ]

  -- The part of `switch_edge` after `sync_target` succeeded.
  unfoldable pub cross_edge : ℕ → ℕ → Edge → F32 → Controller t.World → Controller t.World × Moved
  cross_edge id now side position c =
      if not (is_home (t.active_target c.transport))
      then (c, ok nil_id)
      else if within now edge_containment c.last_transition_at
      then (c, ok nil_id)
      else elim (first_connected c.peers) [
        | none ↦ (c, err no_peer_for_edge)
        | some peer ↦ switch_locked id now peer (entry_for side position) c
      ]

  unfoldable pub switch_edge : ℕ → ℕ → Edge → F32 → Controller t.World → Controller t.World × Moved
  switch_edge id now side position c =
      let (c', answer) = sync_target c in
      elim answer [ err e ↦ (c', err e) | ok u ↦ cross_edge id now side position c' ]

  -- The end of `switch_to`: the target must be connected, and no transition in progress.
  unfoldable pub switch_checked :
      ℕ → ℕ → PeerId → EntryPoint → Controller t.World → Controller t.World × Moved
  switch_checked id now peer entry c =
      if not (is_alive c.peers peer)
      then (c, err (unavailable peer))
      else if in_transition c.state
      then (c, err in_progress)
      else switch_locked id now peer entry c

  unfoldable pub switch_to :
      ℕ → ℕ → PeerId → EntryPoint → Controller t.World → Controller t.World × Moved
  switch_to id now peer entry c =
      let refreshed = (refresh_peers c).0 in
      let active = t.active_target refreshed.transport in
      let returning = was_returning refreshed.state in
      let c' = heal_transition active (record refreshed { active_target = active }) in
      let forced = returning || (not (is_home active) && not (is_alive c'.peers active)) in
      switch_checked id now peer entry (if forced then (ensure_local_transport c').0 else c')

  -- The part of `next` after `sync_target` and the transport's `next` succeeded.
  unfoldable pub note_next : ℕ → ℕ → PeerId → Controller t.World → Controller t.World × Moved
  note_next id now before c =
      let active = t.active_target c.transport in
      let c' = settle_at active (mark_transition now c) in
      if holds (str_dec active before)
      then (if is_home active then (c', err no_peer_to_switch) else (c', ok nil_id))
      else (c', ok id)

  unfoldable pub next : ℕ → ℕ → Controller t.World → Controller t.World × Moved
  next id now c =
      let (c', answer) = sync_target c in
      let before = t.active_target c'.transport in
      let (w, moved) = t.next c'.transport in
      elim answer [
        | err e ↦ (c', err e)
        | ok u ↦ elim moved [
          | err e ↦ (record c' { transport = w }, err e)
          | ok v ↦ note_next id now before (record c' { transport = w })
        ]
      ]

  -- The release of the keys of the machine that loses control; all keys if that is refused.
  unfoldable pub release_current : PeerId → t.World → t.World
  release_current current w =
      let (w', released) = t.release_all w (some current) in
      let all = (t.release_all w' none).0 in
      if is_home current then w else elim released [ ok u ↦ w' | err e ↦ all ]

  -- The two ends of `local` and `recover`: `arrive` on success, `settle_at` on an error.
  unfoldable pub go_local :
      ℕ
      → ℕ
      → (Controller t.World → Controller t.World)
      → Controller t.World
      → Controller t.World × Moved
  go_local id now arrive c =
      let (w, moved) = t.activate_local c.transport in
      let c' = record c { transport = w } in
      elim moved [
        | err e ↦ (settle_at (t.active_target w) c', err e)
        | ok u ↦ (arrive (settle_home (mark_transition now c')), ok id)
      ]

  -- `local`
  unfoldable pub take_local : ℕ → ℕ → Controller t.World → Controller t.World × Moved
  take_local id now c =
      let w = release_current (t.active_target c.transport) c.transport in
      go_local id now (λ c'. (refresh_peers c').0)
        (record c { transport = w; state = returning_local id })

  unfoldable pub local_from_peer : ℕ → ℕ → Controller t.World → Controller t.World × Moved
  local_from_peer id now c =
      let (w, moved) = t.local_from_peer c.transport in
      let c' = record c { transport = w } in
      let active = t.active_target w in
      if is_home (t.active_target c.transport) then (c, ok id) else elim moved [
        | err e ↦ (settle_at active c', err e)
        | ok u ↦ (
          if is_home active
              then (refresh_peers (settle_home (mark_transition now c'))).0
              else settle_at active c',
          ok id,
        )
      ]

  -- `recover`; the transition id of its result is not part of the answer.
  unfoldable pub recover : ℕ → String → Controller t.World → Controller t.World × Moved
  recover now reason c =
      let w = (t.release_all c.transport none).0 in
      go_local nil_id now (λ c'. c') (record c { transport = w; state = recovering reason })

  unfoldable pub release_all : ℕ → Controller t.World → Controller t.World × Moved
  release_all now c = recover now "release_all" c
