-- ===== src/Agent/Receive/Lines.antt =====
-- What the lines of a peer can make the agent do: `handle_conn` in
-- crates/nexus-agent/src/peer_channel.rs.
use nexus_kvm.Base.{
  ◌≤◌, ◌<◌, ◌≡◌, ◌≢◌, refl, sym, ◌∙◌, ap, Option, none, some, List, [], ◌∷◌, Result, ok, err,
  length, arith, Option-cases, Result-cases, inl, inr,
}
use nexus_kvm.Common.Auth.{Bytes, Crypto, AuthError, AeadEnvelope, replayed, replay_cap}
use nexus_kvm.Common.Auth.Replay.{ReplayGuard, check, IsValid}
use nexus_kvm.Common.Auth.Replay.Window.{check_all, check-replayed}
use nexus_kvm.Agent.Receive.{
  FilePath, PeerMessage, PeerCode, ClipOffer, IncomingClip, ClipError, inbox_unavailable, ack,
  clip_offer, clipboard, switch_local, ping_message, clip_done,
}
use nexus_kvm.Agent.Receive.Clip.{recv_clip, decode_msg}
use nexus_kvm.Agent.Receive.Conn.{
  Line, closes, clip_answer, on_offer, on_message, on_checked, envelope_of, handle_line,
  guard_after,
}

module _ (x : Crypto) (code : PeerCode) (password : Bytes) (clip_dir : Option FilePath) where
  clip_answer-guard :
      (g : ReplayGuard) (line : Line) (r : Result (IncomingClip × Bytes) ClipError)
      → (clip_answer x code password clip_dir g line r).guard ≡ g
  unfolding clip_answer
  clip_answer-guard g line (ok (clip, rest)) = refl
  clip_answer-guard g line (err problem) = refl

  on_offer-guard :
      (g : ReplayGuard) (line : Line) (offer : ClipOffer) (o : Option FilePath)
      → clip_dir ≡ o
      → (on_offer x code password clip_dir g line offer).guard ≡ g
  unfolding on_offer
  on_offer-guard g line offer none e =
      rw (on_offer, e) (clip_answer-guard g line (err inbox_unavailable))
  on_offer-guard g line offer (some dir) e =
      rw (on_offer, e)
        (clip_answer-guard g line
          (recv_clip x code password line.now line.creates line.used dir offer line.follows).result)

  on_message-guard :
      (g : ReplayGuard) (line : Line) (msg : PeerMessage)
      → (on_message x code password clip_dir g line msg).guard ≡ g
  unfolding on_message
  on_message-guard g line (ack succeeded target problem) = refl
  on_message-guard g line (clip_offer offer) = on_offer-guard g line offer clip_dir refl
  on_message-guard g line (clipboard seq text) = refl
  on_message-guard g line (clip_done id sha) = refl
  on_message-guard g line switch_local = refl
  on_message-guard g line ping_message = refl

  on_checked-guard :
      (line : Line) (env : AeadEnvelope) (g : ReplayGuard) (r : Result (Unit {0}) AuthError)
      → (on_checked x code password clip_dir line env (g, r)).guard ≡ g
  unfolding on_checked
  on_checked-guard line env g (err problem) = refl
  on_checked-guard line env g (ok fresh) =
      elim (Result-cases (decode_msg x code password line.now env)) [
        | inl (msg, e) ↦ rw (on_checked, e) (on_message-guard g line msg)
        | inr (problem, e) ↦ rw (on_checked, e) refl
      ]

  -- The envelopes among the lines.
  unfoldable pub envelopes : List Line → List AeadEnvelope
  envelopes [] = []
  envelopes (line ∷ lines) = elim (envelope_of code line) [
    | none ↦ envelopes lines
    | some env ↦ env ∷ envelopes lines
  ]

  handle_line-envelope :
      (g : ReplayGuard) (line : Line) (env : AeadEnvelope)
      → envelope_of code line ≡ some env
      → handle_line x code password clip_dir g line
        ≡ on_checked x code password clip_dir line env (check x g env)
  unfolding handle_line
  handle_line-envelope g line env e = rw (handle_line, e) refl

  handle_line-guard :
      (g : ReplayGuard) (line : Line) (env : AeadEnvelope)
      → envelope_of code line ≡ some env
      → (handle_line x code password clip_dir g line).guard ≡ (check x g env).0
  handle_line-guard g line env e =
      ap (λ a. a.guard) (handle_line-envelope g line env e)
      ∙ on_checked-guard line env (check x g env).0 (check x g env).1

  handle_line-no_envelope :
      (g : ReplayGuard) (line : Line)
      → envelope_of code line ≡ none
      → handle_line x code password clip_dir g line ≡ closes g none
  unfolding handle_line
  handle_line-no_envelope g line e = rw (handle_line, e) refl

  envelopes-none :
      (line : Line) (lines : List Line)
      → envelope_of code line ≡ none
      → envelopes (line ∷ lines) ≡ envelopes lines
  unfolding envelopes
  envelopes-none line lines e = rw (envelopes, e) refl

  envelopes-some :
      (line : Line) (lines : List Line) (env : AeadEnvelope)
      → envelope_of code line ≡ some env
      → envelopes (line ∷ lines) ≡ env ∷ envelopes lines
  unfolding envelopes
  envelopes-some line lines env e = rw (envelopes, e) refl

  guard_after-check_all :
      (g : ReplayGuard) (lines : List Line)
      → guard_after x code password clip_dir g lines ≡ check_all x g (envelopes lines)
  unfolding guard_after check_all
  guard_after-check_all g [] = unfold envelopes in refl
  guard_after-check_all g (line ∷ lines) = elim (Option-cases (envelope_of code line)) [
    | inl e ↦
        ap (λ a. guard_after x code password clip_dir a.guard lines)
          (handle_line-no_envelope g line e)
        ∙ guard_after-check_all g lines
        ∙ ap (check_all x g) (sym (envelopes-none line lines e))
    | inr (env, e) ↦
        ap (λ t. guard_after x code password clip_dir t lines) (handle_line-guard g line env e)
        ∙ guard_after-check_all (check x g env).0 lines
        ∙ ap (check_all x g) (sym (envelopes-some line lines env e))
  ]

  length-envelopes : (lines : List Line) → length (envelopes lines) ≤ length lines
  unfolding envelopes
  length-envelopes [] = omega arith
  length-envelopes (line ∷ lines) = ground (arith, length-envelopes lines)

  on_checked-acts :
      (line : Line) (env : AeadEnvelope) (g : ReplayGuard) (r : Result (Unit {0}) AuthError)
      → (on_checked x code password clip_dir line env (g, r)).acts ≢ []
      → (r ≡ ok tt) × (msg : PeerMessage) × (decode_msg x code password line.now env ≡ ok msg)
  unfolding on_checked
  on_checked-acts line env g (err problem) acts = absurd (acts refl)
  on_checked-acts line env g (ok fresh) acts =
      elim (Result-cases (decode_msg x code password line.now env)) [
        | inl (msg, e) ↦ (refl, msg, e)
        | inr (problem, e) ↦ absurd (acts (rw (on_checked, e) refl))
      ]

  -- A line makes the agent act only if it holds an envelope whose nonce the guard did not know, and
  -- which opens under the password, at its time, to a message.
  pub handle_line-acts :
      (g : ReplayGuard) (line : Line)
      → (handle_line x code password clip_dir g line).acts ≢ []
      → (env : AeadEnvelope) × (envelope_of code line ≡ some env)
        × ((check x g env).1 ≡ ok tt)
        × (msg : PeerMessage) × (decode_msg x code password line.now env ≡ ok msg)
  handle_line-acts g line acts = elim (Option-cases (envelope_of code line)) [
    | inl e ↦ absurd (acts (ap (λ a. a.acts) (handle_line-no_envelope g line e)))
    | inr (env, e) ↦
        let (fresh, msg, opened) =
          on_checked-acts line env (check x g env).0 (check x g env).1 (λ none_made.
            acts (ap (λ a. a.acts) (handle_line-envelope g line env e) ∙ none_made)) in
        (env, e, fresh, msg, opened)
  ]

  on_checked_refused :
      (line : Line) (env : AeadEnvelope) (p : ReplayGuard × Result (Unit {0}) AuthError)
      → p.1 ≡ err replayed
      → (on_checked x code password clip_dir line env p).acts ≡ []
  unfolding on_checked
  on_checked_refused line env (g, err problem) h = refl
  on_checked_refused line env (g, ok fresh) h = cc

  envelope_of-bytes :
      (line again : Line)
      → again.bytes ≡ line.bytes
      → envelope_of code again ≡ envelope_of code line
  unfolding envelope_of
  envelope_of-bytes line again same = ap (λ b. envelope_of code (record line { bytes = b })) same

  -- A line that made the agent act makes it act no more when its bytes come again, on any
  -- connection, at any time, within fewer than 8192 further lines.
  pub handle_line-again :
      (g : ReplayGuard) (line again : Line) (lines : List Line)
      → IsValid g
      → (handle_line x code password clip_dir g line).acts ≢ []
      → again.bytes ≡ line.bytes
      → length lines < replay_cap
      → (handle_line x code password clip_dir
          (guard_after x code password clip_dir
            (handle_line x code password clip_dir g line).guard
            lines)
          again).acts
        ≡ []
  handle_line-again g line again lines v acts same few =
      let (env, e, fresh, _, _) = handle_line-acts g line acts in
      let came = envelope_of-bytes line again same ∙ e in
      let g' =
        guard_after x code password clip_dir (handle_line x code password clip_dir g line).guard
          lines in
      let reached : g' ≡ check_all x (check x g env).0 (envelopes lines) =
        guard_after-check_all (handle_line x code password clip_dir g line).guard lines
        ∙ ap (λ t. check_all x t (envelopes lines)) (handle_line-guard g line env e) in
      let refused =
        check-replayed x g env (envelopes lines) v fresh (omega (arith, length-envelopes lines)) in
      ap (λ a. a.acts) (handle_line-envelope g' again env came)
      ∙ on_checked_refused again env (check x g' env)
          (ap (λ t. (check x t env).1) reached ∙ refused)
