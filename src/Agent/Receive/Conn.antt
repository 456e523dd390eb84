-- ===== src/Agent/Receive/Conn.antt =====
-- crates/nexus-agent/src/peer_channel.rs: a line of `handle_conn`. Where the reader stands after a clip
-- that failed is left open: any line may follow.
use nexus_kvm.Base.{
  ℕ, Bool, true, false, Option, none, some, List, [], ◌∷◌, ltb, if◌then◌else◌, Result, ok, err,
  is_empty, length, String,
}
use nexus_kvm.Common.Auth.{Bytes, Crypto, AuthError, AeadEnvelope}
use nexus_kvm.Common.Auth.Replay.{ReplayGuard, check}
use nexus_kvm.Agent.{text_clip, line_max}
use nexus_kvm.Agent.Receive.{
  FilePath, ClipOffer, PeerMessage, IncomingClip, ClipError, PeerCode, clipboard, clip_offer, ack,
  inbox_unavailable,
}
use nexus_kvm.Agent.Receive.Clip.{decode_msg, recv_clip}

-- What a line meets: its bytes, the stream behind it, the time, the inbox and the file system, what
-- the handler of messages returns, and whether the reply is written.
pub record Line : Type 0 where
  pub bytes : Bytes
  pub follows : Bytes
  pub now : ℕ
  pub used : ℕ
  pub creates : FilePath → Bool
  pub outcome : Result (Option String) String
  pub replies : Bool

-- What the agent is told: `on_clip` and `on_msg`.
pub data Act : Type 0 where
  clip_act : IncomingClip → Act
  message_act : PeerMessage → Act

-- The guard that the connections share, what the agent is told, the acknowledgement, and whether the
-- connection goes on.
pub record Answered : Type 0 where
  pub guard : ReplayGuard
  pub acts : List Act
  pub acked : Option PeerMessage
  pub goes_on : Bool

abbrev pub closes : ReplayGuard → Option PeerMessage → Answered
closes g acked = record { guard = g; acts = []; acked = acked; goes_on = false }

-- `write_outcome`
unfoldable pub outcome_ack : Result (Option String) String → PeerMessage
outcome_ack (ok active_target) = ack true active_target none
outcome_ack (err problem) = ack false none (some problem)

unfoldable pub answers : ReplayGuard → Bool → List Act → PeerMessage → Answered
answers g written acts reply = record {
  guard = g;
  acts = acts;
  acked = if written then some reply else none;
  goes_on = written;
}

-- `serde_json::from_slice` of a line that is not too long.
unfoldable pub envelope_of : PeerCode → Line → Option AeadEnvelope
envelope_of code line =
    if is_empty line.bytes
    then none
    else if ltb line_max (length line.bytes)
    then none
    else code.envelope_from line.bytes

module _ (x : Crypto) (code : PeerCode) (password : Bytes) (clip_dir : Option FilePath) where
  unfoldable pub clip_answer :
      ReplayGuard → Line → Result (IncomingClip × Bytes) ClipError → Answered
  unfolding answers
  clip_answer g line (ok (clip, rest)) =
      answers g line.replies (clip_act clip ∷ []) (ack true none none)
  clip_answer g line (err problem) =
      answers g line.replies [] (ack false none (some (code.error_text problem)))

  unfoldable pub on_offer : ReplayGuard → Line → ClipOffer → Answered
  unfolding clip_answer recv_clip
  on_offer g line offer = elim clip_dir [
    | none ↦ clip_answer g line (err inbox_unavailable)
    | some dir ↦
        clip_answer g line
          (recv_clip x code password line.now line.creates line.used dir offer line.follows).result
  ]

  -- The part of the loop of `handle_conn` after the message is decoded.
  unfoldable pub on_message : ReplayGuard → Line → PeerMessage → Answered
  unfolding on_offer answers outcome_ack
  on_message g line (ack succeeded target problem) = record {
    guard = g;
    acts = [];
    acked = none;
    goes_on = true;
  }
  on_message g line (clip_offer offer) = on_offer g line offer
  on_message g line (clipboard seq text) =
      answers g line.replies
        (clip_act (record { kind = text_clip; text = some text; png = none; files = [] }) ∷ [])
        (outcome_ack (ok none))
  on_message g line msg = answers g line.replies (message_act msg ∷ []) (outcome_ack line.outcome)

  unfoldable pub on_checked :
      Line → AeadEnvelope → ReplayGuard × Result (Unit {0}) AuthError → Answered
  unfolding on_message decode_msg
  on_checked line env (g, err problem) = closes g none
  on_checked line env (g, ok fresh) = elim (decode_msg x code password line.now env) [
    | err problem ↦ closes g (some (ack false none (some "unauthorized")))
    | ok msg ↦ on_message g line msg
  ]

  -- A round of the loop of `handle_conn`. A line without an envelope, or with one that is replayed,
  -- closes the connection, with an error in plain text unless it is the end of the stream.
  unfoldable pub handle_line : ReplayGuard → Line → Answered
  unfolding envelope_of on_checked
  handle_line g line = elim (envelope_of code line) [
    | none ↦ closes g none
    | some env ↦ on_checked line env (check x g env)
  ]

  -- The guard after lines of any connections, one after another.
  unfoldable pub guard_after : ReplayGuard → List Line → ReplayGuard
  unfolding handle_line
  guard_after g [] = g
  guard_after g (line ∷ lines) = guard_after (handle_line g line).guard lines
