-- ===== src/Agent/Send/Received.antt =====
-- A clip in memory that `send_clip` sends and `recv_clip` receives.
use mathlib.Core.List.{append_assoc}
use nexus_kvm.Base.{
  ℕ, zero, suc, ◌+◌, ◌≤◌, ◌<◌, ◌≡◌, ◌≢◌, inl, inr, refl, ◌∙◌, Bool, true, false, some, none, [],
  ◌∷◌, ◌++◌, ltb, leb, ◌==◌, ok, err, is_empty, length, length-append, arith, All, holds,
  Bool-cases, Result-cases,
}
use nexus_kvm.Daemon.Ipc.{read_until}
use nexus_kvm.Common.Auth.{
  Bytes, Crypto, AeadEnvelope, secret_ok, seal, open_envelope, aead_nonce_len, aead_ts_skew_secs,
  abs_diff,
}
use nexus_kvm.Common.Auth.Sealing.{open-seal}
use nexus_kvm.Agent.{line_max, text_clip, clip_inbox_cap, clip_max_text, kind_max}
use nexus_kvm.Common.Auth.Replay.{bytes_dec}
use nexus_kvm.Agent.Stream.{write_aead_bytes}
use nexus_kvm.Agent.Stream.Rounds.{read_aead_bytes_any}
use nexus_kvm.Agent.Stream.Contents.{read_aead_bytes-write_aead_bytes}
use nexus_kvm.Agent.Paths.{Text}
use nexus_kvm.Agent.Receive.{FilePath, PeerCode, PeerMessage, ClipOffer, clip_done}
use nexus_kvm.Agent.Receive.Clip.{
  read_signed_line, decode_msg, verify_done, done_for, recv_body, recv_clip, recv_kind, recv_text,
  in_memory,
}
use nexus_kvm.Agent.Send.{
  SendCode, ◌>>=◌, text_out, offer_of, send_body, send_rest, too_large, send_memory, no_secret,
  seal_failed, write_signed,
}

-- A line is read up to its end.
read_until-line :
    (line rest : Bytes) (limit : ℕ)
    → All (λ b. b ≢ 10) line
    → length line < limit
    → read_until limit (line ++ 10 ∷ rest) ≡ (line ++ 10 ∷ [], rest)
unfolding read_until
read_until-line [] rest zero plain h = absurd (omega arith)
read_until-line [] rest (suc limit) plain h = refl
read_until-line (b ∷ line) rest zero plain h = absurd (omega arith)
read_until-line (b ∷ line) rest (suc limit) plain h =
    let ih = read_until-line line rest limit plain.1 (omega arith) in
    let other : (b == 10) ≡ false = ground (arith, plain.0) in rw other (rw ih refl)

read_until-all :
    (line rest : Bytes)
    → All (λ b. b ≢ 10) line
    → read_until (length ((line ++ 10 ∷ []) ++ rest)) ((line ++ 10 ∷ []) ++ rest)
      ≡ (line ++ 10 ∷ [], rest)
read_until-all line rest plain = rw (append_assoc line (10 ∷ []) rest) (
    read_until-line line rest (length (line ++ 10 ∷ rest)) plain
      (omega (arith, length-append line (10 ∷ rest))))

is_empty-snoc : (xs : Bytes) (b : ℕ) → is_empty (xs ++ b ∷ []) ≡ false
is_empty-snoc [] b = refl
is_empty-snoc (x ∷ xs) b = refl

holds-same : (b : Bytes) → holds (bytes_dec b b) ≡ true
holds-same b = elim (bytes_dec b b) as (λ d. holds d ≡ true) [
  | yes same ↦ refl
  | no other ↦ absurd (other refl)
]

-- What the two sides rely on: the text of an envelope is one line of UTF-8, and it and the closing
-- message are read as they were written; the digests are the same.
pub record Agree (code : PeerCode) (send : SendCode) : Type 0 where
  pub one_line : (env : AeadEnvelope) → All (λ b. b ≢ 10) (send.envelope_to env)
  pub readable : (env : AeadEnvelope) → code.is_utf8 (send.envelope_to env ++ 10 ∷ []) ≡ true
  pub envelope_back :
      (env : AeadEnvelope) → code.envelope_from (send.envelope_to env ++ 10 ∷ []) ≡ some env
  pub done_back :
      (id sha : Text)
      → code.message_from (send.message_to (clip_done id sha)) ≡ some (clip_done id sha)
  pub same_digest : (b : Bytes) → code.sha256_hex b ≡ send.sha256_hex b

module _ (x : Crypto) (code : PeerCode) (send : SendCode) (agree : Agree code send)
    (password : Bytes) where
  -- The envelope of a line that was written.
  record IsSigned (nonce : Bytes) (ts : ℕ) (msg : PeerMessage) (line : Bytes) : Type 0 where
    secret : secret_ok password ≡ true
    envelope : AeadEnvelope
    made : seal x nonce password (send.message_to msg) ts ≡ ok envelope
    text : line ≡ send.envelope_to envelope ++ 10 ∷ []

  write_signed-IsSigned :
      (nonce : Bytes) (ts : ℕ) (msg : PeerMessage) (line : Bytes)
      → write_signed x send password nonce ts msg ≡ ok line
      → IsSigned nonce ts msg line
  unfolding write_signed
  write_signed-IsSigned nonce ts msg line h = elim (Bool-cases (secret_ok password)) [
    | inl fine ↦ elim (Result-cases (seal x nonce password (send.message_to msg) ts)) [
      | inl (env, made) ↦ record {
        secret = fine;
        envelope = env;
        made = made;
        text =
            let met : ok (send.envelope_to env ++ 10 ∷ []) ≡ ok line = rw made at (rw fine at h) in
            cc;
      }
      | inr (e, made) ↦ let failed : err (seal_failed e) ≡ ok line = rw made at (rw fine at h) in cc
    ]
    | inr empty ↦ let failed : err no_secret ≡ ok line = rw empty at h in cc
  ]

  module _ (nonce : Bytes) (ts now : ℕ) (msg : PeerMessage) (line rest : Bytes) where
    -- A line that was written is read as its message, if its message is read as it was written.
    read_signed_line-write_signed :
        length nonce ≡ aead_nonce_len
        → leb (abs_diff ts now) aead_ts_skew_secs ≡ true
        → length line ≤ line_max
        → code.message_from (send.message_to msg) ≡ some msg
        → IsSigned nonce ts msg line
        → read_signed_line x code password now (line ++ rest) ≡ ok (msg, rest)
    unfolding read_signed_line decode_msg
    read_signed_line-write_signed long fresh short back s =
        let t = send.envelope_to s.envelope ++ 10 ∷ [] in
        let small : length t ≤ line_max = rw (← s.text) short in
        let in_size : ltb line_max (length t) ≡ false = ground arith in
        let opened : open_envelope x now password s.envelope ≡ ok (send.message_to msg) =
          open-seal x nonce password (send.message_to msg) ts now s.envelope long s.made
          ∙ rw fresh refl in
        rw s.text (
          rw (read_until-all (send.envelope_to s.envelope) rest (agree.one_line s.envelope)) (
            rw (agree.readable s.envelope) (
              rw (is_empty-snoc (send.envelope_to s.envelope) 10) (
                rw in_size
                  (rw (agree.envelope_back s.envelope) (rw s.secret (rw opened (rw back refl))))))))

  -- The closing message.
  module _ (id : Text) (body : Bytes) (nonce : Bytes) (ts now : ℕ) (line rest : Bytes) where
    verify_done-write_signed :
        length nonce ≡ aead_nonce_len
        → leb (abs_diff ts now) aead_ts_skew_secs ≡ true
        → length line ≤ line_max
        → IsSigned nonce ts (clip_done id (send.sha256_hex body)) line
        → verify_done x code password now id body (line ++ rest) ≡ ok rest
    unfolding verify_done done_for
    verify_done-write_signed long fresh short s =
        let read =
          read_signed_line-write_signed nonce ts now (clip_done id (send.sha256_hex body)) line rest
            long fresh short (agree.done_back id (send.sha256_hex body)) s in
        rw read (
          rw (holds-same id)
            (rw (agree.same_digest body) (rw (holds-same (send.sha256_hex body)) refl)))

  -- The parts of what is written behind the offer of a clip in memory.
  record IsSent (nonces : ℕ → Bytes) (nonce : Bytes) (ts : ℕ) (id : Text) (body after : Bytes)
      : Type 0 where
    wire : Bytes
    written : write_aead_bytes x password nonces body ≡ ok wire
    line : Bytes
    closing : write_signed x send password nonce ts (clip_done id (send.sha256_hex body)) ≡ ok line
    whole : after ≡ wire ++ line

  sent-parts :
      (nonces : ℕ → ℕ → Bytes) (nonce : Bytes) (ts : ℕ) (id : Text) (body after : Bytes)
      → (do
        sent ← send_memory x send password nonces body
        line ← write_signed x send password nonce ts (clip_done id (send.sha256_hex (sent.1)))
        ok (sent.0 ++ line))
        ≡ ok after
      → IsSent (nonces 0) nonce ts id body after
  unfolding send_memory
  sent-parts nonces nonce ts id body after h =
      elim (Result-cases (write_aead_bytes x password (nonces 0) body)) [
        | inl (wire, written) ↦
            elim (Result-cases
              (write_signed x send password nonce ts (clip_done id (send.sha256_hex body)))) [
                | inl (line, closing) ↦
                    let met : ok (wire ++ line) ≡ ok after = rw closing at (rw written at h) in
                    record {
                      wire = wire;
                      written = written;
                      line = line;
                      closing = closing;
                      whole = cc;
                    }
                | inr (e, failed) ↦
                    let met : err e ≡ ok after = rw failed at (rw written at h) in cc
              ]
        | inr (e, failed) ↦ let met : err (seal_failed e) ≡ ok after = rw failed at h in cc
      ]

  module _ (nonces : ℕ → Bytes) (nonce : Bytes) (ts now : ℕ) (offer : ClipOffer)
      (body after more : Bytes) where
    recv_body-sent :
        ((n : ℕ) → length (nonces n) ≡ aead_nonce_len)
        → length nonce ≡ aead_nonce_len
        → leb (abs_diff ts now) aead_ts_skew_secs ≡ true
        → ((line : Bytes)
            → write_signed x send password nonce ts (clip_done offer.id (send.sha256_hex body))
              ≡ ok line
            → length line ≤ line_max)
        → offer.byte_len ≡ length body
        → IsSent nonces nonce ts offer.id body after
        → recv_body x code password now offer (after ++ more) ≡ ok (body, more)
    unfolding recv_body
    recv_body-sent long nonce_long fresh short size s =
        let rest = s.line ++ more in
        let read =
          read_aead_bytes_any x password (length body) (length body) (s.wire ++ rest)
            (ok (body, rest))
            (read_aead_bytes-write_aead_bytes x password nonces body s.wire rest long s.written) in
        let closed =
          verify_done-write_signed offer.id body nonce ts now s.line more nonce_long fresh
            (short s.line s.closing)
            (write_signed-IsSigned nonce ts (clip_done offer.id (send.sha256_hex body)) s.line
              s.closing) in
        rw s.whole (rw (append_assoc s.wire s.line more) (rw size (rw read (rw closed refl))))

  abbrev text_offer : Text → Bytes → ClipOffer
  text_offer id body = record { id = id; kind = text_clip; byte_len = length body; files = [] }

  -- A text that `send_clip` sends is received by `recv_clip` as that text, and what follows on the stream
  -- is left alone: if the two sides have the same secret and the code of messages agrees, the closing
  -- line is no longer than a line may be and is at most 90 seconds old, the offer is within its limit,
  -- and the inbox has room.
  pub recv_clip-send_clip :
      (nonces : ℕ → ℕ → Bytes) (nonce : Bytes) (ts now : ℕ) (id : Text) (body after more : Bytes)
      (offer : ClipOffer) (creates : FilePath → Bool) (used : ℕ) (clip_dir : FilePath)
      → ((call n : ℕ) → length (nonces call n) ≡ aead_nonce_len)
      → length nonce ≡ aead_nonce_len
      → leb (abs_diff ts now) aead_ts_skew_secs ≡ true
      → ((line : Bytes)
          → write_signed x send password nonce ts (clip_done id (send.sha256_hex body)) ≡ ok line
          → length line ≤ line_max)
      → code.is_utf8 body ≡ true
      → used + length body ≤ clip_inbox_cap
      → offer_of id (text_out body) ≡ ok offer
      → send_rest x send password nonces nonce ts id (text_out body) ≡ ok after
      → (recv_clip x code password now creates used clip_dir offer (after ++ more)).result
        ≡ ok (record { kind = text_clip; text = some body; png = none; files = [] }, more)
  unfolding offer_of send_rest send_body recv_clip recv_kind recv_text in_memory kind_max
  recv_clip-send_clip nonces nonce ts now id body after more offer creates used clip_dir long
        nonce_long fresh short utf8 room offered sent =
      elim (Bool-cases (ltb clip_max_text (length body))) [
        | inl large ↦ let refused : err too_large ≡ ok offer = rw large at offered in cc
        | inr fits ↦
            let made : ok (text_offer id body) ≡ ok offer = rw fits at offered in
            let same : text_offer id body ≡ offer = cc in
            let parts = sent-parts nonces nonce ts id body after sent in
            let got =
              recv_body-sent (nonces 0) nonce ts now (text_offer id body) body after more (long 0)
                nonce_long fresh short refl parts in
            let has_room : ltb clip_inbox_cap (used + length body) ≡ false = ground arith in
            rw (← same) (rw fits (rw has_room (rw got (rw utf8 refl))))
      ]
