-- ===== src/Scenarios/Transfers.antt =====
-- A text that one agent sends and another one receives.
use mathlib.Core.List.{append_assoc}
use nexus_kvm.Base.{
  ℕ, ◌+◌, ◌-◌, ◌≡◌, ◌≢◌, ◌≤◌, refl, ap₂, subst, true, some, none, [], ◌∷◌, ◌++◌, length, Option,
  All, ok, arith,
}
use nexus_kvm.Common.Auth.{
  Bytes, AeadEnvelope, take, drop, seal, seal_chunk, aead_crypt, derive_aead_key, secret_ok,
}
use nexus_kvm.Common.Auth.Sealing.{take-append, drop-append}
use nexus_kvm.Agent.{text_clip, line_max}
use nexus_kvm.Agent.Stream.{write_aead_bytes, write_chunks, chunks, framed, u32_be}
use nexus_kvm.Agent.Receive.{PeerMessage, clip_done, PeerCode}
use nexus_kvm.Agent.Receive.Clip.{recv_clip}
use nexus_kvm.Agent.Send.{SendCode, offer_of, send_rest, send_body, send_memory, write_signed}
use nexus_kvm.Agent.Send.Received.{Agree, recv_clip-send_clip}
use nexus_kvm.Scenarios.Shared.{plain, secret, nonce, message, tagged}

-- Texts of one line: no byte is 10.
abbrev shift : Bytes → Bytes
shift [] = []
shift (b ∷ bytes) = (b + 11) ∷ shift bytes

abbrev unshift : Bytes → Bytes
unshift [] = []
unshift (b ∷ bytes) = (b - 11) ∷ unshift bytes

unshift-shift : (xs ys : Bytes) → unshift (shift xs ++ ys) ≡ xs ++ unshift ys
unshift-shift [] ys = refl
unshift-shift (x ∷ xs) ys = ap₂ (λ a b. a ∷ b) (omega arith) (unshift-shift xs ys)

shift-line : (xs : Bytes) → All (λ b. b ≢ 10) (shift xs)
shift-line [] = tt
shift-line (x ∷ xs) = ((λ e. absurd (omega arith)), shift-line xs)

abbrev write_envelope : AeadEnvelope → Bytes
write_envelope env = shift (length env.n ∷ length env.c ∷ env.t ∷ (env.n ++ env.c))

abbrev read_fields : Bytes → Option AeadEnvelope
read_fields (a ∷ b ∷ t ∷ xs) = some (record { n = take a xs; t = t; c = take b (drop a xs) })
read_fields _ = none

abbrev read_envelope : Bytes → Option AeadEnvelope
read_envelope line = read_fields (unshift line)

shifted : (k : ℕ) → k + 11 - 11 ≡ k
shifted k = omega arith

envelope_back : (env : AeadEnvelope) → read_envelope (write_envelope env ++ 10 ∷ []) ≡ some env
envelope_back env =
    rw (shifted (length env.n), shifted (length env.c), shifted env.t)
      (rw (unshift-shift (env.n ++ env.c) (10 ∷ [])) (
        rw (append_assoc env.n env.c (0 ∷ [])) (
          rw (take-append env.n (env.c ++ 0 ∷ []))
            (rw (drop-append env.n (env.c ++ 0 ∷ [])) (rw (take-append env.c (0 ∷ [])) refl)))))

abbrev write_done : PeerMessage → Bytes
write_done (clip_done id sha) = length id ∷ (id ++ sha)
write_done _ = []

abbrev read_done : Bytes → Option PeerMessage
read_done (n ∷ xs) = some (clip_done (take n xs) (drop n xs))
read_done [] = none

abbrev receiver : PeerCode
receiver = record {
  envelope_from = read_envelope;
  message_from = read_done;
  is_utf8 = λ b. true;
  sha256_hex = λ b. b;
  error_text = λ e. "failed";
}

abbrev sender : SendCode
sender = record { envelope_to = write_envelope; message_to = write_done; sha256_hex = λ b. b }

both-Agree : Agree receiver sender
both-Agree = record {
  one_line = λ env. shift-line (length env.n ∷ length env.c ∷ env.t ∷ (env.n ++ env.c));
  readable = λ env. refl;
  envelope_back = envelope_back;
  done_back = λ id sha. ap₂ (λ a b. some (clip_done a b)) (take-append id sha) (drop-append id sha);
  same_digest = λ b. refl;
}

abbrev closing_line : Bytes
closing_line =
    write_envelope
      (record { n = nonce; t = 5000; c = tagged (write_done (clip_done (49 ∷ []) message)) })
    ++ 10 ∷ []

abbrev frame_bytes : Bytes
frame_bytes = nonce ++ tagged message

abbrev sent_bytes : Bytes
sent_bytes = (0 ∷ 0 ∷ 0 ∷ 30 ∷ frame_bytes) ++ closing_line

recv_clip-send_clip_example :
    (recv_clip plain receiver secret 5060
      (λ p. true)
      0
      []
      (record { id = 49 ∷ []; kind = text_clip; byte_len = 2; files = [] })
      (sent_bytes ++ 7 ∷ [])).result
    ≡ ok (record { kind = text_clip; text = some message; png = none; files = [] }, 7 ∷ [])
unfolding offer_of send_rest send_body send_memory write_signed write_aead_bytes write_chunks chunks
    framed u32_be seal seal_chunk aead_crypt derive_aead_key secret_ok
recv_clip-send_clip_example =
    recv_clip-send_clip plain receiver sender both-Agree secret (λ call n. nonce) nonce 5000 5060
      (49 ∷ []) message sent_bytes (7 ∷ [])
      (record { id = 49 ∷ []; kind = text_clip; byte_len = 2; files = [] }) (λ p. true) 0 []
      (λ call n. refl) refl refl
      (λ line h.
        let same : closing_line ≡ line = cc in subst (λ l. length l ≤ line_max) same (omega arith))
      refl (omega arith) refl refl
