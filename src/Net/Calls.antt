-- ===== src/Net/Calls.antt =====
-- rkvm-master/rkvm-net/src/message.rs: `FrameDecoder::recv` called again and again, as the loops of
-- the server's and the client's connections call it, and dropped while it waits.
use nexus_kvm.Base.{
  ◌≤◌, ◌<◌, ◌≡◌, refl, sym, ap, ◌∙◌, ◌⊎◌, inl, inr, false, List, [], ◌∷◌, ◌++◌, length, is_empty,
  All, arith, dec_le,
}
use nexus_kvm.Common.Auth.{Bytes}
use nexus_kvm.Net.{Codec, attempt, recv, message, pending, Call, got, more}
use nexus_kvm.Net.Frames.{IsFrame, attempt-frame, attempt_short, split_at}
use mathlib.Core.List.{append-nil, append_assoc}

unfoldable pub join : List Bytes → Bytes
join [] = []
join (chunk ∷ chunks) = chunk ++ join chunks

abbrev pub IsRead : Bytes → Type 0
IsRead chunk = is_empty chunk ≡ false

pub join-append : (left arrived : List Bytes) → join (left ++ arrived) ≡ join left ++ join arrived
unfolding join
join-append [] arrived = refl
join-append (chunk ∷ left) arrived =
    ap (λ t. chunk ++ t) (join-append left arrived)
    ∙ sym (append_assoc chunk (join left) (join arrived))

pub nothing_left :
    (buf : Bytes) (left : List Bytes) (future : Bytes)
    → All IsRead left
    → buf ++ (join left ++ future) ≡ []
    → (buf ≡ []) × (left ≡ []) × (future ≡ [])
unfolding join
nothing_left [] [] future reads e = (refl, refl, e)
nothing_left [] ([] ∷ left) future reads e = cc
nothing_left [] ((x ∷ chunk) ∷ left) future reads e = cc
nothing_left (x ∷ buf) left future reads e = cc

module _ {A : Type 0} (codec : Codec A) where
  -- The frame at the front of what is left to come is taken, or all that has arrived is kept.
  pub record IsTaken (a : A) (s future : Bytes) (c : Call A) : Type 0 where
    pub answer : c.answer ≡ message a
    pub reads : All IsRead c.left
    pub rest : c.buf ++ (join c.left ++ future) ≡ s

  pub record IsWaiting (frame came : Bytes) (c : Call A) : Type 0 where
    pub answer : c.answer ≡ pending
    pub nothing : c.left ≡ []
    pub kept : c.buf ≡ came
    pub part : length came < length frame

  recv_got :
      (a : A) (buf rest : Bytes) (left : List Bytes)
      → attempt codec buf ≡ got a rest
      → recv codec buf left ≡ record { answer = message a; buf = rest; left = left }
  unfolding recv
  recv_got a buf rest [] e = rw (recv, e) refl
  recv_got a buf rest (chunk ∷ later) e = rw (recv, e) refl

  recv_more :
      (buf chunk : Bytes) (later : List Bytes)
      → attempt codec buf ≡ more
      → IsRead chunk
      → recv codec buf (chunk ∷ later) ≡ recv codec (buf ++ chunk) later
  unfolding recv
  recv_more buf [] later e reads = cc
  recv_more buf (x ∷ chunk) later e reads = rw (recv, e) refl

  recv_waits :
      (buf : Bytes)
      → attempt codec buf ≡ more
      → recv codec buf [] ≡ record { answer = pending; buf = buf; left = [] }
  unfolding recv
  recv_waits buf e = rw (recv, e) refl

  taken :
      (a : A) (frame s future : Bytes) (left : List Bytes) (buf : Bytes)
      → IsFrame codec a frame
      → All IsRead left
      → buf ++ (join left ++ future) ≡ frame ++ s
      → length frame ≤ length buf
      → IsTaken a s future (recv codec buf left)
  taken a frame s future left buf f reads e h =
      let (rest, front, back) = split_at buf _ frame s e h in
      let whole : attempt codec buf ≡ got a rest = rw front (attempt-frame codec a frame rest f) in
      rw (recv_got a buf rest left whole) (record { answer = refl; reads = reads; rest = back })

  pub recv-frame :
      (a : A) (frame s future : Bytes)
      → IsFrame codec a frame
      → (left : List Bytes) (buf : Bytes) → All IsRead left
      → buf ++ (join left ++ future) ≡ frame ++ s
      → IsTaken a s future (recv codec buf left)
        ⊎ IsWaiting frame (buf ++ join left) (recv codec buf left)
  unfolding recv join
  recv-frame a frame s future f [] buf reads e = elim (dec_le (length frame) (length buf)) [
    | yes h ↦ inl (taken a frame s future [] buf f reads e h)
    | no h ↦
        let short = attempt_short codec a frame s buf future f e (omega arith) in
        inr (
          rw (recv_waits buf short, append-nil)
            (record { answer = refl; nothing = refl; kept = refl; part = omega arith }))
  ]
  recv-frame a frame s future f (chunk ∷ later) buf reads e =
      elim (dec_le (length frame) (length buf)) [
        | yes h ↦ inl (taken a frame s future (chunk ∷ later) buf f reads e h)
        | no h ↦
            let short = attempt_short codec a frame s buf _ f e (omega arith) in
            let same : (buf ++ chunk) ++ (join later ++ future) ≡ frame ++ s =
              append_assoc buf chunk _
              ∙ ap (λ t. buf ++ t) (sym (append_assoc chunk (join later) future))
              ∙ e in
            rw (recv_more buf chunk later short reads.0, ← append_assoc buf chunk (join later))
              (recv-frame a frame s future f later (buf ++ chunk) reads.1 same)
      ]
