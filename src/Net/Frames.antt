-- ===== src/Net/Frames.antt =====
-- rkvm-master/rkvm-net/src/message.rs: the bytes of one frame, read whole and in part.
use nexus_kvm.Base.{
  ℕ, ◌+◌, ◌*◌, ◌/◌, ◌%◌, ◌≤◌, ◌<◌, ◌≡◌, ◌≢◌, refl, sym, ap, ap₂, ◌∙◌, inl, inr, none, some, [], ◌∷◌,
  ◌++◌, length, length-append, ok, arith, Option-cases,
}
use nexus_kvm.Common.Auth.{Bytes}
use nexus_kvm.Net.{Codec, u16_be, framed, encode, decoded, decode, attempted, attempt, more, got}
use nexus_kvm.Common.Auth.Sealing.{take-append, drop-append}
use native.Mathlib.Nat.{div-add-mod}

-- Where two parts make the same bytes, the longer first part goes on from the shorter.
pub split_at :
    (a b c d : Bytes)
    → a ++ b ≡ c ++ d
    → length c ≤ length a
    → (rest : Bytes) × (a ≡ c ++ rest) × (rest ++ b ≡ d)
split_at a b [] d e h = (a, refl, e)
split_at [] b (y ∷ c) d e h = absurd (omega arith)
split_at (x ∷ a) b (y ∷ c) d e h =
    let same : x ≡ y = cc in
    let tails : a ++ b ≡ c ++ d = cc in
    let (rest, front, back) = split_at a b c d tails (omega arith) in
    (rest, ap₂ ◌∷◌ same front, back)

-- The two bytes of a length, read together.
header_value : (n : ℕ) → n / 256 * 256 + n % 256 ≡ n
header_value n = omega (arith, div-add-mod n 256)

-- A frame: the length of the data, then the data.
pub record IsFrame {ℓ} {A : Type ℓ} (codec : Codec A) (a : A) (frame : Bytes) : Type ℓ where
  pub body : Bytes
  pub serialized : codec.serialize a ≡ some body
  pub layout : frame ≡ u16_be (length body) ++ body

module _ {ℓ} {A : Type ℓ} (codec : Codec A) where
  framed-none : (frame : Bytes) → framed codec none ≢ ok frame
  unfolding framed
  framed-none frame e = cc

  framed-IsFrame :
      (a : A) (body frame : Bytes)
      → codec.serialize a ≡ some body
      → framed codec (some body) ≡ ok frame
      → IsFrame codec a frame
  unfolding framed
  framed-IsFrame a body frame made e = record {
    body = body;
    serialized = made;
    layout = ground arith;
  }

  pub encode-IsFrame : (a : A) (frame : Bytes) → encode codec a ≡ ok frame → IsFrame codec a frame
  unfolding encode
  encode-IsFrame a frame e = elim (Option-cases (codec.serialize a)) [
    | inl absent ↦ ground (arith, framed-none frame)
    | inr (body, made) ↦ framed-IsFrame a body frame made (rw made at e)
  ]

  pub attempt-frame :
      (a : A) (frame rest : Bytes)
      → IsFrame codec a frame
      → attempt codec (frame ++ rest) ≡ got a rest
  unfolding attempt attempted u16_be
  attempt-frame a frame rest f =
      rw
        (
          f.layout,
          header_value (length f.body),
          take-append f.body rest,
          drop-append f.body rest,
          codec.deserialize-serialize a f.body f.serialized,
        )
        (ground (arith, length-append f.body rest))

  -- Less than a frame is not taken.
  attempt_part :
      (a : A) (frame front back : Bytes)
      → IsFrame codec a frame
      → front ++ back ≡ frame
      → 0 < length back
      → attempt codec front ≡ more
  unfolding attempt u16_be
  attempt_part a frame [] back f e h = refl
  attempt_part a frame (hi ∷ []) back f e h = refl
  attempt_part a frame (hi ∷ lo ∷ front) back f e h =
      let whole : hi ∷ lo ∷ (front ++ back) ≡ u16_be (length f.body) ++ f.body = e ∙ f.layout in
      let first : hi ≡ length f.body / 256 = cc in
      let second : lo ≡ length f.body % 256 = cc in
      let tails : front ++ back ≡ f.body = cc in
      rw (first, second, header_value (length f.body))
        (ground (arith, length-append front back, ap length tails))

  pub attempt_short :
      (a : A) (frame s buf later : Bytes)
      → IsFrame codec a frame
      → buf ++ later ≡ frame ++ s
      → length buf < length frame
      → attempt codec buf ≡ more
  attempt_short a frame s buf later f e h =
      let (back, front, _) = split_at frame s buf later (sym e) (omega arith) in
      attempt_part a frame buf back f (sym front)
        (omega (arith, length-append buf back, ap length front))

  -- What `encode` writes, `decode` reads back, and leaves what follows it.
  pub decode-encode :
      (a : A) (frame rest : Bytes)
      → encode codec a ≡ ok frame
      → decode codec (frame ++ rest) ≡ ok (a, rest)
  unfolding decode decoded u16_be
  decode-encode a frame rest e =
      let f = encode-IsFrame a frame e in
      rw
        (
          f.layout,
          header_value (length f.body),
          take-append f.body rest,
          drop-append f.body rest,
          codec.deserialize-serialize a f.body f.serialized,
        )
        (ground (arith, length-append f.body rest))
