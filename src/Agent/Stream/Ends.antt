-- ===== src/Agent/Stream/Ends.antt =====
-- The end of `read_aead_bytes` in crates/nexus-agent/src/peer_channel.rs on any stream.
use nexus_kvm.Base.{
  ℕ, zero, suc, ◌-◌, ◌≤◌, ◌<◌, ◌≡◌, refl, Option, none, some, [], ◌∷◌, length, length-append,
  Result, ok, err, arith, Result-cases, inl, inr,
}
use nexus_kvm.Common.Auth.{Bytes, Crypto, drop}
use nexus_kvm.Agent.Stream.{
  StreamError, from_u32_be, read_frame, open_frame, gathered, read_aead_bytes,
}

length-drop : (k : ℕ) (b : Bytes) → length (drop k b) ≤ length b
length-drop zero b = omega arith
length-drop (suc k) [] = omega arith
length-drop (suc k) (x ∷ b) = omega (arith, length-drop k b)

read_frame_shorter :
    (input frame rest : Bytes) → read_frame input ≡ ok (frame, rest) → length rest < length input
unfolding read_frame
read_frame_shorter [] frame rest e = cc
read_frame_shorter (a ∷ []) frame rest e = cc
read_frame_shorter (a ∷ b ∷ []) frame rest e = cc
read_frame_shorter (a ∷ b ∷ c ∷ []) frame rest e = cc
read_frame_shorter (a ∷ b ∷ c ∷ d ∷ body) frame rest e =
    ground (arith, length-drop (from_u32_be a b c d) body)

-- What `read_aead_bytes` leaves: an error, or exactly what it was asked for.
abbrev pub Filled : ℕ → Option (Result (Bytes × Bytes) StreamError) → Type 0
Filled remain none = ⊥
Filled remain (some (err problem)) = Unit
Filled remain (some (ok (body, rest))) = length body ≡ remain

module _ (x : Crypto) (password : Bytes) where
  open_frame_fits :
      (remain : ℕ) (input body rest : Bytes)
      → open_frame x password remain (read_frame input) ≡ ok (body, rest)
      → (length body ≤ remain) × (length rest < length input)
  unfolding open_frame
  open_frame_fits remain input body rest e = elim (Result-cases (read_frame input)) [
    | inl ((frame, after), r) ↦ ground (arith, read_frame_shorter input frame after r)
    | inr (problem, r) ↦ absurd (ground arith)
  ]

  gathered-Filled :
      (remain : ℕ) (body : Bytes) (later : Option (Result (Bytes × Bytes) StreamError))
      → length body ≤ remain
      → Filled (remain - length body) later
      → Filled remain (gathered body later)
  unfolding gathered
  gathered-Filled remain body none h filled = absurd filled
  gathered-Filled remain body (some (err problem)) h filled = tt
  gathered-Filled remain body (some (ok (later, rest))) h filled =
      omega (arith, length-append body later, filled)

  -- Whatever stands on the stream, one round more than it has bytes is enough: the read ends with an
  -- error, or has given to the sink exactly as many bytes as were asked for. A peer cannot keep it
  -- going by empty frames, since each of them takes bytes off the stream.
  pub read_aead_bytes-Filled :
      (fuel remain : ℕ) (input : Bytes)
      → length input < fuel
      → Filled remain (read_aead_bytes x password fuel remain input)
  unfolding read_aead_bytes
  read_aead_bytes-Filled fuel zero input h = refl
  read_aead_bytes-Filled zero (suc remain) input h = absurd (omega arith)
  read_aead_bytes-Filled (suc fuel) (suc remain) input h =
      elim (Result-cases (open_frame x password (suc remain) (read_frame input))) [
        | inl ((body, rest), r) ↦
            let (fits, shorter) = open_frame_fits (suc remain) input body rest r in
            rw (read_aead_bytes, r)
              (gathered-Filled (suc remain) body _ fits
                (read_aead_bytes-Filled fuel (suc remain - length body) rest (omega arith)))
        | inr (problem, r) ↦ rw (read_aead_bytes, r) tt
      ]
