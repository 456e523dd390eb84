-- ===== src/Agent/Stream/Contents.antt =====
-- What `read_aead_bytes` in crates/nexus-agent/src/peer_channel.rs reads of what `write_aead_bytes`
-- has written.
use nexus_kvm.Base.{
  ℕ, zero, suc, ◌+◌, ◌-◌, ◌/◌, ◌%◌, ◌≤◌, ◌<◌, ◌≡◌, refl, ap, subst, ◌∙◌, some, List, [], ◌∷◌, ◌++◌,
  length, length-append, Result, ok, err, arith, All,
}
use nexus_kvm.Common.Auth.{
  Bytes, Crypto, AuthError, seal_chunk, open_chunk, take, drop, aead_nonce_len,
}
use nexus_kvm.Common.Auth.Sealing.{
  take-append, drop-append, open_chunk-seal_chunk, length-seal_chunk,
}
use nexus_kvm.Agent.{chunk_size}
use nexus_kvm.Agent.Stream.{
  u32_be, from_u32_be, chunks, framed, write_chunks, write_aead_bytes, read_frame, open_frame,
  gathered, read_aead_bytes,
}
use mathlib.Core.List.{append_assoc}

from_u32_be-u32_be :
    (n : ℕ)
    → n < 4294967296
    → from_u32_be (n / 16777216 % 256) (n / 65536 % 256) (n / 256 % 256) (n % 256) ≡ n
unfolding from_u32_be
from_u32_be-u32_be n h = omega arith

read_frame-framed :
    (frame rest : Bytes)
    → 16 ≤ length frame
    → length frame ≤ chunk_size + 64
    → read_frame (u32_be (length frame) ++ (frame ++ rest)) ≡ ok (frame, rest)
unfolding read_frame u32_be
read_frame-framed frame rest lo hi =
    rw
      (
        from_u32_be-u32_be (length frame) (omega arith),
        take-append frame rest,
        drop-append frame rest,
      )
      (ground (arith, length-append frame rest))

-- A chunk of the source: not empty, and not longer than the limit.
record IsChunk (size : ℕ) (chunk : Bytes) : Type 0 where
  some_bytes : 0 < length chunk
  fits : length chunk ≤ size

take-drop : (k : ℕ) (b : Bytes) → take k b ++ drop k b ≡ b
take-drop zero b = refl
take-drop (suc k) [] = refl
take-drop (suc k) (x ∷ b) = ap (◌∷◌ x) (take-drop k b)

length-take :
    (k : ℕ) (b : Bytes)
    → (length (take k b) ≤ k) × (length (take k b) + length (drop k b) ≡ length b)
length-take zero b = (omega arith, omega arith)
length-take (suc k) [] = (omega arith, omega arith)
length-take (suc k) (x ∷ b) = omega (arith, length-take k b)

join : List Bytes → Bytes
join [] = []
join (chunk ∷ later) = chunk ++ join later

chunks-join :
    (k fuel : ℕ) (body : Bytes)
    → length body ≤ fuel
    → let cs = chunks (suc k) fuel body in
      (join cs ≡ body) × All (IsChunk (suc k)) cs × (length cs ≤ fuel)
unfolding join chunks
chunks-join k fuel [] h = (refl, tt, omega arith)
chunks-join k zero (b ∷ body) h = absurd (omega arith)
chunks-join k (suc fuel) (b ∷ body) h =
    let sizes = length-take k body in
    let step = chunks-join k fuel (drop k body) (omega (arith, sizes)) in
    (
      ap (λ t. b ∷ (take k body ++ t)) (step.0) ∙ ap (◌∷◌ b) (take-drop k body),
      (record { some_bytes = omega arith; fits = omega (arith, sizes) }, step.1),
      omega (arith, step.2),
    )

module _ (x : Crypto) (password : Bytes) (nonces : ℕ → Bytes) where
  framed_parts :
      (sealed later : Result Bytes AuthError) (wire : Bytes)
      → framed sealed later ≡ ok wire
      → (frame : Bytes) × (after : Bytes) × (sealed ≡ ok frame)
        × (later ≡ ok after)
        × (wire ≡ u32_be (length frame) ++ (frame ++ after))
  unfolding framed
  framed_parts (ok frame) (ok after) wire e = (frame, after, refl, refl, cc)
  framed_parts (ok frame) (err problem) wire e = cc
  framed_parts (err problem) later wire e = cc

  open_frame-ok :
      (remain : ℕ) (frame chunk rest : Bytes)
      → open_chunk x password frame ≡ ok chunk
      → length chunk ≤ remain
      → open_frame x password remain (ok (frame, rest)) ≡ ok (chunk, rest)
  unfolding open_frame
  open_frame-ok remain frame chunk rest e h = rw (open_frame, e) (ground arith)

  open_frame-framed :
      (n remain : ℕ) (chunk frame rest : Bytes)
      → IsChunk chunk_size chunk
      → length (nonces n) ≡ aead_nonce_len
      → seal_chunk x (nonces n) password chunk ≡ ok frame
      → length chunk ≤ remain
      → open_frame x password remain (read_frame (u32_be (length frame) ++ (frame ++ rest)))
        ≡ ok (chunk, rest)
  open_frame-framed n remain chunk frame rest c long sealed h =
      let size = length-seal_chunk x (nonces n) password chunk frame long sealed in
      rw (read_frame-framed frame rest (omega (arith, size)) (omega (arith, size, c.fits))) (
        open_frame-ok remain frame chunk rest
          (open_chunk-seal_chunk x (nonces n) password chunk frame long sealed) h)

  read_round :
      (fuel remain : ℕ) (input body rest : Bytes)
      → 0 < remain
      → open_frame x password remain (read_frame input) ≡ ok (body, rest)
      → read_aead_bytes x password (suc fuel) remain input
        ≡ gathered body (read_aead_bytes x password fuel (remain - length body) rest)
  unfolding read_aead_bytes
  read_round fuel zero input body rest h e = absurd (omega arith)
  read_round fuel (suc remain) input body rest h e = rw (read_aead_bytes, e) refl

  read_chunks :
      (fuel n : ℕ) (cs : List Bytes) (wire rest : Bytes)
      → All (IsChunk chunk_size) cs
      → ((n : ℕ) → length (nonces n) ≡ aead_nonce_len)
      → write_chunks x password nonces n cs ≡ ok wire
      → length cs ≤ fuel
      → read_aead_bytes x password fuel (length (join cs)) (wire ++ rest)
        ≡ some (ok (join cs, rest))
  unfolding write_chunks join gathered u32_be
  read_chunks fuel n [] wire rest good long made h =
      let nothing : wire ≡ [] = cc in rw nothing (unfold read_aead_bytes in refl)
  read_chunks zero n (chunk ∷ cs) wire rest good long made h = absurd (omega arith)
  read_chunks (suc fuel) n (chunk ∷ cs) wire rest good long made h =
      let (frame, after, sealed, later, built) = framed_parts _ _ wire made in
      let total = length-append chunk (join cs) in
      let bytes : wire ++ rest ≡ u32_be (length frame) ++ (frame ++ (after ++ rest)) =
        ap (λ t. t ++ rest) built
        ∙ ap (λ t. u32_be (length frame) ++ t) (append_assoc frame after rest) in
      let opened =
        open_frame-framed n (length (chunk ++ join cs)) chunk frame (after ++ rest) good.0 (long n)
          sealed (omega arith) in
      let remain : length (chunk ++ join cs) - length chunk ≡ length (join cs) = omega arith in
      rw
        (
          bytes,
          read_round fuel (length (chunk ++ join cs)) _ chunk (after ++ rest)
              (omega (arith, total, good.0.some_bytes)) opened,
          remain,
          read_chunks fuel (suc n) cs after rest good.1 long later (omega arith),
        )
        refl

  -- The contents of a clip, of any length, come out of the stream as they were written, with what
  -- follows them left alone, if every chunk could be sealed; one round per byte is enough.
  pub read_aead_bytes-write_aead_bytes :
      (body wire rest : Bytes)
      → ((n : ℕ) → length (nonces n) ≡ aead_nonce_len)
      → write_aead_bytes x password nonces body ≡ ok wire
      → read_aead_bytes x password (length body) (length body) (wire ++ rest)
        ≡ some (ok (body, rest))
  unfolding write_aead_bytes
  read_aead_bytes-write_aead_bytes body wire rest long made =
      let (same, good, few) = chunks-join 65535 (length body) body (omega arith) in
      subst
        (λ t.
          read_aead_bytes x password (length body) (length t) (wire ++ rest) ≡ some (ok (t, rest)))
        same
        (read_chunks (length body) 0 (chunks chunk_size (length body) body) wire rest good long made
          few)
