-- ===== src/Agent/Stream.antt =====
-- crates/nexus-agent/src/peer_channel.rs: the contents of a clip as sealed frames on the stream.
pub mod Ends
pub mod Contents
pub mod Rounds
use nexus_kvm.Base.{
  ℕ, zero, suc, ◌+◌, ◌-◌, ◌*◌, ◌/◌, ◌%◌, Bool, true, false, not, ◌&&◌, Option, none, some, List, [],
  ◌∷◌, ◌++◌, length, leb, ltb, if◌then◌else◌, Result, ok, err,
}
use nexus_kvm.Common.Auth.{Bytes, Crypto, AuthError, seal_chunk, open_chunk, take, drop}
use nexus_kvm.Agent.{chunk_size}

pub data StreamError : Type 0 where
  stream_eof frame_size frame_overflow : StreamError
  sealed_badly : AuthError → StreamError

-- `(n as u32).to_be_bytes()` and `u32::from_be_bytes`.
unfoldable pub u32_be : ℕ → Bytes
u32_be n = n / 16777216 % 256 ∷ n / 65536 % 256 ∷ n / 256 % 256 ∷ n % 256 ∷ []

unfoldable pub from_u32_be : ℕ → ℕ → ℕ → ℕ → ℕ
from_u32_be a b c d = a * 16777216 + b * 65536 + c * 256 + d

-- `chunks(size)`. The fuel is at least the number of chunks.
unfoldable pub chunks : ℕ → ℕ → Bytes → List Bytes
chunks size fuel [] = []
chunks size zero (b ∷ body) = []
chunks size (suc fuel) (b ∷ body) = take size (b ∷ body) ∷ chunks size fuel (drop size (b ∷ body))

unfoldable pub framed : Result Bytes AuthError → Result Bytes AuthError → Result Bytes AuthError
unfolding u32_be
framed (ok frame) (ok later) = ok (u32_be (length frame) ++ (frame ++ later))
framed (ok frame) (err problem) = err problem
framed (err problem) later = err problem

-- The part of a round of `read_aead_bytes` that reads: the frame and the rest of the stream.
unfoldable pub read_frame : Bytes → Result (Bytes × Bytes) StreamError
unfolding from_u32_be
read_frame (a ∷ b ∷ c ∷ d ∷ body) =
    let n = from_u32_be a b c d in
    if not (leb 16 n && leb n (chunk_size + 64))
    then err frame_size
    else if ltb (length body) n
    then err stream_eof
    else ok (take n body, drop n body)
read_frame _ = err stream_eof

unfoldable pub gathered :
    Bytes
    → Option (Result (Bytes × Bytes) StreamError)
    → Option (Result (Bytes × Bytes) StreamError)
gathered body none = none
gathered body (some (err problem)) = some (err problem)
gathered body (some (ok (later, rest))) = some (ok (body ++ later, rest))

module _ (x : Crypto) (password : Bytes) where
  -- The loop of `write_aead_bytes`: the bytes that it writes. The random nonce of the n-th chunk is
  -- `nonces n`.
  unfoldable pub write_chunks : (ℕ → Bytes) → ℕ → List Bytes → Result Bytes AuthError
  unfolding framed
  write_chunks nonces n [] = ok []
  write_chunks nonces n (chunk ∷ later) =
      framed (seal_chunk x (nonces n) password chunk) (write_chunks nonces (suc n) later)

  -- `write_aead_bytes`
  unfoldable pub write_aead_bytes : (ℕ → Bytes) → Bytes → Result Bytes AuthError
  unfolding chunks write_chunks
  write_aead_bytes nonces body = write_chunks nonces 0 (chunks chunk_size (length body) body)

  -- What a frame opens to.
  unfoldable pub open_frame :
      ℕ → Result (Bytes × Bytes) StreamError → Result (Bytes × Bytes) StreamError
  open_frame remain (err problem) = err problem
  open_frame remain (ok (frame, rest)) = elim (open_chunk x password frame) [
    | err problem ↦ err (sealed_badly problem)
    | ok body ↦ if ltb remain (length body) then err frame_overflow else ok (body, rest)
  ]

  -- `read_aead_bytes` of a stream that ends after these bytes: what went to the sink, and the rest of
  -- the stream; `none` if the fuel is used up.
  unfoldable pub read_aead_bytes : ℕ → ℕ → Bytes → Option (Result (Bytes × Bytes) StreamError)
  unfolding read_frame open_frame gathered
  read_aead_bytes fuel zero input = some (ok ([], input))
  read_aead_bytes zero (suc remain) input = none
  read_aead_bytes (suc fuel) (suc remain) input =
      elim (open_frame (suc remain) (read_frame input)) [
        | err problem ↦ some (err problem)
        | ok (body, rest) ↦ gathered body (read_aead_bytes fuel (suc remain - length body) rest)
      ]
