-- ===== src/Net.antt =====
-- rkvm-master/rkvm-net/src/message.rs: messages as frames on a byte stream. The serializer `bincode`
-- is a library: it is the record `Codec`, with the law of its documentation.
pub mod Frames
pub mod Calls
pub mod Deliver
pub mod Handshake
use nexus_kvm.Base.{
  ℕ, ◌+◌, ◌*◌, ◌/◌, ◌%◌, ◌≡◌, Bool, true, false, Option, none, some, List, [], ◌∷◌, ◌++◌, length,
  leb, ltb, is_empty, if◌then◌else◌, Result, ok, err,
}
use nexus_kvm.Common.Auth.{Bytes, take, drop}

-- The kinds of `std::io::Error` that the network code makes.
pub data IoError : Type 0 where
  invalid_data invalid_input unexpected_eof timed_out broken_pipe other_error : IoError

-- `options().serialize` and `options().deserialize`.
pub record Codec {ℓ} (A : Type ℓ) : Type ℓ where
  pub serialize : A → Option Bytes
  pub deserialize : Bytes → Option A
  pub deserialize-serialize :
      (a : A) (body : Bytes) → serialize a ≡ some body → deserialize body ≡ some a

-- `write_u16`: the high byte first.
unfoldable pub u16_be : ℕ → Bytes
u16_be n = n / 256 ∷ n % 256 ∷ []

-- What a try to take a frame off the buffer finds.
pub data Attempt {ℓ} (A : Type ℓ) : Type ℓ where
  more : Attempt A
  bad : Attempt A
  got : A → Bytes → Attempt A

-- What a call of `recv` ends with. It is `pending` while a read waits: there the caller drops it.
pub data Received {ℓ} (A : Type ℓ) : Type ℓ where
  message : A → Received A
  pending : Received A
  failed : IoError → Received A

-- The answer, what is left in the buffer and the chunks that are not read yet.
pub record Call {ℓ} (A : Type ℓ) : Type ℓ where
  pub answer : Received A
  pub buf : Bytes
  pub left : List Bytes

module _ {ℓ} {A : Type ℓ} (codec : Codec A) where
  unfoldable pub framed : Option Bytes → Result Bytes IoError
  framed none = err invalid_input
  framed (some body) =
      if ltb 65535 (length body) then err invalid_input else ok (u16_be (length body) ++ body)

  -- `Message::encode`: the bytes that it writes.
  unfoldable pub encode : A → Result Bytes IoError
  unfolding framed
  encode a = framed (codec.serialize a)

  unfoldable pub decoded : Option A → Bytes → Result (A × Bytes) IoError
  decoded none rest = err invalid_data
  decoded (some a) rest = ok (a, rest)

  -- `Message::decode` of a stream that ends after these bytes, with what it leaves of them.
  unfoldable pub decode : Bytes → Result (A × Bytes) IoError
  unfolding decoded
  decode [] = err unexpected_eof
  decode (hi ∷ []) = err unexpected_eof
  decode (hi ∷ lo ∷ body) =
      let n = hi * 256 + lo in
      if leb n (length body)
      then decoded (codec.deserialize (take n body)) (drop n body)
      else err unexpected_eof

  unfoldable pub attempted : Option A → Bytes → Attempt A
  attempted none rest = bad
  attempted (some a) rest = got a rest

  -- The part of `FrameDecoder::recv` before a read.
  unfoldable pub attempt : Bytes → Attempt A
  unfolding attempted
  attempt [] = more
  attempt (hi ∷ []) = more
  attempt (hi ∷ lo ∷ body) =
      let n = hi * 256 + lo in
      if leb n (length body)
      then attempted (codec.deserialize (take n body)) (drop n body)
      else more

  -- `FrameDecoder::recv`, on the chunks that its reads return. A read of nothing is the end of the
  -- stream. After `InvalidData` the buffer is not drained.
  unfoldable pub recv : Bytes → List Bytes → Call A
  unfolding attempt
  recv buf [] = elim (attempt buf) [
    | got a rest ↦ record { answer = message a; buf = rest; left = [] }
    | bad ↦ record { answer = failed invalid_data; buf = buf; left = [] }
    | more ↦ record { answer = pending; buf = buf; left = [] }
  ]
  recv buf (chunk ∷ later) = elim (attempt buf) [
    | got a rest ↦ record { answer = message a; buf = rest; left = chunk ∷ later }
    | bad ↦ record { answer = failed invalid_data; buf = buf; left = chunk ∷ later }
    | more ↦ elim (is_empty chunk) [
      | true ↦ record { answer = failed unexpected_eof; buf = buf; left = later }
      | false ↦ recv (buf ++ chunk) later
    ]
  ]
