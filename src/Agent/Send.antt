-- ===== src/Agent/Send.antt =====
-- crates/nexus-agent/src/peer_channel.rs: `send_clip` and `write_signed`, the bytes that they write. JSON
-- and SHA-256 are libraries. Each call of `seal` and `seal_chunk` has a random nonce, an argument; what
-- the reads of a file return is an argument: no read fails, and none returns more than it was asked for.
-- Writes to the connection do not fail.
pub mod Received
use nexus_kvm.Base.{
  ℕ, zero, suc, ◌+◌, ◌-◌, Bool, true, false, not, List, [], ◌∷◌, ◌++◌, ltb, if◌then◌else◌, Result,
  ok, err, is_empty, length,
}
use nexus_kvm.Common.Auth.{Bytes, Crypto, AuthError, AeadEnvelope, secret_ok, seal}
use nexus_kvm.Agent.{text_clip, png_clip, files_clip, clip_max_text, clip_max_png, clip_max_files}
use nexus_kvm.Agent.Paths.{Text}
use nexus_kvm.Agent.Trees.{ClipEntry, PushError}
use nexus_kvm.Agent.Stream.{write_aead_bytes}
use nexus_kvm.Agent.Receive.{ClipFileMeta, ClipOffer, PeerMessage, clip_offer, clip_done, u64_size}

-- An entry of `flatten_clip_paths`, if its file can be opened, and what the reads return.
pub record Copied : Type 0 where
  pub entry : ClipEntry
  pub opens : Bool
  pub reads : List Bytes

-- `ClipOut`, with the entries that `flatten_clip_paths` makes of the files.
pub data ClipOut : Type 0 where
  text_out png_out : Bytes → ClipOut
  files_out : Result (List Copied) PushError → ClipOut

pub data SendError : Type 0 where
  no_files too_large no_secret open_failed file_shrank : SendError
  flatten_failed : PushError → SendError
  seal_failed : AuthError → SendError

infixl 5 ◌>>=◌
abbrev pub ◌>>=◌ {ℓ κ} :
    {A : Type ℓ} {B : Type κ} → Result A SendError → (A → Result B SendError) → Result B SendError
err problem >>= next = err problem
ok value >>= next = next value

abbrev pub sealed {ℓ} : {A : Type ℓ} → Result A AuthError → Result A SendError
sealed (ok a) = ok a
sealed (err problem) = err (seal_failed problem)

abbrev pub need : Bool → SendError → Result (Unit {0}) SendError
need true problem = ok tt
need false problem = err problem

-- The code of messages and envelopes, and the digest in hex.
pub record SendCode : Type 0 where
  pub envelope_to : AeadEnvelope → Bytes
  pub message_to : PeerMessage → Bytes
  pub sha256_hex : Bytes → Text

-- `saturating_add`
unfoldable pub sat_add : ℕ → ℕ → ℕ
sat_add a b = if ltb (a + b) u64_size then a + b else u64_size - 1

unfoldable pub meta_of : Copied → ClipFileMeta
meta_of c = record { name = c.entry.rel; size = c.entry.size; dir = c.entry.dir }

unfoldable pub metas_of : List Copied → List ClipFileMeta
unfolding meta_of
metas_of [] = []
metas_of (c ∷ copied) = meta_of c ∷ metas_of copied

unfoldable pub total_of : ℕ → List Copied → ℕ
unfolding sat_add
total_of total [] = total
total_of total (c ∷ copied) = total_of (sat_add total c.entry.size) copied

-- `kind`, `files_meta` and `byte_len`, with the limits.
unfoldable pub offer_of : Text → ClipOut → Result ClipOffer SendError
unfolding metas_of total_of
offer_of id (text_out t) = do
  _ ← need (not (ltb clip_max_text (length t))) too_large
  ok (record { id = id; kind = text_clip; byte_len = length t; files = [] })
offer_of id (png_out p) = do
  _ ← need (not (ltb clip_max_png (length p))) too_large
  ok (record { id = id; kind = png_clip; byte_len = length p; files = [] })
offer_of id (files_out (err problem)) = err (flatten_failed problem)
offer_of id (files_out (ok copied)) = do
  _ ← need (not (is_empty copied)) no_files
  _ ← need (not (ltb clip_max_files (total_of 0 copied))) too_large
  ok (record { id = id; kind = files_clip; byte_len = total_of 0 copied; files = metas_of copied })

module _ (x : Crypto) (code : SendCode) (password : Bytes) where
  -- `write_signed`: the line and its end.
  unfoldable pub write_signed : Bytes → ℕ → PeerMessage → Result Bytes SendError
  write_signed nonce now msg = do
    _ ← need (secret_ok password) no_secret
    env ← sealed (seal x nonce password (code.message_to msg) now)
    ok (code.envelope_to env ++ 10 ∷ [])

  -- The loop over the reads of a file: what is written, what is hashed, and the next call's number.
  unfoldable pub send_reads :
      (ℕ → ℕ → Bytes) → ℕ → ℕ → List Bytes → Result (Bytes × Bytes × ℕ) SendError
  send_reads nonces call zero reads = ok ([], [], call)
  send_reads nonces call (suc remain) [] = err file_shrank
  send_reads nonces call (suc remain) ([] ∷ reads) = err file_shrank
  send_reads nonces call (suc remain) ((b ∷ bytes) ∷ reads) = do
    wire ← sealed (write_aead_bytes x password (nonces call) (b ∷ bytes))
    later ← send_reads nonces (suc call) (suc remain - length (b ∷ bytes)) reads
    ok (wire ++ later.0, (b ∷ bytes) ++ later.1, later.2)

  unfoldable pub send_files : (ℕ → ℕ → Bytes) → ℕ → List Copied → Result (Bytes × Bytes) SendError
  unfolding send_reads
  send_files nonces call [] = ok ([], [])
  send_files nonces call (c ∷ copied) = elim c.entry.dir [
    | true ↦ send_files nonces call copied
    | false ↦ do
      _ ← need c.opens open_failed
      file ← send_reads nonces call c.entry.size c.reads
      later ← send_files nonces (file.2) copied
      ok (file.0 ++ later.0, file.1 ++ later.1)
  ]

  -- The contents of a clip in memory.
  unfoldable pub send_memory : (ℕ → ℕ → Bytes) → Bytes → Result (Bytes × Bytes) SendError
  send_memory nonces body = do
    wire ← sealed (write_aead_bytes x password (nonces 0) body)
    ok (wire, body)

  -- The contents, and what the hasher is given.
  unfoldable pub send_body : (ℕ → ℕ → Bytes) → ClipOut → Result (Bytes × Bytes) SendError
  unfolding send_files send_memory
  send_body nonces (text_out t) = send_memory nonces t
  send_body nonces (png_out p) = send_memory nonces p
  send_body nonces (files_out (err problem)) = err (flatten_failed problem)
  send_body nonces (files_out (ok copied)) = send_files nonces 0 copied

  -- `send_clip` behind the offer: the contents and the closing message.
  unfoldable pub send_rest : (ℕ → ℕ → Bytes) → Bytes → ℕ → Text → ClipOut → Result Bytes SendError
  unfolding send_body write_signed
  send_rest nonces nonce now id payload = do
    body ← send_body nonces payload
    line ← write_signed nonce now (clip_done id (code.sha256_hex (body.1)))
    ok (body.0 ++ line)

  -- `send_clip`: what it writes before it waits for the reply.
  unfoldable pub send_clip :
      (ℕ → ℕ → Bytes) → Bytes × Bytes → ℕ × ℕ → Text → ClipOut → Result Bytes SendError
  unfolding offer_of write_signed send_rest
  send_clip nonces (first, last) (start, end) id payload = do
    offer ← offer_of id payload
    line ← write_signed first start (clip_offer offer)
    rest ← send_rest nonces last end id payload
    ok (line ++ rest)
