-- ===== src/Agent/Receive.antt =====
-- crates/nexus-agent/src/peer_channel.rs: the messages of the peers and their errors. JSON, UTF-8 and
-- SHA-256 are libraries: they are the record `PeerCode`, with the texts of the errors.
pub mod Clip
pub mod Conn
pub mod Clips
pub mod Lines
use nexus_kvm.Base.{
  ℕ, suc, ◌+◌, ◌%◌, Bool, true, false, not, ◌&&◌, Option, none, some, List, [], ◌∷◌, ◌++◌, ltb,
  ◌==◌, if◌then◌else◌, holds, keep_if, Result, ok, err, is_empty, length, any_of, String,
}
use nexus_kvm.Common.Auth.{Bytes, Crypto, AuthError, AeadEnvelope, secret_ok, open_envelope}
use nexus_kvm.Common.Auth.Replay.{ReplayGuard, check, bytes_dec, member}
use nexus_kvm.Daemon.Ipc.{read_until}
use nexus_kvm.Agent.{
  ClipKind, text_clip, png_clip, files_clip, kind_max, clip_max_entries, clip_inbox_cap, line_max,
}
use nexus_kvm.Agent.Stream.{StreamError, read_aead_bytes}
use nexus_kvm.Agent.Paths.{Text, is_slash, is_dot, split, safe_rel_path, confined}

abbrev pub FilePath : Type 0
FilePath = List Text

pub record ClipFileMeta : Type 0 where
  pub name : Text
  pub size : ℕ
  pub dir : Bool

pub record ClipOffer : Type 0 where
  pub id : Text
  pub kind : ClipKind
  pub byte_len : ℕ
  pub files : List ClipFileMeta

pub data PeerMessage : Type 0 where
  clipboard : ℕ → Bytes → PeerMessage
  clip_offer : ClipOffer → PeerMessage
  clip_done : Text → Text → PeerMessage
  switch_local ping_message : PeerMessage
  ack : Bool → Option String → Option String → PeerMessage

pub record IncomingClip : Type 0 where
  pub kind : ClipKind
  pub text : Option Bytes
  pub png : Option Bytes
  pub files : List FilePath

pub data ClipError : Type 0 where
  empty_secret closed line_too_large not_utf8 protocol_mismatch bad_message : ClipError
  over_limit too_many_files inbox_full sizes_differ bad_name file_error : ClipError
  size_mismatch expected_done id_mismatch sha_mismatch inbox_unavailable no_fuel : ClipError
  auth_failed : AuthError → ClipError
  stream_failed : StreamError → ClipError

pub record PeerCode : Type 0 where
  pub envelope_from : Bytes → Option AeadEnvelope
  pub message_from : Bytes → Option PeerMessage
  pub is_utf8 : Bytes → Bool
  pub sha256_hex : Bytes → Text
  pub error_text : ClipError → String

-- `map_err` and `?`
infixl 5 ◌>>=◌
abbrev pub ◌>>=◌ {ℓ κ} :
    {A : Type ℓ} {B : Type κ} → Result A ClipError → (A → Result B ClipError) → Result B ClipError
err problem >>= next = err problem
ok value >>= next = next value

abbrev pub require : Bool → ClipError → Result (Unit {0}) ClipError
require true problem = ok tt
require false problem = err problem

abbrev pub from_option {ℓ} : {A : Type ℓ} → ClipError → Option A → Result A ClipError
from_option problem none = err problem
from_option problem (some a) = ok a

abbrev pub from_auth {ℓ} : {A : Type ℓ} → Result A AuthError → Result A ClipError
from_auth (ok a) = ok a
from_auth (err problem) = err (auth_failed problem)

abbrev pub from_stream :
    Option (Result (Bytes × Bytes) StreamError) → Result (Bytes × Bytes) ClipError
from_stream none = err no_fuel
from_stream (some (ok r)) = ok r
from_stream (some (err problem)) = err (stream_failed problem)

-- `PathBuf::join` of a text: an absolute one takes the place of the path.
unfoldable pub join_path : FilePath → Text → FilePath
join_path base [] = base
join_path base (c ∷ id) =
    let parts = keep_if (λ p. not (is_empty p) && not (is_dot p)) (split is_slash (c ∷ id)) in
    if is_slash c then parts else base ++ parts

abbrev pub u64_size : ℕ
u64_size = 18446744073709551616

-- The sum of the sizes in the offer, which the source takes in 64 bits.
unfoldable pub expected_size : List ClipFileMeta → ℕ
expected_size [] = 0
expected_size (f ∷ fs) = let rest = expected_size fs in if f.dir then rest else f.size + rest
