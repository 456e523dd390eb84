-- ===== src/Agent/Receive/Clip.antt =====
-- crates/nexus-agent/src/peer_channel.rs: `recv_clip`, with what the file system returns as an argument.
use nexus_kvm.Base.{
  ℕ, suc, ◌+◌, ◌%◌, Bool, not, none, some, List, [], ◌∷◌, ◌++◌, ltb, ◌==◌, if◌then◌else◌, holds,
  Result, ok, err, is_empty, length, any_of,
}
use nexus_kvm.Common.Auth.{Bytes, Crypto, AeadEnvelope, secret_ok, open_envelope}
use nexus_kvm.Common.Auth.Replay.{bytes_dec}
use nexus_kvm.Daemon.Ipc.{read_until}
use nexus_kvm.Agent.{
  ClipKind, text_clip, png_clip, files_clip, kind_max, clip_max_entries, clip_inbox_cap, line_max,
}
use nexus_kvm.Agent.Stream.{read_aead_bytes}
use nexus_kvm.Agent.Paths.{Text, is_slash, split, safe_rel_path, confined}
use nexus_kvm.Agent.Receive.{
  FilePath, ClipFileMeta, ClipOffer, PeerMessage, IncomingClip, ClipError, PeerCode, ◌>>=◌, require,
  from_option, from_auth, from_stream, join_path, u64_size, expected_size, clip_done, empty_secret,
  closed, line_too_large, not_utf8, protocol_mismatch, bad_message, over_limit, too_many_files,
  inbox_full, sizes_differ, bad_name, file_error, size_mismatch, expected_done, id_mismatch,
  sha_mismatch,
}

-- What is known while the files come in. `made` are the paths that `recv_clip` makes, or tries to make,
-- with the directories on the way to them; `written` are the files whose contents are complete.
pub record Files : Type 0 where
  pub made : List FilePath
  pub written : List (FilePath × Bytes)
  pub hashed : Bytes
  pub roots : List FilePath
  pub rest : Bytes

-- The paths that were made and the files that were written, also where the clip fails, and the clip with the rest of the stream.
pub record Receipt : Type 0 where
  pub made : List FilePath
  pub written : List (FilePath × Bytes)
  pub result : Result (IncomingClip × Bytes) ClipError

abbrev pub refuse : ClipError → Receipt
refuse problem = record { made = []; written = []; result = err problem }

path_dec : Discrete FilePath
path_dec = hlevel bytes_dec

-- `seen_root.insert(first)`
unfoldable pub note_root : FilePath → Text → List FilePath → List FilePath
unfolding path_dec
note_root dest rel roots = elim (split is_slash rel) [
  | [] ↦ roots
  | first ∷ _ ↦
      if any_of (λ r. holds (path_dec r (dest ++ first ∷ []))) roots
      then roots
      else roots ++ (dest ++ first ∷ []) ∷ []
]

unfoldable pub store :
    FilePath → Files → Result (Bytes × Bytes) ClipError → Files × Result (Unit {0}) ClipError
store path fs (err problem) = (fs, err problem)
store path fs (ok (body, rest)) = (
  record fs { written = fs.written ++ (path, body) ∷ []; hashed = fs.hashed ++ body; rest = rest },
  ok tt,
)

module _ (x : Crypto) (code : PeerCode) (password : Bytes) (now : ℕ) where
  unfoldable pub decode_msg : AeadEnvelope → Result PeerMessage ClipError
  decode_msg env = do
    _ ← require (secret_ok password) empty_secret
    body ← from_auth (open_envelope x now password env)
    from_option bad_message (code.message_from body)

  -- `read_signed_line`: the message, and the rest of the stream.
  unfoldable pub read_signed_line : Bytes → Result (PeerMessage × Bytes) ClipError
  unfolding decode_msg
  read_signed_line input =
      let (line, rest) = read_until (length input) input in
      do
        _ ← require (code.is_utf8 line) not_utf8
        _ ← require (not (is_empty line)) closed
        _ ← require (not (ltb line_max (length line))) line_too_large
        env ← from_option protocol_mismatch (code.envelope_from line)
        msg ← decode_msg env
        ok (msg, rest)

  unfoldable pub done_for : Text → Bytes → PeerMessage → Result (Unit {0}) ClipError
  done_for id body (clip_done done_id sha256) = do
    _ ← require (holds (bytes_dec done_id id)) id_mismatch
    require (holds (bytes_dec (code.sha256_hex body) sha256)) sha_mismatch
  done_for id body _ = err expected_done

  -- `verify_done`, with the rest of the stream.
  unfoldable pub verify_done : Text → Bytes → Bytes → Result Bytes ClipError
  unfolding read_signed_line done_for
  verify_done id body input = do
    signed ← read_signed_line input
    _ ← done_for id body (signed.0)
    ok (signed.1)

  -- `hash_copy` and `verify_done` of a clip in memory.
  unfoldable pub recv_body : ClipOffer → Bytes → Result (Bytes × Bytes) ClipError
  unfolding verify_done
  recv_body offer input = do
    read ← from_stream (read_aead_bytes x password (suc (length input)) offer.byte_len input)
    rest ← verify_done offer.id (read.0) (read.1)
    ok (read.0, rest)

  -- The contents of one file: `read_aead_bytes`, and the comparison of the size.
  unfoldable pub recv_contents : ℕ → Bytes → Result (Bytes × Bytes) ClipError
  recv_contents size input = do
    read ← from_stream (read_aead_bytes x password (suc (length input)) size input)
    _ ← require (length (read.0) == size) size_mismatch
    ok read

  -- A round of the loop over the files. `creates` says where the file system makes a file or a
  -- directory.
  unfoldable pub recv_file :
      (FilePath → Bool) → FilePath → ClipFileMeta → Files → Files × Result (Unit {0}) ClipError
  unfolding recv_contents note_root store
  recv_file creates dest meta fs = elim (safe_rel_path meta.name) [
    | none ↦ (fs, err bad_name)
    | some rel ↦ elim (confined dest rel) [
      | none ↦ (fs, err bad_name)
      | some path ↦
          let fs' = record fs {
            made = fs.made ++ path ∷ [];
            roots = note_root dest rel fs.roots;
          } in
          if not (creates path)
          then (fs', err file_error)
          else if meta.dir
          then (fs', ok tt)
          else store path fs' (recv_contents meta.size fs.rest)
    ]
  ]

  unfoldable pub recv_files :
      (FilePath → Bool) → FilePath → List ClipFileMeta → Files → Files × Result (Unit {0}) ClipError
  unfolding recv_file
  recv_files creates dest [] fs = (fs, ok tt)
  recv_files creates dest (meta ∷ metas) fs =
      let (fs', result) = recv_file creates dest meta fs in
      elim result [ ok done ↦ recv_files creates dest metas fs' | err problem ↦ (fs', err problem) ]

  unfoldable pub files_done : ClipOffer → Files × Result (Unit {0}) ClipError → Receipt
  unfolding verify_done
  files_done offer (fs, result) = record {
    made = fs.made;
    written = fs.written;
    result = do
      _ ← result
      rest ← verify_done offer.id fs.hashed fs.rest
      ok (record { kind = files_clip; text = none; png = none; files = fs.roots }, rest);
  }

  unfoldable pub in_memory : ClipKind → Bytes → IncomingClip
  in_memory text_clip body = record { kind = text_clip; text = some body; png = none; files = [] }
  in_memory kind body = record { kind = kind; text = none; png = some body; files = [] }

  unfoldable pub recv_text : ClipOffer → Bytes → Receipt
  unfolding recv_body in_memory
  recv_text offer input = record {
    made = [];
    written = [];
    result = do
      got ← recv_body offer input
      _ ← require (code.is_utf8 (got.0)) not_utf8
      ok (in_memory text_clip (got.0), got.1);
  }

  unfoldable pub recv_png : ClipOffer → Bytes → Receipt
  unfolding recv_body in_memory
  recv_png offer input = record {
    made = [];
    written = [];
    result = do
      got ← recv_body offer input
      ok (in_memory png_clip (got.0), got.1);
  }

  unfoldable pub recv_listed : (FilePath → Bool) → FilePath → ClipOffer → Bytes → Receipt
  unfolding recv_files files_done expected_size
  recv_listed creates dest offer input =
      if not (creates dest)
      then record { made = dest ∷ []; written = []; result = err file_error }
      else if not (expected_size offer.files % u64_size == offer.byte_len)
      then record { made = dest ∷ []; written = []; result = err sizes_differ }
      else files_done offer (
          recv_files creates dest offer.files
            (record { made = dest ∷ []; written = []; hashed = []; roots = []; rest = input }))

  unfoldable pub recv_kind : (FilePath → Bool) → FilePath → ClipKind → ClipOffer → Bytes → Receipt
  unfolding recv_text recv_png recv_listed
  recv_kind creates dest text_clip offer input = recv_text offer input
  recv_kind creates dest png_clip offer input = recv_png offer input
  recv_kind creates dest files_clip offer input = recv_listed creates dest offer input

  -- `recv_clip`. `used` is the size of the inbox after `prune_inbox`.
  unfoldable pub recv_clip : (FilePath → Bool) → ℕ → FilePath → ClipOffer → Bytes → Receipt
  unfolding recv_kind join_path
  recv_clip creates used clip_dir offer input =
      if ltb (kind_max offer.kind) offer.byte_len
      then refuse over_limit
      else if ltb clip_max_entries (length offer.files)
      then refuse too_many_files
      else if ltb clip_inbox_cap (used + offer.byte_len)
      then refuse inbox_full
      else recv_kind creates (join_path clip_dir offer.id) offer.kind offer input
