-- ===== src/Scenarios/Clips.antt =====
-- Runs of the clipboard transfer between the agents.
use nexus_kvm.Base.{ℕ, zero, suc, ◌≡◌, refl, true, false, none, some, [], ◌∷◌, ◌++◌, ok, arith, All}
use nexus_kvm.Common.Auth.{
  Bytes, aead_crypt, derive_aead_key, open_envelope, decode_nonce, secret_ok,
}
use nexus_kvm.Common.Auth.Replay.{empty, empty-IsValid, check, check_decoded, check_nonce}
use nexus_kvm.Agent.{text_clip, files_clip}
use nexus_kvm.Agent.Paths.{
  Text, split, safe_parts, safe_file_name, file_name, last_name, cleaned_name, clean, is_allowed,
  is_blank, joined, join_parts, safe_rel_path,
}
use nexus_kvm.Agent.Paths.Names.{Allowed}
use nexus_kvm.Agent.Paths.Safe.{safe_rel_path_cut}
use nexus_kvm.Agent.Receive.{ClipOffer, PeerCode, clip_done, ping_message, FilePath}
use nexus_kvm.Agent.Receive.Clip.{decode_msg}
use nexus_kvm.Agent.Receive.Conn.{
  Line, handle_line, guard_after, on_checked, on_message, answers, envelope_of,
}
use nexus_kvm.Agent.Receive.Lines.{handle_line-again}
use nexus_kvm.Agent.Clipboard.{Watch}
use nexus_kvm.Agent.Trees.{
  Tree, folder, file, no_more, child, Pushed, push_tree, push_file, push_folder, check_room,
}
use nexus_kvm.Agent.Trees.Limits.{sizes_of, IsOffered, push_tree-offers}
use nexus_kvm.Scenarios.Shared.{plain, secret, nonce, message, tagged, envelope}

-- The message as one sealed frame.
abbrev frame : Bytes
frame = 0 ∷ 0 ∷ 0 ∷ 30 ∷ (nonce ++ tagged message)

-- "/a/b" and "a/b"
abbrev absolute : Text
absolute = 47 ∷ 97 ∷ 47 ∷ 98 ∷ []

abbrev relative : Text
relative = 97 ∷ 47 ∷ 98 ∷ []

abbrev letters : ℕ → Text
letters zero = []
letters (suc k) = 97 ∷ letters k

letters-Allowed : (k : ℕ) → All Allowed (letters k)
unfolding is_allowed
letters-Allowed zero = tt
letters-Allowed (suc k) = (refl, letters-Allowed k)

safe_rel_path_cut_example : safe_rel_path (letters 128 ++ 45 ∷ 50 ∷ []) ≡ some (letters 128)
unfolding is_allowed is_blank
safe_rel_path_cut_example =
    safe_rel_path_cut (letters 128) (45 ∷ 50 ∷ [])
      (record {
        allowed = letters-Allowed 128;
        short = omega arith;
        no_dot = refl;
        no_dot_dot = refl;
        shown = refl;
      })
      refl (refl, (refl, tt))

-- The code of a peer that reads each line as the sealed envelope of the message `done`.
abbrev pub peer_code : PeerCode
peer_code = record {
  envelope_from = λ b. some envelope;
  message_from = λ b. some (clip_done (49 ∷ []) message);
  is_utf8 = λ b. true;
  sha256_hex = λ b. b;
  error_text = λ e. "failed";
}

abbrev text_offer : ClipOffer
text_offer = record { id = 49 ∷ []; kind = text_clip; byte_len = 2; files = [] }

abbrev file_offer : ClipOffer
file_offer = record {
  id = 49 ∷ [];
  kind = files_clip;
  byte_len = 2;
  files = record { name = relative; size = 2; dir = false } ∷ [];
}

abbrev inbox : FilePath
inbox = (105 ∷ 110 ∷ []) ∷ []

abbrev ping_code : PeerCode
ping_code = record peer_code { message_from = λ b. some ping_message }

abbrev ping_line : Line
ping_line = record {
  bytes = 68 ∷ 10 ∷ [];
  follows = [];
  now = 5060;
  used = 0;
  creates = λ p. true;
  outcome = ok none;
  replies = true;
}

handle_line-again_example :
    (handle_line plain ping_code secret none
      (guard_after plain ping_code secret none
        (handle_line plain ping_code secret none empty ping_line).guard
        (ping_line ∷ []))
      ping_line).acts
    ≡ []
unfolding handle_line envelope_of check check_decoded check_nonce empty decode_nonce on_checked
    decode_msg secret_ok open_envelope aead_crypt derive_aead_key on_message answers
handle_line-again_example =
    handle_line-again plain ping_code secret none empty ping_line ping_line (ping_line ∷ [])
      empty-IsValid (λ e. cc) refl (omega arith)

-- "/a b" with a percent sign behind it.
abbrev spaced : Bytes
spaced = 47 ∷ 97 ∷ 32 ∷ 98 ∷ 37 ∷ []

-- The watcher has noted the message as sent, and the send fails.
abbrev watching : Watch
watching = record { last_fp = message; sending = true; gate = none }

-- The folder "a" with the file "b".
abbrev small_tree : Tree
small_tree = folder (child (98 ∷ []) (file 5 true) no_more)

abbrev listed : Pushed
listed = record {
  out =
      record { rel = 97 ∷ []; dir = true; size = 0 }
      ∷ record { rel = 97 ∷ 47 ∷ 98 ∷ []; dir = false; size = 5 }
      ∷ [];
  total = 5;
}

abbrev nothing_listed : Pushed
nothing_listed = record { out = []; total = 0 }

push_tree-offers_example : IsOffered listed
unfolding sizes_of push_tree push_file push_folder check_room safe_rel_path split safe_parts
    safe_file_name file_name last_name cleaned_name clean is_allowed is_blank joined join_parts
push_tree-offers_example =
    push_tree-offers small_tree (97 ∷ []) 0 nothing_listed listed
      (record { few = omega arith; counted = refl; small = omega arith; safe = tt }) refl
