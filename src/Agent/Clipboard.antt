-- ===== src/Agent/Clipboard.antt =====
-- crates/nexus-agent/src/clipboard.rs: the URIs of copied files, and when the watcher sends what is on
-- the clipboard. The clipboard itself is a library: a poll takes the fingerprint of what it holds, and
-- whether it can be sent. Times are in milliseconds.
pub mod Uris
pub mod Retries
use Prim.Native.Nat.{min}
use nexus_kvm.Base.{
  ℕ, ◌+◌, ◌-◌, ◌*◌, ◌/◌, ◌%◌, ◌^◌, Bool, true, false, not, ◌&&◌, ◌||◌, Option, none, some, List, [],
  ◌∷◌, ◌++◌, leb, ltb, ◌==◌, if◌then◌else◌, is_empty, holds,
}
use nexus_kvm.Common.Auth.{Bytes}
use nexus_kvm.Common.Auth.Replay.{bytes_dec}

-- The bytes that a URI keeps: letters, digits and `/`, `-`, `_`, `.`, `~`.
unfoldable pub keeps_byte : ℕ → Bool
keeps_byte b =
    (leb 48 b && leb b 57)
    || ((leb 65 b && leb b 90)
        || ((leb 97 b && leb b 122)
            || (b == 47 || (b == 45 || (b == 95 || (b == 46 || b == 126))))))

-- A digit of `{:02X}`.
unfoldable pub hex_digit : ℕ → ℕ
hex_digit d = if ltb d 10 then 48 + d else 55 + d

-- The loop of `path_to_uri`.
unfoldable pub uri_bytes : Bytes → Bytes
unfolding keeps_byte hex_digit
uri_bytes [] = []
uri_bytes (b ∷ path) =
    let rest = uri_bytes path in
    if keeps_byte b then b ∷ rest else 37 ∷ hex_digit (b / 16) ∷ hex_digit (b % 16) ∷ rest

-- The bytes of "file://".
abbrev pub file_scheme : Bytes
file_scheme = 102 ∷ 105 ∷ 108 ∷ 101 ∷ 58 ∷ 47 ∷ 47 ∷ []

unfoldable pub path_to_uri : Bytes → Bytes
unfolding uri_bytes
path_to_uri path = file_scheme ++ uri_bytes path

unfoldable pub hex_nibble : ℕ → Option ℕ
hex_nibble b =
    if leb 48 b && leb b 57
    then some (b - 48)
    else if leb 97 b && leb b 102
    then some (b - 87)
    else if leb 65 b && leb b 70
    then some (b - 55)
    else none

-- A byte that two digits stand for, in front of the rest, or else what is left as it was.
unfoldable pub coded : Option ℕ → Option ℕ → Bytes → Bytes → Bytes
coded (some a) (some b) rest plain = (a * 16 + b) ∷ rest
coded _ _ rest plain = plain

-- The loop of `percent_decode`.
unfoldable pub percent_decode : Bytes → Bytes
unfolding hex_nibble coded
percent_decode [] = []
percent_decode (b ∷ []) = b ∷ []
percent_decode (b ∷ h ∷ []) = b ∷ h ∷ []
percent_decode (b ∷ h ∷ l ∷ more) =
    let plain = b ∷ percent_decode (h ∷ l ∷ more) in
    let rest = percent_decode more in
    if b == 37 then coded (hex_nibble h) (hex_nibble l) rest plain else plain

unfoldable pub strip_prefix : Bytes → Bytes → Option Bytes
strip_prefix [] t = some t
strip_prefix (p ∷ ps) [] = none
strip_prefix (p ∷ ps) (c ∷ t) = let rest = strip_prefix ps t in if p == c then rest else none

-- The path of a line of `parse_uri_list` that is neither empty nor a comment.
unfoldable pub uri_path : Bytes → Option Bytes
unfolding strip_prefix percent_decode
uri_path line = elim (strip_prefix file_scheme line) [
  | some rest ↦ some (percent_decode rest)
  | none ↦ elim line [ [] ↦ none | c ∷ t ↦ if c == 47 then some (c ∷ t) else none ]
]

abbrev pub retry_base : ℕ
retry_base = 2000

abbrev pub retry_max : ℕ
retry_max = 60000

pub record SendGate : Type 0 where
  pub fp : Bytes
  pub fails : ℕ
  pub next_try : ℕ

-- What the watcher shares with the task that sends.
pub record Watch : Type 0 where
  pub last_fp : Bytes
  pub sending : Bool
  pub gate : Option SendGate

-- `2u32.saturating_pow`, `RETRY_BASE *` and `min(RETRY_MAX)`.
unfoldable pub backoff : ℕ → ℕ
backoff fails = min (retry_base * min (2 ^ (fails - 1)) 4294967295) retry_max

unfoldable pub held_back : ℕ → Bytes → Option SendGate → Bool
held_back now fp none = false
held_back now fp (some g) = holds (bytes_dec g.fp fp) && ltb now g.next_try

-- A poll of the loop of `spawn_watch`, where a peer and a password are set or not. If it starts to
-- send, it gives the fingerprint from before.
unfoldable pub poll : ℕ → Bool → Bytes → Bool → Watch → Watch × Option Bytes
unfolding held_back
poll now has_peer fp can_send w =
    if w.sending || not has_peer
    then (w, none)
    else if is_empty fp
    then (w, none)
    else if held_back now fp w.gate
    then (w, none)
    else if holds (bytes_dec w.last_fp fp)
    then (w, none)
    else if can_send
    then (record w { last_fp = fp; sending = true }, some w.last_fp)
    else (record w { last_fp = fp }, none)

unfoldable pub fails_of : Bytes → Option SendGate → ℕ
fails_of fp none = 1
fails_of fp (some g) = if holds (bytes_dec g.fp fp) then g.fails + 1 else 1

-- The end of the task that sends.
unfoldable pub finish : ℕ → Bytes → Bytes → Bool → Watch → Watch
unfolding fails_of backoff
finish now fp prev sent w =
    let fails = fails_of fp w.gate in
    if sent then record w { gate = none; sending = false } else record {
      last_fp = if holds (bytes_dec w.last_fp fp) then prev else w.last_fp;
      sending = false;
      gate = some (record { fp = fp; fails = fails; next_try = now + backoff fails });
    }
