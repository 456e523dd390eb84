-- ===== src/Desktop/Logs.antt =====
-- src-tauri/src/runtime.rs: the logs of the services (`strip_ansi`, `rotate_if_needed` and the loop of
-- `spawn_log_pump`). Texts are lists of bytes, and the text of `strip_ansi` is the
-- list of its characters. What the file system does with a call is an argument.
pub mod Stripped
pub mod Bounds
use nexus_kvm.Base.{
  Option, none, some, ℕ, zero, suc, ◌+◌, ◌-◌, String, Bool, true, false, not, ◌&&◌, ◌||◌, Option,
  none, some, List, [], ◌∷◌, ◌++◌, ◌==◌, ltb, leb, if◌then◌else◌, length, keep_if,
}

abbrev pub Bytes : Type 0
Bytes = List ℕ

unfoldable pub is_digit : ℕ → Bool
is_digit c = leb b'0' c && leb c b'9'

-- The bytes that end a control sequence, `@` to `~`.
unfoldable pub is_final : ℕ → Bool
is_final c = leb 64 c && leb c 126

-- Behind the end of a control sequence.
unfoldable pub skip_csi : Bytes → Bytes
skip_csi [] = []
skip_csi (c ∷ bytes) = let rest = skip_csi bytes in if is_final c then bytes else rest

-- Behind digits and `;`
unfoldable pub skip_params : Bytes → Bytes
skip_params [] = []
skip_params (c ∷ bytes) =
    let rest = skip_params bytes in if is_digit c || c == b';' then rest else c ∷ bytes

unfoldable pub starts_with : (ℕ → Bool) → Bytes → Bool
starts_with p [] = false
starts_with p (c ∷ bytes) = p c

unfoldable pub tail : Bytes → Bytes
tail [] = []
tail (c ∷ bytes) = bytes

-- `bytes[i] == 0x1b` with `[` behind it
unfoldable pub is_escape : ℕ → Bytes → Bool
unfolding starts_with
is_escape c bytes = c == 27 && starts_with (λ d. d == b'[') bytes

-- `[`, a digit, and `m` or `K` behind the parameters: a sequence without its escape.
unfoldable pub is_leftover : ℕ → Bytes → Bool
unfolding starts_with skip_params is_digit
is_leftover c bytes =
    c == b'['
    && starts_with is_digit bytes
    && starts_with (λ d. d == b'm' || d == b'K') (skip_params bytes)

-- `strip_ansi`, on fuel: each round takes a byte or more.
unfoldable pub strip : ℕ → Bytes → Bytes
strip zero bytes = []
strip (suc fuel) [] = []
strip (suc fuel) (c ∷ bytes) = elim (is_escape c bytes) [
  | true ↦ strip fuel (skip_csi (tail bytes))
  | false ↦ elim (is_leftover c bytes) [
    | true ↦ strip fuel (tail (skip_params bytes))
    | false ↦ c ∷ strip fuel bytes
  ]
]

unfoldable pub strip_ansi : Bytes → Bytes
unfolding strip is_escape is_leftover skip_csi skip_params is_final is_digit tail
strip_ansi bytes = strip (length bytes) bytes

-- `LOG_MAX_BYTES`
abbrev pub log_max : ℕ
log_max = 8388608

abbrev pub size : List Bytes → ℕ
size [] = 0
size (line ∷ lines) = length line + size lines

-- What a pump's file has become of: the live file, the rotated one, or one that was deleted.
pub data Place : Type 0 where
  on_live on_rotated gone : Place

-- A pump: its count of bytes, and its file, if it could be opened.
pub record Pump : Type 0 where
  pub written : ℕ
  pub file : Option Place

-- `spawn_logged` starts two pumps on the two files of a service, here by their lines: `mine` is the one
-- that has a line, `other` is the other one.
pub record Logs : Type 0 where
  pub live : List Bytes
  pub rotated : List Bytes
  pub mine : Pump
  pub other : Pump

-- A line that a pump reads; if the live file can be renamed and opened again when it is full, and if
-- the line is written.
pub record Turn : Type 0 where
  pub line : Bytes
  pub renames : Bool
  pub opens : Bool
  pub writes : Bool

-- The other pump's file when the rotated file is deleted, and the live one takes its place.
unfoldable pub after_rename : Option Place → Option Place
after_rename none = none
after_rename (some on_live) = some on_rotated
after_rename (some on_rotated) = some gone
after_rename (some gone) = some gone

-- Its file when only the rotated file is deleted.
unfoldable pub after_removal : Option Place → Option Place
after_removal none = none
after_removal (some on_live) = some on_live
after_removal (some on_rotated) = some gone
after_removal (some gone) = some gone

unfoldable pub reopened : Bool → Pump
reopened opens = record { written = 0; file = if opens then some on_live else none }

-- The live file becomes the rotated one, which it replaces.
unfoldable pub rotate : Bool → Bool → Logs → Logs
unfolding after_rename after_removal reopened
rotate true opens l = record {
  live = [];
  rotated = l.live;
  mine = reopened opens;
  other = record l.other { file = after_rename l.other.file };
}
rotate false opens l = record {
  live = l.live;
  rotated = [];
  mine = reopened opens;
  other = record l.other { file = after_removal l.other.file };
}

unfoldable pub make_room : Turn → Logs → Logs
unfolding rotate
make_room t l =
    if ltb log_max (l.mine.written + length t.line) then rotate t.renames t.opens l else l

-- A line at the end of a pump's file, wherever that is by now.
unfoldable pub append : Option Place → Bytes → Logs → Logs
append none line l = l
append (some place) line l =
    let counted = record l.mine { written = l.mine.written + length line } in
    elim place [
      | on_live ↦ record l { live = l.live ++ line ∷ []; mine = counted }
      | on_rotated ↦ record l { rotated = l.rotated ++ line ∷ []; mine = counted }
      | gone ↦ record l { mine = counted }
    ]

unfoldable pub write_line : Turn → Logs → Logs
unfolding append
write_line t l = if t.writes then append l.mine.file t.line l else l

-- A round of the loop of `spawn_log_pump`.
unfoldable pub pump : Turn → Logs → Logs
unfolding make_room write_line
pump t l = write_line t (make_room t l)

abbrev pub swapped : Logs → Logs
swapped l = record l { mine = l.other; other = l.mine }

-- Rounds of the two pumps, in any order: a line of the one (true) or of the other (false).
unfoldable pub pump_all : List (Bool × Turn) → Logs → Logs
unfolding pump
pump_all [] l = l
pump_all ((true, t) ∷ turns) l = pump_all turns (pump t l)
pump_all ((false, t) ∷ turns) l = pump_all turns (swapped (pump t (swapped l)))

-- `rotate_if_needed`, before a service is started.
unfoldable pub rotate_if_needed : Bool → List Bytes × List Bytes → List Bytes × List Bytes
rotate_if_needed renames (live, rotated) =
    if leb (size live) log_max then (live, rotated) else if renames then ([], live) else (live, [])
