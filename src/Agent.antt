-- ===== src/Agent.antt =====
-- crates/nexus-agent: what the agents of two machines say to each other, and the limits of it.
pub mod Stream
pub mod Paths
pub mod Engine
pub mod Receive
pub mod Clipboard
pub mod Trees
pub mod Send
pub mod Inbox
use nexus_kvm.Base.{ℕ}

abbrev pub clip_max_text : ℕ
clip_max_text = 2097152

abbrev pub clip_max_png : ℕ
clip_max_png = 16777216

abbrev pub clip_max_files : ℕ
clip_max_files = 67108864

abbrev pub clip_inbox_cap : ℕ
clip_inbox_cap = 268435456

abbrev pub clip_max_entries : ℕ
clip_max_entries = 2048

abbrev pub line_max : ℕ
line_max = 524288

abbrev pub chunk_size : ℕ
chunk_size = 65536

pub data ClipKind : Type 0 where
  text_clip png_clip files_clip : ClipKind

-- `kind_max`
unfoldable pub kind_max : ClipKind → ℕ
kind_max text_clip = clip_max_text
kind_max png_clip = clip_max_png
kind_max files_clip = clip_max_files
