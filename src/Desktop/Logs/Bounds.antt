-- ===== src/Desktop/Logs/Bounds.antt =====
-- How large the live file of a log can be.
use nexus_kvm.Base.{ℕ, ◌+◌, ◌≤◌, ◌≡◌, true, Option, some, length}
use nexus_kvm.Desktop.Logs.{log_max, size, Place, on_live, Logs, Turn}

-- A full live file can be renamed, and the line is not longer than a file.
pub record IsFine (t : Turn) : Type 0 where
  pub renames : t.renames ≡ true
  pub short : length t.line ≤ log_max

-- What a pump has counted of the live file at most.
abbrev pub share : ℕ → Option Place → ℕ
share written (some on_live) = written
share written _ = 0

-- No pump has counted more than a file, and what the live file holds was counted.
pub record IsCounted (l : Logs) : Type 0 where
  pub mine : l.mine.written ≤ log_max
  pub other : l.other.written ≤ log_max
  pub live : size l.live ≤ share l.mine.written l.mine.file + share l.other.written l.other.file
