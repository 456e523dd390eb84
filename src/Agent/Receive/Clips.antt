-- ===== src/Agent/Receive/Clips.antt =====
-- What `recv_clip` in crates/nexus-agent/src/peer_channel.rs accepts and writes.
use nexus_kvm.Base.{◌≡◌, List, ◌++◌, All}
use nexus_kvm.Common.Auth.{Bytes}
use nexus_kvm.Agent.Paths.{Text}
use nexus_kvm.Agent.Paths.Names.{IsSafe}
use nexus_kvm.Agent.Receive.{FilePath}

-- A path in a directory, by safe components.
abbrev pub IsBelow : FilePath → FilePath → Type 0
IsBelow dest path = (parts : List Text) × (path ≡ dest ++ parts) × All IsSafe parts

-- What is made, and where contents are written.
abbrev pub AllBelow : FilePath → List FilePath → List (FilePath × Bytes) → Type 0
AllBelow dest made written =
    All (IsBelow dest) made × All (λ (w : FilePath × Bytes). IsBelow dest w.0) written
