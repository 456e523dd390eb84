-- ===== src/Agent/Inbox.antt =====
-- crates/nexus-agent/src/peer_channel.rs: `dir_size`, `prune_inbox`, and what `recv_clip` does of them.
-- The file system is a tree. The size of a folder does not depend on the order of its entries, so the
-- inbox is kept in the order in which `prune_inbox` goes through it.
pub mod Full
use nexus_kvm.Base.{
  ℕ, Bool, true, false, Option, none, some, List, [], ◌∷◌, ◌++◌, ltb, if◌then◌else◌,
}
use nexus_kvm.Common.Auth.{Bytes, Crypto}
use nexus_kvm.Agent.{clip_inbox_cap}
use nexus_kvm.Agent.Receive.{FilePath, ClipOffer, PeerCode}
use nexus_kvm.Agent.Receive.Clip.{Receipt, recv_clip}
use nexus_kvm.Agent.Send.{sat_add}

-- What has no metadata, or is a folder that cannot be read, counts for nothing.
mutual
  pub data Node : Type 0 where
    sized : ℕ → Node
    folder : Nodes → Node
    closed : Node

  pub data Nodes : Type 0 where
    no_more : Nodes
    next : Node → Nodes → Nodes

unfoldable mutual
  -- An entry of `dir_size`.
  pub node_size : Node → ℕ
  node_size (sized n) = n
  node_size (folder nodes) = size_from 0 nodes
  node_size closed = 0

  pub size_from : ℕ → Nodes → ℕ
  size_from total no_more = total
  size_from total (next node nodes) = size_from (sat_add total (node_size node)) nodes

-- An entry of the inbox: when it was modified, if that is known, and what `remove_dir_all` and
-- `remove_file` leave of it.
pub record Entry : Type 0 where
  pub node : Node
  pub modified : Option ℕ
  pub left : Option Node

unfoldable pub nodes_of : List Entry → Nodes
nodes_of [] = no_more
nodes_of (e ∷ entries) = next e.node (nodes_of entries)

-- `dir_size` of the inbox.
unfoldable pub dir_size : List Entry → ℕ
unfolding size_from nodes_of
dir_size entries = size_from 0 (nodes_of entries)

-- The order of `Option`: what is not known is first.
unfoldable pub is_before : Option ℕ → Option ℕ → Bool
is_before none none = false
is_before none (some b) = true
is_before (some a) none = false
is_before (some a) (some b) = ltb a b

unfoldable pub put : Entry → List Entry → List Entry
unfolding is_before
put e [] = e ∷ []
put e (f ∷ entries) =
    let rest = put e entries in
    if is_before f.modified e.modified then f ∷ rest else e ∷ f ∷ entries

-- `sort_by_key`, which is stable.
unfoldable pub by_age : List Entry → List Entry
unfolding put
by_age [] = []
by_age (e ∷ entries) = put e (by_age entries)

-- An entry that was removed.
unfoldable pub remains : Entry → List Entry
remains e = elim e.left [ none ↦ [] | some node ↦ record e { node = node } ∷ [] ]

-- The loop: what removals left, and the entries that are still to be tried.
unfoldable pub prune_loop : List Entry → List Entry → List Entry
unfolding dir_size remains
prune_loop tried [] = tried
prune_loop tried (oldest ∷ entries) =
    let rest = prune_loop (tried ++ remains oldest) entries in
    if ltb clip_inbox_cap (dir_size (tried ++ oldest ∷ entries))
    then rest
    else tried ++ oldest ∷ entries

-- `prune_inbox`, if the inbox can be listed.
unfoldable pub prune_inbox : Bool → List Entry → List Entry
unfolding by_age prune_loop
prune_inbox false entries = entries
prune_inbox true entries = prune_loop [] (by_age entries)

-- `recv_clip` in an inbox: the inbox after `prune_inbox`, and what is received.
unfoldable pub recv_in :
    (x : Crypto) (code : PeerCode) (password : Bytes) (now : ℕ)
    → (FilePath → Bool)
    → Bool
    → List Entry
    → FilePath
    → ClipOffer
    → Bytes
    → List Entry × Receipt
unfolding prune_inbox
recv_in x code password now creates lists entries clip_dir offer input =
    let pruned = prune_inbox lists entries in
    (pruned, recv_clip x code password now creates (dir_size pruned) clip_dir offer input)
