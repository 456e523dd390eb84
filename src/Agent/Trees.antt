-- ===== src/Agent/Trees.antt =====
-- crates/nexus-agent/src/peer_channel.rs: `push_tree`, which lists a copied file or folder. The file
-- system is a tree: the children of a folder stand in the order of their names.
pub mod Limits
use Prim.Native.Nat.{min}
use nexus_kvm.Base.{
  ℕ, ◌+◌, ◌-◌, Bool, true, false, Option, none, some, List, [], ◌∷◌, ◌++◌, leb, ltb, length,
  if◌then◌else◌, Result, ok, err,
}
use nexus_kvm.Agent.{clip_max_files, clip_max_entries}
use nexus_kvm.Agent.Paths.{Text, safe_rel_path, safe_file_name}

abbrev pub clip_max_depth : ℕ
clip_max_depth = 16

abbrev pub u64_max : ℕ
u64_max = 18446744073709551615

-- A file with its size, and whether it can be opened; what has no metadata is `missing`. The children
-- of a folder end with `unreadable` where the file system gives an error.
mutual
  pub data Tree : Type 0 where
    file : ℕ → Bool → Tree
    folder : Trees → Tree
    symlink special missing : Tree

  pub data Trees : Type 0 where
    no_more unreadable : Trees
    child : Text → Tree → Trees → Trees

-- The path on the disk is left out.
pub record ClipEntry : Type 0 where
  pub rel : Text
  pub dir : Bool
  pub size : ℕ

pub data PushError : Type 0 where
  too_many too_deep no_metadata bad_path too_large : PushError

-- `out` and `total`.
pub record Pushed : Type 0 where
  pub out : List ClipEntry
  pub total : ℕ

unfoldable pub push_file : ℕ → Bool → Text → Pushed → Result Pushed PushError
push_file size opens rel acc =
    let total = min (acc.total + size) u64_max in
    if opens
    then if ltb clip_max_files total
      then err too_large
      else ok (record {
        out = acc.out ++ (record { rel = rel; dir = false; size = size }) ∷ [];
        total = total;
      })
    else ok acc

unfoldable pub push_folder : Text → Pushed → Pushed
push_folder rel acc = record acc {
  out = acc.out ++ (record { rel = rel; dir = true; size = 0 }) ∷ [];
}

-- The two tests before a path is looked at.
unfoldable pub check_room : ℕ → Pushed → Result (Unit {0}) PushError
check_room depth acc =
    if leb clip_max_entries (length acc.out)
    then err too_many
    else if ltb clip_max_depth depth
    then err too_deep
    else ok tt

-- A child's path: the folder's, a slash and the child's name.
abbrev pub below : Text → Text → Text
below rel seg = rel ++ 47 ∷ seg

abbrev pub gated : Result (Unit {0}) PushError → Result Pushed PushError → Result Pushed PushError
gated (ok done) rest = rest
gated (err problem) rest = err problem

abbrev pub is_symlink : Tree → Bool
is_symlink symlink = true
is_symlink _ = false

-- `ok_or_else(|| anyhow!("bad clip path"))?`
abbrev pub with_rel : Option Text → (Text → Result Pushed PushError) → Result Pushed PushError
with_rel none rest = err bad_path
with_rel (some rel) rest = rest rel

abbrev pub and_then :
    Result Pushed PushError → (Pushed → Result Pushed PushError) → Result Pushed PushError
and_then (err problem) rest = err problem
and_then (ok acc) rest = rest acc

unfoldable mutual
  unfolding push_file push_folder check_room

  pub push_tree : Tree → Text → ℕ → Pushed → Result Pushed PushError
  push_tree missing rel depth acc = gated (check_room depth acc) (err no_metadata)
  push_tree symlink rel depth acc = gated (check_room depth acc) (ok acc)
  push_tree special rel depth acc =
      gated (check_room depth acc) (with_rel (safe_rel_path rel) (λ r. ok acc))
  push_tree (file size opens) rel depth acc =
      gated (check_room depth acc) (with_rel (safe_rel_path rel) (λ r. push_file size opens r acc))
  push_tree (folder children) rel depth acc =
      gated (check_room depth acc)
        (with_rel (safe_rel_path rel) (λ r. push_children children r depth (push_folder r acc)))

  pub push_children : Trees → Text → ℕ → Pushed → Result Pushed PushError
  push_children no_more rel depth acc = ok acc
  push_children unreadable rel depth acc = err no_metadata
  push_children (child name tree rest) rel depth acc =
      let skipped = push_children rest rel depth acc in
      if is_symlink tree then skipped else elim (safe_file_name name) [
        | none ↦ skipped
        | some seg ↦
            and_then (push_tree tree (below rel seg) (depth + 1) acc)
              (λ next. push_children rest rel depth next)
      ]
