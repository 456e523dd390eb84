-- ===== src/Agent/Trees/Limits.antt =====
-- What `push_tree` in crates/nexus-agent/src/peer_channel.rs can list.
use Prim.Native.Nat.{min}
use nexus_kvm.Base.{
  ℕ, ◌+◌, ◌≤◌, ◌<◌, ◌≡◌, subst, Bool, true, false, Option, none, some, List, [], ◌∷◌, ◌++◌, ltb,
  leb, length, length-append, All, All-append, if_intro, Result, ok, err, arith, Option-cases, inl,
  inr,
}
use nexus_kvm.Agent.{clip_max_files, clip_max_entries}
use nexus_kvm.Agent.Paths.{Text, safe_rel_path, safe_file_name}
use nexus_kvm.Agent.Paths.Safe.{safe_rel_path_again}
use nexus_kvm.Agent.Trees.{
  Tree, Trees, file, folder, symlink, special, missing, no_more, unreadable, child, ClipEntry,
  PushError, Pushed, push_file, push_folder, check_room, below, gated, is_symlink, with_rel,
  and_then, push_tree, push_children, clip_max_depth, u64_max,
}

-- The sizes of the entries together.
unfoldable pub sizes_of : List ClipEntry → ℕ
sizes_of [] = 0
sizes_of (e ∷ entries) = e.size + sizes_of entries

sizes_of-snoc :
    (entries : List ClipEntry) (e : ClipEntry)
    → sizes_of (entries ++ e ∷ []) ≡ sizes_of entries + e.size
unfolding sizes_of
sizes_of-snoc [] e = omega arith
sizes_of-snoc (f ∷ entries) e = omega (arith, sizes_of-snoc entries e)

-- A list that can be offered: not too many entries, not too many bytes, and paths that the other side
-- keeps as they are.
pub record IsOffered (p : Pushed) : Type 0 where
  pub few : length p.out ≤ clip_max_entries
  pub counted : p.total ≡ sizes_of p.out
  pub small : sizes_of p.out ≤ clip_max_files
  pub safe : All (λ e. safe_rel_path e.rel ≡ some e.rel) p.out

abbrev pub Offered : Result Pushed PushError → Type 0
Offered (err problem) = Unit
Offered (ok p) = IsOffered p

gated-IsOffered :
    (depth : ℕ) (acc : Pushed) (rest : Result Pushed PushError)
    → (length acc.out < clip_max_entries → Offered rest)
    → Offered (gated (check_room depth acc) rest)
unfolding check_room
gated-IsOffered depth acc rest h =
    if_intro {A = Result (Unit {0}) PushError} (λ r. Offered (gated r rest))
      (leb clip_max_entries (length acc.out)) (λ _. tt)
      (λ free.
        if_intro {A = Result (Unit {0}) PushError} (λ r. Offered (gated r rest))
          (ltb clip_max_depth depth) (λ _. tt) (λ _. h (ground arith)))

with_rel-IsOffered :
    (rel : Text) (rest : Text → Result Pushed PushError)
    → ((r : Text) → safe_rel_path r ≡ some r → Offered (rest r))
    → Offered (with_rel (safe_rel_path rel) rest)
with_rel-IsOffered rel rest h = elim (Option-cases (safe_rel_path rel)) [
  | inl e ↦ rw e tt
  | inr (r, e) ↦ rw e (h r (safe_rel_path_again rel r e))
]

snoc-IsOffered :
    (e : ClipEntry) (acc : Pushed) (total : ℕ)
    → length acc.out < clip_max_entries
    → total ≡ acc.total + e.size
    → total ≤ clip_max_files
    → safe_rel_path e.rel ≡ some e.rel
    → IsOffered acc
    → IsOffered (record { out = acc.out ++ e ∷ []; total = total })
snoc-IsOffered e acc total free sum small safe v = record {
  few = omega (arith, length-append acc.out (e ∷ []));
  counted = omega (arith, sum, v.counted, sizes_of-snoc acc.out e);
  small = omega (arith, sum, small, v.counted, sizes_of-snoc acc.out e);
  safe = All-append (λ e. safe_rel_path e.rel ≡ some e.rel) acc.out (e ∷ []) v.safe (safe, tt);
}

push_file-IsOffered :
    (size : ℕ) (opens : Bool) (rel : Text) (acc : Pushed)
    → length acc.out < clip_max_entries
    → safe_rel_path rel ≡ some rel
    → IsOffered acc
    → Offered (push_file size opens rel acc)
unfolding push_file
push_file-IsOffered size opens rel acc free safe v =
    if_intro {A = Result Pushed PushError} Offered opens
      (λ _.
        if_intro {A = Result Pushed PushError} Offered
          (ltb clip_max_files (min (acc.total + size) u64_max)) (λ _. tt)
          (λ fits.
            snoc-IsOffered (record { rel = rel; dir = false; size = size }) acc
              (min (acc.total + size) u64_max) free (ground arith) (ground arith) safe v))
      (λ _. v)

named-IsOffered :
    (o : Option Text) (skipped : Result Pushed PushError) (rest : Text → Result Pushed PushError)
    → Offered skipped
    → ((seg : Text) → Offered (rest seg))
    → Offered (elim o [ none ↦ skipped | some seg ↦ rest seg ])
named-IsOffered none skipped rest h k = h
named-IsOffered (some seg) skipped rest h k = k seg

and_then-IsOffered :
    (r : Result Pushed PushError) (rest : Pushed → Result Pushed PushError)
    → Offered r
    → ((p : Pushed) → IsOffered p → Offered (rest p))
    → Offered (and_then r rest)
and_then-IsOffered (err problem) rest h k = tt
and_then-IsOffered (ok p) rest h k = k p h

mutual
  unfolding push_tree push_children push_folder

  push_tree-IsOffered :
      (tree : Tree) (rel : Text) (depth : ℕ) (acc : Pushed)
      → IsOffered acc
      → Offered (push_tree tree rel depth acc)
  push_tree-IsOffered missing rel depth acc v = gated-IsOffered depth acc _ (λ _. tt)
  push_tree-IsOffered symlink rel depth acc v = gated-IsOffered depth acc (ok acc) (λ _. v)
  push_tree-IsOffered special rel depth acc v =
      gated-IsOffered depth acc _ (λ _. with_rel-IsOffered rel (λ r. ok acc) (λ r e. v))
  push_tree-IsOffered (file size opens) rel depth acc v = gated-IsOffered depth acc _ (λ free.
      with_rel-IsOffered rel (λ r. push_file size opens r acc)
        (λ r e. push_file-IsOffered size opens r acc free e v))
  push_tree-IsOffered (folder children) rel depth acc v = gated-IsOffered depth acc _ (λ free.
      with_rel-IsOffered rel (λ r. push_children children r depth (push_folder r acc))
        (λ r e. push_children-IsOffered children r depth (push_folder r acc) (
          snoc-IsOffered (record { rel = r; dir = true; size = 0 }) acc acc.total free (omega arith)
            (omega (arith, v.counted, v.small)) e v)))

  push_children-IsOffered :
      (children : Trees) (rel : Text) (depth : ℕ) (acc : Pushed)
      → IsOffered acc
      → Offered (push_children children rel depth acc)
  push_children-IsOffered no_more rel depth acc v = v
  push_children-IsOffered unreadable rel depth acc v = tt
  push_children-IsOffered (child name tree rest) rel depth acc v =
      let later = push_children-IsOffered rest rel depth acc v in
      if_intro {A = Result Pushed PushError} Offered (is_symlink tree) (λ _. later)
        (λ _.
          named-IsOffered (safe_file_name name) (push_children rest rel depth acc)
            (λ seg.
              and_then (push_tree tree (below rel seg) (depth + 1) acc)
                (λ next. push_children rest rel depth next))
            later
            (λ seg.
              and_then-IsOffered (push_tree tree (below rel seg) (depth + 1) acc)
                (λ next. push_children rest rel depth next)
                (push_tree-IsOffered tree (below rel seg) (depth + 1) acc v)
                (λ next w. push_children-IsOffered rest rel depth next w)))

-- What is listed of a tree, if it is listed, can be offered: it has not more than 2048 entries and
-- the sizes of its files come to no more than 64 MiB, both with what was listed before, and each of its paths is one that the other side takes
-- as it is.
pub push_tree-offers :
    (tree : Tree) (rel : Text) (depth : ℕ) (acc p : Pushed)
    → IsOffered acc
    → push_tree tree rel depth acc ≡ ok p
    → IsOffered p
push_tree-offers tree rel depth acc p v e =
    subst Offered e (push_tree-IsOffered tree rel depth acc v)
