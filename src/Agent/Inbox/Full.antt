-- ===== src/Agent/Inbox/Full.antt =====
-- What `prune_inbox` removes, and what becomes of a clip that does not fit.
use nexus_kvm.Base.{
  ℕ, ◌≡◌, ◌≤◌, ◌<◌, ◌+◌, ◌⊎◌, inl, inr, refl, ap, ◌∙◌, Bool, true, false, List, [], ◌∷◌, ◌++◌,
  length, ltb, arith, Bool-cases,
}
use mathlib.Core.List.{Perm}
use mathlib.Core.List.Perm
use nexus_kvm.Common.Auth.{Bytes, Crypto}
use nexus_kvm.Agent.{clip_inbox_cap, kind_max, clip_max_entries}
use nexus_kvm.Agent.Receive.{FilePath, ClipOffer, PeerCode, inbox_full}
use nexus_kvm.Agent.Receive.Clip.{refuse, recv_clip}
use nexus_kvm.Agent.Send.{sat_add}
use nexus_kvm.Agent.Inbox.{
  size_from, node_size, Entry, nodes_of, dir_size, is_before, put, by_age, remains, prune_loop,
  prune_inbox, recv_in,
}

sat_add-swap : (t a b : ℕ) → sat_add (sat_add t a) b ≡ sat_add (sat_add t b) a
unfolding sat_add
sat_add-swap t a b = ground arith

size-put :
    (t : ℕ) (e : Entry) (entries : List Entry)
    → size_from t (nodes_of (put e entries)) ≡ size_from t (nodes_of (e ∷ entries))
unfolding size_from nodes_of put
size-put t e [] = refl
size-put t e (f ∷ entries) = elim (Bool-cases (is_before f.modified e.modified)) [
  | inl before ↦ rw before (
      size-put (sat_add t (node_size f.node)) e entries
      ∙ ap (λ n. size_from n (nodes_of entries))
          (sat_add-swap t (node_size f.node) (node_size e.node)))
  | inr behind ↦ rw behind refl
]

size-by_age :
    (t : ℕ) (entries : List Entry)
    → size_from t (nodes_of (by_age entries)) ≡ size_from t (nodes_of entries)
unfolding size_from nodes_of by_age
size-by_age t [] = refl
size-by_age t (e ∷ entries) =
    size-put t e (by_age entries) ∙ size-by_age (sat_add t (node_size e.node)) entries

-- The size does not depend on the order.
pub dir_size-by_age : (entries : List Entry) → dir_size (by_age entries) ≡ dir_size entries
unfolding dir_size
dir_size-by_age entries = size-by_age 0 entries

-- What is left of entries that were tried.
unfoldable pub remain_all : List Entry → List Entry
remain_all [] = []
remain_all (e ∷ entries) = remains e ++ remain_all entries

-- Before each removal the inbox was over its limit.
unfoldable pub Needed : List Entry → List Entry → List Entry → Type 0
Needed tried [] kept = Unit
Needed tried (oldest ∷ gone) kept =
    (clip_inbox_cap < dir_size (tried ++ oldest ∷ (gone ++ kept)))
    × Needed (tried ++ remains oldest) gone kept

-- The entries that are tried come first, and the others are kept.
pub record Pruned (tried entries after : List Entry) : Type 0 where
  pub gone : List Entry
  pub kept : List Entry
  pub first : entries ≡ gone ++ kept
  pub result : after ≡ (tried ++ remain_all gone) ++ kept
  pub enough : (kept ≡ []) ⊎ (dir_size after ≤ clip_inbox_cap)
  pub needed : Needed tried gone kept

-- No entry is before the one that it follows.
unfoldable pub IsFirst : Entry → List Entry → Type 0
IsFirst e [] = Unit
IsFirst e (f ∷ entries) = is_before f.modified e.modified ≡ false

unfoldable pub IsSorted : List Entry → Type 0
unfolding IsFirst
IsSorted [] = Unit
IsSorted (e ∷ entries) = IsFirst e entries × IsSorted entries

-- Within the limit nothing is removed.
prune_loop-keeps :
    (entries : List Entry) → dir_size entries ≤ clip_inbox_cap → prune_loop [] entries ≡ entries
unfolding prune_loop
prune_loop-keeps [] fits = refl
prune_loop-keeps (e ∷ entries) fits =
    let within : ltb clip_inbox_cap (dir_size (e ∷ entries)) ≡ false = ground arith in
    rw within refl

prune_inbox-keeps :
    (lists : Bool) (entries : List Entry)
    → dir_size entries ≤ clip_inbox_cap
    → dir_size (prune_inbox lists entries) ≡ dir_size entries
unfolding prune_inbox
prune_inbox-keeps false entries fits = refl
prune_inbox-keeps true entries fits =
    ap dir_size (prune_loop-keeps (by_age entries) (rw (dir_size-by_age entries) fits))
    ∙ dir_size-by_age entries

-- Where an inbox is within its limit, but has no room for the clip that is offered, the clip is
-- refused, and the inbox has the size that it had: `prune_inbox` makes no room for the next one. This
-- is for an offer within the limits on a clip, whatever is sent after it.
pub recv_in-IsStuck :
    (x : Crypto) (code : PeerCode) (password : Bytes) (now : ℕ) (creates : FilePath → Bool)
    (lists : Bool) (entries : List Entry) (clip_dir : FilePath) (offer : ClipOffer) (input : Bytes)
    → offer.byte_len ≤ kind_max offer.kind
    → length offer.files ≤ clip_max_entries
    → dir_size entries ≤ clip_inbox_cap
    → clip_inbox_cap < dir_size entries + offer.byte_len
    → let r = recv_in x code password now creates lists entries clip_dir offer input in
      (dir_size (r.0) ≡ dir_size entries) × (r.1 ≡ refuse inbox_full)
unfolding recv_in recv_clip
recv_in-IsStuck x code password now creates lists entries clip_dir offer input small few fits full =
    let same = prune_inbox-keeps lists entries fits in
    let sized : ltb (kind_max offer.kind) offer.byte_len ≡ false = ground arith in
    let counted : ltb clip_max_entries (length offer.files) ≡ false = ground arith in
    let over : ltb clip_inbox_cap (dir_size entries + offer.byte_len) ≡ true = ground arith in
    (same, rw sized (rw counted (rw same (rw over refl))))
