-- ===== src/Common/Auth/Replay/Window.antt =====
-- crates/nexus-common/src/auth.rs: how long the replay guard remembers a nonce.
use nexus_kvm.Base.{
  ℕ, suc, ◌+◌, ◌≤◌, ◌<◌, ◌≡◌, refl, ap, ◌∙◌, true, List, [], ◌∷◌, ◌++◌, arith, leb, Result, ok, err,
  length, length-append, Bool-cases, inl, inr,
}
use mathlib.Core.List.{append_assoc}
use nexus_kvm.Common.Auth.{
  Bytes, Crypto, AeadEnvelope, AuthError, replayed, replay_cap, decode_nonce,
}
use nexus_kvm.Common.Auth.Replay.{
  ReplayGuard, member, member-append, evict, admit, check_nonce, check_decoded, check, IsValid,
  check_decoded-IsValid,
}

-- `q` stands in the queue, with at most `k` nonces behind it.
record IsRecent (q : Bytes) (k : ℕ) (order : List Bytes) : Type 0 where
  before : List Bytes
  behind : List Bytes
  split : order ≡ before ++ q ∷ behind
  few : length behind ≤ k

IsRecent-last : (q : Bytes) (order : List Bytes) → IsRecent q 0 (order ++ q ∷ [])
IsRecent-last q order = record { before = order; behind = []; split = refl; few = omega arith }

IsRecent-append :
    (q p : Bytes) (k : ℕ) (order : List Bytes)
    → IsRecent q k order
    → IsRecent q (k + 1) (order ++ p ∷ [])
IsRecent-append q p k order r = record {
  before = r.before;
  behind = r.behind ++ p ∷ [];
  split = ap (λ l. l ++ p ∷ []) r.split ∙ append_assoc r.before (q ∷ r.behind) (p ∷ []);
  few = omega (arith, length-append r.behind (p ∷ []), r.few);
}

IsRecent-mono :
    (q : Bytes) (k n : ℕ) (order : List Bytes) → k ≤ n → IsRecent q k order → IsRecent q n order
IsRecent-mono q k n order h r = record {
  before = r.before;
  behind = r.behind;
  split = r.split;
  few = omega (arith, r.few);
}

-- The eviction from a full queue hits another nonce, if few stand behind this one.
IsRecent-evicted :
    (q : Bytes) (k : ℕ) (old : Bytes) (rest : List Bytes)
    → replay_cap ≤ suc (length rest)
    → k + 1 < replay_cap
    → IsRecent q k (old ∷ rest)
    → IsRecent q k rest
IsRecent-evicted q k old rest full room r = go r.before r.split
  where
    go : (before : List Bytes) → old ∷ rest ≡ before ++ q ∷ r.behind → IsRecent q k rest
    go [] e = absurd (omega (arith, ap length e, r.few))
    go (p ∷ before) e = record { before = before; behind = r.behind; split = cc; few = r.few }

IsRecent-admitted :
    (q p : Bytes) (k : ℕ) (seen order : List Bytes)
    → k + 1 < replay_cap
    → IsRecent q k order
    → IsRecent q (k + 1) (admit (record { seen = seen; order = order }) p).order
unfolding admit evict
IsRecent-admitted q p k seen [] room r = IsRecent-append q p k [] r
IsRecent-admitted q p k seen (old ∷ rest) room r =
    elim (Bool-cases (leb replay_cap (length (old ∷ rest)))) [
      | inl full ↦
          rw full (IsRecent-append q p k rest (IsRecent-evicted q k old rest (ground arith) room r))
      | inr free ↦ rw free (IsRecent-append q p k (old ∷ rest) r)
    ]

IsRecent-checked :
    (q : Bytes) (k : ℕ) (g : ReplayGuard) (d : Result Bytes AuthError)
    → k + 1 < replay_cap
    → IsRecent q k g.order
    → IsRecent q (k + 1) (check_decoded g d).0.order
unfolding check_decoded
IsRecent-checked q k g (err e) room r = IsRecent-mono q k (k + 1) g.order (omega arith) r
IsRecent-checked q k g (ok p) room r = elim (Bool-cases (member p g.seen)) [
  | inl old ↦ rw old (IsRecent-mono q k (k + 1) g.order (omega arith) r)
  | inr new ↦ rw new (IsRecent-admitted q p k g.seen g.order room r)
]

-- Messages that are checked one after the other.
unfoldable pub check_all : Crypto → ReplayGuard → List AeadEnvelope → ReplayGuard
check_all x g [] = g
check_all x g (env ∷ envs) = check_all x (check x g env).0 envs

member_recent :
    (q : Bytes) (k : ℕ) (order : List Bytes) → IsRecent q k order → member q order ≡ true
member_recent q k order r = rw (r.split, member-append q r.before (q ∷ r.behind)) (ground arith)

refused_later :
    (x : Crypto) (q : Bytes) (k : ℕ) (g : ReplayGuard) (envs : List AeadEnvelope)
    → k + length envs < replay_cap
    → IsValid g
    → IsRecent q k g.order
    → (check_nonce (check_all x g envs) q).1 ≡ err replayed
unfolding check_all check check_nonce
refused_later x q k g [] room v r = ground (arith, v.agree q, member_recent q k g.order r)
refused_later x q k g (env ∷ envs) room v r =
    let d = decode_nonce x env.n in
    refused_later x q (k + 1) (check_decoded g d).0 envs (omega arith) (check_decoded-IsValid g d v)
      (IsRecent-checked q k g d (omega arith) r)

accepted_new :
    (g : ReplayGuard) (q : Bytes)
    → (check_nonce g q).1 ≡ ok tt
    → IsRecent q 0 (check_nonce g q).0.order
unfolding check_nonce admit
accepted_new g q h = elim (Bool-cases (member q g.seen)) [
  | inl old ↦ absurd (ground arith)
  | inr new ↦ rw new (IsRecent-last q _)
]

replayed_decoded :
    (x : Crypto) (g : ReplayGuard) (d : Result Bytes AuthError) (envs : List AeadEnvelope)
    → IsValid g
    → (check_decoded g d).1 ≡ ok tt
    → length envs < replay_cap
    → (check_decoded (check_all x (check_decoded g d).0 envs) d).1 ≡ err replayed
unfolding check_decoded
replayed_decoded x g (err e) envs v h few = cc
replayed_decoded x g (ok q) envs v h few =
    refused_later x q 0 (check_nonce g q).0 envs (omega arith) (check_decoded-IsValid g (ok q) v)
      (accepted_new g q h)

-- A message that was accepted is refused as a replay after any fewer than 8192 further messages,
-- whether these are accepted or not.
pub check-replayed :
    (x : Crypto) (g : ReplayGuard) (env : AeadEnvelope) (envs : List AeadEnvelope)
    → IsValid g
    → (check x g env).1 ≡ ok tt
    → length envs < replay_cap
    → (check x (check_all x (check x g env).0 envs) env).1 ≡ err replayed
unfolding check
check-replayed x g env envs v accepted few =
    replayed_decoded x g (decode_nonce x env.n) envs v accepted few
