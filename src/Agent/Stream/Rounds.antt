-- ===== src/Agent/Stream/Rounds.antt =====
-- `read_aead_bytes` in crates/nexus-agent/src/peer_channel.rs, with more fuel than it needs.
use nexus_kvm.Base.{
  ℕ, zero, suc, ◌+◌, ◌≤◌, ◌≡◌, inl, inr, refl, sym, ◌∙◌, Option, none, some, Result, length, arith,
  subst, Option-cases, Result-cases, ◌-◌,
}
use nexus_kvm.Common.Auth.{Bytes, Crypto}
use nexus_kvm.Agent.Stream.{StreamError, read_frame, open_frame, gathered, read_aead_bytes}
use nexus_kvm.Agent.Stream.Ends.{Filled, read_aead_bytes-Filled}

gathered_more :
    (body : Bytes) (a b : Option (Result (Bytes × Bytes) StreamError))
    (r : Result (Bytes × Bytes) StreamError)
    → ((later : Result (Bytes × Bytes) StreamError) → a ≡ some later → b ≡ some later)
    → gathered body a ≡ some r
    → gathered body b ≡ some r
unfolding gathered
gathered_more body none b r more e = cc
gathered_more body (some later) b r more e = rw (more later refl) e

module _ (x : Crypto) (password : Bytes) where
  -- What is read is read with more fuel too.
  read_more :
      (f g remain : ℕ) (input : Bytes) (r : Result (Bytes × Bytes) StreamError)
      → f ≤ g
      → read_aead_bytes x password f remain input ≡ some r
      → read_aead_bytes x password g remain input ≡ some r
  unfolding read_aead_bytes
  read_more f g zero input r h e = e
  read_more zero g (suc remain) input r h e = cc
  read_more (suc f) zero (suc remain) input r h e = absurd (omega arith)
  read_more (suc f) (suc g) (suc remain) input r h e =
      elim (Result-cases (open_frame x password (suc remain) (read_frame input))) [
        | inl ((body, rest), opened) ↦
            rw (opened, read_aead_bytes)
              (gathered_more body (read_aead_bytes x password f (suc remain - length body) rest)
                (read_aead_bytes x password g (suc remain - length body) rest) r
                (λ later e'. read_more f g (suc remain - length body) rest later (omega arith) e')
                (rw (opened, read_aead_bytes) at e))
        | inr (problem, refused) ↦
            rw (refused, read_aead_bytes) (rw (refused, read_aead_bytes) at e)
      ]

  -- One round more than there are bytes reads what any other number of rounds reads.
  pub read_aead_bytes_any :
      (f remain : ℕ) (input : Bytes) (r : Result (Bytes × Bytes) StreamError)
      → read_aead_bytes x password f remain input ≡ some r
      → read_aead_bytes x password (suc (length input)) remain input ≡ some r
  read_aead_bytes_any f remain input r e =
      let enough = suc (length input) in
      let filled = read_aead_bytes-Filled x password enough remain input (omega arith) in
      elim (Option-cases (read_aead_bytes x password enough remain input)) [
        | inl stuck ↦ absurd (subst (Filled remain) stuck filled)
        | inr (got, same) ↦
            let all = f + enough in
            let first : read_aead_bytes x password all remain input ≡ some r =
              read_more f all remain input r (omega arith) e in
            let second : read_aead_bytes x password all remain input ≡ some got =
              read_more enough all remain input got (omega arith) same in
            same ∙ sym second ∙ first
      ]
