-- ===== src/Common/Auth/Replay.antt =====
-- crates/nexus-common/src/auth.rs: the replay guard. The hash set is a list in which only membership
-- counts.
pub mod Window
use nexus_kvm.Base.{
  ℕ, ◌+◌, ◌≤◌, ◌≡◌, refl, sym, ◌∙◌, ◌≢◌, Bool, true, false, not, ◌&&◌, ◌||◌, List, [], ◌∷◌, ◌++◌,
  arith, leb, if◌then◌else◌, holds, Result, ok, err, length, length-append, any_of, keep_if,
  NoRepeat, All, NoRepeat-snoc, ℕ_discrete, Bool-cases, inl, inr,
}
use nexus_kvm.Common.Auth.{
  Bytes, Crypto, AeadEnvelope, AuthError, replayed, replay_cap, decode_nonce,
}

unfoldable pub bytes_dec : Discrete Bytes
bytes_dec = hlevel ℕ_discrete

abbrev pub member : Bytes → List Bytes → Bool
member q = any_of (λ y. holds (bytes_dec y q))

abbrev pub without : Bytes → List Bytes → List Bytes
without q = keep_if (λ y. not (holds (bytes_dec y q)))

pub record ReplayGuard : Type 0 where
  pub seen : List Bytes
  pub order : List Bytes

unfoldable pub empty : ReplayGuard
empty = record { seen = []; order = [] }

-- `pop_front`, and the removal of what it gives.
unfoldable pub evict : ReplayGuard → ReplayGuard
evict g = elim g.order [ [] ↦ g | old ∷ rest ↦ record { seen = without old g.seen; order = rest } ]

unfoldable pub admit : ReplayGuard → Bytes → ReplayGuard
admit g nonce =
    let g' = if leb replay_cap (length g.order) then evict g else g in
    record { seen = nonce ∷ g'.seen; order = g'.order ++ nonce ∷ [] }

-- The part of `check` after the nonce is decoded.
unfoldable pub check_nonce : ReplayGuard → Bytes → ReplayGuard × Result (Unit {0}) AuthError
check_nonce g nonce = if member nonce g.seen then (g, err replayed) else (admit g nonce, ok tt)

unfoldable pub check_decoded :
    ReplayGuard → Result Bytes AuthError → ReplayGuard × Result (Unit {0}) AuthError
unfolding check_nonce
check_decoded g (err e) = (g, err e)
check_decoded g (ok nonce) = check_nonce g nonce

unfoldable pub check :
    Crypto → ReplayGuard → AeadEnvelope → ReplayGuard × Result (Unit {0}) AuthError
check x g env = check_decoded g (decode_nonce x env.n)

-- The set and the queue hold the same nonces, none twice, and no more than the limit.
pub record IsValid (g : ReplayGuard) : Type 0 where
  pub agree : (q : Bytes) → member q g.seen ≡ member q g.order
  pub distinct : NoRepeat g.order
  pub bounded : length g.order ≤ replay_cap

pub empty-IsValid : IsValid empty
unfolding empty
empty-IsValid = record { agree = λ q. refl; distinct = tt; bounded = omega arith }

member-without :
    (q old : Bytes) (s : List Bytes)
    → member q (without old s) ≡ (member q s && not (holds (bytes_dec old q)))
member-without q old [] = refl
member-without q old (y ∷ s) = ground (arith, member-without q old s)

member-append : (q : Bytes) (s t : List Bytes) → member q (s ++ t) ≡ (member q s || member q t)
member-append q [] t = refl
member-append q (y ∷ s) t = ground (arith, member-append q s t)

not-member : (q : Bytes) (s : List Bytes) → member q s ≡ false → All (λ y. y ≢ q) s
not-member q [] h = tt
not-member q (y ∷ s) h = ground (arith, not-member q s)

absent : (q : Bytes) (s : List Bytes) → All (λ y. y ≢ q) s → member q s ≡ false
absent q [] h = refl
absent q (y ∷ s) h = ground (arith, absent q s h.1)

evict-agree :
    (old : Bytes) (seen rest : List Bytes)
    → ((q : Bytes) → member q seen ≡ member q (old ∷ rest))
    → NoRepeat (old ∷ rest)
    → (q : Bytes) → member q (without old seen) ≡ member q rest
evict-agree old seen rest agree d q =
    ground (arith, member-without q old seen, agree q, absent old rest d.0)

-- What `admit` needs of the guard after the eviction.
record HasRoom (g : ReplayGuard) : Type 0 where
  agree : (q : Bytes) → member q g.seen ≡ member q g.order
  distinct : NoRepeat g.order
  room : length g.order + 1 ≤ replay_cap

room_made :
    (seen order : List Bytes)
    → IsValid (record { seen = seen; order = order })
    → HasRoom (
        if leb replay_cap (length order)
        then evict (record { seen = seen; order = order })
        else record { seen = seen; order = order })
unfolding evict
room_made seen [] v = record { agree = v.agree; distinct = tt; room = omega arith }
room_made seen (old ∷ rest) v = elim (Bool-cases (leb replay_cap (length (old ∷ rest)))) [
  | inl full ↦ rw full (record {
    agree = evict-agree old seen rest v.agree v.distinct;
    distinct = v.distinct.1;
    room = omega (arith, v.bounded);
  })
  | inr free ↦ rw free (record { agree = v.agree; distinct = v.distinct; room = ground arith })
]

-- After the eviction the new nonce is still unknown.
still_unknown :
    (seen order : List Bytes) (q : Bytes)
    → member q seen ≡ false
    → member q
        (if leb replay_cap (length order)
          then evict (record { seen = seen; order = order })
          else record { seen = seen; order = order }).seen
      ≡ false
unfolding evict
still_unknown seen [] q h = ground arith
still_unknown seen (old ∷ rest) q h = ground (arith, member-without q old seen)

admitted-IsValid :
    (g : ReplayGuard) (q : Bytes)
    → HasRoom g
    → member q g.seen ≡ false
    → IsValid (record { seen = q ∷ g.seen; order = g.order ++ q ∷ [] })
admitted-IsValid g q v h = record {
  agree = λ p. ground (arith, member-append p g.order (q ∷ []), v.agree p);
  distinct = NoRepeat-snoc g.order q (not-member q g.order (sym (v.agree q) ∙ h)) v.distinct;
  bounded = omega (arith, length-append g.order (q ∷ []), v.room);
}

pub admit-IsValid :
    (g : ReplayGuard) (q : Bytes) → member q g.seen ≡ false → IsValid g → IsValid (admit g q)
unfolding admit
admit-IsValid g q h v =
    admitted-IsValid _ q (room_made g.seen g.order v) (still_unknown g.seen g.order q h)

check_decoded-IsValid :
    (g : ReplayGuard) (d : Result Bytes AuthError) → IsValid g → IsValid (check_decoded g d).0
unfolding check_decoded
check_decoded-IsValid g (err e) v = v
check_decoded-IsValid g (ok q) v = elim (Bool-cases (member q g.seen)) [
  | inl old ↦ rw old v
  | inr new ↦ rw new (admit-IsValid g q new v)
]

-- Every check keeps the set and the queue in agreement, without repetition and within 8192 nonces.
pub check-IsValid :
    (x : Crypto) (g : ReplayGuard) (env : AeadEnvelope) → IsValid g → IsValid (check x g env).0
unfolding check
check-IsValid x g env v = check_decoded-IsValid g (decode_nonce x env.n) v
