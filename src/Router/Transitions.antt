-- ===== src/Router/Transitions.antt =====
-- rkvm-master/rkvm-server/src/target.rs: `alloc_transition` and the ids in the replies.
use native.Mathlib.Nat.{pow-suc}
use nexus_kvm.Base.{
  ℕ, zero, suc, ◌+◌, ◌/◌, ◌%◌, ◌^◌, ◌≤◌, ◌<◌, ◌≡◌, refl, sym, subst, ap₂, ◌∙◌, ◌≢◌, ◌⊎◌, inl, inr,
  Option, none, some, List, [], ◌∷◌, ◌++◌, arith, ok, err, All, NoRepeat, length,
}
use nexus_kvm.Router.{Router, TransitionId, hex_digit, hex_fixed, alloc_transition}
use nexus_kvm.Router.Switch.{
  prepare, take_warp, apply_switch, apply_local, switch_local_from_peer, switch_next, finish_chord,
}
use nexus_kvm.Router.Keys.{release_all}
use nexus_kvm.Router.Commands.{
  Command, prepares, activates, locals, locals_from_peer, releases, nexts, Reply, moved, prepared,
  released, apply, warp_of, Outcome,
}

hex_digit-inj : (a b : ℕ) → a < 16 → b < 16 → hex_digit a ≡ hex_digit b → a ≡ b
unfolding hex_digit
hex_digit-inj a b h k e = ground arith

snoc-inj : (xs ys : List ℕ) (a b : ℕ) → xs ++ a ∷ [] ≡ ys ++ b ∷ [] → (xs ≡ ys) × (a ≡ b)
snoc-inj [] [] a b e = (refl, cc)
snoc-inj [] (y ∷ []) a b e = absurd (cc)
snoc-inj [] (y ∷ z ∷ ys) a b e = absurd (cc)
snoc-inj (x ∷ []) [] a b e = absurd (cc)
snoc-inj (x ∷ z ∷ xs) [] a b e = absurd (cc)
snoc-inj (x ∷ xs) (y ∷ ys) a b e =
    let first : x ≡ y = cc in
    let rest : xs ++ a ∷ [] ≡ ys ++ b ∷ [] = cc in
    let ih = snoc-inj xs ys a b rest in (ap₂ ◌∷◌ first ih.0, ih.1)

quotient_below : (k a : ℕ) → a < 16 ^ suc k → a / 16 < 16 ^ k
quotient_below k a h = omega (arith, pow-suc 16 k)

-- `k` digits tell the numbers below 16 ^ k apart.
hex_fixed-inj : (k a b : ℕ) → a < 16 ^ k → b < 16 ^ k → hex_fixed k a ≡ hex_fixed k b → a ≡ b
unfolding hex_fixed
hex_fixed-inj zero a b h l e = omega arith
hex_fixed-inj (suc k) a b h l e =
    let (front, last) = snoc-inj (hex_fixed k (a / 16)) (hex_fixed k (b / 16)) _ _ e in
    let high : a / 16 ≡ b / 16 =
      hex_fixed-inj k (a / 16) (b / 16) (quotient_below k a h) (quotient_below k b l) front in
    let low : a % 16 ≡ b % 16 = hex_digit-inj (a % 16) (b % 16) (omega arith) (omega arith) last in
    omega arith

-- The id that a command replies with, if it replies with one.
abbrev pub id_of : Reply → Option TransitionId
id_of (prepared result) = none
id_of (moved (ok t)) = some t
id_of (moved (err e)) = none
id_of (released result) = none

-- A command gives out no id and leaves the counter, or gives out the text of the next number.
abbrev Counts : Router → Outcome → Type 0
Counts r o =
    ((id_of o.reply ≡ none) × (o.router.next_transition ≡ r.next_transition))
    ⊎ ((id_of o.reply ≡ some (hex_fixed 16 ((r.next_transition + 1) % 2 ^ 64)))
        × (o.router.next_transition ≡ (r.next_transition + 1) % 2 ^ 64))

apply-Counts : (c : Command) (r : Router) → Counts r (apply c r)
unfolding apply warp_of take_warp finish_chord prepare release_all switch_local_from_peer
    apply_switch switch_next apply_local alloc_transition
apply-Counts (prepares id w) r = ground arith
apply-Counts (activates id) r = ground arith
apply-Counts locals r = ground arith
apply-Counts locals_from_peer r = ground arith
apply-Counts (releases none) r = ground arith
apply-Counts (releases (some peer)) r = ground arith
apply-Counts nexts r = ground arith

abbrev pub noted : Option TransitionId → List TransitionId → List TransitionId
noted none ts = ts
noted (some t) ts = t ∷ ts

-- The ids that a sequence of commands gives out, in order.
pub ids_of : Router → List Command → List TransitionId
ids_of r [] = []
ids_of r (c ∷ cs) = let o = apply c r in noted (id_of o.reply) (ids_of o.router cs)

-- The id is the text of a number after `n`.
abbrev IsAfter : ℕ → TransitionId → Type 0
IsAfter n t = (m : ℕ) × (n < m) × (m < 2 ^ 64) × (t ≡ hex_fixed 16 m)

IsAfter-mono : (n k : ℕ) (ts : List TransitionId) → n ≤ k → All (IsAfter k) ts → All (IsAfter n) ts
IsAfter-mono n k [] h a = tt
IsAfter-mono n k (t ∷ ts) h a =
    ((a.0.0, omega (arith, a.0.1), a.0.2, a.0.3), IsAfter-mono n k ts h a.1)

fresh : (n m : ℕ) (t : TransitionId) → n < m → m < 2 ^ 64 → t ≡ hex_fixed 16 m → t ≢ hex_fixed 16 n
fresh n m t h l e same = absurd (omega (arith, hex_fixed-inj 16 m n l (omega arith) (sym e ∙ same)))

All-fresh : (n : ℕ) (ts : List TransitionId) → All (IsAfter n) ts → All (λ t. t ≢ hex_fixed 16 n) ts
All-fresh n [] a = tt
All-fresh n (t ∷ ts) a = (fresh n a.0.0 t a.0.1 a.0.2 a.0.3, All-fresh n ts a.1)

next_number : (n : ℕ) → n + 1 < 2 ^ 64 → (n + 1) % 2 ^ 64 ≡ n + 1
next_number n h = omega arith

-- The ids of a sequence of commands are new, and no two are the same.
record IsSeries (n : ℕ) (ts : List TransitionId) : Type 0 where
  after : All (IsAfter n) ts
  distinct : NoRepeat ts

IsSeries-cons :
    (n : ℕ) (ts : List TransitionId)
    → n + 1 < 2 ^ 64
    → IsSeries (n + 1) ts
    → IsSeries n (hex_fixed 16 (n + 1) ∷ ts)
IsSeries-cons n ts h s = record {
  after = ((n + 1, omega arith, h, refl), IsAfter-mono n (n + 1) ts (omega arith) s.after);
  distinct = (All-fresh (n + 1) ts s.after, s.distinct);
}

ids_of-IsSeries :
    (r : Router) (cs : List Command)
    → r.next_transition + length cs < 2 ^ 64
    → IsSeries r.next_transition (ids_of r cs)
unfolding ids_of
ids_of-IsSeries r [] h = record { after = tt; distinct = tt }
ids_of-IsSeries r (c ∷ cs) h = elim (apply-Counts c r) [
  | inl (none_given, same) ↦ rw none_given (
      subst (λ n. IsSeries n (ids_of (apply c r).router cs)) same
        (ids_of-IsSeries (apply c r).router cs (omega arith)))
  | inr (given, counted) ↦
      let number = next_number r.next_transition (omega arith) in
      rw (given, number)
        (IsSeries-cons r.next_transition (ids_of (apply c r).router cs) (omega arith) (
          subst (λ n. IsSeries n (ids_of (apply c r).router cs)) (counted ∙ number)
            (ids_of-IsSeries (apply c r).router cs (omega arith))))
]

-- No two commands are answered with the same transition id, as long as the 64-bit counter has room
-- for all of them.
pub ids_of-NoRepeat :
    (r : Router) (cs : List Command)
    → r.next_transition + length cs < 2 ^ 64
    → NoRepeat (ids_of r cs)
ids_of-NoRepeat r cs h = (ids_of-IsSeries r cs h).distinct
