-- ===== src/Desktop/Supervisor/Starts.antt =====
-- When the supervisor starts a service, and what a stop of the program does to it.
use nexus_kvm.Base.{
  ℕ, zero, suc, ◌+◌, ◌-◌, ◌^◌, ◌≤◌, ◌≡◌, inl, inr, refl, ◌∙◌, subst, ap, String, true, false, some,
  List, [], ◌∷◌, ltb, if◌then◌else◌, str_dec, arith, Bool-cases, if_pos,
}
use nexus_kvm.Base.Dict.{lookup, insert, lookup-insert}
use nexus_kvm.Desktop.Supervisor.{
  Backoff, min_of, fails_of, backoff_secs, too_soon, should_attempt, noted,
}

-- The wait before the next start, in seconds, after so many starts.
abbrev pub wait_of : ℕ → ℕ
wait_of zero = 1
wait_of (suc zero) = 2
wait_of (suc (suc zero)) = 4
wait_of (suc (suc (suc zero))) = 8
wait_of (suc (suc (suc (suc zero)))) = 16
wait_of _ = 30

backoff_secs-wait_of : (n : ℕ) → backoff_secs n ≡ wait_of n
unfolding backoff_secs min_of
backoff_secs-wait_of zero = refl
backoff_secs-wait_of (suc zero) = refl
backoff_secs-wait_of (suc (suc zero)) = refl
backoff_secs-wait_of (suc (suc (suc zero))) = refl
backoff_secs-wait_of (suc (suc (suc (suc zero)))) = refl
backoff_secs-wait_of (suc (suc (suc (suc (suc n))))) =
    let five : min_of (suc (suc (suc (suc (suc n))))) 5 ≡ 5 = ground arith in
    ap (λ m. min_of (2 ^ m) 30) five

wait_of_some : (n : ℕ) → 1 ≤ wait_of n
wait_of_some zero = omega arith
wait_of_some (suc zero) = omega arith
wait_of_some (suc (suc zero)) = omega arith
wait_of_some (suc (suc (suc zero))) = omega arith
wait_of_some (suc (suc (suc (suc zero)))) = omega arith
wait_of_some (suc (suc (suc (suc (suc n))))) = omega arith

lookup-insert_self :
    (key : String) (n : ℕ) (m : List (String × ℕ))
    → lookup str_dec key (insert str_dec key n m) ≡ some n
lookup-insert_self key n m = lookup-insert str_dec key key n m ∙ if_pos (str_dec key key) refl _ _

attempt_lem :
    (key : String) (now t : ℕ) (b : Backoff)
    → lookup str_dec key b.last ≡ some t
    → should_attempt key now b ≡ (
        if ltb (now - t) (backoff_secs (fails_of key b))
        then (b, false)
        else (noted key now b, true))
unfolding should_attempt
attempt_lem key now t b last = rw (last, too_soon) refl

fails-noted :
    (key : String) (now : ℕ) (b : Backoff) → fails_of key (noted key now b) ≡ fails_of key b + 1
unfolding noted
fails-noted key now b = rw (lookup-insert_self key (fails_of key b + 1) b.fails, fails_of) refl

last-noted :
    (key : String) (now : ℕ) (b : Backoff) → lookup str_dec key (noted key now b).last ≡ some now
unfolding noted
last-noted key now b = lookup-insert_self key now b.last

waited_far : (now t k : ℕ) → ltb (now - t) (backoff_secs k) ≡ false → t + wait_of k ≤ now
waited_far now t k h = ground (arith, wait_of_some k, backoff_secs-wait_of k)

-- The times at which a service that never runs is started, of those at which it is looked at.
unfoldable pub starts : String → List ℕ → Backoff → List ℕ
starts key [] b = []
starts key (now ∷ times) b =
    let r = should_attempt key now b in
    let later = starts key times r.0 in if r.1 then now ∷ later else later

-- Each start waits for the one before, the longer the more there were.
abbrev pub Spaced : ℕ → ℕ → List ℕ → Type 0
Spaced k t [] = Unit
Spaced k t (u ∷ us) = (t + wait_of k ≤ u) × Spaced (k + 1) u us

-- A service that was started at `t` and never runs is started again at times of which each is at least
-- as far from the one before as its count of failed starts asks for: 1 second for none, then 2, 4, 8
-- and 16, and 30 for every further one.
pub starts-Spaced :
    (key : String) (t : ℕ) (times : List ℕ) (b : Backoff)
    → lookup str_dec key b.last ≡ some t
    → Spaced (fails_of key b) t (starts key times b)
unfolding starts
starts-Spaced key t [] b last = tt
starts-Spaced key t (now ∷ times) b last =
    elim (Bool-cases (ltb (now - t) (backoff_secs (fails_of key b)))) [
      | inl soon ↦ rw (attempt_lem key now t b last) (rw soon (starts-Spaced key t times b last))
      | inr waited ↦
          let far : t + wait_of (fails_of key b) ≤ now = waited_far now t (fails_of key b) waited in
          rw (attempt_lem key now t b last) (
            rw waited (
              far,
              subst (λ k. Spaced k now (starts key times (noted key now b))) (fails-noted key now b)
                  (starts-Spaced key now times (noted key now b) (last-noted key now b)),
            ))
    ]
