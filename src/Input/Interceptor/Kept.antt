-- ===== src/Input/Interceptor/Kept.antt =====
-- A call of `read` keeps the packets of the kernel's stream, and what is not for other machines.
use nexus_kvm.Base.{
  ℕ, ◌≡◌, inl, inr, refl, sym, ap, String, Bool, false, none, some, List, [], ◌∷◌, Bool-cases,
  Option-cases, subst,
}
use nexus_kvm.Input.Interceptor.{
  Raw, Interceptor, WriteEnd, done, failed, cancelled, Arrival, arrival, read_error, Reading,
  is_complete, Fate, queued, skipped, restart, resumed, passed, fate, write_back, read_loop, resume,
  read,
}
use nexus_kvm.Input.Interceptor.Packets.{raws_of, to_deliver, to_pass, IsKept}
use nexus_kvm.Input.Interceptor.Steps.{
  pop_front-IsKept, after, passes, moved-IsKept, write_back-IsKept,
}

module _ (glue : String → ℕ) (profile : Bool) where
  module _ (i : Interceptor) (raw : Raw) (end : WriteEnd) (arrivals : List Arrival)
      (more : List Raw) where
    -- The part of the loop behind `read_raw`, with the rest of the loop as it is after the event.
    fated-IsKept :
        (f : Fate)
        → is_complete i.events ≡ false
        → i.writing ≡ none
        → fate glue profile i.dropped raw ≡ f
        → ((j : Interceptor)
            → j.writing ≡ none
            → IsKept glue profile j (raws_of arrivals) more (read_loop glue profile j arrivals))
        → IsKept glue profile i
            (raw ∷ raws_of arrivals)
            more
            (read_loop glue profile i (arrival raw end ∷ arrivals))
    unfolding after passes read_loop
    fated-IsKept (queued e) short free eq ih =
        rw (short, read_loop)
          (rw (eq, read_loop)
            (moved-IsKept glue profile i raw arrivals more (queued e) _ short free eq refl
              (ih _ free)))
    fated-IsKept restart short free eq ih =
        rw (short, read_loop)
          (rw (eq, read_loop)
            (moved-IsKept glue profile i raw arrivals more restart _ short free eq refl
              (ih _ free)))
    fated-IsKept resumed short free eq ih =
        rw (short, read_loop)
          (rw (eq, read_loop)
            (moved-IsKept glue profile i raw arrivals more resumed _ short free eq refl
              (ih _ free)))
    fated-IsKept skipped short free eq ih =
        rw (short, read_loop)
          (rw (eq, read_loop)
            (moved-IsKept glue profile i raw arrivals more skipped _ short free eq refl
              (ih _ free)))
    fated-IsKept passed short free eq ih =
        rw (short, read_loop)
          (rw (eq, read_loop)
            (write_back-IsKept glue profile i raw arrivals more end _ short free eq (ih _ refl)))

  -- The loop has no write that is left.
  read_loop-IsKept :
      (i : Interceptor) (arrivals : List Arrival) (more : List Raw)
      → i.writing ≡ none
      → IsKept glue profile i (raws_of arrivals) more (read_loop glue profile i arrivals)
  unfolding read_loop
  read_loop-IsKept i [] more free = elim (Bool-cases (is_complete i.events)) [
    | inl full ↦ rw (full, read_loop) (pop_front-IsKept glue profile i [] more full)
    | inr short ↦ rw (short, read_loop) (record { events_kept = refl; raws_kept = refl })
  ]
  read_loop-IsKept i (read_error ∷ arrivals) more free = elim (Bool-cases (is_complete i.events)) [
    | inl full ↦
        rw (full, read_loop) (pop_front-IsKept glue profile i (read_error ∷ arrivals) more full)
    | inr short ↦ rw (short, read_loop) (record { events_kept = refl; raws_kept = refl })
  ]
  read_loop-IsKept i (arrival raw end ∷ arrivals) more free =
      elim (Bool-cases (is_complete i.events)) [
        | inl full ↦
            rw (full, read_loop)
              (pop_front-IsKept glue profile i (arrival raw end ∷ arrivals) more full)
        | inr short ↦
            fated-IsKept i raw end arrivals more (fate glue profile i.dropped raw) short free refl
              (λ j. read_loop-IsKept j arrivals more)
      ]

  resumed-IsKept :
      (i : Interceptor) (raw : Raw) (e : WriteEnd) (arrivals : List Arrival) (more : List Raw)
      → i.writing ≡ some raw
      → (r : Reading) → IsKept glue profile (record i { writing = none }) (raws_of arrivals) more r
      → IsKept glue profile i (raws_of arrivals) more (write_back glue profile i raw arrivals e r)
  unfolding write_back to_deliver to_pass
  resumed-IsKept i raw done arrivals more left r k = record {
    events_kept = k.events_kept;
    raws_kept = rw left (ap (λ l. raw ∷ l) k.raws_kept);
  }
  resumed-IsKept i raw failed arrivals more left r k = record {
    events_kept = refl;
    raws_kept = rw left refl;
  }
  resumed-IsKept i raw cancelled arrivals more left r k = record {
    events_kept = refl;
    raws_kept = rw left refl;
  }

  read-free :
      (i : Interceptor) (resumes : WriteEnd) (arrivals : List Arrival)
      → i.writing ≡ none
      → read glue profile i resumes arrivals ≡ read_loop glue profile i arrivals
  unfolding read
  read-free i resumes arrivals free = ap (λ w. resume glue profile w i resumes arrivals) free

  read-left :
      (i : Interceptor) (raw : Raw) (resumes : WriteEnd) (arrivals : List Arrival)
      → i.writing ≡ some raw
      → read glue profile i resumes arrivals
        ≡ write_back glue profile i raw arrivals resumes
            (read_loop glue profile (record i { writing = none }) arrivals)
  unfolding read
  read-left i raw resumes arrivals left = ap (λ w. resume glue profile w i resumes arrivals) left

  -- A call of `read`, whatever an earlier one left.
  pub read-IsKept :
      (i : Interceptor) (resumes : WriteEnd) (arrivals : List Arrival) (more : List Raw)
      → IsKept glue profile i (raws_of arrivals) more (read glue profile i resumes arrivals)
  read-IsKept i resumes arrivals more = elim (Option-cases i.writing) [
    | inl free ↦
        subst (λ r. IsKept glue profile i (raws_of arrivals) more r)
          (sym (read-free i resumes arrivals free)) (read_loop-IsKept i arrivals more free)
    | inr (raw, left) ↦
        subst (λ r. IsKept glue profile i (raws_of arrivals) more r)
          (sym (read-left i raw resumes arrivals left))
          (resumed-IsKept i raw resumes arrivals more left
            (read_loop glue profile (record i { writing = none }) arrivals)
            (read_loop-IsKept (record i { writing = none }) arrivals more refl))
  ]
