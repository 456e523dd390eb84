-- ===== src/Input/Interceptor/Steps.antt =====
-- One step of `read`: an event is delivered, kept back, or written to the local device.
use nexus_kvm.Base.{
  ℕ, ◌≡◌, refl, sym, ap, ap₂, ◌∙◌, String, Bool, true, false, none, List, [], ◌∷◌, ◌++◌,
  if◌then◌else◌,
}
use nexus_kvm.Input.Codes.{Event}
use nexus_kvm.Input.Interceptor.{
  Raw, Interceptor, WriteEnd, done, failed, cancelled, Arrival, Reading, is_complete, Fate, queued,
  skipped, restart, resumed, passed, fate, write_back, pop_front,
}
use nexus_kvm.Input.Interceptor.Packets.{raws_of, packets, local_raws, to_deliver, to_pass, IsKept}

module _ (glue : String → ℕ) (profile : Bool) where
  to_deliver_complete :
      (i : Interceptor) (raws : List Raw)
      → is_complete i.events ≡ true
      → to_deliver glue profile i raws ≡ i.events ++ packets glue profile i.dropped [] raws
  unfolding to_deliver
  to_deliver_complete i raws e = rw e refl

  to_deliver_partial :
      (i : Interceptor) (raws : List Raw)
      → is_complete i.events ≡ false
      → to_deliver glue profile i raws ≡ packets glue profile i.dropped i.events raws
  unfolding to_deliver
  to_deliver_partial i raws e = rw e refl

  -- Behind the first event of a complete queue.
  to_deliver_tail :
      (i : Interceptor) (e : Event) (events : List Event) (raws : List Raw)
      → is_complete (e ∷ events) ≡ true
      → to_deliver glue profile (record i { events = events }) raws
        ≡ events ++ packets glue profile i.dropped [] raws
  unfolding is_complete to_deliver
  to_deliver_tail i e [] raws h = refl
  to_deliver_tail i e (f ∷ events) raws h =
      to_deliver_complete (record i { events = f ∷ events }) raws h

  popped :
      (i : Interceptor) (events : List Event) (arrivals : List Arrival) (more : List Raw)
      → i.events ≡ events
      → is_complete events ≡ true
      → IsKept glue profile i (raws_of arrivals) more (pop_front glue profile i events arrivals)
  unfolding pop_front is_complete to_pass
  popped i [] arrivals more same h = cc
  popped i (e ∷ events) arrivals more same h = record {
    events_kept =
        to_deliver_complete i _ (rw same h)
        ∙ ap₂ (λ l k. l ++ k) same refl
        ∙ ap (λ l. e ∷ l) (sym (to_deliver_tail i e events _ h));
    raws_kept = refl;
  }

  pub pop_front-IsKept :
      (i : Interceptor) (arrivals : List Arrival) (more : List Raw)
      → is_complete i.events ≡ true
      → IsKept glue profile i (raws_of arrivals) more (pop_front glue profile i i.events arrivals)
  pop_front-IsKept i arrivals more h = popped i i.events arrivals more refl h

  -- What a raw event makes of an interceptor.
  unfoldable pub after : Interceptor → Fate → Interceptor
  after i (queued e) = record i { events = i.events ++ e ∷ [] }
  after i restart = record i { events = []; dropped = true }
  after i resumed = record i { dropped = false }
  after i _ = i

  unfoldable pub passes : Raw → Fate → List Raw
  passes raw passed = raw ∷ []
  passes raw _ = []

  ends :
      (b : Bool) (i : Interceptor) (e : Event) (raws : List Raw)
      → ◌≡◌ {A = List Event}
          (elim b [
            | true ↦ (i.events ++ e ∷ []) ++ packets glue profile i.dropped [] raws
            | false ↦ packets glue profile i.dropped (i.events ++ e ∷ []) raws
          ])
          (if b
            then (i.events ++ e ∷ []) ++ packets glue profile i.dropped [] raws
            else packets glue profile i.dropped (i.events ++ e ∷ []) raws)
  ends true i e raws = refl
  ends false i e raws = refl

  to_deliver-after :
      (i : Interceptor) (raw : Raw) (raws : List Raw) (f : Fate)
      → is_complete i.events ≡ false
      → fate glue profile i.dropped raw ≡ f
      → to_deliver glue profile i (raw ∷ raws) ≡ to_deliver glue profile (after i f) raws
  unfolding after to_deliver packets is_complete
  to_deliver-after i raw raws (queued e) short eq =
      rw short (rw (eq, packets) (ends (is_complete (i.events ++ e ∷ [])) i e raws))
  to_deliver-after i raw raws restart short eq = rw short (rw (eq, packets) refl)
  to_deliver-after i raw raws resumed short eq = rw short (rw (eq, packets) refl)
  to_deliver-after i raw raws skipped short eq = rw short (rw (eq, packets) refl)
  to_deliver-after i raw raws passed short eq = rw short (rw (eq, packets) refl)

  to_pass-after :
      (i : Interceptor) (raw : Raw) (raws : List Raw) (f : Fate)
      → i.writing ≡ none
      → fate glue profile i.dropped raw ≡ f
      → to_pass glue profile i (raw ∷ raws) ≡ passes raw f ++ to_pass glue profile (after i f) raws
  unfolding after to_pass local_raws passes
  to_pass-after i raw raws (queued e) free eq = rw (eq, local_raws) refl
  to_pass-after i raw raws restart free eq = rw (eq, local_raws) refl
  to_pass-after i raw raws resumed free eq = rw (eq, local_raws) refl
  to_pass-after i raw raws skipped free eq = rw (eq, local_raws) refl
  to_pass-after i raw raws passed free eq = rw free (rw (eq, local_raws) refl)

  to_pass-free :
      (i : Interceptor) (raws : List Raw)
      → i.writing ≡ none
      → to_pass glue profile i raws ≡ local_raws glue profile i.dropped raws
  unfolding to_pass
  to_pass-free i raws free = rw free refl

  module _ (i : Interceptor) (raw : Raw) (arrivals : List Arrival) (more : List Raw) where
    -- A raw event that is not written.
    pub moved-IsKept :
        (f : Fate) (r : Reading)
        → is_complete i.events ≡ false
        → i.writing ≡ none
        → fate glue profile i.dropped raw ≡ f
        → passes raw f ≡ []
        → IsKept glue profile (after i f) (raws_of arrivals) more r
        → IsKept glue profile i (raw ∷ raws_of arrivals) more r
    moved-IsKept f r short free eq quiet k = record {
      events_kept = to_deliver-after i raw _ f short eq ∙ k.events_kept;
      raws_kept = to_pass-after i raw _ f free eq ∙ rw quiet k.raws_kept;
    }

    pub write_back-IsKept :
        (e : WriteEnd) (r : Reading)
        → is_complete i.events ≡ false
        → i.writing ≡ none
        → fate glue profile i.dropped raw ≡ passed
        → IsKept glue profile (record i { writing = none }) (raws_of arrivals) more r
        → IsKept glue profile i
            (raw ∷ raws_of arrivals)
            more
            (write_back glue profile i raw arrivals e r)
    unfolding write_back after passes to_deliver local_raws to_pass
    write_back-IsKept done r short free eq k = record {
      events_kept = to_deliver-after i raw _ passed short eq ∙ k.events_kept;
      raws_kept =
          to_pass-after i raw _ passed free eq
          ∙ ap (λ l. raw ∷ l) (to_pass-free i _ free ∙ k.raws_kept);
    }
    write_back-IsKept failed r short free eq k = record {
      events_kept = to_deliver-after i raw _ passed short eq;
      raws_kept = to_pass-after i raw _ passed free eq ∙ ap (λ l. raw ∷ l) (to_pass-free i _ free);
    }
    write_back-IsKept cancelled r short free eq k = record {
      events_kept = to_deliver-after i raw _ passed short eq;
      raws_kept = to_pass-after i raw _ passed free eq ∙ ap (λ l. raw ∷ l) (to_pass-free i _ free);
    }
