-- ===== src/Input/Interceptor/Runs.antt =====
-- Any number of calls of `read`, one after another.
use nexus_kvm.Base.{
  ℕ, ◌≡◌, ◌≢◌, true, refl, sym, ap, ◌∙◌, String, Bool, false, none, List, [], ◌∷◌, ◌++◌,
}
use mathlib.Core.List.{append_assoc, append-nil}
use nexus_kvm.Input.Codes.{rel_from_raw, abs_from_raw, tool_from_raw, key_from_raw}
use nexus_kvm.Input.Interceptor.{Raw, Interceptor, is_switch, Arrival, arrival, read_error, read}
use nexus_kvm.Input.Interceptor.Packets.{raws_of, event_of, Call, Run, to_deliver, to_pass}
use nexus_kvm.Input.Interceptor.Kept.{read-IsKept}

raws_of-append : (xs ys : List Arrival) → raws_of (xs ++ ys) ≡ raws_of xs ++ raws_of ys
raws_of-append [] ys = refl
raws_of-append (arrival raw end ∷ xs) ys = ap (λ l. raw ∷ l) (raws_of-append xs ys)
raws_of-append (read_error ∷ xs) ys = raws_of-append xs ys

-- What the kernel gives while the calls are made.
unfoldable pub given : List Call → List Raw
given [] = []
given (c ∷ calls) = raws_of c.more ++ given calls

-- As `Interceptor::open` leaves it.
abbrev pub opened : Interceptor
opened = record { events = []; writing = none; dropped = false }

module _ (glue : String → ℕ) (profile : Bool) where
  -- Calls one after another. What a call does not take from the kernel is there for the next one.
  unfoldable pub run : Interceptor → List Arrival → List Call → Run
  run i kept [] = record { interceptor = i; events = []; written = []; rest = kept }
  run i kept (c ∷ calls) =
      let r = read glue profile i c.resumes (kept ++ c.more) in
      let later = run r.interceptor r.rest calls in
      record later {
        events = event_of r.answer ++ later.events;
        written = r.written ++ later.written;
      }

  pub run-kept :
      (i : Interceptor) (kept : List Arrival) (calls : List Call)
      → let after = run i kept calls in
        (to_deliver glue profile i (raws_of kept ++ given calls)
          ≡ after.events ++ to_deliver glue profile after.interceptor (raws_of after.rest))
        × (to_pass glue profile i (raws_of kept ++ given calls)
            ≡ after.written ++ to_pass glue profile after.interceptor (raws_of after.rest))
  unfolding run given
  run-kept i kept [] =
      (ap (to_deliver glue profile i) (append-nil _), ap (to_pass glue profile i) (append-nil _))
  run-kept i kept (c ∷ calls) =
      let r = read glue profile i c.resumes (kept ++ c.more) in
      let k = read-IsKept glue profile i c.resumes (kept ++ c.more) (given calls) in
      let ih = run-kept r.interceptor r.rest calls in
      let split =
        sym (append_assoc (raws_of kept) (raws_of c.more) (given calls))
        ∙ ap (λ l. l ++ given calls) (sym (raws_of-append kept c.more)) in
      (
        ap (to_deliver glue profile i) split
            ∙ k.events_kept
            ∙ ap (λ l. event_of r.answer ++ l) ih.0
            ∙ sym (append_assoc (event_of r.answer) _ _),
        ap (to_pass glue profile i) split
            ∙ k.raws_kept
            ∙ ap (λ l. r.written ++ l) ih.1
            ∙ sym (append_assoc r.written _ _),
      )

  -- An event that is for this machine: not of `EV_SYN`, and on an axis or a key that is not known, or a
  -- repeat of a key.
  pub record IsUnread (raw : Raw) : Type 0 where
    pub no_sync : raw.kind ≢ glue "EV_SYN"
    pub no_motion : raw.kind ≡ glue "EV_REL" → rel_from_raw glue profile raw.code ≡ none
    pub no_position :
        raw.kind ≡ glue "EV_ABS"
        → raw.code ≢ glue "ABS_MT_TOOL_TYPE"
        → abs_from_raw glue profile raw.code ≡ none
    pub no_tool :
        raw.kind ≡ glue "EV_ABS"
        → raw.code ≡ glue "ABS_MT_TOOL_TYPE"
        → tool_from_raw glue profile raw.value ≡ none
    pub no_key :
        raw.kind ≡ glue "EV_KEY"
        → is_switch raw.value ≡ true
        → key_from_raw glue profile raw.code ≡ none
