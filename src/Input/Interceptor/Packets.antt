-- ===== src/Input/Interceptor/Packets.antt =====
-- The packets of the kernel's stream, and what a call of `read` keeps of them.
use nexus_kvm.Base.{
  ℕ, ◌≡◌, String, Bool, true, false, Option, none, some, List, [], ◌∷◌, ◌++◌, if◌then◌else◌,
}
use nexus_kvm.Input.Codes.{Event}
use nexus_kvm.Input.Interceptor.{
  Raw, Interceptor, WriteEnd, Arrival, arrival, read_error, Answer, delivered, broken, dropped_call,
  Reading, is_complete, queued, skipped, restart, resumed, passed, fate,
}

-- The events that the kernel gave.
abbrev pub raws_of : List Arrival → List Raw
raws_of [] = []
raws_of (arrival raw end ∷ arrivals) = raw ∷ raws_of arrivals
raws_of (read_error ∷ arrivals) = raws_of arrivals

-- What a call of `read` gives its caller.
abbrev pub event_of : Answer → List Event
event_of (delivered e) = e ∷ []
event_of broken = []
event_of dropped_call = []

abbrev pub pending : Option Raw → List Raw
pending none = []
pending (some raw) = raw ∷ []

-- A call meets how a write that was left would end, and the events that are new in the kernel.
pub record Call : Type 0 where
  pub resumes : WriteEnd
  pub more : List Arrival

-- What calls leave: the interceptor, the events that the callers got, what was written to the local
-- device, and the events that the kernel still has.
pub record Run : Type 0 where
  pub interceptor : Interceptor
  pub events : List Event
  pub written : List Raw
  pub rest : List Arrival

module _ (glue : String → ℕ) (profile : Bool) where
  -- The packets of a stream, one behind the other: events are kept back until the end of their packet.
  -- An overflow of the kernel's buffer discards its packet, up to the next end.
  unfoldable pub packets : Bool → List Event → List Raw → List Event
  packets lost kept [] = []
  packets lost kept (raw ∷ raws) = elim (fate glue profile lost raw) [
    | queued e ↦ elim (is_complete (kept ++ e ∷ [])) [
      | true ↦ (kept ++ e ∷ []) ++ packets lost [] raws
      | false ↦ packets lost (kept ++ e ∷ []) raws
    ]
    | restart ↦ packets true [] raws
    | resumed ↦ packets false kept raws
    | skipped ↦ packets lost kept raws
    | passed ↦ packets lost kept raws
  ]

  -- The events of a stream that are not for other machines.
  unfoldable pub local_raws : Bool → List Raw → List Raw
  local_raws lost [] = []
  local_raws lost (raw ∷ raws) = elim (fate glue profile lost raw) [
    | queued e ↦ local_raws lost raws
    | restart ↦ local_raws true raws
    | resumed ↦ local_raws false raws
    | skipped ↦ local_raws lost raws
    | passed ↦ raw ∷ local_raws lost raws
  ]

  -- What an interceptor will deliver and write of a stream.
  unfoldable pub to_deliver : Interceptor → List Raw → List Event
  to_deliver i raws =
      if is_complete i.events
      then i.events ++ packets i.dropped [] raws
      else packets i.dropped i.events raws

  unfoldable pub to_pass : Interceptor → List Raw → List Raw
  to_pass i raws = pending i.writing ++ local_raws i.dropped raws

  -- A call keeps the two.
  pub record IsKept (i : Interceptor) (before more : List Raw) (r : Reading) : Type 0 where
    pub events_kept :
        to_deliver i (before ++ more)
        ≡ event_of r.answer ++ to_deliver r.interceptor (raws_of r.rest ++ more)
    pub raws_kept :
        to_pass i (before ++ more) ≡ r.written ++ to_pass r.interceptor (raws_of r.rest ++ more)
