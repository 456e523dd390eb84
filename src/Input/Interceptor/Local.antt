-- ===== src/Input/Interceptor/Local.antt =====
-- What never reaches the local device.
use nexus_kvm.Base.{ℕ, ◌≡◌, ◌≢◌, String, Bool, true, some, arith}
use nexus_kvm.Input.Axes.{RelAxis, AbsAxis}
use nexus_kvm.Input.Codes.{Key, rel_from_raw, abs_from_raw, key_from_raw}
use nexus_kvm.Input.Interceptor.{Raw, fate, is_switch, syn_event}

-- The types of events and the codes of `EV_SYN` differ in the kernel's headers.
pub record Distinct (glue : String → ℕ) : Type 0 where
  pub syn_rel : glue "EV_SYN" ≢ glue "EV_REL"
  pub syn_abs : glue "EV_SYN" ≢ glue "EV_ABS"
  pub syn_key : glue "EV_SYN" ≢ glue "EV_KEY"
  pub rel_abs : glue "EV_REL" ≢ glue "EV_ABS"
  pub rel_key : glue "EV_REL" ≢ glue "EV_KEY"
  pub abs_key : glue "EV_ABS" ≢ glue "EV_KEY"
  pub report_dropped : glue "SYN_REPORT" ≢ glue "SYN_DROPPED"

module _ (glue : String → ℕ) (profile : Bool) (distinct : Distinct glue) where
  -- Not the end of a packet, nor motion of a known axis, a known position, or a press or a release of
  -- a known key.
  pub record IsLocal (raw : Raw) : Type 0 where
    pub no_sync : raw.kind ≢ glue "EV_SYN"
    pub no_motion : ¬ (
        (raw.kind ≡ glue "EV_REL") × (a : RelAxis) × (rel_from_raw glue profile raw.code ≡ some a))
    pub no_position : ¬ (
        (raw.kind ≡ glue "EV_ABS")
        × (raw.code ≢ glue "ABS_MT_TOOL_TYPE")
        × (a : AbsAxis) × (abs_from_raw glue profile raw.code ≡ some a))
    pub no_key : ¬ (
        (raw.kind ≡ glue "EV_KEY")
        × (is_switch raw.value ≡ true)
        × (k : Key) × (key_from_raw glue profile raw.code ≡ some k))

  module _ (raw : Raw) where
    pub syn_fate :
        (d : Bool)
        → raw.kind ≡ glue "EV_SYN"
        → fate glue profile d raw ≡ syn_event glue profile d raw.code
    unfolding fate
    syn_fate d e = ground (arith, distinct.syn_rel, distinct.syn_abs, distinct.syn_key)
