-- ===== src/Input/Interceptor/Written.antt =====
-- An event that the interceptor queues is written by a writer as the raw event that it was read from.
use nexus_kvm.Base.{
  ℕ, ◌<◌, ◌≡◌, ◌⊎◌, inl, inr, refl, ap, String, Bool, true, false, Option, none, some, ◌==◌, arith,
  Bool-cases, if◌then◌else◌, not, ◌&&◌,
}
use nexus_kvm.Base.Int.{ℤ, pos, negsuc, InI32}
use nexus_kvm.Input.Axes.{all, mt, sync_constant, SyncEvent}
use nexus_kvm.Input.Codes.{Event, rel, key, sync, sync_to_raw, rel_from_raw, key_from_raw}
use nexus_kvm.Input.Faithful.{
  as_u16-below, rel_to_raw-from_raw, abs_to_raw-from_raw, tool_to_raw-from_raw, key_to_raw-from_raw,
}
use nexus_kvm.Input.Interceptor.{
  Raw, queued, skipped, restart, resumed, passed, fate, raw_of, to_write, queue_some, abs_event,
  syn_event, is_switch, is_one, is_input,
}

==-eq : (a b : ℕ) → (a == b) ≡ true → a ≡ b
==-eq a b h = ground arith

&&-left : (a b : Bool) → (a && b) ≡ true → a ≡ true
&&-left true b h = refl
&&-left false b h = cc

&&-right : (a b : Bool) → (a && b) ≡ true → b ≡ true
&&-right true b h = h
&&-right false b h = cc

is_one-value : (v : ℤ) → is_switch v ≡ true → pos (if is_one v then 1 else 0) ≡ v
unfolding is_switch is_one
is_one-value (pos n) h = ground arith
is_one-value (negsuc n) h = cc

-- The raw fields that a machine word holds.
abbrev pub InRange : Raw → Type 0
InRange raw = (raw.kind < 65536) × (raw.code < 65536) × InI32 raw.value

queue_some-queued :
    {A : Type 0} (f : A → Event) (o : Option A) {e : Event}
    → queue_some f o ≡ queued e
    → (a : A) × (o ≡ some a) × (f a ≡ e)
unfolding queue_some
queue_some-queued f (some a) h = (a, refl, cc)
queue_some-queued f none h = cc

module _ (glue : String → ℕ) (profile : Bool) where
  to_write-same :
      (name : String) (code : Option ℕ) (value : Option ℤ) (raw : Raw) (v : ℤ)
      → raw.kind < 65536
      → raw.kind ≡ glue name
      → code ≡ some raw.code
      → value ≡ some v
      → to_write glue profile name code value ≡ some (record raw { value = v })
  unfolding to_write
  to_write-same name code value raw v small kind at_code at_value =
      rw (at_code, at_value)
        (ap (λ k. some (record raw { value = v; kind = k }))
          (rw (← kind) (as_u16-below raw.kind small)))

  -- What a writer makes of it.
  abbrev pub IsWritten : Raw → Event → Type 0
  IsWritten raw e =
      (raw_of glue profile e ≡ some raw)
      ⊎ ((raw.kind ≡ glue "EV_SYN") × (raw_of glue profile e ≡ some (record raw { value = pos 0 })))

  not_queued : (b : Bool) {e : Event} {A : Type 0} → (if b then skipped else passed) ≡ queued e → A
  not_queued true h = cc
  not_queued false h = cc

  module _ (raw : Raw) (r : InRange raw) where
    kind_of :
        (name : String) (b : Bool) → (raw.kind == glue name && b) ≡ true → raw.kind ≡ glue name
    kind_of name b t = ==-eq raw.kind _ (&&-left (raw.kind == glue name) b t)

    abs-IsWritten :
        (e : Event)
        → raw.kind ≡ glue "EV_ABS"
        → abs_event glue profile raw.code raw.value ≡ queued e
        → IsWritten raw e
    unfolding abs_event raw_of
    abs-IsWritten e kind h = elim (Bool-cases (raw.code == glue "ABS_MT_TOOL_TYPE")) [
      | inl tool ↦
          let (t, found, same) = queue_some-queued _ _ (rw tool at h) in
          rw (← same) (
            inl (
              to_write-same "EV_ABS" _ _ raw raw.value r.0 kind
                (ap some (rw (← ==-eq raw.code _ tool) (as_u16-below raw.code r.1)))
                (tool_to_raw-from_raw glue profile raw.value r.2 t found)))
      | inr axis ↦
          let (a, found, same) = queue_some-queued _ _ (rw axis at h) in
          rw (← same) (
            inl (
              to_write-same "EV_ABS" _ _ raw raw.value r.0 kind
                (abs_to_raw-from_raw glue profile raw.code r.1 a found) refl))
    ]

    rel-IsWritten :
        (e : Event)
        → raw.kind ≡ glue "EV_REL"
        → queue_some
            (λ a. rel (record { axis = a; value = raw.value }))
            (rel_from_raw glue profile raw.code)
          ≡ queued e
        → IsWritten raw e
    unfolding raw_of
    rel-IsWritten e kind h =
        let (a, found, same) = queue_some-queued _ _ h in
        rw (← same) (
          inl (
            to_write-same "EV_REL" _ _ raw raw.value r.0 kind
              (rel_to_raw-from_raw glue profile raw.code r.1 a found) refl))

    key-IsWritten :
        (e : Event) (not_dropped : Bool)
        → (raw.kind == glue "EV_KEY" && not_dropped && is_switch raw.value) ≡ true
        → queue_some
            (λ k. key (record { key = k; down = is_one raw.value }))
            (key_from_raw glue profile raw.code)
          ≡ queued e
        → IsWritten raw e
    unfolding raw_of
    key-IsWritten e not_dropped t h =
        let first = raw.kind == glue "EV_KEY" && not_dropped in
        let both = &&-left first (is_switch raw.value) t in
        let (k, found, same) = queue_some-queued _ _ h in
        rw (← same) (
          inl (
            to_write-same "EV_KEY" _ _ raw raw.value r.0 (kind_of "EV_KEY" not_dropped both)
              (key_to_raw-from_raw glue profile raw.code r.1 k found)
              (ap some (is_one-value raw.value (&&-right first (is_switch raw.value) t)))))

    sync-IsWritten :
        (s : SyncEvent) (name : String)
        → raw.kind ≡ glue "EV_SYN"
        → sync_constant s ≡ name
        → raw.code ≡ glue name
        → IsWritten raw (sync s)
    unfolding sync_to_raw raw_of
    sync-IsWritten s name kind named code = inr (
      kind,
      to_write-same "EV_SYN" _ _ raw (pos 0) r.0 kind
          (ap some (rw named (rw (← code) (as_u16-below raw.code r.1)))) refl,
    )

    syn-IsWritten :
        (e : Event) (dropped : Bool)
        → raw.kind ≡ glue "EV_SYN"
        → syn_event glue profile dropped raw.code ≡ queued e
        → IsWritten raw e
    unfolding syn_event sync_constant
    syn-IsWritten e dropped kind h = elim (Bool-cases (raw.code == glue "SYN_REPORT")) [
      | inl report ↦ elim (Bool-cases dropped) [
        | inl lost ↦ let no_event : resumed ≡ queued e = rw lost at (rw report at h) in cc
        | inr fine ↦
            let found : queued (sync all) ≡ queued e = rw fine at (rw report at h) in
            let same : sync all ≡ e = cc in
            rw (← same) (sync-IsWritten all "SYN_REPORT" kind refl (==-eq raw.code _ report))
      ]
      | inr other ↦ elim (Bool-cases (raw.code == glue "SYN_DROPPED")) [
        | inl lost ↦ let no_event : restart ≡ queued e = rw lost at (rw other at h) in cc
        | inr more ↦ elim (Bool-cases (raw.code == glue "SYN_MT_REPORT" && not dropped)) [
          | inl report ↦
              let found : queued (sync mt) ≡ queued e = rw report at (rw more at (rw other at h)) in
              let same : sync mt ≡ e = cc in
              rw (← same) (
                sync-IsWritten mt "SYN_MT_REPORT" kind refl (
                  ==-eq raw.code _
                    (&&-left (raw.code == glue "SYN_MT_REPORT") (not dropped) report)))
          | inr none_of ↦
              let no_event : skipped ≡ queued e = rw none_of at (rw more at (rw other at h)) in cc
        ]
      ]
    ]

    -- Any event that `read` queues is written by a writer, on this machine or on another, with the type,
    -- the code and the value that the kernel gave it; only the value of an end of a packet is 0.
    pub fate-IsWritten :
        (dropped : Bool) (e : Event) → fate glue profile dropped raw ≡ queued e → IsWritten raw e
    unfolding fate
    fate-IsWritten dropped e h = elim (Bool-cases (raw.kind == glue "EV_REL" && not dropped)) [
      | inl t ↦ rel-IsWritten e (kind_of "EV_REL" (not dropped) t) (rw t at h)
      | inr f ↦ elim (Bool-cases (raw.kind == glue "EV_ABS" && not dropped)) [
        | inl t ↦ abs-IsWritten e (kind_of "EV_ABS" (not dropped) t) (rw t at (rw f at h))
        | inr g ↦
            elim (Bool-cases (raw.kind == glue "EV_KEY" && not dropped && is_switch raw.value)) [
              | inl t ↦ key-IsWritten e (not dropped) t (rw t at (rw g at (rw f at h)))
              | inr k ↦ elim (Bool-cases (raw.kind == glue "EV_SYN")) [
                | inl t ↦
                    syn-IsWritten e dropped (==-eq raw.kind _ t)
                      (rw t at (rw k at (rw g at (rw f at h))))
                | inr n ↦
                    not_queued (dropped && is_input glue profile raw.kind)
                      (rw n at (rw k at (rw g at (rw f at h))))
              ]
            ]
      ]
    ]
