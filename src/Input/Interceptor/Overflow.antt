-- ===== src/Input/Interceptor/Overflow.antt =====
-- What an overflow of the kernel's buffer discards.
use nexus_kvm.Base.{ℕ, ◌≡◌, String, Bool, true, List, [], ◌∷◌, if◌then◌else◌, ◌==◌, not, ◌&&◌}
use nexus_kvm.Input.Interceptor.{Raw, Interceptor, is_input}
use nexus_kvm.Input.Interceptor.Packets.{packets, local_raws}
use nexus_kvm.Input.Interceptor.Local.{Distinct}

module _ (glue : String → ℕ) (profile : Bool) (distinct : Distinct glue) where
  -- The end of a packet, and an overflow of the kernel's buffer.
  abbrev pub IsEnd : Raw → Type 0
  IsEnd raw = (raw.kind ≡ glue "EV_SYN") × (raw.code ≡ glue "SYN_REPORT")

  abbrev pub IsOverflow : Raw → Type 0
  IsOverflow raw = (raw.kind ≡ glue "EV_SYN") × (raw.code ≡ glue "SYN_DROPPED")

  -- Of a packet that is lost, what is neither input nor of `EV_SYN` is passed on.
  abbrev pub is_other : Raw → Bool
  is_other raw = not (raw.kind == glue "EV_SYN") && not (is_input glue profile raw.kind)

  -- One event of a packet that is lost.
  record IsLost (raw : Raw) (raws : List Raw) : Type 0 where
    no_event : packets glue profile true [] (raw ∷ raws) ≡ packets glue profile true [] raws
    others : local_raws glue profile true (raw ∷ raws) ≡ (
        if is_other raw
        then raw ∷ local_raws glue profile true raws
        else local_raws glue profile true raws)
