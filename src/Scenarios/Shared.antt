-- ===== src/Scenarios/Shared.antt =====
-- Runs of the shared types, geometry and message authentication.
use nexus_kvm.Base.{
  ℕ, ◌≡◌, refl, sym, ap, ◌∙◌, ◌↔◌, true, some, [], ◌∷◌, ◌++◌, ok, err, length, leb, arith, holds,
  if◌then◌else◌,
}
use nexus_kvm.Base.Float.{F32}
use nexus_kvm.Common.Model.{Layout}
use nexus_kvm.Common.Layouts.{right_side, two_node_layout}
use nexus_kvm.Common.Auth.{
  Bytes, AeadEnvelope, expired, Crypto, aead_ts_skew_secs, abs_diff, drop, derive_aead_key,
  aead_crypt, seal, open_envelope,
}
use nexus_kvm.Common.Auth.Sealing.{open-seal}
use nexus_kvm.Common.Auth.Replay.{bytes_dec}

abbrev pub half : F32
half = record { bits = 0x3f000000 }

abbrev times_100 : F32 → ℕ → ℕ
times_100 x n = 100

abbrev pub desk_layout : Layout
desk_layout = two_node_layout "local" "desk" right_side

-- A cipher that only adds a tag of 16 bytes.
abbrev pub tagged : Bytes → Bytes
tagged msg = 0 ∷ 0 ∷ 0 ∷ 0 ∷ 0 ∷ 0 ∷ 0 ∷ 0 ∷ 0 ∷ 0 ∷ 0 ∷ 0 ∷ 0 ∷ 0 ∷ 0 ∷ 0 ∷ msg

pub some-inj : {A : Type 0} {a b : A} → some a ≡ some b → a ≡ b
some-inj e = cc

pub ct_eq_bytes : (a b : Bytes) → (holds (bytes_dec a b) ≡ true) ↔ (a ≡ b)
ct_eq_bytes a b = ((λ h. ground arith), (λ h. ground arith))

abbrev pub plain : Crypto
plain = record {
  hex_encode = λ b. b;
  hex_decode = λ b. some b;
  hkdf = λ b. b;
  hmac = λ key body. key ++ body;
  encrypt = λ key nonce aad msg. some (tagged msg);
  decrypt = λ key nonce aad ct. some (drop 16 ct);
  ct_eq = λ a b. holds (bytes_dec a b);
  decode-encode = λ b. refl;
  decrypt-encrypt = λ key nonce aad msg ct e. ap (λ t. some (drop 16 t)) (sym (some-inj e));
  length-encrypt = λ key nonce aad msg ct e. ap length (sym (some-inj e)) ∙ (omega arith);
  ct_eq_iff = ct_eq_bytes;
}

abbrev pub nonce : Bytes
nonce = 1 ∷ 2 ∷ 3 ∷ 4 ∷ 5 ∷ 6 ∷ 7 ∷ 8 ∷ 9 ∷ 10 ∷ 11 ∷ 12 ∷ []

abbrev pub secret : Bytes
secret = 115 ∷ 51 ∷ []

abbrev pub message : Bytes
message = 72 ∷ 105 ∷ []

-- The message as it is sealed at the time 5000.
abbrev pub envelope : AeadEnvelope
envelope = record { n = nonce; t = 5000; c = tagged message }

open-seal_example :
    open_envelope plain 5060 secret envelope
    ≡ (if leb (abs_diff 5000 5060) aead_ts_skew_secs then ok message else err expired)
unfolding seal aead_crypt derive_aead_key
open-seal_example = open-seal plain nonce secret message 5000 5060 envelope refl refl
