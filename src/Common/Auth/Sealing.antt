-- ===== src/Common/Auth/Sealing.antt =====
-- crates/nexus-common/src/auth.rs: `seal` with `open`, `seal_chunk` with `open_chunk`, and the codes.
use nexus_kvm.Base.{
  ℕ, ◌+◌, ◌≡◌, refl, ap, subst, ◌↔◌, true, false, Option, none, some, [], ◌∷◌, ◌++◌, arith, leb,
  if◌then◌else◌, ok, err, length, length-append,
}
use nexus_kvm.Common.Auth.{
  Bytes, Crypto, AeadEnvelope, expired, aead_nonce_len, aead_ts_skew_secs, abs_diff, le_bytes,
  aead_crypt, seal, open_envelope, seal_chunk, open_chunk, token_eq, mac_hex, mac_verify,
  decode_nonce, take, drop, clip_label, >>=-eq-ok,
}

pub take-append : (a b : Bytes) → take (length a) (a ++ b) ≡ a
take-append [] b = refl
take-append (x ∷ a) b = ap (◌∷◌ x) (take-append a b)

pub drop-append : (a b : Bytes) → drop (length a) (a ++ b) ≡ b
drop-append [] b = refl
drop-append (x ∷ a) b = drop-append a b

module _ (x : Crypto) where
  decrypted :
      (secret nonce aad msg ct : Bytes)
      → aead_crypt x secret nonce aad msg true ≡ ok ct
      → (aead_crypt x secret nonce aad ct false ≡ ok msg) × (length ct ≡ length msg + 16)
  unfolding aead_crypt
  decrypted secret nonce aad msg ct h = ground (
    arith,
    x.decrypt-encrypt (x.hkdf secret) nonce aad msg ct,
    x.length-encrypt (x.hkdf secret) nonce aad msg ct,
  )

  decode_nonce-encode :
      (nonce : Bytes)
      → length nonce ≡ aead_nonce_len
      → decode_nonce x (x.hex_encode nonce) ≡ ok nonce
  unfolding decode_nonce
  decode_nonce-encode nonce h = ground (arith, x.decode-encode nonce)

  -- An envelope with the parts that `seal` puts in.
  abbrev sealed_envelope : Bytes → ℕ → Bytes → AeadEnvelope
  sealed_envelope nonce ts ct = record { n = x.hex_encode nonce; t = ts; c = x.hex_encode ct }

  open_parts :
      (nonce secret msg ct : Bytes) (ts now : ℕ)
      → length nonce ≡ aead_nonce_len
      → aead_crypt x secret nonce (le_bytes 8 ts) msg true ≡ ok ct
      → open_envelope x now secret (sealed_envelope nonce ts ct)
        ≡ (if leb (abs_diff ts now) aead_ts_skew_secs then ok msg else err expired)
  unfolding open_envelope
  open_parts nonce secret msg ct ts now h e =
      rw
        (
          decode_nonce-encode nonce h,
          x.decode-encode ct,
          (decrypted secret nonce (le_bytes 8 ts) msg ct e).0,
        )
        (ground arith)

  -- An envelope that was sealed opens to its message under the same secret, up to 90 seconds before
  -- or after its time stamp, and is expired at any other time.
  pub open-seal :
      (nonce secret msg : Bytes) (ts now : ℕ) (env : AeadEnvelope)
      → length nonce ≡ aead_nonce_len
      → seal x nonce secret msg ts ≡ ok env
      → open_envelope x now secret env
        ≡ (if leb (abs_diff ts now) aead_ts_skew_secs then ok msg else err expired)
  unfolding seal
  open-seal nonce secret msg ts now env h sealed =
      let (ct, made, same) =
        >>=-eq-ok (aead_crypt x secret nonce (le_bytes 8 ts) msg true)
          (λ (ct : Bytes). ok (sealed_envelope nonce ts ct)) sealed in
      let built : env ≡ sealed_envelope nonce ts ct = cc in
      rw built (open_parts nonce secret msg ct ts now h made)

  -- A clipboard frame that was sealed opens to its contents under the same secret.
  pub open_chunk-seal_chunk :
      (nonce secret msg frame : Bytes)
      → length nonce ≡ aead_nonce_len
      → seal_chunk x nonce secret msg ≡ ok frame
      → open_chunk x secret frame ≡ ok msg
  unfolding seal_chunk open_chunk
  open_chunk-seal_chunk nonce secret msg frame h sealed =
      let (ct, made, same) =
        >>=-eq-ok (aead_crypt x secret nonce clip_label msg true) (λ (ct : Bytes). ok (nonce ++ ct))
          sealed in
      let (opened, size) = decrypted secret nonce clip_label msg ct made in
      let built : frame ≡ nonce ++ ct = cc in
      let front = subst (λ k. take k (nonce ++ ct) ≡ nonce) h (take-append nonce ct) in
      let back = subst (λ k. drop k (nonce ++ ct) ≡ ct) h (drop-append nonce ct) in
      rw (built, front, back) (ground (arith, length-append nonce ct))

  pub length-seal_chunk :
      (nonce secret msg frame : Bytes)
      → length nonce ≡ aead_nonce_len
      → seal_chunk x nonce secret msg ≡ ok frame
      → length frame ≡ length msg + 28
  unfolding seal_chunk
  length-seal_chunk nonce secret msg frame h sealed =
      let (ct, made, same) =
        >>=-eq-ok (aead_crypt x secret nonce clip_label msg true) (λ (ct : Bytes). ok (nonce ++ ct))
          sealed in
      let built : frame ≡ nonce ++ ct = cc in
      let size = (decrypted secret nonce clip_label msg ct made).1 in
      rw built (omega (arith, length-append nonce ct, h, size))

  -- A token is accepted exactly when it is presented and is the expected one.
  pub token_eq_iff :
      (expected : Bytes) (presented : Option Bytes)
      → (token_eq x expected presented ≡ true) ↔ (presented ≡ some expected)
  unfolding token_eq
  token_eq_iff expected none = (λ h. cc, λ h. cc)
  token_eq_iff expected (some presented) = ground (arith, x.ct_eq_iff expected presented)

  -- The code that `mac_hex` gives is accepted for its secret and message, and for another secret and
  -- message exactly when theirs is the same code.
  pub mac_verify-mac_hex :
      (secret body secret' body' : Bytes)
      → (mac_verify x secret body (mac_hex x secret body) ≡ true)
        × ((mac_verify x secret' body' (mac_hex x secret body) ≡ true)
            ↔ (x.hmac secret' body' ≡ x.hmac secret body))
  unfolding mac_verify mac_hex
  mac_verify-mac_hex secret body secret' body' =
      rw (mac_verify, x.decode-encode (x.hmac secret body))
        ((x.ct_eq_iff _ _).1 refl, x.ct_eq_iff (x.hmac secret' body') (x.hmac secret body))
