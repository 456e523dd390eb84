-- ===== src/Common/Auth.antt =====
-- crates/nexus-common/src/auth.rs. Texts and keys are lists of bytes. The cryptography and the hex
-- code are libraries: they are the fields of `Crypto`, with the laws of their documentation.
pub mod Replay
pub mod Sealing
use nexus_kvm.Base.{
  ℕ, suc, zero, ◌+◌, ◌-◌, ◌*◌, ◌/◌, ◌%◌, ◌^◌, ◌≤◌, ◌<◌, ◌≡◌, refl, ◌↔◌, Bool, true, false, not,
  Option, none, some, List, [], ◌∷◌, ◌++◌, ltb, leb, ◌==◌, if◌then◌else◌, Result, ok, err, length,
  is_empty,
}

abbrev pub Bytes : Type 0
Bytes = List ℕ

abbrev pub aead_nonce_len : ℕ
aead_nonce_len = 12

abbrev pub aead_ts_skew_secs : ℕ
aead_ts_skew_secs = 90

abbrev pub replay_cap : ℕ
replay_cap = 8192

pub record AeadEnvelope : Type 0 where
  pub n : Bytes
  pub t : ℕ
  pub c : Bytes

-- The texts of the errors.
pub data AuthError : Type 0 where
  empty_secret expired bad_ciphertext aead_encrypt aead_decrypt clip_too_small : AuthError
  bad_nonce bad_nonce_length replayed : AuthError

-- `hex`, HKDF-SHA256 with the label of this program, HMAC-SHA256, ChaCha20-Poly1305, and `ct_eq`.
pub record Crypto : Type 0 where
  pub hex_encode : Bytes → Bytes
  pub hex_decode : Bytes → Option Bytes
  pub hkdf : Bytes → Bytes
  pub hmac : Bytes → Bytes → Bytes
  pub encrypt : Bytes → Bytes → Bytes → Bytes → Option Bytes
  pub decrypt : Bytes → Bytes → Bytes → Bytes → Option Bytes
  pub ct_eq : Bytes → Bytes → Bool
  pub decode-encode : (b : Bytes) → hex_decode (hex_encode b) ≡ some b
  pub decrypt-encrypt :
      (key nonce aad msg ct : Bytes)
      → encrypt key nonce aad msg ≡ some ct
      → decrypt key nonce aad ct ≡ some msg
  pub length-encrypt :
      (key nonce aad msg ct : Bytes)
      → encrypt key nonce aad msg ≡ some ct
      → length ct ≡ length msg + 16
  pub ct_eq_iff : (a b : Bytes) → (ct_eq a b ≡ true) ↔ (a ≡ b)

-- The last `k` bytes of `n`, the lowest first: `to_le_bytes`.
unfoldable pub le_bytes : ℕ → ℕ → Bytes
le_bytes zero n = []
le_bytes (suc k) n = n % 256 ∷ le_bytes k (n / 256)

-- `abs_diff`
abbrev pub abs_diff : ℕ → ℕ → ℕ
abs_diff a b = if ltb a b then b - a else a - b

abbrev pub of_option {ℓ} : {A : Type ℓ} → Option A → AuthError → Result A AuthError
of_option none e = err e
of_option (some a) e = ok a

infixl 5 ◌>>=◌
-- The operator `?`.
abbrev pub ◌>>=◌ {ℓ κ} :
    {A : Type ℓ} {B : Type κ} → Result A AuthError → (A → Result B AuthError) → Result B AuthError
err problem >>= rest = err problem
ok value >>= rest = rest value

-- `if b { return Err(problem) }`
abbrev pub fail_if : Bool → AuthError → Result (Unit {0}) AuthError
fail_if b problem = if b then err problem else ok tt

-- A `?` whose value is not used.
infixl 5 ◌>>◌
abbrev pub ◌>>◌ {κ} :
    {B : Type κ} → Result (Unit {0}) AuthError → Result B AuthError → Result B AuthError
err problem >> rest = err problem
ok done >> rest = rest

-- Where the first part failed, so does the whole.
pub >>=-eq-ok {ℓ κ} :
    {A : Type ℓ} {B : Type κ} (first : Result A AuthError) (rest : A → Result B AuthError)
    {result : B}
    → first >>= rest ≡ ok result
    → (value : A) × (first ≡ ok value) × (rest value ≡ ok result)
>>=-eq-ok (err problem) rest same = cc
>>=-eq-ok (ok value) rest same = (value, refl, same)

abbrev pub take : ℕ → Bytes → Bytes
take zero b = []
take (suc k) [] = []
take (suc k) (x ∷ b) = x ∷ take k b

abbrev pub drop : ℕ → Bytes → Bytes
drop zero b = b
drop (suc k) [] = []
drop (suc k) (x ∷ b) = drop k b

-- The bytes of "clip".
abbrev pub clip_label : Bytes
clip_label = b'c' ∷ b'l' ∷ b'i' ∷ b'p' ∷ []

unfoldable pub secret_ok : Bytes → Bool
secret_ok secret = not (is_empty secret)

module _ (x : Crypto) where
  open x use {hex_encode, hex_decode, hkdf, hmac, encrypt, decrypt, ct_eq}

  unfoldable pub derive_aead_key : Bytes → Result Bytes AuthError
  derive_aead_key secret = if is_empty secret then err empty_secret else ok (hkdf secret)

  unfoldable pub aead_crypt : Bytes → Bytes → Bytes → Bytes → Bool → Result Bytes AuthError
  unfolding derive_aead_key
  aead_crypt secret nonce aad msg encrypts = do
    key ← derive_aead_key secret
    if encrypts
        then of_option (encrypt key nonce aad msg) aead_encrypt
        else of_option (decrypt key nonce aad msg) aead_decrypt

  -- The random nonce is an argument.
  unfoldable pub seal : Bytes → Bytes → Bytes → ℕ → Result AeadEnvelope AuthError
  unfolding aead_crypt
  seal nonce secret plaintext ts = do
    ct ← aead_crypt secret nonce (le_bytes 8 ts) plaintext true
    ok (record { n = hex_encode nonce; t = ts; c = hex_encode ct })

  unfoldable pub decode_nonce : Bytes → Result Bytes AuthError
  decode_nonce hex_n = do
    raw ← of_option (hex_decode hex_n) bad_nonce
    if length raw == aead_nonce_len then ok raw else err bad_nonce_length

  -- `now` is the clock's `now_unix`.
  unfoldable pub open_envelope : ℕ → Bytes → AeadEnvelope → Result Bytes AuthError
  unfolding aead_crypt decode_nonce
  open_envelope now secret env = do
    fail_if (ltb aead_ts_skew_secs (abs_diff env.t now)) expired
    nonce ← decode_nonce env.n
    ct ← of_option (hex_decode env.c) bad_ciphertext
    aead_crypt secret nonce (le_bytes 8 env.t) ct false

  unfoldable pub seal_chunk : Bytes → Bytes → Bytes → Result Bytes AuthError
  unfolding aead_crypt
  seal_chunk nonce secret plaintext = do
    ct ← aead_crypt secret nonce clip_label plaintext true
    ok (nonce ++ ct)

  unfoldable pub open_chunk : Bytes → Bytes → Result Bytes AuthError
  unfolding aead_crypt
  open_chunk secret frame =
      if ltb (length frame) (aead_nonce_len + 16)
      then err clip_too_small
      else aead_crypt secret (take aead_nonce_len frame) clip_label (drop aead_nonce_len frame)
          false

  unfoldable pub token_eq : Bytes → Option Bytes → Bool
  token_eq expected none = false
  token_eq expected (some presented) =
      if not (length expected == length presented) then false else ct_eq expected presented

  unfoldable pub mac_hex : Bytes → Bytes → Bytes
  mac_hex secret body = hex_encode (hmac secret body)

  -- `verify_slice` compares in constant time.
  unfoldable pub mac_verify : Bytes → Bytes → Bytes → Bool
  mac_verify secret body presented = elim (hex_decode presented) [
    | none ↦ false
    | some bytes ↦ ct_eq (hmac secret body) bytes
  ]
