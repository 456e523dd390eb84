-- ===== src/Agent/Clipboard/Uris.antt =====
-- `path_to_uri` and `parse_uri_list` in crates/nexus-agent/src/clipboard.rs.
use nexus_kvm.Base.{
  ℕ, ◌/◌, ◌%◌, ◌<◌, ◌≡◌, ◌≢◌, refl, ap, ◌∙◌, true, some, [], ◌∷◌, All, arith, Bool-cases, inl, inr,
}
use nexus_kvm.Common.Auth.{Bytes}
use nexus_kvm.Agent.Clipboard.{
  keeps_byte, hex_digit, uri_bytes, path_to_uri, hex_nibble, coded, percent_decode, strip_prefix,
  uri_path,
}
use native.Mathlib.Nat.{div-add-mod}

hex_nibble-hex_digit : (d : ℕ) → d < 16 → hex_nibble (hex_digit d) ≡ some d
unfolding hex_nibble hex_digit
hex_nibble-hex_digit d h = ground arith

percent_decode_plain : (b : ℕ) (t : Bytes) → b ≢ 37 → percent_decode (b ∷ t) ≡ b ∷ percent_decode t
unfolding percent_decode
percent_decode_plain b [] n = refl
percent_decode_plain b (h ∷ []) n = refl
percent_decode_plain b (h ∷ l ∷ more) n = ground arith

percent_decode_coded :
    (b : ℕ) (t : Bytes)
    → b < 256
    → percent_decode (37 ∷ hex_digit (b / 16) ∷ hex_digit (b % 16) ∷ t) ≡ b ∷ percent_decode t
unfolding percent_decode coded
percent_decode_coded b t h =
    rw
      (
        percent_decode,
        hex_nibble-hex_digit (b / 16) (omega arith),
        hex_nibble-hex_digit (b % 16) (omega arith),
      )
      (ap (λ n. n ∷ percent_decode t) (omega (arith, div-add-mod b 16)))

keeps_byte-percent : (b : ℕ) → keeps_byte b ≡ true → b ≢ 37
unfolding keeps_byte
keeps_byte-percent b h = ground arith

percent_decode-uri_bytes :
    (path : Bytes) → All (λ b. b < 256) path → percent_decode (uri_bytes path) ≡ path
unfolding uri_bytes
percent_decode-uri_bytes [] h = unfold percent_decode in refl
percent_decode-uri_bytes (b ∷ path) (small, h) = elim (Bool-cases (keeps_byte b)) [
  | inl e ↦ rw e (
      percent_decode_plain b (uri_bytes path) (keeps_byte-percent b e)
      ∙ ap (◌∷◌ b) (percent_decode-uri_bytes path h))
  | inr e ↦
      rw e (
        percent_decode_coded b (uri_bytes path) small
        ∙ ap (◌∷◌ b) (percent_decode-uri_bytes path h))
]

-- The URI of a path is read back as the path, whatever bytes it has.
pub uri_path-path_to_uri :
    (path : Bytes) → All (λ b. b < 256) path → uri_path (path_to_uri path) ≡ some path
unfolding uri_path path_to_uri strip_prefix
uri_path-path_to_uri path h = ap some (percent_decode-uri_bytes path h)
