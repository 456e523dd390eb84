-- ===== src/Desktop/Logs/Stripped.antt =====
-- Control sequences in logs.
use nexus_kvm.Base.{
  ℕ, zero, suc, ◌≤◌, ◌≡◌, ◌≢◌, inl, inr, refl, ap, ◌∙◌, true, false, [], ◌∷◌, ◌++◌, length, arith,
  length-append, Bool-cases, All,
}
use nexus_kvm.Desktop.Logs.{
  Bytes, is_final, skip_csi, skip_params, starts_with, tail, is_escape, is_leftover, strip,
  strip_ansi,
}

length-skip_csi : (bytes : Bytes) → length (skip_csi bytes) ≤ length bytes
unfolding skip_csi
length-skip_csi [] = omega arith
length-skip_csi (c ∷ bytes) = ground (arith, length-skip_csi bytes)

length-skip_params : (bytes : Bytes) → length (skip_params bytes) ≤ length bytes
unfolding skip_params
length-skip_params [] = omega arith
length-skip_params (c ∷ bytes) = ground (arith, length-skip_params bytes)

length-tail : (bytes : Bytes) → length (tail bytes) ≤ length bytes
unfolding tail
length-tail [] = omega arith
length-tail (c ∷ bytes) = omega arith

-- Fuel for every byte is enough.
strip-fuel :
    (f g : ℕ) (bytes : Bytes) → length bytes ≤ f → length bytes ≤ g → strip f bytes ≡ strip g bytes
unfolding strip
strip-fuel zero zero bytes h k = refl
strip-fuel zero (suc g) [] h k = refl
strip-fuel zero (suc g) (c ∷ bytes) h k = absurd (omega arith)
strip-fuel (suc f) zero [] h k = refl
strip-fuel (suc f) zero (c ∷ bytes) h k = absurd (omega arith)
strip-fuel (suc f) (suc g) [] h k = refl
strip-fuel (suc f) (suc g) (c ∷ bytes) h k =
    let escape = skip_csi (tail bytes) in
    let leftover = tail (skip_params bytes) in
    let short : length escape ≤ length bytes =
      omega (arith, length-skip_csi (tail bytes), length-tail bytes) in
    let short' : length leftover ≤ length bytes =
      omega (arith, length-skip_params bytes, length-tail (skip_params bytes)) in
    elim (Bool-cases (is_escape c bytes)) [
      | inl e ↦ rw (e, strip) (strip-fuel f g escape (omega (arith, short)) (omega (arith, short)))
      | inr e ↦ elim (Bool-cases (is_leftover c bytes)) [
        | inl l ↦
            rw (e, strip)
              (rw (l, strip)
                (strip-fuel f g leftover (omega (arith, short')) (omega (arith, short'))))
        | inr l ↦
            rw (e, strip)
              (rw (l, strip) (ap (λ t. c ∷ t) (strip-fuel f g bytes (omega arith) (omega arith))))
      ]
    ]

strip-strip_ansi : (f : ℕ) (bytes : Bytes) → length bytes ≤ f → strip f bytes ≡ strip_ansi bytes
unfolding strip_ansi
strip-strip_ansi f bytes h = strip-fuel f (length bytes) bytes h (omega arith)

-- A byte that begins no control sequence.
abbrev pub IsPlain : ℕ → Type 0
IsPlain c = (c ≢ 27) × (c ≢ b'[')

not_escape : (c : ℕ) (bytes : Bytes) → c ≢ 27 → is_escape c bytes ≡ false
unfolding is_escape
not_escape c bytes h = ground arith

not_leftover : (c : ℕ) (bytes : Bytes) → c ≢ b'[' → is_leftover c bytes ≡ false
unfolding is_leftover
not_leftover c bytes h = ground arith

strip_ansi-plain :
    (c : ℕ) (bytes : Bytes) → IsPlain c → strip_ansi (c ∷ bytes) ≡ c ∷ strip_ansi bytes
unfolding strip_ansi strip
strip_ansi-plain c bytes h =
    let no_escape : is_escape c bytes ≡ false = not_escape c bytes h.0 in
    let no_rest : is_leftover c bytes ≡ false = not_leftover c bytes h.1 in
    rw (no_escape, strip) (rw (no_rest, strip) refl)

skip_csi-final :
    (params : Bytes) (final : ℕ) (rest : Bytes)
    → All (λ c. is_final c ≡ false) params
    → is_final final ≡ true
    → skip_csi (params ++ final ∷ rest) ≡ rest
unfolding skip_csi
skip_csi-final [] final rest h e = rw e refl
skip_csi-final (c ∷ params) final rest h e = rw h.0 (skip_csi-final params final rest h.1 e)

strip_ansi-escape :
    (params : Bytes) (final : ℕ) (rest : Bytes)
    → All (λ c. is_final c ≡ false) params
    → is_final final ≡ true
    → strip_ansi (27 ∷ b'[' ∷ (params ++ final ∷ rest)) ≡ strip_ansi rest
unfolding strip_ansi strip is_escape starts_with tail
strip_ansi-escape params final rest h e =
    let fuel = suc (length (params ++ final ∷ rest)) in
    ap (strip fuel) (skip_csi-final params final rest h e)
    ∙ strip-strip_ansi fuel rest (omega (arith, length-append params (final ∷ rest)))

-- A control sequence is taken out whole wherever it stands: the text before it, if it begins no other
-- sequence, is kept as it is, and the text behind it is stripped by itself.
pub strip_ansi-sequence :
    (before params : Bytes) (final : ℕ) (rest : Bytes)
    → All IsPlain before
    → All (λ c. is_final c ≡ false) params
    → is_final final ≡ true
    → strip_ansi (before ++ (27 ∷ b'[' ∷ (params ++ final ∷ rest))) ≡ before ++ strip_ansi rest
strip_ansi-sequence [] params final rest plain h e = strip_ansi-escape params final rest h e
strip_ansi-sequence (c ∷ before) params final rest plain h e =
    strip_ansi-plain c _ plain.0
    ∙ ap (λ t. c ∷ t) (strip_ansi-sequence before params final rest plain.1 h e)
