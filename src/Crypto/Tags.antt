-- ===== src/Crypto/Tags.antt =====
-- src/crypto.rs: `compute_signature` against `verify_signature`.
use simply_firewall.Prelude.{
  ◌≡◌, refl, Option, none, some, Text, trim, ◌++◌, strip_prefix, text_eq_iff, arith, ℕ, Bool, true,
  not, all, is_whitespace, [], ◌∷◌, trim-plain,
}
use simply_firewall.Outside.{Outside}
use simply_firewall.Crypto.{
  verify_signature, compute_signature, signature_prefix, canonical_v1_payload, check_tag,
  decode_tag,
}

module _ (o : Outside) where
  tag_checked :
      (secret message : Text) (x : Option Text) {digest : Text}
      → check_tag o secret message x ≡ some digest
      → (x ≡ some digest) × (digest ≡ o.hmac secret message)
  unfolding check_tag
  tag_checked secret message none h = absurd cc
  tag_checked secret message (some tag) h = ground (arith, text_eq_iff tag (o.hmac secret message))

  tag_decoded :
      (x : Option Text) {digest : Text}
      → decode_tag o x ≡ some digest
      → (rest : Text) × (x ≡ some rest) × (o.hex_decode (trim rest) ≡ some digest)
  unfolding decode_tag
  tag_decoded none h = absurd cc
  tag_decoded (some rest) h = (rest, refl, h)

  pub verify_signature-some :
      (secret method target timestamp body provided : Text) {digest : Text}
      → verify_signature o secret method target timestamp body provided ≡ some digest
      → (rest : Text) × (strip_prefix signature_prefix (trim provided) ≡ some rest)
        × (o.hex_decode (trim rest) ≡ some digest)
        × (digest ≡ o.hmac secret (canonical_v1_payload method target timestamp body))
  unfolding verify_signature
  verify_signature-some secret method target timestamp body provided h =
      let (decoded, digest_is) = tag_checked secret _ _ h in
      let (rest, tagged, decodes) = tag_decoded _ decoded in (rest, tagged, decodes, digest_is)

abbrev pub is_plain : ℕ → Bool
is_plain c = not (is_whitespace c)

all-append :
    (s t : Text) → all is_plain s ≡ true → all is_plain t ≡ true → all is_plain (s ++ t) ≡ true
all-append [] t h k = k
all-append (c ∷ s) t h k = ground (all-append s t, arith)

strip_prefix-append : (p s : Text) → strip_prefix p (p ++ s) ≡ some s
unfolding strip_prefix
strip_prefix-append [] s = refl
strip_prefix-append (c ∷ p) s = ground (arith, strip_prefix-append p s)

-- `compute_signature`, whose value `verify_signature` takes; HMAC takes secrets of every length.
module _ (o : Outside) (hex : (x : Text) → o.hex_decode (o.hex_encode x) ≡ some x)
    (plain : (x : Text) → all is_plain (o.hex_encode x) ≡ true) where
  pub verify_signature-compute_signature :
      (secret method target timestamp body : Text)
      → verify_signature o secret method target timestamp body
          (compute_signature o secret method target timestamp body)
        ≡ some (o.hmac secret (canonical_v1_payload method target timestamp body))
  unfolding verify_signature compute_signature decode_tag check_tag strip_prefix
  verify_signature-compute_signature secret method target timestamp body =
      let digest = o.hmac secret (canonical_v1_payload method target timestamp body) in
      rw
        (
          trim-plain (signature_prefix ++ o.hex_encode digest) (plain digest),
          trim-plain (o.hex_encode digest) (plain digest),
          hex digest,
          (text_eq_iff digest digest).1 refl,
        )
        refl
