-- ===== src/Crypto.antt =====
-- src/crypto.rs: how a signing secret is stored, and the string that a request's signature covers.
-- The cipher, HMAC, and hex are parameters. A text is its UTF-8 bytes here, so
-- `String::from_utf8`, which undoes `as_bytes`, is left out.
pub mod Effects
pub mod RoundTrip
pub mod Canonical
pub mod Tags
use simply_firewall.Prelude.{
  ℕ, Bool, true, false, Option, none, some, List, [], ◌∷◌, ◌++◌, Text, codes, length, trim,
  strip_prefix, text_eq, if◌then◌else◌, ◌==◌, not,
}
use simply_firewall.Error.{AppError, internal, Result, ok, err}
use simply_firewall.Outside.{Outside}
use simply_firewall.Store.{Action, pure, raise, lift, ◌>>=◌, random, new_nonce}

pub data CryptoError : Type 0 where
  invalid_key malformed_ciphertext decryption_failed encryption_failed : CryptoError

pub data Opened : Type 0 where
  opened : Text → Opened
  failed : CryptoError → Opened

abbrev pub plaintext_prefix : Text
plaintext_prefix = codes "v1.plain."

abbrev pub sealed_prefix : Text
sealed_prefix = codes "v1.xchacha20poly1305."

abbrev pub signature_prefix : Text
signature_prefix = codes "sha256="

abbrev pub nonce_len : ℕ
nonce_len = 24

-- `str::split_once`
unfoldable pub split_once : ℕ → Text → Option (Text × Text)
split_once sep [] = none
split_once sep (c ∷ s) =
    let rest = split_once sep s in if c == sep then some ([], s) else before c rest
  where
    before : ℕ → Option (Text × Text) → Option (Text × Text)
    before a none = none
    before a (some (l, r)) = some (a ∷ l, r)

-- `METHOD\nTARGET\nTIMESTAMP\nRAW_BODY`
unfoldable pub canonical_v1_payload : (method target timestamp body : Text) → Text
canonical_v1_payload method target timestamp body =
    method ++ 10 ∷ (target ++ 10 ∷ (timestamp ++ 10 ∷ body))

module _ (o : Outside) where
  unfoldable pub generate_signing_secret : Action Text
  generate_signing_secret = do bytes ← random o; pure (o.hex_encode bytes)

  -- The sealed shape, once the nonce is drawn.
  unfoldable pub sealed_text : (nonce : Text) → Option Text → Result Text
  sealed_text nonce none = err internal
  sealed_text nonce (some ciphertext) =
      ok (sealed_prefix ++ (o.hex_encode nonce ++ b'.' ∷ o.hex_encode ciphertext))

  -- `SecretCipher::seal`, with `CryptoError` turned into `AppError::Internal` as its callers do.
  unfoldable pub seal : Text → Action Text
  unfolding sealed_text
  seal plaintext =
      if not o.is_encrypting
      then pure (plaintext_prefix ++ o.hex_encode plaintext)
      else do nonce ← new_nonce o; lift (sealed_text nonce (o.encrypt nonce plaintext))

  or_failed : CryptoError → Option Text → Opened
  or_failed e none = failed e
  or_failed e (some s) = opened s

  -- The sealed branch of `open`, step by step.
  open_ciphertext : (nonce : Text) → Option Text → Opened
  unfolding or_failed
  open_ciphertext nonce none = failed malformed_ciphertext
  open_ciphertext nonce (some ciphertext) =
      if not o.is_encrypting
      then failed decryption_failed
      else or_failed decryption_failed (o.decrypt nonce ciphertext)

  open_nonce : Option Text → (ciphertext_hex : Text) → Opened
  unfolding open_ciphertext
  open_nonce none ciphertext_hex = failed malformed_ciphertext
  open_nonce (some nonce) ciphertext_hex =
      if length nonce == nonce_len
      then open_ciphertext nonce (o.hex_decode ciphertext_hex)
      else failed malformed_ciphertext

  open_body : Option (Text × Text) → Opened
  unfolding open_nonce
  open_body none = failed malformed_ciphertext
  open_body (some (nonce_hex, ciphertext_hex)) = open_nonce (o.hex_decode nonce_hex) ciphertext_hex

  open_sealed : Option Text → Opened
  unfolding open_body split_once
  open_sealed none = failed malformed_ciphertext
  open_sealed (some body) = open_body (split_once b'.' body)

  open_stored : Option Text → (stored : Text) → Opened
  unfolding open_sealed or_failed
  open_stored (some encoded) stored = or_failed malformed_ciphertext (o.hex_decode encoded)
  open_stored none stored = open_sealed (strip_prefix sealed_prefix stored)

  -- `SecretCipher::open`
  unfoldable pub open_secret : Text → Opened
  unfolding open_stored
  open_secret stored = open_stored (strip_prefix plaintext_prefix stored) stored

  unfoldable pub compute_signature : (secret method target timestamp body : Text) → Text
  unfolding canonical_v1_payload
  compute_signature secret method target timestamp body =
      signature_prefix
      ++ o.hex_encode (o.hmac secret (canonical_v1_payload method target timestamp body))

  -- `Mac::verify_slice` on the decoded tag.
  check_tag : (secret message : Text) → Option Text → Option Text
  check_tag secret message none = none
  check_tag secret message (some tag) =
      if text_eq tag (o.hmac secret message) then some tag else none

  decode_tag : Option Text → Option Text
  decode_tag none = none
  decode_tag (some rest) = o.hex_decode (trim rest)

  unfoldable pub verify_signature :
      (secret method target timestamp body provided : Text) → Option Text
  unfolding check_tag decode_tag canonical_v1_payload
  verify_signature secret method target timestamp body provided =
      check_tag secret (canonical_v1_payload method target timestamp body)
        (decode_tag (strip_prefix signature_prefix (trim provided)))
