-- ===== src/Crypto/RoundTrip.antt =====
-- src/crypto.rs: `seal` against `open`, in both modes.
use simply_firewall.Prelude.{
  ℕ, ◌≡◌, refl, true, false, not, Option, none, some, [], ◌∷◌, ◌++◌, Text, any, ◌==◌, length,
  strip_prefix, arith,
}
use simply_firewall.Error.{internal}
use simply_firewall.Outside.{Outside}
use simply_firewall.Store.{Db, lift}
use simply_firewall.Store.Spec.{Spec-pure, Spec-if, Spec-answer}
use simply_firewall.Store.Chain.{Reads, after_new_nonce}
use simply_firewall.Crypto.{
  opened, split_once, seal, sealed_text, open_secret, nonce_len, plaintext_prefix, sealed_prefix,
}

-- What the code relies on in the hex and chacha20poly1305 crates: `decode` undoes `encode`, an
-- encoding has no dot, decryption undoes encryption under the same key and nonce, and a nonce has
-- 24 bytes.
pub record IsCipher (o : Outside) : Type 0 where
  pub hex : (x : Text) → o.hex_decode (o.hex_encode x) ≡ some x
  pub no_dot : (x : Text) → any (λ c. c == b'.') (o.hex_encode x) ≡ false
  pub cipher : (n p c : Text) → o.encrypt n p ≡ some c → o.decrypt n c ≡ some p
  pub nonce : (n : ℕ) → length (o.random_nonce n) ≡ nonce_len

-- A separator splits a text where it first stands.
pub split_once-append :
    (sep : ℕ) (l r : Text)
    → any (λ c. c == sep) l ≡ false
    → split_once sep (l ++ sep ∷ r) ≡ some (l, r)
unfolding split_once
split_once-append sep [] r h = ground arith
split_once-append sep (c ∷ l) r h = ground (arith, split_once-append sep l r)

module _ (o : Outside) (laws : IsCipher o) where
  open-plain : (p : Text) → open_secret o (plaintext_prefix ++ o.hex_encode p) ≡ opened p
  unfolding open_secret strip_prefix
  open-plain p = rw (laws.hex p)

  open-sealed :
      (n : ℕ) (p c : Text)
      → o.is_encrypting ≡ true
      → o.encrypt (o.random_nonce n) p ≡ some c
      → open_secret o (sealed_prefix ++ (o.hex_encode (o.random_nonce n) ++ b'.' ∷ o.hex_encode c))
        ≡ opened p
  unfolding open_secret strip_prefix
  open-sealed n p c e h = rw (
    split_once-append b'.' (o.hex_encode (o.random_nonce n)) (o.hex_encode c) (laws.no_dot _),
    laws.hex (o.random_nonce n),
    laws.nonce n,
    laws.hex c,
    e,
    laws.cipher (o.random_nonce n) p c h,
  )

  sealed-opens :
      (n : ℕ) (p : Text) (x : Option Text) (db : Db)
      → o.is_encrypting ≡ true
      → o.encrypt (o.random_nonce n) p ≡ x
      → Reads
          (lift (sealed_text o (o.random_nonce n) x))
          db
          (λ stored. open_secret o stored ≡ opened p)
          (λ e. (e ≡ internal) × (n' : ℕ) × (o.encrypt (o.random_nonce n') p ≡ none))
  unfolding sealed_text
  sealed-opens n p none db e h = Spec-answer db _ (refl, (refl, n, h))
  sealed-opens n p (some c) db e h = Spec-answer db _ (refl, open-sealed n p c e h)

-- Sealing a secret returns a text that opens to the secret, with or without a configured key. It
-- fails only where the cipher refuses to encrypt, and changes no table.
pub seal-open_secret :
    (o : Outside) (db : Db) (plaintext : Text)
    → IsCipher o
    → Reads
        (seal o plaintext)
        db
        (λ stored. open_secret o stored ≡ opened plaintext)
        (λ e. (e ≡ internal) × (n : ℕ) × (o.encrypt (o.random_nonce n) plaintext ≡ none))
unfolding seal
seal-open_secret o db p laws =
    Spec-if db (not o.is_encrypting) _ _ (λ _. Spec-pure db _ (refl, open-plain o laws p))
      λ e. after_new_nonce o _ λ n. sealed-opens o laws n p _ db (ground arith) refl
