-- ===== src/Crypto/Effects.antt =====
-- src/crypto.rs and src/api/support.rs: drawing and sealing secrets, against the tables.
use simply_firewall.Prelude.{ℕ, ◌≡◌, refl, Text, not, Option, none, some}
use simply_firewall.Error.{internal}
use simply_firewall.Outside.{Outside}
use simply_firewall.Store.{Db, lift}
use simply_firewall.Store.Spec.{Spec-pure, Spec-if, Spec-answer}
use simply_firewall.Store.Chain.{Reads, after_random, after_drawn, after_new_nonce}
use simply_firewall.Support.{generate_random_key}
use simply_firewall.Crypto.{generate_signing_secret, seal, sealed_text}

-- A text is the printed bytes of a draw from the generator of randomness.
abbrev pub IsGenerated : Outside → Text → Type 0
IsGenerated o secret = (n : ℕ) × (secret ≡ o.hex_encode (o.random_bytes n))

module _ (o : Outside) (db : Db) where
  pub generate_random_key-Reads : Reads (generate_random_key o) db (λ _. Unit) (λ _. ⊥)
  unfolding generate_random_key
  generate_random_key-Reads = after_random o (λ bytes. Spec-pure db _ (refl, tt))

  pub generate_signing_secret-Reads : Reads (generate_signing_secret o) db (IsGenerated o) (λ _. ⊥)
  unfolding generate_signing_secret
  generate_signing_secret-Reads = after_drawn o _ (λ n. Spec-pure db _ (refl, (n, refl)))

  sealed-Reads :
      (nonce : Text) (x : Option Text)
      → Reads (lift (sealed_text o nonce x)) db (λ _. Unit) (λ e. e ≡ internal)
  unfolding sealed_text
  sealed-Reads nonce none = Spec-answer db _ (refl, refl)
  sealed-Reads nonce (some c) = Spec-answer db _ (refl, tt)

  pub seal-Reads : (plaintext : Text) → Reads (seal o plaintext) db (λ _. Unit) (λ e. e ≡ internal)
  unfolding seal
  seal-Reads plaintext =
      Spec-if db (not o.is_encrypting) _ _ (λ _. Spec-pure db _ (refl, tt))
        λ _.
          after_new_nonce o _
            (λ n. sealed-Reads (o.random_nonce n) (o.encrypt (o.random_nonce n) plaintext))
