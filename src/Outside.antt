-- ===== src/Outside.antt =====
-- What the service takes from code that is not in the repository, as a parameter of the model: the
-- uuid and rand crates, the clock, the failures of the database engine, sha2, hex, the XChaCha20
-- cipher, and the parsers of ipnetwork and uuid. An answer that may differ from call to call takes
-- the number of the call.
use simply_firewall.Prelude.{ℕ, Bool, Option, Text}
use simply_firewall.Entities.{Uuid, DateTime}
use simply_firewall.Error.{DbErr}

pub record Outside : Type 1 where
  pub uuid : ℕ → Uuid
  pub clock : ℕ → DateTime
  -- whether the n-th statement fails, and how
  pub failure : ℕ → Option DbErr
  -- the 32 bytes of a credential, and the 24 of a nonce
  pub random_bytes : ℕ → Text
  pub random_nonce : ℕ → Text
  pub sha256 : Text → Text
  pub hex_encode : Text → Text
  pub hex_decode : Text → Option Text
  -- the cipher under the configured key, at a nonce; `none` is its error
  pub encrypt : (nonce plaintext : Text) → Option Text
  pub decrypt : (nonce ciphertext : Text) → Option Text
  -- whether `VAULT_ENCRYPTION_KEY` is configured
  pub is_encrypting : Bool
  -- HMAC-SHA256 of a message under a secret
  pub hmac : (secret message : Text) → Text
  pub parse_uuid : Text → Option Uuid
  pub show_uuid : Uuid → Text
  pub Network : Type 0
  pub parse_network : Text → Option Network
