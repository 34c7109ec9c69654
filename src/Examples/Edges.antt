-- ===== src/Examples/Edges.antt =====
-- The edge of the service: signatures, addresses, stored secrets and the master pin.
use simply_firewall.Prelude.{
  ℕ, ◌≡◌, ◌⊎◌, ◌+◌, ◌-◌, refl, true, false, none, some, ap, trim, split, List, [], ◌∷◌, ◌++◌, Text,
  text_eq, codes, map, any, All, ◌==◌, leb, arith,
}
use simply_firewall.Entities.{ApiKey, Uuid}
use simply_firewall.Error.{internal}
use simply_firewall.Store.Spec.{Spec}
use simply_firewall.Store.Chain.{Reads}
use simply_firewall.Guards.Effects.{DbFailure}
use simply_firewall.Keys.Rotate.{rotate_api_key}
use simply_firewall.Keys.Rotate.Fresh.{IsRotated, rotate_api_key-IsRotated}
use simply_firewall.Crypto.{opened, open_secret, seal}
use simply_firewall.Crypto.RoundTrip.{IsCipher, seal-open_secret}
use simply_firewall.Crypto.Canonical.{canonical_v1_payload_injective}
use simply_firewall.Replay.{SignatureId, new, answers, seconds, same_id, get, insert}
use simply_firewall.Replay.Reference.{Call, reference_answers, answers-reference_answers}
use simply_firewall.ClientIp.{Addresses, Headers, first_untrusted, resolve_client_ip}
use simply_firewall.ClientIp.Search.{plain}
use simply_firewall.ClientIp.Trust.{IsClient, resolve_client_ip-IsClient, resolve_client_ip-forged}
use simply_firewall.MasterPin.{Engine, principals}
use simply_firewall.MasterPin.Single.{ActsAs, principals-single}
use simply_firewall.Examples.Fixtures.{calm, master, manager, vault, as_manager}

encoded_no_dot : (x : Text) → any (λ c. c == b'.') (map (λ c. c + 47) x) ≡ false
encoded_no_dot [] = refl
encoded_no_dot (c ∷ x) = ground (arith, encoded_no_dot x)

decoded : (x : Text) → map (λ c. c - 47) (map (λ c. c + 47) x) ≡ x
decoded [] = refl
decoded (c ∷ x) = ground (arith, decoded x)

decrypted : (n p c : Text) → calm.encrypt n p ≡ some c → calm.decrypt n c ≡ some p
decrypted n p [] e = absurd cc
decrypted n p (b ∷ c) e = ground arith

calm-IsCipher : IsCipher calm
calm-IsCipher = record {
  hex = λ x. ap some (decoded x);
  no_dot = encoded_no_dot;
  cipher = decrypted;
  nonce = λ n. refl;
}

seal-open_secret_example :
    Reads
      (seal calm (codes "secret"))
      vault
      (λ stored. open_secret calm stored ≡ opened (codes "secret"))
      (λ e. (e ≡ internal) × (n : ℕ) × (calm.encrypt (calm.random_nonce n) (codes "secret") ≡ none))
seal-open_secret_example = seal-open_secret calm vault (codes "secret") calm-IsCipher

abbrev signature : SignatureId
signature = record { key_id = 2; digest = 9 ∷ 9 ∷ [] }

-- The same signature at once, a second later, and after the window.
abbrev calls : List Call
calls = (10, signature) ∷ (10 + seconds 1, signature) ∷ (10 + seconds 301, signature) ∷ []

answers-reference_answers_example :
    answers calls (new 300 10) ≡ reference_answers (new 300 10).window [] calls
answers-reference_answers_example =
    answers-reference_answers 300 10 calls (omega arith, (omega arith, (omega arith, tt)))

replay_refused : answers calls (new 300 10) ≡ true ∷ false ∷ true ∷ []
unfolding new answers same_id get insert text_eq
replay_refused = refl

-- Addresses as numbers, networks as upper bounds.
abbrev pub numbered : Addresses
numbered = record {
  IpAddr = ℕ;
  Network = ℕ;
  mapped = λ ip. none;
  parse = λ t. elim t [ [] ↦ none | c ∷ cs ↦ some c ];
  is_inside = λ ip bound. leb ip bound;
}

abbrev headers : Headers
headers = record { forwarded_for = some (codes "Z,C"); real_ip = none }

resolve_client_ip-IsClient_example :
    IsClient numbered
      (66 ∷ [])
      (plain numbered 65)
      headers
      (resolve_client_ip numbered 65 headers (66 ∷ []))
resolve_client_ip-IsClient_example = resolve_client_ip-IsClient numbered 65 headers (66 ∷ [])

chain_names_client : first_untrusted numbered (some (codes "C")) (66 ∷ []) ≡ some 67
unfolding first_untrusted trim split
chain_names_client = refl

resolve_client_ip-forged_example :
    resolve_client_ip numbered 65
      (record { forwarded_for = some (codes "Z" ++ b',' ∷ codes "C"); real_ip = none })
      (66 ∷ [])
    ≡ resolve_client_ip numbered 65
        (record { forwarded_for = some (codes "C"); real_ip = none })
        (66 ∷ [])
resolve_client_ip-forged_example =
    resolve_client_ip-forged numbered 65 67 (codes "Z") (codes "C") none (66 ∷ [])
      chain_names_client

abbrev engine : Engine
engine = record { db = vault; query_failure = none; index_failure = none; has_index = true }

-- A second key that claims to be the master.
abbrev impostor : ApiKey
impostor = record manager { is_master = true }

principals-single_example :
    (id : Uuid) × All (ActsAs id) (principals ((engine, master) ∷ (engine, impostor) ∷ []) none)
principals-single_example = principals-single ((engine, master) ∷ (engine, impostor) ∷ [])

rotate_api_key-IsRotated_example :
    Spec
      (rotate_api_key calm as_manager 3)
      vault
      (λ response d. IsRotated calm manager 3 vault response d)
      (λ e d. DbFailure e ⊎ (d ≡ vault))
rotate_api_key-IsRotated_example = rotate_api_key-IsRotated calm as_manager 3 vault calm-IsCipher

canonical_v1_payload_injective_example :
    (codes "GET" ≡ codes "GET")
    × (codes "/api/ips" ≡ codes "/api/ips")
    × (codes "1700000000" ≡ codes "1700000000")
    × (codes "x" ≡ codes "x")
canonical_v1_payload_injective_example =
    canonical_v1_payload_injective (codes "GET") (codes "/api/ips") (codes "1700000000") (codes "x")
      (codes "GET") (codes "/api/ips") (codes "1700000000") (codes "x") refl refl refl refl refl
      refl refl
