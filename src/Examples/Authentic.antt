-- ===== src/Examples/Authentic.antt =====
-- Requests at the middleware.
use simply_firewall.Prelude.{
  ◌≡◌, refl, true, none, some, [], ◌∷◌, ◌++◌, Text, codes, ◌↔◌, pos, arith, parse_i64, trim,
  abs_i64, saturate, ◌-ℤ◌, strip_prefix, text_eq, split, Option,
}
use simply_firewall.Entities.{ApiKey}
use simply_firewall.Error.{ok, err, unauthorized, invalid_signature, signature_used}
use simply_firewall.Crypto.{canonical_v1_payload, verify_signature, open_secret, plaintext_prefix}
use simply_firewall.Replay.{
  new, answers, seconds, prune_if_due, record_if_new, check_and_record, get, insert, same_id,
}
use simply_firewall.ClientIp.{resolve_client_ip, normalize_ip, is_trusted}
use simply_firewall.MasterPin.{Engine, authenticate}
use simply_firewall.Middleware.{
  Moment, Incoming, Shared, Verified, Accepted, validate_timestamp, signed_target, verify,
  auth_middleware, bound_networks, allowed_from,
}
use simply_firewall.Middleware.Clock.{IsFresh, validate_timestamp_iff}
use simply_firewall.Middleware.Sound.{IsAuthentic, auth_middleware-IsAuthentic}
use simply_firewall.Middleware.Blind.{rebind, auth_middleware-rebind}
use simply_firewall.Middleware.Once.{state_after, auth_middleware-once}
use simply_firewall.Examples.Fixtures.{calm, manager, vault}
use simply_firewall.Examples.Edges.{numbered}

-- A stale clock at both ends of `i64`.
validate_timestamp_iff_example :
    (validate_timestamp (pos 1000) (some (codes " 700 ")) ≡ ok (codes "700"))
    ↔ IsFresh (pos 1000) (some (codes " 700 ")) (codes "700")
validate_timestamp_iff_example =
    validate_timestamp_iff (pos 1000) (some (codes " 700 ")) (codes "700") (omega arith)
      (omega arith)

-- The manager, with a secret, bound to the addresses up to 9.
abbrev signer : ApiKey
signer = record manager {
  key_hash = calm.hex_encode (codes "k");
  signing_secret = some (plaintext_prefix ++ calm.hex_encode (codes "s"));
  bound_ips = some (codes "9");
}

abbrev engine : Engine
engine = record { db = vault; query_failure = none; index_failure = none; has_index = true }

abbrev at_noon : Moment numbered
at_noon = record {
  now = pos 1000;
  instant = 5;
  db = record vault { api_keys = signer ∷ [] };
  lookup_failure = none;
  engine = engine;
  trusted = [];
}

abbrev message : Text
message = canonical_v1_payload (codes "GET") (codes "/api/me") (codes "900") []

abbrev signed : Incoming numbered
signed = record {
  peer = 4;
  forwarding = record { forwarded_for = none; real_ip = none };
  timestamp = some (codes "900");
  api_key = some (codes "k");
  signature = some (codes "sha256=" ++ calm.hex_encode message);
  method = codes "GET";
  original_uri = none;
  uri = record { path_and_query = some (codes "/api/me"); path = codes "/api/me" };
  body = λ limit. some [];
}

abbrev shared : Shared
shared = record { replay = new 300 0; pin = none }

-- Every network text is the bound 9.
abbrev parse : Text → Option numbered.Network
parse t = some 9

abbrev proof : Verified
proof = record { key = signer; timestamp = codes "900"; body = []; digest = message }

abbrev passed : Accepted numbered
passed = record { key_record = signer; client_ip = 4; body = [] }

verifies : verify calm 100 at_noon signed ≡ ok proof
unfolding verify validate_timestamp parse_i64 trim abs_i64 saturate ◌-ℤ◌ strip_prefix text_eq
    open_secret canonical_v1_payload verify_signature signed_target
verifies = refl

passes : (auth_middleware calm 100 numbered parse at_noon signed shared).0 ≡ ok passed
unfolding verify validate_timestamp parse_i64 trim abs_i64 saturate ◌-ℤ◌ strip_prefix text_eq
    open_secret canonical_v1_payload verify_signature signed_target auth_middleware check_and_record
    get insert resolve_client_ip normalize_ip is_trusted bound_networks allowed_from authenticate
    same_id new split
passes = refl

auth_middleware-IsAuthentic_example : IsAuthentic calm 100 numbered parse at_noon signed passed
auth_middleware-IsAuthentic_example =
    auth_middleware-IsAuthentic calm 100 numbered parse at_noon signed shared passed passes

-- A second later, after a request that is refused.
abbrev later : Moment numbered
later = record at_noon { now = pos 1001; instant = 1000000005 }

abbrev unsigned : Incoming numbered
unsigned = record signed { signature = some (codes "sha256=00") }

verifies_later : verify calm 100 later signed ≡ ok proof
unfolding verify validate_timestamp parse_i64 trim abs_i64 saturate ◌-ℤ◌ strip_prefix text_eq
    open_secret canonical_v1_payload verify_signature signed_target
verifies_later = refl

refuses : verify calm 100 at_noon unsigned ≡ err (unauthorized invalid_signature)
unfolding verify validate_timestamp parse_i64 trim abs_i64 saturate ◌-ℤ◌ strip_prefix text_eq
    open_secret canonical_v1_payload verify_signature signed_target
refuses = refl

auth_middleware-once_example :
    (auth_middleware calm 100 numbered parse later signed
      (auth_middleware calm 100 numbered parse at_noon unsigned
        (auth_middleware calm 100 numbered parse at_noon signed shared).1).1).0
    ≡ err (unauthorized signature_used)
unfolding new state_after
auth_middleware-once_example =
    auth_middleware-once calm 100 numbered parse at_noon later signed signed
      ((at_noon, unsigned) ∷ []) shared proof proof passed verifies passes (omega arith, tt)
      (omega arith) verifies_later refl

auth_middleware-rebind_example :
    auth_middleware calm 100 numbered parse
      (record at_noon { db = rebind (λ k. none) at_noon.db; trusted = 7 ∷ [] })
      (record unsigned { peer = 99; forwarding = signed.forwarding })
      shared
    ≡ (err (unauthorized invalid_signature), shared)
auth_middleware-rebind_example =
    auth_middleware-rebind calm 100 numbered parse (λ k. none) at_noon unsigned shared (7 ∷ []) 99
      signed.forwarding (unauthorized invalid_signature) refuses

-- A timestamp 300 seconds ahead is still fresh 301 seconds later, when the guard has forgotten its
-- signature.
fresh_after_forgotten :
    (validate_timestamp (pos 1000) (some (codes "1300")) ≡ ok (codes "1300"))
    × (validate_timestamp (pos 1301) (some (codes "1300")) ≡ ok (codes "1300"))
    × (answers
          ((seconds 1000, record { key_id = 2; digest = [] })
            ∷ (seconds 1301, record { key_id = 2; digest = [] })
            ∷ [])
          (new 300 0)
        ≡ true ∷ true ∷ [])
unfolding validate_timestamp parse_i64 trim abs_i64 saturate ◌-ℤ◌ answers check_and_record new get
    insert same_id text_eq prune_if_due record_if_new
fresh_after_forgotten = (refl, refl, refl)
