-- ===== src/Middleware.antt =====
-- src/middleware.rs: the authentication of a request, from its headers to the key that the handlers
-- see. What axum, the clocks and the database hand over in one request is a `Moment` and an
-- `Incoming`; a text is its UTF-8 bytes.
pub mod Results
pub mod Clock
pub mod Sound
pub mod Blind
pub mod Once
use simply_firewall.Prelude.{
  ℕ, Bool, true, false, not, ◌||◌, Option, none, some, List, [], ◌∷◌, map, Text, codes, trim, split,
  keep, any, find, is_empty, starts_with, if◌then◌else◌, text_eq, strip_prefix, unwrap_or, ℤ, pos,
  ◌-ℤ◌, ltb_ℤ, saturate, abs_i64, parse_i64,
}
use simply_firewall.Entities.{ApiKey}
use simply_firewall.Error.{
  DbErr, AppError, db_error, unauthorized, forbidden, invalid_input, internal, Result, ok, err,
  Message, missing_timestamp, malformed_timestamp, outside_window, missing_api_key,
  missing_signature, signature_shape, invalid_api_key, no_signing_secret, unreadable_body,
  invalid_signature, signature_used, client_ip_not_allowed,
}
use simply_firewall.Outside.{Outside}
use simply_firewall.Store.{Db}
use simply_firewall.Crypto.{Opened, opened, failed, open_secret, verify_signature, signature_prefix}
use simply_firewall.Replay.{Instant, ReplayGuard, check_and_record}
use simply_firewall.ClientIp.{Addresses, Headers, resolve_client_ip}
use simply_firewall.MasterPin.{Engine, Cell, authenticate}
use simply_firewall.Middleware.Results.{◌>>=◌, ok_or_err}

-- `MAX_TIMESTAMP_SKEW_SECS`
abbrev pub max_timestamp_skew_secs : ℤ
max_timestamp_skew_secs = pos 300

-- What the clocks and the database answer while the request is authenticated.
pub record Moment (a : Addresses) : Type 1 where
  -- `Utc::now().timestamp()`
  pub now : ℤ
  -- `Instant::now()` inside the guard
  pub instant : Instant
  pub db : Db
  pub lookup_failure : Option DbErr
  pub engine : Engine
  -- `TrustedProxies::resolved`
  pub trusted : List a.Network

-- `http::Uri`, as far as the signature covers it.
pub record Uri : Type 0 where
  pub path_and_query : Option Text
  pub path : Text

-- A header is there when it is present and readable.
pub record Incoming (a : Addresses) : Type 1 where
  pub peer : a.IpAddr
  pub forwarding : Headers
  pub timestamp : Option Text
  pub api_key : Option Text
  pub signature : Option Text
  pub method : Text
  pub original_uri : Option Uri
  pub uri : Uri
  -- `axum::body::to_bytes` at a limit
  pub body : (limit : ℕ) → Option Text

-- The part of `AppState` that a request changes here.
pub record Shared : Type 0 where
  pub replay : ReplayGuard
  pub pin : Cell

-- What the signature proves.
pub record Verified : Type 0 where
  pub key : ApiKey
  pub timestamp : Text
  pub body : Text
  pub digest : Text

-- What the handlers find in the request's extensions, and the body put back.
pub record Accepted (a : Addresses) : Type 0 where
  pub key_record : ApiKey
  pub client_ip : a.IpAddr
  pub body : Text

-- The distance of the clocks, in the arithmetic of `i64`.
abbrev pub skew : (now supplied : ℤ) → ℤ
skew now supplied = abs_i64 (saturate (now -ℤ supplied))

fresh_timestamp : (now : ℤ) (raw : Text) → Option ℤ → Result Text
fresh_timestamp now raw none = err (unauthorized malformed_timestamp)
fresh_timestamp now raw (some supplied) =
    if ltb_ℤ max_timestamp_skew_secs (skew now supplied)
    then err (unauthorized outside_window)
    else ok raw

unfoldable pub validate_timestamp : (now : ℤ) → Option Text → Result Text
unfolding fresh_timestamp
validate_timestamp now none = err (unauthorized missing_timestamp)
validate_timestamp now (some header) = fresh_timestamp now (trim header) (parse_i64 (trim header))

unfoldable pub signed_target : (original_uri : Option Uri) → Uri → Text
signed_target original_uri uri =
    let shown = unwrap_or original_uri uri in unwrap_or shown.path_and_query shown.path

check_shape : Text → Result (Unit {0})
check_shape provided =
    if not (starts_with (trim provided) signature_prefix)
    then err (unauthorized signature_shape)
    else ok tt

abbrev pub row_of_hash : Text → Db → Option ApiKey
row_of_hash hash db = find (λ k. text_eq k.key_hash hash) db.api_keys

find_key : Option DbErr → (hash : Text) → Db → Result ApiKey
find_key (some e) hash db = err (db_error e)
find_key none hash db = ok_or_err (unauthorized invalid_api_key) (row_of_hash hash db)

opened_or_internal : Opened → Result Text
opened_or_internal (opened s) = ok s
opened_or_internal (failed e) = err internal

module _ (o : Outside) where
  signing_secret_of : Option Text → Result Text
  unfolding opened_or_internal
  signing_secret_of none = err (unauthorized no_signing_secret)
  signing_secret_of (some stored) = opened_or_internal (open_secret o stored)

  abbrev pub hash_of : (presented : Text) → Text
  hash_of presented = o.hex_encode (o.sha256 presented)

module _ (o : Outside) (limit : ℕ) {a : Addresses} where
  -- Everything up to the check of the signature.
  unfoldable pub verify : Moment a → Incoming a → Result Verified
  unfolding check_shape find_key signing_secret_of ◌>>=◌ ok_or_err
  verify m r = do
    timestamp ← validate_timestamp m.now r.timestamp
    presented ← ok_or_err (unauthorized missing_api_key) r.api_key
    provided ← ok_or_err (unauthorized missing_signature) r.signature
    _ ← check_shape provided
    key ← find_key m.lookup_failure (hash_of o presented) m.db
    secret ← signing_secret_of o key.signing_secret
    body ← ok_or_err (invalid_input unreadable_body) (r.body limit)
    digest ← ok_or_err (unauthorized invalid_signature) (
        verify_signature o secret r.method (signed_target r.original_uri r.uri) timestamp body
          provided)
    ok (record { key = key; timestamp = timestamp; body = body; digest = digest })

-- `collect::<Result<Vec<_>, _>>` on the parsed pieces.
abbrev also : {N : Type 0} → Option N → Option (List N) → Option (List N)
also none ns = none
also (some n) none = none
also (some n) (some ns) = some (n ∷ ns)

abbrev pub parse_all : {N : Type 0} → (Text → Option N) → List Text → Option (List N)
parse_all parse [] = some []
parse_all parse (s ∷ rest) = also (parse s) (parse_all parse rest)

module _ (a : Addresses) (parse_network : Text → Option a.Network) where
  unfoldable pub bound_networks : Option Text → Option (List a.Network)
  bound_networks bound_ips =
      parse_all parse_network
        (keep (λ s. not (is_empty s)) (map trim (split b',' (unwrap_or bound_ips []))))

  unfoldable pub allowed_from : a.IpAddr → Option (List a.Network) → Result (Unit {0})
  allowed_from ip none = err internal
  allowed_from ip (some networks) =
      if is_empty networks || any (a.is_inside ip) networks
      then ok tt
      else err (forbidden client_ip_not_allowed)

  -- The last step: the source network decides, then the pin.
  admit : Moment a → Verified → a.IpAddr → Shared → Result (Unit {0}) → Result (Accepted a) × Shared
  admit m v ip s (err e) = (err e, s)
  admit m v ip s (ok _) =
      let (key, pin) = authenticate m.engine v.key s.pin in
      (ok (record { key_record = key; client_ip = ip; body = v.body }), record s { pin = pin })

  -- The answer of the guard, and what follows it.
  single_use :
      Moment a
      → Verified
      → a.IpAddr
      → (pin : Cell) → Bool × ReplayGuard
      → Result (Accepted a) × Shared
  unfolding admit bound_networks allowed_from
  single_use m v ip pin (false, g) =
      (err (unauthorized signature_used), record { replay = g; pin = pin })
  single_use m v ip pin (true, g) =
      admit m v ip (record { replay = g; pin = pin })
        (allowed_from ip (bound_networks v.key.bound_ips))

  after_verify : Moment a → a.IpAddr → Shared → Result Verified → Result (Accepted a) × Shared
  unfolding single_use
  after_verify m ip s (err e) = (err e, s)
  after_verify m ip s (ok v) =
      single_use m v ip s.pin
        (check_and_record m.instant (record { key_id = v.key.id; digest = v.digest }) s.replay)

module _ (o : Outside) (limit : ℕ) (a : Addresses) (parse_network : Text → Option a.Network) where
  unfoldable pub auth_middleware : Moment a → Incoming a → Shared → Result (Accepted a) × Shared
  unfolding after_verify verify
  auth_middleware m r s =
      after_verify a parse_network m (resolve_client_ip a r.peer r.forwarding m.trusted) s
        (verify o limit m r)
