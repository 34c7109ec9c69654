-- ===== src/Middleware/Sound.antt =====
-- src/middleware.rs: `auth_middleware` on a request that it lets through.
use simply_firewall.Prelude.{
  ℕ, ◌≡◌, ◌⊎◌, inl, inr, refl, subst, Bool, true, false, Option, none, some, List, Text, trim, ◌||◌,
  any, is_empty, strip_prefix, if◌then◌else◌, arith, Bool-cases, ◌==◌, not,
}
use simply_firewall.Entities.{Uuid, ApiKey}
use simply_firewall.Error.{Result, ok, err}
use simply_firewall.Outside.{Outside}
use simply_firewall.Crypto.{
  Opened, opened, failed, open_secret, signature_prefix, canonical_v1_payload,
}
use simply_firewall.Crypto.Tags.{verify_signature-some}
use simply_firewall.Replay.{ReplayGuard}
use simply_firewall.ClientIp.{Addresses, resolve_client_ip}
use simply_firewall.MasterPin.{Engine, Cell, authenticate, demote_unless, resolve}
use simply_firewall.Middleware.{
  Moment, Incoming, Shared, Verified, Accepted, validate_timestamp, signed_target, row_of_hash,
  hash_of, find_key, signing_secret_of, opened_or_internal, verify, bound_networks, allowed_from,
  admit, single_use, after_verify, auth_middleware, check_shape,
}
use simply_firewall.Middleware.Results.{ok-injective, ok_of_bind, some_of_ok}

-- The caller holds the signing secret of the row, and signed this request with it.
pub record IsSigned (o : Outside) (limit : ℕ) {a : Addresses} (m : Moment a) (r : Incoming a)
    (v : Verified) : Type 0 where
  pub presented : Text
  pub provided : Text
  pub stored : Text
  pub secret : Text
  pub tag_text : Text
  pub fresh : validate_timestamp m.now r.timestamp ≡ ok v.timestamp
  pub presents : r.api_key ≡ some presented
  pub provides : r.signature ≡ some provided
  pub found : row_of_hash (hash_of o presented) m.db ≡ some v.key
  pub stores : v.key.signing_secret ≡ some stored
  pub opens : open_secret o stored ≡ opened secret
  pub reads : r.body limit ≡ some v.body
  pub tagged : strip_prefix signature_prefix (trim provided) ≡ some tag_text
  pub decodes : o.hex_decode (trim tag_text) ≡ some v.digest
  pub digest_is :
      v.digest
      ≡ o.hmac secret
          (canonical_v1_payload r.method (signed_target r.original_uri r.uri) v.timestamp v.body)

module _ (o : Outside) where
  found_row :
      (failure : Option _) (hash : Text) (db : _) {key : ApiKey}
      → find_key failure hash db ≡ ok key
      → row_of_hash hash db ≡ some key
  unfolding find_key
  found_row (some e) hash db h = absurd cc
  found_row none hash db h = some_of_ok _ (row_of_hash hash db) h

  opened_of_ok : (x : Opened) {secret : Text} → opened_or_internal x ≡ ok secret → x ≡ opened secret
  unfolding opened_or_internal
  opened_of_ok (opened s) h = cc
  opened_of_ok (failed e) h = absurd cc

  secret_of_ok :
      (x : Option Text) {secret : Text}
      → signing_secret_of o x ≡ ok secret
      → (stored : Text) × (x ≡ some stored) × (open_secret o stored ≡ opened secret)
  unfolding signing_secret_of
  secret_of_ok none h = absurd cc
  secret_of_ok (some stored) h = (stored, refl, opened_of_ok (open_secret o stored) h)

module _ (o : Outside) (limit : ℕ) {a : Addresses} (m : Moment a) (r : Incoming a) where
  pub verify-IsSigned : (v : Verified) → verify o limit m r ≡ ok v → IsSigned o limit m r v
  unfolding verify
  verify-IsSigned v h =
      let (timestamp, fresh, h1) = ok_of_bind _ _ h in
      let (presented, presents, h2) = ok_of_bind _ _ h1 in
      let (provided, provides, h3) = ok_of_bind _ _ h2 in
      let (shaped, shape, h4) = ok_of_bind (check_shape provided) _ h3 in
      let (key, found, h5) = ok_of_bind _ _ h4 in
      let (secret, secret_ok, h6) = ok_of_bind _ _ h5 in
      let (body, reads, h7) = ok_of_bind _ _ h6 in
      let (digest, checked, h8) = ok_of_bind _ _ h7 in
      let (stored, stores, opens) = secret_of_ok o key.signing_secret secret_ok in
      let (rest, tagged, decodes, digest_is) =
        verify_signature-some o secret _ _ _ _ _ (some_of_ok _ _ checked) in
      subst (IsSigned o limit m r) (ok-injective h8) (record {
        presented = presented;
        provided = provided;
        stored = stored;
        secret = secret;
        tag_text = rest;
        fresh = fresh;
        presents = some_of_ok _ _ presents;
        provides = some_of_ok _ _ provides;
        found = found_row o m.lookup_failure _ m.db found;
        stores = stores;
        opens = opens;
        reads = some_of_ok _ _ reads;
        tagged = tagged;
        decodes = decodes;
        digest_is = digest_is;
      })

-- Nothing of a key that authentication hands on differs from its row, but that it may have lost
-- `is_master`.
abbrev pub IsDemotedAtMost : ApiKey → ApiKey → Type 0
IsDemotedAtMost row key = (key ≡ row) ⊎ (key ≡ record row { is_master = false })

if-IsDemotedAtMost :
    {S : Type 0} (row : ApiKey) (b : Bool) (x y : ApiKey × S)
    → IsDemotedAtMost row x.0
    → IsDemotedAtMost row y.0
    → IsDemotedAtMost row (if b then x else y).0
if-IsDemotedAtMost row true x y h k = h
if-IsDemotedAtMost row false x y h k = k

demote-IsDemotedAtMost :
    (row : ApiKey) (pin : Option Uuid) → IsDemotedAtMost row (demote_unless pin row)
unfolding demote_unless
demote-IsDemotedAtMost row none = inr refl
demote-IsDemotedAtMost row (some id) = elim (Bool-cases (id == row.id)) [
  | inl e ↦ rw e (inl refl)
  | inr e ↦ rw e (inr refl)
]

authenticate-IsDemotedAtMost :
    (engine : Engine) (row : ApiKey) (cell : Cell)
    → IsDemotedAtMost row (authenticate engine row cell).0
unfolding authenticate
authenticate-IsDemotedAtMost engine row cell =
    if-IsDemotedAtMost row (not row.is_master) _ _ (inl refl)
      (demote-IsDemotedAtMost row (resolve engine cell).0)

module _ (o : Outside) (limit : ℕ) (a : Addresses) (parse_network : Text → Option a.Network) where
  pub record IsAuthentic (m : Moment a) (r : Incoming a) (accepted : Accepted a) : Type 0 where
    pub proof : Verified
    pub signed : IsSigned o limit m r proof
    pub networks : List a.Network
    pub same_body : accepted.body ≡ proof.body
    pub same_ip : accepted.client_ip ≡ resolve_client_ip a r.peer r.forwarding m.trusted
    pub bound : bound_networks a parse_network proof.key.bound_ips ≡ some networks
    pub inside : (is_empty networks || any (a.is_inside accepted.client_ip) networks) ≡ true
    pub principal : IsDemotedAtMost proof.key accepted.key_record

  allowed_inside :
      (ip : a.IpAddr) (x : Option (List a.Network)) (u : Unit {0})
      → allowed_from a parse_network ip x ≡ ok u
      → (networks : List a.Network) × (x ≡ some networks)
        × ((is_empty networks || any (a.is_inside ip) networks) ≡ true)
  unfolding allowed_from
  allowed_inside ip none u h = absurd cc
  allowed_inside ip (some networks) u h = (networks, refl, ground arith)

  module _ (m : Moment a) (r : Incoming a) where
    abbrev client : a.IpAddr
    client = resolve_client_ip a r.peer r.forwarding m.trusted

    admit-IsAuthentic :
        (v : Verified) (s : Shared) (x : Result (Unit {0})) (accepted : Accepted a)
        → IsSigned o limit m r v
        → allowed_from a parse_network client (bound_networks a parse_network v.key.bound_ips) ≡ x
        → (admit a parse_network m v client s x).0 ≡ ok accepted
        → IsAuthentic m r accepted
    unfolding admit
    admit-IsAuthentic v s (err e) accepted signed q h = absurd cc
    admit-IsAuthentic v s (ok u) accepted signed q h =
        let (networks, bound, inside) = allowed_inside client _ u q in
        subst (IsAuthentic m r) (ok-injective h) (record {
          proof = v;
          signed = signed;
          networks = networks;
          same_body = refl;
          same_ip = refl;
          bound = bound;
          inside = inside;
          principal = authenticate-IsDemotedAtMost m.engine v.key s.pin;
        })

    single_use-IsAuthentic :
        (v : Verified) (pin : Cell) (x : Bool × ReplayGuard) (accepted : Accepted a)
        → IsSigned o limit m r v
        → (single_use a parse_network m v client pin x).0 ≡ ok accepted
        → IsAuthentic m r accepted
    unfolding single_use
    single_use-IsAuthentic v pin (false, g) accepted signed h = absurd cc
    single_use-IsAuthentic v pin (true, g) accepted signed h =
        admit-IsAuthentic v _ _ accepted signed refl h

    after_verify-IsAuthentic :
        (s : Shared) (x : Result Verified) (accepted : Accepted a)
        → verify o limit m r ≡ x
        → (after_verify a parse_network m client s x).0 ≡ ok accepted
        → IsAuthentic m r accepted
    unfolding after_verify
    after_verify-IsAuthentic s (err e) accepted q h = absurd cc
    after_verify-IsAuthentic s (ok v) accepted q h =
        single_use-IsAuthentic v s.pin _ accepted (verify-IsSigned o limit m r v q) h

  -- A request that the middleware lets through carries a key whose SHA-256 is that of a row, a
  -- fresh timestamp, and the HMAC under that row's opened secret of the method, target, timestamp
  -- and body; it comes from an address of the networks that the row is bound to, if it is bound to
  -- any; and the handlers see that body, that address and that row, at most stripped of `is_master`.
  pub auth_middleware-IsAuthentic :
      (m : Moment a) (r : Incoming a) (s : Shared) (accepted : Accepted a)
      → (auth_middleware o limit a parse_network m r s).0 ≡ ok accepted
      → IsAuthentic m r accepted
  unfolding auth_middleware
  auth_middleware-IsAuthentic m r s accepted h = after_verify-IsAuthentic m r s _ accepted refl h
