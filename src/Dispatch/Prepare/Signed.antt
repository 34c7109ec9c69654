-- ===== src/Dispatch/Prepare/Signed.antt =====
-- src/dispatch.rs against src/crypto.rs: a webhook sent by one instance to another.
use simply_firewall.Prelude.{
  ◌≡◌, ◌∙◌, refl, sym, ap, subst, true, Option, none, some, [], ◌∷◌, Text, codes, text_eq_iff,
  unwrap_or, ◌⊎◌, inl, inr, arith, all, Bool-cases,
}
use simply_firewall.Entities.{WebhookConfig}
use simply_firewall.Outside.{Outside}
use simply_firewall.Crypto.{verify_signature, compute_signature, canonical_v1_payload}
use simply_firewall.Crypto.Tags.{is_plain, verify_signature-compute_signature}
use simply_firewall.Dispatch.Templates.Hmac.{resolve_hmac_template-default}
use simply_firewall.Dispatch.Modes.{AuthMode, canonical_v1, from_stored}
use simply_firewall.Dispatch.Prepare.{
  Http, WebhookEvent, HeaderMap, PreparedDispatch, PrepareError, ◌>>=◌, header, insert_header,
  prepare_dispatch, with_api_key, custom_headers, sign, canonical, put_signature, put_under,
  nonblank, resolve_event_variables, default_signature_header, signature_of,
  default_signature_prefix,
}

inr_of_bind :
    {A B : Type 0} (r : PrepareError ⊎ A) (f : A → PrepareError ⊎ B) {b : B}
    → (r >>= f) ≡ inr b
    → (x : A) × (r ≡ inr x) × (f x ≡ inr b)
inr_of_bind (inl e) f h = absurd cc
inr_of_bind (inr a) f h = (a, refl, h)

inr-injective : {A : Type 0} {x y : A} → ◌≡◌ {A = PrepareError ⊎ A} (inr x) (inr y) → x ≡ y
inr-injective e = cc

header-insert_header : (n v : Text) (hs : HeaderMap) → header n (insert_header n v hs) ≡ some v
unfolding header insert_header
header-insert_header n v hs = rw ((text_eq_iff n n).1 refl) refl

-- The request carries the signature that the inbound check computes.
pub record IsVouched (o : Outside) (h : Http) (timestamp : Text) (config : WebhookConfig)
    (p : PreparedDispatch) : Type 0 where
  pub path : Text
  pub name : Text
  pub signature : Text
  pub is_path : h.url_path p.target_url ≡ some path
  pub is_name :
      h.header_name (nonblank h config.signature_header default_signature_header) ≡ some name
  pub is_sent : header name p.headers ≡ some signature
  pub is_checked :
      verify_signature o config.secret_token (codes "POST") path timestamp p.payload signature
      ≡ some (
          o.hmac config.secret_token (canonical_v1_payload (codes "POST") path timestamp p.payload))

module _ (o : Outside) (h : Http) where
  canonical_signed :
      (secret timestamp payload : Text) (headers : HeaderMap) (x : Option Text)
      → {s : Option Text × HeaderMap}
      → canonical o h secret none default_signature_prefix timestamp payload headers x ≡ inr s
      → (path : Text) × (x ≡ some path)
        × (s.0 ≡ some (compute_signature o secret (codes "POST") path timestamp payload))
  unfolding canonical compute_signature
  canonical_signed secret timestamp payload headers none e = absurd cc
  canonical_signed secret timestamp payload headers (some path) {s} e =
      let default = resolve_hmac_template-default (codes "POST") path timestamp payload in
      let message = ap (λ m. some (signature_of o h default_signature_prefix secret m)) default in
      (path, refl, sym (ap (λ x. x.0) (inr-injective e)) ∙ message)

  under_found :
      (value : Text) (x : Option Text) (before after : HeaderMap)
      → put_under h value before x ≡ inr after
      → (n : Text) × (x ≡ some n) × (header n after ≡ some value)
  unfolding put_under
  under_found value none before after q = absurd cc
  under_found value (some n) before after q = elim (Bool-cases (h.is_header_value value)) [
    | inl e ↦
        let same : insert_header n value before ≡ after = ground (arith, e, q) in
        (n, refl, subst (λ hs. header n hs ≡ some value) same (header-insert_header n value before))
    | inr e ↦ absurd ground (arith, e, q)
  ]

  put_found :
      (name value : Text) (x : Option Text) (before after : HeaderMap)
      → x ≡ some value
      → put_signature h name x before ≡ inr after
      → (n : Text) × (h.header_name name ≡ some n) × (header n after ≡ some value)
  unfolding put_signature
  put_found name value none before after e q = absurd cc
  put_found name value (some v) before after e q =
      let (n, is_name, found) = under_found v (h.header_name name) before after q in
      (n, is_name, found ∙ e)

  sign-canonical :
      (secret timestamp target_url payload : Text) (headers : HeaderMap)
      → (mode : AuthMode) (template prefix : Option Text) → mode ≡ canonical_v1
      → template ≡ none
      → prefix ≡ none
      → sign o h mode secret template
          (unwrap_or prefix default_signature_prefix)
          timestamp
          target_url
          payload
          headers
        ≡ canonical o h secret none default_signature_prefix timestamp payload headers
            (h.url_path target_url)
  unfolding sign
  sign-canonical secret timestamp target_url payload headers mode template prefix m t p =
      rw (m, t, p) refl

  module _ (hex : (x : Text) → o.hex_decode (o.hex_encode x) ≡ some x)
      (plain : (x : Text) → all is_plain (o.hex_encode x) ≡ true) where
    -- A webhook in CANONICAL_V1 mode that leaves the template and the prefix at their defaults
    -- sends, under the configured header, a signature that the check of inbound requests accepts
    -- for a POST of its payload to the path of the resolved URL, at the dispatch's timestamp. The
    -- digits of a hex text are no spaces, and decode to what was encoded.
    pub prepare_dispatch-IsVouched :
        (timestamp : Text) (config : WebhookConfig) (event : WebhookEvent) (p : PreparedDispatch)
        → from_stored config.auth_mode ≡ canonical_v1
        → config.hmac_template ≡ none
        → config.signature_prefix ≡ none
        → prepare_dispatch o h timestamp config event ≡ inr p
        → IsVouched o h timestamp config p
    unfolding prepare_dispatch
    prepare_dispatch-IsVouched timestamp config event p mode template prefix e =
        let target_url = resolve_event_variables h config.target_url event timestamp in
        let payload = resolve_event_variables h config.payload_template event timestamp in
        let mode_read = from_stored config.auth_mode in
        let (keyed, with_key, e1) =
          inr_of_bind
            (with_api_key h mode_read config.api_key (
              custom_headers h config.headers_json
                ((codes "content-type", codes "application/json") ∷ [])))
            _ e in
        let (signed, sign_ok, e2) =
          inr_of_bind
            (sign o h mode_read config.secret_token config.hmac_template
              (unwrap_or config.signature_prefix default_signature_prefix) timestamp target_url
              payload keyed)
            _ e1 in
        let (headers, put_ok, e3) =
          inr_of_bind
            (put_signature h (nonblank h config.signature_header default_signature_header) signed.0
              signed.1)
            _ e2 in
        let as_canonical =
          sign-canonical config.secret_token timestamp target_url payload keyed
            (from_stored config.auth_mode) config.hmac_template config.signature_prefix mode
            template prefix in
        let (path, is_path, is_signed) =
          canonical_signed config.secret_token timestamp payload keyed (h.url_path target_url)
            (sym as_canonical ∙ sign_ok) in
        let signature =
          compute_signature o config.secret_token (codes "POST") path timestamp payload in
        let (name, is_name, is_sent) =
          put_found _ signature signed.0 signed.1 headers is_signed put_ok in
        subst (IsVouched o h timestamp config) (inr-injective e3) (record {
          path = path;
          name = name;
          signature = signature;
          is_path = is_path;
          is_name = is_name;
          is_sent = is_sent;
          is_checked =
              verify_signature-compute_signature o hex plain config.secret_token (codes "POST") path
                timestamp payload;
        })
