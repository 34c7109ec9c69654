-- ===== src/Dispatch/Prepare.antt =====
-- src/dispatch.rs: `prepare_dispatch`, which turns a webhook and an event into a request. The types
-- of the http crate, serde_json, the URL parser and the printer of a UUID are parameters; a header's
-- name is in lower case, as the http crate has it. HMAC takes secrets of every length.
pub mod Keyless
pub mod Signed
use simply_firewall.Prelude.{
  ℕ, Bool, true, false, not, ◌&&◌, Option, none, some, List, [], ◌∷◌, ◌++◌, Text, codes, keep, trim,
  text_eq, is_empty, if◌then◌else◌, unwrap_or, ◌⊎◌, inl, inr,
}
use simply_firewall.Entities.{Uuid, WebhookConfig}
use simply_firewall.Outside.{Outside}
use simply_firewall.Dispatch.Templates.{
  substitute_placeholders, resolve_hmac_template, default_hmac_template,
}
use simply_firewall.Dispatch.Modes.{
  AuthMode, canonical_v1, hmac_only, api_key_only, no_auth, from_stored, sends_api_key,
}

-- src/state.rs
pub record WebhookEvent : Type 0 where
  pub action : Text
  pub address : Text
  pub is_whitelist : Bool
  pub group_id : Option Uuid
  pub group_name : Option Text
  pub cause : Option Text

-- The code outside the repository.
pub record Http : Type 0 where
  -- `HeaderName::from_str` and `from_bytes`, `HeaderValue::from_str`
  pub header_name : Text → Option Text
  pub is_header_value : Text → Bool
  -- `serde_json::from_str` on a map of texts, as it is iterated
  pub parse_headers : Text → Option (List (Text × Text))
  -- `reqwest::Url::parse` and `path`
  pub url_path : Text → Option Text
  pub show_uuid : Uuid → Text

abbrev pub HeaderMap : Type 0
HeaderMap = List (Text × Text)

-- `HeaderMap::insert`
unfoldable pub insert_header : (name value : Text) → HeaderMap → HeaderMap
insert_header name value headers = (name, value) ∷ keep (λ h. not (text_eq h.0 name)) headers

-- `HeaderMap::get`
unfoldable pub header : Text → HeaderMap → Option Text
header name [] = none
header name ((n, v) ∷ headers) =
    let rest = header name headers in if text_eq n name then some v else rest

pub record PreparedDispatch : Type 0 where
  pub target_url : Text
  pub headers : HeaderMap
  pub payload : Text

pub data PrepareError : Type 0 where
  bad_api_key unparseable_url bad_signature_header bad_signature : PrepareError

abbrev pub default_signature_header : Text
default_signature_header = codes "X-Signature-256"

abbrev pub default_signature_prefix : Text
default_signature_prefix = codes "sha256="

infixl 5 ◌>>=◌
abbrev pub ◌>>=◌ : {A B : Type 0} → PrepareError ⊎ A → (A → PrepareError ⊎ B) → PrepareError ⊎ B
inl e >>= f = inl e
inr a >>= f = f a

module _ (h : Http) where
  abbrev pub event_table : WebhookEvent → (timestamp : Text) → List (Text × Text)
  event_table event timestamp =
      (codes "$target_address", event.address)
      ∷ (codes "$ip", event.address)
      ∷ (codes "$action", event.action)
      ∷ (codes "$event", event.action)
      ∷ (codes "$cause", unwrap_or event.cause (codes "Unknown"))
      ∷ (codes "$group_name", unwrap_or event.group_name [])
      ∷ (codes "$group_id", uuid_text event.group_id)
      ∷ (codes "$timestamp", timestamp)
      ∷ []
    where
      uuid_text : Option Uuid → Text
      uuid_text none = []
      uuid_text (some id) = h.show_uuid id

  unfoldable pub resolve_event_variables : Text → WebhookEvent → (timestamp : Text) → Text
  resolve_event_variables template event timestamp =
      substitute_placeholders template (event_table event timestamp)

  insert_if_usable : (name : Option Text) → (value : Text) → HeaderMap → HeaderMap
  insert_if_usable none value headers = headers
  insert_if_usable (some name) value headers =
      if h.is_header_value value then insert_header name value headers else headers

  insert_custom : List (Text × Text) → HeaderMap → HeaderMap
  unfolding insert_if_usable
  insert_custom [] headers = headers
  insert_custom ((k, v) ∷ rest) headers =
      insert_custom rest (insert_if_usable (h.header_name k) v headers)

  parsed_headers : Option (List (Text × Text)) → HeaderMap → HeaderMap
  unfolding insert_custom
  parsed_headers none headers = headers
  parsed_headers (some map) headers = insert_custom map headers

  custom_headers : (headers_json : Option Text) → HeaderMap → HeaderMap
  unfolding parsed_headers
  custom_headers none headers = headers
  custom_headers (some json) headers = parsed_headers (h.parse_headers json) headers

  abbrev pub nonblank : Option Text → Text → Text
  nonblank none default = default
  nonblank (some name) default = if is_empty (trim name) then default else trim name

  api_key_header : (api_key : Option Text) → HeaderMap → PrepareError ⊎ HeaderMap
  api_key_header none headers = inr headers
  api_key_header (some key) headers =
      if is_empty key
      then inr headers
      else if h.is_header_value key
      then inr (insert_header (codes "x-api-key") key headers)
      else inl bad_api_key

  unfoldable pub with_api_key :
      AuthMode → (api_key : Option Text) → HeaderMap → PrepareError ⊎ HeaderMap
  unfolding api_key_header
  with_api_key mode api_key headers =
      if sends_api_key mode then api_key_header api_key headers else inr headers

  put_under : (value : Text) → HeaderMap → (name : Option Text) → PrepareError ⊎ HeaderMap
  put_under value headers none = inl bad_signature_header
  put_under value headers (some name) =
      if h.is_header_value value then inr (insert_header name value headers) else inl bad_signature

  put_signature : (name : Text) → Option Text → HeaderMap → PrepareError ⊎ HeaderMap
  unfolding put_under
  put_signature name none headers = inr headers
  put_signature name (some value) headers = put_under value headers (h.header_name name)

  abbrev pub timestamp_header : Text → HeaderMap → HeaderMap
  timestamp_header timestamp headers =
      if h.is_header_value timestamp
      then insert_header (codes "x-timestamp") timestamp headers
      else headers

module _ (o : Outside) (h : Http) where
  abbrev pub signature_of : (prefix secret message : Text) → Text
  signature_of prefix secret message = prefix ++ o.hex_encode (o.hmac secret message)

  canonical :
      (secret : Text)
      → (hmac_template : Option Text) → (prefix timestamp payload : Text) → HeaderMap
      → (path : Option Text) → PrepareError ⊎ (Option Text × HeaderMap)
  canonical secret hmac_template prefix timestamp payload headers none = inl unparseable_url
  canonical secret hmac_template prefix timestamp payload headers (some path) =
      let message =
        resolve_hmac_template (codes "POST") path timestamp payload
          (unwrap_or hmac_template default_hmac_template) in
      inr (some (signature_of prefix secret message), timestamp_header h timestamp headers)

  -- The signature that the mode calls for.
  sign :
      AuthMode
      → (secret : Text) → (hmac_template : Option Text)
      → (prefix timestamp target_url payload : Text) → HeaderMap
      → PrepareError ⊎ (Option Text × HeaderMap)
  unfolding canonical
  sign canonical_v1 secret hmac_template prefix timestamp target_url payload headers =
      canonical secret hmac_template prefix timestamp payload headers (h.url_path target_url)
  sign hmac_only secret hmac_template prefix timestamp target_url payload headers =
      inr (some (signature_of prefix secret payload), headers)
  sign api_key_only secret hmac_template prefix timestamp target_url payload headers =
      inr (none, headers)
  sign no_auth secret hmac_template prefix timestamp target_url payload headers =
      inr (none, headers)

  unfoldable pub prepare_dispatch :
      (timestamp : Text) → WebhookConfig → WebhookEvent → PrepareError ⊎ PreparedDispatch
  unfolding resolve_event_variables custom_headers with_api_key sign put_signature
  prepare_dispatch timestamp config event =
      let payload = resolve_event_variables h config.payload_template event timestamp in
      let target_url = resolve_event_variables h config.target_url event timestamp in
      let content : HeaderMap = (codes "content-type", codes "application/json") ∷ [] in
      let mode = from_stored config.auth_mode in
      let prefix = unwrap_or config.signature_prefix default_signature_prefix in
      let name = nonblank h config.signature_header default_signature_header in
      with_api_key h mode config.api_key (custom_headers h config.headers_json content) >>= λ keyed.
      sign mode config.secret_token config.hmac_template prefix timestamp target_url payload keyed
      >>= λ signed. put_signature h name signed.0 signed.1 >>= λ headers.
          inr (record { target_url = target_url; headers = headers; payload = payload })
