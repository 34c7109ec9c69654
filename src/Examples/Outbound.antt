-- ===== src/Examples/Outbound.antt =====
-- Webhooks at concrete rows and replies.
use simply_firewall.Prelude.{
  ℕ, ◌≡◌, ◌≤◌, ◌+◌, ◌-◌, ap, ◌*◌, refl, true, false, none, some, inr, [], ◌∷◌, ◌++◌, Text, codes,
  arith, strip_prefix, text_eq, trim, leb, if◌then◌else◌, all,
}
use simply_firewall.Entities.{WebhookConfig}
use simply_firewall.Config.{u64_max, min_of}
use simply_firewall.Crypto.Tags.{is_plain}
use simply_firewall.Dispatch.Templates.{substitute_placeholders, resolve_hmac_template}
use simply_firewall.Dispatch.Templates.SinglePass.{IsCut, table, substitute_placeholders-IsCut}
use simply_firewall.Dispatch.Templates.Hmac.{resolve_hmac_template-IsCut}
use simply_firewall.Dispatch.Modes.{from_stored}
use simply_firewall.Dispatch.Prepare.{
  Http, WebhookEvent, PreparedDispatch, prepare_dispatch, insert_header,
}
use simply_firewall.Dispatch.Prepare.Keyless.{prepare_dispatch-keyless}
use simply_firewall.Dispatch.Prepare.Signed.{IsVouched, prepare_dispatch-IsVouched}
use simply_firewall.Dispatch.Delivery.{
  Reply, responded, backoff_ms, dispatch_with_retries_config, attempt_delivery,
}
use simply_firewall.Dispatch.Delivery.Backoff.{backoff_ms-doubles}
use simply_firewall.Dispatch.Delivery.Attempts.{Stops, trace_to, dispatch_with_retries_config-Stops}
use simply_firewall.Dispatch.Screen.{IpAddr, v4, v6, Net, is_url_safe, is_blocked_address}
use simply_firewall.Dispatch.Screen.Blocks.{in_internal_block, is_blocked_address-internal}
use simply_firewall.Dispatch.Screen.Sound.{IsScreened, is_url_safe-IsScreened}
use simply_firewall.Outside.{Outside}
use simply_firewall.Examples.Fixtures.{calm, hook}

substitute_placeholders-IsCut_example :
    IsCut
      (codes "a$ip$x")
      (λ v. substitute_placeholders (codes "a$ip$x") (table (codes "$ip" ∷ []) v))
substitute_placeholders-IsCut_example =
    substitute_placeholders-IsCut (codes "$ip" ∷ []) (refl, tt) (codes "a$ip$x")

resolve_hmac_template-IsCut_example : IsCut (codes "{body}\\n") (λ v.
    resolve_hmac_template
      (v (codes "{method}"))
      (v (codes "{path}"))
      (v (codes "{timestamp}"))
      (v (codes "{body}"))
      (codes "{body}\\n"))
resolve_hmac_template-IsCut_example = resolve_hmac_template-IsCut (codes "{body}\\n")

abbrev web : Http
web = record {
  header_name = λ t. some t;
  is_header_value = λ t. true;
  parse_headers = λ t. none;
  url_path = λ t. some (codes "/p");
  show_uuid = λ id. id ∷ [];
}

abbrev event : WebhookEvent
event = record {
  action = codes "IP_ADD";
  address = codes "1.2.3.4";
  is_whitelist = false;
  group_id = some 10;
  group_name = none;
  cause = none;
}

abbrev signing : WebhookConfig
signing = record hook {
  auth_mode = codes "canonical_v1";
  secret_token = codes "s";
  payload_template = codes "$ip";
  api_key = some (codes "key");
}

abbrev hmac_hook : WebhookConfig
hmac_hook = record signing { auth_mode = codes "BODY_ONLY" }

-- Digits out of the reach of spaces.
abbrev shifted : Text → Text
shifted [] = []
shifted (c ∷ s) = (c + 20000) ∷ shifted s

abbrev shifted_back : Text → Text
shifted_back [] = []
shifted_back (c ∷ s) = (c - 20000) ∷ shifted_back s

abbrev hexed : Outside
hexed = record calm { hex_encode = shifted; hex_decode = λ t. some (shifted_back t) }

shifted_back-shifted : (t : Text) → shifted_back (shifted t) ≡ t
shifted_back-shifted [] = refl
shifted_back-shifted (c ∷ s) = ground (arith, shifted_back-shifted s)

shifted_plain : (t : Text) → all is_plain (shifted t) ≡ true
shifted_plain [] = refl
shifted_plain (c ∷ s) = ground (arith, shifted_plain s)

prepare_dispatch-keyless_example :
    prepare_dispatch calm web (codes "900") (record hmac_hook { api_key = none }) event
    ≡ prepare_dispatch calm web (codes "900") hmac_hook event
unfolding from_stored trim text_eq
prepare_dispatch-keyless_example =
    prepare_dispatch-keyless calm web (codes "900") hmac_hook event none refl

abbrev sent : PreparedDispatch
sent = record {
  target_url = codes "http://x";
  headers =
      (codes "X-Signature-256", codes "sha256=" ++ shifted (codes "POST\n/p\n900\n1.2.3.4"))
      ∷ (codes "x-timestamp", codes "900")
      ∷ (codes "x-api-key", codes "key")
      ∷ (codes "content-type", codes "application/json")
      ∷ [];
  payload = codes "1.2.3.4";
}

prepares : prepare_dispatch hexed web (codes "900") signing event ≡ inr sent
unfolding prepare_dispatch from_stored text_eq trim substitute_placeholders insert_header
    resolve_hmac_template strip_prefix
prepares = refl

prepare_dispatch-IsVouched_example : IsVouched hexed web (codes "900") signing sent
unfolding from_stored trim text_eq
prepare_dispatch-IsVouched_example =
    prepare_dispatch-IsVouched hexed web (λ t. ap some (shifted_back-shifted t)) shifted_plain
      (codes "900") signing event sent refl refl refl prepares

-- Two errors of the server, then a success.
abbrev replies : ℕ → Reply
replies n = if leb n 2 then responded 503 none else responded 200 (some (codes "ok"))

dispatch_with_retries_config-Stops_example :
    let outcomes = λ (n : ℕ). attempt_delivery (λ b. []) (λ s. s ∷ []) (replies n) in
    (n : ℕ) × (n ≤ 3)
    × Stops (λ b. []) (λ s. s ∷ []) 3 replies n 1
    × (dispatch_with_retries_config (λ b. []) (λ s. s ∷ []) replies (λ n. n) 3 1000
        ≡ trace_to outcomes (λ n. n) 3 1000 n 1)
dispatch_with_retries_config-Stops_example =
    dispatch_with_retries_config-Stops (λ b. []) (λ s. s ∷ []) replies (λ n. n) 3 1000 (omega arith)

backoff_ms-doubles_example :
    (backoff_ms 1000 1 ≡ 1000) × (backoff_ms 1000 4 ≡ min_of (2 * backoff_ms 1000 3) u64_max)
backoff_ms-doubles_example = backoff_ms-doubles 1000 3 (omega arith) (omega arith) (omega arith)

abbrev mapped_loopback : IpAddr
mapped_loopback =
    v6 (record { s0 = 0; s1 = 0; s2 = 0; s3 = 0; s4 = 0; s5 = 0xffff; s6 = 0x7f00; s7 = 1 })

is_blocked_address-internal_example :
    is_blocked_address mapped_loopback ≡ in_internal_block mapped_loopback
is_blocked_address-internal_example = is_blocked_address-internal mapped_loopback (omega arith)

abbrev net : Net
net = record {
  parse_url = λ t. some (record {
    scheme = codes "https";
    host = some (codes "x");
    port_or_known_default = some 443;
  });
  lookup_host = λ host port. some (v4 (record { a = 8; b = 8; c = 8; d = 8 }) ∷ []);
}

is_url_safe-IsScreened_example : IsScreened net (codes "https://x")
unfolding is_url_safe is_blocked_address text_eq
is_url_safe-IsScreened_example = is_url_safe-IsScreened net (codes "https://x") refl
