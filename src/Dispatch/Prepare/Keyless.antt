-- ===== src/Dispatch/Prepare/Keyless.antt =====
-- src/dispatch.rs: where the API key of a webhook goes.
use simply_firewall.Prelude.{◌≡◌, refl, false, Option, Text}
use simply_firewall.Entities.{WebhookConfig}
use simply_firewall.Outside.{Outside}
use simply_firewall.Dispatch.Modes.{from_stored, sends_api_key}
use simply_firewall.Dispatch.Prepare.{Http, WebhookEvent, prepare_dispatch, with_api_key}

-- A webhook in a mode that sends no API key, signature-only mode among them, prepares the same
-- request whatever key its row has, and whatever its custom headers are: the key is in no part of it.
pub prepare_dispatch-keyless :
    (o : Outside) (h : Http) (timestamp : Text) (config : WebhookConfig) (event : WebhookEvent)
    → (api_key : Option Text) → sends_api_key (from_stored config.auth_mode) ≡ false
    → prepare_dispatch o h timestamp (record config { api_key = api_key }) event
      ≡ prepare_dispatch o h timestamp config event
unfolding prepare_dispatch with_api_key
prepare_dispatch-keyless o h timestamp config event api_key e = rw e refl
