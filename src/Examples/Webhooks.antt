-- ===== src/Examples/Webhooks.antt =====
-- Requests on the webhook of the small vault.
use simply_firewall.Prelude.{◌≡◌, ◌⊎◌, refl, true, false, codes, strip_prefix}
use simply_firewall.Support.{Caller}
use simply_firewall.Store.Spec.{Spec}
use simply_firewall.Store.Chain.{Reads}
use simply_firewall.Guards.Effects.{DbFailure}
use simply_firewall.Webhooks.{find_own_webhook, contains_text}
use simply_firewall.Webhooks.Visibility.{HasScope, Reachable, Unreachable, find_own_webhook-Reads}
use simply_firewall.Webhooks.Edit.{update_webhook}
use simply_firewall.Webhooks.Edit.Vouching.{IsUpdated}
use simply_firewall.Webhooks.Edit.Updated.{update_webhook-IsUpdated}
use simply_firewall.Webhooks.Manage.{clone_webhook}
use simply_firewall.Webhooks.Cloned.{IsCloned, clone_webhook-IsCloned}
use simply_firewall.Examples.Fixtures.{repoint, any_url, calm, vault, child, as_master}

-- The owner of the webhook, with the scope for webhooks.
abbrev as_owner : Caller
as_owner = record {
  key = record child { can_manage_webhooks = true };
  client_ip = codes "10.0.0.3";
}

update_webhook-IsUpdated_example :
    Spec
      (update_webhook calm any_url as_owner 20 repoint)
      vault
      (IsUpdated calm as_owner.key 20 repoint vault)
      (λ e d. DbFailure e ⊎ (d ≡ vault))
update_webhook-IsUpdated_example = update_webhook-IsUpdated calm any_url as_owner vault 20 repoint

clone_webhook-IsCloned_example :
    Spec
      (clone_webhook calm as_master 20 (codes "copy"))
      vault
      (IsCloned calm as_master.key 20 (codes "copy") vault)
      (λ e d. DbFailure e ⊎ (d ≡ vault))
clone_webhook-IsCloned_example = clone_webhook-IsCloned calm as_master vault 20 (codes "copy")

find_own_webhook-Reads_example :
    Reads
      (find_own_webhook calm as_owner.key 20)
      vault
      (λ h. HasScope as_owner.key × Reachable as_owner.key vault 20 h)
      (Unreachable as_owner.key vault 20)
find_own_webhook-Reads_example = find_own_webhook-Reads calm as_owner.key vault 20

covers_the_body :
    (contains_text (codes "a{body}") (codes "{body}") ≡ true)
    × (contains_text (codes "{bod}") (codes "{body}") ≡ false)
unfolding contains_text strip_prefix
covers_the_body = (refl, refl)
