-- ===== src/Examples/Requests.antt =====
-- Requests to the small vault.
use simply_firewall.Prelude.{
  ◌≡◌, refl, ap, text_eq, ◌⊎◌, inl, inr, true, false, none, some, List, [], ◌∷◌, codes, Member,
  arith,
}
use simply_firewall.Entities.{ApiKey}
use simply_firewall.Error.{not_found}
use simply_firewall.Store.Spec.{Spec}
use simply_firewall.Store.Chain.{Reads}
use simply_firewall.Store.Tables.{key_by_id}
use simply_firewall.Guards.Effects.{DbFailure}
use simply_firewall.Support.{Caller}
use simply_firewall.Authority.{IsValid, Permitted, SameMasters, NoScopeGained}
use simply_firewall.Keys.Subtree.{collect_key_subtree, find_administrable_key}
use simply_firewall.Keys.Subtree.Reach.{here, IsSubtree, collect_key_subtree-Reads}
use simply_firewall.Keys.Subtree.Visibility.{Administrable, Invisible, find_administrable_key-Reads}
use simply_firewall.Keys.Update.{UpdateApiKeyPayload}
use simply_firewall.Keys.Delete.{ResolutionEntry, delete, reassign, delete_api_key}
use simply_firewall.Keys.Delete.Cascade.{IsDeleted, delete_api_key-IsDeleted}
use simply_firewall.Keys.Delete.Collateral.{delete_api_key-NoneOn}
use simply_firewall.Keys.Delete.Webhooks.{IsDoomed, NoneOn}
use simply_firewall.Keys.Grants.{update_key_group_permissions}
use simply_firewall.Keys.Grants.Bounded.{IsChanged, update_key_group_permissions-IsChanged}
use simply_firewall.Service.{
  Request, handle, serve, put_key, delete_key, rotate_key, post_permission, put_webhook,
}
use simply_firewall.Service.Safety.{handle-Permitted, serve-SameMasters, serve-NoScopeGained}
use simply_firewall.Examples.Fixtures.{
  repoint, simple_parsers, calm, ban_group, manager, vault, start, as_manager, read_access,
}

vault-IsValid : IsValid vault
vault-IsValid = record { unique = found; rooted = parentless }
  where
    found : (k : ApiKey) → Member k vault.api_keys → key_by_id k.id vault ≡ some k
    found k (inl e) = rw e refl
    found k (inr (inl e)) = rw e refl
    found k (inr (inr (inl e))) = rw e refl
    found k (inr (inr (inr none_left))) = absurd none_left

    parentless :
        (k : ApiKey) → Member k vault.api_keys → k.is_master ≡ true → k.parent_key_id ≡ none
    parentless k (inl e) h = rw e refl
    parentless k (inr (inl e)) h = absurd (ground (arith, ap (λ (x : ApiKey). x.is_master) e))
    parentless k (inr (inr (inl e))) h = absurd (ground (arith, ap (λ (x : ApiKey). x.is_master) e))
    parentless k (inr (inr (inr none_left))) h = absurd none_left

-- The group goes, and the webhook is to survive it.
abbrev resolutions : List ResolutionEntry
resolutions =
    record { entity_type = codes "group"; id = 10; resolution = delete }
    ∷ record { entity_type = codes "webhook"; id = 20; resolution = reassign 2 }
    ∷ []

abbrev rename : UpdateApiKeyPayload
rename = record {
  name = some (codes "renamed");
  bound_ips = none;
  can_manage_keys = some false;
  can_manage_webhooks = none;
  can_create_groups = none;
}

abbrev run : List (Caller × Request)
run =
    (as_manager, put_key 3 rename)
    ∷ (as_manager, post_permission 3 read_access)
    ∷ (as_manager, rotate_key 3)
    ∷ (as_manager, put_webhook 20 repoint)
    ∷ (as_manager, delete_key 3 resolutions)
    ∷ []

handle-Permitted_example :
    Permitted manager vault
      (handle calm simple_parsers as_manager (delete_key 3 resolutions) start).1.db
handle-Permitted_example =
    handle-Permitted calm simple_parsers as_manager (delete_key 3 resolutions) start

serve-SameMasters_example :
    IsValid (serve calm simple_parsers run start).db
    × SameMasters vault (serve calm simple_parsers run start).db
serve-SameMasters_example = serve-SameMasters calm simple_parsers run start vault-IsValid

serve-NoScopeGained_example : NoScopeGained vault (serve calm simple_parsers run start).db
serve-NoScopeGained_example =
    serve-NoScopeGained calm simple_parsers run start (refl, (refl, (refl, (refl, (refl, tt)))))
      vault-IsValid

delete_api_key-IsDeleted_example :
    Spec
      (delete_api_key calm as_manager 3 resolutions)
      vault
      (λ _ d. IsDeleted as_manager 3 vault d)
      (λ e d. DbFailure e ⊎ (d ≡ vault))
delete_api_key-IsDeleted_example = delete_api_key-IsDeleted calm as_manager 3 resolutions vault

update_key_group_permissions-IsChanged_example :
    Spec
      (update_key_group_permissions calm as_manager 3 read_access)
      vault
      (λ _ d. IsChanged manager 3 read_access vault d)
      (λ e d. DbFailure e ⊎ (d.permissions ≡ vault.permissions))
update_key_group_permissions-IsChanged_example =
    update_key_group_permissions-IsChanged calm as_manager 3 read_access vault

collect_key_subtree-Reads_example :
    Reads (collect_key_subtree calm 2) vault (IsSubtree vault 2) DbFailure
collect_key_subtree-Reads_example = collect_key_subtree-Reads calm vault 2

find_administrable_key-Reads_example :
    Reads
      (find_administrable_key calm manager 3)
      vault
      (λ k. (key_by_id 3 vault ≡ some k) × Administrable vault manager 3)
      (λ e. DbFailure e ⊎ ((e ≡ not_found) × Invisible vault manager 3))
find_administrable_key-Reads_example = find_administrable_key-Reads calm vault manager 3

ssh-IsDoomed : IsDoomed 10 resolutions
unfolding text_eq
ssh-IsDoomed = refl

-- The webhook is gone, although the map reassigns it.
delete_api_key-NoneOn_example :
    Spec
      (delete_api_key calm as_manager 3 resolutions)
      vault
      (λ _ d. NoneOn 10 d)
      (λ e d. DbFailure e ⊎ (d ≡ vault))
delete_api_key-NoneOn_example =
    delete_api_key-NoneOn calm as_manager 3 resolutions vault ban_group 3 (inl refl) refl here
      ssh-IsDoomed
