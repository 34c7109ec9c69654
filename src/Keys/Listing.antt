-- ===== src/Keys/Listing.antt =====
-- src/api/keys.rs: what the service shows of keys, and to whom (`get_me`, `list_api_keys`).
use simply_firewall.Prelude.{
  Bool, true, not, ◌&&◌, Option, none, some, List, [], ◌∷◌, ◌++◌, map, Text, if◌then◌else◌, ◌==◌,
  keep, contains, is_empty, filter_map,
}
use simply_firewall.Entities.{Uuid, DateTime, ApiKey, Permission, IpGroup}
use simply_firewall.Error.{forbidden, Message}
use simply_firewall.Outside.{Outside}
use simply_firewall.Store.{Db, Action, pure, ◌>>=◌, ◌>>◌, refuse_if, query}
use simply_firewall.Store.Tables.{key_by_id, group_by_id}
use simply_firewall.Keys.Subtree.{collect_key_subtree}

pub record MePermission : Type 0 where
  pub group_id : Uuid
  pub group_name : Text
  pub can_read : Bool
  pub can_write : Bool
  pub can_delete : Bool
  pub can_manage : Bool

pub record MeResponse : Type 0 where
  pub id : Uuid
  pub name : Text
  pub bound_ips : Option Text
  pub is_master : Bool
  pub can_manage_keys : Bool
  pub can_manage_webhooks : Bool
  pub can_create_groups : Bool
  pub group_permissions : List MePermission

pub data View : Type 0 where
  full minimal : View

pub record ApiKeySummary : Type 0 where
  pub id : Uuid
  pub name : Text
  pub view : View
  pub prefix : Option Text
  pub bound_ips : Option Text
  pub is_master : Option Bool
  pub can_manage_keys : Option Bool
  pub can_manage_webhooks : Option Bool
  pub can_create_groups : Option Bool
  pub parent_key_id : Option Uuid
  pub created_at : Option DateTime
  pub group_permissions : List MePermission

-- `find_also_related(ip_group::Entity)`, and the `filter_map` over its pairs.
unfoldable pub me_permission : Permission → Option IpGroup → Option MePermission
me_permission p none = none
me_permission p (some group) = some (record {
  group_id = p.group_id;
  group_name = group.name;
  can_read = p.can_read;
  can_write = p.can_write;
  can_delete = p.can_delete;
  can_manage = p.can_manage;
})

-- `None` is no filter.
abbrev pub among : Option (List Uuid) → Uuid → Bool
among none id = true
among (some groups) id = contains id groups

unfoldable pub grants_of : Uuid → Option (List Uuid) → Db → List MePermission
unfolding me_permission
grants_of key only_groups db =
    filter_map (λ p. me_permission p (group_by_id p.group_id db))
      (keep (λ p. p.api_key_id == key && among only_groups p.group_id) db.permissions)

module _ (o : Outside) where
  unfoldable pub key_group_permissions : Uuid → Option (List Uuid) → Action (List MePermission)
  unfolding grants_of
  key_group_permissions key only_groups = query o (grants_of key only_groups)

  unfoldable pub get_me : ApiKey → Action MeResponse
  unfolding grants_of
  get_me key = do
    grants ← query o (grants_of key.id none)
    pure (record {
      id = key.id;
      name = key.name;
      bound_ips = key.bound_ips;
      is_master = key.is_master;
      can_manage_keys = key.can_manage_keys;
      can_manage_webhooks = key.can_manage_webhooks;
      can_create_groups = key.can_create_groups;
      group_permissions = grants;
    })

  unfoldable pub full_api_key_summary : ApiKey → Action ApiKeySummary
  unfolding key_group_permissions
  full_api_key_summary k = do
    grants ← key_group_permissions k.id none
    pure (record {
      id = k.id;
      name = k.name;
      view = full;
      prefix = some k.prefix;
      bound_ips = k.bound_ips;
      is_master = some k.is_master;
      can_manage_keys = some k.can_manage_keys;
      can_manage_webhooks = some k.can_manage_webhooks;
      can_create_groups = some k.can_create_groups;
      parent_key_id = k.parent_key_id;
      created_at = some k.created_at;
      group_permissions = grants;
    })

  unfoldable pub minimal_api_key_summary : ApiKey → List Uuid → Action ApiKeySummary
  unfolding key_group_permissions
  minimal_api_key_summary k visible_groups = do
    grants ← key_group_permissions k.id (some visible_groups)
    pure (record {
      id = k.id;
      name = k.name;
      view = minimal;
      prefix = none;
      bound_ips = none;
      is_master = none;
      can_manage_keys = none;
      can_manage_webhooks = none;
      can_create_groups = none;
      parent_key_id = none;
      created_at = none;
      group_permissions = grants;
    })

  unfoldable pub groups_the_caller_manages : ApiKey → Action (List Uuid)
  groups_the_caller_manages caller =
      if not caller.can_manage_keys
      then pure []
      else query o (λ db.
        map (λ p. p.group_id)
          (keep (λ p. p.api_key_id == caller.id && p.can_manage) db.permissions))

  -- The keys with a row on a managed group, outside the subtree.
  unfoldable pub shared_keys : (managed subtree : List Uuid) → Action (List Uuid)
  shared_keys managed subtree =
      if is_empty managed
      then pure []
      else query o (λ db.
        keep (λ id. not (contains id subtree))
          (map (λ p. p.api_key_id) (keep (λ p. contains p.group_id managed) db.permissions)))

  -- `for k in keys { summaries.push(full_api_key_summary(…).await?); }`
  unfoldable pub full_summaries : List ApiKey → Action (List ApiKeySummary)
  unfolding full_api_key_summary
  full_summaries [] = pure []
  full_summaries (k ∷ ks) = do s ← full_api_key_summary k; rest ← full_summaries ks; pure (s ∷ rest)

  unfoldable pub one_full : Option ApiKey → Action (List ApiKeySummary)
  unfolding full_api_key_summary
  one_full none = pure []
  one_full (some k) = do s ← full_api_key_summary k; pure (s ∷ [])

  -- The loop over the subtree: a key that is gone is skipped.
  unfoldable pub subtree_summaries : List Uuid → Action (List ApiKeySummary)
  unfolding one_full
  subtree_summaries [] = pure []
  subtree_summaries (id ∷ ids) = do
    found ← query o (key_by_id id)
    s ← one_full found
    rest ← subtree_summaries ids
    pure (s ++ rest)

  unfoldable pub one_minimal : Option ApiKey → List Uuid → Action (List ApiKeySummary)
  unfolding minimal_api_key_summary
  one_minimal none managed = pure []
  one_minimal (some k) managed = do s ← minimal_api_key_summary k managed; pure (s ∷ [])

  -- The loop over the shared keys, with the set of the ids already listed.
  unfoldable pub shared_summaries :
      (managed seen : List Uuid) → List Uuid → Action (List ApiKeySummary)
  unfolding one_minimal
  shared_summaries managed seen [] = pure []
  shared_summaries managed seen (id ∷ ids) =
      let rest = shared_summaries managed seen ids in
      let listed = (do
        found ← query o (key_by_id id)
        s ← one_minimal found managed
        rest ← shared_summaries managed (id ∷ seen) ids
        pure (s ++ rest)) in
      if contains id seen then rest else listed

  unfoldable pub list_api_keys : ApiKey → Action (List ApiKeySummary)
  unfolding groups_the_caller_manages shared_keys full_summaries subtree_summaries shared_summaries
  list_api_keys key = do
    refuse_if (not key.is_master && not key.can_manage_keys) (forbidden Message.permission_denied)
    if key.is_master then (do keys ← query o (λ db. db.api_keys); full_summaries keys) else do
      subtree ← collect_key_subtree o key.id
      managed ← groups_the_caller_manages key
      shared ← shared_keys managed subtree
      own ← subtree_summaries subtree
      others ← shared_summaries managed (map (λ s. s.id) own) shared
      pure (own ++ others)
