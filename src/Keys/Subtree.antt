-- ===== src/Keys/Subtree.antt =====
-- src/api/keys.rs: `collect_key_subtree` and the two functions that bound every key-targeted
-- request by it. The loop recurs on fuel, one unit a round: a round that finds a new key visits at
-- least one more row of the table, so one more than the rows is enough (`Walk`).
mod Walk
pub mod Reach
pub mod Visibility
use simply_firewall.Prelude.{
  ℕ, zero, suc, Bool, true, false, not, Option, none, some, List, [], ◌∷◌, map, if◌then◌else◌, keep,
  contains, is_empty, length,
}
use simply_firewall.Entities.{Uuid, ApiKey}
use simply_firewall.Error.{AppError, not_found, internal}
use simply_firewall.Outside.{Outside}
use simply_firewall.Store.{Db, Action, pure, raise, ok_or, ◌>>=◌, ◌>>◌, refuse_if, query}
use simply_firewall.Store.Tables.{key_by_id, is_in}

-- `api_key::Column::ParentKeyId.is_in(frontier)`, the ids.
unfoldable pub children_of : List Uuid → Db → List Uuid
children_of frontier db = map (λ k. k.id) (keep (λ k. is_in frontier k.parent_key_id) db.api_keys)

-- `children.into_iter().filter(|id| visited.insert(*id)).collect()`: the ids that were new, and the
-- set afterwards.
unfoldable pub insert_all : (visited : List Uuid) → List Uuid → List Uuid × List Uuid
insert_all visited [] = ([], visited)
insert_all visited (c ∷ cs) =
    let old = contains c visited in
    let (fresh, visited') = insert_all (if old then visited else c ∷ visited) cs in
    (if old then fresh else c ∷ fresh, visited')

module _ (o : Outside) where
  -- The `while` loop.
  unfoldable pub walk : (fuel : ℕ) (frontier visited : List Uuid) → Action (List Uuid)
  walk fuel [] visited = pure visited
  walk zero (f ∷ fs) visited = raise internal
  walk (suc fuel) (f ∷ fs) visited = do
    children ← query o (children_of (f ∷ fs))
    let next = insert_all visited children
    walk fuel next.0 next.1

  unfoldable pub collect_key_subtree : Uuid → Action (List Uuid)
  unfolding walk
  collect_key_subtree root w = walk (suc (length w.db.api_keys)) (root ∷ []) (root ∷ []) w

  unfoldable pub caller_can_administer_key : ApiKey → Uuid → Action Bool
  unfolding collect_key_subtree
  caller_can_administer_key caller target =
      if caller.is_master
      then pure true
      else do subtree ← collect_key_subtree caller.id; pure (contains target subtree)

  unfoldable pub find_administrable_key : ApiKey → Uuid → Action ApiKey
  unfolding caller_can_administer_key
  find_administrable_key caller target = do
    found ← query o (key_by_id target)
    key ← ok_or not_found found
    administrable ← caller_can_administer_key caller target
    refuse_if (not administrable) not_found
    pure key
