-- ===== src/Keys/Subtree/Visibility.antt =====
-- src/api/keys.rs, `caller_can_administer_key` and `find_administrable_key`, against section 4 of
-- RBAC_MODEL.md.
use simply_firewall.Prelude.{
  ◌≡◌, refl, ◌⊎◌, inl, inr, Bool, true, false, not, none, some, contains, List,
}
use simply_firewall.Entities.{Uuid, ApiKey}
use simply_firewall.Error.{not_found}
use simply_firewall.Outside.{Outside}
use simply_firewall.Store.{Db}
use simply_firewall.Store.Tables.{key_by_id}
use simply_firewall.Store.Spec.{Spec-pure, Spec-if}
use simply_firewall.Store.Chain.{Reads, after_query, after_ok_or, after_refuse, after_read}
use simply_firewall.Guards.Effects.{DbFailure}
use simply_firewall.Keys.Subtree.{caller_can_administer_key, find_administrable_key}
use simply_firewall.Keys.Subtree.Reach.{Descends, IsSubtree, collect_key_subtree-Reads}

module _ (db : Db) (caller : ApiKey) (target : Uuid) where
  -- The scope that section 4 gives a caller over credentials.
  abbrev pub Administrable : Type 0
  Administrable = (caller.is_master ≡ true) ⊎ Descends db caller.id target

  abbrev pub Decides : Bool → Type 0
  Decides true = Administrable
  Decides false = (caller.is_master ≡ false) × (¬ Descends db caller.id target)

  decided :
      (found : List Uuid)
      → caller.is_master ≡ false
      → IsSubtree db caller.id found
      → (b : Bool) → contains target found ≡ b
      → Decides b
  decided found ordinary is true e = inr ((is target).0 e)
  decided found ordinary is false e = (ordinary, λ d. cc ((is target).1 d))

  pub caller_can_administer_key-Reads :
      (o : Outside) → Reads (caller_can_administer_key o caller target) db Decides DbFailure
  unfolding caller_can_administer_key
  caller_can_administer_key-Reads o =
      Spec-if db caller.is_master _ _ (λ master. Spec-pure db true (refl, inl master))
        λ ordinary.
          after_read (collect_key_subtree-Reads o db caller.id) (λ e h. (refl, h))
            λ found is. Spec-pure db _ (refl, decided found ordinary is _ refl)

  -- Absent, or outside the caller's scope.
  abbrev pub Invisible : Type 0
  Invisible =
      (key_by_id target db ≡ none) ⊎ ((caller.is_master ≡ false) × (¬ Descends db caller.id target))

  pub find-Reads :
      (o : Outside)
      → Reads
          (find_administrable_key o caller target)
          db
          (λ k. (key_by_id target db ≡ some k) × Administrable)
          (λ e. DbFailure e ⊎ ((e ≡ not_found) × Invisible))
  unfolding find_administrable_key
  find-Reads o =
      after_query o (λ e. (refl, inl refl)) _ _
        (after_ok_or _ _ (λ absent. (refl, inr (refl, inl absent)))
          λ k found.
            after_read (caller_can_administer_key-Reads o) (λ e h. (refl, inl h))
              λ b d.
                after_refuse (not b) _ (λ e. (refl, inr (refl, inr (denied b d e))))
                  λ e. Spec-pure db k (refl, (found, allowed b d e)))
    where
      denied :
          (b : Bool)
          → Decides b
          → not b ≡ true
          → (caller.is_master ≡ false) × (¬ Descends db caller.id target)
      denied true d e = cc
      denied false d e = d

      allowed : (b : Bool) → Decides b → not b ≡ false → Administrable
      allowed true d e = d
      allowed false d e = cc

-- A key-targeted request finds the row exactly where the caller is the master or the target is in
-- its subtree. A key that is absent and one that is out of scope both give `not_found`, with no
-- payload to tell them apart; nothing else fails but the database, and no table changes.
pub find_administrable_key-Reads :
    (o : Outside) (db : Db) (caller : ApiKey) (target : Uuid)
    → Reads
        (find_administrable_key o caller target)
        db
        (λ k. (key_by_id target db ≡ some k) × Administrable db caller target)
        (λ e. DbFailure e ⊎ ((e ≡ not_found) × Invisible db caller target))
find_administrable_key-Reads o db caller target = find-Reads db caller target o
