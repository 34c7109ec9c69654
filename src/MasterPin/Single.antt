-- ===== src/MasterPin/Single.antt =====
-- src/master.rs: the keys that act as the master over the life of the process.
use simply_firewall.Prelude.{
  ◌≡◌, refl, ◌⊎◌, inl, Bool, true, false, Option, none, some, List, [], ◌∷◌, All, arith,
  if◌then◌else◌, not,
}
use simply_firewall.Entities.{Uuid, ApiKey}
use simply_firewall.Error.{DbErr}
use simply_firewall.MasterPin.{
  Engine, Cell, Pinned, pinned, unpinned, masters, sole_master, only_one, set_if_indexed, resolved,
  pin_at_boot, resolve, demote_unless, authenticate, principals, ok_pin,
}

-- A key that acts as the master has the pinned id.
abbrev pub ActsAs : Uuid → ApiKey → Type 0
ActsAs id key = (key.is_master ≡ false) ⊎ (key.id ≡ id)

authenticate_pinned :
    (engine : Engine) (key : ApiKey) (id : Uuid)
    → ActsAs id (authenticate engine key (some id)).0
      × ((authenticate engine key (some id)).1 ≡ some id)
unfolding authenticate resolve pin_at_boot demote_unless
authenticate_pinned engine key id = ground arith

-- Once an id is pinned, no other key ever acts as the master.
pub principals-pinned :
    (requests : List (Engine × ApiKey)) (id : Uuid)
    → All (ActsAs id) (principals requests (some id))
unfolding principals
principals-pinned [] id = tt
principals-pinned ((engine, key) ∷ rest) id =
    let (acts, same) = authenticate_pinned engine key id in
    (acts, rw same (principals-pinned rest id))

-- What a first resolution may lead to: nothing is pinned and the key is no master, or the id of the
-- only master in the table is pinned.
abbrev pub Resolves : Engine → ApiKey × Cell → Type 0
Resolves engine (key, none) = key.is_master ≡ false
Resolves engine (key, some id) = (masters engine.db ≡ id ∷ []) × ActsAs id key

sole_id :
    (engine : Engine) (ids : List Uuid)
    → masters engine.db ≡ ids
    → (id : Uuid) → only_one ids ≡ pinned id
    → masters engine.db ≡ id ∷ []
unfolding only_one
sole_id engine [] m id e = absurd cc
sole_id engine (i ∷ []) m id e = rw m (ground arith)
sole_id engine (i ∷ j ∷ is) m id e = absurd cc

sole_master-sole :
    (engine : Engine) (failure : Option DbErr) (id : Uuid)
    → sole_master failure engine.db ≡ pinned id
    → masters engine.db ≡ id ∷ []
unfolding sole_master
sole_master-sole engine (some e) id h = absurd cc
sole_master-sole engine none id h = sole_id engine (masters engine.db) refl id h

module _ (engine : Engine) (key : ApiKey) where
  -- `authenticate` on a key that claims to be the master, by the outcome of the resolution.
  abbrev after : Pinned × Cell → ApiKey × Cell
  after (answer, cell) = (demote_unless (ok_pin answer) key, cell)

  set_if_indexed-Resolves :
      (failure : Option DbErr) (has_index : Bool) (id : Uuid)
      → masters engine.db ≡ id ∷ []
      → Resolves engine (after (set_if_indexed failure has_index id))
  unfolding set_if_indexed demote_unless
  set_if_indexed-Resolves (some e) has_index id m = refl
  set_if_indexed-Resolves none false id m = refl
  set_if_indexed-Resolves none true id m = (m, ground arith)

  resolved-Resolves :
      (x : Pinned)
      → sole_master engine.query_failure engine.db ≡ x
      → Resolves engine (after (resolved engine x))
  unfolding resolved demote_unless
  resolved-Resolves (unpinned e) h = refl
  resolved-Resolves (pinned id) h =
      set_if_indexed-Resolves engine.index_failure engine.has_index id
        (sole_master-sole engine engine.query_failure id h)

  by_claim :
      (claims : Bool)
      → key.is_master ≡ claims
      → Resolves engine (
          if not claims
          then (key, none)
          else after (resolved engine (sole_master engine.query_failure engine.db)))
  by_claim true e = resolved-Resolves _ refl
  by_claim false e = e

  authenticate-Resolves : Resolves engine (authenticate engine key none)
  unfolding authenticate resolve pin_at_boot
  authenticate-Resolves = by_claim key.is_master refl

single_from :
    (engine : Engine) (rest : List (Engine × ApiKey)) (first : ApiKey × Cell)
    → Resolves engine first
    → ((id : Uuid) × All (ActsAs id) (principals rest none))
    → (id : Uuid) × All (ActsAs id) (first.0 ∷ principals rest first.1)
single_from engine rest (key, none) ordinary (id, later) = (id, (inl ordinary, later))
single_from engine rest (key, some id) (m, acts) later = (id, (acts, principals-pinned rest id))

-- From an unset pin, over any sequence of requests, with any tables, failures and missing indexes in
-- between: all the keys that act as the master are one key.
pub principals-single :
    (requests : List (Engine × ApiKey)) → (id : Uuid) × All (ActsAs id) (principals requests none)
unfolding principals
principals-single [] = (0, tt)
principals-single ((engine, key) ∷ rest) =
    single_from engine rest (authenticate engine key none) (authenticate-Resolves engine key)
      (principals-single rest)
