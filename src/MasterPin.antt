-- ===== src/MasterPin.antt =====
-- src/master.rs: which key is the master, fixed once. The `OnceLock` is an optional id that the
-- functions pass on; `crate::db::has_index` asks the catalog of the engine, so its answer is an
-- argument. Calls are taken one at a time: src/main.rs pins before it accepts connections.
pub mod Single
use simply_firewall.Prelude.{
  Bool, true, false, not, Option, none, some, List, [], ◌∷◌, map, keep, if◌then◌else◌, ◌==◌,
}
use simply_firewall.Entities.{Uuid, ApiKey}
use simply_firewall.Error.{DbErr}
use simply_firewall.Store.{Db}

pub data MasterPinError : Type 0 where
  no_master : MasterPinError
  multiple_masters : List Uuid → MasterPinError
  missing_uniqueness_index : MasterPinError
  database : DbErr → MasterPinError

pub data Pinned : Type 0 where
  pinned : Uuid → Pinned
  unpinned : MasterPinError → Pinned

-- What the engine answers while a pin is resolved.
pub record Engine : Type 0 where
  pub db : Db
  pub query_failure : Option DbErr
  pub index_failure : Option DbErr
  pub has_index : Bool

abbrev pub Cell : Type 0
Cell = Option Uuid

abbrev pub masters : Db → List Uuid
masters db = map (λ k. k.id) (keep (λ k. k.is_master) db.api_keys)

only_one : List Uuid → Pinned
only_one [] = unpinned no_master
only_one (id ∷ []) = pinned id
only_one (a ∷ b ∷ ids) = unpinned (multiple_masters (a ∷ b ∷ ids))

unfoldable pub sole_master : Option DbErr → Db → Pinned
unfolding only_one
sole_master (some e) db = unpinned (database e)
sole_master none db = only_one (masters db)

-- The check of the index, and the `set`.
set_if_indexed : Option DbErr → (has_index : Bool) → Uuid → Pinned × Cell
set_if_indexed (some e) has_index id = (unpinned (database e), none)
set_if_indexed none false id = (unpinned missing_uniqueness_index, none)
set_if_indexed none true id = (pinned id, some id)

resolved : Engine → Pinned → Pinned × Cell
unfolding set_if_indexed
resolved engine (pinned id) = set_if_indexed engine.index_failure engine.has_index id
resolved engine (unpinned e) = (unpinned e, none)

unfoldable pub pin_at_boot : Engine → Cell → Pinned × Cell
unfolding resolved sole_master
pin_at_boot engine (some id) = (pinned id, some id)
pin_at_boot engine none = resolved engine (sole_master engine.query_failure engine.db)

abbrev ok_pin : Pinned → Option Uuid
ok_pin (pinned id) = some id
ok_pin (unpinned e) = none

unfoldable pub resolve : Engine → Cell → Option Uuid × Cell
unfolding pin_at_boot
resolve engine cell = let (answer, cell') = pin_at_boot engine cell in (ok_pin answer, cell')

unfoldable pub demote_unless : Option Uuid → ApiKey → ApiKey
demote_unless none key = record key { is_master = false }
demote_unless (some id) key = if id == key.id then key else record key { is_master = false }

-- `authenticate`, with the key as it leaves it.
unfoldable pub authenticate : Engine → ApiKey → Cell → ApiKey × Cell
unfolding resolve demote_unless
authenticate engine key cell =
    if not key.is_master
    then (key, cell)
    else let (pin, cell') = resolve engine cell in (demote_unless pin key, cell')

-- The principals of a sequence of requests, each with the engine as it was then.
unfoldable pub principals : List (Engine × ApiKey) → Cell → List ApiKey
unfolding authenticate
principals [] cell = []
principals ((engine, key) ∷ rest) cell =
    let (key', cell') = authenticate engine key cell in key' ∷ principals rest cell'
