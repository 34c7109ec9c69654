-- ===== src/Examples/Records.antt =====
-- The deletion and the purge of IP records in the small vault.
use simply_firewall.Prelude.{◌≡◌, ◌⊎◌, true, none, some, [], ◌∷◌, codes}
use simply_firewall.Error.{Result}
use simply_firewall.Store.{Db}
use simply_firewall.Store.Spec.{Spec}
use simply_firewall.Guards.Effects.{DbFailure}
use simply_firewall.Records.{DeleteIpQuery, delete_ip, delete_ip_record}
use simply_firewall.Records.Atomic.{IsRemoved, delete_ip-IsRemoved}
use simply_firewall.Records.Removed.{IsDeletedRecord, delete_ip_record-IsDeletedRecord}
use simply_firewall.Examples.Fixtures.{hosts, calm, vault, as_master, banned, held}

abbrev from_ssh : DeleteIpQuery
from_ssh = record { target_address = some (codes "a"); group_id = some 10; group_name = none }

abbrev nothing : DeleteIpQuery
nothing = record { target_address = none; group_id = none; group_name = none }

abbrev with_record : Db
with_record = record vault { ip_records = banned ∷ []; memberships = held ∷ [] }

-- 92 days are 7948800 seconds.
abbrev with_trash : Db
with_trash = record vault {
  ip_records = record banned { is_deleted = true; deleted_at = some 40000 } ∷ [];
}

delete_ip-IsRemoved_example :
    Spec
      (delete_ip calm hosts as_master from_ssh (Result.ok nothing))
      with_record
      (IsRemoved hosts as_master from_ssh (Result.ok nothing) with_record)
      (λ e d. d ≡ with_record)
delete_ip-IsRemoved_example =
    delete_ip-IsRemoved calm as_master hosts with_record from_ssh (Result.ok nothing)

delete_ip_record-IsDeletedRecord_example :
    Spec
      (delete_ip_record calm as_master 40 (some true))
      with_record
      (IsDeletedRecord as_master.key 40 with_record)
      (λ e d. DbFailure e ⊎ (d ≡ with_record))
delete_ip_record-IsDeletedRecord_example =
    delete_ip_record-IsDeletedRecord calm as_master with_record 40 (some true)
