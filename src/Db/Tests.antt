-- ===== src/Db/Tests.antt =====
-- The life of one handle.
use http_file_sharing.Prelude.{◌≤◌, ◌≡◌, refl, true, false, List, [], ◌∷◌}
use http_file_sharing.Db.{
  Resources, DbHandle, open_ok, waits, constructed, construct, cleanup, Call, call_prepare_stmt,
  call_start_transaction, call_other, calls_on,
}
use http_file_sharing.Db.Life.{db_handle_life}

abbrev idle : Resources
idle = record { mutex_locked = false; connections = 0; statements = 0 }

abbrev calls : List Call
calls =
    call_start_transaction
    ∷ call_prepare_stmt true
    ∷ call_other
    ∷ call_prepare_stmt true
    ∷ call_other
    ∷ []

db_handle_life_example :
    (h : DbHandle) × (r : Resources) × (construct open_ok idle ≡ constructed h r)
    × (let during = calls_on calls h r in
        let after = cleanup during.0 during.1 in
        (during.1.mutex_locked ≡ true)
        × (during.1.statements ≤ 1)
        × (construct open_ok during.1 ≡ waits)
        × (after.1.mutex_locked ≡ false)
        × (after.1.connections ≡ 0)
        × (after.1.statements ≡ 0)
        × (cleanup after.0 after.1 ≡ after))
db_handle_life_example = db_handle_life idle calls refl
