-- ===== src/Db/Life.antt =====
-- A handle gives back what it took.
use http_file_sharing.Prelude.{
  ℕ, ◌+◌, ◌≤◌, ◌≡◌, refl, Bool, true, false, List, [], ◌∷◌, arith, if◌then◌else◌,
}
use http_file_sharing.Db.{
  Resources, DbHandle, open_ok, open_failed, waits, open_throws, constructed, construct, finalize,
  prepare_stmt, start_transaction, end_transaction, cleanup, Call, call_prepare_stmt,
  call_start_transaction, call_end_transaction, call_other, call_on, calls_on,
}

-- An open handle that was made when the resources were the first ones: it holds the mutex, one
-- connection, and a statement if m_stmt is not null.
abbrev pub IsHeld : Resources → DbHandle → Resources → Type 0
IsHeld before h r =
    (h.m_is_open ≡ true)
    × (r.mutex_locked ≡ true)
    × (r.connections ≡ before.connections + 1)
    × (r.statements ≡ before.statements + (if h.m_stmt then 1 else 0))

call_on-IsHeld :
    (before : Resources) (call : Call) (h : DbHandle) (r : Resources)
    → IsHeld before h r
    → IsHeld before (call_on call h r).0 (call_on call h r).1
unfolding call_on prepare_stmt finalize start_transaction end_transaction
call_on-IsHeld before (call_prepare_stmt true) h r held = ground arith
call_on-IsHeld before (call_prepare_stmt false) h r held = ground arith
call_on-IsHeld before call_start_transaction h r held = held
call_on-IsHeld before call_end_transaction h r held = held
call_on-IsHeld before call_other h r held = held

pub calls_on-IsHeld :
    (before : Resources) (calls : List Call) (h : DbHandle) (r : Resources)
    → IsHeld before h r
    → IsHeld before (calls_on calls h r).0 (calls_on calls h r).1
unfolding calls_on
calls_on-IsHeld before [] h r held = held
calls_on-IsHeld before (call ∷ calls) h r held =
    calls_on-IsHeld before calls (call_on call h r).0 (call_on call h r).1
      (call_on-IsHeld before call h r held)

cleanup-IsHeld :
    (before : Resources) (h : DbHandle) (r : Resources)
    → before.mutex_locked ≡ false
    → IsHeld before h r
    → ((cleanup h r).1.mutex_locked ≡ false)
      × ((cleanup h r).1.connections ≡ before.connections)
      × ((cleanup h r).1.statements ≡ before.statements)
      × (cleanup (cleanup h r).0 (cleanup h r).1 ≡ cleanup h r)
unfolding cleanup finalize end_transaction
cleanup-IsHeld before h r free held = ground arith

-- Over any sequence of calls: when the mutex is free the constructor, if SQLite opens the file,
-- makes a handle; after the calls the mutex is still held and at most one statement is owned; and
-- the cleanup of the destructor leaves the mutex free and every connection and statement as before,
-- and a second cleanup does nothing. While a handle lives, another constructor waits.
pub db_handle_life :
    (before : Resources) (calls : List Call)
    → before.mutex_locked ≡ false
    → (h : DbHandle) × (r : Resources) × (construct open_ok before ≡ constructed h r)
      × (let during = calls_on calls h r in
          let after = cleanup during.0 during.1 in
          (during.1.mutex_locked ≡ true)
          × (during.1.statements ≤ before.statements + 1)
          × (construct open_ok during.1 ≡ waits)
          × (after.1.mutex_locked ≡ false)
          × (after.1.connections ≡ before.connections)
          × (after.1.statements ≡ before.statements)
          × (cleanup after.0 after.1 ≡ after))
db_handle_life before calls free =
    let h : DbHandle = record { m_stmt = false; m_is_open = true; m_ongoing_transaction = false } in
    let r : Resources = record before {
      mutex_locked = true;
      connections = before.connections + 1;
    } in
    let begun : construct open_ok before ≡ constructed h r = made before free in
    let (alive, locked, conns, stmts) =
      calls_on-IsHeld before calls h r (refl, refl, refl, omega arith) in
    let (unlocked, closed, freed, again) =
      cleanup-IsHeld before (calls_on calls h r).0 (calls_on calls h r).1 free
        (alive, locked, conns, stmts) in
    (
      h,
      r,
      begun,
      (
        locked,
        at_most_one before.statements (calls_on calls h r).0.m_stmt stmts,
        waiting (calls_on calls h r).1 locked,
        unlocked,
        closed,
        freed,
        again,
      ),
    )
  where
    made :
        (b : Resources)
        → b.mutex_locked ≡ false
        → construct open_ok b
          ≡ constructed
              (record { m_stmt = false; m_is_open = true; m_ongoing_transaction = false })
              (record b { mutex_locked = true; connections = b.connections + 1 })
    made b e = unfold construct in ground arith

    waiting : (b : Resources) → b.mutex_locked ≡ true → construct open_ok b ≡ waits
    waiting b e = unfold construct in ground arith

    at_most_one : {n : ℕ} (m : ℕ) (stmt : Bool) → n ≡ m + (if stmt then 1 else 0) → n ≤ m + 1
    at_most_one m true e = omega arith
    at_most_one m false e = omega arith

-- When the mutex is free and SQLite does not open the file, the constructor throws with the mutex
-- free again; a connection that SQLite allocated for the error message is never closed.
pub open_failed_leak :
    (before : Resources) (allocated : Bool)
    → before.mutex_locked ≡ false
    → (after : Resources) × (construct (open_failed allocated) before ≡ open_throws after)
      × (after.mutex_locked ≡ false)
      × (after.statements ≡ before.statements)
      × (after.connections ≡ before.connections + (if allocated then 1 else 0))
unfolding construct
open_failed_leak before true free = (
  record before { mutex_locked = false; connections = before.connections + 1 },
  rw (free, construct),
  refl,
  refl,
  refl,
)
open_failed_leak before false free =
    (record before { mutex_locked = false }, rw (free, construct), refl, refl, omega arith)
