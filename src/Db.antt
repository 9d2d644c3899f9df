-- ===== src/Db.antt =====
-- src/framework/db/db.cpp, with SINGLETON_DB_OBJECT: a handle on the database that holds a global
-- mutex for its life, and owns a connection and at most one prepared statement.
pub mod Life
pub mod Tests
use http_file_sharing.Prelude.{
  ℕ, zero, suc, ◌+◌, ◌-◌, ◌*◌, ◌/◌, ◌%◌, ◌^◌, ◌≤◌, ◌<◌, ◌≡◌, refl, sym, ap, ◌∙◌, ◌≢◌, ◌↔◌, ◌⊎◌, inl,
  inr, Bool, true, false, not, ◌&&◌, ◌||◌, Option, none, some, List, [], ◌∷◌, ◌++◌, map,
  append_assoc, append-nil, arith, ltb, leb, ◌==◌, if◌then◌else◌, Bool-cases, Option-cases, ◌>>=◌,
  length, get_or, take, drop, replicate, length-append, length-replicate, length-drop, length-take,
  take_all, drop_all, take-append-drop, take-append_left, drop-append_left, All, All-append, Bytes,
  codes, lit, bytes_eq, bytes_eq_sound, bytes_eq_refl, bytes_eq_sym, bytes_eq_ne, Lacks, is_empty,
  starts_with, decimal, IsDigit, value, decimal_digits, value-decimal,
}

-- What outlives a handle: whether _db_mutex is locked, and how many connections and statements of
-- SQLite are not freed yet.
pub record Resources : Type 0 where
  pub mutex_locked : Bool
  pub connections : ℕ
  pub statements : ℕ

-- Whether m_stmt is not null, and the two flags.
pub record DbHandle : Type 0 where
  pub m_stmt : Bool
  pub m_is_open : Bool
  pub m_ongoing_transaction : Bool

-- The result of sqlite3_open; on a failure the flag tells whether a connection was allocated, which
-- SQLite documents as usual.
pub data OpenResult : Type 0 where
  open_ok : OpenResult
  open_failed : Bool → OpenResult

-- How the constructor ends: the mutex is held by another thread; an exception; or a handle.
pub data Constructed : Type 0 where
  waits : Constructed
  open_throws : Resources → Constructed
  constructed : DbHandle → Resources → Constructed

-- The constructor.
pub construct : OpenResult → Resources → Constructed
construct open_ok r =
    if r.mutex_locked
    then waits
    else constructed (record { m_stmt = false; m_is_open = true; m_ongoing_transaction = false })
        (record r { mutex_locked = true; connections = r.connections + 1 })
construct (open_failed allocated) r =
    if r.mutex_locked
    then waits
    else open_throws (record r {
      mutex_locked = false;
      connections = if allocated then r.connections + 1 else r.connections;
    })

-- sqlite3_finalize on m_stmt, if it is not null.
pub finalize : DbHandle → Resources → Resources
finalize h r = if h.m_stmt then record r { statements = r.statements - 1 } else r

-- prepare_stmt; the flag is whether sqlite3_prepare_v2 makes a statement, and else it makes m_stmt
-- null.
pub prepare_stmt : Bool → DbHandle → Resources → DbHandle × Resources
unfolding finalize
prepare_stmt ok h r =
    let r' = finalize h r in
    (record h { m_stmt = ok }, if ok then record r' { statements = r'.statements + 1 } else r')

pub start_transaction : DbHandle → DbHandle
start_transaction h = record h { m_ongoing_transaction = true }

pub end_transaction : DbHandle → DbHandle
end_transaction h = record h { m_ongoing_transaction = false }

-- cleanup, which the destructor calls.
pub cleanup : DbHandle → Resources → DbHandle × Resources
unfolding finalize end_transaction
cleanup h r =
    if h.m_is_open
    then (
      record (if h.m_ongoing_transaction then end_transaction h else h) { m_is_open = false },
      record (finalize h r) { connections = (finalize h r).connections - 1; mutex_locked = false },
    )
    else (h, r)

-- The calls on a handle: prepare_stmt with its outcome, the two ends of a transaction, and those that
-- pass their arguments on to SQLite and change neither the handle nor what it owns (bind_int, bind_string, step, get_int, get_str,
-- exec_query, reset_stmt, get_errmsg).
pub data Call : Type 0 where
  call_prepare_stmt : Bool → Call
  call_start_transaction call_end_transaction call_other : Call

pub call_on : Call → DbHandle → Resources → DbHandle × Resources
unfolding prepare_stmt start_transaction end_transaction
call_on (call_prepare_stmt ok) h r = prepare_stmt ok h r
call_on call_start_transaction h r = (start_transaction h, r)
call_on call_end_transaction h r = (end_transaction h, r)
call_on call_other h r = (h, r)

pub calls_on : List Call → DbHandle → Resources → DbHandle × Resources
unfolding call_on
calls_on [] h r = (h, r)
calls_on (call ∷ calls) h r = let (h', r') = call_on call h r in calls_on calls h' r'
