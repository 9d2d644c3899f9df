-- ===== src/App/Blacklist.antt =====
-- src/app/blacklist.cpp: a score for each address, in a map and in the stats table of the database.
-- The map and the table are passed from call to call; the write lock that each operation holds makes
-- an operation one step.
pub mod Stats
pub mod Sync
pub mod Score
pub mod Bounds
pub mod Tests
use Prim.Native.String.{String}
use http_file_sharing.Prelude.{
  ℕ, zero, suc, ◌+◌, ◌-◌, ◌*◌, ◌/◌, ◌%◌, ◌^◌, ◌≤◌, ◌<◌, ◌≡◌, refl, sym, ap, ◌∙◌, ◌≢◌, ◌↔◌, ◌⊎◌, inl,
  inr, Bool, true, false, not, ◌&&◌, ◌||◌, Option, none, some, List, [], ◌∷◌, ◌++◌, map,
  append_assoc, append-nil, arith, ltb, leb, ◌==◌, if◌then◌else◌, Bool-cases, Option-cases, ◌>>=◌,
  length, get_or, take, drop, replicate, length-append, length-replicate, length-drop, length-take,
  take_all, drop_all, take-append-drop, take-append_left, drop-append_left, All, All-append, Bytes,
  codes, lit, bytes_eq, bytes_eq_sound, bytes_eq_refl, bytes_eq_sym, bytes_eq_ne, Lacks, is_empty,
  starts_with, decimal, IsDigit, value, decimal_digits, value-decimal,
}
use http_file_sharing.Prelude.Int.{ℤ, pos, negsuc, ◌+ℤ◌, ltb_ℤ}
use http_file_sharing.Prelude.Dict.{find, emplace, assign}

-- What the program uses of SQLite, as far as the stats table goes: whether each call succeeds on a
-- database, what a statement does to it, and the rows of the table.
pub record Sqlite : Type 1 where
  pub Db : Type 0
  pub can_open : Db → Bool
  pub prepare_ok : Bytes → Db → Bool
  pub bind_int_ok : Bytes → ℕ → ℤ → Bool
  pub bind_text_ok : Bytes → ℕ → Bytes → Bool
  -- the statement, with a number bound to its first parameter and a text to its second
  pub step_done : Bytes → ℤ → Bytes → Db → Bool
  pub step : Bytes → ℤ → Bytes → Db → Db
  -- the result of the query for the columns ipaddr and count, in order
  pub rows : Db → List (Bytes × ℤ)

-- A call ends, or the process ends by exit (1), or the constructor of db_handle throws.
pub data Outcome {ℓ} (A : Type ℓ) : Type ℓ where
  done : A → Outcome A
  exited : Outcome A
  thrown : Outcome A

pub Outcome-cases :
    {A : Type 0} (o : Outcome A) → ((a : A) × (o ≡ done a)) ⊎ ((o ≡ exited) ⊎ (o ≡ thrown))
Outcome-cases (done a) = inl (a, refl)
Outcome-cases exited = inr (inl refl)
Outcome-cases thrown = inr (inr refl)

abbrev pub insert_query : Bytes
insert_query = codes "INSERT into stats (count,ipaddr) VALUES (?,?)"

abbrev pub update_query : Bytes
update_query = codes "UPDATE stats SET count=? where ipaddr=?;"

abbrev pub select_query : Bytes
select_query = codes "SELECT ipaddr,count from stats;"

abbrev pub StatsList : Type 0
StatsList = List (Bytes × ℤ)

-- What a request adds to the score of its address.
abbrev pub credit : Bool → ℤ
credit good = if good then pos 1 else negsuc 0

-- is_ipaddr_blacklisted
unfoldable pub is_ipaddr_blacklisted : ℤ → StatsList → Bytes → Bool
is_ipaddr_blacklisted threshold stats ip = elim (find ip stats) [
  | none ↦ false
  | some score ↦ ltb_ℤ score threshold
]

-- get_score_for_ipaddr
unfoldable pub get_score_for_ipaddr : StatsList → Bytes → Option ℤ
get_score_for_ipaddr stats ip = find ip stats

-- The map behind the first write of update_ip_addr_stats, in front of the write to the table.
unfoldable pub map_written : Bytes → Bool → StatsList → StatsList
map_written ip good stats = elim (find ip stats) [
  | none ↦ emplace ip (credit good) stats
  | some score ↦ assign ip (score +ℤ credit good) stats
]

module _ (sql : Sqlite) where
  open sql use {Db, can_open, prepare_ok, bind_int_ok, bind_text_ok, step_done, step, rows}

  -- __insert_update_stats_db
  insert_update_stats_db : Bytes → Bytes → ℤ → Db → Outcome Db
  insert_update_stats_db query ip score db =
      if not (can_open db)
      then thrown
      else if not (prepare_ok query db)
      then exited
      else if not (bind_int_ok query 1 score)
      then exited
      else if not (bind_text_ok query 2 ip)
      then exited
      else if not (step_done query score ip db)
      then exited
      else done (step query score ip db)

  -- _insert_into_stats_db and _update_in_stats_db
  insert_into_stats_db : Bytes → ℤ → Db → Outcome Db
  insert_into_stats_db ip score db = insert_update_stats_db insert_query ip score db

  update_in_stats_db : Bytes → ℤ → Db → Outcome Db
  update_in_stats_db ip score db = insert_update_stats_db update_query ip score db

  -- The result of update_ip_addr_stats, once the database has the score.
  verdict : ℤ → ℤ → StatsList → Outcome Db → Outcome (Bool × StatsList × Db)
  verdict threshold score stats (done db) = done (ltb_ℤ threshold score, stats, db)
  verdict threshold score stats exited = exited
  verdict threshold score stats thrown = thrown

  -- update_ip_addr_stats
  unfoldable pub update_ip_addr_stats :
      ℤ → Bytes → Bool → StatsList → Db → Outcome (Bool × StatsList × Db)
  unfolding map_written verdict insert_update_stats_db insert_into_stats_db update_in_stats_db
  update_ip_addr_stats threshold ip good stats db = elim (find ip stats) [
    | none ↦
        verdict threshold (credit good) (map_written ip good stats)
          (insert_into_stats_db ip (credit good) db)
    | some score ↦
        verdict threshold (score +ℤ credit good) (map_written ip good stats)
          (update_in_stats_db ip (score +ℤ credit good) db)
  ]

  -- The loop of _get_stats_from_db over the rows; a row whose text is empty ends the process.
  load_rows : List (Bytes × ℤ) → StatsList → Outcome StatsList
  load_rows [] stats = done stats
  load_rows ((ip, count) ∷ more) stats =
      let rest = load_rows more (emplace ip count stats) in if is_empty ip then exited else rest

  -- _get_stats_from_db and init_blacklist, over the map as it is.
  unfoldable pub init_blacklist : Db → StatsList → Outcome StatsList
  unfolding load_rows
  init_blacklist db stats =
      if not (can_open db)
      then thrown
      else if not (prepare_ok select_query db)
      then exited
      else load_rows (rows db) stats
