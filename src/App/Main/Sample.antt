-- ===== src/App/Main/Sample.antt =====
-- A host with a few directories, and a database that is a list of rows, for the runs of main.
use http_file_sharing.Prelude.{
  ◌≡◌, refl, Bool, true, false, not, Option, none, some, [], ◌∷◌, ◌++◌, append_assoc, arith, ◌==◌,
  if◌then◌else◌, of_some, Bytes, codes, bytes_eq,
}
use http_file_sharing.Filesys.Tests.{small_dir}
use http_file_sharing.Prelude.Int.{ℤ}
use http_file_sharing.App.Blacklist.{StatsList, insert_query, update_query}
use http_file_sharing.App.Blacklist.Stats.{IsStats}
use http_file_sharing.App.Blacklist.Tests.{row_list-IsStats}
use http_file_sharing.App.Main.{Database, Host, is_absolute, is_relative}
use http_file_sharing.App.Main.Files.{IsHost}
use http_file_sharing.Prelude.Dict.{find, emplace, assign}

abbrev go_to : Bytes → Bytes → Option Bytes
go_to cwd [] = none
go_to cwd (c ∷ dir) = some (if c == b'/' then c ∷ dir else cwd ++ b'/' ∷ c ∷ dir)

-- A file is its absolute name.
abbrev pub name_host : Host
name_host = record {
  File = Bytes;
  same_file = bytes_eq;
  resolve = λ cwd name. if is_absolute name then name else cwd ++ b'/' ∷ name;
  chdir = go_to;
  files = λ cwd. small_dir;
}

pub name_host-IsHost : IsHost name_host
name_host-IsHost = record {
  absolute = λ cwd cwd' name h. rw h refl;
  relative = relative;
  changed = changed;
}
  where
    relative :
        (cwd name : Bytes)
        → is_absolute cwd ≡ true
        → is_relative name ≡ true
        → name_host.resolve cwd name ≡ name_host.resolve cwd (cwd ++ b'/' ∷ name)
    relative cwd [] root h = ground (arith, h)
    relative [] name root h = ground (arith, root)
    relative (b ∷ cwd) (c ∷ name) root h = rw (root) (ground (arith, h))

    changed :
        (cwd dir name : Bytes) {cwd' : Bytes}
        → name_host.chdir cwd dir ≡ some cwd'
        → is_relative name ≡ true
        → name_host.resolve cwd' name ≡ name_host.resolve cwd (dir ++ b'/' ∷ name)
    changed cwd [] name e h = ground (arith, e)
    changed cwd dir [] e h = ground (arith, h)
    changed cwd (b ∷ dir) (c ∷ name) e h =
        of_some
          (λ cwd'.
            name_host.resolve cwd' (c ∷ name) ≡ name_host.resolve cwd (b ∷ dir ++ b'/' ∷ c ∷ name))
          _ _ e (go (b == b'/') (c == b'/') h)
      where
        go :
            (s t : Bool)
            → not t ≡ true
            → (if t
                then c ∷ name
                else (if s then b ∷ dir else cwd ++ b'/' ∷ b ∷ dir) ++ b'/' ∷ c ∷ name)
              ≡ (if s
                  then b ∷ (dir ++ b'/' ∷ c ∷ name)
                  else cwd ++ b'/' ∷ b ∷ (dir ++ b'/' ∷ c ∷ name))
        go s true n = ground (arith, n)
        go true false n = refl
        go false false n = append_assoc cwd (b'/' ∷ b ∷ dir) (b'/' ∷ c ∷ name)

-- The rows of the stats table, if it is there.
abbrev rows_of : Option StatsList → StatsList
rows_of none = []
rows_of (some rows) = rows

abbrev has_table : Option StatsList → Bool
has_table none = false
has_table (some rows) = true

abbrev pub table_db : Database
table_db = record {
  sql = record {
    Db = Option StatsList;
    can_open = λ db. true;
    prepare_ok = λ query db. has_table db;
    bind_int_ok = λ query n score. true;
    bind_text_ok = λ query n ip. true;
    step_done = λ query score ip db. has_table db;
    step = λ query score ip db. elim db [
      | none ↦ none
      | some rows ↦
          some (if bytes_eq query insert_query then emplace ip score rows else assign ip score rows)
    ];
    rows = rows_of;
  };
  table_names = λ db. if has_table db then codes "stats" ∷ [] else [];
  table_info = λ table db.
      if has_table db
      then (codes "ipaddr", codes "TEXT") ∷ (codes "count", codes "INTEGER") ∷ []
      else [];
  exec_query = λ query db. if has_table db then (false, db) else (true, some []);
}

pub table_db-IsStats : IsStats table_db.sql
table_db-IsStats = record { inserted = inserted; updated = updated }
  where
    inserted :
        (ip j : Bytes) (score : ℤ) (db : Option StatsList)
        → table_db.sql.step_done insert_query score ip db ≡ true
        → find ip (rows_of db) ≡ none
        → find j (rows_of (table_db.sql.step insert_query score ip db))
          ≡ (if bytes_eq ip j then some score else find j (rows_of db))
    inserted ip j score none e h = ground (arith, e)
    inserted ip j score (some rows) e h = row_list-IsStats.inserted ip j score rows refl h

    updated :
        (ip j : Bytes) (score old : ℤ) (db : Option StatsList)
        → table_db.sql.step_done update_query score ip db ≡ true
        → find ip (rows_of db) ≡ some old
        → find j (rows_of (table_db.sql.step update_query score ip db))
          ≡ (if bytes_eq ip j then some score else find j (rows_of db))
    updated ip j score old none e h = ground (arith, e)
    updated ip j score old (some rows) e h = row_list-IsStats.updated ip j score old rows refl h
