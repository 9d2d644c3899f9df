-- ===== src/App/Blacklist/Stats.antt =====
-- What SQLite documents of the three statements on a table whose key is ipaddr.
use http_file_sharing.Prelude.{◌≡◌, true, none, some, if◌then◌else◌, Bytes, bytes_eq}
use http_file_sharing.Prelude.Int.{ℤ}
use http_file_sharing.Prelude.Dict.{find}
use http_file_sharing.App.Blacklist.{Sqlite, insert_query, update_query}

-- An INSERT of a key that is not there adds its row, an UPDATE of a key that is there changes its
-- row, and the other rows stay; both only if the step is done.
pub record IsStats (sql : Sqlite) : Type 0 where
  pub inserted :
      (ip j : Bytes) (score : ℤ) (db : sql.Db)
      → sql.step_done insert_query score ip db ≡ true
      → find ip (sql.rows db) ≡ none
      → find j (sql.rows (sql.step insert_query score ip db))
        ≡ (if bytes_eq ip j then some score else find j (sql.rows db))
  pub updated :
      (ip j : Bytes) (score old : ℤ) (db : sql.Db)
      → sql.step_done update_query score ip db ≡ true
      → find ip (sql.rows db) ≡ some old
      → find j (sql.rows (sql.step update_query score ip db))
        ≡ (if bytes_eq ip j then some score else find j (sql.rows db))
