-- ===== src/App/Schema/Settled.antt =====
-- What a check of the schema leaves for a second one.
use mathlib.Core.Path.{subst}
use http_file_sharing.Prelude.{
  ◌≡◌, refl, sym, ap, ◌∙◌, inl, inr, Bool, true, false, ◌||◌, none, some, List, [], ◌∷◌, map, arith,
  if◌then◌else◌, Bool-cases, All, Bytes, bytes_eq, bytes_eq_refl,
}
use http_file_sharing.Prelude.Dict.{find}
use http_file_sharing.App.Schema.{
  DbColInfo, DbTable, SchemaDb, does_column_exist, add_column_query, create_table_query,
  get_cols_for_table, read_tables, get_actual_db_schema, add_column, create_table, add_missing,
  check_table, check_tables, check_add_missing_columns,
}
use http_file_sharing.App.Schema.Complete.{
  has, read_tables-find, column_names, IsCovered, check_nothing_missing,
}

-- The names of the columns that table_info gives.
abbrev pub names_in : (sql : SchemaDb) → Bytes → sql.Db → List Bytes
names_in sql table db = map (λ col. col.0) (sql.table_info table db)

-- What SQL means by an ALTER TABLE that succeeds: a table that is there stays, with one column more.
abbrev pub Altered : (sql : SchemaDb) → Bytes → DbColInfo → Type 0
Altered sql table col =
    (db : sql.Db)
    → (sql.exec_query (add_column_query table col) db).0 ≡ true
    → let db' = (sql.exec_query (add_column_query table col) db).1 in
      (has table (sql.table_names db') ≡ has table (sql.table_names db))
      × ((name : Bytes)
          → has name (names_in sql table db')
            ≡ (bytes_eq col.name name || has name (names_in sql table db)))

-- What SQL means by the queries of the check of one table: a CREATE TABLE that succeeds leaves the
-- table with the columns that are listed; and what `Altered` says of each of its columns.
pub record IsSchemaDb (sql : SchemaDb) (table : Bytes) (cols : DbTable) : Type 0 where
  pub created :
      (db : sql.Db)
      → (sql.exec_query (create_table_query table cols) db).0 ≡ true
      → let db' = (sql.exec_query (create_table_query table cols) db).1 in
        (has table (sql.table_names db') ≡ true)
        × (names_in sql table db' ≡ map (λ col. col.name) cols)
  pub altered : All (Altered sql table) cols

module _ (sql : SchemaDb) where
  open sql use {Db, table_names, exec_query}

  -- Each query that adds a column succeeds.
  abbrev pub AddsSucceed : Bytes → DbTable → DbTable → Db → Type 0
  AddsSucceed table actual [] db = Unit
  AddsSucceed table actual (col ∷ cols) db = elim (does_column_exist actual col.name) [
    | true ↦ AddsSucceed table actual cols db
    | false ↦
        ((exec_query (add_column_query table col) db).0 ≡ true)
        × AddsSucceed table actual cols (exec_query (add_column_query table col) db).1
  ]

  -- Each query that the check runs for a table succeeds.
  abbrev pub QueriesSucceed : Bytes → DbTable → Db → Type 0
  QueriesSucceed table cols db = elim (has table (table_names db)) [
    | true ↦ AddsSucceed table (get_cols_for_table sql db table) cols db
    | false ↦ (exec_query (create_table_query table cols) db).0 ≡ true
  ]

  has-more :
      (cols : DbTable) (names : List Bytes) (name : Bytes)
      → All (λ col. has col.name names ≡ true) cols
      → All (λ col. has col.name (name ∷ names) ≡ true) cols
  has-more [] names name h = tt
  has-more (col ∷ cols) names name h = (ground (arith, h.0), has-more cols names name (h.1))

  has_self : (cols : DbTable) → All (λ col. has col.name (map (λ c. c.name) cols) ≡ true) cols
  has_self [] = tt
  has_self (col ∷ cols) =
      (rw (bytes_eq_refl col.name), has-more cols (map (λ c. c.name) cols) col.name (has_self cols))

  module _ (table : Bytes) where
    -- The columns that were read are still there.
    abbrev Known : DbTable → Db → Type 0
    Known actual db =
        (has table (table_names db) ≡ true)
        × ((name : Bytes)
            → does_column_exist actual name ≡ true
            → has name (names_in sql table db) ≡ true)

    -- Columns that are there stay, and those that were missing are there.
    abbrev Keeps : DbTable → Db → Db → Type 0
    Keeps cols db db' =
        (has table (table_names db') ≡ true)
        × ((name : Bytes)
            → has name (names_in sql table db) ≡ true
            → has name (names_in sql table db') ≡ true)
        × All (λ col. has col.name (names_in sql table db') ≡ true) cols

    add_missing-cons :
        (actual cols : DbTable) (col : DbColInfo) (db : Db) (exists : Bool)
        → does_column_exist actual col.name ≡ exists
        → add_missing sql table actual (col ∷ cols) db
          ≡ add_missing sql table actual cols
              (if exists then db else (exec_query (add_column_query table col) db).1)
    unfolding add_missing add_column
    add_missing-cons actual cols col db exists e = rw e

    add_missing-nil : (actual : DbTable) (db : Db) → add_missing sql table actual [] db ≡ db
    unfolding add_missing
    add_missing-nil actual db = refl

    moved :
        (cols : DbTable) (db : Db) {db1 db2 : Db}
        → db1 ≡ db2
        → Keeps cols db db2
        → Keeps cols db db1
    moved cols db e = subst (Keeps cols db) (sym e)

    add_missing-Keeps :
        (actual cols : DbTable) (db : Db)
        → All (Altered sql table) cols
        → Known actual db
        → AddsSucceed table actual cols db
        → Keeps cols db (add_missing sql table actual cols db)
    add_missing-Keeps actual [] db law k ok =
        rw (add_missing-nil actual db) (k.0, (λ name h. h), tt)
    add_missing-Keeps actual (col ∷ cols) db law k ok =
        elim (Bool-cases (does_column_exist actual col.name)) [
          | inl e ↦
              let (there, stay, rest) =
                add_missing-Keeps actual cols db (law.1) k (rw (e, AddsSucceed) at ok) in
              moved (col ∷ cols) db (add_missing-cons actual cols col db true e)
                (there, stay, (stay col.name (k.1 col.name e), rest))
          | inr e ↦
              let (ok0, ok1) = rw (e, AddsSucceed) at ok in
              let (same, named) = law.0 db ok0 in
              let db1 = (exec_query (add_column_query table col) db).1 in
              let more : (name : Bytes)
                  → has name (names_in sql table db) ≡ true
                  → has name (names_in sql table db1) ≡ true =
                λ name h. named name ∙ either (bytes_eq col.name name) _ h in
              let (there, stay, rest) =
                add_missing-Keeps actual cols db1 (law.1)
                  (same ∙ k.0, λ name h. more name (k.1 name h)) ok1 in
              moved (col ∷ cols) db (add_missing-cons actual cols col db false e) (
                there,
                (λ name h. stay name (more name h)),
                (stay col.name (named col.name ∙ rw (bytes_eq_refl col.name)), rest),
              )
        ]
      where
        either : (a b : Bool) → b ≡ true → (a || b) ≡ true
        either true b h = refl
        either false b h = h

    found :
        (db : Db)
        → find table (read_tables sql db (table_names db) [])
          ≡ (if has table (table_names db) then some (get_cols_for_table sql db table) else none)
    unfolding find
    found db = read_tables-find sql db table (table_names db) []

    check_one :
        (cols : DbTable) (db : Db) (exists : Bool)
        → has table (table_names db) ≡ exists
        → (check_add_missing_columns sql ((table, cols) ∷ []) db).0
          ≡ check_table sql table cols
              (if exists then some (get_cols_for_table sql db table) else none)
              db
    unfolding check_add_missing_columns check_tables get_actual_db_schema
    check_one cols db exists e =
        ap (λ result. check_table sql table cols result db) (found db ∙ rw e)

    check_there :
        (cols : DbTable) (db : Db)
        → has table (table_names db) ≡ true
        → (check_add_missing_columns sql ((table, cols) ∷ []) db).0
          ≡ add_missing sql table (get_cols_for_table sql db table) cols db
    unfolding check_table
    check_there cols db e = check_one cols db true e

    check_absent :
        (cols : DbTable) (db : Db)
        → has table (table_names db) ≡ false
        → (check_add_missing_columns sql ((table, cols) ∷ []) db).0
          ≡ (exec_query (create_table_query table cols) db).1
    unfolding check_table create_table
    check_absent cols db e = check_one cols db false e

    covered :
        (cols : DbTable) {db1 db2 : Db}
        → db1 ≡ db2
        → IsCovered sql db2 (table, cols)
        → IsCovered sql db1 (table, cols)
    covered cols e = subst (λ db. IsCovered sql db (table, cols)) (sym e)

    -- After a check for one table, whose queries succeed, the table has every column.
    check_covers :
        (cols : DbTable) (db : Db)
        → IsSchemaDb sql table cols
        → QueriesSucceed table cols db
        → IsCovered sql (check_add_missing_columns sql ((table, cols) ∷ []) db).0 (table, cols)
    check_covers cols db law ok = elim (Bool-cases (has table (table_names db))) [
      | inl e ↦
          let (there, stay, all) =
            add_missing-Keeps (get_cols_for_table sql db table) cols db law.altered
              (e, λ name h. sym (column_names sql db table name) ∙ h)
              (rw (e, QueriesSucceed) at ok) in
          covered cols (check_there cols db e) (there, all)
      | inr e ↦
          let (there, named) = law.created db (rw (e, QueriesSucceed) at ok) in
          covered cols (check_absent cols db e) (
            there,
            subst (λ names. All (λ col. has col.name names ≡ true) cols) (sym named)
                (has_self cols),
          )
    ]

    -- On a database that means by CREATE TABLE and ALTER TABLE what SQL means: when each query of a
    -- check for one table succeeds, a second check runs no query and reports success.
    pub check_settles :
        (cols : DbTable) (db : Db)
        → IsSchemaDb sql table cols
        → QueriesSucceed table cols db
        → let db' = (check_add_missing_columns sql ((table, cols) ∷ []) db).0 in
          check_add_missing_columns sql ((table, cols) ∷ []) db' ≡ (db', true)
    check_settles cols db law ok =
        check_nothing_missing sql ((table, cols) ∷ []) _ (check_covers cols db law ok, tt)
