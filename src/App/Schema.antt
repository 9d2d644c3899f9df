-- ===== src/App/Schema.antt =====
-- src/app/init/init.cpp and src/app/init/db_defaults.cpp: at the start, missing tables and columns
-- are added to the database. Log output is left out.
pub mod Complete
pub mod Settled
pub mod Tests
use http_file_sharing.Prelude.{
  ℕ, zero, suc, ◌+◌, ◌-◌, ◌*◌, ◌/◌, ◌%◌, ◌^◌, ◌≤◌, ◌<◌, ◌≡◌, refl, sym, ap, ◌∙◌, ◌≢◌, ◌↔◌, ◌⊎◌, inl,
  inr, Bool, true, false, not, ◌&&◌, ◌||◌, Option, none, some, List, [], ◌∷◌, ◌++◌, map,
  append_assoc, append-nil, arith, ltb, leb, ◌==◌, if◌then◌else◌, Bool-cases, Option-cases, ◌>>=◌,
  length, get_or, take, drop, replicate, length-append, length-replicate, length-drop, length-take,
  take_all, drop_all, take-append-drop, take-append_left, drop-append_left, All, All-append, Bytes,
  codes, lit, bytes_eq, bytes_eq_sound, bytes_eq_refl, bytes_eq_sym, bytes_eq_ne, Lacks, is_empty,
  starts_with, decimal, IsDigit, value, decimal_digits, value-decimal,
}
use http_file_sharing.Prelude.Dict.{find, emplace}

-- db_col_info_t: the name, the type and the constraints of a column.
pub record DbColInfo : Type 0 where
  pub name : Bytes
  pub type_of : Bytes
  pub constraint : Bytes

abbrev pub DbTable : Type 0
DbTable = List DbColInfo

-- db_schema_t, in the order of the map.
abbrev pub DbSchema : Type 0
DbSchema = List (Bytes × DbTable)

-- What the check asks of SQLite: the names of the tables of sqlite_master; the name and the type of
-- each column that table_info gives for a table; and what exec_query does, with whether it succeeds.
pub record SchemaDb : Type 1 where
  pub Db : Type 0
  pub table_names : Db → List Bytes
  pub table_info : Bytes → Db → List (Bytes × Bytes)
  pub exec_query : Bytes → Db → Bool × Db

-- _add_info_of_stats and _get_expected_db_schema
abbrev pub expected_schema : DbSchema
expected_schema =
    (
      codes "stats",
      record { name = codes "ipaddr"; type_of = codes "TEXT"; constraint = codes "PRIMARY KEY" }
          ∷ record {
            name = codes "count";
            type_of = codes "INTEGER";
            constraint = codes "DEFAULT 0";
          }
          ∷ [],
    )
    ∷ []

-- _does_column_exist
pub does_column_exist : DbTable → Bytes → Bool
does_column_exist [] col_name = false
does_column_exist (it ∷ table) col_name =
    bytes_eq it.name col_name || does_column_exist table col_name

-- A column in a query.
pub col_text : DbColInfo → Bytes
col_text col = col.name ++ (lit " " ++ (col.type_of ++ (lit " " ++ col.constraint)))

-- The query of _add_column.
pub add_column_query : Bytes → DbColInfo → Bytes
unfolding col_text
add_column_query table_name col =
    lit "ALTER TABLE " ++ (table_name ++ (lit " ADD " ++ col_text col))

-- The loop of _create_table; the flag is `is_first`.
pub col_texts : Bool → DbTable → Bytes
unfolding col_text
col_texts is_first [] = []
col_texts is_first (it ∷ table) =
    (if is_first then [] else lit ", ") ++ (col_text it ++ col_texts false table)

-- The query of _create_table.
pub create_table_query : Bytes → DbTable → Bytes
unfolding col_texts
create_table_query table_name table =
    lit "CREATE TABLE " ++ (table_name ++ (lit " (" ++ (col_texts true table ++ lit ");")))

module _ (sql : SchemaDb) where
  open sql use {Db, table_names, table_info, exec_query}

  -- _get_cols_for_table: the constraints are left blank.
  pub get_cols_for_table : Db → Bytes → DbTable
  get_cols_for_table db table =
      map (λ col. record { name = col.0; type_of = col.1; constraint = [] }) (table_info table db)

  -- The loop of _get_actual_db_schema over the names of the tables, with _get_db_tables_list; an
  -- insert into the map keeps the first table of a name.
  pub read_tables : Db → List Bytes → DbSchema → DbSchema
  unfolding get_cols_for_table
  read_tables db [] actual = actual
  read_tables db (it ∷ tables) actual =
      read_tables db tables (emplace it (get_cols_for_table db it) actual)

  pub get_actual_db_schema : Db → DbSchema
  unfolding read_tables
  get_actual_db_schema db = read_tables db (table_names db) []

  -- _add_column and _create_table, whose results nothing reads.
  pub add_column : Bytes → DbColInfo → Db → Db
  unfolding add_column_query
  add_column table_name col db = (exec_query (add_column_query table_name col) db).1

  pub create_table : Bytes → DbTable → Db → Db
  unfolding create_table_query
  create_table table_name table db = (exec_query (create_table_query table_name table) db).1

  -- The inner loop of _check_add_missing_columns.
  pub add_missing : Bytes → DbTable → DbTable → Db → Db
  unfolding does_column_exist add_column
  add_missing table_name actual [] db = db
  add_missing table_name actual (col ∷ cols) db =
      add_missing table_name actual cols
        (if does_column_exist actual col.name then db else add_column table_name col db)

  -- One turn of its outer loop, with what `actual.find` gave.
  pub check_table : Bytes → DbTable → Option DbTable → Db → Db
  unfolding add_missing create_table
  check_table table_name cols (some result) db = add_missing table_name result cols db
  check_table table_name cols none db = create_table table_name cols db

  -- Its outer loop.
  pub check_tables : DbSchema → DbSchema → Db → Db
  unfolding check_table
  check_tables actual [] db = db
  check_tables actual ((table_name, cols) ∷ expected) db =
      check_tables actual expected (check_table table_name cols (find table_name actual) db)

  -- _check_add_missing_columns, whose result is true, and init_db.
  unfoldable pub check_add_missing_columns : DbSchema → Db → Db × Bool
  unfolding check_tables get_actual_db_schema
  check_add_missing_columns expected db = (check_tables (get_actual_db_schema db) expected db, true)
