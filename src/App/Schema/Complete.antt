-- ===== src/App/Schema/Complete.antt =====
-- Which queries the check runs.
use http_file_sharing.Prelude.{
  ◌≡◌, refl, ap, ◌∙◌, Bool, true, false, ◌||◌, none, some, List, [], ◌∷◌, map, arith, if◌then◌else◌,
  All, Bytes, codes, lit, bytes_eq, bytes_eq_sound,
}
use http_file_sharing.Prelude.Dict.{find, emplace, or_else, find-emplace}
use http_file_sharing.App.Schema.{
  DbTable, DbSchema, SchemaDb, expected_schema, does_column_exist, col_text, col_texts,
  create_table_query, get_cols_for_table, read_tables, get_actual_db_schema, create_table,
  add_missing, check_table, check_tables, check_add_missing_columns,
}

-- A name is among others.
abbrev pub has : Bytes → List Bytes → Bool
has name [] = false
has name (other ∷ names) = bytes_eq other name || has name names

module _ (sql : SchemaDb) where
  open sql use {Db, table_names, table_info, exec_query}

  same_cols :
      (db : Db) (it table : Bytes)
      → bytes_eq it table ≡ true
      → get_cols_for_table sql db it ≡ get_cols_for_table sql db table
  same_cols db it table e = ap (get_cols_for_table sql db) (bytes_eq_sound it table e)

  pub read_tables-find :
      (db : Db) (table : Bytes) (names : List Bytes) (actual : DbSchema)
      → find table (read_tables sql db names actual)
        ≡ or_else
            (find table actual)
            (if has table names then some (get_cols_for_table sql db table) else none)
  unfolding read_tables
  read_tables-find db table [] actual = ground arith
  read_tables-find db table (it ∷ names) actual =
      read_tables-find db table names (emplace it (get_cols_for_table sql db it) actual)
      ∙ ground (
        arith,
        find-emplace it table (get_cols_for_table sql db it) actual,
        same_cols db it table,
      )

  pub column_names :
      (db : Db) (table name : Bytes)
      → does_column_exist (get_cols_for_table sql db table) name
        ≡ has name (map (λ col. col.0) (table_info table db))
  unfolding get_cols_for_table does_column_exist
  column_names db table name = columns (table_info table db)
    where
      columns :
          (cols : List (Bytes × Bytes))
          → does_column_exist
              (map (λ col. record { name = col.0; type_of = col.1; constraint = [] }) cols)
              name
            ≡ has name (map (λ col. col.0) cols)
      columns [] = refl
      columns (col ∷ cols) = ap (λ t. bytes_eq (col.0) name || t) (columns cols)

  -- The table is there with each of the columns.
  abbrev pub IsCovered : Db → Bytes × DbTable → Type 0
  IsCovered db (table, cols) =
      (has table (table_names db) ≡ true)
      × All (λ col. has col.name (map (λ c. c.0) (table_info table db)) ≡ true) cols

  add_missing_none :
      (db : Db) (table_name : Bytes) (actual cols : DbTable)
      → All (λ col. does_column_exist actual col.name ≡ true) cols
      → add_missing sql table_name actual cols db ≡ db
  unfolding add_missing
  add_missing_none db table_name actual [] h = refl
  add_missing_none db table_name actual (col ∷ cols) h =
      rw (h.0) (add_missing_none db table_name actual cols (h.1))

  check_tables_none :
      (db : Db) (expected : DbSchema)
      → All (IsCovered db) expected
      → check_tables sql (get_actual_db_schema sql db) expected db ≡ db
  unfolding check_tables check_table get_actual_db_schema find
  check_tables_none db [] h = refl
  check_tables_none db ((table, cols) ∷ expected) h =
      let there : find table (read_tables sql db (table_names db) [])
          ≡ some (get_cols_for_table sql db table) =
        read_tables-find db table (table_names db) [] ∙ rw (h.0.0) in
      rw
        (
          there,
          add_missing_none db table (get_cols_for_table sql db table) cols (named cols (h.0.1)),
        )
        (check_tables_none db expected (h.1))
    where
      named :
          (cols : DbTable)
          → All (λ col. has col.name (map (λ c. c.0) (table_info table db)) ≡ true) cols
          → All (λ col. does_column_exist (get_cols_for_table sql db table) col.name ≡ true) cols
      named [] h = tt
      named (col ∷ cols) h = (column_names db table col.name ∙ h.0, named cols (h.1))

  -- A database that has every expected table with every expected column is left as it is: no query
  -- is run, and the check succeeds.
  pub check_nothing_missing :
      (expected : DbSchema) (db : Db)
      → All (IsCovered db) expected
      → check_add_missing_columns sql expected db ≡ (db, true)
  unfolding check_add_missing_columns
  check_nothing_missing expected db h = ap (λ d. (d, true)) (check_tables_none db expected h)

  -- In a database without tables the check runs one query, which creates the stats table with its
  -- two columns, and reports success whether the query fails or not.
  pub check_fresh :
      (db : Db)
      → table_names db ≡ []
      → check_add_missing_columns sql expected_schema db ≡ (
        (exec_query
            (codes "CREATE TABLE stats (ipaddr TEXT PRIMARY KEY, count INTEGER DEFAULT 0);")
            db).1,
        true,
      )
  unfolding check_add_missing_columns check_tables check_table get_actual_db_schema read_tables
      create_table create_table_query col_texts col_text lit find
  check_fresh db e = rw (e, check_add_missing_columns)
