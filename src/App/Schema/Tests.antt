-- ===== src/App/Schema/Tests.antt =====
-- Databases that note the queries that are run.
use http_file_sharing.Prelude.{
  ◌≡◌, arith, Bool, Option, none, some, map, bytes_eq, ◌||◌, refl, true, false, List, [], ◌∷◌, ◌++◌,
  Bytes, codes, lit,
}
use http_file_sharing.Prelude.Dict.{find, emplace}
use http_file_sharing.App.Schema.{
  DbColInfo, DbTable, SchemaDb, create_table_query, col_texts, expected_schema, does_column_exist,
  add_column_query, col_text, get_cols_for_table, read_tables, get_actual_db_schema, add_column,
  add_missing, check_tables, check_add_missing_columns,
}
use http_file_sharing.App.Schema.Complete.{has}
use http_file_sharing.App.Schema.Settled.{names_in, IsSchemaDb, check_settles}

-- The tables and columns do not change, and each query fails.
abbrev noting : List Bytes → List (Bytes × Bytes) → SchemaDb
noting names cols = record {
  Db = List Bytes;
  table_names = λ db. names;
  table_info = λ table db. cols;
  exec_query = λ query db. (false, db ++ query ∷ []);
}

abbrev ipaddr_col : Bytes × Bytes
ipaddr_col = (codes "ipaddr", codes "TEXT")

abbrev count_info : DbColInfo
count_info = record {
  name = codes "count";
  type_of = codes "INTEGER";
  constraint = codes "DEFAULT 0";
}

abbrev count_col : Bytes × Bytes
count_col = (codes "count", codes "INTEGER")

-- Only the missing column is added.
add_count :
    check_add_missing_columns (noting (codes "stats" ∷ []) (ipaddr_col ∷ [])) expected_schema []
    ≡ (codes "ALTER TABLE stats ADD count INTEGER DEFAULT 0" ∷ [], true)
unfolding check_add_missing_columns check_tables get_actual_db_schema read_tables get_cols_for_table
    add_missing does_column_exist add_column add_column_query col_text lit find emplace
add_count = refl

-- The columns of the stats table, if it is there: it can be made once, and a column `count` can be
-- added.
abbrev stats_cols : DbTable
stats_cols =
    record { name = codes "ipaddr"; type_of = codes "TEXT"; constraint = codes "PRIMARY KEY" }
    ∷ count_info
    ∷ []

abbrev StatsDb : Type 0
StatsDb = Option (List (Bytes × Bytes))

abbrev run_query : Bool → Bool → StatsDb → Bool × StatsDb
run_query true add none = (true, some (ipaddr_col ∷ count_col ∷ []))
run_query false add none = (false, none)
run_query create true (some cols) = (true, some (count_col ∷ cols))
run_query create false (some cols) = (false, some cols)

abbrev stats_names : StatsDb → List Bytes
stats_names none = []
stats_names (some cols) = codes "stats" ∷ []

abbrev stats_info : StatsDb → List (Bytes × Bytes)
stats_info none = []
stats_info (some cols) = cols

abbrev stats_sql : SchemaDb
stats_sql = record {
  Db = StatsDb;
  table_names = stats_names;
  table_info = λ table db. stats_info db;
  exec_query = λ query db.
      run_query (bytes_eq query (create_table_query (codes "stats") stats_cols))
        (bytes_eq query (add_column_query (codes "stats") count_info)) db;
}

stats_sql-IsSchemaDb : IsSchemaDb stats_sql (codes "stats") stats_cols
unfolding add_column_query create_table_query col_texts col_text lit
stats_sql-IsSchemaDb = record { created = created; altered = (fails, (adds, tt)) }
  where
    created :
        (db : StatsDb)
        → (stats_sql.exec_query (create_table_query (codes "stats") stats_cols) db).0 ≡ true
        → let db' = (stats_sql.exec_query (create_table_query (codes "stats") stats_cols) db).1 in
          (has (codes "stats") (stats_names db') ≡ true)
          × (names_in stats_sql (codes "stats") db' ≡ map (λ col. col.name) stats_cols)
    created none e = (refl, refl)
    created (some cols) e = ground arith

    fails :
        (db : StatsDb)
        → (run_query false false db).0 ≡ true
        → (has (codes "stats") (stats_names (run_query false false db).1)
            ≡ has (codes "stats") (stats_names db))
          × ((name : Bytes)
              → has name (map (λ col. col.0) (stats_info (run_query false false db).1))
                ≡ (bytes_eq (codes "ipaddr") name || has name (map (λ col. col.0) (stats_info db))))
    fails none e = ground arith
    fails (some cols) e = ground arith

    adds :
        (db : StatsDb)
        → (run_query false true db).0 ≡ true
        → (has (codes "stats") (stats_names (run_query false true db).1)
            ≡ has (codes "stats") (stats_names db))
          × ((name : Bytes)
              → has name (map (λ col. col.0) (stats_info (run_query false true db).1))
                ≡ (bytes_eq (codes "count") name || has name (map (λ col. col.0) (stats_info db))))
    adds none e = ground arith
    adds (some cols) e = (refl, λ name. refl)

check_settles_example :
    let db' =
      (check_add_missing_columns stats_sql
        ((codes "stats", stats_cols) ∷ [])
        (some (ipaddr_col ∷ []))).0 in
    check_add_missing_columns stats_sql ((codes "stats", stats_cols) ∷ []) db' ≡ (db', true)
unfolding add_column_query create_table_query col_texts col_text lit does_column_exist
    get_cols_for_table
check_settles_example =
    check_settles stats_sql (codes "stats") stats_cols (some (ipaddr_col ∷ [])) stats_sql-IsSchemaDb
      (refl, tt)
