-- ===== src/App/Main.antt =====
-- src/main.cpp, with init_loguru and init_db of src/app/init/init.cpp: from the command line to the
-- beginning of server_loop. The working directory counts, since names of files are looked up from it.
pub mod Begins
pub mod Files
pub mod Sample
pub mod Scores
pub mod Tests
use http_file_sharing.Prelude.{
  ℕ, zero, suc, ◌+◌, ◌-◌, ◌*◌, ◌/◌, ◌%◌, ◌^◌, ◌≤◌, ◌<◌, ◌≡◌, refl, sym, ap, ◌∙◌, ◌≢◌, ◌↔◌, ◌⊎◌, inl,
  inr, Bool, true, false, not, ◌&&◌, ◌||◌, Option, none, some, List, [], ◌∷◌, ◌++◌, map,
  append_assoc, append-nil, arith, ltb, leb, ◌==◌, if◌then◌else◌, Bool-cases, Option-cases,
  some_inj, of_some, none-ne-some, ◌>>=◌, length, get_or, take, drop, replicate, length-append,
  length-replicate, length-drop, length-take, take_all, drop_all, take-append-drop,
  take-append_left, drop-append_left, All, All-append, Bytes, codes, lit, bytes_eq, bytes_eq_sound,
  bytes_eq_refl, bytes_eq_sym, bytes_eq_ne, Lacks, is_empty, starts_with, decimal, IsDigit, value,
  decimal_digits, value-decimal,
}
use http_file_sharing.Prelude.Int.{ℤ, pos}
use http_file_sharing.Tcp.Net.{NetApi}
use http_file_sharing.Tcp.Server.{TcpServer}
use http_file_sharing.Filesys.{FileSystem}
use http_file_sharing.App.Options.Print.{print_values}
use http_file_sharing.App.Options.{
  ProgOptions, default_options, Libc, Parsed, parsed, help_shown, not_a_number, out_of_range,
  to_unsigned, parse_options,
}
use http_file_sharing.App.Blacklist.{
  Sqlite, Outcome, done, exited, thrown, StatsList, init_blacklist,
}
use http_file_sharing.App.Schema.{SchemaDb, expected_schema, check_add_missing_columns}
use http_file_sharing.App.Server.{Running, server_begin}

-- SQLite, as the schema check and the blacklist use it on one database.
pub record Database : Type 1 where
  pub sql : Sqlite
  pub table_names : sql.Db → List Bytes
  pub table_info : Bytes → sql.Db → List (Bytes × Bytes)
  pub exec_query : Bytes → sql.Db → Bool × sql.Db

abbrev pub schema_db : Database → SchemaDb
schema_db d = record {
  Db = d.sql.Db;
  table_names = d.table_names;
  table_info = d.table_info;
  exec_query = d.exec_query;
}

-- The operating system, as far as names go. A working directory is the text that
-- std::filesystem::current_path returns. For a working directory: the file that a name stands for;
-- the working directory after a change to a directory, `none` on an error; and the file system as it
-- is asked for by names.
pub record Host : Type 1 where
  pub File : Type 0
  pub same_file : File → File → Bool
  pub resolve : Bytes → Bytes → File
  pub chdir : Bytes → Bytes → Option Bytes
  pub files : Bytes → FileSystem

abbrev pub is_absolute : Bytes → Bool
is_absolute [] = false
is_absolute (c ∷ name) = c == b'/'

abbrev pub is_relative : Bytes → Bool
is_relative [] = false
is_relative (c ∷ name) = not (c == b'/')

-- init_loguru, without the library
pub init_loguru : ProgOptions → ProgOptions
init_loguru opts =
    if is_empty opts.log_file then record opts { log_file = codes "http-server.log" } else opts

-- The name of the database in init_db.
pub db_file_name : ProgOptions → ProgOptions
db_file_name opts =
    if is_empty opts.db_file then record opts { db_file = codes "http-server.db" } else opts

module _ (host : Host) (d : Database) where
  open host use {File, same_file, resolve, chdir}

  -- The databases, file by file.
  abbrev pub Databases : Type 0
  Databases = File → d.sql.Db

  abbrev pub put : File → d.sql.Db → Databases → Databases
  put file db databases other = if same_file file other then db else databases other

  -- What main has when it calls server_loop.
  pub record Ready : Type 0 where
    pub opts : ProgOptions
    pub cwd : Bytes
    pub databases : Databases
    pub stats : StatsList
    -- what main prints before it serves
    pub printed : Bytes
    pub executable_file_name : Bytes

  -- How main goes on: it returns, exit is called, an exception is not caught, or a read is undefined;
  -- or it gets to server_loop.
  pub data Main : Type 0 where
    returns exits : ℕ → Main
    uncaught : Main
    undefined_read : Main
    ready : Ready → Main

  -- The end of init_db.
  db_checked : ProgOptions → File → Databases → d.sql.Db × Bool → Outcome (ProgOptions × Databases)
  db_checked opts file databases (db, true) = done (opts, put file db databases)
  db_checked opts file databases (db, false) = exited

  pub init_db : Bytes → ProgOptions → Databases → Outcome (ProgOptions × Databases)
  unfolding db_checked db_file_name
  init_db cwd opts databases =
      let opts' = db_file_name opts in
      let file = resolve cwd opts'.db_file in
      if not (d.sql.can_open (databases file))
      then thrown
      else db_checked opts' file databases
          (check_add_missing_columns (schema_db d) expected_schema (databases file))

  -- The part of main that sets the working directory; `none` is its error.
  pub working_directory : Bytes → ProgOptions → Option (Bytes × ProgOptions)
  working_directory cwd opts =
      if not (bytes_eq opts.dir (codes "."))
      then (chdir cwd opts.dir >>= λ changed. some (changed, opts))
      else some (cwd, record opts { dir = cwd })

  -- main behind that part.
  main_placed : Bytes → Databases → StatsList → Option (Bytes × ProgOptions) → Main
  main_placed program databases stats none = returns 1
  main_placed program databases stats (some (cwd, opts)) = ready (record {
    opts = opts;
    cwd = cwd;
    databases = databases;
    stats = stats;
    printed = print_values opts;
    executable_file_name = program;
  })

  -- main behind init_blacklist.
  main_loaded : Bytes → Bytes → ProgOptions → Databases → Outcome StatsList → Main
  unfolding main_placed working_directory
  main_loaded program cwd opts databases (done stats) =
      main_placed program databases stats (working_directory cwd opts)
  main_loaded program cwd opts databases exited = exits 1
  main_loaded program cwd opts databases thrown = uncaught

  -- main behind init_db.
  main_checked : Bytes → Bytes → Outcome (ProgOptions × Databases) → Main
  unfolding main_loaded
  main_checked program cwd (done (opts, databases)) =
      main_loaded program cwd opts databases
        (init_blacklist d.sql (databases (resolve cwd opts.db_file)) [])
  main_checked program cwd exited = exits 1
  main_checked program cwd thrown = uncaught

  -- main behind the command line.
  main_parsed : Bytes → Bytes → Databases → Parsed → Main
  unfolding main_checked init_db init_loguru
  main_parsed program cwd databases (parsed opts true) =
      main_checked program cwd (init_db cwd (init_loguru opts) databases)
  main_parsed program cwd databases (parsed opts false) = returns 1
  main_parsed program cwd databases help_shown = exits 0
  main_parsed program cwd databases not_a_number = uncaught
  main_parsed program cwd databases out_of_range = undefined_read

  -- main up to server_loop, for the name of the program and the arguments behind it.
  unfoldable pub main_begin : Libc → Bytes → List Bytes → Bytes → Databases → Main
  unfolding main_parsed
  main_begin libc program args cwd databases =
      main_parsed program cwd databases (parse_options libc default_options (program ∷ args))

  -- The database that the handlers open.
  abbrev pub live_db : Ready → d.sql.Db
  live_db r = r.databases (resolve r.cwd r.opts.db_file)

  -- The call of server_loop, up to its loop.
  unfoldable pub main_serve :
      (net : NetApi) (fuel : ℕ) (r : Ready)
      → net.State
      → Option (TcpServer × Running net d.sql r.opts (host.files r.cwd) r.executable_file_name fuel)
  main_serve net fuel r sock =
      server_begin net d.sql r.opts (host.files r.cwd) r.executable_file_name fuel r.opts.port
        (pos (to_unsigned r.opts.tcp_backlog_size)) r.opts.tpool_size r.stats (live_db r) sock
