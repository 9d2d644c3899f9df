-- ===== src/App/Main/Begins.antt =====
-- What is known when main gets to server_loop.
use http_file_sharing.Prelude.{
  ◌≡◌, refl, sym, ap, ◌∙◌, Bool, true, false, not, Option, none, some, List, [], ◌∷◌, arith,
  if◌then◌else◌, Bytes,
}
use mathlib.Core.Path.{subst}
use http_file_sharing.App.Options.{ProgOptions, default_options, Libc, parsed, parse_options}
use http_file_sharing.App.Blacklist.{Outcome, done, exited, thrown, StatsList, init_blacklist}
use http_file_sharing.App.Schema.{expected_schema, check_add_missing_columns}
use http_file_sharing.App.Main.{
  Database, Host, schema_db, init_loguru, db_file_name, Ready, Main, returns, exits, uncaught,
  undefined_read, ready, Databases, init_db, db_checked, working_directory, main_placed,
  main_loaded, main_checked, main_parsed, main_begin,
}

-- The options once the names of the log and of the database are set.
abbrev pub named : ProgOptions → ProgOptions
named opts = db_file_name (init_loguru opts)

pub named-dir : (opts : ProgOptions) → (named opts).dir ≡ opts.dir
unfolding init_loguru db_file_name
named-dir opts = ground arith

module _ (host : Host) (d : Database) where
  -- The scores and the options that main hands to server_loop.
  abbrev pub Begins : Bytes → ProgOptions → Ready host d → Type 0
  Begins cwd opts r =
      (init_blacklist d.sql (r.databases (host.resolve cwd opts.db_file)) [] ≡ done r.stats)
      × (working_directory host d cwd opts ≡ some (r.cwd, r.opts))

  abbrev IfReady : (Ready host d → Type 0) → Main host d → Type 0
  IfReady P (ready r) = P r
  IfReady P (returns n) = Unit
  IfReady P (exits n) = Unit
  IfReady P uncaught = Unit
  IfReady P undefined_read = Unit

  abbrev IfDone : {A : Type 0} → (A → Type 0) → Outcome A → Type 0
  IfDone P (done a) = P a
  IfDone P exited = Unit
  IfDone P thrown = Unit

  placed :
      (program cwd : Bytes) (opts : ProgOptions) (databases : Databases host d) (stats : StatsList)
      (place : Option (Bytes × ProgOptions))
      → init_blacklist d.sql (databases (host.resolve cwd opts.db_file)) [] ≡ done stats
      → working_directory host d cwd opts ≡ place
      → IfReady (Begins cwd opts) (main_placed host d program databases stats place)
  unfolding main_placed
  placed program cwd opts databases stats none e w = tt
  placed program cwd opts databases stats (some (cwd', opts')) e w = (e, w)

  loaded :
      (program cwd : Bytes) (opts : ProgOptions) (databases : Databases host d)
      (result : Outcome StatsList)
      → init_blacklist d.sql (databases (host.resolve cwd opts.db_file)) [] ≡ result
      → IfReady (Begins cwd opts) (main_loaded host d program cwd opts databases result)
  unfolding main_loaded
  loaded program cwd opts databases (done stats) e =
      placed program cwd opts databases stats (working_directory host d cwd opts) e refl
  loaded program cwd opts databases exited e = tt
  loaded program cwd opts databases thrown e = tt

  checked_name :
      (opts : ProgOptions) (file : host.File) (databases : Databases host d) (x : d.sql.Db × Bool)
      → IfDone (λ r. r.0 ≡ opts) (db_checked host d opts file databases x)
  unfolding db_checked
  checked_name opts file databases (db, true) = refl
  checked_name opts file databases (db, false) = tt

  init_db_name :
      (cwd : Bytes) (opts : ProgOptions) (databases : Databases host d)
      → IfDone (λ r. r.0 ≡ db_file_name opts) (init_db host d cwd opts databases)
  unfolding init_db
  init_db_name cwd opts databases =
      let opts' = db_file_name opts in
      let file = host.resolve cwd opts'.db_file in
      go opts' file (d.sql.can_open (databases file))
        (check_add_missing_columns (schema_db d) expected_schema (databases file))
    where
      go :
          (opts' : ProgOptions) (file : host.File) (b : Bool) (x : d.sql.Db × Bool)
          → IfDone
              (λ r. r.0 ≡ opts')
              (if not b then thrown else db_checked host d opts' file databases x)
      go opts' file true x = checked_name opts' file databases x
      go opts' file false x = tt

  checked :
      (program cwd : Bytes) (opts : ProgOptions) (result : Outcome (ProgOptions × Databases host d))
      → IfDone (λ r. r.0 ≡ opts) result
      → IfReady (Begins cwd opts) (main_checked host d program cwd result)
  unfolding main_checked
  checked program cwd opts (done (opts', databases)) e =
      subst
        (λ o. IfReady (Begins cwd o) (main_checked host d program cwd (done (opts', databases)))) e
        (loaded program cwd opts' databases
          (init_blacklist d.sql (databases (host.resolve cwd opts'.db_file)) []) refl)
  checked program cwd opts exited e = tt
  checked program cwd opts thrown e = tt

  -- Where main gets to server_loop after the options `opts`.
  pub main_begin-Begins :
      (libc : Libc) (program : Bytes) (args : List Bytes) (cwd : Bytes)
      (databases : Databases host d) (opts : ProgOptions) {r : Ready host d}
      → parse_options libc default_options (program ∷ args) ≡ parsed opts true
      → main_begin host d libc program args cwd databases ≡ ready r
      → Begins cwd (named opts) r
  unfolding main_begin main_parsed
  main_begin-Begins libc program args cwd databases opts e h =
      subst (IfReady (Begins cwd (named opts)))
        (sym (ap (main_parsed host d program cwd databases) e) ∙ h)
        (checked program cwd (named opts) (init_db host d cwd (init_loguru opts) databases)
          (init_db_name cwd (init_loguru opts) databases))
