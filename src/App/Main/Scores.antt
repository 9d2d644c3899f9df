-- ===== src/App/Main/Scores.antt =====
-- Which database the server keeps its scores in.
use http_file_sharing.Prelude.{
  ℕ, ◌≤◌, ◌≡◌, refl, sym, ap, ◌∙◌, ◌⊎◌, inl, inr, Bool, true, false, some, List, [], ◌∷◌, ◌++◌,
  arith, Bytes,
}
use mathlib.Core.Path.{subst}
use http_file_sharing.App.Blacklist.Score.{update_unprepared}
use http_file_sharing.Tcp.Net.{NetApi}
use http_file_sharing.Tcp.Server.{TcpServer}
use http_file_sharing.Tpool.{tpool_max_workers}
use http_file_sharing.App.Options.{ProgOptions, default_options, Libc, parsed, parse_options}
use http_file_sharing.App.Blacklist.{done, exited, init_blacklist, update_ip_addr_stats}
use http_file_sharing.App.Blacklist.Stats.{IsStats}
use http_file_sharing.App.Blacklist.Sync.{IsSynced, init_blacklist_sync}
use http_file_sharing.App.Server.{Running, ServerReach}
use http_file_sharing.App.Server.Scores.{IsServing}
use http_file_sharing.App.Server.Runs.{server_serves}
use http_file_sharing.App.Main.{
  Database, Host, is_absolute, is_relative, Ready, ready, Databases, live_db, main_begin,
  main_serve,
}
use http_file_sharing.App.Main.Begins.{named, Begins, main_begin-Begins}
use http_file_sharing.App.Main.Files.{IsHost, stays, place_kept, place_moved}

module _ (host : Host) (d : Database) (law : IsHost host) (libc : Libc) (program : Bytes)
    (args : List Bytes) (cwd : Bytes) (databases : Databases host d) (opts : ProgOptions) where
  -- The name of the database stands for the same file before and after the change of directory.
  same_database :
      (r : Ready host d)
      → Begins host d cwd (named opts) r
      → (stays opts ≡ true) ⊎ (is_absolute (named opts).db_file ≡ true)
      → host.resolve r.cwd r.opts.db_file ≡ host.resolve cwd (named opts).db_file
  same_database r (loaded, place) h = go h (stays opts) refl
    where
      go :
          (stays opts ≡ true) ⊎ (is_absolute (named opts).db_file ≡ true)
          → (b : Bool) → stays opts ≡ b
          → host.resolve r.cwd r.opts.db_file ≡ host.resolve cwd (named opts).db_file
      go h true here =
          let (c, o) = place_kept host d cwd opts r.opts here place in
          ap (host.resolve r.cwd) (ap (λ o. o.db_file) o)
          ∙ ap (λ c. host.resolve c (named opts).db_file) c
      go (inr abs) false away =
          let (went, o) = place_moved host d cwd opts r.opts away place in
          ap (host.resolve r.cwd) (ap (λ o. o.db_file) o)
          ∙ law.absolute r.cwd cwd (named opts).db_file abs
      go (inl here) false away = absurd (ground (arith, here, away))

  -- The server, from the command line on: when main, started with the served directory or with a
  -- database that stays the same file, gets to server_loop and the loop begins, then whatever the
  -- threads do, there are at most ten workers, the pool stays one that its own steps get it into,
  -- and the scores in the map agree with the stats table of the database.
  pub main_serves :
      (stats_law : IsStats d.sql) {r : Ready host d} (net : NetApi) (fuel : ℕ) (sock : net.State)
      (server : TcpServer)
      {start s : Running net d.sql r.opts (host.files r.cwd) r.executable_file_name fuel}
      → parse_options libc default_options (program ∷ args) ≡ parsed opts true
      → main_begin host d libc program args cwd databases ≡ ready r
      → (stays opts ≡ true) ⊎ (is_absolute (named opts).db_file ≡ true)
      → main_serve host d net fuel r sock ≡ some (server, start)
      → ServerReach net d.sql r.opts (host.files r.cwd) r.executable_file_name fuel server start s
      → (r.opts.tpool_size ≤ tpool_max_workers)
        × IsServing net d.sql r.opts
            (host.files r.cwd)
            r.executable_file_name
            fuel
            r.opts.tpool_size
            s
  unfolding main_serve
  main_serves stats_law {r} net fuel sock server e h same begun reach =
      let begins = main_begin-Begins host d libc program args cwd databases opts e h in
      let synced : IsSynced d.sql r.stats (live_db host d r) =
        subst (IsSynced d.sql r.stats) (sym (ap r.databases (same_database r begins same))) (
          init_blacklist_sync d.sql (r.databases (host.resolve cwd (named opts).db_file))
            (begins.0)) in
      server_serves net d.sql r.opts (host.files r.cwd) r.executable_file_name fuel stats_law _ _ _
        _ _ sock server synced begun reach

  -- When main, started with another directory and a relative name for the database, gets to
  -- server_loop, the scores come from the database of that name, but the handlers open the one in the
  -- served directory. When that one can be opened and has no table that a query can be prepared for,
  -- the process exits at the first score of any address.
  pub main_other_database :
      {r : Ready host d} (ip : Bytes) (good : Bool)
      → parse_options libc default_options (program ∷ args) ≡ parsed opts true
      → main_begin host d libc program args cwd databases ≡ ready r
      → stays opts ≡ false
      → is_relative (named opts).db_file ≡ true
      → d.sql.can_open (r.databases (host.resolve cwd (opts.dir ++ b'/' ∷ (named opts).db_file)))
        ≡ true
      → ((query : Bytes)
          → d.sql.prepare_ok query
              (r.databases (host.resolve cwd (opts.dir ++ b'/' ∷ (named opts).db_file)))
            ≡ false)
      → (init_blacklist d.sql (r.databases (host.resolve cwd (named opts).db_file)) []
          ≡ done r.stats)
        × (update_ip_addr_stats d.sql r.opts.blacklist_threshold ip good r.stats (live_db host d r)
            ≡ exited)
  main_other_database {r} ip good e h away rel can cannot =
      let (loaded, place) = main_begin-Begins host d libc program args cwd databases opts e h in
      let (went, same) = place_moved host d cwd opts r.opts away place in
      let moved : host.resolve r.cwd r.opts.db_file
          ≡ host.resolve cwd (opts.dir ++ b'/' ∷ (named opts).db_file) =
        ap (host.resolve r.cwd) (ap (λ o. o.db_file) same)
        ∙ law.changed cwd opts.dir (named opts).db_file went rel in
      (
        loaded,
        ap (update_ip_addr_stats d.sql r.opts.blacklist_threshold ip good r.stats)
              (ap r.databases moved)
            ∙ update_unprepared d.sql r.opts.blacklist_threshold ip good r.stats
                (r.databases (host.resolve cwd (opts.dir ++ b'/' ∷ (named opts).db_file))) can
                cannot,
      )
