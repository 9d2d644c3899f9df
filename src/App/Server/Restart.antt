-- ===== src/App/Server/Restart.antt =====
-- What a later start of the program reads back.
pub mod Tests
use http_file_sharing.Prelude.{
  ℕ, zero, suc, ◌+◌, ◌-◌, ◌*◌, ◌/◌, ◌%◌, ◌^◌, ◌≤◌, ◌<◌, ◌≡◌, refl, sym, ap, ◌∙◌, ◌≢◌, ◌↔◌, ◌⊎◌, inl,
  inr, Bool, true, false, not, ◌&&◌, ◌||◌, Option, none, some, List, [], ◌∷◌, ◌++◌, map,
  append_assoc, append-nil, arith, ltb, leb, ◌==◌, if◌then◌else◌, Bool-cases, Option-cases,
  some_inj, of_some, none-ne-some, ◌>>=◌, length, get_or, take, drop, replicate, length-append,
  length-replicate, length-drop, length-take, take_all, drop_all, take-append-drop,
  take-append_left, drop-append_left, All, All-append, Bytes, codes, lit, bytes_eq, bytes_eq_sound,
  bytes_eq_refl, bytes_eq_sym, bytes_eq_ne, Lacks, is_empty, starts_with, decimal, IsDigit, value,
  decimal_digits, value-decimal,
}
use http_file_sharing.Prelude.Int.{ℤ}
use http_file_sharing.Prelude.Dict.{find}
use http_file_sharing.Tcp.Net.{NetApi}
use http_file_sharing.Tcp.Server.{TcpServer}
use http_file_sharing.Filesys.{FileSystem}
use http_file_sharing.App.Options.{ProgOptions}
use http_file_sharing.App.Blacklist.{
  Sqlite, StatsList, done, is_ipaddr_blacklisted, get_score_for_ipaddr, init_blacklist, map_written,
}
use http_file_sharing.App.Blacklist.Stats.{IsStats}
use http_file_sharing.App.Blacklist.Sync.{
  IsSynced, init_blacklist_sync, map_written-find, new_score,
}
use http_file_sharing.App.Server.{Running, server_begin, ServerReach}
use http_file_sharing.App.Server.Runs.{server_serves}

-- The test of the blacklist depends on the score only.
verdict_of :
    (threshold : ℤ) (stats stats' : StatsList) (ip : Bytes)
    → find ip stats' ≡ find ip stats
    → is_ipaddr_blacklisted threshold stats' ip ≡ is_ipaddr_blacklisted threshold stats ip
unfolding is_ipaddr_blacklisted
verdict_of threshold stats stats' ip e = rw (e, is_ipaddr_blacklisted)

module _ (net : NetApi) (sql : Sqlite) (opts : ProgOptions) (fs : FileSystem) (exe : Bytes)
    (fuel : ℕ) where
  -- What a stop of the server loses: from any beginning of server_loop with scores that agree with
  -- the table, for the database of any state that the threads get into, when init_blacklist of a
  -- later start ends on it, then each address has the score that it had in the map of that state, or
  -- none in both, and is blacklisted exactly if it was. If the stop came in the middle of an update
  -- that began in that state, behind its write to the map and in front of that to the table, the map
  -- had this update more than what is read back, one point of one address, and nothing else.
  pub restart_keeps_scores :
      (law : IsStats sql) (port tcp_backlog : ℤ) (tpool_size : ℕ) (stats : StatsList) (db : sql.Db)
      (sock : net.State) (server : TcpServer) {start s : Running net sql opts fs exe fuel}
      (later : StatsList) (ip who : Bytes) (good : Bool)
      → IsSynced sql stats db
      → server_begin net sql opts fs exe fuel port tcp_backlog tpool_size stats db sock
        ≡ some (server, start)
      → ServerReach net sql opts fs exe fuel server start s
      → init_blacklist sql s.db [] ≡ done later
      → (get_score_for_ipaddr later ip ≡ get_score_for_ipaddr s.stats ip)
        × (is_ipaddr_blacklisted opts.blacklist_threshold later ip
            ≡ is_ipaddr_blacklisted opts.blacklist_threshold s.stats ip)
        × (get_score_for_ipaddr (map_written who good s.stats) ip ≡ (
            if bytes_eq who ip
            then some (new_score (get_score_for_ipaddr later who) good)
            else get_score_for_ipaddr later ip))
  unfolding get_score_for_ipaddr
  restart_keeps_scores law port tcp_backlog tpool_size stats db sock server {start} {s} later ip who
        good sync e r loaded =
      let (few, (pool, phase, synced)) =
        server_serves net sql opts fs exe fuel law port tcp_backlog tpool_size stats db sock server
          sync e r in
      let same : (j : Bytes) → find j later ≡ find j s.stats =
        λ j. init_blacklist_sync sql s.db loaded j ∙ sym (synced j) in
      (
        same ip,
        verdict_of opts.blacklist_threshold s.stats later ip (same ip),
        map_written-find who ip good s.stats ∙ rw (same who, same ip) refl,
      )
