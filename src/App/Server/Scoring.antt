-- ===== src/App/Server/Scoring.antt =====
-- The scores of a run of server_loop from its beginning.
use http_file_sharing.Prelude.{
  ℕ, ◌≤◌, ◌≡◌, sym, ap, ◌∙◌, Bool, true, false, some, List, arith, Bytes,
}
use http_file_sharing.Prelude.Int.{ℤ}
use http_file_sharing.Tcp.Net.{NetApi}
use http_file_sharing.Tcp.Server.{TcpServer}
use http_file_sharing.Filesys.{FileSystem}
use http_file_sharing.App.Options.{ProgOptions}
use http_file_sharing.App.Blacklist.{Sqlite, done, StatsList, get_score_for_ipaddr}
use http_file_sharing.App.Blacklist.Stats.{IsStats}
use http_file_sharing.App.Blacklist.Sync.{IsSynced}
use http_file_sharing.App.Blacklist.Score.{count_of, settled, update_all, update_all_score}
use http_file_sharing.App.Server.{Running, server_begin, ServerReach}
use http_file_sharing.App.Server.Accounts.{requests_of, jobs_from}
use http_file_sharing.App.Server.History.{ServerReach-HasHistory}
use http_file_sharing.App.Server.Runs.{server_begin-IsBegun, begun-pool}

module _ (net : NetApi) (sql : Sqlite) (opts : ProgOptions) (fs : FileSystem) (exe : Bytes)
    (fuel : ℕ) where
  -- The handlers of the workers score one after the other: from any beginning of server_loop with
  -- scores that agree with the table, whatever its threads do, there is one history of updates that
  -- leaves the map and the database as they are. It has at most one request for each connection of
  -- an address that a worker took, and the score of each address is its score at the beginning plus
  -- its good requests less its bad ones.
  pub server_history :
      (law : IsStats sql) (port tcp_backlog : ℤ) (tpool_size : ℕ) (stats : StatsList) (db : sql.Db)
      (sock : net.State) (server : TcpServer) {start s : Running net sql opts fs exe fuel}
      → IsSynced sql stats db
      → server_begin net sql opts fs exe fuel port tcp_backlog tpool_size stats db sock
        ≡ some (server, start)
      → ServerReach net sql opts fs exe fuel server start s
      → (history : List (Bytes × Bool)) × (update_all sql opts.blacklist_threshold history stats db
          ≡ done (s.stats, s.db))
        × ((ip : Bytes)
            → (requests_of ip history ≤ jobs_from net ip s.pool.taken)
              × (get_score_for_ipaddr s.stats ip
                  ≡ settled
                      (get_score_for_ipaddr stats ip)
                      (count_of ip true history)
                      (count_of ip false history)))
  server_history law port tcp_backlog tpool_size stats db sock server {start} {s} sync e r =
      let (loop, pool, same, same_db) =
        server_begin-IsBegun net sql opts fs exe fuel port tcp_backlog tpool_size stats db sock
          server start e in
      let (queue, active, lock, few) =
        begun-pool net sql opts fs exe fuel tpool_size start.pool pool in
      let (history, (replay, accounts)) =
        ServerReach-HasHistory net sql opts fs exe fuel server active r in
      let replayed : update_all sql opts.blacklist_threshold history stats db
          ≡ done (s.stats, s.db) =
        sym (
          ap (λ t. update_all sql opts.blacklist_threshold history t start.db) same
          ∙ ap (update_all sql opts.blacklist_threshold history stats) same_db)
        ∙ replay in
      (
        history,
        replayed,
        λ ip. (
          (let few = accounts ip in omega arith),
          (update_all_score sql law opts.blacklist_threshold history stats s.stats db s.db ip sync
              replayed).1,
        ),
      )
