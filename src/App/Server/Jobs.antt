-- ===== src/App/Server/Jobs.antt =====
-- What a job leaves when its handler has returned.
use http_file_sharing.Prelude.{ℕ, ◌≡◌, refl, Bool, some, List, some_inj, Bytes}
use http_file_sharing.Tcp.Net.{NetApi, socket_on}
use http_file_sharing.Tcp.Server.{get_src_addr}
use http_file_sharing.Tpool.{TpoolJob, job_done}
use http_file_sharing.Filesys.{FileSystem}
use http_file_sharing.App.Options.{ProgOptions}
use http_file_sharing.App.Blacklist.{Sqlite, StatsList}
use http_file_sharing.App.Process.{
  Handled, handled, process_exits, exception, still_running, undefined_behaviour, handle_connection,
}
use http_file_sharing.App.Server.{Running, release, run_job, end_job}

module _ (net : NetApi) (sql : Sqlite) (opts : ProgOptions) (fs : FileSystem) (exe : Bytes)
    (fuel : ℕ) where
  -- What is left of a job whose handler returned.
  abbrev pub after_job :
      TpoolJob
      → List TpoolJob
      → Running net sql opts fs exe fuel
      → net.State
      → StatsList
      → sql.Db
      → Running net sql opts fs exe fuel
  after_job job others s sock stats db = record s {
    sock = sock;
    stats = stats;
    db = db;
    pool = job_done s.pool others;
  }

  end_job_cases :
      (job : TpoolJob) (others : List TpoolJob) (s s' : Running net sql opts fs exe fuel)
      (r : Handled net.State sql.Db)
      → end_job net sql opts fs exe fuel job others s r ≡ some s'
      → (good : Bool) × (sock : net.State) × (stats : StatsList) × (db : sql.Db) × (r
          ≡ handled good sock stats db)
        × (release net sql opts fs exe fuel job.connection (after_job job others s sock stats db)
            ≡ s')
  unfolding end_job
  end_job_cases job others s s' (handled good sock stats db) e =
      (good, sock, stats, db, refl, some_inj _ s' e)
  end_job_cases job others s s' process_exits e = absurd cc
  end_job_cases job others s s' exception e = absurd cc
  end_job_cases job others s s' still_running e = absurd cc
  end_job_cases job others s s' undefined_behaviour e = absurd cc

  -- A job that runs leaves what its handler left, and drops its pointer.
  abbrev pub handling : TpoolJob → Running net sql opts fs exe fuel → Handled net.State sql.Db
  handling job s =
      handle_connection (socket_on net job.connection.m_fd) sql opts fs exe fuel
        (net.recv job.connection.m_fd s.sock).0 (get_src_addr net job.connection) s.stats s.db
        (net.recv job.connection.m_fd s.sock).1

  pub run_job_cases :
      (job : TpoolJob) (others : List TpoolJob) (s s' : Running net sql opts fs exe fuel)
      → run_job net sql opts fs exe fuel job others s ≡ some s'
      → (good : Bool) × (sock : net.State) × (stats : StatsList) × (db : sql.Db) × (handling job s
          ≡ handled good sock stats db)
        × (release net sql opts fs exe fuel job.connection (after_job job others s sock stats db)
            ≡ s')
  unfolding run_job
  run_job_cases job others s s' e = end_job_cases job others s s' (handling job s) e
