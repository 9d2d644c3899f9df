-- ===== src/App/Process/Frame.antt =====
-- What handling a connection does to the socket, the scores and the database.
use http_file_sharing.Prelude.{
  ℕ, ◌≡◌, refl, inl, inr, Bool, false, Option, List, [], Bool-cases, Option-cases, Bytes,
}
use http_file_sharing.Tcp.Api.{SocketApi}
use http_file_sharing.Tcp.Connection.Frame.{Io-cases, Keeps}
use http_file_sharing.Filesys.{FileSystem}
use http_file_sharing.Http.Status.{HttpStatus}
use http_file_sharing.Http.Request.{new_request, parse}
use http_file_sharing.Http.Response.{HttpResponse}
use http_file_sharing.Http.Receive.{ready, recv_req}
use http_file_sharing.Http.Send.{send_http_rsp}
use http_file_sharing.Http.Send.Frame.{send_http_rsp-keeps}
use http_file_sharing.App.Options.{ProgOptions}
use http_file_sharing.App.Blacklist.{Outcome-cases, Sqlite, done, StatsList, update_ip_addr_stats}
use http_file_sharing.App.Process.Scenarios.{
  handle-process, handle-over, process-answer, process-none,
}
use http_file_sharing.App.Process.{
  answer, Handled, handled, process_exits, exception, still_running, undefined_behaviour, is_ok,
  score_request, send_and_score, process_request, is_over, handle_connection,
}

-- What a handler leaves, if it returns, is of that kind.
abbrev pub HandledAll : {S D : Type 0} → (Bool → S → StatsList → D → Type 0) → Handled S D → Type 0
HandledAll R (handled good s stats db) = R good s stats db
HandledAll R process_exits = Unit
HandledAll R exception = Unit
HandledAll R still_running = Unit
HandledAll R undefined_behaviour = Unit

-- Either nothing is scored, or the handler's result and the scores are those of one update.
module _ (api : SocketApi) (sql : Sqlite) (opts : ProgOptions) (fs : FileSystem) (exe : Bytes)
    (P : api.State → Type 0) (keeps : Keeps api P)
    (R : Bool → api.State → StatsList → sql.Db → Type 0) (src : Bytes) (stats : StatsList)
    (db : sql.Db) (unscored : (s : api.State) → P s → R false s stats db)
    (scored : (good result : Bool) (s : api.State) (stats' : StatsList) (db' : sql.Db)
      → P s
      → update_ip_addr_stats sql opts.blacklist_threshold src good stats db
        ≡ done (result, stats', db')
      → R result s stats' db') where
  score_request-frame :
      (status : HttpStatus) (s : api.State)
      → P s
      → HandledAll R (score_request api sql opts fs exe status src stats db s)
  unfolding score_request
  score_request-frame status s h =
      elim (Outcome-cases
        (update_ip_addr_stats sql opts.blacklist_threshold src (is_ok status) stats db)) [
          | inl ((result, stats', db'), e) ↦
              rw (e, score_request) (scored (is_ok status) result s stats' db' h e)
          | inr (inl e) ↦ rw (e, score_request) tt
          | inr (inr e) ↦ rw (e, score_request) tt
        ]

  send_and_score-frame :
      (fuel : ℕ) (s : api.State) (rsp : HttpResponse)
      → P s
      → HandledAll R (send_and_score api sql opts fs exe fuel src stats db s rsp)
  unfolding send_and_score
  send_and_score-frame fuel s rsp h =
      let sent = send_http_rsp-keeps api P keeps fs.fopen fuel rsp s h in
      elim (Io-cases (send_http_rsp api fs.fopen fuel s rsp)) [
        | inl (n, s', e) ↦
            rw (e, send_and_score) (score_request-frame rsp.m_status s' (rw e at sent))
        | inr (inl e) ↦ rw (e, send_and_score) tt
        | inr (inr e) ↦ rw (e, send_and_score) tt
      ]

  process_request-frame :
      (fuel : ℕ) (lines : List Bytes) (s : api.State)
      → P s
      → HandledAll R (process_request api sql opts fs exe fuel lines src stats db s)
  process_request-frame fuel lines s h =
      elim (Option-cases (answer opts fs exe (parse new_request lines).0 src)) [
        | inl e ↦ rw (process-none api sql opts fs exe fuel src stats db s lines e) tt
        | inr (rsp, e) ↦
            rw (process-answer api sql opts fs exe fuel src stats db s lines rsp e)
              (send_and_score-frame fuel s rsp h)
      ]

  pub handle_connection-frame :
      (fuel : ℕ) (received : Option Bytes) (s : api.State)
      → P s
      → HandledAll R (handle_connection api sql opts fs exe fuel received src stats db s)
  handle_connection-frame fuel received s h =
      elim (Bool-cases (is_over (recv_req 0 ready received []).0)) [
        | inl e ↦ rw (handle-over api sql opts fs exe fuel src stats db s received e) (unscored s h)
        | inr e ↦
            let lines = (recv_req 0 ready received []).1 in
            rw (handle-process api sql opts fs exe fuel src stats db s received _ lines refl e)
              (process_request-frame fuel lines s h)
      ]
