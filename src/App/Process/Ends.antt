-- ===== src/App/Process/Ends.antt =====
-- That the handling of a connection ends, whatever bytes are read.
use http_file_sharing.Prelude.{
  ℕ, ◌<◌, ◌≡◌, refl, ap, ◌∙◌, ◌≢◌, ◌⊎◌, inl, inr, true, false, Option, none, some, [], ◌∷◌, ◌++◌,
  append-nil, arith, if◌then◌else◌, Bool-cases, length, take, length-append, length-take, Bytes,
  is_empty,
}
use http_file_sharing.Tcp.Api.{SocketApi, IsSocket}
use http_file_sharing.Tcp.Connection.{recv}
use http_file_sharing.Tcp.Connection.Buffer.{HasSent}
use http_file_sharing.Filesys.{FileSystem}
use http_file_sharing.Http.Status.{HttpStatus}
use http_file_sharing.Http.Request.{HttpRequest, new_request, parse}
use http_file_sharing.Http.Response.{HttpResponse, build_rsp, response_text}
use http_file_sharing.Http.Response.Framing.{build_rsp_text}
use http_file_sharing.Http.Receive.{ready, recv_req}
use http_file_sharing.Http.Send.{send_http_rsp}
use http_file_sharing.Http.Send.Outcome.{
  is_empty-ne, Returns, Delivers-Returns, FileOutcome-Returns, send_http_rsp_body,
  send_http_rsp_file,
}
use http_file_sharing.App.Options.{ProgOptions}
use http_file_sharing.App.Blacklist.{Sqlite, StatsList}
use http_file_sharing.App.Process.{
  answer, handled, Handled, score_request, is_over, handle_connection,
}
use http_file_sharing.App.Process.Replies.{IsServable, IsRooted, IsBody, IsOpened, answer-HasReply}
use http_file_sharing.App.Process.Scenarios.{
  handle-process, handle-over, process-answer, sent-score,
}

-- The bytes of a response: its text, and as much of its file as the head announces.
abbrev pub rendering : FileSystem → HttpResponse → Bytes
rendering fs rsp =
    (build_rsp rsp []).0
    ++ (if is_empty rsp.m_rsp_filename
        then []
        else elim (fs.fopen rsp.m_rsp_filename) [ none ↦ [] | some file ↦ take rsp.m_len file ])

abbrev pub rendered : FileSystem → Option HttpResponse → Bytes
rendered fs none = []
rendered fs (some rsp) = rendering fs rsp

-- The request that is read.
abbrev pub request_read : Option Bytes → HttpRequest
request_read received = (parse new_request (recv_req 0 ready received []).1).0

-- The bytes of the response to what is read.
abbrev pub reply_text : ProgOptions → FileSystem → Bytes → Option Bytes → Bytes → Bytes
reply_text opts fs exe received src = rendered fs (answer opts fs exe (request_read received) src)

-- The client disconnected without a byte and the handler returns at once, or the handler has sent
-- the reply and scores the sender.
abbrev pub Ends :
    (api : SocketApi) (sql : Sqlite)
    → ProgOptions
    → FileSystem
    → Bytes
    → Bytes
    → StatsList
    → sql.Db
    → api.State
    → Option Bytes
    → Handled api.State sql.Db
    → Type 0
Ends api sql opts fs exe src stats db s received r =
    ((received ≡ some []) × (r ≡ handled false s stats db))
    ⊎ ((status : HttpStatus) × (s' : api.State) × (r
          ≡ score_request api sql opts fs exe status src stats db s')
        × HasSent api s (reply_text opts fs exe received src) s')

over_nothing :
    (received : Option Bytes) → is_over (recv_req 0 ready received []).0 ≡ true → received ≡ some []
unfolding recv_req is_over recv
over_nothing none h = cc
over_nothing (some []) h = refl
over_nothing (some (c ∷ text)) h = cc

module _ (api : SocketApi) (law : IsSocket api) (fs : FileSystem) where
  body_rendered : (rsp : HttpResponse) → IsBody rsp → rendering fs rsp ≡ (build_rsp rsp []).0
  body_rendered rsp e =
      let no_file : is_empty rsp.m_rsp_filename ≡ true = ap is_empty e in
      rw no_file (append-nil (build_rsp rsp []).0)

  file_rendered :
      (rsp : HttpResponse) (file : Bytes)
      → rsp.m_rsp_filename ≢ []
      → fs.fopen rsp.m_rsp_filename ≡ some file
      → rendering fs rsp ≡ (build_rsp rsp []).0 ++ take rsp.m_len file
  file_rendered rsp file ne opened = rw (is_empty-ne rsp.m_rsp_filename ne, opened)

  response-Returns :
      (fuel : ℕ) (s : api.State) (rsp : HttpResponse)
      → IsBody rsp ⊎ IsOpened fs rsp
      → length (rendering fs rsp) < fuel
      → Returns api s (rendering fs rsp) (send_http_rsp api fs.fopen fuel s rsp)
  response-Returns fuel s rsp (inl e) enough =
      let text = (build_rsp rsp []).0 in
      let same = body_rendered rsp e in
      rw same (
        Delivers-Returns api s text (length text) _
          (send_http_rsp_body api law fs.fopen fuel s rsp e (rw same at enough)))
  response-Returns fuel s rsp (inr (file, ne, usable, opened, long)) enough =
      let text = response_text rsp in
      let same : rendering fs rsp ≡ text ++ take rsp.m_len file =
        file_rendered rsp file ne opened ∙ rw (build_rsp_text rsp usable) in
      let all : length (text ++ take rsp.m_len file) < fuel = rw same at enough in
      let sum = length-append text (take rsp.m_len file) in
      let size = length-take rsp.m_len file long in
      rw same (
        FileOutcome-Returns api s text (take rsp.m_len file) _ (
          send_http_rsp_file api law fs.fopen fuel s rsp file ne usable opened long (omega arith)
            (omega arith)))

module _ (api : SocketApi) (sql : Sqlite) (opts : ProgOptions) (fs : FileSystem) (exe : Bytes)
    (fuel : ℕ) (src : Bytes) (stats : StatsList) (db : sql.Db) (s : api.State) where
  -- A connection over a socket that behaves, from a server of files that can be read, with fuel for
  -- the bytes of the reply. Whatever is read from it, as long as a GET request has a URI that begins
  -- with a slash, the handler ends: either the client has disconnected without a byte and nothing is
  -- sent or scored, or the sender is scored, and before that the wire has gained the whole reply, or
  -- some of the first bytes of it before a call failed.
  pub handle_connection-Ends :
      (received : Option Bytes)
      → IsSocket api
      → IsServable opts fs
      → IsRooted (request_read received)
      → length (reply_text opts fs exe received src) < fuel
      → Ends api sql opts fs exe src stats db s received
          (handle_connection api sql opts fs exe fuel received src stats db s)
  handle_connection-Ends received law servable rooted enough =
      let lines = (recv_req 0 ready received []).1 in
      let (rsp, (e, sendable)) =
        answer-HasReply opts fs exe (request_read received) src servable rooted in
      elim (Bool-cases (is_over (recv_req 0 ready received []).0)) [
        | inl over ↦ inl (
          over_nothing received over,
          handle-over api sql opts fs exe fuel src stats db s received over,
        )
        | inr more ↦
            let text : reply_text opts fs exe received src ≡ rendering fs rsp =
              ap (rendered fs) e in
            let (n, (s', (sent, wire))) =
              response-Returns api law fs fuel s rsp sendable (rw text at enough) in
            inr (
              rsp.m_status,
              s',
              handle-process api sql opts fs exe fuel src stats db s received _ lines refl more
                  ∙ process-answer api sql opts fs exe fuel src stats db s lines rsp e
                  ∙ sent-score api sql opts fs exe fuel src stats db s rsp n s' sent,
              rw text wire,
            )
      ]
