-- ===== src/App/Process.antt =====
-- src/app/process_request.cpp and _handle_connection of src/app/server.cpp: one request, from the
-- bytes that are read to the score of its sender. Log output and the clock are left out.
pub mod Download
pub mod Ends
pub mod Frame
pub mod Get
pub mod Replies
pub mod Scenarios
pub mod Refused
pub mod Tests
use http_file_sharing.Prelude.{
  ℕ, zero, suc, ◌+◌, ◌-◌, ◌*◌, ◌/◌, ◌%◌, ◌^◌, ◌≤◌, ◌<◌, ◌≡◌, refl, sym, ap, ◌∙◌, ◌≢◌, ◌↔◌, ◌⊎◌, inl,
  inr, Bool, true, false, not, ◌&&◌, ◌||◌, Option, none, some, List, [], ◌∷◌, ◌++◌, map,
  append_assoc, append-nil, arith, ltb, leb, ◌==◌, if◌then◌else◌, Bool-cases, Option-cases, ◌>>=◌,
  length, get_or, take, drop, replicate, length-append, length-replicate, length-drop, length-take,
  take_all, drop_all, take-append-drop, take-append_left, drop-append_left, All, All-append, Bytes,
  codes, lit, bytes_eq, bytes_eq_sound, bytes_eq_refl, bytes_eq_sym, bytes_eq_ne, Lacks, is_empty,
  starts_with, decimal, IsDigit, value, decimal_digits, value-decimal,
}
use http_file_sharing.Prelude.Int.{ℤ, pos, negsuc}
use http_file_sharing.Tcp.Api.{SocketApi}
use http_file_sharing.Tcp.Connection.{Io, ret, running, undefined}
use http_file_sharing.Filesys.{FileSystem, Listed, listed, not_listed, get_file_listing, cook_path}
use http_file_sharing.Http.Status.{
  HttpStatus, http_ok, http_unsupp_method, http_not_found, http_gen_err,
}
use http_file_sharing.Http.Request.{HttpRequest, new_request, parse}
use http_file_sharing.Http.Response.{HttpResponse, new_response, set_body}
use http_file_sharing.Http.Receive.{ready, recv_req}
use http_file_sharing.Http.Send.{send_http_rsp}
use http_file_sharing.App.Options.{ProgOptions}
use http_file_sharing.App.File.{check_if_file, get_file}
use http_file_sharing.App.Html.{build_rsp_html, get_404_page}
use http_file_sharing.App.Blacklist.{
  Sqlite, Outcome, done, exited, thrown, StatsList, update_ip_addr_stats,
}

abbrev pub html_type : Bytes
html_type = codes "text/html; charset=utf-8"

abbrev pub is_not_found : HttpStatus → Bool
is_not_found http_not_found = true
is_not_found _ = false

abbrev pub is_ok : HttpStatus → Bool
is_ok http_ok = true
is_ok _ = false

-- The end of process_get_request for a listing: a page in the buffer becomes the body.
pub put_page : HttpResponse → Bytes → HttpResponse
put_page rsp [] = rsp
put_page rsp (c ∷ page) = record (set_body rsp (c ∷ page)) { m_content_type = html_type }

-- What process_get_request does with a file.
pub get_of_file : FileSystem → HttpRequest → HttpResponse → Bytes → HttpResponse
get_of_file fs req rsp src =
    let (rsp', status) = get_file fs rsp req in
    if is_not_found status
    then record (set_body (record rsp' { m_status = status }) (get_404_page req src)) {
      m_content_type = html_type;
    }
    else record rsp' { m_status = status }

-- What it does with a listing, or its failure; the argument tells whether errno is ENOENT.
pub get_of_listing :
    ProgOptions → HttpRequest → HttpResponse → Bytes → Bool → Listed → Option HttpResponse
unfolding put_page
get_of_listing opts req rsp src enoent not_listed = some (
    if enoent
    then put_page (record rsp { m_status = http_not_found }) (get_404_page req src)
    else record rsp { m_status = http_gen_err })
get_of_listing opts req rsp src enoent (listed tree) = build_rsp_html opts req tree src >>= λ page.
    some (put_page (record rsp { m_status = http_ok }) page)

-- process_get_request; `none` is a read outside a text
unfoldable pub process_get_request :
    ProgOptions → FileSystem → Bytes → HttpRequest → HttpResponse → Bytes → Option HttpResponse
unfolding get_of_file get_of_listing
process_get_request opts fs exe req rsp src =
    if check_if_file opts fs req.m_uri
    then some (get_of_file fs req rsp src)
    else get_file_listing opts fs exe req.m_uri >>= λ result.
        get_of_listing opts req rsp src (fs.errno_is_enoent (cook_path opts req.m_uri)) result

abbrev pub unsupported : Bytes
unsupported = codes "Unsupported HTTP method"

-- The response of process_request, before it is sent.
unfoldable pub answer : ProgOptions → FileSystem → Bytes → HttpRequest → Bytes → Option HttpResponse
answer opts fs exe req src =
    let rsp = record new_response { m_content_type = codes "text/plain" } in
    if bytes_eq req.m_method (codes "GET")
    then process_get_request opts fs exe req rsp src
    else some (record (set_body rsp unsupported) { m_status = http_unsupp_method })

-- How the handling of a request ends: with the result of the handler and the states of the socket,
-- of the scores and of the database; with the end of the process or an exception; still running
-- in a send loop; or in undefined behaviour.
pub data Handled (S D : Type 0) : Type 0 where
  handled : Bool → S → StatsList → D → Handled S D
  process_exits : Handled S D
  exception : Handled S D
  still_running : Handled S D
  undefined_behaviour : Handled S D

-- The tests of _handle_connection on the result of recv_req: HTTP_CLIENT_DISCONNECTED (0) and
-- HTTP_READ_TIMEDOUT (-2).
pub is_over : ℤ → Bool
is_over (pos zero) = true
is_over (negsuc (suc zero)) = true
is_over _ = false

module _ (api : SocketApi) (sql : Sqlite) (opts : ProgOptions) (fs : FileSystem) (exe : Bytes) where
  -- The end of process_request: the score of the sender.
  unfoldable pub score_request :
      HttpStatus → Bytes → StatsList → sql.Db → api.State → Handled api.State sql.Db
  score_request status src stats db s =
      elim (update_ip_addr_stats sql opts.blacklist_threshold src (is_ok status) stats db) [
        | done (good, stats', db') ↦ handled good s stats' db'
        | exited ↦ process_exits
        | thrown ↦ exception
      ]

  -- Sending a response, and what follows.
  unfoldable pub send_and_score :
      ℕ → Bytes → StatsList → sql.Db → api.State → HttpResponse → Handled api.State sql.Db
  unfolding score_request
  send_and_score fuel src stats db s rsp = elim (send_http_rsp api fs.fopen fuel s rsp) [
    | ret bytes s' ↦ score_request rsp.m_status src stats db s'
    | running ↦ still_running
    | undefined ↦ undefined_behaviour
  ]

  -- process_request; HTTPRequest::parse never fails
  unfoldable pub process_request :
      ℕ → List Bytes → Bytes → StatsList → sql.Db → api.State → Handled api.State sql.Db
  unfolding send_and_score
  process_request fuel lines src stats db s =
      let (req, parsed) = parse new_request lines in
      let answered : Handled api.State sql.Db = elim (answer opts fs exe req src) [
        | none ↦ undefined_behaviour
        | some rsp ↦ send_and_score fuel src stats db s rsp
      ] in
      if parsed then answered else handled false s stats db

  -- _handle_connection: one round of its loop. The connection is read without a timeout.
  unfoldable pub handle_connection :
      ℕ → Option Bytes → Bytes → StatsList → sql.Db → api.State → Handled api.State sql.Db
  unfolding is_over
  handle_connection fuel received src stats db s =
      let (bytes, lines) = recv_req 0 ready received [] in
      let request = process_request fuel lines src stats db s in
      if is_over bytes then handled false s stats db else request
