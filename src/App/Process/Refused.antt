-- ===== src/App/Process/Refused.antt =====
-- Requests that end in a bad score: what the client receives, and what is left.
pub mod Tests
use http_file_sharing.Prelude.{
  ℕ, zero, suc, ◌+◌, ◌-◌, ◌*◌, ◌/◌, ◌%◌, ◌^◌, ◌≤◌, ◌<◌, ◌≡◌, refl, sym, ap, ◌∙◌, ◌≢◌, ◌↔◌, ◌⊎◌, inl,
  inr, Bool, true, false, not, ◌&&◌, ◌||◌, Option, none, some, List, [], ◌∷◌, ◌++◌, map,
  append_assoc, append-nil, arith, ltb, leb, ◌==◌, if◌then◌else◌, Bool-cases, Option-cases,
  some_inj, of_some, none-ne-some, ◌>>=◌, length, get_or, take, drop, replicate, length-append,
  length-replicate, length-drop, length-take, take_all, drop_all, take-append-drop,
  take-append_left, drop-append_left, All, All-append, Bytes, codes, lit, bytes_eq, bytes_eq_sound,
  bytes_eq_refl, bytes_eq_sym, bytes_eq_ne, Lacks, is_empty, starts_with, decimal, IsDigit, value,
  decimal_digits, value-decimal,
}
use http_file_sharing.Prelude.Int.{ℤ, pos, negsuc}
use http_file_sharing.Prelude.Dict.{find}
use http_file_sharing.Tcp.Api.{SocketApi, IsSocket}
use http_file_sharing.Tcp.Connection.{ret, default_buffer_size, recv}
use http_file_sharing.Tcp.Connection.Buffer.{HasFailed, HasSent}
use http_file_sharing.Filesys.{FileSystem, not_listed, get_file_listing, cook_path}
use http_file_sharing.Http.Status.{http_ok, http_unsupp_method, http_not_found}
use http_file_sharing.Http.Request.{HttpRequest, new_request, parse, char_space}
use http_file_sharing.Http.Request.Parts.{IsHeader}
use http_file_sharing.Http.Request.RoundTrip.{request_lines, parse_print}
use http_file_sharing.Http.Response.{HttpResponse, is_unusable, response_text, build_rsp}
use http_file_sharing.Http.Response.Framing.{build_rsp_text}
use http_file_sharing.Http.Receive.{ready, recv_req}
use http_file_sharing.Http.Receive.Lines.{IsLine, flatten}
use http_file_sharing.Http.Send.Outcome.{Delivers-Returns, send_http_rsp_body}
use http_file_sharing.App.Options.{ProgOptions}
use http_file_sharing.App.File.{check_if_file}
use http_file_sharing.App.Html.{get_404_page}
use http_file_sharing.App.Blacklist.{Sqlite, StatsList, done, update_ip_addr_stats}
use http_file_sharing.App.Process.{
  is_ok, unsupported, answer, Handled, handled, score_request, send_and_score, process_request,
  is_over, handle_connection,
}
use http_file_sharing.App.Process.Get.{
  plain_response, page_response, answer_not_listed, answer_other, not_found-ne-nil,
}
use http_file_sharing.App.Process.Scenarios.{
  handle-process, process-answer, sent-score, recv-lines, not_over,
}

-- The response to a request without a usable method.
abbrev pub refusal : HttpResponse
refusal = record plain_response {
  m_status = http_unsupp_method;
  m_len = 23;
  m_body = codes "Unsupported HTTP method";
}

refusal_usable : is_unusable refusal ≡ false
unfolding is_unusable
refusal_usable = refl

-- A response without a status is not framed.
nothing_built : (build_rsp plain_response []).0 ≡ []
unfolding build_rsp is_unusable
nothing_built = refl

-- The page for a URI that leads nowhere.
abbrev pub gone_page : Bytes → Bytes → Bytes
gone_page uri src = get_404_page (record new_request { m_uri = uri }) src

get_404_page-gone_page :
    (req : HttpRequest) (uri src : Bytes)
    → req.m_uri ≡ uri
    → get_404_page req src ≡ gone_page uri src
unfolding get_404_page
get_404_page-gone_page req uri src e = rw e refl

page_usable : (page : Bytes) → page ≢ [] → is_unusable (page_response http_not_found page) ≡ false
unfolding is_unusable
page_usable [] ne = absurd (ne refl)
page_usable (c ∷ page) ne = ground arith

module _ (api : SocketApi) (sql : Sqlite) (opts : ProgOptions) (fs : FileSystem) (exe : Bytes)
    (fuel : ℕ) (src : Bytes) (stats : StatsList) (db : sql.Db) (s : api.State) where
  -- The handling ended, with these scores, and the wire has gained the bytes, or some of them
  -- before a call failed.
  abbrev pub EndsWith : Handled api.State sql.Db → Bool → StatsList → sql.Db → Bytes → Type 0
  EndsWith result verdict stats' db' text =
      (s' : api.State) × (result ≡ handled verdict s' stats' db') × HasSent api s text s'

  score_taken :
      (rsp : HttpResponse) (verdict : Bool) (stats' : StatsList) (db' : sql.Db) (s' : api.State)
      → update_ip_addr_stats sql opts.blacklist_threshold src (is_ok rsp.m_status) stats db
        ≡ done (verdict, stats', db')
      → score_request api sql opts fs exe rsp.m_status src stats db s'
        ≡ handled verdict s' stats' db'
  unfolding score_request
  score_taken rsp verdict stats' db' s' u = rw (u, score_request) refl

  body_sent :
      (rsp : HttpResponse) (verdict : Bool) (stats' : StatsList) (db' : sql.Db)
      → IsSocket api
      → rsp.m_rsp_filename ≡ []
      → length (build_rsp rsp []).0 < fuel
      → update_ip_addr_stats sql opts.blacklist_threshold src (is_ok rsp.m_status) stats db
        ≡ done (verdict, stats', db')
      → EndsWith
          (send_and_score api sql opts fs exe fuel src stats db s rsp)
          verdict
          stats'
          db'
          (build_rsp rsp []).0
  body_sent rsp verdict stats' db' law body enough u =
      let (n, (s', (e, sent))) =
        Delivers-Returns api s (build_rsp rsp []).0 _ _
          (send_http_rsp_body api law fs.fopen fuel s rsp body enough) in
      (
        s',
        sent-score api sql opts fs exe fuel src stats db s rsp n s' e
            ∙ score_taken rsp verdict stats' db' s' u,
        sent,
      )

  no_method : (parse new_request []).0.m_method ≢ codes "GET"
  unfolding parse find
  no_method e = cc

  read_error-refusal :
      handle_connection api sql opts fs exe fuel none src stats db s
      ≡ send_and_score api sql opts fs exe fuel src stats db s refusal
  read_error-refusal =
      handle-process api sql opts fs exe fuel src stats db s none (negsuc 0) []
        (unfold recv_req recv in refl) (unfold is_over in refl)
      ∙ process-answer api sql opts fs exe fuel src stats db s [] _
          (answer_other opts fs exe (parse new_request []).0 src no_method)

  -- A read that fails is not told apart from a request: over a socket that behaves, with fuel for
  -- the response, and when the database takes the score of a bad request, the handler returns with
  -- the map and the database of a bad request of the sender, and the wire has gained the framed 405
  -- response, or if a call failed a prefix of it.
  pub handle_connection_read_error :
      (verdict : Bool) (stats' : StatsList) (db' : sql.Db)
      → IsSocket api
      → length (response_text refusal) < fuel
      → update_ip_addr_stats sql opts.blacklist_threshold src false stats db
        ≡ done (verdict, stats', db')
      → (s' : api.State) × (handle_connection api sql opts fs exe fuel none src stats db s
          ≡ handled verdict s' stats' db')
        × HasSent api s (response_text refusal) s'
  handle_connection_read_error verdict stats' db' law enough u =
      let text = build_rsp_text refusal refusal_usable in
      let (s', e, sent) = body_sent refusal verdict stats' db' law refl (rw text enough) u in
      (s', read_error-refusal ∙ e, rw text at sent)

  nothing_sent : (s' : api.State) → HasSent api s [] s' → api.wire s' ≡ api.wire s
  nothing_sent s' (inl w) = w ∙ append-nil (api.wire s)
  nothing_sent s' (inr (zero, (w, cause))) = w ∙ append-nil (api.wire s)
  nothing_sent s' (inr (suc k, (w, cause))) = w ∙ append-nil (api.wire s)

  -- A client sends a GET request in one piece of whole lines that fits the buffer, for a URI that is
  -- no regular file and that cannot be listed, over a socket that behaves, with fuel for the 404
  -- page, and the database takes the score of a bad request. Then the handler returns with the map
  -- and the database of a bad request of the sender; if errno was ENOENT, the wire has gained the
  -- framed 404 page, or if a call failed a prefix of it; and else nothing was sent at all.
  pub handle_connection_not_listed :
      (uri ver : Bytes) (headers : List (Bytes × Bytes)) (verdict : Bool) (stats' : StatsList)
      (db' : sql.Db)
      → IsSocket api
      → Lacks char_space uri
      → Lacks char_space ver
      → All IsHeader headers
      → let lines = request_lines (codes "GET") uri ver headers [] in
        let text = response_text (page_response http_not_found (gone_page uri src)) in
        All IsLine lines
        → length (flatten lines) < default_buffer_size
        → check_if_file opts fs uri ≡ false
        → get_file_listing opts fs exe uri ≡ some not_listed
        → length text < fuel
        → update_ip_addr_stats sql opts.blacklist_threshold src false stats db
          ≡ done (verdict, stats', db')
        → (s' : api.State) × (handle_connection api sql opts fs exe fuel
              (some (flatten lines))
              src
              stats
              db
              s
            ≡ handled verdict s' stats' db')
          × (((fs.errno_is_enoent (cook_path opts uri) ≡ true) × HasSent api s text s')
              ⊎ ((fs.errno_is_enoent (cook_path opts uri) ≡ false) × (api.wire s' ≡ api.wire s)))
  handle_connection_not_listed uri ver headers verdict stats' db' law lu lv wh w fits no_file lost
        enough u =
      let lines = request_lines (codes "GET") uri ver headers [] in
      let req = (parse new_request lines).0 in
      let parsed = parse_print (codes "GET") uri ver headers [] [] (omega arith) lu lv wh in
      let same : req.m_uri ≡ uri = parsed.1 in
      let some_bytes : 0 < length (flatten lines) = omega arith in
      let begun =
        handle-process api sql opts fs exe fuel src stats db s (some (flatten lines))
          (pos (length (flatten lines))) lines
          (recv-lines api sql opts fs exe fuel src stats db s lines w some_bytes fits)
          (not_over api sql opts fs exe fuel src stats db s (length (flatten lines)) some_bytes) in
      let page = gone_page uri src in
      let same_page : get_404_page req src ≡ page = get_404_page-gone_page req uri src same in
      let text =
        build_rsp_text (page_response http_not_found page)
          (page_usable page (rw same_page at (not_found-ne-nil opts fs exe req src))) in
      elim (answer_not_listed opts fs exe req src (parsed.0)
        (ap (check_if_file opts fs) same ∙ no_file)
        (ap (get_file_listing opts fs exe) same ∙ lost)) [
          | inl (enoent, answered) ↦
              let (s', e, sent) =
                body_sent (page_response http_not_found page) verdict stats' db' law refl
                  (rw text enough) u in
              (
                s',
                begun
                    ∙ process-answer api sql opts fs exe fuel src stats db s lines _
                        (rw same_page at answered)
                    ∙ e,
                inl (rw same at enoent, rw text at sent),
              )
          | inr (other, answered) ↦
              let (s', e, sent) =
                body_sent plain_response verdict stats' db' law refl
                  (rw nothing_built (omega arith)) u in
              (
                s',
                begun ∙ process-answer api sql opts fs exe fuel src stats db s lines _ answered ∙ e,
                inr (rw same at other, nothing_sent s' (rw nothing_built at sent)),
              )
        ]
