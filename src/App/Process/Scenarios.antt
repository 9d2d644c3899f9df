-- ===== src/App/Process/Scenarios.antt =====
-- Whole connections, from the bytes that are read to the wire and the score.
use http_file_sharing.Prelude.{
  ℕ, zero, suc, ◌≤◌, ◌<◌, ◌≡◌, refl, ap, ◌∙◌, ◌≢◌, true, false, Option, none, some, List, [], ◌∷◌,
  ◌++◌, append-nil, arith, length, take, All, Bytes, codes, Lacks,
}
use http_file_sharing.Prelude.Int.{ℤ, pos}
use http_file_sharing.Tcp.Api.{SocketApi, IsSocket}
use http_file_sharing.Tcp.Connection.{ret, default_buffer_size, recv}
use http_file_sharing.Filesys.{FileSystem, FsEntry, listed, get_file_listing}
use http_file_sharing.Http.Status.{http_ok}
use http_file_sharing.Http.Request.{new_request, parse, char_space}
use http_file_sharing.Http.Request.Parts.{IsHeader}
use http_file_sharing.Http.Request.RoundTrip.{request_lines, parse_print}
use http_file_sharing.Http.Response.{HttpResponse, response_text}
use http_file_sharing.Http.Receive.{ready, recv_req}
use http_file_sharing.Http.Receive.Lines.{IsLine, flatten, recv_req_lines}
use http_file_sharing.Http.Send.{send_http_rsp}
use http_file_sharing.Http.Send.Outcome.{FileOutcome-Returns, send_http_rsp_file}
use http_file_sharing.App.Options.{ProgOptions}
use http_file_sharing.App.File.{check_if_file, clean_filename}
use http_file_sharing.App.Blacklist.{Sqlite, StatsList}
use http_file_sharing.App.Process.{
  answer, handled, undefined_behaviour, score_request, send_and_score, process_request, is_over,
  handle_connection,
}
use http_file_sharing.Tcp.Connection.Buffer.{HasSent}
use http_file_sharing.App.Process.Replies.{file_response_usable}
use http_file_sharing.App.Process.Get.{file_response, answer_file, answer_no_slash}

module _ (api : SocketApi) (sql : Sqlite) (opts : ProgOptions) (fs : FileSystem) (exe : Bytes)
    (fuel : ℕ) (src : Bytes) (stats : StatsList) (db : sql.Db) (s : api.State) where
  -- The lines that are read go to process_request.
  pub handle-process :
      (received : Option Bytes) (bytes : ℤ) (lines : List Bytes)
      → recv_req 0 ready received [] ≡ (bytes, lines)
      → is_over bytes ≡ false
      → handle_connection api sql opts fs exe fuel received src stats db s
        ≡ process_request api sql opts fs exe fuel lines src stats db s
  unfolding handle_connection
  handle-process received bytes lines e o = rw (e, o)

  pub handle-over :
      (received : Option Bytes)
      → is_over (recv_req 0 ready received []).0 ≡ true
      → handle_connection api sql opts fs exe fuel received src stats db s
        ≡ handled false s stats db
  unfolding handle_connection
  handle-over received e = rw e

  pub process-answer :
      (lines : List Bytes) (rsp : HttpResponse)
      → answer opts fs exe (parse new_request lines).0 src ≡ some rsp
      → process_request api sql opts fs exe fuel lines src stats db s
        ≡ send_and_score api sql opts fs exe fuel src stats db s rsp
  unfolding process_request parse
  process-answer lines rsp e = rw (e, process_request)

  pub process-none :
      (lines : List Bytes)
      → answer opts fs exe (parse new_request lines).0 src ≡ none
      → process_request api sql opts fs exe fuel lines src stats db s ≡ undefined_behaviour
  unfolding process_request parse
  process-none lines e = rw (e, process_request)

  -- A client that disconnects without a byte: nothing is sent and no score changes.
  pub handle_connection_disconnected :
      handle_connection api sql opts fs exe fuel (some []) src stats db s ≡ handled false s stats db
  unfolding handle_connection recv_req recv
  handle_connection_disconnected = refl

  pub sent-score :
      (rsp : HttpResponse) (n : ℤ) (s' : api.State)
      → send_http_rsp api fs.fopen fuel s rsp ≡ ret n s'
      → send_and_score api sql opts fs exe fuel src stats db s rsp
        ≡ score_request api sql opts fs exe rsp.m_status src stats db s'
  unfolding send_and_score
  sent-score rsp n s' e = rw (e, send_and_score)

  pub recv-lines :
      (lines : List Bytes)
      → All IsLine lines
      → 0 < length (flatten lines)
      → length (flatten lines) < default_buffer_size
      → recv_req 0 ready (some (flatten lines)) [] ≡ (pos (length (flatten lines)), lines)
  recv-lines lines w ne fits =
      let same = append-nil (flatten lines) in
      rw same at (recv_req_lines ready lines [] [] w tt (rw same ne) (rw same (omega arith)) fits)

  pub not_over : (n : ℕ) → 0 < n → is_over (pos n) ≡ false
  unfolding is_over
  not_over zero h = absurd (omega arith)
  not_over (suc n) h = refl

  -- A client sends a GET request in one piece of whole lines that fits the buffer, for a URI below
  -- the root whose cleaned path is a regular file that can be opened and is as long as stat says,
  -- over a socket that behaves. Then the handler ends with a good request scored for the sender,
  -- and the wire has gained the framed head and the file, or if a call fails only a part of these.
  pub handle_connection_get_file :
      (path ver : Bytes) (headers : List (Bytes × Bytes)) (size : ℕ) (content : Bytes)
      → IsSocket api
      → Lacks char_space path
      → Lacks char_space ver
      → All IsHeader headers
      → let uri = b'/' ∷ path in
        let lines = request_lines (codes "GET") uri ver headers [] in
        let name = clean_filename path in
        let text = response_text (file_response name size) in
        All IsLine lines
        → length (flatten lines) < default_buffer_size
        → fs.is_regular_file (opts.dir ++ b'/' ∷ name) ≡ true
        → fs.stat name ≡ some size
        → fs.fopen name ≡ some content
        → name ≢ []
        → size ≤ length content
        → length text < fuel
        → size < fuel
        → (s' : api.State) × (handle_connection api sql opts fs exe fuel
              (some (flatten lines))
              src
              stats
              db
              s
            ≡ score_request api sql opts fs exe http_ok src stats db s')
          × HasSent api s (text ++ take size content) s'
  handle_connection_get_file path ver headers size content law lp lv wh w fits regular found opened
        ne long enough enough' =
      let uri = b'/' ∷ path in
      let lines = request_lines (codes "GET") uri ver headers [] in
      let name = clean_filename path in
      let rsp = file_response name size in
      let parsed =
        parse_print (codes "GET") uri ver headers [] [] (omega arith) (omega arith, lp) lv wh in
      let some_bytes : 0 < length (flatten lines) = omega arith in
      let whole : handle_connection api sql opts fs exe fuel (some (flatten lines)) src stats db s
          ≡ send_and_score api sql opts fs exe fuel src stats db s rsp =
        handle-process (some (flatten lines)) (pos (length (flatten lines))) lines
          (recv-lines lines w some_bytes fits) (not_over (length (flatten lines)) some_bytes)
        ∙ process-answer lines rsp (
            answer_file opts fs exe (parse new_request lines).0 src path size (parsed.0) (parsed.1)
              regular found) in
      let (n, (s', (e, sent))) =
        FileOutcome-Returns api s (response_text rsp) (take size content) _ (
          send_http_rsp_file api law fs.fopen fuel s rsp content ne
            (file_response_usable name size ne) opened long enough enough') in
      (s', whole ∙ sent-score rsp n s' e, sent)

  -- A client sends a GET request in one piece of whole lines that fits the buffer, for a URI without
  -- a slash that is no regular file and that can be listed, as the empty one with the name of the
  -- served directory in front: then the handler reads outside the URI, whatever the socket does.
  pub handle_connection_no_slash :
      (uri ver : Bytes) (headers : List (Bytes × Bytes)) (tree : List FsEntry)
      → Lacks char_space uri
      → Lacks b'/' uri
      → Lacks char_space ver
      → All IsHeader headers
      → let lines = request_lines (codes "GET") uri ver headers [] in
        All IsLine lines
        → length (flatten lines) < default_buffer_size
        → check_if_file opts fs uri ≡ false
        → get_file_listing opts fs exe uri ≡ some (listed tree)
        → handle_connection api sql opts fs exe fuel (some (flatten lines)) src stats db s
          ≡ undefined_behaviour
  handle_connection_no_slash uri ver headers tree lu l lv wh w fits no_file found =
      let lines = request_lines (codes "GET") uri ver headers [] in
      let req = (parse new_request lines).0 in
      let parsed = parse_print (codes "GET") uri ver headers [] [] (omega arith) lu lv wh in
      let same : req.m_uri ≡ uri = parsed.1 in
      let some_bytes : 0 < length (flatten lines) = omega arith in
      handle-process (some (flatten lines)) (pos (length (flatten lines))) lines
        (recv-lines lines w some_bytes fits) (not_over (length (flatten lines)) some_bytes)
      ∙ process-none lines (
          answer_no_slash opts fs exe req src tree (parsed.0) (rw same l)
            (ap (check_if_file opts fs) same ∙ no_file)
            (ap (get_file_listing opts fs exe) same ∙ found))
