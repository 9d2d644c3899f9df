-- ===== src/App/Process/Download.antt =====
-- What a client has received of a file.
use http_file_sharing.Prelude.{
  ℕ, ◌≤◌, ◌<◌, ◌≡◌, refl, ◌∙◌, ◌≢◌, ◌⊎◌, inl, inr, Bool, true, false, some, List, [], ◌∷◌, ◌++◌,
  arith, Bool-cases, length, take, length-take, All, Bytes, codes, Lacks,
}
use http_file_sharing.Tcp.Api.{SocketApi, IsSocket}
use http_file_sharing.Tcp.Connection.{default_buffer_size}
use http_file_sharing.Tcp.Connection.Buffer.{HasFailed}
use http_file_sharing.Filesys.{FileSystem}
use http_file_sharing.Http.Status.{http_ok}
use http_file_sharing.Http.Request.{char_space, char_cr}
use http_file_sharing.Http.Request.Parts.{IsHeader}
use http_file_sharing.Http.Request.RoundTrip.{request_lines}
use http_file_sharing.Http.Response.{is_unusable, response_text}
use http_file_sharing.Http.Response.Follows.{Holds, response_text-Holds}
use http_file_sharing.Http.Receive.Lines.{IsLine, flatten}
use http_file_sharing.App.Options.{ProgOptions}
use http_file_sharing.App.File.{clean_filename, is_text_file}
use http_file_sharing.App.Blacklist.{Sqlite, StatsList, done, update_ip_addr_stats}
use http_file_sharing.App.Process.{handled, score_request, handle_connection}
use http_file_sharing.App.Process.Get.{file_response}
use http_file_sharing.App.Process.Scenarios.{handle_connection_get_file}

with_file_usable :
    (name : Bytes) (size : ℕ) (file : Bytes)
    → name ≢ []
    → is_unusable (record (file_response name size) { m_body = file }) ≡ false
unfolding is_unusable
with_file_usable [] size file ne = absurd (ne refl)
with_file_usable (c ∷ name) size file ne = refl

file_type-Lacks : (name : Bytes) (size : ℕ) → Lacks char_cr (file_response name size).m_content_type
file_type-Lacks name size = elim (Bool-cases (is_text_file name)) [
  | inl e ↦ rw e (omega arith)
  | inr e ↦ rw e (omega arith)
]

module _ (api : SocketApi) (sql : Sqlite) (opts : ProgOptions) (fs : FileSystem) (exe : Bytes)
    (fuel : ℕ) (src : Bytes) (stats : StatsList) (db : sql.Db) (s : api.State) where
  score_handled :
      (good : Bool) (stats' : StatsList) (db' : sql.Db) (s' : api.State)
      → update_ip_addr_stats sql opts.blacklist_threshold src true stats db
        ≡ done (good, stats', db')
      → score_request api sql opts fs exe http_ok src stats db s' ≡ handled good s' stats' db'
  unfolding score_request
  score_handled good stats' db' s' u = rw (u, score_request) refl

  -- A file is received as it is: on a connection to which nothing was sent, a client sends a GET
  -- request in one piece of whole lines that fits the buffer, for a URI below the root whose cleaned
  -- path is a regular file, wherever it leads, that can be opened and is at least as long as stat
  -- says, over a socket that behaves, and the database takes the score of a good request. Then the
  -- handler returns with the map and the database of a good request of the sender, and unless a
  -- call failed, what the client received holds just that much of the file behind the first
  -- empty line, and under Content-Length a decimal numeral that reads back as that length.
  pub handle_connection_download :
      (path ver : Bytes) (headers : List (Bytes × Bytes)) (size : ℕ) (content : Bytes) (good : Bool)
      (stats' : StatsList) (db' : sql.Db)
      → IsSocket api
      → api.wire s ≡ []
      → Lacks char_space path
      → Lacks char_space ver
      → All IsHeader headers
      → let lines = request_lines (codes "GET") (b'/' ∷ path) ver headers [] in
        let name = clean_filename path in
        All IsLine lines
        → length (flatten lines) < default_buffer_size
        → fs.is_regular_file (opts.dir ++ b'/' ∷ name) ≡ true
        → fs.stat name ≡ some size
        → fs.fopen name ≡ some content
        → name ≢ []
        → size ≤ length content
        → length (response_text (file_response name size)) < fuel
        → size < fuel
        → update_ip_addr_stats sql opts.blacklist_threshold src true stats db
          ≡ done (good, stats', db')
        → (s' : api.State) × (handle_connection api sql opts fs exe fuel
              (some (flatten lines))
              src
              stats
              db
              s
            ≡ handled good s' stats' db')
          × (Holds (api.wire s') size (take size content) ⊎ HasFailed api s')
  handle_connection_download path ver headers size content good stats' db' law fresh lp lv wh w fits
        regular found opened ne long enough enough' u =
      let name = clean_filename path in
      let rsp = file_response name size in
      let file = take size content in
      let (s', e, sent) =
        handle_connection_get_file api sql opts fs exe fuel src stats db s path ver headers size
          content law lp lv wh w fits regular found opened ne long enough enough' in
      elim sent [
        | inr (k, (part, cause)) ↦ (s', e ∙ score_handled good stats' db' s' u, inr cause)
        | inl all ↦
            let received : api.wire s' ≡ response_text rsp ++ file = rw fresh at all in
            (
              s',
              e ∙ score_handled good stats' db' s' u,
              inl (
                  rw received (
                    response_text-Holds rsp file refl (with_file_usable name size file ne)
                      (file_type-Lacks name size) (length-take size content long))),
            )
      ]
