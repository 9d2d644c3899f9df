-- ===== src/Http/Request/RoundTrip.antt =====
-- A request that is printed the way clients print it is parsed back.
use http_file_sharing.Prelude.{
  ◌≡◌, refl, ap, ◌∙◌, true, false, List, [], ◌∷◌, ◌++◌, map, append_assoc, append-nil, Option, none,
  some, arith, Bytes, codes, Lacks, All,
}
use http_file_sharing.Prelude.Dict.{find, emplace, find-emplace, or_else}
use http_file_sharing.Http.Request.{
  char_space, crlf, HttpRequest, new_request, parse_line, parse_lines, set_host, parse,
}
use http_file_sharing.Http.Request.Parts.{
  parse_http_method_print, header_line, IsHeader, header_line-ne-crlf, split_header_line,
}

-- The request after the header lines.
with_headers : HttpRequest → List (Bytes × Bytes) → HttpRequest
with_headers r [] = r
with_headers r ((k, v) ∷ hs) = with_headers (record r { m_header = emplace k v r.m_header }) hs

parse_line-header :
    (r : HttpRequest) (k v : Bytes)
    → IsHeader (k, v)
    → parse_line (record { req = r; is_header = true; first_line = false }) (header_line (k, v))
      ≡ record {
        req = record r { m_header = emplace k v r.m_header };
        is_header = true;
        first_line = false;
      }
unfolding parse_line
parse_line-header r k v w =
    rw (header_line-ne-crlf k (char_space ∷ (v ++ crlf))) (ground (arith, split_header_line k v w))

parse_lines-headers :
    (r : HttpRequest) (hs : List (Bytes × Bytes)) (rest : List Bytes)
    → All IsHeader hs
    → parse_lines
        (record { req = r; is_header = true; first_line = false })
        (map header_line hs ++ rest)
      ≡ parse_lines (record { req = with_headers r hs; is_header = true; first_line = false }) rest
unfolding parse_lines with_headers
parse_lines-headers r [] rest w = refl
parse_lines-headers r ((k, v) ∷ hs) rest w =
    ap (λ p. parse_lines p (map header_line hs ++ rest)) (parse_line-header r k v w.0)
    ∙ parse_lines-headers (record r { m_header = emplace k v r.m_header }) hs rest w.1

parse_lines-body :
    (r : HttpRequest) (body : List Bytes)
    → (parse_lines (record { req = r; is_header = false; first_line = false }) body).req
      ≡ record r { m_body = r.m_body ++ body }
unfolding parse_lines parse_line
parse_lines-body r [] = ground (arith, append-nil (r.m_body))
parse_lines-body r (line ∷ body) =
    parse_lines-body (record r { m_body = r.m_body ++ line ∷ [] }) body
    ∙ ground (arith, append_assoc (r.m_body) (line ∷ []) body)

-- What the header lines leave alone, and what a look-up finds: the first line with the key.
with_headers_lem :
    (r : HttpRequest) (hs : List (Bytes × Bytes)) (k : Bytes)
    → (find k (with_headers r hs).m_header ≡ or_else (find k r.m_header) (find k hs))
      × ((with_headers r hs).m_method ≡ r.m_method)
      × ((with_headers r hs).m_uri ≡ r.m_uri)
      × ((with_headers r hs).m_ver ≡ r.m_ver)
      × ((with_headers r hs).m_host ≡ r.m_host)
      × ((with_headers r hs).m_body ≡ r.m_body)
unfolding with_headers find
with_headers_lem r [] k = ground arith
with_headers_lem r ((j, v) ∷ hs) k = ground (
  arith,
  find-emplace j k v r.m_header,
  with_headers_lem (record r { m_header = emplace j v r.m_header }) hs k,
)

abbrev pub get_or_nil : Option Bytes → Bytes
get_or_nil none = []
get_or_nil (some v) = v

-- The lines of a request.
abbrev pub request_lines : Bytes → Bytes → Bytes → List (Bytes × Bytes) → List Bytes → List Bytes
request_lines method uri ver headers body =
    (method ++ char_space ∷ (uri ++ char_space ∷ ver)) ∷ (map header_line headers ++ crlf ∷ body)

set_host_lem :
    (r : HttpRequest)
    → ((set_host r).m_method ≡ r.m_method)
      × ((set_host r).m_uri ≡ r.m_uri)
      × ((set_host r).m_ver ≡ r.m_ver)
      × ((set_host r).m_header ≡ r.m_header)
      × ((set_host r).m_body ≡ r.m_body)
      × ((set_host r).m_host
          ≡ get_or_nil (or_else (find (codes "Host") r.m_header) (some r.m_host)))
unfolding set_host
set_host_lem r = ground arith

-- The request after its first line.
abbrev started : Bytes → Bytes → Bytes → HttpRequest
started method uri ver = record new_request { m_method = method; m_uri = uri; m_ver = ver }

parse_line-first :
    (m u v : Bytes)
    → Lacks char_space m
    → Lacks char_space u
    → Lacks char_space v
    → parse_line
        (record { req = new_request; is_header = true; first_line = true })
        (m ++ char_space ∷ (u ++ char_space ∷ v))
      ≡ record { req = started m u v; is_header = true; first_line = false }
unfolding parse_line
parse_line-first m u v hm hu hv = ground (arith, parse_http_method_print m u v hm hu hv)

parse_lines_print :
    (m u v : Bytes) (hs : List (Bytes × Bytes)) (body : List Bytes)
    → Lacks char_space m
    → Lacks char_space u
    → Lacks char_space v
    → All IsHeader hs
    → let r = with_headers (started m u v) hs in
      (parse_lines
        (record { req = new_request; is_header = true; first_line = true })
        (request_lines m u v hs body)).req
      ≡ record r { m_body = r.m_body ++ body }
unfolding parse_lines
parse_lines_print m u v hs body hm hu hv w =
    ap (λ p. (parse_lines p (map header_line hs ++ crlf ∷ body)).req)
      (parse_line-first m u v hm hu hv)
    ∙ ap (λ p. p.req) (parse_lines-headers (started m u v) hs (crlf ∷ body) w)
    ∙ unfold parse_line in parse_lines-body (with_headers (started m u v) hs) body

parse-set_host :
    (m u v : Bytes) (hs : List (Bytes × Bytes)) (body : List Bytes)
    → Lacks char_space m
    → Lacks char_space u
    → Lacks char_space v
    → All IsHeader hs
    → let r = with_headers (started m u v) hs in
      (parse new_request (request_lines m u v hs body)).0
      ≡ set_host (record r { m_body = r.m_body ++ body })
unfolding parse
parse-set_host m u v hs body hm hu hv w = ap set_host (parse_lines_print m u v hs body hm hu hv w)

-- The lines of a request whose parts of the first line hold no space and whose headers are
-- well formed parse into an empty request object as: those three parts, a header map in which a
-- look-up of any key finds the first header line with that key, the lines after the empty line as
-- the body whatever they hold, and the host of the first Host header (empty if there is none).
pub parse_print :
    (method uri ver : Bytes) (headers : List (Bytes × Bytes)) (body : List Bytes) (key : Bytes)
    → Lacks char_space method
    → Lacks char_space uri
    → Lacks char_space ver
    → All IsHeader headers
    → let r = (parse new_request (request_lines method uri ver headers body)).0 in
      (r.m_method ≡ method)
      × (r.m_uri ≡ uri)
      × (r.m_ver ≡ ver)
      × (find key r.m_header ≡ find key headers)
      × (r.m_body ≡ body)
      × (r.m_host ≡ get_or_nil (find (codes "Host") headers))
unfolding find
parse_print m u v hs body key hm hu hv w =
    let r = with_headers (started m u v) hs in
    rw (parse-set_host m u v hs body hm hu hv w) (
      ground (
        arith,
        set_host_lem (record r { m_body = r.m_body ++ body }),
        with_headers_lem (started m u v) hs key,
        with_headers_lem (started m u v) hs (codes "Host"),
      ))
