-- ===== src/Http/Request/Tests.antt =====
-- Concrete requests.
use http_file_sharing.Prelude.{◌≡◌, refl, List, [], ◌∷◌, arith, Bytes, codes}
use http_file_sharing.Prelude.Dict.{find}
use http_file_sharing.Http.Request.{new_request, parse_http_method, split_line_colon, parse}
use http_file_sharing.Http.Request.RoundTrip.{request_lines, get_or_nil, parse_print}

-- The version keeps the CR LF of its line.
parse_get :
    parse_http_method (codes "GET /a.txt HTTP/1.0\r\n")
    ≡ (codes "GET", codes "/a.txt", codes "HTTP/1.0\r\n")
unfolding parse_http_method
parse_get = refl

parse_nothing : parse_http_method [] ≡ ([], [], [])
unfolding parse_http_method
parse_nothing = refl

-- A value keeps the colons in it.
split_host :
    split_line_colon (codes "Host:  localhost:80\r\n") ≡ (codes "Host", codes "localhost:80")
unfolding split_line_colon
split_host = refl

abbrev two_hosts : List (Bytes × Bytes)
two_hosts = (codes "Host", codes "a") ∷ (codes "Host", codes "b") ∷ []

parse_print_example :
    let r =
      (parse new_request
        (request_lines (codes "GET") (codes "/") (codes "HTTP/1.0\r\n") two_hosts [])).0 in
    (r.m_method ≡ codes "GET")
    × (r.m_uri ≡ codes "/")
    × (r.m_ver ≡ codes "HTTP/1.0\r\n")
    × (find (codes "Host") r.m_header ≡ find (codes "Host") two_hosts)
    × (r.m_body ≡ [])
    × (r.m_host ≡ get_or_nil (find (codes "Host") two_hosts))
parse_print_example =
    parse_print (codes "GET") (codes "/") (codes "HTTP/1.0\r\n") two_hosts [] (codes "Host")
      (omega arith) (omega arith) (omega arith) (omega arith)
