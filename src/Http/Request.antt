-- ===== src/Http/Request.antt =====
-- src/framework/http/http_req.cpp: the parser of a request that is already cut into lines.
pub mod Parts
pub mod RoundTrip
pub mod Tests
use http_file_sharing.Prelude.{
  ℕ, Bool, true, false, ◌&&◌, List, [], ◌∷◌, ◌++◌, Option, none, some, ◌==◌, if◌then◌else◌, Bytes,
  codes, bytes_eq,
}
use http_file_sharing.Prelude.Dict.{find, emplace}

abbrev pub char_space : ℕ
char_space = b' '

abbrev pub char_colon : ℕ
char_colon = b':'

abbrev pub char_cr : ℕ
char_cr = 13

abbrev pub char_lf : ℕ
char_lf = 10

abbrev pub crlf : Bytes
crlf = char_cr ∷ char_lf ∷ []

pub record HttpRequest : Type 0 where
  pub m_method : Bytes
  pub m_uri : Bytes
  pub m_ver : Bytes
  pub m_host : Bytes
  pub m_header : List (Bytes × Bytes)
  pub m_body : List Bytes

-- A request object before anything is parsed into it.
abbrev pub new_request : HttpRequest
new_request = record {
  m_method = [];
  m_uri = [];
  m_ver = [];
  m_host = [];
  m_header = [];
  m_body = [];
}

-- HTTPRequest::clear
pub clear : HttpRequest → HttpRequest
clear r = record r { m_header = []; m_body = [] }

-- Each of the three loops of _parse_http_method: it reads up to a space and skips it.
pub until_space : Bytes → Bytes → Bytes × Bytes
until_space word [] = (word, [])
until_space word (c ∷ s) =
    let more = until_space (word ++ c ∷ []) s in if c == char_space then (word, s) else more

unfoldable pub parse_http_method : Bytes → Bytes × Bytes × Bytes
unfolding until_space
parse_http_method input =
    let (method, rest) = until_space [] input in
    let (uri, rest') = until_space [] rest in
    let (ver, rest'') = until_space [] rest' in (method, uri, ver)

-- The first loop of _split_line_colon.
until_colon : Bytes → Bytes → Bytes × Bytes
until_colon first [] = (first, [])
until_colon first (c ∷ s) =
    let more = until_colon (first ++ c ∷ []) s in if c == char_colon then (first, s) else more

-- Its second loop; the flag is `initial_spaces`.
value_loop : Bool → Bytes → Bytes → Bytes
value_loop initial second [] = second
value_loop initial second (c ∷ s) =
    let skip = value_loop initial second s in
    let keep = value_loop false (second ++ c ∷ []) s in
    if initial && c == char_space then skip else if c == char_cr then second else keep

unfoldable pub split_line_colon : Bytes → Bytes × Bytes
unfolding until_colon value_loop
split_line_colon input =
    let (first, rest) = until_colon [] input in (first, value_loop true [] rest)

-- The variables of the loop of HTTPRequest::parse.
pub record ParseState : Type 0 where
  pub req : HttpRequest
  pub is_header : Bool
  pub first_line : Bool

parse_first : HttpRequest → Bytes → HttpRequest
parse_first r line =
    let (method, uri, ver) = parse_http_method line in
    record r { m_method = method; m_uri = uri; m_ver = ver }

parse_header : HttpRequest → Bytes → HttpRequest
parse_header r line =
    let (key, val) = split_line_colon line in record r { m_header = emplace key val r.m_header }

-- One round of the loop.
parse_line : ParseState → Bytes → ParseState
unfolding parse_first parse_header
parse_line p line =
    if p.first_line
    then record p { first_line = false; req = parse_first p.req line }
    else if p.is_header
    then (if bytes_eq line crlf
        then record p { is_header = false }
        else record p { req = parse_header p.req line })
    else record p { req = record (p.req) { m_body = p.req.m_body ++ line ∷ [] } }

parse_lines : ParseState → List Bytes → ParseState
parse_lines p [] = p
parse_lines p (line ∷ lines) = parse_lines (parse_line p line) lines

set_host : HttpRequest → HttpRequest
set_host r = elim (find (codes "Host") r.m_header) [
  | none ↦ r
  | some host ↦ record r { m_host = host }
]

-- HTTPRequest::parse, with its result.
unfoldable pub parse : HttpRequest → List Bytes → HttpRequest × Bool
unfolding parse_lines parse_line set_host
parse r lines =
    let p = parse_lines (record { req = r; is_header = true; first_line = true }) lines in
    (set_host p.req, true)
