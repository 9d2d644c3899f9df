-- ===== src/Http/Response.antt =====
-- src/framework/http/http_rsp.cpp: a response and its bytes on the wire.
pub mod BlankLine
pub mod Follows
pub mod Framing
pub mod Tests
use http_file_sharing.Prelude.{
  ℕ, zero, suc, ◌+◌, ◌-◌, ◌*◌, ◌/◌, ◌%◌, ◌^◌, ◌≤◌, ◌<◌, ◌≡◌, refl, sym, ap, ◌∙◌, ◌≢◌, ◌↔◌, ◌⊎◌, inl,
  inr, Bool, true, false, not, ◌&&◌, ◌||◌, Option, none, some, List, [], ◌∷◌, ◌++◌, map,
  append_assoc, append-nil, arith, ltb, leb, ◌==◌, if◌then◌else◌, Bool-cases, Option-cases, ◌>>=◌,
  length, get_or, take, drop, replicate, length-append, length-replicate, length-drop, length-take,
  take_all, drop_all, take-append-drop, take-append_left, drop-append_left, All, All-append, Bytes,
  codes, lit, bytes_eq, bytes_eq_sound, bytes_eq_refl, bytes_eq_sym, bytes_eq_ne, Lacks, is_empty,
  starts_with, decimal, IsDigit, value, decimal_digits, value-decimal,
}
use Prim.Native.String.{String}
use http_file_sharing.Http.Request.{char_space, crlf}
use http_file_sharing.Http.Status.{HttpStatus, http_gen_err, to_string}

abbrev pub server_http_ver : String
server_http_ver = "1.0"

abbrev pub server_info : String
server_info = "Ashwin HTTP Server"

pub record HttpResponse : Type 0 where
  pub m_status : HttpStatus
  pub m_len : ℕ
  pub m_content_type : Bytes
  pub m_body : Bytes
  pub m_rsp_filename : Bytes

abbrev pub new_response : HttpResponse
new_response = record {
  m_status = http_gen_err;
  m_len = 0;
  m_content_type = [];
  m_body = [];
  m_rsp_filename = [];
}

-- HTTPResponse::set_body, which appends to the body and overwrites the length.
unfoldable pub set_body : HttpResponse → Bytes → HttpResponse
set_body r text = record r { m_body = r.m_body ++ text; m_len = length text }

pub is_gen_err : HttpStatus → Bool
is_gen_err http_gen_err = true
is_gen_err _ = false

-- The early returns of build_rsp: the response cannot be framed.
unfoldable pub is_unusable : HttpResponse → Bool
unfolding is_gen_err
is_unusable r =
    is_gen_err r.m_status
    || (is_empty r.m_rsp_filename
        && (r.m_len == 0 || (is_empty r.m_content_type || is_empty r.m_body)))

-- What the string stream holds: the lines of the head, the empty line and the body.
unfoldable pub response_text : HttpResponse → Bytes
response_text r =
    lit "HTTP/"
    ++ (lit server_http_ver
        ++ (char_space
            ∷ (to_string r.m_status
                ++ (crlf
                    ++ (lit "Server: "
                        ++ (lit server_info
                            ++ (crlf
                                ++ (lit "Connection: close"
                                    ++ (crlf
                                        ++ (lit "Content-type: "
                                            ++ (r.m_content_type
                                                ++ (crlf
                                                    ++ (lit "Content-Length: "
                                                        ++ (decimal r.m_len
                                                            ++ (crlf
                                                            ++ (crlf ++ r.m_body))))))))))))))))

-- HTTPResponse::build_rsp, with the buffer afterwards.
unfoldable pub build_rsp : HttpResponse → Bytes → Bytes × Bool
unfolding is_unusable response_text
build_rsp r buffer = if is_unusable r then (buffer, false) else (buffer ++ response_text r, true)
