-- ===== src/Http/Response/Tests.antt =====
-- Concrete responses.
use http_file_sharing.Prelude.{◌≡◌, refl, false, some, [], arith, Bytes, codes, lit, decimal, value}
use http_file_sharing.Http
use http_file_sharing.Http.Status.{http_ok, http_unsupp_method, http_gen_err}
use http_file_sharing.Http.Response.{HttpResponse, new_response, is_unusable, build_rsp}
use http_file_sharing.Http.Response.BlankLine.{after_blank_line}
use http_file_sharing.Http.Response.Framing.{field_value, build_rsp_framing}

-- A response for a file of five bytes, whose content is sent behind the head.
abbrev file_response : HttpResponse
file_response = record new_response {
  m_status = http_ok;
  m_len = 5;
  m_content_type = codes "text/plain";
  m_rsp_filename = codes "a.txt";
}

build_rsp_file :
    (build_rsp file_response []).0
    ≡ codes
        "HTTP/1.0 200 OK\r\nServer: Ashwin HTTP Server\r\nConnection: close\r\nContent-type: text/plain\r\nContent-Length: 5\r\n\r\n"
unfolding build_rsp lit decimal Http.Status.to_string
build_rsp_file = refl

-- An object whose status was never set is not framed.
build_rsp_gen_err : build_rsp new_response [] ≡ ([], false)
unfolding build_rsp
build_rsp_gen_err = refl

file_response_usable : is_unusable file_response ≡ false
unfolding is_unusable
file_response_usable = refl

build_rsp_framing_example :
    (after_blank_line (build_rsp file_response []).0 ≡ some [])
    × (field_value (lit "Content-Length: ") (build_rsp file_response []).0 ≡ some (decimal 5))
    × (value 0 (decimal 5) ≡ 5)
build_rsp_framing_example = build_rsp_framing file_response file_response_usable (omega arith)

abbrev refusal : Bytes
refusal = codes "Unsupported HTTP method"
