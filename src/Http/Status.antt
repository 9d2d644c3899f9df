-- ===== src/Http/Status.antt =====
-- src/framework/http/http_status.cpp, in the release build (NDEBUG): `assert` does nothing.
pub mod Codes
use http_file_sharing.Prelude.{ℕ, Bytes, lit}

pub data HttpStatus : Type 0 where
  http_ok http_bad_request http_unsupp_method http_not_found http_gen_err : HttpStatus

unfoldable pub to_string : HttpStatus → Bytes
to_string http_ok = lit "200 OK"
to_string http_bad_request = lit "400 Bad Request"
to_string http_not_found = lit "404 Not Found"
to_string http_unsupp_method = lit "405 Method Not Allowed"
to_string http_gen_err = lit "HTTP_GEN_ERR"

pub to_int : HttpStatus → ℕ
to_int http_ok = 200
to_int http_bad_request = 400
to_int http_not_found = 404
to_int http_unsupp_method = 405
to_int http_gen_err = 999
