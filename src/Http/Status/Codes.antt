-- ===== src/Http/Status/Codes.antt =====
-- The two prints of a status agree.
use http_file_sharing.Prelude.{◌≡◌, refl, ◌≢◌, [], ◌∷◌, ◌++◌, lit, decimal, take}
use http_file_sharing.Http.Status.{
  HttpStatus, http_ok, http_bad_request, http_unsupp_method, http_not_found, http_gen_err,
  to_string, to_int,
}

-- Every status but HTTP_GEN_ERR prints as the decimal code that to_int gives, a space and a
-- reason; so the status line carries the status code that the program means.
pub to_string-to_int :
    (s : HttpStatus) → s ≢ http_gen_err → take 4 (to_string s) ≡ decimal (to_int s) ++ b' ' ∷ []
unfolding to_string to_int decimal lit
to_string-to_int http_ok h = refl
to_string-to_int http_bad_request h = refl
to_string-to_int http_unsupp_method h = refl
to_string-to_int http_not_found h = refl
to_string-to_int http_gen_err h = absurd (h refl)
