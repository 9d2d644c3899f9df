-- ===== src/App/File.antt =====
-- src/app/file.cpp: which file a URI names, and how it is served.
pub mod Kinds
pub mod Paths
pub mod Tests
use http_file_sharing.Prelude.{
  ℕ, zero, suc, ◌+◌, ◌-◌, ◌*◌, ◌/◌, ◌%◌, ◌^◌, ◌≤◌, ◌<◌, ◌≡◌, refl, sym, ap, ◌∙◌, ◌≢◌, ◌↔◌, ◌⊎◌, inl,
  inr, Bool, true, false, not, ◌&&◌, ◌||◌, Option, none, some, List, [], ◌∷◌, ◌++◌, map,
  append_assoc, append-nil, arith, ltb, leb, ◌==◌, if◌then◌else◌, Bool-cases, Option-cases, ◌>>=◌,
  length, get_or, take, drop, replicate, length-append, length-replicate, length-drop, length-take,
  take_all, drop_all, take-append-drop, take-append_left, drop-append_left, All, All-append, Bytes,
  codes, lit, bytes_eq, bytes_eq_sound, bytes_eq_refl, bytes_eq_sym, bytes_eq_ne, Lacks, is_empty,
  starts_with, decimal, IsDigit, value, decimal_digits, value-decimal,
}
use http_file_sharing.Prelude.Replace.{regex_replace, rfind, encode, decode}
use http_file_sharing.App.Options.{ProgOptions}
use http_file_sharing.Filesys.{FileSystem, is_file}
use http_file_sharing.Http.Request.{HttpRequest}
use http_file_sharing.Http.Response.{HttpResponse}
use http_file_sharing.Http.Status.{HttpStatus, http_ok, http_not_found}

-- _clean_filename
unfoldable pub clean_filename : Bytes → Bytes
clean_filename filename = regex_replace filename (codes "%20") (codes " ")

abbrev pub supported_text_file_types : List Bytes
supported_text_file_types =
    codes ".txt"
    ∷ codes ".log"
    ∷ codes ".ini"
    ∷ codes ".cfg"
    ∷ codes ".conf"
    ∷ codes ".cpp"
    ∷ codes ".hpp"
    ∷ codes ".c"
    ∷ codes ".h"
    ∷ codes ".py"
    ∷ codes ".sh"
    ∷ codes ".java"
    ∷ codes ".js"
    ∷ []

-- The loop that compares the extension with each type.
abbrev pub matches_any : Bytes → List Bytes → Bool
matches_any extension [] = false
matches_any extension (it ∷ types) = bytes_eq it extension || matches_any extension types

-- _is_text_file
unfoldable pub is_text_file : Bytes → Bool
is_text_file filename = elim (rfind filename b'.') [
  | none ↦ true
  | some pos ↦ matches_any (drop pos filename) supported_text_file_types
]

-- check_if_file
unfoldable pub check_if_file : ProgOptions → FileSystem → Bytes → Bool
unfolding clean_filename is_file
check_if_file opts fs filename = is_file opts fs (clean_filename filename)

-- get_file, with the response afterwards
unfoldable pub get_file : FileSystem → HttpResponse → HttpRequest → HttpResponse × HttpStatus
unfolding clean_filename
get_file fs rsp req =
    let filename = clean_filename (drop 1 req.m_uri) in
    elim (fs.stat filename) [
      | none ↦ (rsp, http_not_found)
      | some st_size ↦ (
        record rsp {
          m_rsp_filename = filename;
          m_len = st_size;
          m_content_type =
              if is_text_file filename
              then codes "text/plain"
              else codes "application/octet-stream";
        },
        http_ok,
      )
    ]
