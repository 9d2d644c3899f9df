-- ===== src/Http/Send.antt =====
-- send_http_rsp of src/framework/http/http.cpp, in the release build (NDEBUG): its assertion that
-- the status is set does nothing.
pub mod Frame
pub mod Outcome
pub mod Tests
use http_file_sharing.Prelude.{
  ℕ, zero, suc, ◌+◌, ◌-◌, ◌*◌, ◌/◌, ◌%◌, ◌^◌, ◌≤◌, ◌<◌, ◌≡◌, refl, sym, ap, ◌∙◌, ◌≢◌, ◌↔◌, ◌⊎◌, inl,
  inr, Bool, true, false, not, ◌&&◌, ◌||◌, Option, none, some, List, [], ◌∷◌, ◌++◌, map,
  append_assoc, append-nil, arith, ltb, leb, ◌==◌, if◌then◌else◌, Bool-cases, Option-cases, ◌>>=◌,
  length, get_or, take, drop, replicate, length-append, length-replicate, length-drop, length-take,
  take_all, drop_all, take-append-drop, take-append_left, drop-append_left, All, All-append, Bytes,
  codes, lit, bytes_eq, bytes_eq_sound, bytes_eq_refl, bytes_eq_sym, bytes_eq_ne, Lacks, is_empty,
  starts_with, decimal, IsDigit, value, decimal_digits, value-decimal,
}
use http_file_sharing.Prelude.Int.{ℤ, negsuc, ◌+ℤ◌}
use http_file_sharing.Tcp.Api.{SocketApi}
use http_file_sharing.Tcp.Connection.{
  Io, ret, running, undefined, minus_one, send_buffer, send_file,
}
use http_file_sharing.Http.Response.{HttpResponse, build_rsp}

pub is_minus_one : ℤ → Bool
is_minus_one (negsuc zero) = true
is_minus_one _ = false

-- What is opened by fopen with a file name, if it can be.
abbrev pub Fopen : Type 0
Fopen = Bytes → Option Bytes

-- The file, behind a head for which send returned `r`.
then_file : (api : SocketApi) → Fopen → ℕ → HttpResponse → ℤ → api.State → Io api.State
then_file api fopen fuel rsp r s =
    elim (send_file api fuel s (fopen rsp.m_rsp_filename) rsp.m_len) [
      | ret r' s' ↦ ret (r +ℤ r') s'
      | running ↦ running
      | undefined ↦ undefined
    ]

unfoldable pub send_http_rsp :
    (api : SocketApi) → Fopen → ℕ → api.State → HttpResponse → Io api.State
unfolding then_file is_minus_one
send_http_rsp api fopen fuel s rsp = elim (send_buffer api fuel s (build_rsp rsp []).0) [
  | ret r s' ↦
      if is_minus_one r
      then ret r s'
      else if is_empty rsp.m_rsp_filename
      then ret r s'
      else then_file api fopen fuel rsp r s'
  | running ↦ running
  | undefined ↦ undefined
]
