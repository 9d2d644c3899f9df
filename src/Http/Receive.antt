-- ===== src/Http/Receive.antt =====
-- recv_req of src/framework/http/http.cpp: one read from the connection, cut into lines.
pub mod Lines
pub mod Tests
use http_file_sharing.Prelude.{
  ℕ, zero, suc, ◌+◌, ◌-◌, ◌*◌, ◌/◌, ◌%◌, ◌^◌, ◌≤◌, ◌<◌, ◌≡◌, refl, sym, ap, ◌∙◌, ◌≢◌, ◌↔◌, ◌⊎◌, inl,
  inr, Bool, true, false, not, ◌&&◌, ◌||◌, Option, none, some, List, [], ◌∷◌, ◌++◌, map,
  append_assoc, append-nil, arith, ltb, leb, ◌==◌, if◌then◌else◌, Bool-cases, Option-cases, ◌>>=◌,
  length, get_or, take, drop, replicate, length-append, length-replicate, length-drop, length-take,
  take_all, drop_all, take-append-drop, take-append_left, drop-append_left, All, All-append, Bytes,
  codes, lit, bytes_eq, bytes_eq_sound, bytes_eq_refl, bytes_eq_sym, bytes_eq_ne, Lacks, is_empty,
  starts_with, decimal, IsDigit, value, decimal_digits, value-decimal,
}
use http_file_sharing.Prelude.Int.{ℤ, pos, negsuc, ltb_ℤ}
use http_file_sharing.Tcp.Connection.{recv}
use http_file_sharing.Http.Request.{char_lf}

abbrev pub http_read_timedout : ℤ
http_read_timedout = negsuc 1

abbrev pub http_client_disconnected : ℤ
http_client_disconnected = pos 0

-- The result of poll on the one descriptor.
pub data Poll : Type 0 where
  timed_out poll_error ready : Poll

-- The loop over the bytes read; the flag is `new_line_begin`.
line_loop : Bool → Bytes → List Bytes → Bytes → List Bytes
line_loop new_line temp buffer [] = buffer
line_loop new_line temp buffer (c ∷ s) =
    line_loop (c == char_lf) ((if new_line then [] else temp) ++ c ∷ [])
      (if new_line then buffer ++ temp ∷ [] else buffer) s

unfoldable pub split_lines : Bytes → List Bytes
unfolding line_loop
split_lines tmp_buffer = line_loop false [] [] tmp_buffer

-- The read itself, with poll in front of it if there is a timeout.
read_request : ℕ → Poll → Option Bytes → ℤ × Bytes
read_request zero poll received = recv received
read_request (suc t) timed_out received = (http_read_timedout, [])
read_request (suc t) poll_error received = (negsuc 0, [])
read_request (suc t) ready received = recv received

-- recv_req, with its result and the caller's vector afterwards.
unfoldable pub recv_req : ℕ → Poll → Option Bytes → List Bytes → ℤ × List Bytes
unfolding read_request
recv_req timeout poll received buffer =
    let (ret, tmp_buffer) = read_request timeout poll received in
    (ret, if ltb_ℤ (pos 0) ret then split_lines tmp_buffer else buffer)
