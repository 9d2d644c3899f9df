-- ===== src/Http/Receive/Tests.antt =====
-- Runs of the reader on concrete requests.
use http_file_sharing.Prelude.{
  ℕ, zero, suc, ◌+◌, ◌≡◌, refl, none, some, [], ◌∷◌, ◌++◌, arith, length, replicate, length-append,
  length-replicate, Bytes, codes,
}
use http_file_sharing.Prelude.Int.{pos, negsuc}
use http_file_sharing.Http.Request.{char_lf}
use http_file_sharing.Http.Receive.{ready, timed_out, split_lines, recv_req}
use http_file_sharing.Http.Receive.Lines.{IsLine, flatten, recv_req_lines}

abbrev get_line : Bytes
get_line = codes "GET / HTTP/1.0\r\n"

abbrev blank_line : Bytes
blank_line = codes "\r\n"

-- The rest, a body without a line end, is lost.
split_lines_rest : split_lines (codes "GET / HTTP/1.0\r\n\r\nbody") ≡ get_line ∷ blank_line ∷ []
unfolding split_lines
split_lines_rest = refl

recv_req_timed_out : recv_req 5 timed_out none (get_line ∷ []) ≡ (negsuc 1, get_line ∷ [])
unfolding recv_req
recv_req_timed_out = refl

recv_req_lines_example :
    recv_req 0 ready (some (flatten (get_line ∷ blank_line ∷ []) ++ codes "body")) []
    ≡ (pos 22, get_line ∷ blank_line ∷ [])
recv_req_lines_example =
    recv_req_lines ready (get_line ∷ blank_line ∷ []) (codes "body") [] (omega arith) (omega arith)
      (omega arith) (omega arith) (omega arith)

long_line : ℕ → Bytes
long_line n = replicate n b'a' ++ char_lf ∷ []

long_line-IsLine : (n : ℕ) → IsLine (long_line n)
unfolding long_line
long_line-IsLine zero = refl
long_line-IsLine (suc zero) = (omega arith, refl)
long_line-IsLine (suc (suc n)) = (omega arith, long_line-IsLine (suc n))

length-long_line : (n : ℕ) → length (long_line n) ≡ n + 1
unfolding long_line
length-long_line n =
    omega (arith, length-append (replicate n b'a') (char_lf ∷ []), length-replicate {A = ℕ} n b'a')
