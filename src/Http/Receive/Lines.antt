-- ===== src/Http/Receive/Lines.antt =====
-- Which lines a read yields.
use http_file_sharing.Prelude.{
  ℕ, zero, suc, ◌-◌, ◌≤◌, ◌<◌, ◌≡◌, refl, sym, ap, ◌∙◌, ◌≢◌, Bool, true, false, some, List, [], ◌∷◌,
  ◌++◌, append_assoc, append-nil, arith, ◌==◌, if◌then◌else◌, length, replicate, length-append,
  length-replicate, All, All-append, Bytes, Lacks,
}
use http_file_sharing.Prelude.Int.{pos, ltb_ℤ}
use http_file_sharing.Tcp.Connection.{default_buffer_size, recv}
use http_file_sharing.Http.Request.{char_lf}
use http_file_sharing.Http.Receive.{Poll, line_loop, split_lines, recv_req}

-- A line as the reader keeps it: its end is its only LF.
abbrev pub IsLine : Bytes → Type 0
IsLine [] = ⊥
IsLine (c ∷ []) = c ≡ char_lf
IsLine (c ∷ d ∷ s) = (c ≢ char_lf) × IsLine (d ∷ s)

abbrev pub flatten : List Bytes → Bytes
flatten [] = []
flatten (line ∷ lines) = line ++ flatten lines

line_loop_other :
    (c : ℕ) (s : Bytes) (new_line : Bool) (temp : Bytes) (buffer : List Bytes)
    → c ≢ char_lf
    → line_loop new_line temp buffer (c ∷ s)
      ≡ line_loop false
          ((if new_line then [] else temp) ++ c ∷ [])
          (if new_line then buffer ++ temp ∷ [] else buffer)
          s
unfolding line_loop
line_loop_other c s n temp buffer h =
    let c_test : (c == char_lf) ≡ false = ground arith in
    ap
      (λ t.
        line_loop t ((if n then [] else temp) ++ c ∷ []) (if n then buffer ++ temp ∷ [] else buffer)
          s)
      c_test

-- Behind a line, the next byte starts a new one.
line_loop-append :
    (line s : Bytes) (new_line : Bool) (temp : Bytes) (buffer : List Bytes)
    → IsLine line
    → line_loop new_line temp buffer (line ++ s)
      ≡ line_loop true
          ((if new_line then [] else temp) ++ line)
          (if new_line then buffer ++ temp ∷ [] else buffer)
          s
line_loop-append [] s n temp buffer h = absurd h
line_loop-append (c ∷ []) s n temp buffer h = unfold line_loop in ground arith
line_loop-append (c ∷ d ∷ line) s n temp buffer h =
    line_loop_other c (d ∷ line ++ s) n temp buffer (h.0)
    ∙ line_loop-append (d ∷ line) s false ((if n then [] else temp) ++ c ∷ [])
        (if n then buffer ++ temp ∷ [] else buffer) (h.1)
    ∙ ap (λ t. line_loop true t (if n then buffer ++ temp ∷ [] else buffer) s)
        (append_assoc (if n then [] else temp) (c ∷ []) (d ∷ line))

-- Bytes with no LF in them add nothing but the line in front of them.
line_loop-Lacks :
    (s temp : Bytes) (buffer : List Bytes)
    → Lacks char_lf s
    → line_loop false temp buffer s ≡ buffer
line_loop-Lacks [] temp buffer h = unfold line_loop in refl
line_loop-Lacks (c ∷ s) temp buffer h =
    line_loop_other c s false temp buffer (h.0) ∙ line_loop-Lacks s (temp ++ c ∷ []) buffer (h.1)

line_loop-flatten :
    (lines : List Bytes) (line rest : Bytes) (buffer : List Bytes)
    → All IsLine lines
    → Lacks char_lf rest
    → rest ≢ []
    → line_loop true line buffer (flatten lines ++ rest) ≡ buffer ++ line ∷ lines
line_loop-flatten [] line [] buffer w h ne = absurd (ne refl)
line_loop-flatten [] line (c ∷ rest) buffer w h ne =
    line_loop_other c rest true line buffer (h.0)
    ∙ line_loop-Lacks rest (c ∷ []) (buffer ++ line ∷ []) (h.1)
line_loop-flatten (next ∷ lines) line rest buffer w h ne =
    ap (line_loop true line buffer) (append_assoc next (flatten lines) rest)
    ∙ line_loop-append next (flatten lines ++ rest) true line buffer (w.0)
    ∙ line_loop-flatten lines next rest (buffer ++ line ∷ []) (w.1) h ne
    ∙ append_assoc buffer (line ∷ []) (next ∷ lines)

-- Text that is whole lines and a non-empty rest without LF is cut into exactly these lines; the
-- rest is dropped.
pub split_lines-flatten :
    (lines : List Bytes) (rest : Bytes)
    → All IsLine lines
    → Lacks char_lf rest
    → rest ≢ []
    → split_lines (flatten lines ++ rest) ≡ lines
unfolding split_lines
split_lines-flatten [] rest w h ne = line_loop-Lacks rest [] [] h
split_lines-flatten (line ∷ lines) rest w h ne =
    ap (line_loop false [] []) (append_assoc line (flatten lines) rest)
    ∙ line_loop-append line (flatten lines ++ rest) false [] [] (w.0)
    ∙ line_loop-flatten lines line rest [] (w.1) h ne

replicate-Lacks : (n : ℕ) → Lacks char_lf (replicate n 0)
replicate-Lacks zero = tt
replicate-Lacks (suc n) = (omega arith, replicate-Lacks n)

-- A blocking read that yields something cuts the whole buffer, zeros included.
recv_req_read :
    (poll : Poll) (received : Bytes) (buffer : List Bytes)
    → 0 < length received
    → recv_req 0 poll (some received) buffer ≡ (
      pos (length received),
      split_lines (received ++ replicate (default_buffer_size - length received) 0),
    )
unfolding recv_req recv
recv_req_read poll received buffer h =
    let test : ltb_ℤ (pos 0) (pos (length received)) ≡ true = ground arith in rw test

-- A blocking read of a request that fits the 2048 bytes of the buffer, not empty, made of whole
-- lines and a rest without LF, with room or a rest behind the last line: the result is the number
-- of bytes read, and the vector holds exactly the lines, whatever it held before; a last line
-- that has no LF is lost.
pub recv_req_lines :
    (poll : Poll) (lines : List Bytes) (rest : Bytes) (buffer : List Bytes)
    → All IsLine lines
    → Lacks char_lf rest
    → let received = flatten lines ++ rest in
      0 < length received
      → length received ≤ default_buffer_size
      → length (flatten lines) < default_buffer_size
      → recv_req 0 poll (some received) buffer ≡ (pos (length received), lines)
recv_req_lines poll lines rest buffer w h nonempty fits room =
    let zeros = replicate (default_buffer_size - length (flatten lines ++ rest)) 0 in
    recv_req_read poll (flatten lines ++ rest) buffer nonempty
    ∙ ap (λ t. (pos (length (flatten lines ++ rest)), split_lines t))
        (append_assoc (flatten lines) rest zeros)
    ∙ ap (λ t. (pos (length (flatten lines ++ rest)), t))
        (split_lines-flatten lines (rest ++ zeros) w
          (All-append (λ c. c ≢ char_lf) rest zeros h (replicate-Lacks _))
          (λ e. absurd (
            omega (
              arith,
              ap length e,
              length-append (flatten lines) rest,
              length-append rest zeros,
              length-replicate (default_buffer_size - length (flatten lines ++ rest)) (zero),
            ))))

line_loop_last :
    (lines : List Bytes) (line last : Bytes) (buffer : List Bytes)
    → All IsLine lines
    → IsLine last
    → line_loop true line buffer (flatten lines ++ last) ≡ buffer ++ line ∷ lines
line_loop_last [] line last buffer w h =
    ap (line_loop true line buffer) (sym (append-nil last))
    ∙ line_loop-append last [] true line buffer h
    ∙ unfold line_loop in refl
line_loop_last (next ∷ lines) line last buffer w h =
    ap (line_loop true line buffer) (append_assoc next (flatten lines) last)
    ∙ line_loop-append next (flatten lines ++ last) true line buffer (w.0)
    ∙ line_loop_last lines next last (buffer ++ line ∷ []) (w.1) h
    ∙ append_assoc buffer (line ∷ []) (next ∷ lines)

split_lines_last :
    (lines : List Bytes) (last : Bytes)
    → All IsLine lines
    → IsLine last
    → split_lines (flatten lines ++ last) ≡ lines
unfolding split_lines
split_lines_last [] last w h =
    ap (line_loop false [] []) (sym (append-nil last))
    ∙ line_loop-append last [] false [] [] h
    ∙ unfold line_loop in refl
split_lines_last (line ∷ lines) last w h =
    ap (line_loop false [] []) (append_assoc line (flatten lines) last)
    ∙ line_loop-append line (flatten lines ++ last) false [] [] (w.0)
    ∙ line_loop_last lines line last [] (w.1) h

-- When whole lines fill the buffer to its last byte, the last line is lost, though it is complete.
pub recv_req_full :
    (poll : Poll) (lines : List Bytes) (last : Bytes) (buffer : List Bytes)
    → All IsLine lines
    → IsLine last
    → length (flatten lines ++ last) ≡ default_buffer_size
    → recv_req 0 poll (some (flatten lines ++ last)) buffer ≡ (pos default_buffer_size, lines)
recv_req_full poll lines last buffer w h full =
    recv_req_read poll (flatten lines ++ last) buffer (omega arith)
    ∙ rw (full, append-nil (flatten lines ++ last), split_lines_last lines last w h)
