-- ===== src/Http/Request/Parts.antt =====
-- Round trips of the parts of a request: the first line, and a header line.
use http_file_sharing.Prelude.{
  ℕ, zero, suc, ◌≡◌, refl, ◌≢◌, true, false, [], ◌∷◌, ◌++◌, append_assoc, append-nil, arith, Bytes,
  bytes_eq, Lacks, replicate,
}
use http_file_sharing.Http.Request.{
  char_space, char_colon, char_cr, crlf, until_space, parse_http_method, until_colon, value_loop,
  split_line_colon,
}

until_space-append :
    (w word s : Bytes)
    → Lacks char_space w
    → until_space word (w ++ char_space ∷ s) ≡ (word ++ w, s)
unfolding until_space
until_space-append [] word s h = ground (arith, append-nil word)
until_space-append (c ∷ w) word s h =
    ground (arith, until_space-append w (word ++ c ∷ []) s, append_assoc word (c ∷ []) w)

until_space_all : (w word : Bytes) → Lacks char_space w → until_space word w ≡ (word ++ w, [])
unfolding until_space
until_space_all [] word h = ground (arith, append-nil word)
until_space_all (c ∷ w) word h =
    ground (arith, until_space_all w (word ++ c ∷ []), append_assoc word (c ∷ []) w)

-- A request line of three parts without spaces, set apart by one space each, is parsed into these
-- parts; the third is the version with the line's CR LF.
pub parse_http_method_print :
    (method uri ver : Bytes)
    → Lacks char_space method
    → Lacks char_space uri
    → Lacks char_space ver
    → parse_http_method (method ++ char_space ∷ (uri ++ char_space ∷ ver)) ≡ (method, uri, ver)
unfolding parse_http_method
parse_http_method_print m u v hm hu hv = ground (
  arith,
  until_space-append m [] (u ++ char_space ∷ v) hm,
  until_space-append u [] v hu,
  until_space_all v [] hv,
)

until_colon-append :
    (k first s : Bytes)
    → Lacks char_colon k
    → until_colon first (k ++ char_colon ∷ s) ≡ (first ++ k, s)
unfolding until_colon
until_colon-append [] first s h = ground (arith, append-nil first)
until_colon-append (c ∷ k) first s h =
    ground (arith, until_colon-append k (first ++ c ∷ []) s, append_assoc first (c ∷ []) k)

value_loop_spaces :
    (n : ℕ) (second s : Bytes)
    → value_loop true second (replicate n char_space ++ s) ≡ value_loop true second s
unfolding value_loop
value_loop_spaces zero second s = refl
value_loop_spaces (suc n) second s = ground (arith, value_loop_spaces n second s)

value_loop_text :
    (v second s : Bytes)
    → Lacks char_cr v
    → value_loop false second (v ++ char_cr ∷ s) ≡ second ++ v
unfolding value_loop
value_loop_text [] second s h = ground (arith, append-nil second)
value_loop_text (c ∷ v) second s h =
    ground (arith, value_loop_text v (second ++ c ∷ []) s, append_assoc second (c ∷ []) v)

-- A value as a header line can hold it: no CR, and no space in front.
abbrev pub IsValue : Bytes → Type 0
IsValue [] = Unit
IsValue (c ∷ v) = (c ≢ char_space) × Lacks char_cr (c ∷ v)

value_loop_value : (v s : Bytes) → IsValue v → value_loop true [] (v ++ char_cr ∷ s) ≡ v
unfolding value_loop
value_loop_value [] s h = ground arith
value_loop_value (c ∷ v) s h = ground (arith, value_loop_text v (c ∷ []) s h.1.1)

-- A header line is split into its key, which holds no colon, and its value, whatever the number of
-- spaces after the colon and whatever follows the CR.
pub split_line_colon_print :
    (n : ℕ) (key val s : Bytes)
    → Lacks char_colon key
    → IsValue val
    → split_line_colon (key ++ char_colon ∷ (replicate n char_space ++ (val ++ char_cr ∷ s)))
      ≡ (key, val)
unfolding split_line_colon
split_line_colon_print n k v s hk hv = ground (
  arith,
  until_colon-append k [] (replicate n char_space ++ (v ++ char_cr ∷ s)) hk,
  value_loop_spaces n [] (v ++ char_cr ∷ s),
  value_loop_value v s hv,
)

-- A header as a client prints it.
abbrev pub header_line : Bytes × Bytes → Bytes
header_line (k, v) = k ++ char_colon ∷ (char_space ∷ (v ++ crlf))

abbrev pub IsHeader : Bytes × Bytes → Type 0
IsHeader (k, v) = Lacks char_colon k × IsValue v

pub header_line-ne-crlf : (k s : Bytes) → bytes_eq (k ++ char_colon ∷ s) crlf ≡ false
header_line-ne-crlf [] s = refl
header_line-ne-crlf (a ∷ []) s = ground arith
header_line-ne-crlf (a ∷ b ∷ []) s = ground arith
header_line-ne-crlf (a ∷ b ∷ c ∷ k) s = ground arith

pub split_header_line :
    (k v : Bytes) → IsHeader (k, v) → split_line_colon (header_line (k, v)) ≡ (k, v)
split_header_line k v h = split_line_colon_print 1 k v _ h.0 h.1
