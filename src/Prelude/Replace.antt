-- ===== src/Prelude/Replace.antt =====
-- std::regex_replace with a literal pattern: from the left, each occurrence that does not overlap
-- the one before is replaced. And `rfind`.
use http_file_sharing.Prelude.{
  ℕ, zero, suc, ◌-◌, ◌≡◌, refl, ap, ◌∙◌, inl, inr, true, false, Option, none, some, [], ◌∷◌, ◌++◌,
  arith, ◌==◌, if◌then◌else◌, Bool-cases, length, Bytes, codes, starts_with,
}

-- The first argument counts the bytes of an occurrence that are still to be passed over.
pub replace_loop : Bytes → Bytes → ℕ → Bytes → Bytes
replace_loop pattern by n [] = []
replace_loop pattern by (suc n) (c ∷ s) = replace_loop pattern by n s
replace_loop pattern by zero (c ∷ s) = elim (starts_with pattern (c ∷ s)) [
  | true ↦ by ++ replace_loop pattern by (length pattern - 1) s
  | false ↦ c ∷ replace_loop pattern by zero s
]

unfoldable pub regex_replace : Bytes → Bytes → Bytes → Bytes
unfolding replace_loop
regex_replace subject pattern by = replace_loop pattern by 0 subject

-- A byte that no occurrence begins with stays in front.
pub regex_replace-skip :
    (c d : ℕ) (s pattern by : Bytes)
    → (d == c) ≡ false
    → regex_replace (c ∷ s) (d ∷ pattern) by ≡ c ∷ regex_replace s (d ∷ pattern) by
unfolding regex_replace replace_loop
regex_replace-skip c d s pattern by h = ground arith

-- The position of the last byte `c`, as std::string::rfind gives it.
unfoldable pub rfind : Bytes → ℕ → Option ℕ
rfind [] c = none
rfind (d ∷ s) c = elim (rfind s c) [
  | some i ↦ some (suc i)
  | none ↦ if d == c then some 0 else none
]

abbrev pub escape : Bytes
escape = codes "%20"

abbrev pub blank : Bytes
blank = codes " "

-- The text with its spaces escaped, and with its escapes undone.
abbrev pub encode : Bytes → Bytes
encode s = regex_replace s blank escape

abbrev pub decode : Bytes → Bytes
decode s = regex_replace s escape blank

-- No position of the text holds "%20".
abbrev pub NoEscape : Bytes → Type 0
NoEscape [] = Unit {0}
NoEscape (c ∷ s) = (starts_with escape (c ∷ s) ≡ false) × NoEscape s

encode_step :
    (c : ℕ) (s : Bytes) → encode (c ∷ s) ≡ (if c == b' ' then escape ++ encode s else c ∷ encode s)
unfolding regex_replace
encode_step c s = ground arith

decode-escape : (s : Bytes) → decode (escape ++ s) ≡ b' ' ∷ decode s
unfolding regex_replace
decode-escape s = refl

pub decode_other :
    (c : ℕ) (s : Bytes) → starts_with escape (c ∷ s) ≡ false → decode (c ∷ s) ≡ c ∷ decode s
unfolding regex_replace
decode_other c s h = rw (h, replace_loop)

encode-nil : encode [] ≡ []
unfolding regex_replace
encode-nil = refl

starts_with-encode_zero :
    (s : Bytes) → starts_with (codes "0") (encode s) ≡ starts_with (codes "0") s
starts_with-encode_zero [] = rw encode-nil
starts_with-encode_zero (a ∷ s) = elim (Bool-cases (a == b' ')) [
  | inl e ↦ rw (encode_step a s, e) (ground (arith, e))
  | inr e ↦ rw (encode_step a s, e) refl
]

starts_with-encode_twenty :
    (s : Bytes) → starts_with (codes "20") (encode s) ≡ starts_with (codes "20") s
starts_with-encode_twenty [] = rw encode-nil
starts_with-encode_twenty (a ∷ s) = elim (Bool-cases (a == b' ')) [
  | inl e ↦ rw (encode_step a s, e) (ground (arith, e))
  | inr e ↦ rw (encode_step a s, e, starts_with-encode_zero s) refl
]

-- Encoding makes no escape behind a byte that had none.
starts_with-encode :
    (c : ℕ) (s : Bytes)
    → starts_with escape (c ∷ s) ≡ false
    → starts_with escape (c ∷ encode s) ≡ false
starts_with-encode c s h = rw (starts_with-encode_twenty s) h

-- The escapes of the spaces are undone, in a text that held no escape before.
pub decode-encode : (s : Bytes) → NoEscape s → decode (encode s) ≡ s
decode-encode [] h = unfold regex_replace in refl
decode-encode (c ∷ s) h = elim (Bool-cases (c == b' ')) [
  | inl e ↦
      let space : c ≡ b' ' = ground arith in
      rw (encode_step c s, e, decode-escape (encode s), decode-encode s (h.1), space)
  | inr e ↦ rw (
    encode_step c s,
    e,
    decode_other c (encode s) (starts_with-encode c s (h.0)),
    decode-encode s (h.1),
  )
]

-- A slash ends no escape, so the text in front of it is decoded by itself: unchanged, if it held
-- none.
starts_with-slash :
    (q s : Bytes) (c : ℕ)
    → starts_with escape (c ∷ q) ≡ false
    → starts_with escape (c ∷ (q ++ b'/' ∷ s)) ≡ false
starts_with-slash [] s c h = ground arith
starts_with-slash (a ∷ []) s c h = ground arith
starts_with-slash (a ∷ b ∷ q) s c h = h

pub decode-slash : (q s : Bytes) → NoEscape q → decode (q ++ b'/' ∷ s) ≡ q ++ b'/' ∷ decode s
decode-slash [] s h = decode_other b'/' s refl
decode-slash (c ∷ q) s h =
    decode_other c (q ++ b'/' ∷ s) (starts_with-slash q s c (h.0))
    ∙ ap (λ t. c ∷ t) (decode-slash q s (h.1))
