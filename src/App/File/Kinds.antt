-- ===== src/App/File/Kinds.antt =====
-- Which names is_text_file takes for text.
use http_file_sharing.Prelude.{
  ℕ, ◌≡◌, refl, ◌∙◌, ◌≢◌, true, false, none, some, List, [], ◌∷◌, ◌++◌, arith, length, drop, All,
  All-append, Bytes, bytes_eq, Lacks,
}
use http_file_sharing.Prelude.Replace.{rfind}
use http_file_sharing.App.File.{supported_text_file_types, matches_any, is_text_file}

rfind-Lacks : (s : Bytes) (c : ℕ) → Lacks c s → rfind s c ≡ none
unfolding rfind
rfind-Lacks [] c h = refl
rfind-Lacks (d ∷ s) c h = ground (arith, rfind-Lacks s c (h.1))

rfind-last : (p s : Bytes) (c : ℕ) → Lacks c s → rfind (p ++ c ∷ s) c ≡ some (length p)
unfolding rfind
rfind-last [] s c h = ground (arith, rfind-Lacks s c h)
rfind-last (d ∷ p) s c h = ground (arith, rfind-last p s c h)

drop-length : (p s : Bytes) → drop (length p) (p ++ s) ≡ s
drop-length [] s = refl
drop-length (d ∷ p) s = drop-length p s

-- A name without a dot is text; of any other the part from the last dot on decides, which must be
-- one of the supported types.
pub is_text_file_extension :
    (base extension : Bytes)
    → Lacks b'.' extension
    → (is_text_file extension ≡ true)
      × (is_text_file (base ++ b'.' ∷ extension)
          ≡ matches_any (b'.' ∷ extension) supported_text_file_types)
unfolding is_text_file
is_text_file_extension base extension h = (
  rw (rfind-Lacks extension b'.' h, is_text_file),
  rw (rfind-last base extension b'.' h, is_text_file, drop-length base (b'.' ∷ extension)),
)

bytes_eq-slash : (t e s : Bytes) → Lacks b'/' t → bytes_eq t (e ++ b'/' ∷ s) ≡ false
bytes_eq-slash [] [] s h = refl
bytes_eq-slash [] (d ∷ e) s h = refl
bytes_eq-slash (c ∷ t) [] s h = ground arith
bytes_eq-slash (c ∷ t) (d ∷ e) s h = ground (arith, bytes_eq-slash t e s (h.1))

matches_any-slash :
    (e s : Bytes) (types : List Bytes)
    → All (Lacks b'/') types
    → matches_any (e ++ b'/' ∷ s) types ≡ false
matches_any-slash e s [] h = refl
matches_any-slash e s (t ∷ types) h =
    rw (bytes_eq-slash t e s (h.0), matches_any-slash e s types (h.1))

Lacks-append : (b : ℕ) (p s : Bytes) → Lacks b p → Lacks b s → Lacks b (p ++ s)
Lacks-append b p s = All-append (λ c. c ≢ b) p s

-- A file without an extension, in a directory whose path has a dot in its last dotted component,
-- is not taken for text: the search for the dot does not stop at the slash.
pub is_text_file_dotted_dir :
    (base part name : Bytes)
    → Lacks b'.' part
    → Lacks b'.' name
    → (is_text_file name ≡ true) × (is_text_file (base ++ b'.' ∷ (part ++ b'/' ∷ name)) ≡ false)
is_text_file_dotted_dir base part name hp hn =
    let whole : Lacks b'.' (part ++ b'/' ∷ name) =
      Lacks-append b'.' part (b'/' ∷ name) hp (omega arith, hn) in
    (
      (is_text_file_extension base name hn).0,
      (is_text_file_extension base (part ++ b'/' ∷ name) whole).1
          ∙ matches_any-slash (b'.' ∷ part) name supported_text_file_types (omega arith),
    )
