-- ===== src/App/Html/Parents.antt =====
-- The search for the parent of a path.
use http_file_sharing.Prelude.{
  ℕ, suc, ◌+◌, ◌-◌, ◌≤◌, ◌≡◌, refl, ap, ◌∙◌, ◌≢◌, true, false, none, some, [], ◌∷◌, ◌++◌,
  append_assoc, arith, ◌==◌, if◌then◌else◌, ◌>>=◌, length, get_or, take, length-append, Bytes,
  Lacks,
}
use http_file_sharing.Filesys.{slash, last_slash}
use http_file_sharing.Filesys.Names.{
  get_or-Lacks, get_or-middle, last_slash-middle, last_slash-Lacks, last_slash-append_left,
}
use http_file_sharing.App.Html.{get_parent_dir}

-- get_parent_dir on a path with at least one byte.
searched : Bytes → ℕ
searched path = if get_or path (length path - 1) 0 == slash then length path - 1 else length path

get_parent_dir-searched :
    (path : Bytes)
    → path ≢ []
    → get_parent_dir path ≡ (last_slash path (searched path) >>= λ max. some (take (max + 1) path))
unfolding get_parent_dir searched
get_parent_dir-searched [] h = absurd (h refl)
get_parent_dir-searched (c ∷ s) h = refl

take-middle : (p q : Bytes) (c : ℕ) → take (length p + 1) (p ++ c ∷ q) ≡ p ++ c ∷ []
take-middle [] q c = refl
take-middle (d ∷ p) q c =
    let step : suc (length p) + 1 ≡ suc (length p + 1) = omega arith in
    rw step (ap (λ t. d ∷ t) (take-middle p q c))

middle-ne-nil : (p q : Bytes) (c : ℕ) → p ++ c ∷ q ≢ []
middle-ne-nil [] q c = λ e. cc
middle-ne-nil (d ∷ p) q c = λ e. cc

-- Of a path that ends in a name, the parent is what stands up to the slash in front of it.
pub get_parent_dir_name :
    (p name : Bytes)
    → Lacks slash name
    → name ≢ []
    → get_parent_dir (p ++ slash ∷ name) ≡ some (p ++ slash ∷ [])
get_parent_dir_name p [] l ne = absurd (ne refl)
get_parent_dir_name p (c ∷ name) l ne =
    let path = p ++ slash ∷ (c ∷ name) in
    let size : length path ≡ length p + suc (suc (length name)) =
      omega (arith, length-append p (slash ∷ c ∷ name)) in
    let final : length path - 1 ≡ length p + suc (length name) = omega arith in
    let last_byte : (get_or path (length path - 1) 0 == slash) ≡ false =
      rw (final, get_or-middle p (c ∷ name) slash (suc (length name)))
        (get_or-Lacks (c ∷ name) (length name) l (omega arith)) in
    let all : searched path ≡ length p + suc (suc (length name)) =
      unfold searched in rw last_byte size in
    get_parent_dir-searched path (middle-ne-nil p (c ∷ name) slash)
    ∙ rw (
      all,
      last_slash-middle p (c ∷ name) (suc (length name)) l (omega arith),
      take-middle p (c ∷ name) slash,
    )

-- The same with a slash behind the name.
pub get_parent_dir-slash :
    (p name : Bytes)
    → Lacks slash name
    → get_parent_dir ((p ++ slash ∷ name) ++ slash ∷ []) ≡ some (p ++ slash ∷ [])
get_parent_dir-slash p name l =
    let front = p ++ slash ∷ name in
    let path = front ++ slash ∷ [] in
    let size : length front ≡ length p + suc (length name) =
      omega (arith, length-append p (slash ∷ name)) in
    let final : length path - 1 ≡ length front + 0 =
      omega (arith, length-append front (slash ∷ [])) in
    let last_byte : (get_or path (length path - 1) 0 == slash) ≡ true =
      rw (final, get_or-middle front [] slash 0) refl in
    let all : searched path ≡ length p + suc (length name) =
      unfold searched in rw last_byte (omega arith) in
    get_parent_dir-searched path (middle-ne-nil front [] slash)
    ∙ rw (
      all,
      last_slash-append_left front (slash ∷ []) (length p + suc (length name)) (omega arith),
      last_slash-middle p name (length name) l (omega arith),
      append_assoc p (slash ∷ name) (slash ∷ []),
      take-middle p (name ++ slash ∷ []) slash,
    )

-- Without a slash the search leaves the path.
pub get_parent_dir-none : (path : Bytes) → Lacks slash path → get_parent_dir path ≡ none
get_parent_dir-none [] l = unfold get_parent_dir in refl
get_parent_dir-none (c ∷ s) l =
    let within : searched (c ∷ s) ≤ length (c ∷ s) = unfold searched in ground arith in
    get_parent_dir-searched (c ∷ s) (λ e. cc)
    ∙ rw (last_slash-Lacks (c ∷ s) (searched (c ∷ s)) l within)
