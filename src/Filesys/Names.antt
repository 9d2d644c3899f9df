-- ===== src/Filesys/Names.antt =====
-- The name behind the last slash of a path.
use http_file_sharing.Prelude.{
  ℕ, zero, suc, ◌+◌, ◌≤◌, ◌<◌, ◌≡◌, refl, inl, inr, false, none, some, [], ◌∷◌, ◌++◌, arith, ◌==◌,
  Bool-cases, length, get_or, drop, length-append, Bytes, Lacks,
}
use native.Mathlib.Nat.{add-zero, zero-add}
use http_file_sharing.Filesys.{slash, last_slash, extract_name_from_path}

pub get_or-append_left : (p q : Bytes) (i : ℕ) → i < length p → get_or (p ++ q) i 0 ≡ get_or p i 0
get_or-append_left [] q i h = absurd (omega arith)
get_or-append_left (c ∷ p) q zero h = refl
get_or-append_left (c ∷ p) q (suc i) h = get_or-append_left p q i (omega arith)

pub get_or-Lacks :
    (p : Bytes) (i : ℕ) → Lacks slash p → i < length p → (get_or p i 0 == slash) ≡ false
get_or-Lacks [] i l h = absurd (omega arith)
get_or-Lacks (c ∷ p) zero l h = ground arith
get_or-Lacks (c ∷ p) (suc i) l h = get_or-Lacks p i (l.1) (omega arith)

pub get_or-middle :
    (p q : Bytes) (c i : ℕ) → get_or (p ++ c ∷ q) (length p + i) 0 ≡ get_or (c ∷ q) i 0
get_or-middle [] q c i = rw zero-add
get_or-middle (d ∷ p) q c i =
    let step : suc (length p) + i ≡ suc (length p + i) = omega arith in
    rw step (get_or-middle p q c i)

-- Behind the last slash the search finds nothing, and stops at it.
pub last_slash-middle :
    (p q : Bytes) (k : ℕ)
    → Lacks slash q
    → k ≤ length q
    → last_slash (p ++ slash ∷ q) (length p + suc k) ≡ some (length p)
unfolding last_slash
last_slash-middle p q zero l h =
    let step : length p + 1 ≡ suc (length p) = omega arith in
    let here : get_or (p ++ slash ∷ q) (length p) 0 ≡ slash =
      rw (add-zero (length p)) at (get_or-middle p q slash 0) in
    rw step (ground (arith, here))
last_slash-middle p q (suc k) l h =
    let step : length p + suc (suc k) ≡ suc (length p + suc k) = omega arith in
    let other : (get_or (p ++ slash ∷ q) (length p + suc k) 0 == slash) ≡ false =
      rw (get_or-middle p q slash (suc k)) (get_or-Lacks q k l h) in
    rw (step, other) (last_slash-middle p q k l (omega arith))

pub last_slash-Lacks : (p : Bytes) (k : ℕ) → Lacks slash p → k ≤ length p → last_slash p k ≡ none
unfolding last_slash
last_slash-Lacks p zero l h = refl
last_slash-Lacks p (suc k) l h = rw (get_or-Lacks p k l h) (last_slash-Lacks p k l (omega arith))

drop-middle : (p q : Bytes) (c : ℕ) → drop (length p + 1) (p ++ c ∷ q) ≡ q
drop-middle [] q c = refl
drop-middle (d ∷ p) q c =
    let step : suc (length p) + 1 ≡ suc (length p + 1) = omega arith in rw step (drop-middle p q c)

-- Of a path with a slash the name is what follows the last slash.
pub extract_name_last :
    (p name : Bytes) → Lacks slash name → extract_name_from_path (p ++ slash ∷ name) ≡ some name
unfolding extract_name_from_path
extract_name_last p name l =
    let size : length (p ++ slash ∷ name) ≡ length p + suc (length name) =
      omega (arith, length-append p (slash ∷ name)) in
    rw (size, last_slash-middle p name (length name) l (omega arith), drop-middle p name slash)

-- On a path without a slash the search leaves the path: the index wraps around.
pub extract_name_none : (p : Bytes) → Lacks slash p → extract_name_from_path p ≡ none
unfolding extract_name_from_path
extract_name_none p l = rw (last_slash-Lacks p (length p) l (omega arith))

pub last_slash-append_left :
    (p q : Bytes) (k : ℕ) → k ≤ length p → last_slash (p ++ q) k ≡ last_slash p k
unfolding last_slash
last_slash-append_left p q zero h = refl
last_slash-append_left p q (suc k) h =
    rw (get_or-append_left p q k (omega arith), last_slash-append_left p q k (omega arith))

-- Behind a slash in front the search always finds something.
pub last_slash-cons : (s : Bytes) (k : ℕ) → (max : ℕ) × (last_slash (slash ∷ s) (suc k) ≡ some max)
unfolding last_slash
last_slash-cons s zero = (0, refl)
last_slash-cons s (suc k) = elim (Bool-cases (get_or s k 0 == slash)) [
  | inl e ↦ (suc k, rw e)
  | inr e ↦ rw e (last_slash-cons s k)
]
