-- ===== src/Prelude/Dict.antt =====
-- `std::map` with texts for keys: `find`, `emplace` or `insert` (which keep an entry that is
-- there), and a write through the iterator that `find` returned.
use http_file_sharing.Prelude.{
  ◌≡◌, refl, inl, inr, List, [], ◌∷◌, ◌++◌, Option, none, some, arith, if◌then◌else◌, Bytes,
  bytes_eq, bytes_eq_sound, bytes_eq_refl, Bool-cases,
}

abbrev pub or_else {ℓ} : {A : Type ℓ} → Option A → Option A → Option A
or_else none b = b
or_else (some a) b = some a

module _ {ℓ} {V : Type ℓ} where
  unfoldable pub find : Bytes → List (Bytes × V) → Option V
  find k [] = none
  find k ((j, v) ∷ m) = if bytes_eq j k then some v else find k m

  unfoldable pub emplace : Bytes → V → List (Bytes × V) → List (Bytes × V)
  emplace k v m = elim (find k m) [ none ↦ (k, v) ∷ m | some w ↦ m ]

  unfoldable pub assign : Bytes → V → List (Bytes × V) → List (Bytes × V)
  assign k v [] = []
  assign k v ((j, w) ∷ m) = if bytes_eq j k then (j, v) ∷ m else (j, w) ∷ assign k v m

  pub find-emplace :
      (k j : Bytes) (v : V) (m : List (Bytes × V))
      → find j (emplace k v m) ≡ or_else (find j m) (if bytes_eq k j then some v else none)
  unfolding emplace find
  find-emplace k j v m = elim (Bool-cases (bytes_eq k j)) [
    | inl e ↦ rw (bytes_eq_sound k j e) (ground (arith, bytes_eq_refl j))
    | inr e ↦ ground (arith, e)
  ]

  pub find-assign :
      (k j : Bytes) (v w : V) (m : List (Bytes × V))
      → find k m ≡ some w
      → find j (assign k v m) ≡ (if bytes_eq k j then some v else find j m)
  unfolding assign find
  find-assign k j v w [] h = ground arith
  find-assign k j v w ((i, x) ∷ m) h = ground (
    arith,
    find-assign k j v w m,
    bytes_eq_sound i k,
    bytes_eq_sound i j,
    bytes_eq_sound k j,
    bytes_eq_refl k,
    bytes_eq_refl j,
  )

  pub find-append :
      (k : Bytes) (m n : List (Bytes × V)) → find k (m ++ n) ≡ or_else (find k m) (find k n)
  unfolding find
  find-append k [] n = refl
  find-append k ((j, v) ∷ m) n = ground (arith, find-append k m n)
