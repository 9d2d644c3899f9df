-- ===== src/App/Options/Last.antt =====
-- Which value each option has when parse ends.
use http_file_sharing.Prelude.{
  ℕ, ◌≡◌, Bool, Option, none, some, List, [], ◌∷◌, ◌==◌, if◌then◌else◌, Bytes,
}
use http_file_sharing.Prelude.Int.{ℤ}
use http_file_sharing.App.Options.{ProgOptions, go_on, set_option}

-- The argument of the last option of that letter.
abbrev pub last_arg : ℕ → List (ℕ × Bytes) → Option Bytes
last_arg c [] = none
last_arg c (r ∷ more) = elim (last_arg c more) [
  | some a ↦ some a
  | none ↦ if r.0 == c then some (r.1) else none
]

-- A field has the value that was read from an argument, or without one the value from before.
abbrev pub IsLast : {X : Type 0} → (Bytes → Option X) → Option Bytes → X → X → Type 0
IsLast read none before after = after ≡ before
IsLast read (some arg) before after = read arg ≡ some after

-- One round sets the field exactly at its letter.
abbrev Sets :
    {X : Type 0} → (Bytes → Option ℤ) → ℕ → (ProgOptions → X) → (Bytes → Option X) → Type 0
Sets stoi c field read =
    (o o' : ProgOptions) (opt : ℕ) (optarg : Bytes) (bad : Bool)
    → set_option stoi o opt optarg ≡ go_on o' bad
    → IsLast read (if opt == c then some optarg else none) (field o) (field o')
