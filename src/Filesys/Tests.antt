-- ===== src/Filesys/Tests.antt =====
-- A small directory, and runs on it.
use http_file_sharing.Prelude.{
  ℕ, ◌+◌, ◌*◌, ◌≤◌, ◌<◌, ◌≡◌, refl, true, false, none, some, List, [], ◌∷◌, ◌++◌, map, arith,
  if◌then◌else◌, Bytes, codes, bytes_eq, decimal,
}
use http_file_sharing.App.Options.{default_options}
use http_file_sharing.Filesys.{
  FileSystem, cook_path, listed, get_file_listing, bytes_human_readable,
}
use http_file_sharing.Filesys.Listing.{Node, entry_of, listing_of, get_file_listing_lem}
use http_file_sharing.Filesys.Size.{kilo, scaled, last_rem, unit_of, bytes_human_readable_lem}

abbrev pub nodes : List Node
nodes =
    (codes ".git", true)
    ∷ (codes "my file.txt", false)
    ∷ (codes "server", false)
    ∷ (codes "music", true)
    ∷ []

abbrev pub top : Bytes
top = codes "./"

abbrev pub text_path : Bytes
text_path = codes "./my file.txt"

-- The names are relative to the served directory, which is the working directory.
abbrev pub small_dir : FileSystem
small_dir = record {
  directory_iterator = λ path. if bytes_eq path top then some (map (entry_of top) nodes) else none;
  is_regular_file = λ path. bytes_eq path text_path;
  fs_file_size = λ path. some 5;
  stat = λ path. if bytes_eq path (codes "my file.txt") then some 5 else none;
  fopen = λ path. if bytes_eq path (codes "my file.txt") then some (codes "hello") else none;
  errno_is_enoent = λ path. true;
  path_eq = bytes_eq;
}

abbrev pub executable : Bytes
executable = codes "./server"

cooked : cook_path default_options (codes "/") ≡ top
unfolding cook_path
cooked = refl

get_file_listing_lem_example :
    get_file_listing default_options small_dir executable (codes "/")
    ≡ some (listed (listing_of small_dir executable (cook_path default_options (codes "/")) nodes))
get_file_listing_lem_example =
    get_file_listing_lem default_options small_dir executable (codes "/") nodes
      (rw cooked (omega arith)) (omega arith) (rw cooked refl)

-- The executable and the hidden directory are left out.
shown :
    listing_of small_dir executable top nodes
    ≡ record { is_dir = false; name = codes "my file.txt"; file_size = 5 }
      ∷ record { is_dir = true; name = codes "music"; file_size = 0 }
      ∷ []
shown = refl

bytes_human_readable_lem_example :
    (k : ℕ) × (k ≤ 6)
    × (bytes_human_readable 5000000
        ≡ some (
            decimal (scaled 5000000 k)
            ++ (b'.' ∷ (decimal (last_rem 5000000 k) ++ (b' ' ∷ unit_of k)))))
    × (scaled 5000000 k ≤ 1024)
    × (scaled 5000000 k * kilo k ≤ 5000000)
    × (5000000 < (scaled 5000000 k + 1) * kilo k)
bytes_human_readable_lem_example = bytes_human_readable_lem 5000000 (omega arith)
