-- ===== src/Filesys/Reads.antt =====
-- Listings that read inside every path, whatever the directory holds.
use http_file_sharing.Prelude.{
  ℕ, ◌^◌, ◌<◌, ◌≡◌, refl, inl, inr, some, List, [], ◌∷◌, ◌++◌, map, arith, leb, Bool-cases,
  Option-cases, length, All, Bytes, Lacks,
}
use http_file_sharing.Filesys.{
  path_max, slash, DirEntry, FsEntry, FileSystem, get_file_size, cook_path, is_listed,
  extract_name_from_path, collect, Listed, listed, not_listed, get_filesys_structure, fill_size,
  get_file_listing,
}
use http_file_sharing.Filesys.Names.{extract_name_last}
use http_file_sharing.App.Options.{ProgOptions}

-- An entry has a path of a directory, a slash and a name.
abbrev pub IsBelow : DirEntry → Type 0
IsBelow entry =
    (before : Bytes) × ((name : Bytes) × ((entry.path ≡ before ++ slash ∷ name) × Lacks slash name))

abbrev IsBare : FsEntry → Type 0
IsBare it = it.file_size ≡ 0

-- A size that fits in 64 bits.
abbrev pub IsSize : FsEntry → Type 0
IsSize it = it.file_size < 2 ^ 64

abbrev pub ListedAll : (FsEntry → Type 0) → Listed → Type 0
ListedAll P (listed tree) = All P tree
ListedAll P not_listed = Unit

HasName : DirEntry → Type 0
HasName entry = (name : Bytes) × (extract_name_from_path entry.path ≡ some name)

below-HasName : (entry : DirEntry) → IsBelow entry → HasName entry
unfolding HasName
below-HasName entry (before, (name, (e, l))) = (name, rw e (extract_name_last before name l))

Collects : FileSystem → Bytes → List DirEntry → Type 0
Collects fs exe entries =
    (items : List FsEntry) × (collect fs exe entries ≡ some items) × All IsBare items

collect-Collects :
    (fs : FileSystem) (exe : Bytes) (entries : List DirEntry)
    → All IsBelow entries
    → Collects fs exe entries
unfolding Collects collect HasName
collect-Collects fs exe [] h = ([], refl, tt)
collect-Collects fs exe (entry ∷ entries) (here, below) =
    let (items, e, bare) = collect-Collects fs exe entries below in
    let (name, f) = below-HasName entry here in
    elim (Bool-cases (fs.path_eq entry.path exe)) [
      | inl same ↦ (items, rw (same, e), bare)
      | inr other ↦ elim (Bool-cases (is_listed name)) [
        | inl shown ↦ (
          record { is_dir = entry.is_directory; name = name; file_size = 0 } ∷ items,
          rw (other, f, e, shown),
          (refl, bare),
        )
        | inr hidden ↦ (items, rw (other, f, e, hidden), bare)
      ]
    ]

module _ (fs : FileSystem)
    (sizes : (path : Bytes) (n : ℕ) → fs.fs_file_size path ≡ some n → n < 2 ^ 64) where
  fill_size-IsSize : (path : Bytes) (it : FsEntry) → IsBare it → IsSize (fill_size fs path it)
  unfolding fill_size get_file_size
  fill_size-IsSize path it h = elim (Option-cases (fs.fs_file_size (path ++ slash ∷ it.name))) [
    | inl e ↦ ground arith
    | inr (n, e) ↦ let fits = sizes (path ++ slash ∷ it.name) n e in ground arith
  ]

  filled :
      (path : Bytes) (items : List FsEntry)
      → All IsBare items
      → All IsSize (map (fill_size fs path) items)
  filled path [] h = tt
  filled path (it ∷ items) (here, bare) = (fill_size-IsSize path it here, filled path items bare)

  -- A listing never reads outside a path, and its sizes fit in 64 bits.
  pub get_file_listing-some :
      (opts : ProgOptions) (exe path : Bytes)
      → ((entries : List DirEntry)
          → fs.directory_iterator (cook_path opts path) ≡ some entries
          → All IsBelow entries)
      → (result : Listed) × (get_file_listing opts fs exe path ≡ some result)
        × ListedAll IsSize result
  unfolding get_file_listing get_filesys_structure Collects
  get_file_listing-some opts exe path names =
      let cooked = cook_path opts path in
      elim (Bool-cases (leb path_max (length cooked))) [
        | inl long ↦ (not_listed, rw long, tt)
        | inr short ↦ elim (Option-cases (fs.directory_iterator cooked)) [
          | inl e ↦ (not_listed, rw (short, get_filesys_structure, e), tt)
          | inr (entries, e) ↦
              let (items, c, bare) = collect-Collects fs exe entries (names entries e) in
              (
                listed (map (fill_size fs cooked) items),
                rw (short, get_filesys_structure, e, c),
                filled cooked items bare,
              )
        ]
      ]
