-- ===== src/Filesys/Listing.antt =====
-- What a directory listing holds.
use http_file_sharing.Prelude.{
  ℕ, ◌≤◌, ◌<◌, ◌≡◌, refl, ap, ◌∙◌, append_assoc, inl, inr, Bool-cases, ◌≢◌, ◌⊎◌, Bool, false, ◌||◌,
  none, some, List, [], ◌∷◌, ◌++◌, map, arith, leb, ◌==◌, if◌then◌else◌, length, get_or, All, Bytes,
  codes, bytes_eq, Lacks,
}
use http_file_sharing.App.Options.{ProgOptions}
use http_file_sharing.Filesys.{
  path_max, slash, dot, DirEntry, FsEntry, FileSystem, cook_path, is_listed, extract_name_from_path,
  collect, listed, not_listed, get_filesys_structure, fill_size, get_file_listing,
}
use http_file_sharing.Filesys.Names.{extract_name_last}

-- A file in a directory: its name, without a slash, and whether it is a directory itself.
abbrev pub Node : Type 0
Node = Bytes × Bool

abbrev pub name_of : Node → Bytes
name_of n = n.0

abbrev pub IsName : Node → Type 0
IsName n = Lacks slash (n.0)

-- A path, with a slash behind it if it has none there.
abbrev pub separated : Bytes → Bytes
separated [] = slash ∷ []
separated (c ∷ []) = if c == slash then c ∷ [] else c ∷ slash ∷ []
separated (c ∷ d ∷ path) = c ∷ separated (d ∷ path)

separated_last : (path : Bytes) → (before : Bytes) × (separated path ≡ before ++ slash ∷ [])
separated_last [] = ([], refl)
separated_last (c ∷ []) = elim (Bool-cases (c == slash)) [
  | inl e ↦ let same : c ≡ slash = ground arith in ([], rw e (ap (λ d. d ∷ []) same))
  | inr e ↦ (c ∷ [], rw e)
]
separated_last (c ∷ d ∷ path) =
    let (before, e) = separated_last (d ∷ path) in (c ∷ before, ap (λ t. c ∷ t) e)

extract_name-separated :
    (path name : Bytes)
    → Lacks slash name
    → extract_name_from_path (separated path ++ name) ≡ some name
extract_name-separated path name l =
    let (before, e) = separated_last path in
    let same : separated path ++ name ≡ before ++ slash ∷ name =
      ap (λ t. t ++ name) e ∙ append_assoc before (slash ∷ []) name in
    rw same (extract_name_last before name l)

-- The entry that the iterator yields for it, below the path of the directory.
abbrev pub entry_of : Bytes → Node → DirEntry
entry_of path (name, is_dir) = record { path = separated path ++ name; is_directory = is_dir }

-- A name that a listing shows: not favicon.ico, and not hidden.
abbrev pub IsShown : Bytes → Type 0
IsShown name = (name ≢ codes "favicon.ico") × (get_or name 0 0 ≢ dot)

-- The size of a file of a listing: 0 for a directory and for a file whose size cannot be read.
abbrev pub size_of : FileSystem → Bytes → Node → ℕ
size_of fs path (name, is_dir) =
    if is_dir then 0 else elim (fs.fs_file_size (path ++ slash ∷ name)) [ none ↦ 0 | some n ↦ n ]

-- The rows of a listing, described by recursion on the directory: one for each node, in the same
-- order, that is shown and is not the executable.
abbrev pub listing_of : FileSystem → Bytes → Bytes → List Node → List FsEntry
listing_of fs exe path [] = []
listing_of fs exe path (node ∷ nodes) =
    let rest = listing_of fs exe path nodes in
    let row : FsEntry = record {
      is_dir = node.1;
      name = node.0;
      file_size = size_of fs path node;
    } in
    if fs.path_eq (separated path ++ node.0) exe
    then rest
    else if bytes_eq (node.0) (codes "favicon.ico") || get_or (node.0) 0 0 == dot
    then rest
    else row ∷ rest

-- The nodes that are collected, before the sizes are filled in.
bare : FileSystem → Bytes → Bytes → List Node → List FsEntry
bare fs exe path [] = []
bare fs exe path (node ∷ nodes) =
    let rest = bare fs exe path nodes in
    if fs.path_eq (separated path ++ node.0) exe
    then rest
    else if is_listed (node.0)
    then record { is_dir = node.1; name = node.0; file_size = 0 } ∷ rest
    else rest

collect-bare :
    (fs : FileSystem) (exe path : Bytes) (nodes : List Node)
    → All IsName nodes
    → collect fs exe (map (entry_of path) nodes) ≡ some (bare fs exe path nodes)
unfolding collect bare
collect-bare fs exe path [] h = refl
collect-bare fs exe path ((name, is_dir) ∷ nodes) h =
    ground (arith, collect-bare fs exe path nodes (h.1), extract_name-separated path name (h.0))

fill-bare :
    (fs : FileSystem) (exe path : Bytes) (nodes : List Node)
    → map (fill_size fs path) (bare fs exe path nodes) ≡ listing_of fs exe path nodes
unfolding fill_size bare is_listed
fill-bare fs exe path [] = refl
fill-bare fs exe path ((name, is_dir) ∷ nodes) = ground (arith, fill-bare fs exe path nodes)

structure-bare :
    (fs : FileSystem) (exe path : Bytes) (nodes : List Node)
    → All IsName nodes
    → fs.directory_iterator path ≡ some (map (entry_of path) nodes)
    → get_filesys_structure fs exe path ≡ some (listed (bare fs exe path nodes))
unfolding get_filesys_structure
structure-bare fs exe path nodes names read =
    rw (read, get_filesys_structure, collect-bare fs exe path nodes names)

-- For a path that is short enough and whose directory can be read, and whose entries are names
-- without a slash: the listing reads inside every path, and it is the list of the shown nodes in
-- the order of the directory, the executable left out, each with its name, its kind and its size.
pub get_file_listing_lem :
    (opts : ProgOptions) (fs : FileSystem) (exe path : Bytes) (nodes : List Node)
    → length (cook_path opts path) < path_max
    → All IsName nodes
    → fs.directory_iterator (cook_path opts path)
      ≡ some (map (entry_of (cook_path opts path)) nodes)
    → get_file_listing opts fs exe path
      ≡ some (listed (listing_of fs exe (cook_path opts path) nodes))
unfolding get_file_listing
get_file_listing_lem opts fs exe path nodes short names read =
    let cooked = cook_path opts path in
    let test : leb path_max (length cooked) ≡ false = ground arith in
    rw (test, structure-bare fs exe cooked nodes names read, fill-bare fs exe cooked nodes)

-- A path of PATH_MAX bytes or more, and a directory that cannot be read, are not listed.
pub get_file_listing_fails :
    (opts : ProgOptions) (fs : FileSystem) (exe path : Bytes)
    → (path_max ≤ length (cook_path opts path))
      ⊎ (fs.directory_iterator (cook_path opts path) ≡ none)
    → get_file_listing opts fs exe path ≡ some not_listed
unfolding get_file_listing get_filesys_structure
get_file_listing_fails opts fs exe path h = ground arith
