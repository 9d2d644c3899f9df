-- ===== src/Filesys.antt =====
-- src/framework/filesys/filesys.cpp: paths, directory listings and sizes in print.
pub mod Listing
pub mod Names
pub mod Reads
pub mod Size
pub mod Tests
use http_file_sharing.Prelude.{
  ◌*◌, ◌/◌, ◌^◌, ◌-◌, ltb, decimal, ℕ, zero, suc, ◌+◌, ◌-◌, ◌*◌, ◌/◌, ◌%◌, ◌^◌, ◌≤◌, ◌<◌, ◌≡◌, refl,
  sym, ap, ◌∙◌, ◌≢◌, ◌↔◌, ◌⊎◌, inl, inr, Bool, true, false, not, ◌&&◌, ◌||◌, Option, none, some,
  List, [], ◌∷◌, ◌++◌, map, append_assoc, append-nil, arith, ltb, leb, ◌==◌, if◌then◌else◌,
  Bool-cases, Option-cases, ◌>>=◌, length, get_or, take, drop, replicate, length-append,
  length-replicate, length-drop, length-take, take_all, drop_all, take-append-drop,
  take-append_left, drop-append_left, All, All-append, Bytes, codes, lit, bytes_eq, bytes_eq_sound,
  bytes_eq_refl, bytes_eq_sym, bytes_eq_ne, Lacks, is_empty, starts_with, decimal, IsDigit, value,
  decimal_digits, value-decimal,
}
use Prim.Native.Nat.{bit_and}
use http_file_sharing.App.Options.{ProgOptions}

abbrev pub path_max : ℕ
path_max = 4096

abbrev pub slash : ℕ
slash = b'/'

abbrev pub dot : ℕ
dot = b'.'

-- An entry of a directory, as std::filesystem::directory_iterator yields it, with the answer of
-- is_directory, for an entry whose type can be read: the exception of is_directory is not modelled.
pub record DirEntry : Type 0 where
  pub path : Bytes
  pub is_directory : Bool

pub record FsEntry : Type 0 where
  pub is_dir : Bool
  pub name : Bytes
  pub file_size : ℕ

-- The file system, as the program asks for it: what a directory holds, read to its end, or `none`
-- if it cannot be opened (the exception of an increment that fails on the way is not modelled); whether
-- a path is a regular file; the size of a file; the size that stat reports; the content that fopen
-- opens; whether errno is ENOENT once a listing of that path has failed; and the equality of paths
-- of std::filesystem.
pub record FileSystem : Type 0 where
  pub directory_iterator : Bytes → Option (List DirEntry)
  pub is_regular_file : Bytes → Bool
  pub fs_file_size : Bytes → Option ℕ
  pub stat : Bytes → Option ℕ
  pub fopen : Bytes → Option Bytes
  pub errno_is_enoent : Bytes → Bool
  pub path_eq : Bytes → Bytes → Bool

-- _cook_path, with _get_cwd
unfoldable pub cook_path : ProgOptions → Bytes → Bytes
cook_path opts path = opts.dir ++ path

-- is_file
unfoldable pub is_file : ProgOptions → FileSystem → Bytes → Bool
unfolding cook_path
is_file opts fs path = fs.is_regular_file (cook_path opts path)

-- get_file_size, as the value that the caller's variable has afterwards
unfoldable pub get_file_size : FileSystem → Bytes → ℕ → ℕ
get_file_size fs filepath result = elim (fs.fs_file_size filepath) [
  | none ↦ result
  | some size ↦ size
]

-- The search for the last slash from position k - 1 downwards. The index of the source is
-- unsigned: below 0 it wraps around, and path[index] lies outside the text, which is `none`.
unfoldable pub last_slash : Bytes → ℕ → Option ℕ
last_slash path zero = none
last_slash path (suc index) =
    let rest = last_slash path index in if get_or path index 0 == slash then some index else rest

-- _extract_name_from_path; `none` if it reads outside the path
unfoldable pub extract_name_from_path : Bytes → Option Bytes
unfolding last_slash
extract_name_from_path path = do index ← last_slash path (length path); some (drop (index + 1) path)

-- The tests of one round of _get_filesys_structure behind the name: favicon.ico and hidden files.
pub is_listed : Bytes → Bool
is_listed name = not (bytes_eq name (codes "favicon.ico")) && not (get_or name 0 0 == dot)

-- The loop of _get_filesys_structure; the last argument is executable_file_name.
unfoldable pub collect : FileSystem → Bytes → List DirEntry → Option (List FsEntry)
unfolding is_listed extract_name_from_path
collect fs exe [] = some []
collect fs exe (entry ∷ entries) =
    let rest = collect fs exe entries in
    if fs.path_eq entry.path exe
    then rest
    else extract_name_from_path entry.path >>= λ name. rest >>= λ items. some (
        if is_listed name
        then record { is_dir = entry.is_directory; name = name; file_size = 0 } ∷ items
        else items)

-- The result of a listing: the entries, or false.
pub data Listed : Type 0 where
  listed : List FsEntry → Listed
  not_listed : Listed

-- _get_filesys_structure; `none` is a read outside a path.
unfoldable pub get_filesys_structure : FileSystem → Bytes → Bytes → Option Listed
unfolding collect
get_filesys_structure fs exe path = elim (fs.directory_iterator path) [
  | none ↦ some not_listed
  | some entries ↦ collect fs exe entries >>= λ items. some (listed items)
]

-- The loop of get_file_listing that fills in the sizes.
unfoldable pub fill_size : FileSystem → Bytes → FsEntry → FsEntry
unfolding get_file_size
fill_size fs temp_path it =
    if it.is_dir
    then it
    else record it { file_size = get_file_size fs (temp_path ++ slash ∷ it.name) it.file_size }

-- get_file_listing
unfoldable pub get_file_listing : ProgOptions → FileSystem → Bytes → Bytes → Option Listed
unfolding cook_path get_filesys_structure fill_size
get_file_listing opts fs exe path =
    let temp_path = cook_path opts path in
    if leb path_max (length temp_path)
    then some not_listed
    else get_filesys_structure fs exe temp_path >>= λ result. elim result [
      | not_listed ↦ some not_listed
      | listed items ↦ some (listed (map (fill_size fs temp_path) items))
    ]

-- The macro _LAST_N_BITS_SET.
abbrev pub last_n_bits_set : ℕ → ℕ
last_n_bits_set n = 2 * 2 ^ (n - 1) - 1

-- The loop of bytes_human_readable, over quot, rem and order; the fuel bounds its rounds.
human_loop : ℕ → ℕ → ℕ → ℕ → Option (ℕ × ℕ × ℕ)
human_loop zero quot rem order = none
human_loop (suc f) quot rem order =
    let next = human_loop f (quot / 2 ^ 10) (bit_and quot (last_n_bits_set 10)) (order + 1) in
    if ltb 1024 quot then next else some (quot, rem, order)

abbrev pub sizes : List Bytes
sizes = codes "B" ∷ codes "kB" ∷ codes "MB" ∷ codes "GB" ∷ codes "TB" ∷ []

-- The text behind the loop.
human_text : ℕ → ℕ → ℕ → Bytes
human_text quot rem order =
    let clamped = if leb (length sizes) order then length sizes - 1 else order in
    decimal quot ++ (dot ∷ (decimal rem ++ (b' ' ∷ get_or sizes clamped [])))

-- Enough rounds for 64 bits.
abbrev pub human_rounds : ℕ
human_rounds = 7

unfoldable pub bytes_human_readable : ℕ → Option Bytes
unfolding human_loop human_text
bytes_human_readable bytes =
    human_loop human_rounds bytes 0 0 >>= λ r. some (human_text (r.0) (r.1) (r.2))
