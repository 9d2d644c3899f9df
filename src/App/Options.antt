-- ===== src/App/Options.antt =====
-- src/app/prog_options.cpp and inc/app/prog_options.hpp: the command line.
pub mod Last
pub mod Parse
pub mod Print
pub mod Tests
use http_file_sharing.Prelude.{
  ℕ, zero, suc, ◌+◌, ◌-◌, ◌*◌, ◌/◌, ◌%◌, ◌^◌, ◌≤◌, ◌<◌, ◌≡◌, refl, sym, ap, ◌∙◌, ◌≢◌, ◌↔◌, ◌⊎◌, inl,
  inr, Bool, true, false, not, ◌&&◌, ◌||◌, Option, none, some, List, [], ◌∷◌, ◌++◌, map,
  append_assoc, append-nil, arith, ltb, leb, ◌==◌, if◌then◌else◌, Bool-cases, Option-cases, ◌>>=◌,
  length, get_or, take, drop, replicate, length-append, length-replicate, length-drop, length-take,
  take_all, drop_all, take-append-drop, take-append_left, drop-append_left, All, All-append, Bytes,
  codes, lit, bytes_eq, bytes_eq_sound, bytes_eq_refl, bytes_eq_sym, bytes_eq_ne, Lacks, is_empty,
  starts_with, decimal, IsDigit, value, decimal_digits, value-decimal,
}
use http_file_sharing.Prelude.Int.{ℤ, pos, negsuc}

pub record ProgOptions : Type 0 where
  pub port : ℤ
  pub dir : Bytes
  pub verbose : Bool
  pub tpool_size : ℕ
  pub tcp_backlog_size : ℤ
  pub log_file : Bytes
  pub db_file : Bytes
  pub blacklist_threshold : ℤ
  pub server_name : Bytes

-- The values before anything is parsed.
abbrev pub default_options : ProgOptions
default_options = record {
  port = pos 80;
  dir = b'.' ∷ [];
  verbose = false;
  tpool_size = 5;
  tcp_backlog_size = pos 5;
  log_file = [];
  db_file = [];
  blacklist_threshold = negsuc 14;
  server_name = [];
}

-- What the program uses of the C library here: what getopt returns, call by call, for the arguments
-- and a string of options, with what optarg holds then; and std::stoi, `none` when it throws.
pub record Libc : Type 0 where
  pub getopt : List Bytes → Bytes → List (ℕ × Bytes)
  pub stoi : Bytes → Option ℤ

-- How parse ends: with the options and its result, by exit (0) after the help text, by an exception,
-- or in a read in front of an empty directory name.
pub data Parsed : Type 0 where
  parsed : ProgOptions → Bool → Parsed
  help_shown : Parsed
  not_a_number : Parsed
  out_of_range : Parsed

-- The conversion of an int to an unsigned int.
pub to_unsigned : ℤ → ℕ
to_unsigned (pos n) = n % 2 ^ 32
to_unsigned (negsuc n) = 2 ^ 32 - 1 - n % 2 ^ 32

-- The directory name of the case 'd': a slash at its end is cut off; `none` on an empty name.
pub cut_slash : Bytes → Option Bytes
cut_slash [] = none
cut_slash (c ∷ s) =
    let dir = c ∷ s in
    some (if get_or dir (length dir - 1) 0 == b'/' then take (length dir - 1) dir else dir)

-- The case 'd'.
unfoldable pub set_dir : ProgOptions → Bytes → Option ProgOptions
unfolding cut_slash
set_dir o optarg = cut_slash optarg >>= λ name. some (record o { dir = name })

-- One round of the loop: the options afterwards, and whether the option is unknown.
pub data Round : Type 0 where
  go_on : ProgOptions → Bool → Round
  stop : Parsed → Round

with_number : Option ℤ → (ℤ → ProgOptions) → Round
with_number none f = stop not_a_number
with_number (some n) f = go_on (f n) false

with_dir : Option ProgOptions → Round
with_dir none = stop out_of_range
with_dir (some o) = go_on o false

-- The switch of parse.
pub set_option : (Bytes → Option ℤ) → ProgOptions → ℕ → Bytes → Round
unfolding with_number with_dir
set_option stoi o opt optarg =
    if opt == b'd'
    then with_dir (set_dir o optarg)
    else if opt == b'p'
    then with_number (stoi optarg) (λ n. record o { port = n })
    else if opt == b'V'
    then go_on (record o { verbose = true }) false
    else if opt == b'h'
    then stop help_shown
    else if opt == b't'
    then with_number (stoi optarg) (λ n. record o { tpool_size = to_unsigned n })
    else if opt == b'b'
    then with_number (stoi optarg) (λ n. record o { tcp_backlog_size = n })
    else if opt == b'l'
    then go_on (record o { log_file = optarg }) false
    else if opt == b'D'
    then go_on (record o { db_file = optarg }) false
    else if opt == b'T'
    then with_number (stoi optarg) (λ n. record o { blacklist_threshold = n })
    else if opt == b'n'
    then go_on (record o { server_name = optarg }) false
    else if opt == b'v'
    then go_on o false
    else go_on o true

-- The loop of parse, with its flag `unknown`.
pub option_loop : (Bytes → Option ℤ) → ProgOptions → Bool → List (ℕ × Bytes) → Parsed
unfolding set_option
option_loop stoi o unknown [] = parsed o (not unknown)
option_loop stoi o unknown ((opt, optarg) ∷ more) = elim (set_option stoi o opt optarg) [
  | go_on o' bad ↦ option_loop stoi o' (bad || unknown) more
  | stop result ↦ result
]

abbrev pub option_string : Bytes
option_string = codes "d:p:Vht:vl:D:T:n:"

-- ProgOptions::parse
unfoldable pub parse_options : Libc → ProgOptions → List Bytes → Parsed
unfolding option_loop
parse_options libc o argv = option_loop libc.stoi o false (libc.getopt argv option_string)
