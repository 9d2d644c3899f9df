-- ===== src/App/Options/Parse.antt =====
-- What the loop over the options computes.
use http_file_sharing.Prelude.{
  ℕ, ◌≡◌, refl, ap, ◌∙◌, ◌≢◌, inl, inr, Bool, true, false, not, ◌&&◌, ◌||◌, Option, none, some,
  List, [], ◌∷◌, arith, ◌==◌, Bool-cases, All, Bytes,
}
use http_file_sharing.Prelude.Int.{ℤ}
use http_file_sharing.App.Options.{
  ProgOptions, option_string, Round, Libc, parsed, set_dir, cut_slash, go_on, stop, with_number,
  with_dir, set_option, option_loop, parse_options,
}

-- The options with a number.
abbrev pub is_number : ℕ → Bool
is_number opt = opt == b'p' || (opt == b't' || (opt == b'b' || opt == b'T'))

-- The options that parse knows and goes on with.
abbrev pub is_known : ℕ → Bool
is_known opt =
    is_number opt
    || (opt == b'd'
        || (opt == b'V' || (opt == b'l' || (opt == b'D' || (opt == b'n' || opt == b'v')))))

-- What getopt may return without ending parse: no help, a name behind -d, and a number where one
-- is asked for.
abbrev pub IsFine : (Bytes → Option ℤ) → ℕ × Bytes → Type 0
IsFine stoi (opt, optarg) =
    (opt ≢ b'h')
    × ((opt ≡ b'd') → (optarg ≢ []))
    × ((is_number opt ≡ true) → (n : ℤ) × (stoi optarg ≡ some n))

abbrev pub all_known : List (ℕ × Bytes) → Bool
all_known [] = true
all_known (r ∷ more) = is_known (r.0) && all_known more

-- The flag of a round that goes on.
bad_of : Round → Option Bool
bad_of (go_on o bad) = some bad
bad_of (stop result) = none

goes_on : (r : Round) (bad : Bool) → bad_of r ≡ some bad → (o : ProgOptions) × (r ≡ go_on o bad)
unfolding bad_of
goes_on (go_on o b) bad e = (o, let same : b ≡ bad = cc in rw same)
goes_on (stop result) bad e = absurd cc

set_dir-some :
    (o : ProgOptions) (name : Bytes) → name ≢ [] → (o' : ProgOptions) × (set_dir o name ≡ some o')
unfolding set_dir cut_slash
set_dir-some o [] h = absurd (h refl)
set_dir-some o (c ∷ s) h = (_, refl)

number_case :
    (stoi : Bytes → Option ℤ) (o : ProgOptions) (opt : ℕ) (optarg : Bytes) (n : ℤ)
    → is_number opt ≡ true
    → stoi optarg ≡ some n
    → bad_of (set_option stoi o opt optarg) ≡ some (not (is_known opt))
unfolding set_option with_number bad_of
number_case stoi o opt optarg n h e = ground arith

dir_case :
    (stoi : Bytes → Option ℤ) (o : ProgOptions) (opt : ℕ) (optarg : Bytes)
    → opt ≡ b'd'
    → optarg ≢ []
    → bad_of (set_option stoi o opt optarg) ≡ some (not (is_known opt))
unfolding set_option with_dir bad_of
dir_case stoi o opt optarg d h = let (o', e) = set_dir-some o optarg h in rw (d, e)

other_case :
    (stoi : Bytes → Option ℤ) (o : ProgOptions) (opt : ℕ) (optarg : Bytes)
    → is_number opt ≡ false
    → opt ≢ b'd'
    → opt ≢ b'h'
    → bad_of (set_option stoi o opt optarg) ≡ some (not (is_known opt))
unfolding set_option with_number bad_of
other_case stoi o opt optarg h d no_help = ground arith

round_known :
    (stoi : Bytes → Option ℤ) (o : ProgOptions) (opt : ℕ) (optarg : Bytes)
    → IsFine stoi (opt, optarg)
    → bad_of (set_option stoi o opt optarg) ≡ some (not (is_known opt))
round_known stoi o opt optarg (no_help, named, number) = elim (Bool-cases (is_number opt)) [
  | inl e ↦ let (n, found) = number e in number_case stoi o opt optarg n e found
  | inr e ↦ elim (Bool-cases (opt == b'd')) [
    | inl d ↦ let same : opt ≡ b'd' = ground arith in dir_case stoi o opt optarg same (named same)
    | inr d ↦ let other : opt ≢ b'd' = ground arith in other_case stoi o opt optarg e other no_help
  ]
]

pub option_loop-step :
    (stoi : Bytes → Option ℤ) (o o' : ProgOptions) (unknown bad : Bool) (opt : ℕ) (optarg : Bytes)
    (more : List (ℕ × Bytes))
    → set_option stoi o opt optarg ≡ go_on o' bad
    → option_loop stoi o unknown ((opt, optarg) ∷ more) ≡ option_loop stoi o' (bad || unknown) more
unfolding option_loop
option_loop-step stoi o o' unknown bad opt optarg more e = rw (e, option_loop)

loop_known :
    (stoi : Bytes → Option ℤ) (o : ProgOptions) (unknown : Bool) (results : List (ℕ × Bytes))
    → All (IsFine stoi) results
    → (o' : ProgOptions) × (option_loop stoi o unknown results
        ≡ parsed o' (not unknown && all_known results))
unfolding option_loop
loop_known stoi o true [] h = (o, refl)
loop_known stoi o false [] h = (o, refl)
loop_known stoi o unknown ((opt, optarg) ∷ more) h =
    let (o', e) =
      goes_on (set_option stoi o opt optarg) (not (is_known opt))
        (round_known stoi o opt optarg (h.0)) in
    let (o'', e') = loop_known stoi o' (not (is_known opt) || unknown) more (h.1) in
    let same : (not (not (is_known opt) || unknown) && all_known more)
        ≡ (not unknown && (is_known opt && all_known more)) =
      flags (is_known opt) unknown (all_known more) in
    (o'', option_loop-step stoi o o' unknown _ opt optarg more e ∙ e' ∙ ap (parsed o'') same)
  where
    flags : (a b c : Bool) → (not (not a || b) && c) ≡ (not b && (a && c))
    flags true true c = refl
    flags true false c = refl
    flags false true c = refl
    flags false false c = refl

-- When getopt returns no -h, no empty name for -d, and for each option with a number an argument
-- that std::stoi reads, parse comes to its end, and its result is true exactly if every option that
-- getopt returned is one that parse knows.
pub parse_options_known :
    (libc : Libc) (o : ProgOptions) (argv : List Bytes)
    → All (IsFine libc.stoi) (libc.getopt argv option_string)
    → (o' : ProgOptions) × (parse_options libc o argv
        ≡ parsed o' (all_known (libc.getopt argv option_string)))
unfolding parse_options
parse_options_known libc o argv h = loop_known libc.stoi o false (libc.getopt argv option_string) h
