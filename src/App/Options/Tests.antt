-- ===== src/App/Options/Tests.antt =====
-- A command line with an option and its argument in turn.
use http_file_sharing.Prelude.{
  lit, decimal, ℕ, ◌≡◌, refl, true, some, List, [], ◌∷◌, get_or, Bytes, codes, value,
}
use http_file_sharing.Prelude.Int.{pos}
use http_file_sharing.App.Options.Print.{print_values}
use http_file_sharing.App.Options.{
  default_options, Libc, parsed, out_of_range, set_dir, cut_slash, parse_options,
}

abbrev pub pairs : List Bytes → List (ℕ × Bytes)
pairs [] = []
pairs (opt ∷ []) = (get_or opt 1 0, []) ∷ []
pairs (opt ∷ optarg ∷ more) = (get_or opt 1 0, optarg) ∷ pairs more

abbrev plain_libc : Libc
plain_libc = record { getopt = λ argv options. pairs argv; stoi = λ s. some (pos (value 0 s)) }

abbrev command_line : List Bytes
command_line = codes "-p" ∷ codes "8080" ∷ codes "-d" ∷ codes "/srv/" ∷ []

-- The slash behind a directory is cut off; an empty name is read out of range.
dir_cut :
    parse_options plain_libc default_options (codes "-d" ∷ codes "/srv/" ∷ [])
    ≡ parsed (record default_options { dir = codes "/srv" }) true
unfolding parse_options set_dir cut_slash
dir_cut = refl

dir_empty : parse_options plain_libc default_options (codes "-d" ∷ [] ∷ []) ≡ out_of_range
unfolding parse_options set_dir cut_slash
dir_empty = refl

-- A verbose server tells its port, directory, pool and backlog.
values_printed :
    print_values (record default_options { verbose = true; dir = codes "/srv" })
    ≡ codes
        "Starting HTTP file sharing server with\n    Port = 80\n    Directory = /srv\n    TPool size = 5\n    TCP Backlog = 5\n"
unfolding print_values lit decimal
values_printed = refl
