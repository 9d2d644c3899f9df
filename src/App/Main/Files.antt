-- ===== src/App/Main/Files.antt =====
-- Which files the names stand for once main is in its working directory.
use http_file_sharing.Prelude.{
  ◌≡◌, refl, sym, ap, ◌∙◌, ◌⊎◌, inl, inr, Bool, true, false, Option, none, some, List, [], ◌∷◌,
  ◌++◌, arith, Bool-cases, of_some, none-ne-some, ◌>>=◌, Bytes, codes, bytes_eq,
}
use http_file_sharing.Prelude.Replace.{regex_replace-skip}
use http_file_sharing.Filesys.{cook_path}
use http_file_sharing.App.Options.{ProgOptions, default_options, Libc, parsed, parse_options}
use http_file_sharing.App.File.{clean_filename}
use http_file_sharing.App.Main.{
  Database, Host, is_absolute, is_relative, Ready, ready, Databases, working_directory, main_begin,
}
use http_file_sharing.App.Main.Begins.{named, named-dir, Begins, main_begin-Begins}

-- How names are looked up: an absolute one from the root; a relative one from the working directory;
-- and after a change to a directory, what its name with a slash in front of a relative name stood for.
pub record IsHost (host : Host) : Type 0 where
  pub absolute :
      (cwd cwd' name : Bytes)
      → is_absolute name ≡ true
      → host.resolve cwd name ≡ host.resolve cwd' name
  pub relative :
      (cwd name : Bytes)
      → is_absolute cwd ≡ true
      → is_relative name ≡ true
      → host.resolve cwd name ≡ host.resolve cwd (cwd ++ b'/' ∷ name)
  pub changed :
      (cwd dir name : Bytes) {cwd' : Bytes}
      → host.chdir cwd dir ≡ some cwd'
      → is_relative name ≡ true
      → host.resolve cwd' name ≡ host.resolve cwd (dir ++ b'/' ∷ name)

-- The option -d is not given, or names the working directory.
abbrev pub stays : ProgOptions → Bool
stays opts = bytes_eq opts.dir (codes ".")

is_absolute-append : (dir name : Bytes) → is_absolute dir ≡ true → is_absolute (dir ++ name) ≡ true
is_absolute-append [] name h = ground arith
is_absolute-append (c ∷ dir) name h = h

is_relative-append : (dir name : Bytes) → is_relative dir ≡ true → is_relative (dir ++ name) ≡ true
is_relative-append [] name h = ground arith
is_relative-append (c ∷ dir) name h = h

clean_filename-slash : (name : Bytes) → clean_filename (b'/' ∷ name) ≡ b'/' ∷ clean_filename name
unfolding clean_filename
clean_filename-slash name = regex_replace-skip b'/' b'%' name (codes "20") (codes " ") refl

module _ (host : Host) (d : Database) where
  stay :
      (cwd : Bytes) (opts : ProgOptions)
      → stays opts ≡ true
      → working_directory host d cwd opts ≡ some (cwd, record opts { dir = cwd })
  unfolding working_directory
  stay cwd opts h = rw h refl

  move :
      (cwd : Bytes) (opts : ProgOptions)
      → stays opts ≡ false
      → working_directory host d cwd opts
        ≡ (host.chdir cwd opts.dir >>= λ changed. some (changed, opts))
  unfolding working_directory
  move cwd opts h = rw h refl

  still : (opts : ProgOptions) (b : Bool) → stays opts ≡ b → stays (named opts) ≡ b
  still opts b h = rw (named-dir opts) h

  -- main stays in its working directory, whose name becomes that of the served directory.
  pub place_kept :
      (cwd : Bytes) (opts opts' : ProgOptions) {cwd' : Bytes}
      → stays opts ≡ true
      → working_directory host d cwd (named opts) ≡ some (cwd', opts')
      → (cwd' ≡ cwd) × (opts' ≡ record (named opts) { dir = cwd })
  place_kept cwd opts opts' {cwd'} h w =
      of_some (λ r. (r.0 ≡ cwd) × (r.1 ≡ record (named opts) { dir = cwd })) _ (cwd', opts')
        (sym (stay cwd (named opts) (still opts true h)) ∙ w) (refl, refl)

  -- main changes to the directory, and keeps its name.
  pub place_moved :
      (cwd : Bytes) (opts opts' : ProgOptions) {cwd' : Bytes}
      → stays opts ≡ false
      → working_directory host d cwd (named opts) ≡ some (cwd', opts')
      → (host.chdir cwd opts.dir ≡ some cwd') × (opts' ≡ named opts)
  place_moved cwd opts opts' {cwd'} h w =
      go (host.chdir cwd (named opts).dir) (ap (host.chdir cwd) (sym (named-dir opts)))
        (sym (move cwd (named opts) (still opts false h)) ∙ w)
    where
      go :
          (place : Option Bytes)
          → host.chdir cwd opts.dir ≡ place
          → (let r : Option (Bytes × ProgOptions) =
                place >>= λ changed. some (changed, named opts) in
              r)
            ≡ some (cwd', opts')
          → (host.chdir cwd opts.dir ≡ some cwd') × (opts' ≡ named opts)
      go none e w = absurd (none-ne-some (cwd', opts') w)
      go (some c) e w =
          of_some (λ r. (host.chdir cwd opts.dir ≡ some (r.0)) × (r.1 ≡ named opts)) _ (cwd', opts')
            w (e, refl)

  module _ (law : IsHost host) (libc : Libc) (program : Bytes) (args : List Bytes) (cwd : Bytes)
      (databases : Databases host d) (opts : ProgOptions) where
    tested :
        (r : Ready host d) (dir name : Bytes)
        → r.opts.dir ≡ dir
        → cook_path r.opts (clean_filename (b'/' ∷ name)) ≡ dir ++ b'/' ∷ clean_filename name
    unfolding cook_path
    tested r dir name e = rw (clean_filename-slash name, e) refl

    one_file_kept :
        (r : Ready host d) (name : Bytes)
        → Begins host d cwd (named opts) r
        → is_absolute cwd ≡ true
        → stays opts ≡ true
        → is_relative (clean_filename name) ≡ true
        → host.resolve r.cwd (cook_path r.opts (clean_filename (b'/' ∷ name)))
          ≡ host.resolve r.cwd (clean_filename name)
    one_file_kept r name (loaded, place) root dir rel =
        let (here, same) = place_kept cwd opts r.opts dir place in
        ap (host.resolve r.cwd) (tested r cwd name (ap (λ o. o.dir) same))
        ∙ rw here (sym (law.relative cwd (clean_filename name) root rel))

    one_file_moved :
        (r : Ready host d) (name : Bytes)
        → Begins host d cwd (named opts) r
        → stays opts ≡ false
        → is_absolute opts.dir ≡ true
        → is_relative (clean_filename name) ≡ true
        → host.resolve r.cwd (cook_path r.opts (clean_filename (b'/' ∷ name)))
          ≡ host.resolve r.cwd (clean_filename name)
    one_file_moved r name (loaded, place) away dir rel =
        let (went, same) = place_moved cwd opts r.opts away place in
        ap (host.resolve r.cwd) (tested r opts.dir name (ap (λ o. o.dir) same ∙ named-dir opts))
        ∙ law.absolute r.cwd cwd (opts.dir ++ b'/' ∷ clean_filename name)
            (is_absolute-append opts.dir (b'/' ∷ clean_filename name) dir)
        ∙ sym (law.changed cwd opts.dir (clean_filename name) went rel)

    -- When main, started in an absolute working directory with a served directory that is absolute or
    -- the working directory, gets to server_loop: for each URI that begins with a slash, the name that
    -- check_if_file tests and the name that get_file opens stand for the same file, whenever the latter
    -- is a relative name.
    pub main_one_file :
        {r : Ready host d} (name : Bytes)
        → parse_options libc default_options (program ∷ args) ≡ parsed opts true
        → main_begin host d libc program args cwd databases ≡ ready r
        → is_absolute cwd ≡ true
        → (stays opts ≡ true) ⊎ (is_absolute opts.dir ≡ true)
        → is_relative (clean_filename name) ≡ true
        → host.resolve r.cwd (cook_path r.opts (clean_filename (b'/' ∷ name)))
          ≡ host.resolve r.cwd (clean_filename name)
    main_one_file {r} name e h root dir rel =
        let begins = main_begin-Begins host d libc program args cwd databases opts e h in
        elim (Bool-cases (stays opts)) [
          | inl here ↦ one_file_kept r name begins root here rel
          | inr away ↦ elim dir [
            | inl here ↦ one_file_kept r name begins root here rel
            | inr abs ↦ one_file_moved r name begins away abs rel
          ]
        ]

    -- When main, started with a relative directory other than the working directory, gets to
    -- server_loop: the directory is put in front twice in the name that check_if_file tests, and once
    -- in the name that get_file opens, whenever that is a relative name.
    pub main_two_files :
        {r : Ready host d} (name : Bytes)
        → parse_options libc default_options (program ∷ args) ≡ parsed opts true
        → main_begin host d libc program args cwd databases ≡ ready r
        → stays opts ≡ false
        → is_relative opts.dir ≡ true
        → is_relative (clean_filename name) ≡ true
        → (host.resolve r.cwd (cook_path r.opts (clean_filename (b'/' ∷ name)))
            ≡ host.resolve cwd (opts.dir ++ b'/' ∷ (opts.dir ++ b'/' ∷ clean_filename name)))
          × (host.resolve r.cwd (clean_filename name)
              ≡ host.resolve cwd (opts.dir ++ b'/' ∷ clean_filename name))
    main_two_files {r} name e h away dir rel =
        let (loaded, place) = main_begin-Begins host d libc program args cwd databases opts e h in
        let (went, same) = place_moved cwd opts r.opts away place in
        (
          ap (host.resolve r.cwd) (tested r opts.dir name (ap (λ o. o.dir) same ∙ named-dir opts))
              ∙ law.changed cwd opts.dir (opts.dir ++ b'/' ∷ clean_filename name) went
                  (is_relative-append opts.dir (b'/' ∷ clean_filename name) dir),
          law.changed cwd opts.dir (clean_filename name) went rel,
        )
