-- ===== src/App/Main/Tests.antt =====
-- A file system of names and a database that either has the stats table or not.
use http_file_sharing.Prelude.{
  ◌≤◌, ◌≡◌, refl, inl, true, none, some, List, [], ◌∷◌, ◌++◌, drop, Bytes, codes, value,
}
use http_file_sharing.Tcp.Server.Tests.{small_net}
use http_file_sharing.Filesys.Tests.{small_dir}
use http_file_sharing.Filesys.{cook_path}
use http_file_sharing.Tcp.Server.{
  TcpServer, http_server, tcp_server, set_up, socket_fd, accept_connection,
}
use http_file_sharing.Tpool.{unlocked, new_tpool, tpool_max_workers}
use http_file_sharing.App.Server.{
  at_accept, accepted, Running, server_begin, loop_step, loop_moves, ServerReach, starts, moves,
}
use http_file_sharing.App.Server.Scores.{IsServing}
use http_file_sharing.Prelude.Replace.{regex_replace}
use http_file_sharing.Prelude.Int.{pos, negsuc}
use http_file_sharing.App.File.{clean_filename}
use http_file_sharing.App.Options.Print.{print_values}
use http_file_sharing.App.Options.{
  ProgOptions, default_options, Libc, parsed, set_dir, parse_options,
}
use http_file_sharing.App.Options.Tests.{pairs}
use http_file_sharing.App.Blacklist.{done, exited, init_blacklist, update_ip_addr_stats}
use http_file_sharing.App.Schema.{check_add_missing_columns}
use http_file_sharing.App.Main.{
  is_relative, Ready, ready, Databases, put, main_begin, main_serve, init_loguru, db_file_name,
}
use http_file_sharing.App.Main.Begins.{named}
use http_file_sharing.App.Main.Files.{main_one_file, main_two_files}
use http_file_sharing.App.Main.Scores.{main_serves, main_other_database}
use http_file_sharing.Prelude.Dict.{find}
use http_file_sharing.App.Main.Sample.{name_host, name_host-IsHost, table_db, table_db-IsStats}

abbrev main_libc : Libc
main_libc = record {
  getopt = λ argv options. pairs (drop 1 argv);
  stoi = λ s. some (pos (value 0 s));
}

abbrev program : Bytes
program = codes "/usr/bin/server"

abbrev home : Bytes
home = codes "/home"

abbrev relative_args : List Bytes
relative_args = codes "-d" ∷ codes "music" ∷ []

abbrev relative_options : ProgOptions
relative_options = record default_options { dir = codes "music" }

-- No database has a table.
abbrev blank : Databases name_host table_db
blank file = none

relative_parsed :
    parse_options main_libc default_options (program ∷ relative_args) ≡ parsed relative_options true
unfolding parse_options set_dir
relative_parsed = refl

abbrev relative_ready : Ready name_host table_db
relative_ready = record {
  opts = named relative_options;
  cwd = codes "/home/music";
  databases = put name_host table_db (codes "/home/http-server.db") (some []) blank;
  stats = [];
  printed = [];
  executable_file_name = program;
}

relative_begun :
    main_begin name_host table_db main_libc program relative_args home blank ≡ ready relative_ready
unfolding main_begin parse_options set_dir check_add_missing_columns init_blacklist find
    print_values
relative_begun = refl

a_txt : is_relative (clean_filename (codes "a.txt")) ≡ true
unfolding clean_filename regex_replace
a_txt = refl

main_two_files_example :
    (name_host.resolve relative_ready.cwd
        (cook_path relative_ready.opts (clean_filename (codes "/a.txt")))
      ≡ name_host.resolve home (codes "music/music/" ++ clean_filename (codes "a.txt")))
    × (name_host.resolve relative_ready.cwd (clean_filename (codes "a.txt"))
        ≡ name_host.resolve home (codes "music/" ++ clean_filename (codes "a.txt")))
main_two_files_example =
    main_two_files name_host table_db name_host-IsHost main_libc program relative_args home blank
      relative_options (codes "a.txt") relative_parsed relative_begun refl refl a_txt

main_other_database_example :
    (init_blacklist table_db.sql (some []) [] ≡ done [])
    × (update_ip_addr_stats table_db.sql (negsuc 14) (codes "10.0.0.1") true [] none ≡ exited)
unfolding init_loguru db_file_name
main_other_database_example =
    main_other_database name_host table_db name_host-IsHost main_libc program relative_args home
      blank relative_options (codes "10.0.0.1") true relative_parsed relative_begun refl refl refl
      (λ query. refl)

-- Without -d the server stays in /home.
abbrev plain_args : List Bytes
plain_args = codes "-p" ∷ codes "8080" ∷ []

abbrev plain_options : ProgOptions
plain_options = record default_options { port = pos 8080 }

plain_parsed :
    parse_options main_libc default_options (program ∷ plain_args) ≡ parsed plain_options true
unfolding parse_options
plain_parsed = refl

abbrev plain_ready : Ready name_host table_db
plain_ready = record {
  opts = record (named plain_options) { dir = home };
  cwd = home;
  databases = put name_host table_db (codes "/home/http-server.db") (some []) blank;
  stats = [];
  printed = [];
  executable_file_name = program;
}

plain_begun :
    main_begin name_host table_db main_libc program plain_args home blank ≡ ready plain_ready
unfolding main_begin parse_options check_add_missing_columns init_blacklist find print_values
plain_begun = refl

main_one_file_example :
    name_host.resolve plain_ready.cwd (cook_path plain_ready.opts (clean_filename (codes "/a.txt")))
    ≡ name_host.resolve plain_ready.cwd (clean_filename (codes "a.txt"))
main_one_file_example =
    main_one_file name_host table_db name_host-IsHost main_libc program plain_args home blank
      plain_options (codes "a.txt") plain_parsed plain_begun refl (inl refl) a_txt

abbrev Plain : Type 0
Plain = Running small_net table_db.sql plain_ready.opts small_dir program 9

abbrev listener : TcpServer
listener = record { m_port = pos 8080; m_fd = pos 3; m_name = [] }

abbrev start : Plain
start = record {
  sock = 3 ∷ [];
  loop = at_accept;
  pool = record {
    m_queue = [];
    lock = unlocked;
    m_sem = record { m_val = 0; waiting = 5; asleep = 0 };
    woken = 0;
    active = [];
    added = [];
    taken = [];
  };
  stats = [];
  db = some [];
}

served : main_serve name_host table_db small_net 9 plain_ready [] ≡ some (listener, start)
unfolding main_serve server_begin init_loguru db_file_name http_server tcp_server set_up socket_fd
    new_tpool
served = refl

abbrev one_client : Plain
one_client = record start {
  sock = 7 ∷ 3 ∷ [];
  loop = accepted (record { m_fd = 7; m_addr = 1; m_name = [] });
}

to_one_client :
    ServerReach small_net table_db.sql plain_ready.opts small_dir program 9 listener start
      one_client
unfolding loop_step accept_connection
to_one_client = moves starts (loop_moves start one_client refl)

main_serves_example :
    (5 ≤ tpool_max_workers)
    × IsServing small_net table_db.sql plain_ready.opts small_dir program 9 5 one_client
unfolding init_loguru db_file_name
main_serves_example =
    main_serves name_host table_db name_host-IsHost main_libc program plain_args home blank
      plain_options table_db-IsStats {r = plain_ready} small_net 9 [] listener plain_parsed
      plain_begun (inl refl) served to_one_client
