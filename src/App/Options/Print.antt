-- ===== src/App/Options/Print.antt =====
-- What src/app/prog_options.cpp prints: the help text, and the values when the server starts.
use http_file_sharing.Prelude.{◌+◌, not, [], ◌∷◌, ◌++◌, if◌then◌else◌, Bytes, codes, lit, decimal}
use http_file_sharing.Prelude.Int.{ℤ, pos, negsuc}
use http_file_sharing.App.Options.{ProgOptions}

abbrev pub prefix_spaces : Bytes
prefix_spaces = codes "    "

-- std::endl
abbrev endl : Bytes
endl = b'\n' ∷ []

-- operator<< on an int
abbrev pub print_int : ℤ → Bytes
print_int (pos n) = decimal n
print_int (negsuc n) = b'-' ∷ decimal (n + 1)

-- A line of print_values: a label and a value.
unfoldable value_line : Bytes → Bytes → Bytes
value_line label text = prefix_spaces ++ (label ++ (text ++ endl))

-- A line that is left out for an empty name.
unfoldable name_line : Bytes → Bytes → Bytes
unfolding value_line
name_line label [] = []
name_line label (c ∷ name) = value_line label (c ∷ name)

-- print_values
unfoldable pub print_values : ProgOptions → Bytes
unfolding value_line name_line
print_values o =
    if not o.verbose
    then []
    else lit "Starting HTTP file sharing server with"
      ++ (endl
          ++ (value_line (lit "Port = ") (print_int o.port)
              ++ (value_line (lit "Directory = ") o.dir
                  ++ (value_line (lit "TPool size = ") (decimal o.tpool_size)
                      ++ (value_line (lit "TCP Backlog = ") (print_int o.tcp_backlog_size)
                          ++ (name_line (lit "Log file = ") o.log_file
                              ++ name_line (lit "Database file = ") o.db_file))))))

-- print_help, in front of its exit (0)
pub print_help : Bytes → Bytes
unfolding value_line
print_help bin_name =
    lit "Usage: "
    ++ (bin_name
        ++ (endl
            ++ (lit "The following arguments are optional"
                ++ (endl
                    ++ (value_line (lit "Set server port number: -p <port_number>") []
                        ++ (value_line (lit "Set server directory: ") (lit "-d <working_directory>")
                            ++ (value_line (lit "Verbose logging: -V (Upper case)") []
                                ++ (value_line (lit "Thread pool size: -t <size>") []
                                    ++ value_line (lit "TCP Backlog size: -b <size>") []))))))))
