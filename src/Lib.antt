-- ===== src/Lib.antt =====
-- A model of an HTTP file sharing server.
--
-- The program accepts TCP connections, reads one request from each, and answers a GET request
-- with a file of the directory it serves or with a page that lists a directory. Each request moves
-- a score of the sender's address, which is kept in a map and in an SQLite table. The modules:
--
-- - Prelude: bytes, decimals, integers over the native numbers, maps, replacement of texts, masks.
-- - Tcp.Api: the system calls on a connected socket (send, sendfile), as an interface; its laws are
--   what their manual pages document. Tcp.Connection: src/framework/tcp/tcp_connection.cpp, with
--   recv, the loop of _send_wrapper (send_loop), the loop over sendfile (send_file_loop) and the
--   stream that FILE_RAII holds meanwhile; its child Object has the fields of TCPConnection. Tcp.Net:
--   the calls that open and close descriptors, again as an interface with documented laws. Tcp.Server:
--   src/framework/tcp/tcp_server.cpp and the life of a connection object.
-- - Http.Status, Http.Request, Http.Response: src/framework/http/http_status.cpp, http_req.cpp and
--   http_rsp.cpp. Http.Receive and Http.Send: recv_req and send_http_rsp of
--   src/framework/http/http.cpp.
-- - Filesys: src/framework/filesys/filesys.cpp. The file system is a record of the questions that
--   the program asks it (FileSystem). Nothing is assumed of the answers but where a theorem says so:
--   IsServable of App.Process.Replies is a file system whose files can be read.
-- - App.Options: inc/app/prog_options.hpp and src/app/prog_options.cpp, over what getopt and
--   std::stoi return. App.File: src/app/file.cpp. App.Html: src/app/html_rsp.cpp.
--   App.Process: src/app/process_request.cpp and _handle_connection of src/app/server.cpp. Its
--   module Replies is about the response that a request gets, Ends about the end of a handler and
--   the bytes that the fuel has to suffice for (reply_text), Download about what a client receives,
--   Refused about requests that cost a score.
-- - Tpool: src/framework/tpool/semaphore.cpp and tpool.cpp, as a step relation of the workers and the
--   thread that adds jobs. Tpool.Progress and Tpool.Fairness are about what its threads can get to.
-- - App.Server: server_loop of src/app/server.cpp. The accepting thread (loop_step), the workers of
--   the pool and the handlers (run_job) take turns, in any order. The thread accepts, tests the
--   blacklist, pushes and posts in steps of their own, so that a handler can end between any two of
--   these. A handler is one step: it shares with the other threads only the scores, which it updates
--   once, under their lock, so that they see the state before the update or behind it. The map that a
--   stop of the process inside of an update leaves (map_written of App.Blacklist) is for
--   App.Server.Restart to compare with what is read back. A connection is shared by pointers and is
--   closed with the last one (release); App.Server.Distinct is about how many jobs can have its
--   descriptor, and App.Server.Files and App.Server.Replies follow one request through all of these
--   parts.
--   App.Server.History and App.Server.Scoring are about the scores of a run, App.Server.Shunned about
--   addresses that are blacklisted, App.Server.Quiet about a server that runs out of work,
--   and App.Server.Restart about what a later start reads back.
-- - Db: the life of a handle of src/framework/db/db.cpp.
-- - App.Blacklist: src/app/blacklist.cpp. SQLite is a record of the calls that the program makes
--   (Sqlite), and IsStats states what its insert and update do to the rows of the stats table.
-- - App.Schema: the schema check of src/app/init/init.cpp and src/app/init/db_defaults.cpp.
-- - App.Main: src/main.cpp up to server_loop, with init_loguru and init_db of src/app/init/init.cpp.
--   The working directory is a value, and a Host gives for it the file that a name stands for (with
--   its documented laws in IsHost), so that it shows which names mean another file after the change
--   of directory. main_serve hands over to App.Server.
--
-- A text is the list of its bytes. A read outside a text, which C++ leaves undefined, is `none` or
-- `undefined`. Failures are values: the results -1 of system calls, exit (1) and exceptions. The
-- send loops run on fuel, and a result `running` says that it is used up; each call that succeeds
-- sends a byte, so a fuel above the number of bytes is enough, unless a file has shrunk. The loop
-- of bytes_human_readable has seven rounds, which is enough for 64 bits. The build is the release
-- build: assert does nothing. The content of a file does not change while a request is handled, and
-- a score is an integer without a bound: see App.Blacklist.Bounds for the int of the program.
--
-- Not modelled: logging with its copy of loguru (a third-party library) and what only the log
-- prints (the duration of a request, the messages of SQLite), the clock, the signal SIGPIPE; the
-- exceptions of std::filesystem while a directory that could be opened is read (is_directory of an
-- entry, the increment of the iterator).
pub mod Prelude
pub mod Http
pub mod Tcp
pub mod Db
pub mod Tpool
pub mod App
pub mod Filesys
