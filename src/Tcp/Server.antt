-- ===== src/Tcp/Server.antt =====
-- src/framework/tcp/tcp_server.cpp, and the objects of src/framework/tcp/tcp_connection.cpp: how
-- descriptors are opened and closed. Log output is left out.
pub mod Lifetime
pub mod Tests
pub use http_file_sharing.Tcp.Connection.Object.{TcpConnection, tcp_connection}
use http_file_sharing.Prelude.{
  ℕ, zero, suc, ◌+◌, ◌-◌, ◌*◌, ◌/◌, ◌%◌, ◌^◌, ◌≤◌, ◌<◌, ◌≡◌, refl, sym, ap, ◌∙◌, ◌≢◌, ◌↔◌, ◌⊎◌, inl,
  inr, Bool, true, false, not, ◌&&◌, ◌||◌, Option, none, some, List, [], ◌∷◌, ◌++◌, map,
  append_assoc, append-nil, arith, ltb, leb, ◌==◌, if◌then◌else◌, Bool-cases, Option-cases, ◌>>=◌,
  length, get_or, take, drop, replicate, length-append, length-replicate, length-drop, length-take,
  take_all, drop_all, take-append-drop, take-append_left, drop-append_left, All, All-append, Bytes,
  codes, lit, bytes_eq, bytes_eq_sound, bytes_eq_refl, bytes_eq_sym, bytes_eq_ne, Lacks, is_empty,
  starts_with, decimal, IsDigit, value, decimal_digits, value-decimal,
}
use http_file_sharing.Prelude.Int.{ℤ, pos, negsuc}
use http_file_sharing.Tcp.Net.{NetApi}

-- TCPServer
pub record TcpServer : Type 0 where
  pub m_port : ℤ
  pub m_fd : ℤ
  pub m_name : Bytes

-- TCPServer::get_fd, get_name and set_name
abbrev pub get_fd : TcpServer → ℤ
get_fd server = server.m_fd

abbrev pub get_name : TcpServer → Bytes
get_name server = server.m_name

abbrev pub set_name : Bytes → TcpServer → TcpServer
set_name name server = record server { m_name = name }

-- How the constructor ends.
pub data Listening (S : Type 0) : Type 0 where
  raised : Bytes → S → Listening S
  listening : TcpServer → S → Listening S

module _ (net : NetApi) where
  open net use {State, socket, setsockopt, bind, listen, accept, close, inet_ntop, strerror}

  -- _raise_exception
  abbrev pub raise_exception : Bytes → State → Listening State
  raise_exception msg s = raised (msg ++ (codes ". " ++ strerror s)) s

  -- The descriptor that socket leaves in m_fd.
  unfoldable pub socket_fd : Option ℕ → ℤ
  socket_fd none = negsuc 0
  socket_fd (some fd) = pos fd

  -- The constructor behind socket, whose failure is not tested.
  unfoldable pub set_up : ℤ → ℤ → ℤ → State → Listening State
  set_up port backlog fd s =
      let (reuse, s1) = setsockopt fd s in
      let (bound, s2) = bind fd port s1 in
      let (ready, s3) = listen fd backlog s2 in
      if not reuse
      then raise_exception (codes "setsockopt failed") (close fd s1)
      else if not bound
      then raise_exception (codes "bind failed") (close fd s2)
      else if not ready
      then raise_exception (codes "listen failed") (close fd s3)
      else listening (record { m_port = port; m_fd = fd; m_name = [] }) s3

  -- TCPServer::TCPServer
  unfoldable pub tcp_server : ℤ → ℤ → State → Listening State
  unfolding set_up socket_fd
  tcp_server port backlog s = let (fd, s') = socket s in set_up port backlog (socket_fd fd) s'

  -- TCPServer::~TCPServer
  pub destroy_server : TcpServer → State → State
  destroy_server server s = close server.m_fd s

  -- HTTPServer::HTTPServer, which passes no backlog on, so that it is the default one.
  unfoldable pub http_server : ℤ → ℤ → State → Listening State
  http_server port backlog s = tcp_server port (pos 5) s

  -- TCPServer::accept_connection; `none` is a null pointer.
  unfoldable pub accept_connection : TcpServer → State → Option TcpConnection × State
  accept_connection server s =
      let (result, s') = accept server.m_fd s in
      (result >>= λ r. some (tcp_connection (r.0) (r.1)), s')

  -- HTTPServer::accept_connection
  abbrev pub http_accept_connection : TcpServer → State → Option TcpConnection × State
  http_accept_connection server s = accept_connection server s

  -- TCPConnection::~TCPConnection
  unfoldable pub destroy_connection : TcpConnection → State → State
  destroy_connection connection s = close (pos connection.m_fd) s

  -- TCPConnection::get_src_addr
  unfoldable pub get_src_addr : TcpConnection → Bytes
  get_src_addr connection = inet_ntop connection.m_addr
