-- ===== src/Tcp/Connection/Object.antt =====
-- The objects of class TCPConnection of src/framework/tcp/tcp_connection.cpp.
use http_file_sharing.Prelude.{ℕ, [], Bytes}

-- TCPConnection: the descriptor, the address of the peer, and a name.
pub record TcpConnection : Type 0 where
  pub m_fd : ℕ
  pub m_addr : ℕ
  pub m_name : Bytes

-- TCPConnection::TCPConnection
abbrev pub tcp_connection : ℕ → ℕ → TcpConnection
tcp_connection fd addr = record { m_fd = fd; m_addr = addr; m_name = [] }

-- TCPConnection::get_fd, get_name and set_name
abbrev pub get_fd : TcpConnection → ℕ
get_fd connection = connection.m_fd

abbrev pub get_name : TcpConnection → Bytes
get_name connection = connection.m_name

abbrev pub set_name : Bytes → TcpConnection → TcpConnection
set_name name connection = record connection { m_name = name }
