-- ===== src/Tcp/Connection.antt =====
-- src/framework/tcp/tcp_connection.cpp: reading into a fixed buffer, and the two send loops.
pub mod Buffer
pub mod File
pub mod Frame
pub mod Object
pub mod Tests
use http_file_sharing.Prelude.{
  ℕ, zero, suc, ◌+◌, ◌-◌, ◌++◌, Option, none, some, ltb, if◌then◌else◌, Bytes, length, take, drop,
  replicate,
}
use http_file_sharing.Prelude.Int.{ℤ, pos, negsuc}
use http_file_sharing.Tcp.Api.{SocketApi}

abbrev pub default_buffer_size : ℕ
default_buffer_size = 2048

-- The outcome of a call that may loop: its ssize_t with the new state, or fuel that ran out, or
-- behaviour that the language leaves undefined.
pub data Io (S : Type 0) : Type 0 where
  ret : ℤ → S → Io S
  running : Io S
  undefined : Io S

abbrev pub minus_one : ℤ
minus_one = negsuc 0

-- TCPConnection::recv. The argument is the result of the system call: `none` for -1, and else the
-- bytes that it stores at the front of the buffer. The buffer keeps its full size.
unfoldable pub recv : Option Bytes → ℤ × Bytes
recv none = (minus_one, replicate default_buffer_size 0)
recv (some received) =
    (pos (length received), received ++ replicate (default_buffer_size - length received) 0)

-- FILE_RAII: the stream that fopen gives, by what it reads; `none` is a null pointer.
pub record FileRaii : Type 0 where
  pub m_fp : Option Bytes

-- FILE_RAII::FILE_RAII, with the result of fopen
abbrev pub file_raii : Option Bytes → FileRaii
file_raii opened = record { m_fp = opened }

-- FILE_RAII::get_fd: the descriptor, by the file that it is of; `none` is -1.
abbrev pub file_fd : FileRaii → Option Bytes
file_fd file = elim file.m_fp [ none ↦ none | some content ↦ some content ]

-- FILE_RAII::~FILE_RAII, at the end of a call: fclose of a null pointer is undefined.
abbrev pub destroy_file : {S : Type 0} → FileRaii → Io S → Io S
destroy_file file result = elim file.m_fp [ none ↦ undefined | some content ↦ result ]

module _ (api : SocketApi) where
  open api use {State, send, sendfile}

  -- The loop of _send_wrapper; the fuel bounds its rounds.
  send_loop : ℕ → State → Bytes → ℕ → ℕ → Io State
  send_loop zero s buffer total remaining = running
  send_loop (suc f) s buffer total remaining =
      let call = send s (take remaining (drop total buffer)) in
      let round : Io State = elim (call.0) [
        | none ↦ ret minus_one call.1
        | some n ↦ send_loop f call.1 buffer (total + n) (remaining - n)
      ] in
      if ltb total (length buffer) then round else ret (pos total) s

  -- _send_wrapper and TCPConnection::send (const std::vector<char> &, int)
  unfoldable pub send_buffer : ℕ → State → Bytes → Io State
  unfolding send_loop
  send_buffer fuel s buffer = send_loop fuel s buffer 0 (length buffer)

  -- The loop over sendfile.
  send_file_loop : ℕ → State → Bytes → ℕ → ℕ → ℕ → ℕ → Io State
  send_file_loop zero s file off size total remaining = running
  send_file_loop (suc f) s file off size total remaining =
      let call = sendfile s file off remaining in
      let round : Io State = elim (call.0) [
        | none ↦ ret minus_one call.1
        | some n ↦ send_file_loop f call.1 file (total + n) size (total + n) (remaining - n)
      ] in
      if ltb total size then round else ret (pos total) s

  -- TCPConnection::send (const std::string &, size_t). The file is what fopen gives.
  unfoldable pub send_file : ℕ → State → Option Bytes → ℕ → Io State
  unfolding send_file_loop
  send_file fuel s opened size =
      let file = file_raii opened in
      let total : Io State = elim (file_fd file) [
        | none ↦ ret minus_one s
        | some content ↦ send_file_loop fuel s content 0 size 0 size
      ] in
      destroy_file file total
