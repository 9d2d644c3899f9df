-- ===== src/Tcp/Connection/Tests.antt =====
-- A socket that takes a few bytes at a time, and runs on it.
use http_file_sharing.Prelude.{
  ℕ, ◌-◌, ◌≡◌, refl, ap, some, [], ◌++◌, arith, length, take, drop, Bytes, codes,
}
use Prim.Native.Nat.{min}
use http_file_sharing.Prelude.Int.{pos}
use http_file_sharing.Tcp.Api.{SocketApi, IsSocket}
use http_file_sharing.Tcp.Connection.{ret, running, send_buffer, send_file}
use http_file_sharing.Tcp.Connection.Buffer.{Delivers, send_buffer-Delivers}
use http_file_sharing.Tcp.Connection.File.{send_file-Delivers, send_file-running}

abbrev pub file_chunk : Bytes → ℕ → ℕ → ℕ
file_chunk file off count = min 2 (min count (length file - off))

-- The state is what the peer has received.
abbrev pub slow_socket : SocketApi
slow_socket = record {
  State = Bytes;
  wire = λ s. s;
  send = λ s buf. (some (min 3 (length buf)), s ++ take (min 3 (length buf)) buf);
  sendfile = λ s file off count.
      (some (file_chunk file off count), s ++ take (file_chunk file off count) (drop off file));
}

some_inj : (m n : ℕ) → some m ≡ some n → m ≡ n
some_inj m n e = cc

pub slow_socket-IsSocket : IsSocket slow_socket
slow_socket-IsSocket = record {
  send_some = λ s buf n e.
      let same = some_inj (min 3 (length buf)) n e in (omega arith, ap (λ k. s ++ take k buf) same);
  send_progress = λ s buf h e. absurd (omega (arith, some_inj (min 3 (length buf)) 0 e));
  send_none = λ s buf e. cc;
  sendfile_some = λ s file off count n e.
      let same = some_inj (file_chunk file off count) n e in
      (omega arith, omega arith, ap (λ k. s ++ take k (drop off file)) same);
  sendfile_progress = λ s file off count h short e.
      absurd (omega (arith, some_inj (file_chunk file off count) 0 e));
  sendfile_none = λ s file off count e. cc;
}

send_buffer_slow : send_buffer slow_socket 9 [] (codes "abcdefgh") ≡ ret (pos 8) (codes "abcdefgh")
unfolding send_buffer
send_buffer_slow = refl

send_file_slow : send_file slow_socket 9 [] (some (codes "abcde")) 3 ≡ ret (pos 3) (codes "abc")
unfolding send_file
send_file_slow = refl

send_buffer-Delivers_example :
    Delivers slow_socket [] (codes "abcdefgh") 8 (send_buffer slow_socket 9 [] (codes "abcdefgh"))
send_buffer-Delivers_example =
    send_buffer-Delivers slow_socket slow_socket-IsSocket (codes "abcdefgh") 9 [] (omega arith)

send_file-Delivers_example :
    Delivers slow_socket [] (codes "abc") 3 (send_file slow_socket 4 [] (some (codes "abcde")) 3)
send_file-Delivers_example =
    send_file-Delivers slow_socket slow_socket-IsSocket (codes "abcde") 3 4 [] (omega arith)
      (omega arith)

-- The file has shrunk to two bytes since its size was read.
send_file-running_example : send_file slow_socket 100 [] (some (codes "ab")) 3 ≡ running
send_file-running_example =
    send_file-running slow_socket slow_socket-IsSocket (codes "ab") 3 100 [] (omega arith)
      (λ t off count e. cc)
