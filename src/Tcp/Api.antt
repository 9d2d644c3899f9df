-- ===== src/Tcp/Api.antt =====
-- The system calls on a connected socket, which are not the program's: their results are chosen by
-- the operating system, and what the peer has received is the wire.
use http_file_sharing.Prelude.{
  ℕ, ◌-◌, ◌≤◌, ◌<◌, ◌≡◌, ◌≢◌, ◌++◌, Option, none, some, Bytes, length, take, drop,
}

-- `some n` is the number of bytes that a call sent, and `none` its result -1.
pub record SocketApi : Type 1 where
  pub State : Type 0
  pub wire : State → Bytes
  -- send (fd, buffer, len, flags)
  pub send : State → Bytes → Option ℕ × State
  -- sendfile (fd, file_fd, &off, count), on a file of that content
  pub sendfile : State → Bytes → ℕ → ℕ → Option ℕ × State

-- What send(2) and sendfile(2) document: a call that succeeds sends some of the bytes that it is
-- given, in order, and at least one if it is given any; a call that fails sends nothing. At the end
-- of the file sendfile sends nothing and succeeds.
pub record IsSocket (api : SocketApi) : Type 0 where
  pub send_some :
      (s : api.State) (buf : Bytes) (n : ℕ)
      → (api.send s buf).0 ≡ some n
      → (n ≤ length buf) × (api.wire (api.send s buf).1 ≡ api.wire s ++ take n buf)
  pub send_progress : (s : api.State) (buf : Bytes) → 0 < length buf → (api.send s buf).0 ≢ some 0
  pub send_none :
      (s : api.State) (buf : Bytes)
      → (api.send s buf).0 ≡ none
      → api.wire (api.send s buf).1 ≡ api.wire s
  pub sendfile_some :
      (s : api.State) (file : Bytes) (off count n : ℕ)
      → (api.sendfile s file off count).0 ≡ some n
      → (n ≤ count)
        × (n ≤ length file - off)
        × (api.wire (api.sendfile s file off count).1 ≡ api.wire s ++ take n (drop off file))
  pub sendfile_progress :
      (s : api.State) (file : Bytes) (off count : ℕ)
      → 0 < count
      → off < length file
      → (api.sendfile s file off count).0 ≢ some 0
  pub sendfile_none :
      (s : api.State) (file : Bytes) (off count : ℕ)
      → (api.sendfile s file off count).0 ≡ none
      → api.wire (api.sendfile s file off count).1 ≡ api.wire s
