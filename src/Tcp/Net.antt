-- ===== src/Tcp/Net.antt =====
-- The system calls on descriptors, which are not the program's: sockets that listen, and connections.
use http_file_sharing.Prelude.{
  ℕ, ◌≡◌, Bool, false, not, ◌&&◌, ◌||◌, Option, none, some, ◌==◌, Bytes,
}
use http_file_sharing.Prelude.Int.{ℤ, pos, negsuc}
use http_file_sharing.Tcp.Api.{SocketApi}

-- A descriptor is a number, and -1 where a call failed; `none` is the result -1 of a call, and false
-- that of one whose result is only tested for -1. The state is that of the operating system.
pub record NetApi : Type 1 where
  pub State : Type 0
  -- whether a descriptor is open
  pub is_open : State → ℕ → Bool
  pub socket : State → Option ℕ × State
  -- setsockopt for SO_REUSEADDR; bind to any address and a port; listen with a backlog
  pub setsockopt : ℤ → State → Bool × State
  pub bind : ℤ → ℤ → State → Bool × State
  pub listen : ℤ → ℤ → State → Bool × State
  -- a new descriptor and the address of the peer
  pub accept : ℤ → State → Option (ℕ × ℕ) × State
  pub close : ℤ → State → State
  -- what has been sent on a descriptor, and the calls on it
  pub wire : ℕ → State → Bytes
  pub send : ℕ → State → Bytes → Option ℕ × State
  pub sendfile : ℕ → State → Bytes → ℕ → ℕ → Option ℕ × State
  pub recv : ℕ → State → Option Bytes × State
  -- inet_ntop on an IPv4 address
  pub inet_ntop : ℕ → Bytes
  -- strerror of errno
  pub strerror : State → Bytes

-- The calls on one connected socket.
abbrev pub socket_on : (net : NetApi) → ℕ → SocketApi
socket_on net fd = record {
  State = net.State;
  wire = net.wire fd;
  send = net.send fd;
  sendfile = net.sendfile fd;
}

-- The same descriptors are open.
abbrev pub SameOpen : (net : NetApi) → net.State → net.State → Type 0
SameOpen net s s' = (fd : ℕ) → net.is_open s' fd ≡ net.is_open s fd

-- What the manual pages document of descriptors: socket and accept open one that was not open, or
-- none if they fail; close closes the one that it is given; no other call opens or closes any; and
-- setsockopt fails on -1.
pub record IsNet (net : NetApi) : Type 0 where
  pub socket_some :
      (s : net.State) (fd : ℕ)
      → (net.socket s).0 ≡ some fd
      → (net.is_open s fd ≡ false)
        × ((j : ℕ) → net.is_open (net.socket s).1 j ≡ (j == fd || net.is_open s j))
  pub socket_none : (s : net.State) → (net.socket s).0 ≡ none → SameOpen net s (net.socket s).1
  pub setsockopt_open : (fd : ℤ) (s : net.State) → SameOpen net s (net.setsockopt fd s).1
  pub setsockopt_bad : (n : ℕ) (s : net.State) → (net.setsockopt (negsuc n) s).0 ≡ false
  pub bind_open : (fd port : ℤ) (s : net.State) → SameOpen net s (net.bind fd port s).1
  pub listen_open : (fd backlog : ℤ) (s : net.State) → SameOpen net s (net.listen fd backlog s).1
  pub accept_some :
      (fd : ℤ) (s : net.State) (new addr : ℕ)
      → (net.accept fd s).0 ≡ some (new, addr)
      → (net.is_open s new ≡ false)
        × ((j : ℕ) → net.is_open (net.accept fd s).1 j ≡ (j == new || net.is_open s j))
  pub accept_none :
      (fd : ℤ) (s : net.State) → (net.accept fd s).0 ≡ none → SameOpen net s (net.accept fd s).1
  pub close_pos :
      (fd j : ℕ) (s : net.State)
      → net.is_open (net.close (pos fd) s) j ≡ (not (j == fd) && net.is_open s j)
  pub close_bad : (n : ℕ) (s : net.State) → SameOpen net s (net.close (negsuc n) s)
  pub send_open : (fd : ℕ) (s : net.State) (buf : Bytes) → SameOpen net s (net.send fd s buf).1
  pub sendfile_open :
      (fd : ℕ) (s : net.State) (file : Bytes) (off count : ℕ)
      → SameOpen net s (net.sendfile fd s file off count).1
  pub recv_open : (fd : ℕ) (s : net.State) → SameOpen net s (net.recv fd s).1
