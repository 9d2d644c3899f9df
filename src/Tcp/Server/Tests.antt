-- ===== src/Tcp/Server/Tests.antt =====
-- An operating system that keeps a list of the open descriptors, and hands out new numbers.
use http_file_sharing.Prelude.{
  ℕ, ◌+◌, ◌≤◌, ◌≡◌, refl, ap, Bool, true, false, not, ◌&&◌, ◌||◌, none, some, List, [], ◌∷◌, arith,
  ◌==◌, if◌then◌else◌, some_inj, codes,
}
use http_file_sharing.Prelude.Int.{ℤ, pos, negsuc}
use http_file_sharing.Tcp.Net.{NetApi, IsNet}
use http_file_sharing.Tcp.Server.{raised, socket_fd, set_up, tcp_server}
use http_file_sharing.Tcp.Server.Lifetime.{Opens, tcp_server-Opens}

abbrev pub is_in : List ℕ → ℕ → Bool
is_in [] j = false
is_in (fd ∷ fds) j = j == fd || is_in fds j

abbrev pub unused : List ℕ → ℕ
unused [] = 3
unused (fd ∷ fds) = fd + unused fds + 1

abbrev pub remove : List ℕ → ℕ → List ℕ
remove [] j = []
remove (fd ∷ fds) j = if fd == j then remove fds j else fd ∷ remove fds j

abbrev pub close_in : ℤ → List ℕ → List ℕ
close_in (pos fd) fds = remove fds fd
close_in (negsuc n) fds = fds

abbrev pub is_pos : ℤ → Bool
is_pos (pos fd) = true
is_pos (negsuc n) = false

-- Only the port 80 cannot be bound to; no call on a connection sends or receives anything.
abbrev pub small_net : NetApi
small_net = record {
  State = List ℕ;
  is_open = is_in;
  socket = λ s. (some (unused s), unused s ∷ s);
  setsockopt = λ fd s. (is_pos fd, s);
  bind = λ fd port s. (elim port [ pos n ↦ not (n == 80) | negsuc n ↦ false ], s);
  listen = λ fd backlog s. (true, s);
  accept = λ fd s. (some (unused s, 1), unused s ∷ s);
  close = close_in;
  wire = λ fd s. [];
  send = λ fd s buf. (none, s);
  sendfile = λ fd s file off count. (none, s);
  recv = λ fd s. (none, s);
  inet_ntop = λ addr. codes "10.0.0.1";
  strerror = λ s. codes "Address already in use";
}

below_unused : (fds : List ℕ) (j : ℕ) → unused fds ≤ j → is_in fds j ≡ false
below_unused [] j h = refl
below_unused (fd ∷ fds) j h =
    let other : (j == fd) ≡ false = ground arith in rw other (below_unused fds j (omega arith))

is_in-remove : (fds : List ℕ) (fd j : ℕ) → is_in (remove fds fd) j ≡ (not (j == fd) && is_in fds j)
is_in-remove [] fd j = ground arith
is_in-remove (x ∷ fds) fd j = ground (arith, is_in-remove fds fd j)

some_fd : (fds : List ℕ) (fd : ℕ) → some (unused fds) ≡ some fd → unused fds ≡ fd
some_fd fds fd e = some_inj (unused fds) fd e

pub small_net-IsNet : IsNet small_net
small_net-IsNet = record {
  socket_some =
      λ s fd e. (below_unused s fd (omega (arith, some_fd s fd e)), λ j. rw (some_fd s fd e));
  socket_none = λ s e. absurd cc;
  setsockopt_open = λ fd s j. refl;
  setsockopt_bad = λ n s. refl;
  bind_open = λ fd port s j. refl;
  listen_open = λ fd backlog s j. refl;
  accept_some = λ fd s new addr e.
      let same : unused s ≡ new = ap (λ r. r.0) (some_inj (unused s, 1) (new, addr) e) in
      (below_unused s new (omega arith), λ j. rw same);
  accept_none = λ fd s e. absurd cc;
  close_pos = λ fd j s. is_in-remove s fd j;
  close_bad = λ n s j. refl;
  send_open = λ fd s buf j. refl;
  sendfile_open = λ fd s file off count j. refl;
  recv_open = λ fd s j. refl;
}

-- The port is taken: the socket that was opened is closed again.
bind_failed :
    tcp_server small_net (pos 80) (pos 5) (9 ∷ [])
    ≡ raised (codes "bind failed. Address already in use") (9 ∷ [])
unfolding tcp_server set_up socket_fd
bind_failed = refl

tcp_server-Opens_example :
    Opens small_net small_net-IsNet
      (pos 8080)
      (pos 5)
      (9 ∷ [])
      (tcp_server small_net (pos 8080) (pos 5) (9 ∷ []))
tcp_server-Opens_example = tcp_server-Opens small_net small_net-IsNet (pos 8080) (pos 5) (9 ∷ [])
