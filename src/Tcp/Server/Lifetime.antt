-- ===== src/Tcp/Server/Lifetime.antt =====
-- What the listening socket opens and closes.
use http_file_sharing.Prelude.{
  ℕ, ◌≡◌, refl, sym, ap, ◌∙◌, ◌++◌, [], none, some, inl, inr, ◌⊎◌, Bool, true, false, not, ◌&&◌,
  ◌||◌, arith, ◌==◌, if◌then◌else◌, Option-cases, codes,
}
use http_file_sharing.Prelude.Int.{ℤ, pos, negsuc}
use http_file_sharing.Tcp.Net.{NetApi, IsNet, SameOpen}
use http_file_sharing.Tcp.Server.{
  Listening, raised, raise_exception, listening, set_up, socket_fd, tcp_server, destroy_server,
}

module _ (net : NetApi) (law : IsNet net) where
  open law use {
    socket_some, socket_none, setsockopt_open, setsockopt_bad, bind_open, listen_open, close_pos,
    close_bad,
  }

  -- One more descriptor is open.
  abbrev pub HasOpened : ℕ → net.State → net.State → Type 0
  HasOpened fd s s' =
      (net.is_open s fd ≡ false) × ((j : ℕ) → net.is_open s' j ≡ (j == fd || net.is_open s j))

  -- What a constructor promises when setsockopt, bind and listen gave these results. One that throws
  -- has opened nothing that stays open, and the exception is that of the first call that failed. One
  -- that returns has a socket, no call failed, it has opened its descriptor, and its destructor
  -- closes it.
  abbrev pub Outcome : ℤ → net.State → Bool → Bool → Bool → Listening net.State → Type 0
  Outcome port s reuse bound ready (raised message s') =
      SameOpen net s s'
      × (((reuse ≡ false) × (message ≡ codes "setsockopt failed. " ++ net.strerror s'))
          ⊎ (((reuse ≡ true)
                × ((bound ≡ false) × (message ≡ codes "bind failed. " ++ net.strerror s')))
              ⊎ ((reuse ≡ true)
                  × ((bound ≡ true)
                      × ((ready ≡ false)
                          × (message ≡ codes "listen failed. " ++ net.strerror s'))))))
  Outcome port s reuse bound ready (listening server s') =
      (reuse ≡ true)
      × (bound ≡ true)
      × (ready ≡ true)
      × (server.m_port ≡ port)
      × ((fd : ℕ) × ((net.socket s).0 ≡ some fd)
          × (server.m_fd ≡ pos fd)
          × HasOpened fd s s'
          × SameOpen net s (destroy_server net server s'))

  -- The calls in the order of the source, each in the state that the one before it left; a socket
  -- that failed is the descriptor -1.
  abbrev pub Opens : ℤ → ℤ → net.State → Listening net.State → Type 0
  Opens port backlog s result =
      let fd : ℤ = elim (net.socket s).0 [ none ↦ negsuc 0 | some i ↦ pos i ] in
      let s1 = (net.setsockopt fd (net.socket s).1).1 in
      let s2 = (net.bind fd port s1).1 in
      Outcome port s ((net.setsockopt fd (net.socket s).1).0) ((net.bind fd port s1).0)
        ((net.listen fd backlog s2).0) result

  still_open :
      (fd : ℕ) (s s' s'' : net.State) → HasOpened fd s s' → SameOpen net s' s'' → HasOpened fd s s''
  still_open fd s s' s'' (new, opened) same = (new, λ j. same j ∙ opened j)

  pub closed_again :
      (fd : ℕ) (s s' : net.State) → HasOpened fd s s' → SameOpen net s (net.close (pos fd) s')
  closed_again fd s s' (new, opened) j =
      close_pos fd j s'
      ∙ ap (λ t. not (j == fd) && t) (opened j)
      ∙ flags (j == fd) (net.is_open s j) (λ e. rw (eq_of j fd e) new)
    where
      flags : (b c : Bool) → (b ≡ true → c ≡ false) → (not b && (b || c)) ≡ c
      flags true c h = sym (h refl)
      flags false c h = refl

      eq_of : (m n : ℕ) → (m == n) ≡ true → m ≡ n
      eq_of m n e = ground arith

  tests-Outcome :
      (port : ℤ) (fd : ℕ) (s s1 s2 s3 : net.State) (reuse bound ready : Bool)
      → (net.socket s).0 ≡ some fd
      → HasOpened fd s s1
      → HasOpened fd s s2
      → HasOpened fd s s3
      → Outcome port s reuse bound ready (
          if not reuse
          then raise_exception net (codes "setsockopt failed") (net.close (pos fd) s1)
          else if not bound
          then raise_exception net (codes "bind failed") (net.close (pos fd) s2)
          else if not ready
          then raise_exception net (codes "listen failed") (net.close (pos fd) s3)
          else listening (record { m_port = port; m_fd = pos fd; m_name = [] }) s3)
  unfolding destroy_server
  tests-Outcome port fd s s1 s2 s3 false bound ready e h1 h2 h3 =
      (closed_again fd s s1 h1, inl (refl, refl))
  tests-Outcome port fd s s1 s2 s3 true false ready e h1 h2 h3 =
      (closed_again fd s s2 h2, inr (inl (refl, (refl, refl))))
  tests-Outcome port fd s s1 s2 s3 true true false e h1 h2 h3 =
      (closed_again fd s s3 h3, inr (inr (refl, (refl, (refl, refl)))))
  tests-Outcome port fd s s1 s2 s3 true true true e h1 h2 h3 =
      (refl, refl, refl, refl, (fd, e, refl, h3, closed_again fd s s3 h3))

  set_up-Opens :
      (port backlog : ℤ) (fd : ℕ) (s : net.State)
      → (net.socket s).0 ≡ some fd
      → HasOpened fd s (net.socket s).1
      → Opens port backlog s (set_up net port backlog (pos fd) (net.socket s).1)
  unfolding set_up
  set_up-Opens port backlog fd s e h =
      let s' = (net.socket s).1 in
      let s1 = (net.setsockopt (pos fd) s').1 in
      let h1 = still_open fd s s' s1 h (setsockopt_open (pos fd) s') in
      let h2 = still_open fd s s1 (net.bind (pos fd) port s1).1 h1 (bind_open (pos fd) port s1) in
      let s2 = (net.bind (pos fd) port s1).1 in
      let h3 = still_open fd s s2 _ h2 (listen_open (pos fd) backlog s2) in
      rw e (tests-Outcome port fd s _ _ _ _ _ _ e h1 h2 h3)

  -- Without a socket setsockopt fails, and the close of -1 closes nothing.
  set_up-bad :
      (port backlog : ℤ) (s : net.State)
      → (net.socket s).0 ≡ none
      → SameOpen net s (net.socket s).1
      → Opens port backlog s (set_up net port backlog (negsuc 0) (net.socket s).1)
  unfolding set_up
  set_up-bad port backlog s e h =
      let s' = (net.socket s).1 in
      rw (e, setsockopt_bad 0 s')
        ((λ j. close_bad 0 _ j ∙ setsockopt_open (negsuc 0) s' j ∙ h j), inl (refl, refl))

  -- For every port, backlog and state: if socket, setsockopt, bind or listen fails, the constructor
  -- throws the exception of the first of setsockopt, bind and listen that failed (setsockopt, if
  -- socket did), and the same descriptors are open as before; and else it returns: socket gave the
  -- descriptor of the server, setsockopt, bind and listen succeeded on it, the server has the port,
  -- that new descriptor is open and no other, and the destructor of the server closes it again.
  pub tcp_server-Opens :
      (port backlog : ℤ) (s : net.State) → Opens port backlog s (tcp_server net port backlog s)
  unfolding tcp_server socket_fd
  tcp_server-Opens port backlog s = elim (Option-cases (net.socket s).0) [
    | inl e ↦ rw e (rw e at (set_up-bad port backlog s e (socket_none s e)))
    | inr (fd, e) ↦ rw e (rw e at (set_up-Opens port backlog fd s e (socket_some s fd e)))
  ]
