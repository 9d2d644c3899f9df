-- ===== src/App/Server/Descriptors.antt =====
-- Each connection is open as long as something points to it, and no longer.
use http_file_sharing.Prelude.{
  ℕ, ◌≡◌, refl, sym, ap, ◌∙◌, inl, inr, Bool, true, false, not, ◌&&◌, ◌||◌, Option, none, some,
  arith, ◌==◌, Bool-cases, Option-cases, of_some, none-ne-some, Bytes,
}
use http_file_sharing.Tcp.Net.{NetApi, IsNet, SameOpen}
use http_file_sharing.Tcp.Server.{
  tcp_connection, TcpConnection, TcpServer, accept_connection, destroy_connection, get_src_addr,
}
use http_file_sharing.Tpool.{Lock, unlocked, adding, getting, add_push, add_post}
use http_file_sharing.Filesys.{FileSystem}
use http_file_sharing.App.Options.{ProgOptions}
use http_file_sharing.App.Blacklist.{Sqlite, is_ipaddr_blacklisted}
use http_file_sharing.App.Server.{
  Loop, at_accept, accepted, checked, pushing, handler, in_loop, refers, Running, release,
  loop_step,
}
use http_file_sharing.App.Server.Pointers.{in_pool, in_pool-push, in_pool-post}

module _ (net : NetApi) (law : IsNet net) (sql : Sqlite) (opts : ProgOptions) (fs : FileSystem)
    (exe : Bytes) (fuel : ℕ) where
  -- Beside the descriptors that were open when the loop began, those are open that something points
  -- to; and nothing points to a descriptor that was open then.
  abbrev pub Owned : (ℕ → Bool) → net.State → (ℕ → Bool) → Type 0
  Owned base sock pointers =
      (fd : ℕ)
      → (net.is_open sock fd ≡ (base fd || pointers fd)) × ((base fd && pointers fd) ≡ false)

  abbrev pub IsOwned : (ℕ → Bool) → Running net sql opts fs exe fuel → Type 0
  IsOwned base s = Owned base s.sock (λ fd. refers fd s)

  pub Owned-same :
      (base : ℕ → Bool) (sock sock' : net.State) (pointers pointers' : ℕ → Bool)
      → SameOpen net sock sock'
      → ((fd : ℕ) → pointers' fd ≡ pointers fd)
      → Owned base sock pointers
      → Owned base sock' pointers'
  Owned-same base sock sock' pointers pointers' open_same same h fd = (
    open_same fd ∙ (h fd).0 ∙ ap (λ b. base fd || b) (sym (same fd)),
    ap (λ b. base fd && b) (same fd) ∙ (h fd).1,
  )

  same_fd : (m n : ℕ) → (m == n) ≡ true → m ≡ n
  same_fd m n e = ground arith

  kept :
      (o b q r : Bool)
      → (q ≡ true → r ≡ true)
      → (o ≡ (b || (q || r))) × ((b && (q || r)) ≡ false)
      → (o ≡ (b || r)) × ((b && r) ≡ false)
  kept o b false r h g = g
  kept o b true r h g = rw (h refl) g

  closed :
      (o o' b q r : Bool)
      → (q ≡ true → r ≡ false)
      → o' ≡ (not q && o)
      → (o ≡ (b || (q || r))) × ((b && (q || r)) ≡ false)
      → (o' ≡ (b || r)) × ((b && r) ≡ false)
  closed o o' b false r h c g = (c ∙ g.0, g.1)
  closed o o' true true r h c g = absurd (ground arith)
  closed o o' false true r h c g = (c ∙ sym (h refl), refl)

  -- The last pointer to a connection closes it.
  pub release-IsOwned :
      (base : ℕ → Bool) (c : TcpConnection) (s : Running net sql opts fs exe fuel)
      → Owned base s.sock (λ fd. fd == c.m_fd || refers fd s)
      → IsOwned base (release net sql opts fs exe fuel c s)
  unfolding release destroy_connection
  release-IsOwned base c s h fd =
      let at_c : (b : Bool) → refers c.m_fd s ≡ b → (fd == c.m_fd) ≡ true → refers fd s ≡ b =
        λ b e q. ap (λ t. refers t s) (same_fd fd c.m_fd q) ∙ e in
      elim (Bool-cases (refers c.m_fd s)) [
        | inl e ↦ rw e (
            kept (net.is_open s.sock fd) (base fd) (fd == c.m_fd) (refers fd s) (at_c true e)
              (h fd))
        | inr e ↦ rw e (
            closed (net.is_open s.sock fd) _ (base fd) (fd == c.m_fd) (refers fd s) (at_c false e)
              (law.close_pos c.m_fd fd s.sock) (h fd))
      ]

  joined :
      (o o' b q p : Bool)
      → (q ≡ true → o ≡ false)
      → o' ≡ (q || o)
      → (o ≡ (b || p)) × ((b && p) ≡ false)
      → (o' ≡ (b || (q || p))) × ((b && (q || p)) ≡ false)
  joined o o' b false p h n g = (n ∙ g.0, g.1)
  joined o o' true true p h n g = absurd (ground (arith, h refl))
  joined o o' false true p h n g = (n, refl)

  accepted-IsOwned :
      (base : ℕ → Bool) (server : TcpServer) (s : Running net sql opts fs exe fuel)
      (result : Option (ℕ × ℕ))
      → s.loop ≡ at_accept
      → (net.accept server.m_fd s.sock).0 ≡ result
      → IsOwned base s
      → Owned base (net.accept server.m_fd s.sock).1 (λ fd.
        in_loop fd
          (elim result [ none ↦ at_accept | some r ↦ accepted (tcp_connection (r.0) (r.1)) ])
        || in_pool fd s.pool)
  accepted-IsOwned base server s none l e h fd =
      Owned-same base s.sock (net.accept server.m_fd s.sock).1 (λ fd. refers fd s) _
        (law.accept_none server.m_fd s.sock e)
        (λ fd. ap (λ t. in_loop fd t || in_pool fd s.pool) (sym l)) h fd
  accepted-IsOwned base server s (some (new, addr)) l e h fd =
      let (closed_before, opened) = law.accept_some server.m_fd s.sock new addr e in
      let none_yet : refers fd s ≡ in_pool fd s.pool =
        ap (λ t. in_loop fd t || in_pool fd s.pool) l in
      joined (net.is_open s.sock fd) _ (base fd) (fd == new) (in_pool fd s.pool)
        (λ q. ap (net.is_open s.sock) (same_fd fd new q) ∙ closed_before) (opened fd)
        (
          (h fd).0 ∙ ap (λ t. base fd || t) none_yet,
          ap (λ t. base fd && t) (sym none_yet) ∙ (h fd).1,
        )

  -- What a step of the loop does to the connections.
  accept-IsOwned :
      (base : ℕ → Bool) (server : TcpServer) (s s' : Running net sql opts fs exe fuel)
      → s.loop ≡ at_accept
      → loop_step net sql opts fs exe fuel server at_accept s ≡ some s'
      → IsOwned base s
      → IsOwned base s'
  unfolding loop_step accept_connection
  accept-IsOwned base server s s' l e h =
      of_some (IsOwned base) _ s' e (elim (Option-cases (net.accept server.m_fd s.sock).0) [
        | inl r ↦ rw r (accepted-IsOwned base server s none l r h)
        | inr (c, r) ↦ rw r (accepted-IsOwned base server s (some c) l r h)
      ])

  twice : (a b : Bool) → (a || (a || b)) ≡ (a || b)
  twice true b = refl
  twice false b = refl

  test-IsOwned :
      (base : ℕ → Bool) (server : TcpServer) (s s' : Running net sql opts fs exe fuel)
      (c : TcpConnection)
      → s.loop ≡ accepted c
      → loop_step net sql opts fs exe fuel server (accepted c) s ≡ some s'
      → IsOwned base s
      → IsOwned base s'
  unfolding loop_step
  test-IsOwned base server s s' c l e h =
      let pointers : (fd : ℕ) → (fd == c.m_fd || in_pool fd s.pool) ≡ refers fd s =
        λ fd. ap (λ t. in_loop fd t || in_pool fd s.pool) (sym l) in
      elim (Bool-cases
        (is_ipaddr_blacklisted opts.blacklist_threshold s.stats (get_src_addr net c))) [
          | inl b ↦ of_some (IsOwned base) _ s' (rw b at e) (
              release-IsOwned base c (record s { loop = at_accept })
                (Owned-same base s.sock s.sock (λ fd. refers fd s) _ (λ fd. refl) pointers h))
          | inr b ↦
              of_some (IsOwned base) _ s' (rw b at e)
                (Owned-same base s.sock s.sock (λ fd. refers fd s) _ (λ fd. refl) pointers h)
        ]

  push-IsOwned :
      (base : ℕ → Bool) (server : TcpServer) (s s' : Running net sql opts fs exe fuel)
      (c : TcpConnection) (lock : Lock)
      → s.loop ≡ checked c
      → s.pool.lock ≡ lock
      → loop_step net sql opts fs exe fuel server (checked c) s ≡ some s'
      → IsOwned base s
      → IsOwned base s'
  unfolding loop_step
  push-IsOwned base server s s' c lock l k e h =
      pushed lock k e (λ fd. ap (λ t. in_loop fd t || in_pool fd s.pool) (sym l))
    where
      pushed :
          (lock : Lock)
          → s.pool.lock ≡ lock
          → elim s.pool.lock [
            | unlocked ↦ some (record s {
              loop = pushing c;
              pool = add_push s.pool (record { fn_ptr = handler; connection = c });
            })
            | adding ↦ none
            | getting ↦ none
          ]
            ≡ some s'
          → ((fd : ℕ) → (fd == c.m_fd || in_pool fd s.pool) ≡ refers fd s)
          → IsOwned base s'
      pushed unlocked k e pointers = of_some (IsOwned base) _ s' (rw k at e) (
          Owned-same base s.sock s.sock (λ fd. refers fd s) _ (λ fd. refl)
            (λ fd.
              ap (λ t. fd == c.m_fd || t) (in_pool-push fd s.pool _)
              ∙ twice (fd == c.m_fd) (in_pool fd s.pool)
              ∙ pointers fd)
            h)
      pushed adding k e pointers = absurd (none-ne-some s' (rw k at e))
      pushed getting k e pointers = absurd (none-ne-some s' (rw k at e))

  post-IsOwned :
      (base : ℕ → Bool) (server : TcpServer) (s s' : Running net sql opts fs exe fuel)
      (c : TcpConnection)
      → s.loop ≡ pushing c
      → loop_step net sql opts fs exe fuel server (pushing c) s ≡ some s'
      → IsOwned base s
      → IsOwned base s'
  unfolding loop_step
  post-IsOwned base server s s' c l e h = of_some (IsOwned base) _ s' e (
      release-IsOwned base c (record s { loop = at_accept; pool = add_post s.pool })
        (Owned-same base s.sock s.sock (λ fd. refers fd s) _ (λ fd. refl)
          (λ fd.
            ap (λ t. fd == c.m_fd || t) (in_pool-post fd s.pool)
            ∙ ap (λ t. in_loop fd t || in_pool fd s.pool) (sym l))
          h))

  pub loop_step-IsOwned :
      (base : ℕ → Bool) (server : TcpServer) (s s' : Running net sql opts fs exe fuel) (loop : Loop)
      → s.loop ≡ loop
      → loop_step net sql opts fs exe fuel server loop s ≡ some s'
      → IsOwned base s
      → IsOwned base s'
  loop_step-IsOwned base server s s' at_accept l e h = accept-IsOwned base server s s' l e h
  loop_step-IsOwned base server s s' (accepted c) l e h = test-IsOwned base server s s' c l e h
  loop_step-IsOwned base server s s' (checked c) l e h =
      push-IsOwned base server s s' c s.pool.lock l refl e h
  loop_step-IsOwned base server s s' (pushing c) l e h = post-IsOwned base server s s' c l e h
