-- ===== src/Tcp/Connection/Buffer.antt =====
-- The send loop over a buffer ends, and what it has sent.
use http_file_sharing.Prelude.{
  ℕ, zero, suc, ◌+◌, ◌-◌, ◌≤◌, ◌<◌, ◌≡◌, refl, sym, ap, ◌∙◌, ◌⊎◌, inl, inr, ◌≢◌, ◌++◌, [],
  append_assoc, append-nil, none, some, true, false, arith, ltb, Bytes, length, take, drop,
  length-drop, drop-drop, take_all, drop_all, take-append-take, take-append-drop, Option-cases,
}
use native.Mathlib.Decide.{dec_lt}
use http_file_sharing.Prelude.Int.{pos}
use http_file_sharing.Tcp.Api.{SocketApi, IsSocket}
use http_file_sharing.Tcp.Connection.{Io, ret, minus_one, send_loop, send_buffer}

-- The state is the one that a failed call of send or sendfile left.
abbrev pub HasFailed : (api : SocketApi) → api.State → Type 0
HasFailed api s' =
    ((s : api.State) × (buf : Bytes) × ((api.send s buf).0 ≡ none) × ((api.send s buf).1 ≡ s'))
    ⊎ ((s : api.State) × (file : Bytes) × (off : ℕ) × (count : ℕ) × ((api.sendfile s file off
            count).0
          ≡ none)
        × ((api.sendfile s file off count).1 ≡ s'))

-- The wire has gained the bytes, or some of the first of them before a call failed.
abbrev pub HasSent : (api : SocketApi) → api.State → Bytes → api.State → Type 0
HasSent api s sent s' =
    (api.wire s' ≡ api.wire s ++ sent)
    ⊎ ((k : ℕ) × ((api.wire s' ≡ api.wire s ++ take k sent) × HasFailed api s'))

-- A call whose result is the whole length with all the bytes on the wire, or -1 with some of the
-- first of them on the wire.
abbrev pub Delivers : (api : SocketApi) → api.State → Bytes → ℕ → Io api.State → Type 0
Delivers api s sent size r =
    ((s' : api.State) × (r ≡ ret (pos size) s') × (api.wire s' ≡ api.wire s ++ sent))
    ⊎ ((s' : api.State) × (k : ℕ) × (r ≡ ret minus_one s')
        × (api.wire s' ≡ api.wire s ++ take k sent)
        × HasFailed api s')

module _ (api : SocketApi) where
  -- A round that puts `n` bytes on the wire, before rounds that deliver the rest.
  pub Delivers-round :
      (s s' : api.State) (sent : Bytes) (size n : ℕ) (r : Io api.State)
      → api.wire s' ≡ api.wire s ++ take n sent
      → Delivers api s' (drop n sent) size r
      → Delivers api s sent size r
  Delivers-round s s' sent size n r w (inl (t, e, v)) = inl (
    t,
    e,
    cc (v, w, append_assoc (api.wire s) (take n sent) (drop n sent), take-append-drop n sent),
  )
  Delivers-round s s' sent size n r w (inr (t, k, e, v, cause)) = inr (
    t,
    n + k,
    e,
    cc (
      v,
      w,
      append_assoc (api.wire s) (take n sent) (take k (drop n sent)),
      take-append-take n k sent,
    ),
    cause,
  )

  -- A failed call ends the loop with nothing more on the wire.
  pub Delivers-failed :
      (s s' : api.State) (sent : Bytes) (size : ℕ)
      → api.wire s' ≡ api.wire s
      → HasFailed api s'
      → Delivers api s sent size (ret minus_one s')
  Delivers-failed s s' sent size w cause =
      inr (s', 0, refl, w ∙ sym (append-nil (api.wire s)), cause)

  pub Delivers-done :
      (s : api.State) (sent : Bytes) (size : ℕ)
      → sent ≡ []
      → Delivers api s sent size (ret (pos size) s)
  Delivers-done s sent size e = inl (s, refl, rw e (sym (append-nil (api.wire s))))

module _ (api : SocketApi) (law : IsSocket api) (buffer : Bytes) where
  -- What a call of send is given.
  abbrev rest : ℕ → Bytes
  rest total = take (length buffer - total) (drop total buffer)

  rest_all : (total : ℕ) → rest total ≡ drop total buffer
  rest_all total =
      take_all (length buffer - total) (drop total buffer) (omega (arith, length-drop total buffer))

  send_loop_end :
      (f : ℕ) (s : api.State) (total : ℕ)
      → length buffer ≤ total
      → send_loop api (suc f) s buffer total (length buffer - total) ≡ ret (pos total) s
  unfolding send_loop
  send_loop_end f s total h = let e : ltb total (length buffer) ≡ false = ground arith in rw e

  send_loop_failed :
      (f : ℕ) (s : api.State) (total : ℕ)
      → total < length buffer
      → (api.send s (rest total)).0 ≡ none
      → send_loop api (suc f) s buffer total (length buffer - total)
        ≡ ret minus_one (api.send s (rest total)).1
  unfolding send_loop
  send_loop_failed f s total h failed =
      let e : ltb total (length buffer) ≡ true = ground arith in rw (e, failed)

  send_loop_sent :
      (f : ℕ) (s : api.State) (total n : ℕ)
      → total < length buffer
      → (api.send s (rest total)).0 ≡ some n
      → send_loop api (suc f) s buffer total (length buffer - total)
        ≡ send_loop api f
            (api.send s (rest total)).1
            buffer
            (total + n)
            (length buffer - (total + n))
  unfolding send_loop
  send_loop_sent f s total n h sent =
      let e : ltb total (length buffer) ≡ true = ground arith in
      let lower : length buffer - total - n ≡ length buffer - (total + n) = omega arith in
      rw (e, sent, lower)

  send_loop-Delivers :
      (f : ℕ) (s : api.State) (total : ℕ)
      → length buffer - total < f
      → total ≤ length buffer
      → Delivers api s
          (drop total buffer)
          (length buffer)
          (send_loop api f s buffer total (length buffer - total))
  send_loop-Delivers zero s total h le = absurd (omega arith)
  send_loop-Delivers (suc f) s total h le = elim (dec_lt total (length buffer)) [
    | no full ↦
        let same : length buffer ≡ total = omega arith in
        rw (send_loop_end f s total (omega arith), same)
          (Delivers-done api s (drop total buffer) total (drop_all total buffer (omega arith)))
    | yes more ↦ elim (Option-cases (api.send s (rest total)).0) [
      | inl failed ↦ rw (send_loop_failed f s total more failed) (
          Delivers-failed api s _ (drop total buffer) (length buffer)
            (law.send_none s (rest total) failed) (inl (s, rest total, failed, refl)))
      | inr (n, sent) ↦
          let fits = law.send_some s (rest total) n sent in
          let size : length (rest total) ≡ length buffer - total =
            ap length (rest_all total) ∙ length-drop total buffer in
          let some_sent : n ≢ 0 =
            λ z. law.send_progress s (rest total) (omega arith) (rw (← z) sent) in
          rw (send_loop_sent f s total n more sent) (
            Delivers-round api s _ (drop total buffer) (length buffer) n _
              (fits.1 ∙ ap (λ t. api.wire s ++ take n t) (rest_all total))
              (rw (drop-drop total n buffer) (
                send_loop-Delivers f (api.send s (rest total)).1 (total + n) (omega arith)
                  (omega arith))))
    ]
  ]

  -- With fuel for every byte the send loop returns: either the whole length with exactly the bytes
  -- of the buffer, in order, behind what was on the wire, or -1 after a failed call, with a prefix
  -- of the buffer on the wire.
  pub send_buffer-Delivers :
      (fuel : ℕ) (s : api.State)
      → length buffer < fuel
      → Delivers api s buffer (length buffer) (send_buffer api fuel s buffer)
  unfolding send_buffer
  send_buffer-Delivers fuel s h =
      let whole : length buffer - 0 ≡ length buffer = omega arith in
      rw whole at (send_loop-Delivers fuel s 0 (omega arith) (omega arith))
