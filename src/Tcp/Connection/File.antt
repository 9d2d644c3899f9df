-- ===== src/Tcp/Connection/File.antt =====
-- The sendfile loop: it delivers a file that is long enough, and never ends on one that is not.
use http_file_sharing.Prelude.{
  ℕ, zero, suc, ◌+◌, ◌-◌, ◌≤◌, ◌<◌, ◌≡◌, refl, sym, ap, ◌∙◌, inl, inr, ◌≢◌, [], ◌∷◌, ◌++◌, none,
  some, true, false, arith, ltb, Bytes, length, take, drop, length-take, drop-drop, drop_all,
  Option-cases,
}
use native.Mathlib.Decide.{dec_lt}
use http_file_sharing.Prelude.Int.{pos}
use http_file_sharing.Tcp.Api.{SocketApi, IsSocket}
use http_file_sharing.Tcp.Connection.{ret, running, minus_one, send_file_loop, send_file}
use http_file_sharing.Tcp.Connection.Buffer.{
  Delivers, Delivers-round, Delivers-failed, Delivers-done,
}

-- A part of the file behind `off` is the same part of what is to be sent.
take-drop-take :
    (n off size : ℕ) (file : Bytes)
    → off + n ≤ size
    → take n (drop off (take size file)) ≡ take n (drop off file)
take-drop-take zero off size file h = refl
take-drop-take (suc n) off zero file h = absurd (omega arith)
take-drop-take (suc n) zero (suc size) [] h = refl
take-drop-take (suc n) zero (suc size) (c ∷ file) h =
    ap (λ t. c ∷ t) (take-drop-take n zero size file (omega arith))
take-drop-take (suc n) (suc off) (suc size) [] h = refl
take-drop-take (suc n) (suc off) (suc size) (c ∷ file) h =
    take-drop-take (suc n) off size file (omega arith)

module _ (api : SocketApi) (law : IsSocket api) (file : Bytes) (size : ℕ) where
  send_file_loop_end :
      (f : ℕ) (s : api.State) (total : ℕ)
      → size ≤ total
      → send_file_loop api (suc f) s file total size total (size - total) ≡ ret (pos total) s
  unfolding send_file_loop
  send_file_loop_end f s total h = let e : ltb total size ≡ false = ground arith in rw e

  send_file_loop_failed :
      (f : ℕ) (s : api.State) (total : ℕ)
      → total < size
      → (api.sendfile s file total (size - total)).0 ≡ none
      → send_file_loop api (suc f) s file total size total (size - total)
        ≡ ret minus_one (api.sendfile s file total (size - total)).1
  unfolding send_file_loop
  send_file_loop_failed f s total h failed =
      let e : ltb total size ≡ true = ground arith in rw (e, failed)

  send_file_loop_sent :
      (f : ℕ) (s : api.State) (total n : ℕ)
      → total < size
      → (api.sendfile s file total (size - total)).0 ≡ some n
      → send_file_loop api (suc f) s file total size total (size - total)
        ≡ send_file_loop api f
            (api.sendfile s file total (size - total)).1
            file
            (total + n)
            size
            (total + n)
            (size - (total + n))
  unfolding send_file_loop
  send_file_loop_sent f s total n h sent =
      let e : ltb total size ≡ true = ground arith in
      let lower : size - total - n ≡ size - (total + n) = omega arith in rw (e, sent, lower)

  send_file_loop-Delivers :
      (f : ℕ) (s : api.State) (total : ℕ)
      → size - total < f
      → total ≤ size
      → size ≤ length file
      → Delivers api s
          (drop total (take size file))
          size
          (send_file_loop api f s file total size total (size - total))
  send_file_loop-Delivers zero s total h le long = absurd (omega arith)
  send_file_loop-Delivers (suc f) s total h le long = elim (dec_lt total size) [
    | no full ↦
        let same : size ≡ total = omega arith in
        let ended : drop total (take size file) ≡ [] =
          drop_all total (take size file) (omega (arith, length-take size file long)) in
        rw (send_file_loop_end f s total (omega arith), ended, same)
          (Delivers-done api s [] total refl)
    | yes more ↦ elim (Option-cases (api.sendfile s file total (size - total)).0) [
      | inl failed ↦ rw (send_file_loop_failed f s total more failed) (
          Delivers-failed api s _ (drop total (take size file)) size
            (law.sendfile_none s file total (size - total) failed)
            (inr (s, file, total, size - total, failed, refl)))
      | inr (n, sent) ↦
          let fits = law.sendfile_some s file total (size - total) n sent in
          let some_sent : n ≢ 0 = λ z.
            law.sendfile_progress s file total (size - total) (omega arith) (omega arith)
              (rw (← z) sent) in
          rw (send_file_loop_sent f s total n more sent) (
            Delivers-round api s _ (drop total (take size file)) size n _
              (fits.2
                ∙ ap (λ t. api.wire s ++ t) (sym (take-drop-take n total size file (omega arith))))
              (rw (drop-drop total n (take size file)) (
                send_file_loop-Delivers f (api.sendfile s file total (size - total)).1 (total + n)
                  (omega arith) (omega arith) long)))
    ]
  ]

  -- A file of at least `size` bytes, with fuel for every byte: the sendfile loop returns either
  -- `size`, with exactly the first `size` bytes of the file behind what was on the wire, or -1
  -- after a failed call, with a prefix of these.
  pub send_file-Delivers :
      (fuel : ℕ) (s : api.State)
      → size < fuel
      → size ≤ length file
      → Delivers api s (take size file) size (send_file api fuel s (some file) size)
  unfolding send_file
  send_file-Delivers fuel s h long =
      let whole : size - 0 ≡ size = omega arith in
      rw whole at (send_file_loop-Delivers fuel s 0 (omega arith) (omega arith) long)

  send_file_loop-running :
      (f : ℕ) (s : api.State) (total : ℕ)
      → total ≤ length file
      → length file < size
      → ((t : api.State) (off count : ℕ) → (api.sendfile t file off count).0 ≢ none)
      → send_file_loop api f s file total size total (size - total) ≡ running
  send_file_loop-running zero s total le short never = unfold send_file_loop in refl
  send_file_loop-running (suc f) s total le short never =
      elim (Option-cases (api.sendfile s file total (size - total)).0) [
        | inl failed ↦ absurd (never s total (size - total) failed)
        | inr (n, sent) ↦
            let fits = law.sendfile_some s file total (size - total) n sent in
            send_file_loop_sent f s total n (omega arith) sent
            ∙ send_file_loop-running f (api.sendfile s file total (size - total)).1 (total + n)
                (omega arith) short never
      ]

  -- On a file that is shorter than `size` the sendfile loop never returns while no call fails: it
  -- is still running whatever the fuel.
  pub send_file-running :
      (fuel : ℕ) (s : api.State)
      → length file < size
      → ((t : api.State) (off count : ℕ) → (api.sendfile t file off count).0 ≢ none)
      → send_file api fuel s (some file) size ≡ running
  unfolding send_file
  send_file-running fuel s short never =
      let whole : size - 0 ≡ size = omega arith in
      rw whole at (send_file_loop-running fuel s 0 (omega arith) short never)
