-- ===== src/Http/Send/Outcome.antt =====
-- What is on the wire behind send_http_rsp, and what it returns.
use http_file_sharing.Prelude.{
  ℕ, ◌+◌, ◌-◌, ◌≤◌, ◌<◌, ◌≡◌, refl, ap, ◌∙◌, ◌≢◌, ◌⊎◌, inl, inr, false, none, some, [], ◌∷◌, ◌++◌,
  append_assoc, arith, if◌then◌else◌, length, take, length-take, take-first, append-take, Bytes,
  is_empty,
}
use http_file_sharing.Prelude.Int.{ℤ, pos, ◌+ℤ◌}
use http_file_sharing.Tcp.Api.{SocketApi, IsSocket}
use http_file_sharing.Tcp.Connection.{Io, ret, undefined, minus_one, send_buffer, send_file}
use http_file_sharing.Tcp.Connection.Buffer.{HasFailed, HasSent, Delivers, send_buffer-Delivers}
use http_file_sharing.Tcp.Connection.File.{send_file-Delivers}
use http_file_sharing.Http.Response.{HttpResponse, is_unusable, response_text, build_rsp}
use http_file_sharing.Http.Response.Framing.{response_text-pos, build_rsp_text}
use http_file_sharing.Http.Send.{Fopen, then_file, send_http_rsp}

-- What send_http_rsp does with a file response whose head is `text` and whose file begins with
-- `content`: all of it is sent and the result is the number of bytes; or the head fails, and the
-- result is -1; or the file fails, and the result is one less than the length of the head.
abbrev pub FileOutcome : (api : SocketApi) → api.State → Bytes → Bytes → Io api.State → Type 0
FileOutcome api s text content r =
    ((s' : api.State) × (r ≡ ret (pos (length text + length content)) s')
      × (api.wire s' ≡ api.wire s ++ (text ++ content)))
    ⊎ ((s' : api.State) × (k : ℕ) × (r ≡ ret minus_one s')
        × (api.wire s' ≡ api.wire s ++ take k text)
        × HasFailed api s')
    ⊎ ((s' : api.State) × (k : ℕ) × (r ≡ ret (pos (length text - 1)) s')
        × (api.wire s' ≡ api.wire s ++ (text ++ take k content))
        × HasFailed api s')

-- A call that returns, and what the wire has gained then.
abbrev pub Returns : (api : SocketApi) → api.State → Bytes → Io api.State → Type 0
Returns api s sent r = (n : ℤ) × ((s' : api.State) × ((r ≡ ret n s') × HasSent api s sent s'))

pub Delivers-Returns :
    (api : SocketApi) (s : api.State) (sent : Bytes) (size : ℕ) (r : Io api.State)
    → Delivers api s sent size r
    → Returns api s sent r
Delivers-Returns api s sent size r (inl (s', e, w)) = (pos size, (s', (e, inl w)))
Delivers-Returns api s sent size r (inr (s', k, e, w, cause)) =
    (minus_one, (s', (e, inr (k, (w, cause)))))

pub FileOutcome-Returns :
    (api : SocketApi) (s : api.State) (text content : Bytes) (r : Io api.State)
    → FileOutcome api s text content r
    → Returns api s (text ++ content) r
FileOutcome-Returns api s text content r (inl (s', e, w)) = (_, (s', (e, inl w)))
FileOutcome-Returns api s text content r (inr (inl (s', k, e, w, cause))) =
    let (j, part) = take-first k text content in
    (_, (s', (e, inr (j, (w ∙ ap (λ t. api.wire s ++ t) part, cause)))))
FileOutcome-Returns api s text content r (inr (inr (s', k, e, w, cause))) = (
  _,
  (
    s',
    (e, inr (length text + k, (w ∙ ap (λ t. api.wire s ++ t) (append-take text content k), cause))),
  ),
)

pub is_empty-ne : (s : Bytes) → s ≢ [] → is_empty s ≡ false
is_empty-ne [] h = absurd (h refl)
is_empty-ne (c ∷ s) h = refl

add_pos : (m n k : ℕ) → n ≡ k → pos m +ℤ pos k ≡ pos (m + n)
unfolding ◌+ℤ◌
add_pos m n k e = ground arith

-- The sum that hides the failure.
add_minus_one : (m : ℕ) → 0 < m → pos m +ℤ minus_one ≡ pos (m - 1)
unfolding ◌+ℤ◌
add_minus_one m h = ground arith

module _ (api : SocketApi) (law : IsSocket api) (fopen : Fopen) where
  head_failed :
      (fuel : ℕ) (s s' : api.State) (rsp : HttpResponse)
      → send_buffer api fuel s (build_rsp rsp []).0 ≡ ret minus_one s'
      → send_http_rsp api fopen fuel s rsp ≡ ret minus_one s'
  unfolding send_http_rsp
  head_failed fuel s s' rsp e = rw (e, send_http_rsp)

  head_sent :
      (fuel n : ℕ) (s s' : api.State) (rsp : HttpResponse)
      → send_buffer api fuel s (build_rsp rsp []).0 ≡ ret (pos n) s'
      → send_http_rsp api fopen fuel s rsp ≡ (
          if is_empty rsp.m_rsp_filename
          then ret (pos n) s'
          else then_file api fopen fuel rsp (pos n) s')
  unfolding send_http_rsp
  head_sent fuel n s s' rsp e = rw (e, send_http_rsp)

  file_ret :
      (fuel : ℕ) (s t : api.State) (rsp : HttpResponse) (file : Bytes) (r r' : ℤ)
      → fopen rsp.m_rsp_filename ≡ some file
      → send_file api fuel s (some file) rsp.m_len ≡ ret r' t
      → then_file api fopen fuel rsp r s ≡ ret (r +ℤ r') t
  unfolding then_file
  file_ret fuel s t rsp file r r' o e = rw (o, e, then_file)

  -- Without a file the text that build_rsp made is delivered, and nothing else: all of it, with its
  -- length for the result, or -1 and a prefix. A response that build_rsp refuses sends nothing.
  pub send_http_rsp_body :
      (fuel : ℕ) (s : api.State) (rsp : HttpResponse)
      → rsp.m_rsp_filename ≡ []
      → length (build_rsp rsp []).0 < fuel
      → Delivers api s
          (build_rsp rsp []).0
          (length (build_rsp rsp []).0)
          (send_http_rsp api fopen fuel s rsp)
  send_http_rsp_body fuel s rsp e h =
      elim (send_buffer-Delivers api law (build_rsp rsp []).0 fuel s h) [
        | inl (t, done, w) ↦
            inl (t, head_sent fuel (length (build_rsp rsp []).0) s t rsp done ∙ rw e, w)
        | inr (t, k, failed, w, cause) ↦ inr (t, k, head_failed fuel s t rsp failed, w, cause)
      ]

  -- With a file that can be opened and is at least as long as the head announces, and fuel for both:
  -- either the head and that much of the file are sent and the result is the number of these bytes;
  -- or a call fails in the head, of which a prefix is sent, and the result is -1; or a call fails in
  -- the file, of which a prefix is sent behind the head, and the result is not -1 but one less than
  -- the length of the head.
  pub send_http_rsp_file :
      (fuel : ℕ) (s : api.State) (rsp : HttpResponse) (file : Bytes)
      → rsp.m_rsp_filename ≢ []
      → is_unusable rsp ≡ false
      → fopen rsp.m_rsp_filename ≡ some file
      → rsp.m_len ≤ length file
      → length (response_text rsp) < fuel
      → rsp.m_len < fuel
      → FileOutcome api s
          (response_text rsp)
          (take rsp.m_len file)
          (send_http_rsp api fopen fuel s rsp)
  send_http_rsp_file fuel s rsp file name u open_ok fits enough enough' =
      let text = response_text rsp in
      let content = take rsp.m_len file in
      let size : length content ≡ rsp.m_len = length-take rsp.m_len file fits in
      let head : Delivers api s text (length text) (send_buffer api fuel s (build_rsp rsp []).0) =
        rw (build_rsp_text rsp u) (send_buffer-Delivers api law text fuel s enough) in
      elim head [
        | inr (t, k, failed, w, cause) ↦ inr (inl (t, k, head_failed fuel s t rsp failed, w, cause))
        | inl (t, done, w) ↦
            let begun : send_http_rsp api fopen fuel s rsp
                ≡ then_file api fopen fuel rsp (pos (length text)) t =
              head_sent fuel (length text) s t rsp done
              ∙ rw (is_empty-ne rsp.m_rsp_filename name) in
            elim (send_file-Delivers api law file rsp.m_len fuel t enough' fits) [
              | inl (t', done', w') ↦ inl (
                t',
                begun
                    ∙ file_ret fuel t t' rsp file (pos (length text)) (pos rsp.m_len) open_ok done'
                    ∙ ap (λ z. ret z t') (add_pos (length text) (length content) rsp.m_len size),
                cc (w, w', append_assoc (api.wire s) text content),
              )
              | inr (t', k, failed', w', cause) ↦ inr (
                  inr (
                    t',
                    k,
                    begun
                        ∙ file_ret fuel t t' rsp file (pos (length text)) minus_one open_ok failed'
                        ∙ ap (λ z. ret z t') (add_minus_one (length text) (response_text-pos rsp)),
                    cc (w, w', append_assoc (api.wire s) text (take k content)),
                    cause,
                  ))
            ]
      ]

  file_unopened :
      (fuel : ℕ) (s : api.State) (rsp : HttpResponse) (r : ℤ)
      → fopen rsp.m_rsp_filename ≡ none
      → then_file api fopen fuel rsp r s ≡ undefined
  unfolding then_file send_file
  file_unopened fuel s rsp r o = rw (o, then_file)

  -- A file response that build_rsp accepts, whose file cannot be opened, with fuel for the head:
  -- either the whole head is sent, and then the behaviour is undefined, since fclose is called on a null pointer; or a call
  -- fails in the head, of which a prefix is sent, and the result is -1.
  pub send_http_rsp_unopened :
      (fuel : ℕ) (s : api.State) (rsp : HttpResponse)
      → rsp.m_rsp_filename ≢ []
      → is_unusable rsp ≡ false
      → fopen rsp.m_rsp_filename ≡ none
      → length (response_text rsp) < fuel
      → let text = response_text rsp in
        ((t : api.State) × (send_buffer api fuel s text ≡ ret (pos (length text)) t)
          × (api.wire t ≡ api.wire s ++ text)
          × (send_http_rsp api fopen fuel s rsp ≡ undefined))
        ⊎ ((t : api.State) × (k : ℕ) × (send_buffer api fuel s text ≡ ret minus_one t)
            × (api.wire t ≡ api.wire s ++ take k text)
            × HasFailed api t
            × (send_http_rsp api fopen fuel s rsp ≡ ret minus_one t))
  send_http_rsp_unopened fuel s rsp name u o h =
      let text = response_text rsp in
      let same = build_rsp_text rsp u in
      elim (send_buffer-Delivers api law text fuel s h) [
        | inr (t, k, failed, w, cause) ↦
            inr (t, k, failed, w, cause, head_failed fuel s t rsp (rw same failed))
        | inl (t, done, w) ↦ inl (
          t,
          done,
          w,
          head_sent fuel (length text) s t rsp (rw same done)
              ∙ (rw (is_empty-ne rsp.m_rsp_filename name)
                  (file_unopened fuel t rsp (pos (length text)) o)),
        )
      ]
