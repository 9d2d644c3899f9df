-- ===== src/Http/Send/Frame.antt =====
-- What the calls on a socket keep, the sending of a response keeps.
use http_file_sharing.Prelude.{ℕ, inl, inr, [], if◌then◌else◌, Bool-cases, is_empty}
use http_file_sharing.Prelude.Int.{ℤ}
use http_file_sharing.Tcp.Api.{SocketApi}
use http_file_sharing.Tcp.Connection.{ret, send_file, send_buffer}
use http_file_sharing.Tcp.Connection.Frame.{
  IoAll, Io-cases, Keeps, send_buffer-keeps, send_file-keeps,
}
use http_file_sharing.Http.Response.{HttpResponse, build_rsp}
use http_file_sharing.Http.Send.{Fopen, is_minus_one, then_file, send_http_rsp}

module _ (api : SocketApi) (P : api.State → Type 0) (keeps : Keeps api P) where
  then_file-keeps :
      (fopen : Fopen) (fuel : ℕ) (rsp : HttpResponse) (r : ℤ) (s : api.State)
      → P s
      → IoAll P (then_file api fopen fuel rsp r s)
  unfolding then_file
  then_file-keeps fopen fuel rsp r s h =
      let sent = send_file-keeps api P keeps fuel s (fopen rsp.m_rsp_filename) rsp.m_len h in
      elim (Io-cases (send_file api fuel s (fopen rsp.m_rsp_filename) rsp.m_len)) [
        | inl (n, s', e) ↦ rw (e, then_file) (rw (e, then_file) at sent)
        | inr (inl e) ↦ rw (e, then_file) tt
        | inr (inr e) ↦ rw (e, then_file) tt
      ]

  pub send_http_rsp-keeps :
      (fopen : Fopen) (fuel : ℕ) (rsp : HttpResponse) (s : api.State)
      → P s
      → IoAll P (send_http_rsp api fopen fuel s rsp)
  unfolding send_http_rsp
  send_http_rsp-keeps fopen fuel rsp s h =
      let sent = send_buffer-keeps api P keeps fuel s (build_rsp rsp []).0 h in
      elim (Io-cases (send_buffer api fuel s (build_rsp rsp []).0)) [
        | inl (n, s', e) ↦ rw (e, send_http_rsp) (head_sent n s' (rw e at sent))
        | inr (inl e) ↦ rw (e, send_http_rsp) tt
        | inr (inr e) ↦ rw (e, send_http_rsp) tt
      ]
    where
      head_sent :
          (n : ℤ) (s' : api.State)
          → P s'
          → IoAll P (
              if is_minus_one n
              then ret n s'
              else if is_empty rsp.m_rsp_filename
              then ret n s'
              else then_file api fopen fuel rsp n s')
      head_sent n s' h' = elim (Bool-cases (is_minus_one n)) [
        | inl e ↦ rw e h'
        | inr e ↦ elim (Bool-cases (is_empty rsp.m_rsp_filename)) [
          | inl e' ↦ rw (e, e') h'
          | inr e' ↦ rw (e, e') (then_file-keeps fopen fuel rsp n s' h')
        ]
      ]
