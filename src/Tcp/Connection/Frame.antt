-- ===== src/Tcp/Connection/Frame.antt =====
-- What the calls on a socket keep, the send loops keep.
use http_file_sharing.Prelude.{
  ℕ, zero, suc, ◌+◌, ◌-◌, ◌≡◌, refl, ◌⊎◌, inl, inr, Option, none, some, ltb, Bool-cases,
  Option-cases, length, take, drop, Bytes,
}
use http_file_sharing.Prelude.Int.{ℤ}
use http_file_sharing.Tcp.Api.{SocketApi}
use http_file_sharing.Tcp.Connection.{
  Io, ret, running, undefined, send_loop, send_buffer, send_file_loop, send_file,
}

-- The state that a call leaves, if it returns, is of that kind.
abbrev pub IoAll : {S : Type 0} → (S → Type 0) → Io S → Type 0
IoAll P (ret n s) = P s
IoAll P running = Unit
IoAll P undefined = Unit

pub Io-cases :
    {S : Type 0} (io : Io S)
    → ((n : ℤ) × (s : S) × (io ≡ ret n s)) ⊎ ((io ≡ running) ⊎ (io ≡ undefined))
Io-cases (ret n s) = inl (n, s, refl)
Io-cases running = inr (inl refl)
Io-cases undefined = inr (inr refl)

-- No call on the socket leaves the kind.
pub record Keeps (api : SocketApi) (P : api.State → Type 0) : Type 0 where
  pub keeps_send : (s : api.State) (buf : Bytes) → P s → P (api.send s buf).1
  pub keeps_sendfile :
      (s : api.State) (file : Bytes) (off count : ℕ) → P s → P (api.sendfile s file off count).1

module _ (api : SocketApi) (P : api.State → Type 0) (keeps : Keeps api P) where
  open keeps use {keeps_send, keeps_sendfile}

  send_loop-keeps :
      (fuel : ℕ) (s : api.State) (buffer : Bytes) (total remaining : ℕ)
      → P s
      → IoAll P (send_loop api fuel s buffer total remaining)
  unfolding send_loop
  send_loop-keeps zero s buffer total remaining h = tt
  send_loop-keeps (suc f) s buffer total remaining h =
      let h' = keeps_send s (take remaining (drop total buffer)) h in
      elim (Bool-cases (ltb total (length buffer))) [
        | inl more ↦ elim (Option-cases (api.send s (take remaining (drop total buffer))).0) [
          | inl e ↦ rw (more, e) h'
          | inr (n, e) ↦ rw (more, e) (send_loop-keeps f _ buffer (total + n) (remaining - n) h')
        ]
        | inr over ↦ rw over h
      ]

  pub send_buffer-keeps :
      (fuel : ℕ) (s : api.State) (buffer : Bytes) → P s → IoAll P (send_buffer api fuel s buffer)
  unfolding send_buffer
  send_buffer-keeps fuel s buffer h = send_loop-keeps fuel s buffer 0 (length buffer) h

  send_file_loop-keeps :
      (fuel : ℕ) (s : api.State) (file : Bytes) (off size total remaining : ℕ)
      → P s
      → IoAll P (send_file_loop api fuel s file off size total remaining)
  unfolding send_file_loop
  send_file_loop-keeps zero s file off size total remaining h = tt
  send_file_loop-keeps (suc f) s file off size total remaining h =
      let h' = keeps_sendfile s file off remaining h in
      elim (Bool-cases (ltb total size)) [
        | inl more ↦ elim (Option-cases (api.sendfile s file off remaining).0) [
          | inl e ↦ rw (more, e) h'
          | inr (n, e) ↦
              rw (more, e)
                (send_file_loop-keeps f _ file (total + n) size (total + n) (remaining - n) h')
        ]
        | inr over ↦ rw over h
      ]

  pub send_file-keeps :
      (fuel : ℕ) (s : api.State) (file : Option Bytes) (size : ℕ)
      → P s
      → IoAll P (send_file api fuel s file size)
  unfolding send_file
  send_file-keeps fuel s none size h = tt
  send_file-keeps fuel s (some file) size h = send_file_loop-keeps fuel s file 0 size 0 size h
