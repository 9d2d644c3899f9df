-- ===== src/Http/Send/Tests.antt =====
-- Responses over a socket that takes a few bytes at a time.
use http_file_sharing.Prelude.{
  ℕ, ◌<◌, ◌≡◌, refl, ◌⊎◌, false, none, some, [], arith, if◌then◌else◌, length, take, Bytes, codes,
  lit, bytes_eq, decimal,
}
use http_file_sharing.Prelude.Int.{pos}
use http_file_sharing.Http
use http_file_sharing.Tcp
use http_file_sharing.Tcp.Connection.{Io, ret, undefined, minus_one, send_buffer}
use http_file_sharing.Tcp.Connection.Buffer.{HasFailed}
use http_file_sharing.Tcp.Connection.Tests.{slow_socket, slow_socket-IsSocket}
use http_file_sharing.Http.Status.{http_ok}
use http_file_sharing.Http.Response.{
  HttpResponse, new_response, is_unusable, response_text, build_rsp,
}
use http_file_sharing.Http.Send.{Fopen, send_http_rsp}
use http_file_sharing.Http.Send.Outcome.{FileOutcome, send_http_rsp_file, send_http_rsp_unopened}

abbrev disk : Fopen
disk name = if bytes_eq name (codes "a.txt") then some (codes "hello") else none

abbrev file_response : HttpResponse
file_response = record new_response {
  m_status = http_ok;
  m_len = 5;
  m_content_type = codes "text/plain";
  m_rsp_filename = codes "a.txt";
}

file_response_usable : is_unusable file_response ≡ false
unfolding is_unusable
file_response_usable = refl

-- A response without a status is not framed, so nothing is sent, and the result is 0.
send_nothing : send_http_rsp slow_socket disk 1 [] new_response ≡ ret (pos 0) []
unfolding send_http_rsp build_rsp Tcp.Connection.send_buffer
send_nothing = refl

response_length : length (response_text file_response) < 200
unfolding response_text lit decimal Http.Status.to_string
response_length = omega arith

send_http_rsp_file_example :
    FileOutcome slow_socket []
      (response_text file_response)
      (codes "hello")
      (send_http_rsp slow_socket disk 200 [] file_response)
send_http_rsp_file_example =
    send_http_rsp_file slow_socket slow_socket-IsSocket disk 200 [] file_response (codes "hello")
      (λ e. cc) file_response_usable refl (omega arith) response_length (omega arith)

abbrev lost_response : HttpResponse
lost_response = record file_response { m_rsp_filename = codes "secret" }

lost_usable : is_unusable lost_response ≡ false
unfolding is_unusable
lost_usable = refl

lost_length : length (response_text lost_response) < 200
unfolding response_text lit decimal Http.Status.to_string
lost_length = omega arith

send_http_rsp_unopened_example :
    ((t : Bytes) × (send_buffer slow_socket 200 [] (response_text lost_response)
        ≡ ret (pos (length (response_text lost_response))) t)
      × (t ≡ response_text lost_response)
      × (send_http_rsp slow_socket disk 200 [] lost_response ≡ undefined))
    ⊎ ((t : Bytes) × (k : ℕ) × (send_buffer slow_socket 200 [] (response_text lost_response)
          ≡ ret minus_one t)
        × (t ≡ take k (response_text lost_response))
        × HasFailed slow_socket t
        × (send_http_rsp slow_socket disk 200 [] lost_response ≡ ret minus_one t))
send_http_rsp_unopened_example =
    send_http_rsp_unopened slow_socket slow_socket-IsSocket disk 200 [] lost_response (λ e. cc)
      lost_usable refl lost_length
