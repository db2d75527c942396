-- ===== src/Discovery/Sockets.antt =====
-- The sockets of discovery (lib/discovery.c): the servers and the exchange with a camera. Messages
-- to the user are left out.
use Prim.Native.Char.{code}
use libfuji.Common.{
  ℕ, suc, String, List, [], ◌∷◌, Option, none, some, Bool, true, false, ◌==◌, ◌||◌, not,
  if◌then◌else◌, length,
}
use libfuji.Calls.{Io, done, undefined, ask, tell, look, failed, is_negative, is_positive}
use libfuji.Discovery.{DiscoverInfo, Header, read_headers, invite_header}

-- What `recv` and `recvfrom` return, and the bytes that they have stored.
pub record Received : Type 0 where
  pub len : ℕ
  pub bytes : List ℕ

-- `getsockopt` of `SO_ERROR`: its result, and the error.
pub record SocketError : Type 0 where
  pub rc : ℕ
  pub so_error : ℕ

-- The system's calls. A port is given with `bind` and `connect`; an address is a string.
pub record Network (W : Type 0) : Type 0 where
  pub dgram_socket : W → W × ℕ
  pub stream_socket : W → W × ℕ
  pub set_extra_socket_settings : ℕ → W → W
  pub connect_outside : ℕ → W → W × ℕ
  pub getsockname : ℕ → W → W × ℕ
  pub local_name : W → List ℕ
  pub inet_pton : List ℕ → ℕ
  pub connect : ℕ → List ℕ → ℕ → W → W × ℕ
  pub is_in_progress : W → Bool
  pub select_writable : ℕ → W → W × ℕ
  pub get_error : ℕ → W → W × SocketError
  pub set_reuse_addr : ℕ → W → W × ℕ
  pub set_broadcast : ℕ → W → W × ℕ
  pub bind : ℕ → ℕ → W → W × ℕ
  pub bind_local : ℕ → List ℕ → ℕ → W → W × ℕ
  pub listen : ℕ → W → W × ℕ
  pub select_readable : List ℕ → W → W × ℕ
  pub is_readable : ℕ → W → Bool
  pub accept : ℕ → W → W × ℕ
  pub recv : ℕ → ℕ → W → W × Received
  pub send : ℕ → List ℕ → W → W × ℕ
  pub send_broadcast : ℕ → List ℕ → W → W × ℕ
  pub close : ℕ → W → W
  pub check_cancel : W → W × Bool

-- What a function returns, and the record of the camera as it leaves it.
pub record Outcome : Type 0 where
  pub rc : ℕ
  pub info : DiscoverInfo

abbrev pub text : String → List ℕ
text String.[] = []
text (String.◌∷◌ c s) = code c ∷ text s

-- The string that starts a buffer.
unfoldable pub c_string : List ℕ → List ℕ
c_string [] = []
c_string (c ∷ cs) = if c == 0 then [] else c ∷ c_string cs

-- `strstr(s, t) != NULL`.
unfoldable pub starts_with : List ℕ → List ℕ → Bool
starts_with [] s = true
starts_with (x ∷ t) [] = false
starts_with (x ∷ t) (y ∷ s) = if x == y then starts_with t s else false

unfoldable pub contains : List ℕ → List ℕ → Bool
contains t [] = starts_with t []
contains t (c ∷ s) = starts_with t (c ∷ s) || contains t s

-- A message that is a string in the buffer, read word by word; a round for each byte and one more.
unfoldable pub read_message : Header → List ℕ → DiscoverInfo → Option (DiscoverInfo × Bool)
read_message header buffer info =
    read_headers (suc (length (c_string buffer))) header (c_string buffer) info

module _ {W : Type 0} (net : Network W) where
  -- What follows on the loop over a message, which may return -1.
  unfoldable pub message_read :
      (DiscoverInfo → Io W Outcome) → Option (DiscoverInfo × Bool) → Io W Outcome
  message_read k none = undefined
  message_read k (some (info, true)) = k info
  message_read k (some (info, false)) = done (record { rc = failed; info = info })

  unfoldable pub reading_message :
      Header → List ℕ → DiscoverInfo → (DiscoverInfo → Io W Outcome) → Io W Outcome
  reading_message header buffer info k = message_read k (read_message header buffer info)

  -- The result, and the address if it is 0.
  unfoldable pub get_local_ip : Io W (ℕ × List ℕ)
  get_local_ip = ask net.dgram_socket (λ sock. tell (net.set_extra_socket_settings sock) (
      ask (net.connect_outside sock) (λ rc.
        if is_negative rc
        then done (rc, [])
        else ask (net.getsockname sock) (λ rc1.
          if is_negative rc1
          then done (rc1, [])
          else look net.local_name (λ name. tell (net.close sock) (done (0, name)))))))

  unfoldable pub wait_for_connect : ℕ → Io W ℕ
  wait_for_connect server_fd = ask (net.select_writable server_fd) (λ n.
      if n == 1
      then ask (net.get_error server_fd) (λ e.
        if is_negative e.rc
        then done failed
        else if e.so_error == 0
        then done server_fd
        else tell (net.close server_fd) (done 0))
      else tell (net.close server_fd) (done 0))

  unfoldable pub connect_to_notify_server : List ℕ → ℕ → Io W ℕ
  connect_to_notify_server ip port = ask net.stream_socket (λ server_fd.
      if is_negative server_fd
      then done failed
      else tell (net.set_extra_socket_settings server_fd) (
          if not (is_positive (net.inet_pton ip))
          then done failed
          else ask (net.connect server_fd ip port) (λ rc.
            if is_negative rc
            then look net.is_in_progress
                (λ in_progress. if in_progress then wait_for_connect server_fd else done failed)
            else wait_for_connect server_fd)))

  -- `FUJI_AUTOSAVE_REGISTER` is 51542, and `FUJI_AUTOSAVE_CONNECT` 51541.
  unfoldable pub invite_response : ℕ → Option (List ℕ)
  invite_response port =
      if port == 51542
      then some (text "HTTP/1.1 200 OK\r\nFOLDER: guest\r\nServiceName: PCAUTOSAVE/1.0\r\n")
      else if port == 51541
      then some (text "HTTP/1.1 200 OK\r\n")
      else none

  unfoldable pub send_response : ℕ → ℕ → Option (List ℕ) → DiscoverInfo → Io W Outcome
  send_response server_fd client_fd none info = done (record { rc = failed; info = info })
  send_response server_fd client_fd (some resp) info = ask (net.send client_fd resp) (λ rc.
      if is_negative rc
      then done (record { rc = failed; info = info })
      else tell (net.close client_fd)
          (tell (net.close server_fd) (done (record { rc = 0; info = info }))))

  unfoldable pub serve_invite : ℕ → ℕ → DiscoverInfo → Io W Outcome
  serve_invite server_fd port info = ask (net.accept server_fd) (λ client_fd.
      if is_negative client_fd
      then done (record { rc = failed; info = info })
      else ask (net.recv client_fd 1023) (λ got.
        if is_negative got.len
        then done (record { rc = failed; info = info })
        else reading_message invite_header got.bytes info
            (send_response server_fd client_fd (invite_response port))))

  unfoldable pub start_invite_server : ℕ → DiscoverInfo → Io W Outcome
  start_invite_server port info =
      let give_up : Io W Outcome = done (record { rc = failed; info = info }) in
      ask net.stream_socket (λ server_fd.
        if is_negative server_fd
        then give_up
        else tell (net.set_extra_socket_settings server_fd) (
            ask (net.set_reuse_addr server_fd) (λ rc.
              if is_negative rc
              then give_up
              else ask (net.bind server_fd port) (λ rc1.
                if is_negative rc1
                then give_up
                else ask (net.listen server_fd) (λ rc2.
                  if is_negative rc2
                  then give_up
                  else ask (net.select_readable (server_fd ∷ [])) (λ n.
                    if is_negative n || n == 0
                    then tell (net.close server_fd) give_up
                    else serve_invite server_fd port info))))))
