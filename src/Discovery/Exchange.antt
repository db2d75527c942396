-- ===== src/Discovery/Exchange.antt =====
-- The exchange with a camera that has sent a datagram (lib/discovery.c: `respond_to_datagram`,
-- `accept_register`, `accept_connect`), and the tether server's.
use libfuji.Common.{
  ℕ, ◌++◌, List, [], ◌∷◌, Option, none, some, ◌==◌, not, ltb, if◌then◌else◌, length, take,
}
use libfuji.Calls.{Io, done, undefined, ask, tell, using, failed, is_negative, is_positive}
use libfuji.Discovery.{DiscoverInfo, greeting_header, tether_header}
use libfuji.Discovery.Sockets.{
  Network, Outcome, text, c_string, contains, reading_message, connect_to_notify_server,
  start_invite_server,
}

-- The string in an array of 64 bytes: without a terminator its end is not defined.
unfoldable pub string_64 : List ℕ → Option (List ℕ)
string_64 s = if ltb (length s) 64 then some s else none

-- What `snprintf` leaves of the message in 512 bytes.
unfoldable pub notify_message : List ℕ → List ℕ → List ℕ
notify_message camera_ip client_name = take 511 (
    text "NOTIFY * HTTP/1.1\r\nHOST: "
    ++ (camera_ip ++ (text ":51540\r\nIMPORTER: " ++ (client_name ++ text "\r\n"))))

module _ {W : Type 0} (net : Network W) where
  -- `ack[len] = '\0'` leaves the buffer for 512 bytes, and for the error -1 of `recv`, which `len
  -- <= 0` lets through.
  unfoldable pub receive_ack : ℕ → DiscoverInfo → Io W Outcome
  receive_ack fd info = ask (net.recv fd 512) (λ got.
      if got.len == 0
      then tell (net.close fd) (done (record { rc = failed; info = info }))
      else if ltb got.len 512
      then tell (net.close fd) (
          done (record {
            rc = if contains (text "HTTP/1.1 200 OK") (c_string got.bytes) then 0 else failed;
            info = info;
          }))
      else undefined)

  unfoldable pub notify_camera : ℕ → DiscoverInfo → Option (List ℕ) → List ℕ → Io W Outcome
  notify_camera fd info none camera_ip = undefined
  notify_camera fd info (some client_name) camera_ip =
      ask (net.send fd (notify_message camera_ip client_name)) (λ len.
        if len == length (notify_message camera_ip client_name)
        then receive_ack fd info
        else tell (net.close fd) (done (record { rc = failed; info = info })))

  -- `FUJI_AUTOSAVE_NOTIFY` is 51540.
  unfoldable pub answer_greeting : DiscoverInfo → Option (List ℕ) → Io W Outcome
  answer_greeting info none = undefined
  answer_greeting info (some camera_ip) =
      using (connect_to_notify_server net camera_ip 51540) (λ fd.
        if not (is_positive fd)
        then done (record { rc = failed; info = info })
        else notify_camera fd info (string_64 info.client_name) camera_ip)

  unfoldable pub respond_to_datagram : List ℕ → DiscoverInfo → Io W Outcome
  respond_to_datagram greeting info =
      reading_message net greeting_header greeting info
        (λ told. answer_greeting told (string_64 told.camera_ip))

  unfoldable pub accept_register : List ℕ → DiscoverInfo → Io W Outcome
  accept_register greeting info =
      using (respond_to_datagram greeting info)
        (λ o. if o.rc == 0 then start_invite_server net 51542 o.info else done o)

  -- `FUJI_CMD_IP_PORT` is 55740.
  unfoldable pub accept_connect : List ℕ → DiscoverInfo → Io W Outcome
  accept_connect greeting info = using (respond_to_datagram greeting info) (λ o.
      if o.rc == 0
      then using (start_invite_server net 51541 o.info) (λ o1.
        if o1.rc == 0
        then done (record { rc = 0; info = record o1.info { camera_port = 55740 } })
        else done o1)
      else done o)

  -- The response is sent with its terminator.
  unfoldable pub respond_to_tether : ℕ → DiscoverInfo → Io W Outcome
  respond_to_tether client_fd info =
      ask (net.send client_fd (text "HTTP/1.1 200 OK\r\n" ++ 0 ∷ [])) (λ rc.
        if is_negative rc
        then done (record { rc = failed; info = info })
        else tell (net.close client_fd) (done (record { rc = 0; info = info })))

  unfoldable pub fuji_tether_accept : DiscoverInfo → ℕ → Io W Outcome
  fuji_tether_accept info server_fd = ask (net.accept server_fd) (λ client_fd.
      if is_negative client_fd
      then done (record { rc = failed; info = info })
      else ask (net.recv client_fd 1023) (λ got.
        if is_negative got.len
        then done (record { rc = failed; info = info })
        else reading_message net tether_header got.bytes info (respond_to_tether client_fd)))
