-- ===== src/Discovery/Descriptors.antt =====
-- The file descriptors of discovery (lib/discovery.c).
use libfuji.Common.{ℕ, ◌≡◌, refl, Bool, true, false, Option, none, some, List, ◌∷◌, arith}
use libfuji.Calls.{Io, done, failed, is_negative, is_positive}
use libfuji.Calls.Counts.{
  Handle, descriptor, Counts, Ignores, Leaves, Releases, Opens, Counts-done, Counts-undefined,
  Counts-open, positive-not_negative, counts_rules,
}
use libfuji.Discovery.{DiscoverInfo, Header}
use libfuji.Discovery.Sockets.{
  Network, Outcome, wait_for_connect, connect_to_notify_server, message_read, reading_message,
  send_response, serve_invite, start_invite_server,
}

-- What the system promises of the open descriptors, the latest first: a new one is positive, since 0
-- is taken, and was not open; `close` closes its own descriptor, and where that is not open, none;
-- without a socket, connecting and setting an option fail.
pub record IsCounted {W : Type 0} (net : Network W) (count : W → List Handle) : Type 0 where
  pub opens_dgram : Opens count net.dgram_socket
  pub opens_stream : Opens count net.stream_socket
  pub opens_accepted : (fd : ℕ) → Opens count (net.accept fd)
  pub closes : (fd : ℕ) → Releases count (descriptor fd) (net.close fd)
  pub settings : (fd : ℕ) → Leaves count (net.set_extra_socket_settings fd)
  pub outside : (fd : ℕ) → Ignores count (net.connect_outside fd)
  pub name : (fd : ℕ) → Ignores count (net.getsockname fd)
  pub connects : (fd : ℕ) (ip : List ℕ) (port : ℕ) → Ignores count (net.connect fd ip port)
  pub writable : (fd : ℕ) → Ignores count (net.select_writable fd)
  pub error : (fd : ℕ) → Ignores count (net.get_error fd)
  pub reuse : (fd : ℕ) → Ignores count (net.set_reuse_addr fd)
  pub broadcast : (fd : ℕ) → Ignores count (net.set_broadcast fd)
  pub binds : (fd port : ℕ) → Ignores count (net.bind fd port)
  pub binds_local : (fd : ℕ) (ip : List ℕ) (port : ℕ) → Ignores count (net.bind_local fd ip port)
  pub listens : (fd : ℕ) → Ignores count (net.listen fd)
  pub readable : (fds : List ℕ) → Ignores count (net.select_readable fds)
  pub receives : (fd n : ℕ) → Ignores count (net.recv fd n)
  pub sends : (fd : ℕ) (bytes : List ℕ) → Ignores count (net.send fd bytes)
  pub broadcasts : (fd : ℕ) (bytes : List ℕ) → Ignores count (net.send_broadcast fd bytes)
  pub cancels : Ignores count net.check_cancel
  pub no_outside :
      (fd : ℕ) (w : W) → is_negative fd ≡ true → is_negative (net.connect_outside fd w).1 ≡ true
  pub no_broadcast :
      (fd : ℕ) (w : W) → is_negative fd ≡ true → is_negative (net.set_broadcast fd w).1 ≡ true

-- Where the result is 0, the same descriptors are open.
abbrev pub Balanced : List Handle → List Handle → Outcome → Type 0
Balanced n m o = o.rc ≡ 0 → m ≡ n

-- Where the result is a descriptor, it is the one more that is open.
abbrev pub OneMore : List Handle → List Handle → ℕ → Type 0
OneMore n m fd = is_positive fd ≡ true → m ≡ descriptor fd ∷ n

module _ {W : Type 0} (net : Network W) (count : W → List Handle) (c : IsCounted net count)
    (n : List Handle) where
  pub failed-Counts :
      (m : List Handle) (info : DiscoverInfo)
      → Counts {W = W} count m (done (record { rc = failed; info = info })) (Balanced n)
  failed-Counts m info = Counts-done _ (λ e. absurd (omega (arith, e)))

  not_open : (m : List Handle) → Counts {W = W} count m (done 0) (OneMore n)
  not_open m = Counts-done 0 (λ e. absurd cc)

  is_open : (fd : ℕ) → Counts {W = W} count (descriptor fd ∷ n) (done fd) (OneMore n)
  is_open fd = Counts-done fd (λ h. refl)

  pub ended : (o : Outcome) → Counts {W = W} count n (done o) (Balanced n)
  ended o = Counts-done o (λ e. refl)

  no_socket : (m : List Handle) → Counts {W = W} count m (done failed) (OneMore n)
  no_socket m = Counts-done _ (λ e. absurd cc)

  pub wait_for_connect-Counts :
      (fd : ℕ) → Counts count (descriptor fd ∷ n) (wait_for_connect net fd) (OneMore n)
  unfolding wait_for_connect
  wait_for_connect-Counts fd =
      search (counts_rules, not_open, no_socket, is_open, c.writable, c.error, c.closes) depth 12

  pub notify_server-Counts :
      (ip : List ℕ) (port : ℕ) → Counts count n (connect_to_notify_server net ip port) (OneMore n)
  unfolding connect_to_notify_server
  notify_server-Counts ip port =
      search
        (
          counts_rules, Counts-open, c.opens_stream, positive-not_negative, no_socket, c.settings,
          c.connects, wait_for_connect-Counts,
        )
        depth 14

  message_read-Counts :
      (k : DiscoverInfo → Io W Outcome) (o : Option (DiscoverInfo × Bool)) (m : List Handle)
      → ((told : DiscoverInfo) → Counts count m (k told) (Balanced n))
      → Counts count m (message_read net k o) (Balanced n)
  unfolding message_read
  message_read-Counts k none m h = Counts-undefined
  message_read-Counts k (some (told, true)) m h = h told
  message_read-Counts k (some (told, false)) m h = failed-Counts m told

  pub reading_message-Counts :
      (header : Header) (buffer : List ℕ) (info : DiscoverInfo) (k : DiscoverInfo → Io W Outcome)
      (m : List Handle)
      → ((told : DiscoverInfo) → Counts count m (k told) (Balanced n))
      → Counts count m (reading_message net header buffer info k) (Balanced n)
  unfolding reading_message
  reading_message-Counts header buffer info k m h = message_read-Counts k _ m h

  send_response-Counts :
      (server client : ℕ) (o : Option (List ℕ)) (info : DiscoverInfo)
      → Counts count
          (descriptor client ∷ descriptor server ∷ n)
          (send_response net server client o info)
          (Balanced n)
  unfolding send_response
  send_response-Counts server client none info = failed-Counts _ info
  send_response-Counts server client (some resp) info =
      search (counts_rules, ended, failed-Counts, c.sends, c.closes) depth 10

  serve_invite-Counts :
      (server port : ℕ) (info : DiscoverInfo)
      → Counts count (descriptor server ∷ n) (serve_invite net server port info) (Balanced n)
  unfolding serve_invite
  serve_invite-Counts server port info =
      search
        (
          counts_rules, Counts-open, c.opens_accepted, positive-not_negative, failed-Counts,
          c.receives, reading_message-Counts, send_response-Counts,
        )
        depth 12

  pub invite_server-Counts :
      (port : ℕ) (info : DiscoverInfo)
      → Counts count n (start_invite_server net port info) (Balanced n)
  unfolding start_invite_server
  invite_server-Counts port info =
      search
        (
          counts_rules, Counts-open, c.opens_stream, positive-not_negative, failed-Counts,
          c.settings, c.reuse, c.binds, c.listens, c.readable, c.closes, serve_invite-Counts,
        )
        depth 20
