-- ===== src/Discovery/Thread.antt =====
-- The discovery of a camera (lib/discovery.c: `fuji_discover_thread`), with the sockets that it
-- keeps open.
use libfuji.Common.{ℕ, zero, suc, ◌-◌, ◌^◌, ◌++◌, List, [], ◌∷◌, ◌==◌, ◌&&◌, if◌then◌else◌, take}
use libfuji.Calls.{Io, done, undefined, ask, tell, look, using, failed, is_negative, is_positive}
use libfuji.Fuji.Session.{autosave, wireless_tether}
use libfuji.Discovery.{DiscoverInfo}
use libfuji.Discovery.Sockets.{Network, Outcome, text, get_local_ip}
use libfuji.Discovery.Exchange.{accept_register, accept_connect, fuji_tether_accept}

-- `struct DiscoveryState`.
pub record DiscoveryState : Type 0 where
  pub reg_fd : ℕ
  pub con_fd : ℕ
  pub tether_fd : ℕ
  pub pcss_fd : ℕ

-- The result of opening the sockets, and the state that it leaves.
pub record Opened : Type 0 where
  pub rc : ℕ
  pub state : DiscoveryState

unfoldable pub watched : DiscoveryState → List ℕ
watched s =
    let tether = if is_positive s.tether_fd then s.tether_fd ∷ [] else [] in
    let con = if is_positive s.con_fd then s.con_fd ∷ tether else tether in
    if is_positive s.reg_fd then s.reg_fd ∷ con else con

unfoldable pub discovery_message : List ℕ → List ℕ
discovery_message local_ip =
    text "DISCOVERY * HTTP/1.1\r\nHOST: " ++ (local_ip ++ text "\r\nMX: 5\r\nSERVICE: PCSS/1.0\r\n")

-- What `memset` and `strlcpy` leave.
abbrev pub initial_info : List ℕ → DiscoverInfo
initial_info client_name = record {
  transport = autosave;
  camera_ip = [];
  camera_name = [];
  camera_model = [];
  client_name = take 63 client_name;
  camera_port = 0;
}

module _ {W : Type 0} (net : Network W) where
  -- `-FUJI_D_OPEN_DENIED` is -5.
  unfoldable pub open_dgram_socket : ℕ → Io W ℕ
  open_dgram_socket port = ask net.dgram_socket (λ fd.
      if is_negative fd
      then done failed
      else tell (net.set_extra_socket_settings fd) (
          ask (net.bind fd port)
            (λ rc. if is_negative rc then tell (net.close fd) (done (2 ^ 32 - 5)) else done fd)))

  -- `FUJI_TETHER` is 51560.
  unfoldable pub fuji_open_tether_server : List ℕ → Io W ℕ
  fuji_open_tether_server local_ip = ask net.stream_socket (λ server_fd.
      if is_negative server_fd
      then done failed
      else tell (net.set_extra_socket_settings server_fd) (
          ask (net.set_reuse_addr server_fd) (λ rc.
            if is_negative rc
            then done failed
            else ask (net.bind_local server_fd local_ip 51560) (λ rc1.
              if is_negative rc1
              then done failed
              else ask (net.listen server_fd)
                  (λ rc2. if is_negative rc2 then done failed else done server_fd)))))

  unfoldable pub open_pcss : Io W ℕ
  open_pcss = ask net.dgram_socket (λ sock.
      tell (net.set_extra_socket_settings sock)
        (ask (net.set_broadcast sock) (λ rc. if is_negative rc then done failed else done sock)))

  unfoldable pub send_pcss_datagram : ℕ → List ℕ → Io W ℕ
  send_pcss_datagram sock local_ip =
      ask (net.send_broadcast sock (discovery_message local_ip))
        (λ rc. if rc == failed then done failed else done 0)

  unfoldable pub close_if_open : {A : Type 0} → ℕ → Io W A → Io W A
  close_if_open fd f = if is_positive fd then tell (net.close fd) f else f

  unfoldable pub close_all_sockets : {A : Type 0} → DiscoveryState → Io W A → Io W A
  close_all_sockets s f =
      close_if_open s.con_fd
        (close_if_open s.reg_fd (close_if_open s.tether_fd (close_if_open s.pcss_fd f)))

  unfoldable pub try_pcss : DiscoveryState → Io W Opened
  try_pcss s =
      if s.pcss_fd == 0
      then using open_pcss (λ fd.
        let s' : DiscoveryState = record s { pcss_fd = fd } in
        if is_negative fd
        then done (record { rc = failed; state = s' })
        else done (record { rc = 0; state = s' }))
      else done (record { rc = 0; state = s })

  unfoldable pub try_tether : List ℕ → DiscoveryState → Io W Opened
  try_tether local_ip s =
      if s.tether_fd == 0
      then using (fuji_open_tether_server local_ip) (λ fd.
        let s' : DiscoveryState = record s { tether_fd = fd } in
        if is_negative fd then done (record { rc = failed; state = s' }) else try_pcss s')
      else try_pcss s

  unfoldable pub try_connect : List ℕ → DiscoveryState → Io W Opened
  try_connect local_ip s =
      if s.con_fd == 0
      then using (open_dgram_socket 51541) (λ fd.
        let s' : DiscoveryState = record s { con_fd = fd } in
        if is_positive fd
        then try_tether local_ip s'
        else done (record { rc = failed; state = s' }))
      else try_tether local_ip s

  unfoldable pub try_connect_all_sockets : List ℕ → DiscoveryState → Io W Opened
  try_connect_all_sockets local_ip s =
      if s.reg_fd == 0
      then using (open_dgram_socket 51542) (λ fd.
        let s' : DiscoveryState = record s { reg_fd = fd } in
        if is_positive fd
        then try_connect local_ip s'
        else done (record { rc = failed; state = s' }))
      else try_connect local_ip s

  -- `FUJI_D_CANCELED` is 3.
  unfoldable pub check_cancel : DiscoverInfo → Io W Outcome
  check_cancel info =
      ask net.check_cancel
        (λ canceled. done (record { rc = if canceled then 3 else 0; info = info }))

  -- `FUJI_D_GO_PTP` is 2.
  unfoldable pub ended_with : ℕ → Io W Outcome → Io W Outcome
  ended_with code f = using f (λ o.
      if o.rc == 0
      then done (record { rc = code; info = o.info })
      else done (record { rc = failed; info = o.info }))

  unfoldable pub poll_tether : DiscoveryState → DiscoverInfo → Io W Outcome
  poll_tether s info = look (net.is_readable s.tether_fd) (λ b.
      if is_positive s.tether_fd && b
      then ended_with 2
          (fuji_tether_accept net (record info { transport = wireless_tether }) s.tether_fd)
      else check_cancel info)

  -- A datagram on one of the two AutoSave ports. `len` is unsigned, so that the error -1 of
  -- `recvfrom` puts the terminator outside the buffer.
  unfoldable pub take_greeting :
      ℕ → ℕ → (List ℕ → DiscoverInfo → Io W Outcome) → DiscoverInfo → Io W Outcome
  take_greeting fd code accept info = ask (net.recv fd 1023) (λ got.
      if got.len == 0
      then done (record { rc = failed; info = record info { transport = autosave } })
      else if is_negative got.len
      then undefined
      else ended_with code (accept got.bytes (record info { transport = autosave })))

  unfoldable pub poll_connect : DiscoveryState → DiscoverInfo → Io W Outcome
  poll_connect s info = look (net.is_readable s.con_fd) (λ b.
      if is_positive s.con_fd && b
      then take_greeting s.con_fd 2 (accept_connect net) info
      else poll_tether s info)

  -- `FUJI_D_REGISTERED` is 1.
  unfoldable pub poll_register : DiscoveryState → DiscoverInfo → Io W Outcome
  poll_register s info = look (net.is_readable s.reg_fd) (λ b.
      if is_positive s.reg_fd && b
      then take_greeting s.reg_fd 1 (accept_register net) info
      else poll_connect s info)

  unfoldable pub select_once : DiscoveryState → DiscoverInfo → Io W Outcome
  select_once s info = ask (net.select_readable (watched s)) (λ n.
      if is_negative n then done (record { rc = failed; info = info }) else poll_register s info)

  unfoldable pub state_idle : DiscoveryState → List ℕ → DiscoverInfo → Io W Outcome
  state_idle s local_ip info =
      if s.pcss_fd == 0
      then select_once s info
      else using (send_pcss_datagram s.pcss_fd local_ip)
          (λ rc. if rc == 0 then select_once s info else done (record { rc = failed; info = info }))

  -- `while (rc == 0)`, with fuel.
  unfoldable pub idle_loop : ℕ → DiscoveryState → List ℕ → DiscoverInfo → Io W Outcome
  idle_loop zero s local_ip info = undefined
  idle_loop (suc fuel) s local_ip info =
      let rest : DiscoverInfo → Io W Outcome = idle_loop fuel s local_ip in
      using (state_idle s local_ip info) (λ o. if o.rc == 0 then rest o.info else done o)

  abbrev pub no_sockets : DiscoveryState
  no_sockets = record { reg_fd = 0; con_fd = 0; tether_fd = 0; pcss_fd = 0 }

  unfoldable pub discover_with : ℕ → List ℕ → DiscoverInfo → Opened → Io W Outcome
  discover_with fuel local_ip info o =
      using
        (if o.rc == 0
          then idle_loop fuel o.state local_ip info
          else done (record { rc = o.rc; info = info }))
        (λ found. close_all_sockets o.state (done found))

  unfoldable pub fuji_discover_thread : ℕ → List ℕ → Io W Outcome
  fuji_discover_thread fuel client_name = using (get_local_ip net) (λ p.
      if p.0 == 0
      then using (try_connect_all_sockets p.1 no_sockets)
          (discover_with fuel p.1 (initial_info client_name))
      else done (record { rc = failed; info = initial_info client_name }))
