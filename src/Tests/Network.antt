-- ===== src/Tests/Network.antt =====
-- A network on which nobody answers, and a camera over Bluetooth; the outside is the number of
-- descriptors, or of references.
use libfuji.Common.{
  ℕ, ◌≡◌, refl, inl, inr, true, false, some, List, [], ◌∷◌, if◌then◌else◌, Bool-cases, arith,
}
use libfuji.Calls.{done, ask, tell, look, using, failed, is_negative, is_positive}
use libfuji.Calls.Counts.{
  Handle, descriptor, service, characteristic, is_same, is_held, remove, Opens, Returns,
}
use libfuji.Discovery.Sockets.{Network, get_local_ip}
use libfuji.Discovery.Thread.{
  fuji_discover_thread, initial_info, open_dgram_socket, fuji_open_tether_server, open_pcss,
  send_pcss_datagram, close_if_open, close_all_sockets, try_pcss, try_tether, try_connect,
  try_connect_all_sockets, check_cancel, poll_tether, poll_connect, poll_register, select_once,
  state_idle, idle_loop, discover_with,
}
use libfuji.Discovery.Descriptors.{IsCounted}
use libfuji.Discovery.Ends.{discover_thread-closes}
use libfuji.Bluetooth.{
  PakBt, BtPriv, connected, with_characteristic, service_found, characteristic_found, subscribe,
  string_read, get_characteristic_as_string, fuji_bt_handle_command, update_geo_data,
  device_callback, fuji_bluetooth_connect_to_wifi,
}
use libfuji.Bluetooth.Pairing.{
  Paired, client_name_sent, identity_found, send_client_name, password_read, ssid_read, read_ssid,
  firmware_read, read_firmware, name_read, fill_props, finish_pairing, subscribe_some,
  subscribe_more, plain_named, token_written, pair_found, pair, device_connected, started,
  fuji_connect_bluetooth,
}
use libfuji.Bluetooth.References.{IsReferenced, bluetooth_calls-Same}
use libfuji.Bluetooth.Leaks.{Leaked, connect_bluetooth-leaks}

-- A system with four descriptors to give.
none_left : List Handle → List Handle × ℕ
none_left w = (w, failed)

new_fd : ℕ → (List Handle → List Handle × ℕ) → List Handle → List Handle × ℕ
new_fd fd others w = if is_held (descriptor fd) w then others w else (descriptor fd ∷ w, fd)

new_fd-Opens :
    (fd : ℕ) (others : List Handle → List Handle × ℕ)
    → is_positive fd ≡ true
    → Opens (λ w. w) others
    → Opens (λ w. w) (new_fd fd others)
unfolding new_fd
new_fd-Opens fd others p h w = elim (Bool-cases (is_held (descriptor fd) w)) [
  | inl b ↦ rw b (h w)
  | inr b ↦ rw b (inr (p, b, refl))
]

none_left-Opens : Opens (λ w. w) none_left
unfolding none_left
none_left-Opens w = inl (refl, refl)

four-Opens : Opens (λ w. w) (new_fd 5 (new_fd 6 (new_fd 7 (new_fd 8 none_left))))
four-Opens =
    new_fd-Opens 5 _ refl
      (new_fd-Opens 6 _ refl (new_fd-Opens 7 _ refl (new_fd-Opens 8 _ refl none_left-Opens)))

abbrev quiet_net : Network (List Handle)
quiet_net = record {
  dgram_socket = λ w. new_fd 5 (new_fd 6 (new_fd 7 (new_fd 8 none_left))) w;
  stream_socket = λ w. new_fd 5 (new_fd 6 (new_fd 7 (new_fd 8 none_left))) w;
  set_extra_socket_settings = λ fd w. w;
  connect_outside = λ fd w. (w, if is_negative fd then failed else 0);
  getsockname = λ fd w. (w, 0);
  local_name = λ w. [];
  inet_pton = λ s. 1;
  connect = λ fd ip port w. (w, 0);
  is_in_progress = λ w. false;
  select_writable = λ fd w. (w, 1);
  get_error = λ fd w. (w, record { rc = 0; so_error = 0 });
  set_reuse_addr = λ fd w. (w, 0);
  set_broadcast = λ fd w. (w, if is_negative fd then failed else 0);
  bind = λ fd port w. (w, 0);
  bind_local = λ fd ip port w. (w, 0);
  listen = λ fd w. (w, 0);
  select_readable = λ fds w. (w, 0);
  is_readable = λ fd w. false;
  accept = λ fd w. new_fd 5 (new_fd 6 (new_fd 7 (new_fd 8 none_left))) w;
  recv = λ fd n w. (w, record { len = 0; bytes = [] });
  send = λ fd bytes w. (w, 0);
  send_broadcast = λ fd bytes w. (w, 0);
  close = λ fd w. remove (descriptor fd) w;
  check_cancel = λ w. (w, true);
}

quiet_net-IsCounted : IsCounted quiet_net (λ w. w)
quiet_net-IsCounted = record {
  opens_dgram = λ w. four-Opens w;
  opens_stream = λ w. four-Opens w;
  opens_accepted = λ fd w. four-Opens w;
  closes = λ fd w. refl;
  settings = λ fd w. refl;
  outside = λ fd w. refl;
  name = λ fd w. refl;
  connects = λ fd ip port w. refl;
  writable = λ fd w. refl;
  error = λ fd w. refl;
  reuse = λ fd w. refl;
  broadcast = λ fd w. refl;
  binds = λ fd port w. refl;
  binds_local = λ fd ip port w. refl;
  listens = λ fd w. refl;
  readable = λ fds w. refl;
  receives = λ fd n w. refl;
  sends = λ fd bytes w. refl;
  broadcasts = λ fd bytes w. refl;
  cancels = λ w. refl;
  no_outside = λ fd w h. rw h refl;
  no_broadcast = λ fd w h. rw h refl;
}

quiet_discovery :
    fuji_discover_thread quiet_net 1 [] (descriptor 3 ∷ [])
    ≡ some (descriptor 3 ∷ [], record { rc = 3; info = initial_info [] })
unfolding fuji_discover_thread get_local_ip done ask tell look using open_dgram_socket
    fuji_open_tether_server open_pcss send_pcss_datagram close_if_open close_all_sockets try_pcss
    try_tether try_connect try_connect_all_sockets check_cancel poll_tether poll_connect
    poll_register select_once state_idle idle_loop discover_with new_fd none_left remove is_same
    is_held
quiet_discovery = refl

abbrev left_open : List Handle
left_open = descriptor 3 ∷ []

discover_thread-closes_example : left_open ≡ descriptor 3 ∷ []
discover_thread-closes_example =
    discover_thread-closes quiet_net (λ w. w) 1 [] (descriptor 3 ∷ []) (descriptor 3 ∷ [])
      (record { rc = 3; info = initial_info [] }) quiet_net-IsCounted quiet_discovery
      (λ e. omega (arith, e))

abbrev sample_bt : PakBt (List Handle)
sample_bt = record {
  get_service = λ uuid w. (service 1 ∷ w, some 1);
  get_characteristic = λ svc uuid w. (characteristic 2 ∷ w, some 2);
  unref_service = λ svc w. remove (service svc) w;
  unref_characteristic = λ chr w. remove (characteristic chr) w;
  set_watching = λ chr notif w. w;
  set_cccd = λ chr w. w;
  write = λ chr bytes w. (w, 0);
  read = λ chr w. (w, 0);
  cached_value = λ chr n w. [];
  watch = λ chr n w. (w, 0);
  manufacturer_data = λ w. 1 ∷ [];
  set_callback = λ w. w;
  device_connect = λ w. (w, 0);
  create_bond = λ w. (w, 0);
  timestamp = λ w. record { year = 2024; month = 1; day = 2; hour = 3; minute = 4; second = 5 };
  set_progress = λ n w. w;
  add_instruction = λ s w. w;
  add_wifi = λ ssid password hidden w. w;
  set_name = λ s w. w;
  set_firmware = λ s w. w;
  client_name = λ w. [];
  save_signature = λ s t w. w;
  support_intervalometer = λ w. w;
  shutter_down = "a";
  shutter_up = "b";
  focus_down = "c";
  focus_up = "d";
  unsupported = 1;
  unimplemented = 2;
  no_connection = 3;
}

sample_bt-IsReferenced : IsReferenced sample_bt (λ w. w)
sample_bt-IsReferenced = record {
  services = λ uuid w. refl;
  characteristics = λ svc uuid w. refl;
  unrefs_service = λ svc w. refl;
  unrefs_characteristic = λ chr w. refl;
  watches = λ chr notif w. refl;
  sets = λ chr w. refl;
  writes = λ chr bytes w. refl;
  reads = λ chr w. refl;
  waits = λ chr n w. refl;
  callback = λ w. refl;
  connects = λ w. refl;
  bonds = λ w. refl;
  progress = λ n w. refl;
  instructs = λ s w. refl;
  wifi = λ ssid password hidden w. refl;
  names = λ s w. refl;
  firmware = λ s w. refl;
  saves = λ s t w. refl;
  screen = λ w. refl;
}

abbrev no_priv : BtPriv
no_priv = record {
  device_name_buf = [];
  wifi_ssid = [];
  wifi_password = [];
  wifi_ssid_is_hidden = false;
}

abbrev held_before : List Handle
held_before = service 9 ∷ []

bluetooth_calls-Same_example :
    Returns (λ w' rc. w' ≡ held_before) (fuji_bt_handle_command sample_bt "a" held_before)
    × Returns (λ w' rc. w' ≡ held_before) (update_geo_data sample_bt held_before)
    × Returns (λ w' rc. w' ≡ held_before) (device_callback sample_bt connected held_before)
    × Returns
        (λ w' rc. w' ≡ held_before)
        (fuji_bluetooth_connect_to_wifi sample_bt no_priv held_before)
bluetooth_calls-Same_example =
    bluetooth_calls-Same sample_bt (λ w. w) held_before "a" connected no_priv sample_bt-IsReferenced

abbrev sample_paired : Paired
sample_paired = record { rc = 0; priv = record no_priv { wifi_ssid_is_hidden = true } }

sample_pairing :
    fuji_connect_bluetooth sample_bt [] no_priv (some []) held_before
    ≡ some (characteristic 2 ∷ held_before, sample_paired)
unfolding fuji_connect_bluetooth done ask tell look using with_characteristic service_found
    characteristic_found subscribe string_read get_characteristic_as_string client_name_sent
    identity_found send_client_name password_read ssid_read read_ssid firmware_read read_firmware
    name_read fill_props finish_pairing subscribe_some subscribe_more plain_named token_written
    pair_found pair device_connected started remove is_same
sample_pairing = refl

connect_bluetooth-leaks_example : Leaked true held_before (characteristic 2 ∷ held_before)
connect_bluetooth-leaks_example =
    connect_bluetooth-leaks sample_bt (λ w. w) true [] no_priv (some []) held_before
      (characteristic 2 ∷ held_before) sample_paired sample_bt-IsReferenced
      (record { pairs = λ w. refl }) (λ e. omega (arith, e)) (λ e. omega (arith, e)) sample_pairing
      refl
