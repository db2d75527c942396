-- ===== src/Tests/Setup.antt =====
-- A session that is set up, and live view.
use libfuji.Common.{inr, ℕ, ◌^◌, ◌≤◌, ◌<◌, ◌≡◌, refl, true, List, [], ◌∷◌, some, arith}
use libfuji.Fuji.Session.{
  Rc, ok, xapp_wireless_comm, wireless_comm, numbered_card, PtpRuntime, Port,
}
use libfuji.Fuji.Events.{
  fuji_get_events, payload_events, read_events, handle_payload, handle_events, event_round,
  event_at, read_entry, handle_event, set_camera_state,
}
use libfuji.Fuji.Modes.{preferred_mode, fuji_config_init_mode}
use libfuji.Fuji.Handshake.{
  CommandSocket, init_packet, receive, handshake_unlocked, ptpip_fuji_connect_handshake,
}
use libfuji.Fuji.Versions.{
  minus_one, accept_prop, config_version_unlocked, fuji_config_version, fuji_xapp_config_gallery,
}
use libfuji.Fuji.Liveview.{LiveviewSockets, fuji_config_liveview}
use libfuji.Fuji.Liveview.Sockets.{config_liveview-sockets}
use libfuji.Fuji.Setup.{
  is_waiting, pick_transport, tolerated, name_card, forget_camera, retry, after_open, open_session,
  wait_for_access, get_version, read_versions, name_storage, set_features_up, set_mode_up,
  set_session_up, fuji_setup,
}
use libfuji.Fuji.Setup.Access.{granted, polled, polls, wait_for_access-granted}
use libfuji.Fuji.Setup.Locks.{setup-locks}
use libfuji.Fuji.Setup.Transport.{setup-xapp_version}
use libfuji.Fuji.Steps.{
  ◌and_then◌, finished, run, assign, reading, when, on_result, locked, calling, examining, affect,
  assign_fuji,
}
use libfuji.Tests.Fuji.{World, sample_port, sample_runtime}
use libfuji.Common.{read_u16, read_u32}

-- A camera of version 0x20008 that the handshake reaches.
abbrev new_port : Port World
new_port = record sample_port { parse_prop_value = λ w. 0x20008 }

abbrev pub sample_socket : CommandSocket World
sample_socket = record {
  buffer = λ w. 8 ∷ 0 ∷ 0 ∷ 0 ∷ 2 ∷ 0 ∷ 0 ∷ 0 ∷ [];
  set_buffer = λ bytes w. w;
  write = λ bytes w. (w, 0x52);
  read = λ of n w. (w, n);
  unicode = λ name. name;
  send_cam_name = λ w. w;
  io_err = Rc.other 1;
}

abbrev pub sample_sockets : LiveviewSockets World
sample_sockets = record { connect_events = λ w. (w, ok); connect_video = λ w. (w, ok) }

abbrev broken_sockets : LiveviewSockets World
broken_sockets = record {
  connect_events = λ w. (w, Rc.other 1);
  connect_video = λ w. (w, Rc.other 1);
}

abbrev events : List ℕ
events = 2 ∷ 0 ∷ 0x22 ∷ 0xd2 ∷ 5 ∷ 0 ∷ 0 ∷ 0 ∷ 0x00 ∷ 0xdf ∷ 2 ∷ 0 ∷ 0 ∷ 0 ∷ []

abbrev set_up : PtpRuntime World
set_up = record (sample_runtime xapp_wireless_comm) {
  world = record { received = []; payload = events };
  wait_for_response = 255;
  session = 1;
  fuji = record (sample_runtime xapp_wireless_comm).fuji {
    camera_state = 2;
    selected_imgs_mode = minus_one;
    num_objects = 5;
    get_object_version = 0x20008;
    remote_image_view_version = 0x20008;
    remote_image_view_ex_version = 0x20008;
    image_get_version = 0x20008;
    remote_version = 0x20008;
    storage_device_name = numbered_card 0x20008;
    sort_by_oldest_first = true;
  };
}

is_set_up :
    fuji_setup new_port sample_socket sample_sockets 3
      (0x41 ∷ [])
      (sample_runtime xapp_wireless_comm)
    ≡ some (set_up, ok)
unfolding fuji_setup set_session_up set_mode_up set_features_up forget_camera fuji_get_events
    payload_events read_events handle_payload handle_events event_round event_at read_entry
    handle_event set_camera_state wait_for_access is_waiting read_versions get_version
    pick_transport fuji_config_init_mode preferred_mode fuji_xapp_config_gallery tolerated
    fuji_config_version config_version_unlocked accept_prop name_storage name_card retry after_open
    open_session init_packet receive handshake_unlocked ptpip_fuji_connect_handshake ◌and_then◌
    finished run assign reading when on_result locked calling examining affect assign_fuji read_u16
    read_u32
is_set_up = refl

setup-locks_example : set_up.locks ≡ 0
setup-locks_example =
    setup-locks new_port (sample_runtime xapp_wireless_comm) set_up ok sample_socket sample_sockets
      3 (0x41 ∷ []) is_set_up

setup-xapp_version_example : (0x20007 ≤ 0x20008) × (0x20008 < 2 ^ 31)
setup-xapp_version_example =
    setup-xapp_version new_port sample_sockets sample_socket 3 (0x41 ∷ [])
      (sample_runtime xapp_wireless_comm) set_up is_set_up refl

-- A session that has not been told a state, before and after the events.
abbrev waiting : PtpRuntime World
waiting = record (sample_runtime wireless_comm) {
  fuji = record (sample_runtime wireless_comm).fuji { camera_state = minus_one };
}

abbrev told : PtpRuntime World
told = record (sample_runtime wireless_comm) {
  world = record { received = []; payload = events };
  fuji = record (sample_runtime wireless_comm).fuji { camera_state = 2 };
}

is_told : fuji_get_events sample_port waiting ≡ some (told, ok)
unfolding fuji_get_events payload_events read_events handle_payload handle_events event_round
    event_at read_entry handle_event set_camera_state read_u16 read_u32
is_told = refl

wait_for_access-granted_example :
    (wait_for_access sample_port 1 waiting ≡ some (told, ok))
    × (polls sample_port 1 waiting ≡ some (told, ok))
wait_for_access-granted_example =
    wait_for_access-granted sample_port 1 1 waiting told
      (polled (inr refl) is_told (granted (λ e. ground (arith, e)) (λ e. ground (arith, e))))
      (omega arith)

waited : wait_for_access sample_port 1 waiting ≡ some (told, ok)
unfolding wait_for_access is_waiting reading finished ◌and_then◌ fuji_get_events payload_events
    read_events handle_payload handle_events event_round event_at read_entry handle_event
    set_camera_state read_u16 read_u32
waited = refl

abbrev in_liveview : PtpRuntime World
in_liveview = record (sample_runtime wireless_comm) {
  fuji = record (sample_runtime wireless_comm).fuji { opened_liveview_sockets = true };
}

config_liveview-sockets_example :
    fuji_config_liveview sample_port sample_sockets in_liveview
    ≡ fuji_config_liveview sample_port broken_sockets in_liveview
config_liveview-sockets_example =
    config_liveview-sockets sample_port sample_sockets broken_sockets in_liveview refl
