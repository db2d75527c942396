-- ===== src/Fuji/Setup.antt =====
-- Setting a session up over a network (lib/fuji.c: `fuji_setup`). Pauses are
-- left out.
pub mod Keeps
pub mod Access
pub mod Locks
pub mod Transport
use libfuji.Common.{
  ℕ, zero, suc, ◌+◌, ◌-◌, ◌^◌, ◌≡◌, Bool, true, false, ◌&&◌, ◌||◌, not, List, [], ◌∷◌, ◌++◌, Option,
  ◌==◌, ltb, leb, if◌then◌else◌, take, replicate, u32, le32, read_u32,
}
use libfuji.Fuji.Session.{
  Rc, ok, check_code, runtime_err, canceled, FujiTransport, autosave, wireless_comm, StorageName,
  card, numbered_card, PtpRuntime, PtpUserPriv, Port,
}
use libfuji.Fuji.Events.{fuji_get_events, is_wireless_tether}
use libfuji.Fuji.Modes.{is_xapp, fuji_config_init_mode}
use libfuji.Fuji.Versions.{minus_one, fuji_config_version, fuji_xapp_config_gallery}
use libfuji.Fuji.Handshake.{CommandSocket, is_negative, ptpip_fuji_connect_handshake}
use libfuji.Fuji.Liveview.{
  LiveviewSockets, fuji_config_liveview, fuji_end_liveview, fuji_config_image_gallery,
}
use libfuji.Fuji.Steps.{
  out_of_fuel, Step, ◌and_then◌, finished, run, assign, reading, when, on_result, locked, calling,
  examining, affect, assign_fuji, read_prop, set_prop16, with_value,
}

abbrev pub is_autosave : FujiTransport → Bool
is_autosave autosave = true
is_autosave t = false

module _ {W : Type 0} where
  -- `FUJI_WAIT_FOR_ACCESS` is 0.
  unfoldable pub is_waiting : PtpRuntime W → Bool
  is_waiting r = r.fuji.camera_state == 0 || r.fuji.camera_state == minus_one

  -- A version below 0x20007 has not the app's transport; the comparison is signed.
  unfoldable pub pick_transport : Step W
  pick_transport = reading (λ r.
      when
        ((ltb r.fuji.remote_version 0x20007 || is_negative r.fuji.remote_version)
          && is_xapp r.fuji.transport)
        (assign_fuji (λ f. record f { transport = wireless_comm })))

  -- `PTP_CHECK_CODE` is no error here.
  unfoldable pub tolerated : Rc → Step W
  tolerated check_code = finished ok
  tolerated rc = finished rc

  unfoldable pub name_card : StorageName → Step W
  name_card name = assign_fuji (λ f. record f { storage_device_name = name })

  unfoldable pub forget_camera : Step W
  forget_camera = assign_fuji (λ f. record f {
    camera_state = minus_one;
    num_objects = minus_one;
    selected_imgs_mode = minus_one;
  })

module _ {W : Type 0} (port : Port W) where
  unfoldable pub unless_canceled : Step W → Step W
  unless_canceled f =
      calling port.check_thread_cancel (λ cancel. if cancel then finished canceled else f)

  -- After the first handshake: none, or a second one.
  unfoldable pub retry : CommandSocket W → List ℕ → Rc → Step W
  retry socket device_name ok = finished ok
  retry socket device_name runtime_err =
      unless_canceled (ptpip_fuji_connect_handshake socket device_name)
  retry socket device_name rc =
      unless_canceled (unless_canceled (ptpip_fuji_connect_handshake socket device_name))

  -- `PTP_RC_SessionAlreadyOpened` is 0x201e.
  unfoldable pub after_open : Rc → Step W
  after_open check_code =
      reading
        (λ r. if port.get_return_code r.world == 0x201e then finished ok else finished check_code)
  after_open rc = finished rc

  -- `PTP_OC_OpenSession` is 0x1002.
  unfoldable pub open_session : Step W
  open_session =
      assign (λ r. record r { session = u32 (r.session + 1) })
      and_then affect (port.set_transaction 1)
      and_then on_result (reading (λ r. run (port.send 0x1002 (r.session ∷ [])))) after_open

  -- `while (…) fuji_get_events(r)`, with fuel.
  unfoldable pub wait_for_access : ℕ → Step W
  wait_for_access zero = reading (λ r. if is_waiting r then out_of_fuel else finished ok)
  wait_for_access (suc fuel) =
      let rest : Step W = wait_for_access fuel in
      reading (λ r. if is_waiting r then fuji_get_events port and_then rest else finished ok)

  unfoldable pub get_version : ℕ → (ℕ → PtpUserPriv → PtpUserPriv) → Step W
  get_version code store = read_prop port code and_then with_value port (λ v. assign_fuji (store v))

  unfoldable pub read_versions : Step W
  read_versions =
      get_version 0xdf22 (λ v f. record f { get_object_version = v })
      and_then get_version 0xdf25 (λ v f. record f { remote_image_view_version = v })
      and_then reading (λ r.
        when
          (leb 5 r.fuji.remote_image_view_version
            && not (is_negative r.fuji.remote_image_view_version))
          (assign_fuji (λ f. record f { sort_by_oldest_first = true })))
      and_then get_version 0xdf21 (λ v f. record f { image_get_version = v })
      and_then get_version 0xdf24 (λ v f. record f { remote_version = v })

  unfoldable pub name_storage : Rc → Step W
  name_storage ok =
      with_value port
        (λ v. if v == 0 || is_negative v then name_card card else name_card (numbered_card v))
  name_storage check_code = name_card card
  name_storage rc = finished rc

  -- From the versions on, for the transports with a mode; `FUJI_REMOTE_ACCESS` is 6.
  unfoldable pub set_features_up : LiveviewSockets W → Step W
  set_features_up sockets =
      fuji_config_version port
      and_then reading (λ r. when (is_autosave r.fuji.transport) (set_prop16 port 0xd227 1))
      and_then on_result (read_prop port 0xd244) name_storage
      and_then affect port.update_storage_info
      and_then reading (λ r.
        when
          (not (r.fuji.remote_version == minus_one)
            && r.fuji.camera_state == 6
            && not (is_xapp r.fuji.transport))
          (fuji_config_liveview port sockets
            and_then fuji_end_liveview port
            and_then fuji_config_image_gallery port))

  -- From the choice of the transport on; `FUJI_MULTIPLE_TRANSFER` is 1.
  unfoldable pub set_mode_up : LiveviewSockets W → Step W
  set_mode_up sockets =
      fuji_config_init_mode port
      and_then reading (λ r.
        when (is_xapp r.fuji.transport) (on_result (fuji_xapp_config_gallery port) tolerated))
      and_then reading
          (λ r. if r.fuji.camera_state == 1 then finished ok else set_features_up sockets)

  unfoldable pub set_session_up : LiveviewSockets W → ℕ → Step W
  set_session_up sockets fuel =
      forget_camera
      and_then fuji_get_events port
      and_then wait_for_access fuel
      and_then read_versions
      and_then pick_transport
      and_then set_mode_up sockets

  unfoldable pub fuji_setup : CommandSocket W → LiveviewSockets W → ℕ → List ℕ → Step W
  fuji_setup socket sockets fuel client_name =
      on_result (ptpip_fuji_connect_handshake socket client_name) (retry socket client_name)
      and_then affect socket.send_cam_name
      and_then open_session
      and_then reading (λ r.
        if is_wireless_tether r.fuji.transport then finished ok else set_session_up sockets fuel)
