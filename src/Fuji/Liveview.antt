-- ===== src/Fuji/Liveview.antt =====
-- Entering and leaving live view, and the gallery between (lib/fuji.c: `fuji_config_liveview`,
-- `fuji_end_liveview`, `fuji_config_image_gallery`). Pauses are left out.
pub mod Keeps
pub mod Sockets
use libfuji.Common.{◌||◌, not, ◌==◌, true, if◌then◌else◌}
use libfuji.Fuji.Session.{ok, Rc, Port}
use libfuji.Fuji.Events.{fuji_get_events, is_wireless_tether}
use libfuji.Fuji.Download.{is_usb}
use libfuji.Fuji.Modes.{is_xapp}
use libfuji.Fuji.Versions.{minus_one, fuji_xapp_config_gallery, accept_prop}
use libfuji.Fuji.Steps.{
  Step, ◌and_then◌, finished, run, reading, when, on_result, assign_fuji, read_prop, set_prop,
  set_prop16, with_value,
}

-- The sockets for events and for video, which libpict and the platform connect.
pub record LiveviewSockets (W : Type 0) : Type 0 where
  pub connect_events : W → W × Rc
  pub connect_video : W → W × Rc

module _ {W : Type 0} (port : Port W) where
  unfoldable pub fuji_end_liveview : Step W
  fuji_end_liveview = reading (λ r.
      if r.fuji.remote_version == minus_one
      then finished ok
      else fuji_get_events port
        and_then reading (λ s. run (port.terminate_open_capture s.fuji.open_capture_trans_id)))

  -- Of the camera's states `FUJI_REMOTE_ACCESS` is 6; `FUJI_MODE_REMOTE_LIVE_VIEW_XAPP` is 22.
  unfoldable pub prepare_xapp : Step W
  prepare_xapp =
      set_prop16 port 0xdf00 6 and_then set_prop16 port 0xdf01 22 and_then accept_prop port 0xdf2a

  -- Only with the sockets open already; `FUJI_REMOTE_MODE` is 5.
  unfoldable pub return_to_remote : Step W
  return_to_remote =
      set_prop16 port 0xdf00 6
      and_then fuji_get_events port
      and_then set_prop16 port 0xdf01 5
      and_then read_prop port 0xdf24
      and_then set_prop port 0xdf24 0x2000c
      and_then fuji_get_events port

  unfoldable pub begin_remote : Step W
  begin_remote =
      reading (λ r. when r.fuji.opened_liveview_sockets return_to_remote)
      and_then reading
          (λ r. assign_fuji (λ f. record f { open_capture_trans_id = port.transaction r.world }))
      and_then run port.init_open_capture
      and_then fuji_get_events port

  unfoldable pub open_sockets : LiveviewSockets W → Step W
  open_sockets sockets =
      run sockets.connect_events
      and_then run sockets.connect_video
      and_then assign_fuji (λ f. record f { opened_liveview_sockets = true })

  -- Unless they are open already.
  unfoldable pub open_once : LiveviewSockets W → Step W
  open_once sockets =
      reading (λ r. when (not r.fuji.opened_liveview_sockets) (open_sockets sockets))

  unfoldable pub enter_remote : LiveviewSockets W → Step W
  enter_remote sockets = reading (λ r.
      when (not (r.fuji.remote_version == minus_one)) (begin_remote and_then open_once sockets))

  unfoldable pub fuji_config_liveview : LiveviewSockets W → Step W
  fuji_config_liveview sockets =
      reading (λ r. when (is_xapp r.fuji.transport) prepare_xapp) and_then enter_remote sockets

  -- The version is kept before the result of asking for it is looked at.
  unfoldable pub update_image_view_version : Step W
  update_image_view_version =
      fuji_get_events port
      and_then on_result (read_prop port 0xdf25) (λ rc.
        with_value port (λ v. assign_fuji (λ f. record f { remote_image_view_version = v }))
        and_then finished rc)
      and_then set_prop port 0xdf25 5

  -- `FUJI_MODE_REMOTE_IMG_VIEW_XAPP` is 20, and `FUJI_MODE_REMOTE_IMG_VIEW` 11.
  unfoldable pub enter_gallery : Step W
  enter_gallery =
      fuji_get_events port
      and_then set_prop16 port 0xdf00 6
      and_then fuji_get_events port
      and_then fuji_get_events port
      and_then reading (λ r. set_prop16 port 0xdf01 (if is_xapp r.fuji.transport then 20 else 11))
      and_then reading (λ r.
        if is_xapp r.fuji.transport
        then fuji_xapp_config_gallery port
        else update_image_view_version)
      and_then fuji_get_events port

  unfoldable pub fuji_config_image_gallery : Step W
  fuji_config_image_gallery = reading (λ r.
      if is_usb r.connection_type || is_wireless_tether r.fuji.transport
      then finished ok
      else when (not (r.fuji.remote_image_view_version == minus_one)) enter_gallery)
