-- ===== src/Fuji/Usb.antt =====
-- Sessions over USB (lib/fuji_usb.c): connecting and backups; with them `fuji_reset_ptp` of
-- lib/fuji.c. A file is read whole.
pub mod Devices
pub mod Locks
pub mod Mode
pub mod Images
pub mod Raf
pub mod Sent
use libfuji.Common.{
  ℕ, suc, ◌-◌, ◌^◌, String, Bool, true, false, Option, none, some, List, [], ◌∷◌, ◌++◌, ◌==◌, ltb,
  if◌then◌else◌, length, replicate, u32, le16, le32,
}
use libfuji.Fuji.Session.{
  Rc, ok, check_code, runtime_err, other, FujiTransport, autosave, usb_card_reader,
  usb_tether_shoot, raw_conv, usb, webcam, unnamed, ConnectionType, ptp_ip_usb, ptp_usb,
  PtpUserPriv, PtpRuntime, Port,
}
use libfuji.Fuji.Steps.{
  Step, ◌and_then◌, finished, run, assign, reading, on_result, locked, calling, affect, assign_fuji,
  read_prop, with_value,
}
use libfuji.Fuji.Handshake.{CommandSocket, ptpip_fuji_connect_handshake}

-- An entry of libpict's device list; `address` stands for the rest of it.
pub record PtpDeviceEntry : Type 0 where
  pub vendor_id : ℕ
  pub address : ℕ

-- libpict's object info. A string is the list of its bytes.
pub record PtpObjectInfo : Type 0 where
  pub storage_id : ℕ
  pub obj_format : ℕ
  pub protection : ℕ
  pub compressed_size : ℕ
  pub thumb_format : ℕ
  pub thumb_compressed_size : ℕ
  pub thumb_width : ℕ
  pub thumb_height : ℕ
  pub img_width : ℕ
  pub img_height : ℕ
  pub img_bit_depth : ℕ
  pub parent_obj : ℕ
  pub assoc_type : ℕ
  pub assoc_desc : ℕ
  pub sequence_num : ℕ
  pub filename : List ℕ
  pub date_created : List ℕ
  pub date_modified : List ℕ
  pub keywords : List ℕ

-- The result and the list of `ptp_get_object_handles`.
pub record Handles : Type 0 where
  pub rc : Rc
  pub list : List ℕ

-- More of libpict, the frontend and stdio. `write_string` is what `ptp_write_string` writes;
-- `send_data` takes a command's code, its parameters and the data; `write_file` tells whether the
-- file could be opened. `reset` is `ptp_reset`, which may change all of the runtime;
-- `r->max_packet_size` and `r->response_wait_default` are part of the outside.
pub record UsbPort (W : Type 0) : Type 0 where
  pub reset : PtpRuntime W → PtpRuntime W
  pub set_response_wait : ℕ → W → W
  pub device_list : W → W × List PtpDeviceEntry
  pub free_device_list : W → W
  pub device_open : PtpDeviceEntry → W → W × Rc
  pub open_session : W → W × Rc
  pub get_device_info : W → W × Rc
  pub send_cam_name : W → W
  pub get_info : ℕ → W → W × Rc
  pub get_object : ℕ → W → W × Rc
  pub remove_object : ℕ → W → W × Rc
  pub list_objects : W → W × Handles
  pub send_data : ℕ → List ℕ → List ℕ → W → W × Rc
  pub send_object : List ℕ → W → W × Rc
  pub set_prop_value_data : ℕ → List ℕ → W → W × Rc
  pub set_max_packet_size : ℕ → W → W
  pub read_file : String → W → W × Option (List ℕ)
  pub write_file : String → List ℕ → W → W × Bool
  pub save_backup : List ℕ → W → W
  pub write_string : List ℕ → List ℕ
  pub no_device : Rc
  pub unsupported : Rc

-- What `calloc` leaves.
abbrev pub zeroed_priv : PtpUserPriv
zeroed_priv = record {
  transport = autosave;
  camera_state = 0;
  selected_imgs_mode = 0;
  num_objects = 0;
  get_object_version = 0;
  remote_image_view_version = 0;
  remote_image_view_ex_version = 0;
  image_get_version = 0;
  remote_version = 0;
  opened_liveview_sockets = false;
  storage_device_name = unnamed;
  open_capture_trans_id = 0;
  prop_desc_list = [];
  allow_autosave_thumbnails = false;
  sort_by_oldest_first = false;
  compress_images_for_smartphone = false;
}

-- The entry that the loop stops at, with `i` Fujifilm devices behind it. `-1` is `2 ^ 32 - 1`.
unfoldable pub find_device : ℕ → ℕ → List PtpDeviceEntry → Option PtpDeviceEntry
find_device num i [] = none
find_device num i (curr ∷ rest) =
    if curr.vendor_id == 0x4cb
    then if num == 2 ^ 32 - 1
      then some curr
      else if i == num
      then some curr
      else find_device num (suc i) rest
    else find_device num i rest

-- `FUJI_USB_MODE_TETHER` is 5, `FUJI_USB_MODE_RAWCONV` 6, and `FUJI_USB_MODE_WEBCAM` 8.
unfoldable pub mode_transport : ℕ → FujiTransport
mode_transport mode =
    if mode == 5
    then usb_tether_shoot
    else if mode == 6
    then raw_conv
    else if mode == 8
    then webcam
    else usb

unfoldable pub is_raw_conv : FujiTransport → Bool
is_raw_conv raw_conv = true
is_raw_conv _ = false

module _ {W : Type 0} (usb_port : UsbPort W) where
  unfoldable pub fuji_reset_ptp : Step W
  fuji_reset_ptp =
      assign usb_port.reset
      and_then assign_fuji (λ f. zeroed_priv)
      and_then assign (λ r. record r { connection_type = ptp_ip_usb })
      and_then affect (usb_port.set_response_wait 3)

  unfoldable pub open_found : Option PtpDeviceEntry → Step W
  open_found none = affect usb_port.free_device_list and_then finished usb_port.no_device
  open_found (some curr) =
      on_result (run (usb_port.device_open curr))
        (λ rc. affect usb_port.free_device_list and_then finished rc)

  unfoldable pub fujiusb_try_connect : ℕ → Step W
  fujiusb_try_connect num =
      fuji_reset_ptp
      and_then assign (λ r. record r { connection_type = ptp_usb })
      and_then assign_fuji (λ f. record f { transport = usb })
      and_then calling usb_port.device_list (λ list. open_found (find_device num 0 list))

module _ {W : Type 0} (port : Port W) (usb_port : UsbPort W) where
  abbrev pub set_transport : FujiTransport → Step W
  set_transport t = assign_fuji (λ f. record f { transport = t })

  -- A session that is already open is no error.
  unfoldable pub session_opened : Rc → Step W
  session_opened check_code = finished ok
  session_opened rc = finished rc

  -- A camera without the property is a card reader, and `rc` is then still `PTP_CHECK_CODE`.
  unfoldable pub usb_mode_read : Rc → Step W
  usb_mode_read ok = with_value port (λ mode. set_transport (mode_transport mode))
  usb_mode_read check_code = set_transport usb_card_reader and_then finished check_code
  usb_mode_read rc = finished rc

  unfoldable pub fujiusb_setup : Step W
  fujiusb_setup =
      on_result (run usb_port.open_session) session_opened
      and_then run usb_port.get_device_info
      and_then affect usb_port.send_cam_name
      and_then on_result (read_prop port 0xd16e) usb_mode_read

  -- Where the handshake ended with `PTP_RUNTIME_ERR`, another one.
  unfoldable pub try_again : Step W → Rc → Step W
  try_again handshake runtime_err = handshake
  try_again handshake rc = finished rc

  unfoldable pub four_times : Step W → Step W
  four_times handshake =
      let second = on_result handshake (try_again handshake) in
      let third = on_result second (try_again handshake) in on_result third (try_again handshake)

  unfoldable pub initialize : ConnectionType → CommandSocket W → List ℕ → Step W
  initialize ptp_ip_usb socket client_name =
      four_times (ptpip_fuji_connect_handshake socket client_name)
      and_then affect socket.send_cam_name
  initialize _ socket client_name = finished ok

  unfoldable pub fujitether_setup : CommandSocket W → List ℕ → Step W
  fujitether_setup socket client_name =
      reading (λ r. initialize r.connection_type socket client_name) and_then fujiusb_setup

  unfoldable pub fujiusb_download_backup : Step W
  fujiusb_download_backup = reading (λ r.
      if is_raw_conv r.fuji.transport
      then locked (
          run (usb_port.get_info 0)
          and_then run (usb_port.get_object 0)
          and_then reading (λ s. affect (usb_port.save_backup (port.payload s.world))))
      else finished usb_port.unsupported)

  -- The object info of a backup: 12 bytes, and zeros up to 1088.
  unfoldable pub backup_info : ℕ → List ℕ
  backup_info file_size =
      le32 0 ++ (le16 0x5000 ++ (le16 0 ++ (le32 (u32 file_size) ++ replicate 1076 0)))

  -- `PTP_OC_SendObjectInfo` of the PTP standard is 0x100c.
  unfoldable pub fujiusb_restore_backup : List ℕ → Step W
  fujiusb_restore_backup input =
      if ltb 100000 (length input)
      then finished (other (2 ^ 32 - 1))
      else (run (usb_port.send_data 0x100c (0 ∷ 0 ∷ []) (backup_info (length input)))
          and_then run (usb_port.send_object input))

  -- The value goes on to `k`.
  unfoldable pub fuji_get_battery_percent : (ℕ → W → W) → Step W
  fuji_get_battery_percent store =
      locked (read_prop port 0xd36a and_then with_value port (λ v. affect (store v)))
