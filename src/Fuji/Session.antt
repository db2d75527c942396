-- ===== src/Fuji/Session.antt =====
-- The state of a session (lib/fuji.h: `struct PtpUserPriv`; libpict's `struct PtpRuntime`, as far as
-- lib/fuji.c uses it), and what lib/fuji.c calls outside this repository. An `int` is the bit pattern of
-- its 32 bits.
use libfuji.Fuji.Device.{FujiPropDesc}
use libfuji.Common.{ℕ, ◌+◌, ◌-◌, List, Bool, Option, none, some}

-- The return codes of libpict that lib/fuji.c tells apart: 0, `PTP_CHECK_CODE`, `PTP_RUNTIME_ERR`,
-- `PTP_CANCELED`, and any other error.
pub data Rc : Type 0 where
  ok : Rc
  check_code : Rc
  runtime_err : Rc
  canceled : Rc
  other : ℕ → Rc

pub data FujiTransport : Type 0 where
  autosave : FujiTransport
  wireless_tether : FujiTransport
  wireless_comm : FujiTransport
  usb_card_reader : FujiTransport
  usb_tether_shoot : FujiTransport
  raw_conv : FujiTransport
  usb : FujiTransport
  webcam : FujiTransport
  movie_shoot : FujiTransport
  xapp_wireless_comm : FujiTransport

-- What `storage_device_name` holds: nothing, `"Card"`, or `"Card %d"`.
pub data StorageName : Type 0 where
  unnamed : StorageName
  card : StorageName
  numbered_card : ℕ → StorageName

-- libpict's kinds of connection.
pub data ConnectionType : Type 0 where
  ptp_ip : ConnectionType
  ptp_ip_usb : ConnectionType
  ptp_usb : ConnectionType

pub record PtpUserPriv : Type 0 where
  pub transport : FujiTransport
  pub camera_state : ℕ
  pub selected_imgs_mode : ℕ
  pub num_objects : ℕ
  pub get_object_version : ℕ
  pub remote_image_view_version : ℕ
  pub remote_image_view_ex_version : ℕ
  pub image_get_version : ℕ
  pub remote_version : ℕ
  pub opened_liveview_sockets : Bool
  pub storage_device_name : StorageName
  pub open_capture_trans_id : ℕ
  pub prop_desc_list : List (Option FujiPropDesc)
  pub allow_autosave_thumbnails : Bool
  pub sort_by_oldest_first : Bool
  pub compress_images_for_smartphone : Bool

-- `world` is everything outside: the camera, the files and the frontend. `locks` counts how often the
-- mutex, which may be taken again by its holder, is held.
pub record PtpRuntime (W : Type 0) : Type 0 where
  pub world : W
  pub locks : ℕ
  pub wait_for_response : ℕ
  pub session : ℕ
  pub connection_type : ConnectionType
  pub io_kill_switch : Bool
  pub operation_kill_switch : Bool
  pub fuji : PtpUserPriv

-- libpict's operations, and the frontend's callbacks. `payload` is the data of the last response, and
-- `parse_prop_value` its value. A property's value is its bit pattern. Messages to the user are left out.
pub record Port (W : Type 0) : Type 0 where
  pub get_prop_value : ℕ → W → W × Rc
  pub set_prop_value16 : ℕ → ℕ → W → W × Rc
  pub set_prop_value : ℕ → ℕ → W → W × Rc
  pub parse_prop_value : W → ℕ
  -- A command's code and its parameters.
  pub send : ℕ → List ℕ → W → W × Rc
  pub get_return_code : W → ℕ
  pub transaction : W → ℕ
  pub set_transaction : ℕ → W → W
  pub init_open_capture : W → W × Rc
  pub terminate_open_capture : ℕ → W → W × Rc
  pub get_thumbnail : ℕ → W → W × Rc
  pub delete_object : ℕ → W → W
  pub download_object : ℕ → ℕ → W → W
  pub get_object_handles : W → W × Rc × List ℕ
  -- The result's last part is `compressed_size`.
  pub get_object_info : ℕ → W → W × Rc × ℕ
  pub get_partial_object : ℕ → ℕ → ℕ → W → W × Rc
  pub payload : W → List ℕ
  pub update_storage_info : W → W
  pub queue_file_for_download : ℕ → W → W × Rc
  pub update_object_info : ℕ → ℕ → W → W
  pub check_thread_cancel : W → W × Bool
  pub report_download_speed : ℕ → W → W

abbrev pub ptp_mutex_lock : {W : Type 0} → PtpRuntime W → PtpRuntime W
ptp_mutex_lock r = record r { locks = r.locks + 1 }

abbrev pub ptp_mutex_unlock : {W : Type 0} → PtpRuntime W → PtpRuntime W
ptp_mutex_unlock r = record r { locks = r.locks - 1 }

-- The runtime after a call that changes the outside.
abbrev pub set_world : {W : Type 0} → PtpRuntime W → W → PtpRuntime W
set_world r w = record r { world = w }

-- What a function of the session leaves and returns; `none` is undefined in C.
abbrev pub Result : Type 0 → Type 0
Result W = Option (PtpRuntime W × Rc)

infixl 5 ◌or_return◌
-- `rc = …; if (rc) return rc; …`
abbrev pub ◌or_return◌ : {W : Type 0} → Result W → (PtpRuntime W → Result W) → Result W
none or_return k = none
some (r, ok) or_return k = k r
some (r, check_code) or_return k = some (r, check_code)
some (r, runtime_err) or_return k = some (r, runtime_err)
some (r, canceled) or_return k = some (r, canceled)
some (r, other e) or_return k = some (r, other e)

-- A call of the outside.
abbrev pub call : {W : Type 0} → PtpRuntime W → W × Rc → Result W
call r (w, rc) = some (set_world r w, rc)

-- `ptp_mutex_unlock(r); return rc;`
abbrev pub and_unlock : {W : Type 0} → Result W → Result W
and_unlock none = none
and_unlock (some (r, rc)) = some (ptp_mutex_unlock r, rc)
