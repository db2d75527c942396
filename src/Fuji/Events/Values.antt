-- ===== src/Fuji/Events/Values.antt =====
-- What `fuji_get_events` (lib/fuji.c) learns from the camera: for each property that it keeps, the value
-- of the last event about it.
use libfuji.Common.{ℕ, List, [], ◌∷◌, ◌≡◌, ◌==◌, if◌then◌else◌}
use libfuji.Fuji.Session.{Rc, ok, PtpRuntime, PtpUserPriv, Port}
use libfuji.Fuji.Ends.{Ends}
use libfuji.Fuji.Events.{PtpFujiEventsEntry}

-- The value of the last event with this code, or what stood before.
unfoldable pub last_value : ℕ → List PtpFujiEventsEntry → ℕ → ℕ
last_value code [] old = old
last_value code (ev ∷ evs) old = last_value code evs (if ev.code == code then ev.value else old)

-- The session's record after the events, in terms of the record before them.
unfoldable pub learned : List PtpFujiEventsEntry → PtpUserPriv → PtpUserPriv
learned evs f = record f {
  camera_state = last_value 0xdf00 evs f.camera_state;
  selected_imgs_mode = last_value 0xd220 evs f.selected_imgs_mode;
  num_objects = last_value 0xd222 evs f.num_objects;
}

-- One event.
learned_one : PtpFujiEventsEntry → PtpUserPriv → PtpUserPriv
learned_one ev f = record f {
  camera_state = if ev.code == 0xdf00 then ev.value else f.camera_state;
  selected_imgs_mode = if ev.code == 0xd220 then ev.value else f.selected_imgs_mode;
  num_objects = if ev.code == 0xd222 then ev.value else f.num_objects;
}

abbrev HasFuji : {W : Type 0} → Port W → PtpUserPriv → List ℕ → PtpRuntime W → Rc → Type 0
HasFuji port f p r rc = (r.fuji ≡ f) × (port.payload r.world ≡ p)

-- The record, where the function returns 0.
abbrev LearnsFuji : {W : Type 0} → PtpUserPriv → PtpRuntime W → Rc → Type 0
LearnsFuji f r rc = rc ≡ ok → r.fuji ≡ f

-- The frontend's two calls leave `r->data` alone.
pub record KeepsPayload {W : Type 0} (port : Port W) : Type 0 where
  pub queues :
      (handle : ℕ) (w : W) → port.payload (port.queue_file_for_download handle w).0 ≡ port.payload w
  pub updates : (w : W) → port.payload (port.update_storage_info w) ≡ port.payload w
