-- ===== src/Fuji/Thumbs.antt =====
-- Thumbnails (lib/fuji.c: `fuji_get_thumb`, `ptp_get_partial_exif`, `my_add`).
pub mod Locks
pub mod Size
use libfuji.Common.{
  ℕ, ◌+◌, ◌-◌, ◌^◌, List, Option, none, some, Bool, true, false, ◌==◌, ◌&&◌, ◌||◌, not, ltb,
  if◌then◌else◌, length, u32, get_elem?,
}
use libfuji.Exif.State.{Memory, More, ExifParser, Answer, memory}
use libfuji.Exif.{exif_start_raw}
use libfuji.Fuji.Session.{
  Rc, ok, check_code, runtime_err, FujiTransport, autosave, PtpRuntime, Port, Result, set_world,
  ptp_mutex_lock, ptp_mutex_unlock, call,
}
use libfuji.Fuji.Handshake.{is_negative}
use libfuji.Fuji.Setup.{is_autosave}
use libfuji.Fuji.Events.{fuji_get_events}
use libfuji.Fuji.Steps.{Step, ◌and_then◌, finished, run, on_result}

-- The result, with the bounds that are given to the caller.
abbrev pub Thumb : Type 0 → Type 0
Thumb W = Option (PtpRuntime W × Rc × ℕ × ℕ)

abbrev pub with_bounds : {W : Type 0} → ℕ → ℕ → Result W → Thumb W
with_bounds offset size none = none
with_bounds offset size (some (r, rc)) = some (r, rc, offset, size)

-- What goes on where the first part returns 0; where it does not, there are no bounds.
abbrev pub thumb_after : {W : Type 0} → Result W → (PtpRuntime W → Thumb W) → Thumb W
thumb_after none k = none
thumb_after (some (r, ok)) k = k r
thumb_after (some (r, rc)) k = some (r, rc, 0, 0)

abbrev pub unlock_thumb : {W : Type 0} → Thumb W → Thumb W
unlock_thumb none = none
unlock_thumb (some (r, rc, offset, size)) = some (ptp_mutex_unlock r, rc, offset, size)

-- The buffer with the payload copied behind its first `old_len` bytes.
unfoldable pub append_payload : Memory → List ℕ → ℕ → Memory
append_payload m payload old_len i = if ltb i old_len then m i else get_elem? payload (i - old_len)

module _ {W : Type 0} (port : Port W) (handle : ℕ) where
  -- Copying more than there is room for is undefined.
  unfoldable pub copy_payload : Memory → ℕ → ℕ → W × Rc → More W
  copy_payload m new_len old_len (w, ok) =
      if ltb (u32 (2 ^ 32 + new_len - old_len)) (length (port.payload w))
      then none
      else some (w, some (append_payload m (port.payload w) old_len))
  copy_payload m new_len old_len (w, rc) = some (w, none)

  unfoldable pub my_add : Memory → ℕ → ℕ → W → More W
  my_add m new_len old_len w =
      copy_payload m new_len old_len
        (port.get_partial_object handle old_len (u32 (2 ^ 32 + new_len - old_len)) w)

  -- With bounds, the events are asked for four times.
  unfoldable pub settle : Step W
  settle =
      fuji_get_events port
      and_then fuji_get_events port
      and_then fuji_get_events port
      and_then fuji_get_events port

  unfoldable pub thumb_found : ExifParser W → PtpRuntime W → Thumb W
  thumb_found c r =
      if c.thumb_of == 0 || c.thumb_size == 0
      then some (r, runtime_err, 0, 0)
      else with_bounds c.thumb_of c.thumb_size (settle r)

  unfoldable pub after_exif : PtpRuntime W → Answer W Unit → Thumb W
  after_exif r none = none
  after_exif r (some (c, result)) = thumb_found c (set_world r c.world)

  -- The first bytes of the file, of which at most 0x4000 fit into the buffer.
  unfoldable pub parse_payload : PtpRuntime W → Thumb W
  parse_payload r =
      let payload : List ℕ = port.payload r.world in
      if ltb 0x4000 (length payload)
      then none
      else after_exif r (exif_start_raw (memory payload) (length payload) (some my_add) r.world)

  unfoldable pub partial_result : Rc → Step W
  partial_result check_code = finished runtime_err
  partial_result rc = finished rc

  unfoldable pub ptp_get_partial_exif : PtpRuntime W → Thumb W
  ptp_get_partial_exif r = unlock_thumb (
      thumb_after
        ((fuji_get_events port
            and_then on_result (run (port.get_partial_object handle 0 0x4000)) partial_result)
          (ptp_mutex_lock r))
        parse_payload)

  -- A thumbnail of less than 100 bytes is none.
  unfoldable pub thumb_result : PtpRuntime W → Rc → Thumb W
  thumb_result r ok =
      if ltb (length (port.payload r.world)) 100
      then some (r, ok, 0, 0)
      else some (r, ok, 0, length (port.payload r.world))
  thumb_result r check_code = some (r, ok, 0, 0)
  thumb_result r rc = some (r, rc, 0, 0)

  unfoldable pub get_thumbnail : PtpRuntime W → Thumb W
  get_thumbnail r =
      let (w, rc) = port.get_thumbnail handle r.world in thumb_result (set_world r w) rc

  unfoldable pub informed : PtpRuntime W → Rc → ℕ → Thumb W
  informed r ok size = get_thumbnail (set_world r (port.update_object_info handle size r.world))
  informed r check_code size = some (r, ok, 0, 0)
  informed r rc size = some (r, rc, 0, 0)

  -- Newer cameras, with a remote version above 0x20006 as an `int`, want to be asked for the object first.
  unfoldable pub fuji_get_thumb : PtpRuntime W → Thumb W
  fuji_get_thumb r =
      if is_autosave r.fuji.transport
      then if r.fuji.allow_autosave_thumbnails then ptp_get_partial_exif r else some (r, ok, 0, 0)
      else if ltb 0x20006 r.fuji.remote_version && not (is_negative r.fuji.remote_version)
      then (let (w, rc, size) = port.get_object_info handle r.world in
          informed (set_world r w) rc size)
      else get_thumbnail r
