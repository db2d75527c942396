-- ===== src/Fuji/Download.antt =====
-- Downloads (lib/fuji.c: `fuji_download_file_ex`, `ptp_fuji_get_object_handles`). The clock, which only
-- feeds messages, is left out.

pub mod Complete
pub mod File
pub mod Forgets
pub mod Handles
pub mod Locks
pub mod Succeeds
use libfuji.Common.{
  ◌||◌, [], ◌∷◌, Bool, true, false, ◌⊎◌, inl, inr, ℕ, zero, suc, ◌+◌, ◌-◌, ◌^◌, List, Option, none,
  some, ◌==◌, if◌then◌else◌, length, u32, ltb, leb,
}
use libfuji.Fuji.Events.{fuji_get_events}
use libfuji.Fuji.Session.{
  ConnectionType, ptp_usb, FujiTransport, wireless_comm, xapp_wireless_comm, Result, ◌or_return◌,
  call, ptp_mutex_lock, and_unlock, Rc, ok, check_code, runtime_err, canceled, PtpRuntime, Port,
  set_world, ptp_mutex_unlock,
}

-- How the loop ends: `goto end`, or unlocking and returning on the spot.
pub data Exit (W : Type 0) : Type 0 where
  goto_end : PtpRuntime W → Rc → Exit W
  return_now : PtpRuntime W → Rc → Exit W

-- `FUJI_MAX_PARTIAL_OBJECT`.
abbrev pub max_partial_object : ℕ
max_partial_object = 0x100000

-- `cur`, in unsigned arithmetic.
unfoldable pub next_request : ℕ → ℕ → ℕ
next_request compressed_size read =
    let cur : ℕ = u32 (2 ^ 32 + compressed_size - read) in
    if ltb max_partial_object cur then max_partial_object else cur

-- The caller's callbacks: `info`, the identity where it is NULL, and `handle_add`, which gets the
-- bytes, their offset and the total size, and may refuse with any nonzero value.
pub record Sink (W : Type 0) : Type 0 where
  pub info : W → W
  pub handle_add : List ℕ → ℕ → ℕ → W → W × Bool

module _ {W : Type 0} (port : Port W) (sink : Sink W) where
  -- A chunk has arrived: the loop goes on with the new count of bytes, or ends.
  unfoldable pub take_chunk : PtpRuntime W → ℕ → ℕ → PtpRuntime W × (ℕ ⊎ Rc)
  take_chunk r compressed_size read =
      let payload : List ℕ = port.payload r.world in
      let payload_size : ℕ = length payload in
      let w : W = port.report_download_speed payload_size r.world in
      if payload_size == 0
      then (set_world r w, inr runtime_err)
      else let (w', refused) = sink.handle_add payload read compressed_size w in
        if refused
        then (set_world r w', inr canceled)
        else let read' : ℕ = u32 (read + payload_size) in
          if leb compressed_size read'
          then (set_world r w', inr ok)
          else (set_world r w', inl read')

  -- One round up to the arrival of a chunk: `ok` where it arrived.
  unfoldable pub request_chunk : PtpRuntime W → ℕ → ℕ → ℕ → PtpRuntime W × Rc
  request_chunk r handle compressed_size read =
      let (w, rc) =
        port.get_partial_object handle read (next_request compressed_size read) r.world in
      (set_world r w, rc)

  -- `while (1)`, with fuel.
  unfoldable pub download_loop : ℕ → PtpRuntime W → ℕ → ℕ → ℕ → Option (Exit W)
  download_loop zero r handle compressed_size read = none
  download_loop (suc fuel) r handle compressed_size read =
      let (w, cancel) = port.check_thread_cancel r.world in
      elim cancel [
        | true ↦ some (goto_end (set_world r w) canceled)
        | false ↦
            let (r1, rc) = request_chunk (set_world r w) handle compressed_size read in
            elim rc [
              | ok ↦
                  let (r2, next) = take_chunk r1 compressed_size read in
                  elim next [
                    | inl read' ↦ download_loop fuel r2 handle compressed_size read'
                    | inr rc' ↦ some (goto_end r2 rc')
                  ]
              | check_code ↦ some (goto_end r1 check_code)
              | e ↦ some (return_now (ptp_mutex_unlock r1) e)
            ]
      ]

  -- What happens before the mutex is taken, by the transport. The results of the property writes are
  -- not looked at.
  unfoldable pub prepare : FujiTransport → PtpRuntime W → Result W
  prepare wireless_comm r = fuji_get_events port r or_return λ r1.
      let r2 : PtpRuntime W = record r1 { wait_for_response = 3 } in
      some (set_world r2 (port.set_prop_value16 0xd227 1 r2.world).0, ok)
  prepare xapp_wireless_comm r =
      let compress : ℕ = if r.fuji.compress_images_for_smartphone then 1 else 2 in
      some (set_world r (port.set_prop_value16 0xd226 compress r.world).0, ok)
  prepare t r = some (r, ok)

  -- `end:`, with the result that the download has had so far.
  unfoldable pub finish : FujiTransport → PtpRuntime W → Rc → Result W
  finish wireless_comm r rc =
      and_unlock
        (fuji_get_events port r or_return λ r1. call r1 (port.set_prop_value16 0xd227 0 r1.world))
  finish xapp_wireless_comm r rc =
      some (ptp_mutex_unlock (set_world r (port.set_prop_value16 0xd226 2 r.world).0), rc)
  finish t r rc = some (ptp_mutex_unlock r, rc)

  unfoldable pub leave : Option (Exit W) → Result W
  leave none = none
  leave (some (goto_end r rc)) = finish r.fuji.transport r rc
  leave (some (return_now r rc)) = some (r, rc)

  -- With the mutex taken. The loop gets one round for each byte, and one more.
  unfoldable pub download_locked : PtpRuntime W → ℕ → Result W
  download_locked r handle =
      let (w, rc, compressed_size) = port.get_object_info handle r.world in
      elim rc [
        | ok ↦
            let w' : W = sink.info (port.update_object_info handle compressed_size w) in
            leave (download_loop (suc compressed_size) (set_world r w') handle compressed_size 0)
        | e ↦ finish r.fuji.transport (set_world r w) e
      ]

  unfoldable pub fuji_download_file_ex : PtpRuntime W → ℕ → Result W
  fuji_download_file_ex r handle =
      prepare r.fuji.transport r or_return λ r1. download_locked (ptp_mutex_lock r1) handle

abbrev pub is_usb : ConnectionType → Bool
is_usb ptp_usb = true
is_usb t = false

-- The handles that `ptp_fuji_get_object_handles` makes up: 1, 2, and so on.
unfoldable pub handles_from : ℕ → ℕ → List ℕ
handles_from i zero = []
handles_from i (suc left) = (i + 1) ∷ handles_from (i + 1) left

-- `-1` is `2 ^ 32 - 1`. The list is the new content of `*a`. For another negative count no list of that
-- size can be had, and the code writes through the NULL that `malloc` gives.
unfoldable pub ptp_fuji_get_object_handles :
    {W : Type 0} → Port W → PtpRuntime W → Option (PtpRuntime W × Rc × List ℕ)
ptp_fuji_get_object_handles port r =
    if is_usb r.connection_type
    then (let (w, rc, a) = port.get_object_handles r.world in some (set_world r w, rc, a))
    else if r.fuji.num_objects == 0 || r.fuji.num_objects == 2 ^ 32 - 1
    then some (r, runtime_err, [])
    else if ltb r.fuji.num_objects (2 ^ 31)
    then some (r, ok, handles_from 0 r.fuji.num_objects)
    else none
