-- ===== src/Fuji/Events.antt =====
-- `fuji_get_events` (lib/fuji.c). The payload of the events property is a count and, for each event, a
-- code and a value; the C code does not compare the count with the payload's length. A read behind the
-- payload is `none`.
pub mod Keeps
pub mod Locks
pub mod Values
use libfuji.Common.{
  Bool, true, false, ◌&&◌, ℕ, zero, suc, ◌+◌, ◌*◌, ltb, List, [], ◌∷◌, Option, none, some, ◌==◌,
  if◌then◌else◌, ◌>>=◌, get_elem?, length, read_u16, read_u32,
}
use libfuji.Fuji.Session.{
  Result, ◌or_return◌, call, and_unlock, ok, check_code, FujiTransport, wireless_tether, PtpRuntime,
  Port, ptp_mutex_lock, ptp_mutex_unlock, set_world,
}

-- `struct PtpFujiEventsEntry`.
pub record PtpFujiEventsEntry : Type 0 where
  pub code : ℕ
  pub value : ℕ

unfoldable pub read_entry : List ℕ → ℕ → Option PtpFujiEventsEntry
read_entry payload of = do
  code ← read_u16 payload of
  value ← read_u32 payload (of + 2)
  some (record { code = code; value = value })

-- The entries from the cursor on, with `left` of them to read.
unfoldable pub read_events : List ℕ → ℕ → ℕ → Option (List PtpFujiEventsEntry)
read_events payload zero of = some []
read_events payload (suc left) of = do
  ev ← read_entry payload of
  rest ← read_events payload left (of + 6)
  some (ev ∷ rest)

unfoldable pub payload_events : List ℕ → Option (List PtpFujiEventsEntry)
payload_events payload = do n ← read_u16 payload 0; read_events payload n 2

-- Event `i`, if the count is greater.
unfoldable pub event_at : List ℕ → ℕ → Option (Option PtpFujiEventsEntry)
event_at payload i = do
  n ← read_u16 payload 0
  if ltb i n then (read_entry payload (2 + 6 * i) >>= λ ev. some (some ev)) else some none

abbrev pub is_wireless_tether : FujiTransport → Bool
is_wireless_tether wireless_tether = true
is_wireless_tether t = false

module _ {W : Type 0} (port : Port W) where
  -- The loop over the handles of the images in SDRAM, at event `i`: each round queues `a->data[i]`.
  unfoldable pub queue_handles : List ℕ → ℕ → ℕ → PtpRuntime W → Result W
  queue_handles a zero i r = some (r, ok)
  queue_handles a (suc left) i r = elim (get_elem? a i) [
    | none ↦ none
    | some handle ↦
        call r (port.queue_file_for_download handle r.world) or_return queue_handles a left i
  ]

  unfoldable pub queue_sdram : ℕ → PtpRuntime W → Result W
  queue_sdram i r =
      let (w, rc, a) = port.get_object_handles r.world in
      call r (w, rc) or_return queue_handles a (length a) i

  -- `FUJI_MULTIPLE_TRANSFER` is 1.
  unfoldable pub set_camera_state : ℕ → PtpRuntime W → Result W
  set_camera_state value r =
      let r' : PtpRuntime W = record r { fuji = record r.fuji { camera_state = value } } in
      if value == 1
      then call r' (port.queue_file_for_download 1 (port.update_storage_info r'.world))
      else some (r', ok)

  -- The `switch` on event `i`.
  unfoldable pub handle_event : ℕ → PtpFujiEventsEntry → PtpRuntime W → Result W
  handle_event i ev r =
      if ev.code == 0xd220
      then some (record r { fuji = record r.fuji { selected_imgs_mode = ev.value } }, ok)
      else if ev.code == 0xd222
      then some (record r { fuji = record r.fuji { num_objects = ev.value } }, ok)
      else if ev.code == 0xdf00
      then set_camera_state ev.value r
      else if ev.code == 0xd20e && is_wireless_tether r.fuji.transport
      then queue_sdram i r
      else some (r, ok)

  -- A round of the second loop, with what follows on it.
  unfoldable pub event_round :
      ℕ → Option (Option PtpFujiEventsEntry) → (PtpRuntime W → Result W) → PtpRuntime W → Result W
  event_round i none rest r = none
  event_round i (some none) rest r = some (r, ok)
  event_round i (some (some ev)) rest r = handle_event i ev r or_return rest

  -- The second loop, from event `i` on, with fuel. `ev` points into `r->data`: the count and the
  -- event are read there in every round, after what the calls of the rounds before have left.
  unfoldable pub handle_events : ℕ → ℕ → PtpRuntime W → Result W
  handle_events zero i r = none
  handle_events (suc fuel) i r =
      event_round i (event_at (port.payload r.world) i) (handle_events fuel (i + 1)) r

  -- The first loop, which logs the events, reads all of them. A count has 16 bits, so that the fuel
  -- is enough.
  unfoldable pub handle_payload : PtpRuntime W → Result W
  handle_payload r = elim (payload_events (port.payload r.world)) [
    | none ↦ none
    | some evs ↦ handle_events 65536 0 r
  ]

  -- `PTP_CHECK_CODE` for the property is no error.
  unfoldable pub fuji_get_events : PtpRuntime W → Result W
  fuji_get_events r =
      let (w, rc) = port.get_prop_value 0xd212 r.world in
      let r' : PtpRuntime W = set_world (ptp_mutex_lock r) w in
      elim rc [
        | ok ↦ and_unlock (handle_payload r')
        | check_code ↦ some (ptp_mutex_unlock r', ok)
        | e ↦ some (ptp_mutex_unlock r', e)
      ]
