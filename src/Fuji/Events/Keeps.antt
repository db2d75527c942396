-- ===== src/Fuji/Events/Keeps.antt =====
-- What `fuji_get_events` (lib/fuji.c) keeps of the session.
use libfuji.Common.{Option, none, some, ℕ, zero, suc, ◌+◌, List, ◌==◌, ◌&&◌, get_elem?}
use libfuji.Fuji.Session.{
  and_unlock, ptp_mutex_unlock, Rc, ok, check_code, runtime_err, canceled, other, PtpRuntime, Port,
  Result, call, ptp_mutex_lock, set_world, ◌or_return◌,
}
use libfuji.Fuji.Ends.{Ends, Ends-imp, or_return-Ends, and_unlock-Ends, if-Ends, option-Ends}
use libfuji.Fuji.Events.{
  PtpFujiEventsEntry, is_wireless_tether, queue_handles, queue_sdram, set_camera_state,
  handle_event, event_at, event_round, handle_events, handle_payload, payload_events,
  fuji_get_events,
}
use libfuji.Fuji.Steps.Keeps.{IsFrame, Keeps}

-- A relation that does not look at what the events tell.
pub record IsEventFrame {W : Type 0} (R : PtpRuntime W → PtpRuntime W → Type 0) : Type 0 where
  pub frame : IsFrame R
  pub tells_state :
      (r : PtpRuntime W) (v : ℕ) → R r (record r { fuji = record r.fuji { camera_state = v } })
  pub tells_mode :
      (r : PtpRuntime W) (v : ℕ)
      → R r (record r { fuji = record r.fuji { selected_imgs_mode = v } })
  pub tells_count :
      (r : PtpRuntime W) (v : ℕ) → R r (record r { fuji = record r.fuji { num_objects = v } })

module _ {W : Type 0} {R : PtpRuntime W → PtpRuntime W → Type 0} (c : IsEventFrame R)
    (port : Port W) where
  -- A chain that keeps the relation.
  chained :
      (r : PtpRuntime W) (o : Result W) (k : PtpRuntime W → Result W)
      → Ends (λ s rc. R r s) o
      → ((s : PtpRuntime W) → Ends (λ t rc. R s t) (k s))
      → Ends (λ s rc. R r s) (o or_return k)
  chained r o k h hk =
      or_return-Ends (λ s rc. R r s) (λ s rc. R r s) o k h (λ s rc e. e)
        (λ s e.
          Ends-imp (λ t rc. R s t) (λ t rc. R r t) (k s) (hk s)
            (λ t rc g. c.frame.transitive r s t e g))

  queue_handles-R :
      (a : List ℕ) (left i : ℕ) (r : PtpRuntime W)
      → Ends (λ s rc. R r s) (queue_handles port a left i r)
  unfolding queue_handles
  queue_handles-R a zero i r = c.frame.reflexive r
  queue_handles-R a (suc left) i r =
      option-Ends (λ s rc. R r s) (get_elem? a i) _
        (λ handle.
          chained r (call r (port.queue_file_for_download handle r.world)) _ (c.frame.outside r _)
            (queue_handles-R a left i))

  queue_sdram-R : (i : ℕ) (r : PtpRuntime W) → Ends (λ s rc. R r s) (queue_sdram port i r)
  unfolding queue_sdram
  queue_sdram-R i r =
      chained r (call r ((port.get_object_handles r.world).0, (port.get_object_handles r.world).1))
        _ (c.frame.outside r _) (queue_handles-R _ _ i)

  set_camera_state-R : (v : ℕ) (r : PtpRuntime W) → Ends (λ s rc. R r s) (set_camera_state port v r)
  unfolding set_camera_state
  set_camera_state-R v r =
      if-Ends (λ s rc. R r s) (v == 1) _ _
        (λ _. c.frame.transitive r _ _ (c.tells_state r v) (c.frame.outside _ _))
        (λ _. c.tells_state r v)

  handle_event-R :
      (i : ℕ) (ev : PtpFujiEventsEntry) (r : PtpRuntime W)
      → Ends (λ s rc. R r s) (handle_event port i ev r)
  unfolding handle_event
  handle_event-R i ev r =
      let P : PtpRuntime W → Rc → Type 0 = λ s rc. R r s in
      if-Ends P (ev.code == 0xd220) _ _ (λ _. c.tells_mode r ev.value)
        (λ _.
          if-Ends P (ev.code == 0xd222) _ _ (λ _. c.tells_count r ev.value)
            (λ _.
              if-Ends P (ev.code == 0xdf00) _ _ (λ _. set_camera_state-R ev.value r)
                (λ _.
                  if-Ends P (ev.code == 0xd20e && is_wireless_tether r.fuji.transport) _ _
                    (λ _. queue_sdram-R i r) (λ _. c.frame.reflexive r))))

  event_round-R :
      (i : ℕ) (o : Option (Option PtpFujiEventsEntry)) (rest : PtpRuntime W → Result W)
      (r : PtpRuntime W)
      → ((s : PtpRuntime W) → Ends (λ t rc. R s t) (rest s))
      → Ends (λ s rc. R r s) (event_round port i o rest r)
  unfolding event_round
  event_round-R i none rest r h = tt
  event_round-R i (some none) rest r h = c.frame.reflexive r
  event_round-R i (some (some ev)) rest r h =
      chained r (handle_event port i ev r) rest (handle_event-R i ev r) h

  handle_events-R :
      (fuel i : ℕ) (r : PtpRuntime W) → Ends (λ s rc. R r s) (handle_events port fuel i r)
  unfolding handle_events
  handle_events-R zero i r = tt
  handle_events-R (suc fuel) i r =
      event_round-R i (event_at (port.payload r.world) i) (handle_events port fuel (i + 1)) r
        (handle_events-R fuel (i + 1))

  handle_payload-R : (r : PtpRuntime W) → Ends (λ s rc. R r s) (handle_payload port r)
  unfolding handle_payload
  handle_payload-R r =
      option-Ends (λ s rc. R r s) (payload_events (port.payload r.world)) _
        (λ evs. handle_events-R 65536 0 r)

  unlocked : (r : PtpRuntime W) (w : W) → R r (ptp_mutex_unlock (set_world (ptp_mutex_lock r) w))
  unlocked r w = c.frame.mutex r _ (c.frame.outside (ptp_mutex_lock r) w)

  -- With the mutex taken, for each outcome of reading the property.
  after_read :
      (r : PtpRuntime W) (w : W) (rc : Rc)
      → Ends
          (λ s rc. R r s)
          (elim rc as (λ x. Result W) [
            | ok ↦ and_unlock (handle_payload port (set_world (ptp_mutex_lock r) w))
            | check_code ↦ some (ptp_mutex_unlock (set_world (ptp_mutex_lock r) w), ok)
            | e ↦ some (ptp_mutex_unlock (set_world (ptp_mutex_lock r) w), e)
          ])
  after_read r w ok =
      and_unlock-Ends (λ s rc. R (set_world (ptp_mutex_lock r) w) s) (λ s rc. R r s)
        (handle_payload port (set_world (ptp_mutex_lock r) w))
        (handle_payload-R (set_world (ptp_mutex_lock r) w))
        (λ s rc e.
          c.frame.mutex r s (c.frame.transitive _ _ s (c.frame.outside (ptp_mutex_lock r) w) e))
  after_read r w check_code = unlocked r w
  after_read r w runtime_err = unlocked r w
  after_read r w canceled = unlocked r w
  after_read r w (other e) = unlocked r w

  pub get_events-Keeps : Keeps R (fuji_get_events port)
  unfolding fuji_get_events
  get_events-Keeps = record {
    at = λ r.
        after_read r (port.get_prop_value 0xd212 r.world).0 (port.get_prop_value 0xd212 r.world).1;
  }
