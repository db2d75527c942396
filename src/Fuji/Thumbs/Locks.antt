-- ===== src/Fuji/Thumbs/Locks.antt =====
-- The mutex around thumbnails (lib/fuji.c: `fuji_get_thumb`).
use libfuji.Common.{
  subst, ℕ, ◌+◌, ◌≡◌, refl, Bool, true, false, none, some, if◌then◌else◌, length, ltb, arith, ◌==◌,
  ◌||◌, ◌&&◌, not,
}
use libfuji.Exif.State.{Answer}
use libfuji.Fuji.Session.{
  Rc, ok, check_code, runtime_err, canceled, other, PtpRuntime, Port, Result, ptp_mutex_lock,
  set_world,
}
use libfuji.Fuji.Ends.{Ends}
use libfuji.Fuji.Events.Keeps.{get_events-Keeps}
use libfuji.Fuji.Events.Locks.{SameLocks, SameLocks-IsFrame, SameLocks-IsEventFrame}
use libfuji.Fuji.Steps.Keeps.{Keeps, keeps_rules}
use libfuji.Fuji.Steps.{◌and_then◌, run, on_result}
use libfuji.Fuji.Events.{fuji_get_events}
use libfuji.Fuji.Setup.{is_autosave}
use libfuji.Fuji.Handshake.{is_negative}
use libfuji.Fuji.Thumbs.{
  Thumb, with_bounds, thumb_after, unlock_thumb, settle, thumb_found, after_exif, parse_payload,
  partial_result, ptp_get_partial_exif, thumb_result, get_thumbnail, informed, fuji_get_thumb,
}

-- Where there is a result, the mutex is held `n` times.
abbrev pub ThumbLocks : {W : Type 0} → ℕ → Thumb W → Type 0
ThumbLocks n none = Unit
ThumbLocks n (some (r, rc, offset, size)) = r.locks ≡ n

module _ {W : Type 0} (n : ℕ) where
  bounds-locks :
      (offset size : ℕ) (o : Result W)
      → Ends (λ r rc. r.locks ≡ n) o
      → ThumbLocks n (with_bounds offset size o)
  bounds-locks offset size none h = tt
  bounds-locks offset size (some (r, rc)) h = h

  after-locks :
      (o : Result W) (k : PtpRuntime W → Thumb W)
      → Ends (λ r rc. r.locks ≡ n) o
      → ((r : PtpRuntime W) → r.locks ≡ n → ThumbLocks n (k r))
      → ThumbLocks n (thumb_after o k)
  after-locks none k h f = tt
  after-locks (some (r, ok)) k h f = f r h
  after-locks (some (r, check_code)) k h f = h
  after-locks (some (r, runtime_err)) k h f = h
  after-locks (some (r, canceled)) k h f = h
  after-locks (some (r, other e)) k h f = h

  unlock-locks : (o : Thumb W) → ThumbLocks (n + 1) o → ThumbLocks n (unlock_thumb o)
  unlock-locks none h = tt
  unlock-locks (some (r, rc, offset, size)) h = omega (arith, h)

  if-locks :
      (b : Bool) (x y : Thumb W)
      → ThumbLocks n x
      → ThumbLocks n y
      → ThumbLocks n (if b then x else y)
  if-locks true x y h k = h
  if-locks false x y h k = k

module _ {W : Type 0} (port : Port W) (handle : ℕ) where
  settle-Keeps : Keeps SameLocks (settle port handle)
  unfolding settle
  settle-Keeps = search (keeps_rules, get_events-Keeps, SameLocks-IsEventFrame, SameLocks-IsFrame)

  partial_result-Keeps : (rc : Rc) → Keeps SameLocks (partial_result port handle rc)
  unfolding partial_result
  partial_result-Keeps check_code = search (keeps_rules, SameLocks-IsFrame)
  partial_result-Keeps rc = search (keeps_rules, SameLocks-IsFrame)

  first-Keeps : Keeps SameLocks (
      fuji_get_events port
      and_then on_result
          (run (port.get_partial_object handle 0 0x4000))
          (partial_result port handle))
  first-Keeps = search (
    keeps_rules, get_events-Keeps, partial_result-Keeps, SameLocks-IsEventFrame, SameLocks-IsFrame,
  )

  after_exif-locks :
      (n : ℕ) (r : PtpRuntime W) (a : Answer W Unit)
      → r.locks ≡ n
      → ThumbLocks n (after_exif port handle r a)
  unfolding after_exif thumb_found
  after_exif-locks n r none h = tt
  after_exif-locks n r (some (c, x)) h = if-locks n (c.thumb_of == 0 || c.thumb_size == 0) _ _ h (
      bounds-locks n c.thumb_of c.thumb_size _ (
        subst (λ (m : ℕ). Ends (λ s rc. s.locks ≡ m) (settle port handle (set_world r c.world))) h
          (settle-Keeps.at (set_world r c.world))))

  payload-locks :
      (n : ℕ) (r : PtpRuntime W) → r.locks ≡ n → ThumbLocks n (parse_payload port handle r)
  unfolding parse_payload
  payload-locks n r h =
      if-locks n (ltb 0x4000 (length (port.payload r.world))) _ _ tt (after_exif-locks n r _ h)

  partial-locks : (r : PtpRuntime W) → ThumbLocks r.locks (ptp_get_partial_exif port handle r)
  unfolding ptp_get_partial_exif
  partial-locks r = unlock-locks r.locks _ (
      after-locks (r.locks + 1) _ (parse_payload port handle) (first-Keeps.at (ptp_mutex_lock r))
        (payload-locks (r.locks + 1)))

  result-locks :
      (n : ℕ) (r : PtpRuntime W) (rc : Rc)
      → r.locks ≡ n
      → ThumbLocks n (thumb_result port handle r rc)
  unfolding thumb_result
  result-locks n r ok h = if-locks n (ltb (length (port.payload r.world)) 100) _ _ h h
  result-locks n r check_code h = h
  result-locks n r runtime_err h = h
  result-locks n r canceled h = h
  result-locks n r (other e) h = h

  informed-locks :
      (n : ℕ) (r : PtpRuntime W) (rc : Rc) (size : ℕ)
      → r.locks ≡ n
      → ThumbLocks n (informed port handle r rc size)
  unfolding informed get_thumbnail
  informed-locks n r ok size h = result-locks n _ _ h
  informed-locks n r check_code size h = h
  informed-locks n r runtime_err size h = h
  informed-locks n r canceled size h = h
  informed-locks n r (other e) size h = h

  -- On every path on which `fuji_get_thumb` returns, over any transport, whatever the camera does and whatever
  -- EXIF data it sends, the mutex is held as often as before.
  pub get_thumb-locks : (r : PtpRuntime W) → ThumbLocks r.locks (fuji_get_thumb port handle r)
  unfolding fuji_get_thumb get_thumbnail
  get_thumb-locks r =
      if-locks r.locks (is_autosave r.fuji.transport) _ _
        (if-locks r.locks r.fuji.allow_autosave_thumbnails _ _ (partial-locks r) refl)
        (if-locks r.locks
          (ltb 0x20006 r.fuji.remote_version && not (is_negative r.fuji.remote_version)) _ _
          (informed-locks r.locks (set_world r (port.get_object_info handle r.world).0)
            (port.get_object_info handle r.world).1 (port.get_object_info handle r.world).2 refl)
          (result-locks r.locks (set_world r (port.get_thumbnail handle r.world).0)
            (port.get_thumbnail handle r.world).1 refl))
