-- ===== src/Fuji/Download/Locks.antt =====
-- The mutex around a download (lib/fuji.c: `fuji_download_file_ex`), whatever the camera does.
use libfuji.Common.{
  ℕ, zero, suc, ◌+◌, ◌≡◌, ◌⊎◌, inl, inr, refl, ◌∙◌, ap, Bool, true, false, Option, none, some,
  length, arith, ◌==◌, leb, if-holds,
}
use libfuji.Fuji.Session.{
  Rc, ok, check_code, runtime_err, canceled, other, FujiTransport, wireless_comm, PtpRuntime, Port,
  Result, set_world, ptp_mutex_lock, ptp_mutex_unlock,
}
use libfuji.Fuji.Ends.{Ends, Ends-at, or_return-Ends, and_unlock-Ends}
use libfuji.Fuji.Events.{fuji_get_events}
use libfuji.Fuji.Events.Locks.{HasLocks, get_events-HasLocks}
use libfuji.Fuji.Download.{
  Exit, goto_end, return_now, Sink, take_chunk, request_chunk, download_loop, prepare, finish,
  leave, download_locked, fuji_download_file_ex,
}

module _ {W : Type 0} (port : Port W) (sink : Sink W) (n : ℕ) where
  -- At `end:` the mutex is still held; a return on the spot has given it back.
  abbrev ExitLocks : Option (Exit W) → Type 0
  ExitLocks none = Unit
  ExitLocks (some (goto_end r rc)) = r.locks ≡ n + 1
  ExitLocks (some (return_now r rc)) = r.locks ≡ n

  take_chunk-locks :
      (r : PtpRuntime W) (size read : ℕ) → (take_chunk port sink r size read).0.locks ≡ r.locks
  unfolding take_chunk
  take_chunk-locks r size read =
      if-holds (λ (x : PtpRuntime W × (ℕ ⊎ Rc)). x.0.locks ≡ r.locks)
        (length (port.payload r.world) == 0) _ _ (λ _. refl)
        (λ _.
          if-holds (λ (x : PtpRuntime W × (ℕ ⊎ Rc)). x.0.locks ≡ r.locks)
            (sink.handle_add _ _ _ _).1 _ _ (λ _. refl)
            (λ _.
              if-holds (λ (x : PtpRuntime W × (ℕ ⊎ Rc)). x.0.locks ≡ r.locks) (leb _ _) _ _
                (λ _. refl) (λ _. refl)))

  after_chunk :
      (r : PtpRuntime W) (next : ℕ ⊎ Rc) (again : PtpRuntime W → ℕ → Option (Exit W))
      → r.locks ≡ n + 1
      → ((read : ℕ) → ExitLocks (again r read))
      → ExitLocks (elim next as (λ x. Option (Exit W)) [
        | inl read' ↦ again r read'
        | inr rc' ↦ some (goto_end r rc')
      ])
  after_chunk r (inl read) again h k = k read
  after_chunk r (inr rc) again h k = h

  after_request :
      (r : PtpRuntime W) (rc : Rc) (x : Option (Exit W))
      → r.locks ≡ n + 1
      → ExitLocks x
      → ExitLocks (elim rc as (λ x. Option (Exit W)) [
        | ok ↦ x
        | check_code ↦ some (goto_end r check_code)
        | e ↦ some (return_now (ptp_mutex_unlock r) e)
      ])
  after_request r ok x h k = k
  after_request r check_code x h k = h
  after_request r runtime_err x h k = omega (arith, h)
  after_request r canceled x h k = omega (arith, h)
  after_request r (other e) x h k = omega (arith, h)

  after_cancel :
      (cancel : Bool) (r : PtpRuntime W) (x : Option (Exit W))
      → r.locks ≡ n + 1
      → ExitLocks x
      → ExitLocks
          (elim cancel as (λ x. Option (Exit W)) [ true ↦ some (goto_end r canceled) | false ↦ x ])
  after_cancel true r x h k = h
  after_cancel false r x h k = k

  download_loop-locks :
      (fuel : ℕ) (r : PtpRuntime W) (handle size read : ℕ)
      → r.locks ≡ n + 1
      → ExitLocks (download_loop port sink fuel r handle size read)
  unfolding download_loop request_chunk
  download_loop-locks zero r handle size read h = tt
  download_loop-locks (suc fuel) r handle size read h =
      after_cancel (port.check_thread_cancel r.world).1 (set_world r _) _ h (
        after_request (set_world r _) (port.get_partial_object handle read _ _).1 _ h (
          after_chunk (take_chunk port sink (set_world r _) size read).0
            (take_chunk port sink (set_world r _) size read).1
            (λ r read'. download_loop port sink fuel r handle size read')
            (take_chunk-locks (set_world r _) size read ∙ h)
            (λ read'.
              download_loop-locks fuel _ handle size read'
                (take_chunk-locks (set_world r _) size read ∙ h))))

  finish-locks :
      (t : FujiTransport) (r : PtpRuntime W) (rc : Rc)
      → r.locks ≡ n + 1
      → Ends (HasLocks n) (finish port sink t r rc)
  unfolding finish
  finish-locks wireless_comm r rc h =
      and_unlock-Ends (HasLocks (n + 1)) (HasLocks n) _
        (or_return-Ends (HasLocks r.locks) (HasLocks (n + 1)) (fuji_get_events port r) _
          (get_events-HasLocks port r) (λ r1 rc e. e ∙ h) (λ r1 e. e ∙ h))
        (λ r1 rc e. omega (arith, e))
  finish-locks t r rc h = omega (arith, h)

  leave-locks : (x : Option (Exit W)) → ExitLocks x → Ends (HasLocks n) (leave port sink x)
  unfolding leave
  leave-locks none h = tt
  leave-locks (some (goto_end r rc)) h = finish-locks r.fuji.transport r rc h
  leave-locks (some (return_now r rc)) h = h

  after_info :
      (r : PtpRuntime W) (rc : Rc) (x : Option (Exit W))
      → r.locks ≡ n + 1
      → ExitLocks x
      → Ends (HasLocks n) (elim rc as (λ x. Result W) [
        | ok ↦ leave port sink x
        | e ↦ finish port sink r.fuji.transport r e
      ])
  after_info r ok x h k = leave-locks x k
  after_info r check_code x h k = finish-locks _ r check_code h
  after_info r runtime_err x h k = finish-locks _ r runtime_err h
  after_info r canceled x h k = finish-locks _ r canceled h
  after_info r (other e) x h k = finish-locks _ r (other e) h

  download_locked-locks :
      (r : PtpRuntime W) (handle : ℕ)
      → r.locks ≡ n + 1
      → Ends (HasLocks n) (download_locked port sink r handle)
  unfolding download_locked
  download_locked-locks r handle h =
      after_info (set_world r _) (port.get_object_info handle r.world).1 _ h
        (download_loop-locks _ (set_world r _) handle (port.get_object_info handle r.world).2 0 h)

  prepare-locks :
      (t : FujiTransport) (r : PtpRuntime W)
      → r.locks ≡ n
      → Ends (HasLocks n) (prepare port sink t r)
  unfolding prepare
  prepare-locks wireless_comm r h =
      or_return-Ends (HasLocks r.locks) (HasLocks n) (fuji_get_events port r) _
        (get_events-HasLocks port r) (λ r1 rc e. e ∙ h) (λ r1 e. e ∙ h)
  prepare-locks t r h = h

module _ {W : Type 0} (port : Port W) (sink : Sink W) (handle : ℕ) where
  -- On every path on which a download returns, over any transport and whatever camera, frontend and
  -- receiver do, the mutex is held as often as before.
  pub download_file-locks :
      (r r' : PtpRuntime W) (rc : Rc)
      → fuji_download_file_ex port sink r handle ≡ some (r', rc)
      → r'.locks ≡ r.locks
  unfolding fuji_download_file_ex
  download_file-locks r r' rc e =
      Ends-at (HasLocks r.locks) (fuji_download_file_ex port sink r handle) r' rc
        (or_return-Ends (HasLocks r.locks) (HasLocks r.locks) (prepare port sink r.fuji.transport r)
          _ (prepare-locks port sink r.locks r.fuji.transport r refl) (λ r1 rc h. h)
          (λ r1 h.
            download_locked-locks port sink r.locks (ptp_mutex_lock r1) handle
              (ap (λ (l : ℕ). l + 1) h)))
        e
