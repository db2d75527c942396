-- ===== src/Fuji/Download/Forgets.antt =====
-- The clean-up of a download over `FUJI_FEATURE_WIRELESS_COMM` (lib/fuji.c: `fuji_download_file_ex`).
use libfuji.Common.{sym, subst, ℕ, ◌≡◌, ◌∙◌, ap, true, none, some}
use libfuji.Fuji.Session.{
  FujiTransport, ◌or_return◌, ptp_mutex_lock, Rc, ok, canceled, wireless_comm, PtpRuntime, Port,
  Result,
}
use libfuji.Fuji.Events.{fuji_get_events}
use libfuji.Fuji.Download.{
  Sink, download_loop, prepare, finish, leave, download_locked, fuji_download_file_ex,
}

-- A camera whose events and properties work, and whose events leave the transport alone.
pub record IsResponsive {W : Type 0} (port : Port W) (handle : ℕ) : Type 0 where
  pub events :
      (r : PtpRuntime W)
      → (r' : PtpRuntime W) × (fuji_get_events port r ≡ some (r', ok))
        × (r'.fuji.transport ≡ r.fuji.transport)
  pub sets : (code value : ℕ) (w : W) → (port.set_prop_value16 code value w).1 ≡ ok
  pub info : (w : W) → (port.get_object_info handle w).1 ≡ ok

-- The function returns 0.
abbrev Succeeds : {W : Type 0} → Result W → Type 0
Succeeds none = ⊥
Succeeds (some (r, rc)) = rc ≡ ok

succeeded : {W : Type 0} (o : Result W) → Succeeds o → (r' : PtpRuntime W) × (o ≡ some (r', ok))
succeeded none h = absurd h
succeeded (some (r', rc)) h = (r', ap (λ (e : Rc). some (r', e)) h)

module _ {W : Type 0} {port : Port W} (sink : Sink W) {handle : ℕ} (c : IsResponsive port handle)
    (cancels : (w : W) → (port.check_thread_cancel w).1 ≡ true) where
  finish-Succeeds : (r : PtpRuntime W) (rc : Rc) → Succeeds (finish port sink wireless_comm r rc)
  unfolding finish
  finish-Succeeds r rc = let (r', e, _) = c.events r in rw e (c.sets 0xd227 0 r'.world)

  over_comm :
      (t : FujiTransport) (r : PtpRuntime W) (rc : Rc)
      → t ≡ wireless_comm
      → Succeeds (finish port sink t r rc)
  over_comm t r rc v =
      subst (λ (t : FujiTransport). Succeeds (finish port sink t r rc)) (sym v)
        (finish-Succeeds r rc)

  locked-Succeeds :
      (r : PtpRuntime W)
      → r.fuji.transport ≡ wireless_comm
      → Succeeds (download_locked port sink r handle)
  unfolding download_locked download_loop leave
  locked-Succeeds r v =
      rw (download_locked, c.info r.world, download_loop, cancels _, leave)
        (over_comm r.fuji.transport _ canceled v)

  prepared-Succeeds :
      (r : PtpRuntime W)
      → r.fuji.transport ≡ wireless_comm
      → Succeeds (
          prepare port sink wireless_comm r or_return λ r1.
          download_locked port sink (ptp_mutex_lock r1) handle)
  unfolding prepare
  prepared-Succeeds r v = let (r1, e, u) = c.events r in rw e (locked-Succeeds _ (u ∙ v))

  -- Over `FUJI_FEATURE_WIRELESS_COMM`, from a camera that responds, a download that the user cancels at
  -- once returns 0 all the same.
  pub canceled_download-ok :
      (r : PtpRuntime W)
      → r.fuji.transport ≡ wireless_comm
      → (r' : PtpRuntime W) × (fuji_download_file_ex port sink r handle ≡ some (r', ok))
  unfolding fuji_download_file_ex
  canceled_download-ok r v = succeeded (fuji_download_file_ex port sink r handle) (
      subst
        (λ (t : FujiTransport). Succeeds (
          prepare port sink t r or_return λ r1.
          download_locked port sink (ptp_mutex_lock r1) handle))
        (sym v) (prepared-Succeeds r v))
