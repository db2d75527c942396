-- ===== src/Fuji/Shutdown.antt =====
-- Shutting a connection down (lib/fuji.c: `ptp_report_error`). Messages are left out.
pub mod Once
pub mod Safe
pub mod Threads
use libfuji.Common.{
  inl, inr, Bool-cases, ℕ, ◌≡◌, refl, Bool, true, false, List, [], ◌∷◌, ◌==◌, if◌then◌else◌, arith,
}
use libfuji.Fuji.Session.{
  ConnectionType, ptp_ip, ptp_ip_usb, ptp_usb, PtpRuntime, set_world, ptp_mutex_lock,
  ptp_mutex_unlock,
}

-- libpict's calls that close a connection.
pub record Closing (W : Type 0) : Type 0 where
  pub close_session : W → W
  pub write : List ℕ → W → W
  pub ptpip_device_close : W → W
  pub ptp_device_close : W → W

module _ {W : Type 0} (closing : Closing W) where
  unfoldable pub close_device : ConnectionType → W → W
  close_device ptp_ip_usb w =
      closing.ptpip_device_close (closing.write (8 ∷ 0 ∷ 0 ∷ 0 ∷ 255 ∷ 255 ∷ 255 ∷ 255 ∷ []) w)
  close_device ptp_usb w = closing.ptp_device_close w
  close_device ptp_ip w = w

  -- With the mutex taken.
  unfoldable pub shut_down : ℕ → PtpRuntime W → PtpRuntime W
  shut_down code r =
      let w : W = if code == 0 then closing.close_session r.world else r.world in
      record r {
        world = close_device r.connection_type w;
        operation_kill_switch = true;
        io_kill_switch = true;
      }

  unfoldable pub ptp_report_error : ℕ → PtpRuntime W → PtpRuntime W
  ptp_report_error code r =
      if r.io_kill_switch
      then r
      else let r1 : PtpRuntime W = ptp_mutex_lock r in
        if r1.io_kill_switch then ptp_mutex_unlock r1 else ptp_mutex_unlock (shut_down code r1)

  -- One report shuts the connection down and gives the mutex back; another one, for whatever reason, changes
  -- nothing any more.
  pub report_error_once :
      (code code' : ℕ) (r : PtpRuntime W)
      → ((ptp_report_error code r).io_kill_switch ≡ true)
        × ((ptp_report_error code r).locks ≡ r.locks)
        × (ptp_report_error code' (ptp_report_error code r) ≡ ptp_report_error code r)
  unfolding ptp_report_error shut_down
  report_error_once code code' r = elim (Bool-cases r.io_kill_switch) [
    | inl h ↦ (rw h refl, rw h refl, rw h refl)
    | inr h ↦ (rw h refl, rw h (omega arith), rw h refl)
  ]
