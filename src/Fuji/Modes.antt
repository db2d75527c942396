-- ===== src/Fuji/Modes.antt =====
-- The mode that a session asks for (lib/fuji.c: `fuji_config_init_mode`).
use libfuji.Common.{
  ℕ, ◌-◌, ◌^◌, ◌≡◌, ◌≢◌, ◌⊎◌, ◌↔◌, refl, ◌∙◌, Bool, true, false, not, ◌||◌, some, ◌==◌,
  if◌then◌else◌, arith,
}
use libfuji.Fuji.Session.{
  Rc, FujiTransport, xapp_wireless_comm, PtpUserPriv, PtpRuntime, Port, Result, ◌or_return◌, call,
}
use libfuji.Fuji.Ends.{Ends-at, Ends-imp, or_return-Ends}
use libfuji.Fuji.Events.{fuji_get_events}
use libfuji.Fuji.Events.Locks.{HasLocks, get_events-HasLocks}

abbrev pub is_xapp : FujiTransport → Bool
is_xapp xapp_wireless_comm = true
is_xapp t = false

-- `FUJI_MODE_REMOTE_IMG_VIEW_XAPP` is 20, `FUJI_REMOTE_MODE` 5, `FUJI_VIEW_MULTIPLE` 1,
-- `FUJI_VIEW_ALL_IMGS` 2 and `FUJI_OLD_REMOTE` 3; of the camera's states, `FUJI_REMOTE_ACCESS` is 6,
-- `FUJI_MULTIPLE_TRANSFER` 1, `FUJI_FULL_ACCESS` 2 and `FUJI_PC_AUTO_SAVE` 3.
unfoldable pub preferred_mode : PtpUserPriv → ℕ
preferred_mode fuji =
    if is_xapp fuji.transport
    then 20
    else if not (fuji.remote_version == 2 ^ 32 - 1) || fuji.camera_state == 6
    then 5
    else if fuji.camera_state == 1
    then 1
    else if fuji.camera_state == 2
    then 2
    else if fuji.camera_state == 3
    then 3
    else 2

unfoldable pub fuji_config_init_mode : {W : Type 0} → Port W → PtpRuntime W → Result W
fuji_config_init_mode port r =
    let r' = record r { wait_for_response = 255 } in
    call r' (port.set_prop_value16 0xdf01 (preferred_mode r'.fuji) r'.world)
    or_return fuji_get_events port

-- The remote mode is asked for exactly outside the app's transport, from a camera that told a remote
-- version or has granted remote access; and the mode for selected images exactly outside both, from a
-- camera that wants to transfer them.
pub preferred_mode_iff :
    (fuji : PtpUserPriv)
    → ((preferred_mode fuji ≡ 5) ↔ (
        (is_xapp fuji.transport ≡ false)
        × ((fuji.remote_version ≢ 2 ^ 32 - 1) ⊎ (fuji.camera_state ≡ 6))))
      × ((preferred_mode fuji ≡ 1) ↔ (
          (is_xapp fuji.transport ≡ false)
          × (fuji.remote_version ≡ 2 ^ 32 - 1)
          × (fuji.camera_state ≡ 1)))
unfolding preferred_mode
preferred_mode_iff fuji = (ground arith, ground arith)

-- On every path on which `fuji_config_init_mode` returns, the mutex is held as often as before.
pub config_init_mode-locks :
    {W : Type 0} (port : Port W) (r r' : PtpRuntime W) (rc : Rc)
    → fuji_config_init_mode port r ≡ some (r', rc)
    → r'.locks ≡ r.locks
unfolding fuji_config_init_mode
config_init_mode-locks port r r' rc e =
    Ends-at (HasLocks r.locks) (fuji_config_init_mode port r) r' rc
      (or_return-Ends (HasLocks r.locks) (HasLocks r.locks)
        (call (record r { wait_for_response = 255 }) _) (fuji_get_events port) refl (λ r1 rc h. h)
        (λ r1 h.
          Ends-imp (HasLocks r1.locks) (HasLocks r.locks) (fuji_get_events port r1)
            (get_events-HasLocks port r1) (λ r2 rc k. k ∙ h)))
      e
