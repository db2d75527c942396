-- ===== src/Fuji/DeviceInfo.antt =====
-- Asking the camera for its properties (lib/fuji.c: `fuji_get_device_info`, `fuji_config_device_info_routine`).
use libfuji.Common.{refl, [], ◌==◌, ◌&&◌, not}
use libfuji.Fuji.Session.{Rc, PtpRuntime, Port}
use libfuji.Fuji.Device.{Registered, panicked, registered, fuji_register_device_info}
use libfuji.Fuji.Ends.{Ends}
use libfuji.Fuji.Events.Locks.{HasLocks, SameLocks, SameLocks-IsFrame}
use libfuji.Fuji.Modes.{is_xapp}
use libfuji.Fuji.Versions.{minus_one}
use libfuji.Fuji.Steps.{
  Step, ◌and_then◌, finished, out_of_fuel, run, reading, when, on_result, locked, examining,
  assign_fuji,
}
use libfuji.Fuji.Steps.Keeps.{Keeps, Keeps-assign_fuji, keeps_rules}

module _ {W : Type 0} where
  -- The list is kept; `ptp_panic` does not return.
  unfoldable pub keep_list : Rc → Registered → Step W
  keep_list rc panicked = out_of_fuel
  keep_list rc (registered descs) =
      assign_fuji (λ f. record f { prop_desc_list = descs }) and_then finished rc

module _ {W : Type 0} (port : Port W) where
  -- The payload is read whether or not the command went well.
  unfoldable pub fuji_get_device_info : Step W
  fuji_get_device_info = locked (
      on_result (run (port.send 0x902b []))
        (λ rc. examining (λ w. fuji_register_device_info (port.payload w)) (keep_list rc)))

  -- `FUJI_PC_AUTO_SAVE` is 3.
  unfoldable pub fuji_config_device_info_routine : Step W
  fuji_config_device_info_routine = reading (λ r.
      when
        (not (r.fuji.remote_version == minus_one)
          && not (r.fuji.camera_state == 3)
          && not (is_xapp r.fuji.transport))
        fuji_get_device_info)

module _ {W : Type 0} (port : Port W) where
  keep_list-Keeps : (rc : Rc) (list : Registered) → Keeps {W = W} SameLocks (keep_list rc list)
  unfolding keep_list
  keep_list-Keeps rc panicked = search (keeps_rules, SameLocks-IsFrame)
  keep_list-Keeps rc (registered descs) =
      let same : (r : PtpRuntime W)
          → SameLocks r (record r { fuji = record r.fuji { prop_desc_list = descs } }) =
        λ r. refl in
      search (keeps_rules, Keeps-assign_fuji, same, SameLocks-IsFrame)

  config_routine-Keeps : Keeps {W = W} SameLocks (fuji_config_device_info_routine port)
  unfolding fuji_config_device_info_routine fuji_get_device_info
  config_routine-Keeps = search (keeps_rules, keep_list-Keeps, SameLocks-IsFrame) depth 10

  -- Wherever `fuji_config_device_info_routine` returns, whatever the payload says, the mutex is held as often as
  -- before.
  pub config_device_info_routine-HasLocks :
      (r : PtpRuntime W) → Ends (HasLocks r.locks) (fuji_config_device_info_routine port r)
  config_device_info_routine-HasLocks r = config_routine-Keeps.at r
