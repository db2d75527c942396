-- ===== src/Fuji/Versions.antt =====
-- Agreeing on versions, and the app's gallery (lib/fuji.c: `fuji_config_version`,
-- `fuji_xapp_config_gallery`).
pub mod Keeps
use libfuji.Common.{ℕ, ◌-◌, ◌^◌, [], ◌∷◌, ◌==◌, if◌then◌else◌}
use libfuji.Fuji.Session.{ok, PtpRuntime, Port}
use libfuji.Fuji.Modes.{is_xapp}
use libfuji.Fuji.Steps.{
  Step, ◌and_then◌, finished, run, reading, locked, assign_fuji, read_prop, set_prop, set_prop16,
  with_value,
}

-- `-1` in an `int`.
abbrev pub minus_one : ℕ
minus_one = 2 ^ 32 - 1

module _ {W : Type 0} (port : Port W) where
  -- The property is set to the value that the camera has for it.
  unfoldable pub accept_prop : ℕ → Step W
  accept_prop code = read_prop port code and_then with_value port (λ v. set_prop port code v)

  -- `FUJI_PC_AUTO_SAVE` is 3, and `FUJI_CAM_CONNECT_REMOTE_VER` 0x2000c.
  unfoldable pub config_version_unlocked : Step W
  config_version_unlocked = reading (λ r.
      if is_xapp r.fuji.transport
      then finished ok
      else if r.fuji.camera_state == 3
      then accept_prop 0xdf23
      else if r.fuji.remote_version == minus_one
      then accept_prop 0xdf22
      else set_prop port 0xdf24 0x2000c)

  unfoldable pub fuji_config_version : Step W
  fuji_config_version = locked config_version_unlocked

  unfoldable pub fuji_xapp_config_gallery : Step W
  fuji_xapp_config_gallery =
      read_prop port 0xdf28
      and_then with_value port (λ val.
        assign_fuji (λ f. record f { remote_image_view_ex_version = val })
        and_then set_prop port 0xdf28 val)
      and_then set_prop16 port 0xd226 0
      and_then set_prop16 port 0xd227 0
      and_then run (port.send 0x9054 (0x10000001 ∷ []))
      and_then run (port.send 0x9055 (0x10000001 ∷ []))
      and_then run (port.send 0x9050 [])
      and_then read_prop port 0xd22b
      and_then run (port.send 0x9053 (0 ∷ 30000 ∷ []))
      and_then read_prop port 0xd620
      and_then read_prop port 0xd621
