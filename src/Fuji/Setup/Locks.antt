-- ===== src/Fuji/Setup/Locks.antt =====
-- The mutex around everything that `fuji_setup` and the switches of the view do (lib/fuji.c).
use libfuji.Common.{List, ℕ, some, ◌≡◌, refl}
use libfuji.Fuji.Session.{Rc, PtpRuntime, Port}
use libfuji.Fuji.Ends.{Ends, Ends-at}
use libfuji.Fuji.Events.Locks.{HasLocks, SameLocks, SameLocks-IsEventFrame}
use libfuji.Fuji.Handshake.{CommandSocket}
use libfuji.Fuji.Liveview.{
  LiveviewSockets, fuji_config_liveview, fuji_end_liveview, fuji_config_image_gallery,
}
use libfuji.Fuji.Liveview.Keeps.{
  IsViewFrame, config_liveview-Keeps, end_liveview-Keeps, config_image_gallery-Keeps,
}
use libfuji.Fuji.Setup.{fuji_setup}
use libfuji.Fuji.Setup.Keeps.{IsSetupFrame, setup-Keeps}

SameLocks-IsViewFrame : {W : Type 0} → IsViewFrame {W = W} SameLocks
SameLocks-IsViewFrame = record {
  events = SameLocks-IsEventFrame;
  notes_transaction = λ r v. refl;
  notes_sockets = λ r. refl;
  notes_version = λ r v. refl;
  notes_ex_version = λ r v. refl;
}

SameLocks-IsSetupFrame : {W : Type 0} → IsSetupFrame {W = W} SameLocks
SameLocks-IsSetupFrame = record {
  mode = record { view = SameLocks-IsViewFrame; waits = λ r. refl; names_storage = λ r name. refl };
  counts_session = λ r v. refl;
  notes_fuji = λ r f. refl;
}

module _ {W : Type 0} (port : Port W) (r r' : PtpRuntime W) (rc : Rc) where
  -- On every path on which `fuji_setup` returns, whatever the camera, the sockets and the user do, the
  -- mutex is held as often as before.
  pub setup-locks :
      (socket : CommandSocket W) (sockets : LiveviewSockets W) (fuel : ℕ) (client_name : List ℕ)
      → fuji_setup port socket sockets fuel client_name r ≡ some (r', rc)
      → r'.locks ≡ r.locks
  setup-locks socket sockets fuel client_name e =
      Ends-at (HasLocks r.locks) (fuji_setup port socket sockets fuel client_name r) r' rc
        ((setup-Keeps SameLocks-IsSetupFrame port socket sockets fuel client_name).at r) e

module _ {W : Type 0} (port : Port W) (r : PtpRuntime W) where
  -- So it is where live view is entered, where it is left, and where the gallery is entered.
  pub view-locks :
      (sockets : LiveviewSockets W)
      → Ends (HasLocks r.locks) (fuji_config_liveview port sockets r)
        × Ends (HasLocks r.locks) (fuji_end_liveview port r)
        × Ends (HasLocks r.locks) (fuji_config_image_gallery port r)
  view-locks sockets = (
    (config_liveview-Keeps SameLocks-IsViewFrame port sockets).at r,
    (end_liveview-Keeps SameLocks-IsViewFrame port).at r,
    (config_image_gallery-Keeps SameLocks-IsViewFrame port).at r,
  )
