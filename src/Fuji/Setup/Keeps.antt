-- ===== src/Fuji/Setup/Keeps.antt =====
-- What the parts of `fuji_setup` (lib/fuji.c) keep of the session.
use libfuji.Common.{if◌then◌else◌, ℕ, zero, suc, List}
use libfuji.Fuji.Session.{
  Rc, ok, check_code, runtime_err, StorageName, PtpRuntime, PtpUserPriv, Port,
}
use libfuji.Fuji.Events.{fuji_get_events}
use libfuji.Fuji.Events.Keeps.{get_events-Keeps}
use libfuji.Fuji.Modes.{fuji_config_init_mode, preferred_mode}
use libfuji.Fuji.Versions.Keeps.{config_version-Keeps, xapp_config_gallery-Keeps}
use libfuji.Fuji.Handshake.{
  CommandSocket, receive, handshake_unlocked, ptpip_fuji_connect_handshake,
}
use libfuji.Fuji.Liveview.{LiveviewSockets}
use libfuji.Fuji.Liveview.Keeps.{
  IsViewFrame, config_liveview-Keeps, end_liveview-Keeps, config_image_gallery-Keeps,
}
use libfuji.Fuji.Setup.{
  is_waiting, unless_canceled, retry, after_open, open_session, wait_for_access, is_waiting,
  get_version, read_versions, pick_transport, tolerated, name_card, name_storage, set_features_up,
  set_mode_up, forget_camera, set_session_up, fuji_setup,
}
use libfuji.Fuji.Steps.{reading, finished, Step, run, ◌and_then◌, finished, assign}
use libfuji.Fuji.Steps.Keeps.{
  IsFrame, Keeps, Keeps-and_then, Keeps-assign, Keeps-assign_fuji, keeps_rules,
}

-- A relation that does not look at what the last part of a setup notes down.
pub record IsModeFrame {W : Type 0} (R : PtpRuntime W → PtpRuntime W → Type 0) : Type 0 where
  pub view : IsViewFrame R
  pub waits : (r : PtpRuntime W) → R r (record r { wait_for_response = 255 })
  pub names_storage :
      (r : PtpRuntime W) (name : StorageName)
      → R r (record r { fuji = record r.fuji { storage_device_name = name } })

module _ {W : Type 0} {R : PtpRuntime W → PtpRuntime W → Type 0} (c : IsModeFrame R)
    (port : Port W) where
  mode_frame : IsFrame R
  mode_frame = c.view.events.frame

  set_mode-Keeps :
      (mode : ℕ) → Keeps R (run (port.set_prop_value16 0xdf01 mode) and_then fuji_get_events port)
  set_mode-Keeps mode = search (keeps_rules, get_events-Keeps, c.view.events, mode_frame)

  pub config_init_mode-Keeps : Keeps R (fuji_config_init_mode port)
  unfolding fuji_config_init_mode ◌and_then◌ run assign
  config_init_mode-Keeps = record {
    at = λ r.
        (Keeps-and_then mode_frame (assign (λ s. record s { wait_for_response = 255 }))
            (run (port.set_prop_value16 0xdf01 (preferred_mode r.fuji))
              and_then fuji_get_events port)
            (Keeps-assign mode_frame _ c.waits) (set_mode-Keeps (preferred_mode r.fuji))).at
          r;
  }

  tolerated-Keeps : (rc : Rc) → Keeps R (tolerated rc)
  unfolding tolerated
  tolerated-Keeps check_code = search (keeps_rules, mode_frame)
  tolerated-Keeps rc = search (keeps_rules, mode_frame)

  name_card-Keeps : (name : StorageName) → Keeps R (name_card name)
  unfolding name_card
  name_card-Keeps name = search (Keeps-assign_fuji, mode_frame, c.names_storage)

  name_storage-Keeps : (rc : Rc) → Keeps R (name_storage port rc)
  unfolding name_storage
  name_storage-Keeps ok = search (keeps_rules, name_card-Keeps, mode_frame)
  name_storage-Keeps check_code = search (name_card-Keeps)
  name_storage-Keeps rc = search (keeps_rules, mode_frame)

  set_features_up-Keeps : (sockets : LiveviewSockets W) → Keeps R (set_features_up port sockets)
  unfolding set_features_up
  set_features_up-Keeps sockets =
      search
        (
          keeps_rules, config_version-Keeps, name_storage-Keeps, config_liveview-Keeps,
          end_liveview-Keeps, config_image_gallery-Keeps, c.view, mode_frame,
        )
        depth 16

  pub set_mode_up-Keeps : (sockets : LiveviewSockets W) → Keeps R (set_mode_up port sockets)
  unfolding set_mode_up
  set_mode_up-Keeps sockets =
      search
        (
          keeps_rules, config_init_mode-Keeps, xapp_config_gallery-Keeps, c.view.notes_ex_version,
          tolerated-Keeps, set_features_up-Keeps, mode_frame,
        )
        depth 16

-- A relation that looks at nothing that a setup notes down.
pub record IsSetupFrame {W : Type 0} (R : PtpRuntime W → PtpRuntime W → Type 0) : Type 0 where
  pub mode : IsModeFrame R
  pub counts_session : (r : PtpRuntime W) (v : ℕ) → R r (record r { session = v })
  pub notes_fuji : (r : PtpRuntime W) (f : PtpUserPriv) → R r (record r { fuji = f })

module _ {W : Type 0} {R : PtpRuntime W → PtpRuntime W → Type 0} (c : IsSetupFrame R)
    (port : Port W) where
  setup_frame : IsFrame R
  setup_frame = c.mode.view.events.frame

  handshake-Keeps :
      (socket : CommandSocket W) (name : List ℕ)
      → Keeps R (ptpip_fuji_connect_handshake socket name)
  unfolding ptpip_fuji_connect_handshake handshake_unlocked receive
  handshake-Keeps socket name = search (keeps_rules, setup_frame) depth 20

  unless_canceled-Keeps : (f : Step W) → Keeps R f → Keeps R (unless_canceled port f)
  unfolding unless_canceled
  unless_canceled-Keeps f h = search (keeps_rules, setup_frame) depth 8

  retry-Keeps :
      (socket : CommandSocket W) (name : List ℕ) (rc : Rc) → Keeps R (retry port socket name rc)
  unfolding retry
  retry-Keeps socket name ok = search (keeps_rules, setup_frame)
  retry-Keeps socket name runtime_err = search (unless_canceled-Keeps, handshake-Keeps)
  retry-Keeps socket name rc = search (unless_canceled-Keeps, handshake-Keeps)

  after_open-Keeps : (rc : Rc) → Keeps R (after_open port rc)
  unfolding after_open
  after_open-Keeps check_code = search (keeps_rules, setup_frame)
  after_open-Keeps rc = search (keeps_rules, setup_frame)

  open_session-Keeps : Keeps R (open_session port)
  unfolding open_session
  open_session-Keeps =
      search (keeps_rules, Keeps-assign, c.counts_session, after_open-Keeps, setup_frame) depth 12

  polled-Keeps :
      (rest : Step W)
      → Keeps R rest
      → Keeps R
          (reading (λ r. if is_waiting r then fuji_get_events port and_then rest else finished ok))
  polled-Keeps rest h = search (keeps_rules, get_events-Keeps, c.mode.view.events, setup_frame)

  wait_for_access-Keeps : (fuel : ℕ) → Keeps R (wait_for_access port fuel)
  unfolding wait_for_access
  wait_for_access-Keeps zero = search (keeps_rules, setup_frame)
  wait_for_access-Keeps (suc fuel) =
      polled-Keeps (wait_for_access port fuel) (wait_for_access-Keeps fuel)

  set_session_up-Keeps :
      (sockets : LiveviewSockets W) (fuel : ℕ) → Keeps R (set_session_up port sockets fuel)
  unfolding set_session_up forget_camera read_versions get_version pick_transport
  set_session_up-Keeps sockets fuel =
      search
        (
          keeps_rules, Keeps-assign_fuji, c.notes_fuji, get_events-Keeps, c.mode.view.events,
          wait_for_access-Keeps, set_mode_up-Keeps, c.mode, setup_frame,
        )
        depth 30

  pub setup-Keeps :
      (socket : CommandSocket W) (sockets : LiveviewSockets W) (fuel : ℕ) (client_name : List ℕ)
      → Keeps R (fuji_setup port socket sockets fuel client_name)
  unfolding fuji_setup
  setup-Keeps socket sockets fuel client_name =
      search
        (
          keeps_rules, handshake-Keeps, retry-Keeps, open_session-Keeps, set_session_up-Keeps,
          setup_frame,
        )
        depth 12
