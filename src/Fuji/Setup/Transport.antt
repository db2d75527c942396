-- ===== src/Fuji/Setup/Transport.antt =====
-- Which transport a session is left with (lib/fuji.c: `fuji_setup`).
use libfuji.Common.{
  if-holds, List, some, sym, ℕ, ◌^◌, ◌≤◌, ◌<◌, ◌≡◌, refl, ◌∙◌, ap, Bool, true, false, ◌&&◌, ◌||◌,
  ltb, if◌then◌else◌, arith,
}
use libfuji.Fuji.Session.{ok, FujiTransport, PtpRuntime, Port}
use libfuji.Fuji.Ends.{Ends-at, Ends}
use libfuji.Fuji.Events.{is_wireless_tether, fuji_get_events}
use libfuji.Fuji.Handshake.{CommandSocket, ptpip_fuji_connect_handshake, is_negative}
use libfuji.Fuji.Liveview.{LiveviewSockets}
use libfuji.Fuji.Modes.{is_xapp}
use libfuji.Fuji.Setup.{
  retry, open_session, fuji_setup, pick_transport, set_mode_up, forget_camera, wait_for_access,
  read_versions, set_session_up,
}
use libfuji.Fuji.Setup.Keeps.{IsModeFrame, set_mode_up-Keeps}
use libfuji.Fuji.Steps.{Step, affect, on_result, finished, reading, when, assign_fuji}
use libfuji.Fuji.Steps.Ensures.{Ensures, Ensures-last, Ensures-first}

-- The transport and the remote version stay.
abbrev SameTransport : {W : Type 0} → PtpRuntime W → PtpRuntime W → Type 0
SameTransport r s =
    (s.fuji.transport ≡ r.fuji.transport) × (s.fuji.remote_version ≡ r.fuji.remote_version)

SameTransport-IsModeFrame : {W : Type 0} → IsModeFrame {W = W} SameTransport
SameTransport-IsModeFrame = record {
  view = record {
    events = record {
      frame = record {
        reflexive = λ r. (refl, refl);
        transitive = λ r s t (a, b) (c, d). (c ∙ a, d ∙ b);
        outside = λ r w. (refl, refl);
        mutex = λ r s h. h;
      };
      tells_state = λ r v. (refl, refl);
      tells_mode = λ r v. (refl, refl);
      tells_count = λ r v. (refl, refl);
    };
    notes_transaction = λ r v. (refl, refl);
    notes_sockets = λ r. (refl, refl);
    notes_version = λ r v. (refl, refl);
    notes_ex_version = λ r v. (refl, refl);
  };
  waits = λ r. (refl, refl);
  names_storage = λ r name. (refl, refl);
}

-- The app's transport comes with a remote version from 0x20007 on, as an `int`.
abbrev IsXappVersion : FujiTransport → ℕ → Type 0
IsXappVersion t v = is_xapp t ≡ true → (0x20007 ≤ v) × (v < 2 ^ 31)

abbrev IsVersioned : {W : Type 0} → PtpRuntime W → Type 0
IsVersioned r = IsXappVersion r.fuji.transport r.fuji.remote_version

module _ {W : Type 0} where
  pick_transport-Ensures : Ensures {W = W} IsVersioned pick_transport
  unfolding pick_transport reading when assign_fuji finished
  pick_transport-Ensures = record {
    at = λ r.
        let v : ℕ = r.fuji.remote_version in
        let old : Bool = (ltb v 0x20007 || is_negative v) && is_xapp r.fuji.transport in
        step r old (λ h x. ground arith);
  }
    where
      step :
          (r : PtpRuntime W) (b : Bool)
          → (b ≡ false → IsVersioned r)
          → Ends
              (λ s rc. rc ≡ ok → IsVersioned s)
              (when b (assign_fuji (λ f. record f { transport = FujiTransport.wireless_comm })) r)
      step r true h = λ _ x. cc
      step r false h = λ _. h refl

module _ {W : Type 0} (port : Port W) (sockets : LiveviewSockets W) where
  set_session_up-Ensures : (fuel : ℕ) → Ensures IsVersioned (set_session_up port sockets fuel)
  unfolding set_session_up
  set_session_up-Ensures fuel =
      let last = Ensures-last {W = W} IsVersioned in
      last forget_camera _ (
        last (fuji_get_events port) _ (
          last (wait_for_access port fuel) _ (
            last (read_versions port) _ (
              Ensures-first IsVersioned SameTransport pick_transport (set_mode_up port sockets)
                (λ r s (a, b) h x.
                  let (y, z) = h (ap is_xapp (sym a) ∙ x) in (omega (arith, b), omega (arith, b)))
                pick_transport-Ensures
                (set_mode_up-Keeps SameTransport-IsModeFrame port sockets)))))

  tether_is_not_xapp : (t : FujiTransport) (v : ℕ) → is_wireless_tether t ≡ true → IsXappVersion t v
  tether_is_not_xapp t v h x = ground arith

  after_open-Ensures :
      (fuel : ℕ)
      → Ensures IsVersioned (
          reading (λ r.
            if is_wireless_tether r.fuji.transport
            then finished ok
            else set_session_up port sockets fuel))
  unfolding reading finished
  after_open-Ensures fuel = record {
    at = λ r.
        if-holds (λ (f : Step W). Ends (λ s rc. rc ≡ ok → IsVersioned s) (f r))
          (is_wireless_tether r.fuji.transport) (finished ok) (set_session_up port sockets fuel)
          (λ h _. tether_is_not_xapp r.fuji.transport r.fuji.remote_version h)
          (λ h. (set_session_up-Ensures fuel).at r);
  }

  -- Where `fuji_setup` returns 0 and leaves the app's transport in place, the camera's remote version is at
  -- least 0x20007, and not negative as an `int`.
  pub setup-xapp_version :
      (socket : CommandSocket W) (fuel : ℕ) (client_name : List ℕ) (r r' : PtpRuntime W)
      → fuji_setup port socket sockets fuel client_name r ≡ some (r', ok)
      → is_xapp r'.fuji.transport ≡ true
      → (0x20007 ≤ r'.fuji.remote_version) × (r'.fuji.remote_version < 2 ^ 31)
  unfolding fuji_setup
  setup-xapp_version socket fuel client_name r r' e x =
      let last = Ensures-last {W = W} IsVersioned in
      let whole : Ensures IsVersioned (fuji_setup port socket sockets fuel client_name) =
        last
          (on_result (ptpip_fuji_connect_handshake socket client_name)
            (retry port socket client_name))
          _
          (last (affect socket.send_cam_name) _
            (last (open_session port) _ (after_open-Ensures fuel))) in
      Ends-at (λ s rc. rc ≡ ok → IsVersioned s) (fuji_setup port socket sockets fuel client_name r)
        r' ok (whole.at r) e refl x
