-- ===== src/Fuji/Liveview/Sockets.antt =====
-- The sockets of live view (lib/fuji.c: `fuji_config_liveview`).
use libfuji.Common.{none, ◌≡◌, refl, ◌∙◌, Bool, true, false, not, some, ◌==◌}
use libfuji.Fuji.Session.{
  check_code, runtime_err, canceled, other, Rc, ok, PtpRuntime, Port, Result, ◌or_return◌,
}
use libfuji.Fuji.Ends.{Ends}
use libfuji.Fuji.Modes.{is_xapp}
use libfuji.Fuji.Versions.{minus_one}
use libfuji.Fuji.Liveview.{
  enter_remote, open_once, LiveviewSockets, prepare_xapp, begin_remote, fuji_config_liveview,
}
use libfuji.Fuji.Liveview.Keeps.{IsViewFrame, prepare_xapp-Keeps, begin_remote-Keeps}
use libfuji.Fuji.Steps.{Step, ◌and_then◌, reading, when}
use libfuji.Fuji.Steps.Keeps.{Keeps, keeps_rules}

abbrev IsOpen : {W : Type 0} → PtpRuntime W → Type 0
IsOpen r = r.fuji.opened_liveview_sockets ≡ true

-- Sockets that are noted as open stay so, and the remote version stays.
abbrev StaysOpen : {W : Type 0} → PtpRuntime W → PtpRuntime W → Type 0
StaysOpen r s = (IsOpen r → IsOpen s) × (s.fuji.remote_version ≡ r.fuji.remote_version)

StaysOpen-IsViewFrame : {W : Type 0} → IsViewFrame {W = W} StaysOpen
StaysOpen-IsViewFrame = record {
  events = record {
    frame = record {
      reflexive = λ r. (λ h. h, refl);
      transitive = λ r s t (f, a) (g, b). (λ h. g (f h), b ∙ a);
      outside = λ r w. (λ h. h, refl);
      mutex = λ r s h. h;
    };
    tells_state = λ r v. (λ h. h, refl);
    tells_mode = λ r v. (λ h. h, refl);
    tells_count = λ r v. (λ h. h, refl);
  };
  notes_transaction = λ r v. (λ h. h, refl);
  notes_sockets = λ r. (λ h. refl, refl);
  notes_version = λ r v. (λ h. h, refl);
  notes_ex_version = λ r v. (λ h. h, refl);
}

module _ {W : Type 0} where
  -- Two continuations that agree where the first call can lead.
  or_return-agree :
      (P : PtpRuntime W → Rc → Type 0) (o : Result W) (g g' : Step W)
      → Ends P o
      → ((s : PtpRuntime W) → P s ok → g s ≡ g' s)
      → o or_return g ≡ o or_return g'
  or_return-agree P none g g' h k = refl
  or_return-agree P (some (s, ok)) g g' h k = k s h
  or_return-agree P (some (s, check_code)) g g' h k = refl
  or_return-agree P (some (s, runtime_err)) g g' h k = refl
  or_return-agree P (some (s, canceled)) g g' h k = refl
  or_return-agree P (some (s, other x)) g g' h k = refl

  and_then-agree :
      (f g g' : Step W) (r : PtpRuntime W)
      → Keeps StaysOpen f
      → IsOpen r
      → ((s : PtpRuntime W) → IsOpen s → g s ≡ g' s)
      → (f and_then g) r ≡ (f and_then g') r
  unfolding ◌and_then◌
  and_then-agree f g g' r k h a =
      or_return-agree (λ s rc. StaysOpen r s) (f r) g g' (k.at r) (λ s p. a s (p.0 h))

module _ {W : Type 0} (port : Port W) where
  maybe_prepare :
      Keeps StaysOpen (reading (λ r. when (is_xapp r.fuji.transport) (prepare_xapp port)))
  maybe_prepare =
      search
        (keeps_rules, prepare_xapp-Keeps, StaysOpen-IsViewFrame, StaysOpen-IsViewFrame.events.frame)

  open_once-agree :
      (sockets sockets' : LiveviewSockets W) (s : PtpRuntime W)
      → IsOpen s
      → open_once port sockets s ≡ open_once port sockets' s
  unfolding open_once reading when
  open_once-agree sockets sockets' s h = rw h refl

  enter_remote-agree :
      (sockets sockets' : LiveviewSockets W) (s : PtpRuntime W)
      → IsOpen s
      → enter_remote port sockets s ≡ enter_remote port sockets' s
  unfolding enter_remote reading when
  enter_remote-agree sockets sockets' s h = split (not (s.fuji.remote_version == minus_one))
    where
      split :
          (b : Bool)
          → when b (begin_remote port and_then open_once port sockets) s
            ≡ when b (begin_remote port and_then open_once port sockets') s
      split true =
          and_then-agree (begin_remote port) _ _ s (begin_remote-Keeps StaysOpen-IsViewFrame port) h
            (open_once-agree sockets sockets')
      split false = refl

  -- Once its sockets are noted as open, entering live view does not depend on them: whatever connecting
  -- would do, nothing connects again.
  pub config_liveview-sockets :
      (sockets sockets' : LiveviewSockets W) (r : PtpRuntime W)
      → r.fuji.opened_liveview_sockets ≡ true
      → fuji_config_liveview port sockets r ≡ fuji_config_liveview port sockets' r
  unfolding fuji_config_liveview
  config_liveview-sockets sockets sockets' r h =
      and_then-agree (reading (λ r. when (is_xapp r.fuji.transport) (prepare_xapp port)))
        (enter_remote port sockets) (enter_remote port sockets') r maybe_prepare h
        (enter_remote-agree sockets sockets')
