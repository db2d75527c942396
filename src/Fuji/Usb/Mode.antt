-- ===== src/Fuji/Usb/Mode.antt =====
-- The transport that `fujiusb_setup` (lib/fuji_usb.c) decides on.
use libfuji.Common.{ℕ, ◌≡◌, ◌≢◌, refl, subst, some, ◌==◌, Bool-cases, inl, inr, arith}
use libfuji.Fuji.Session.{
  Rc, ok, check_code, runtime_err, canceled, other, PtpRuntime, Port, set_world, FujiTransport,
  usb_tether_shoot, raw_conv, webcam, usb,
}
use libfuji.Fuji.Handshake.{CommandSocket}
use libfuji.Fuji.Ends.{Ends, Ends-at}
use libfuji.Fuji.Steps.{◌and_then◌, finished, run, reading, on_result, assign_fuji, read_prop}
use libfuji.Fuji.Steps.Ensures.{Ensures, Ensures-last}
use libfuji.Fuji.Usb.{UsbPort, mode_transport, usb_mode_read, fujiusb_setup, fujitether_setup}

-- The USB modes, in the camera's numbering: 5 is tethering, 6 is RAW conversion and backups, 8 is
-- the webcam; any other is taken as a plain PTP device.
pub data IsModeOf : ℕ → FujiTransport → Type 0 where
  tethers : IsModeOf 5 usb_tether_shoot
  converts : IsModeOf 6 raw_conv
  films : IsModeOf 8 webcam
  plain : {mode : ℕ} → mode ≢ 5 → mode ≢ 6 → mode ≢ 8 → IsModeOf mode usb

mode_transport-IsModeOf : (mode : ℕ) → IsModeOf mode (mode_transport mode)
unfolding mode_transport
mode_transport-IsModeOf mode = elim (Bool-cases (mode == 5)) [
  | inl a ↦
      let e : 5 ≡ mode = ground (arith, a) in subst (λ m. IsModeOf m (mode_transport m)) e tethers
  | inr a ↦ elim (Bool-cases (mode == 6)) [
    | inl b ↦
        let e : 6 ≡ mode = ground (arith, b) in
        subst (λ m. IsModeOf m (mode_transport m)) e converts
    | inr b ↦ elim (Bool-cases (mode == 8)) [
      | inl c ↦
          let e : 8 ≡ mode = ground (arith, c) in subst (λ m. IsModeOf m (mode_transport m)) e films
      | inr c ↦
          rw (a, b, c)
            (plain (λ e. ground (arith, a, e)) (λ e. ground (arith, b, e))
              (λ e. ground (arith, c, e)))
    ]
  ]
]

module _ {W : Type 0} (port : Port W) (usb_port : UsbPort W) where
  -- The outside `w'` is what a successful reading of the USB mode left, and the transport is the one
  -- of the mode that was read.
  abbrev pub HasReadMode : W → FujiTransport → Type 0
  HasReadMode w' t =
      (w : W) × (port.get_prop_value 0xd16e w ≡ (w', ok)) × IsModeOf (port.parse_prop_value w') t

  abbrev HasModeTransport : PtpRuntime W → Type 0
  HasModeTransport s = HasReadMode s.world s.fuji.transport

  mode_read :
      (w : W) (r : PtpRuntime W) (rc : Rc)
      → port.get_prop_value 0xd16e w ≡ (r.world, rc)
      → Ends (λ s rc'. rc' ≡ ok → HasModeTransport s) (usb_mode_read port usb_port rc r)
  unfolding usb_mode_read reading assign_fuji ◌and_then◌ finished
  mode_read w r ok h = λ e. (w, h, mode_transport-IsModeOf _)
  mode_read w r check_code h = λ e. absurd cc
  mode_read w r runtime_err h = λ e. absurd cc
  mode_read w r canceled h = λ e. absurd cc
  mode_read w r (other x) h = λ e. absurd cc

  read-Ensures :
      Ensures HasModeTransport (on_result (read_prop port 0xd16e) (usb_mode_read port usb_port))
  unfolding on_result run
  read-Ensures = record {
    at = λ r.
        mode_read r.world (set_world r (port.get_prop_value 0xd16e r.world).0)
          (port.get_prop_value 0xd16e r.world).1 refl;
  }

  setup-Ensures : Ensures HasModeTransport (fujiusb_setup port usb_port)
  unfolding fujiusb_setup
  setup-Ensures = search (Ensures-last, read-Ensures) depth 6

  -- Where `fujitether_setup` returns 0, whatever the kind of connection, its last call of the outside
  -- was a successful reading of the property 0xd16e, and the transport is that of the value read:
  -- tethering for 5, RAW conversion for 6, webcam for 8, and otherwise plain USB. A camera without
  -- the property is never set up with 0.
  pub tether_setup-transport :
      (socket : CommandSocket W) (client_name : _) (r r' : PtpRuntime W)
      → fujitether_setup port usb_port socket client_name r ≡ some (r', ok)
      → HasReadMode r'.world r'.fuji.transport
  unfolding fujitether_setup
  tether_setup-transport socket client_name r r' e =
      let whole : Ensures HasModeTransport (fujitether_setup port usb_port socket client_name) =
        Ensures-last HasModeTransport _ _ setup-Ensures in
      Ends-at (λ s rc. rc ≡ ok → HasModeTransport s) _ r' ok (whole.at r) e refl
