-- ===== src/Fuji/Usb/Devices.antt =====
-- Which device `fujiusb_try_connect` (lib/fuji_usb.c) opens.
use libfuji.Common.{
  ℕ, suc, ◌-◌, ◌≤◌, ◌^◌, ◌≡◌, ◌≢◌, refl, inl, inr, Option, none, some, List, [], ◌∷◌, ◌==◌,
  Bool-cases, if◌then◌else◌, get_elem?, arith,
}
use libfuji.Fuji.Session.{Rc, ptp_usb, usb, PtpRuntime}
use libfuji.Fuji.Steps.{◌and_then◌, finished, run, assign, on_result, calling, affect, assign_fuji}
use libfuji.Fuji.Usb.{
  PtpDeviceEntry, UsbPort, find_device, zeroed_priv, fuji_reset_ptp, open_found,
  fujiusb_try_connect,
}

-- Fujifilm's devices, in the order of the list.
unfoldable pub fuji_devices : List PtpDeviceEntry → List PtpDeviceEntry
fuji_devices [] = []
fuji_devices (d ∷ ds) = if d.vendor_id == 0x4cb then d ∷ fuji_devices ds else fuji_devices ds

-- What is asked for: the first of them for -1, otherwise the one with the number.
unfoldable pub requested : ℕ → List PtpDeviceEntry → Option PtpDeviceEntry
requested num list =
    if num == 2 ^ 32 - 1 then get_elem? (fuji_devices list) 0 else get_elem? (fuji_devices list) num

find-numbered :
    (num i : ℕ) (list : List PtpDeviceEntry)
    → num ≢ 2 ^ 32 - 1
    → i ≤ num
    → find_device num i list ≡ get_elem? (fuji_devices list) (num - i)
unfolding find_device fuji_devices
find-numbered num i [] n h = refl
find-numbered num i (d ∷ ds) n h =
    ground (arith, find-numbered num i ds n h, find-numbered num (suc i) ds n)

find-first :
    (i : ℕ) (list : List PtpDeviceEntry)
    → find_device (2 ^ 32 - 1) i list ≡ get_elem? (fuji_devices list) 0
unfolding find_device fuji_devices
find-first i [] = refl
find-first i (d ∷ ds) = ground (arith, find-first i ds)

find_device-requested :
    (num : ℕ) (list : List PtpDeviceEntry) → find_device num 0 list ≡ requested num list
unfolding requested
find_device-requested num list = elim (Bool-cases (num == 2 ^ 32 - 1)) [
  | inl e ↦ let same : num ≡ 2 ^ 32 - 1 = ground (arith, e) in rw (same) (find-first 0 list)
  | inr e ↦ rw e (ground (arith, e, find-numbered num 0 list))
]

module _ {W : Type 0} (usb_port : UsbPort W) where
  -- Opening the device, if there is one; the list is given back in the end.
  unfoldable pub opened : Option PtpDeviceEntry → W → W × Rc
  opened none w = (usb_port.free_device_list w, usb_port.no_device)
  opened (some d) w = let (w', rc) = usb_port.device_open d w in (usb_port.free_device_list w', rc)

  -- What the function does to the outside behind libpict's reset of the session.
  unfoldable pub connected : ℕ → W → W × Rc
  connected num w =
      let (w', list) = usb_port.device_list (usb_port.set_response_wait 3 w) in
      opened (requested num list) w'

  found :
      (o : Option PtpDeviceEntry) (r : PtpRuntime W)
      → open_found usb_port o r
        ≡ some (record r { world = (opened o r.world).0 }, (opened o r.world).1)
  unfolding open_found opened ◌and_then◌ affect finished on_result run
  found none r = refl
  found (some d) r = refl

  -- `fujiusb_try_connect` resets the session with libpict's reset, zeroes its own record but for the
  -- transport, which is plain USB, sets the connection to USB and the time to wait for a response,
  -- opens the device that is asked for, the first of Fujifilm's for -1 and otherwise the one with the
  -- given number among them, and gives the list back once, whatever becomes of it.
  pub try_connect_refines :
      (num : ℕ) (r : PtpRuntime W)
      → fujiusb_try_connect usb_port num r
        ≡ some (
          record (usb_port.reset r) {
            world = (connected num (usb_port.reset r).world).0;
            connection_type = ptp_usb;
            fuji = record zeroed_priv { transport = usb };
          },
          (connected num (usb_port.reset r).world).1,
        )
  unfolding fujiusb_try_connect fuji_reset_ptp connected ◌and_then◌ affect assign assign_fuji
      calling
  try_connect_refines num r =
      rw
        (find_device-requested num
          (usb_port.device_list (usb_port.set_response_wait 3 (usb_port.reset r).world)).1)
        (found _ _)
