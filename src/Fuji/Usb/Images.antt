-- ===== src/Fuji/Usb/Images.antt =====
-- A conversion for which the camera gives no photo (lib/fuji_usb.c: `fuji_process_raf`).
use libfuji.Common.{ℕ, zero, suc, ◌≡◌, refl, String, Option, some, []}
use libfuji.Fuji.Session.{ok, PtpRuntime, Port, set_world}
use libfuji.Fuji.Steps.{◌and_then◌, finished, calling}
use libfuji.Fp.Xml.Profile.{XmlRoot}
use libfuji.Fuji.Usb.{UsbPort}
use libfuji.Fuji.Usb.Raf.{Junk, wait_for_image, take_image}

module _ {W : Type 0} (port : Port W) (usb_port : UsbPort W)
    (ezxml_parse_file : String → Option XmlRoot) (junk : Junk) where
  -- The listing, as often as the loop asks for it.
  unfoldable pub polled : ℕ → W → W
  polled zero w = w
  polled (suc n) w = polled n (usb_port.list_objects w).0

  -- A camera that never lists an object is asked `left` times, and then the loop returns 0,
  -- without an image and without having written a file.
  pub wait_for_image-empty :
      ((w : W) → (usb_port.list_objects w).1 ≡ record { rc = ok; list = [] })
      → (left : ℕ) (path : String) (r : PtpRuntime W)
      → wait_for_image port usb_port ezxml_parse_file junk left path r
        ≡ some (set_world r (polled left r.world), ok)
  unfolding wait_for_image polled finished calling ◌and_then◌ take_image
  wait_for_image-empty h zero path r = refl
  wait_for_image-empty h (suc left) path r =
      let s : PtpRuntime W = set_world r (usb_port.list_objects r.world).0 in
      rw h (wait_for_image-empty h left path s)
