-- ===== src/Fuji/Usb/Sent.antt =====
-- What `fuji_process_raf` (lib/fuji_usb.c) sends to the camera, on top of the profile library.
use libfuji.Common.{
  ℕ, ◌^◌, ◌<◌, ◌≡◌, refl, ap, ◌∙◌, inl, inr, Option-cases, String, Option, some, List, get_elem?,
  length, read_u32, arith,
}
use libfuji.Fuji.Session.{Rc, PtpRuntime, Port, set_world}
use libfuji.Fuji.Steps.{examining, run, out_of_fuel}
use libfuji.Fp.Lookup.{Status, success, failure}
use libfuji.Fp.Profile.{FujiProfile, fp_apply_profile}
use libfuji.Fp.D185.Props.{D185Prop, all_props, get_prop}
use libfuji.Fp.D185.Codec.{fp_create_d185}
use libfuji.Fp.D185.Written.{create_d185-written}
use libfuji.Fp.Pack.{apply_fp1-shooting_condition}
use libfuji.Fp.Xml.Profile.{XmlRoot, fp_parse_fp1}
use libfuji.Fuji.Usb.{UsbPort}
use libfuji.Fuji.Usb.Raf.{Junk, send_created, send_profile}

first_prop : get_elem? all_props 0 ≡ some D185Prop.shooting_condition
first_prop = refl

module _ {W : Type 0} (port : Port W) (usb_port : UsbPort W)
    (ezxml_parse_file : String → Option XmlRoot) (junk : Junk) where
  -- Where sending a profile returns, `fp_create_d185` has succeeded, and its bytes were sent.
  send_profile-created :
      (fp : FujiProfile) (r r' : PtpRuntime W) (rc : Rc)
      → send_profile port usb_port ezxml_parse_file junk fp r ≡ some (r', rc)
      → (bin : List ℕ) × (fp_create_d185 fp junk.value junk.value_size 1024 ≡ some (bin, success))
        × (r' ≡ set_world r (usb_port.set_prop_value_data 0xd185 bin r.world).0)
  unfolding send_profile examining send_created run out_of_fuel
  send_profile-created fp r r' rc e =
      elim (Option-cases (fp_create_d185 fp junk.value junk.value_size 1024)) [
        | inl q ↦ absurd (ground (arith, q, e))
        | inr ((bin, success), q) ↦ (bin, q, ground (arith, q, e))
        | inr ((bin, failure), q) ↦ absurd (ground (arith, q, e))
      ]

  -- Whatever profile file is applied to the camera's profile, whatever that is: where sending the
  -- result returns, 629 bytes were sent, and the shooting condition among them is what a variable
  -- held that nothing has written.
  pub send_profile-uninitialized :
      (path : String) (user fp : FujiProfile) (rc : Status) (r r' : PtpRuntime W) (rc' : Rc)
      → fp_parse_fp1 ezxml_parse_file path ≡ some (user, rc)
      → junk.value D185Prop.shooting_condition < 2 ^ 32
      → send_profile port usb_port ezxml_parse_file junk (fp_apply_profile user fp) r
        ≡ some (r', rc')
      → (bin : List ℕ) × (r' ≡ set_world r (usb_port.set_prop_value_data 0xd185 bin r.world).0)
        × (length bin ≡ 629)
        × (read_u32 bin 0x201 ≡ some (junk.value D185Prop.shooting_condition))
  send_profile-uninitialized path user fp rc r r' rc' q h e =
      let (bin, created, sent) = send_profile-created (fp_apply_profile user fp) r r' rc' e in
      let got : get_prop (fp_apply_profile user fp) D185Prop.shooting_condition
            (junk.value D185Prop.shooting_condition) junk.value_size
          ≡ (junk.value D185Prop.shooting_condition, success) =
        apply_fp1-shooting_condition ezxml_parse_file path user fp rc _ _ q in
      let (size, first) =
        create_d185-written (fp_apply_profile user fp) junk.value junk.value_size 1024 bin 0
          D185Prop.shooting_condition created first_prop (rw got h) in
      (bin, sent, size, first ∙ ap (λ (x : ℕ × Status). some x.0) got)
