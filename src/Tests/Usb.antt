-- ===== src/Tests/Usb.antt =====
-- A camera over USB: it lists itself, converts no photo, and takes a profile.
use libfuji.Common.{
  inl, inr, ◌+◌, ◌*◌, ℕ, ◌≡◌, refl, String, str_eq, if◌then◌else◌, Option, some, none, List, [],
  ◌∷◌, length, false, true, read_u32, arith,
}
use libfuji.Fuji.Session.{
  Rc, ok, raw_conv, wireless_comm, usb, webcam, ptp_usb, PtpRuntime, set_world,
}
use libfuji.Fuji.Ends.{Ends}
use libfuji.Fuji.Events.Locks.{HasLocks}
use libfuji.Fuji.Steps.{
  ◌and_then◌, finished, run, reading, on_result, examining, affect, assign_fuji,
}
use libfuji.Fp.Lookup.{success, has_value, validate_lookup}
use libfuji.Fp.Profile.{FujiProfile, zeroed, fp_apply_profile}
use libfuji.Fp.Tables.{fp_film_sim}
use libfuji.Fp.D185.Props.{D185Prop, get_prop}
use libfuji.Fp.D185.Codec.{fp_create_d185}
use libfuji.Fp.D185.Written.{create_d185-succeeds, create_d185-written}
use libfuji.Fp.Pack.{copy-accepted}
use libfuji.Fp.Xml.Props.{parse_prop, parse_tag, find_key, xml_keys}
use libfuji.Fp.Xml.Profile.{
  XmlRoot, fp_parse_fp1, parse_root, parse_group, parse_all, sanitize_parsed_conv_profile,
  sanitize_white_balance, sanitize_hdr, sanitize_file_type, sanitize_grain, sanitize_color,
}
use libfuji.Fuji.Usb.{
  PtpDeviceEntry, UsbPort, zeroed_priv, fujiusb_try_connect, fujiusb_download_backup,
  fuji_get_battery_percent, fujitether_setup, fujiusb_setup, session_opened, usb_mode_read,
  initialize, mode_transport,
}
use libfuji.Fuji.Usb.Raf.{Junk, send_profile, send_created, fuji_process_raf, wait_for_image}
use libfuji.Fuji.Usb.Devices.{connected, try_connect_refines}
use libfuji.Fuji.Usb.Locks.{process_raf-HasLocks}
use libfuji.Fuji.Usb.Images.{polled, wait_for_image-empty}
use libfuji.Fuji.Usb.Mode.{HasReadMode, tether_setup-transport}
use libfuji.Fuji.Usb.Sent.{send_profile-uninitialized}
use libfuji.Tests.Fuji.{World, sample_port, sample_runtime}
use libfuji.Tests.Setup.{sample_socket}

-- Between the cameras there is a device of another maker.
abbrev sample_devices : List PtpDeviceEntry
sample_devices =
    record { vendor_id = 0x4cb; address = 1 }
    ∷ record { vendor_id = 0x123; address = 2 }
    ∷ record { vendor_id = 0x4cb; address = 3 }
    ∷ []

abbrev sample_usb_port : UsbPort World
sample_usb_port = record {
  reset = λ r. record r { wait_for_response = 0 };
  set_response_wait = λ n w. w;
  device_list = λ w. (w, sample_devices);
  free_device_list = λ w. w;
  device_open = λ d w. (record w { payload = d.address ∷ [] }, ok);
  open_session = λ w. (w, Rc.check_code);
  get_device_info = λ w. (w, ok);
  send_cam_name = λ w. w;
  get_info = λ handle w. (w, ok);
  get_object = λ handle w. (w, ok);
  remove_object = λ handle w. (w, ok);
  list_objects = λ w. (w, record { rc = ok; list = [] });
  send_data = λ code params bytes w. (w, ok);
  send_object = λ bytes w. (w, ok);
  set_prop_value_data = λ code bytes w. (record w { received = bytes }, ok);
  set_max_packet_size = λ n w. w;
  read_file = λ path w. (w, some (1 ∷ []));
  write_file = λ path bytes w. (w, true);
  save_backup = λ bytes w. w;
  write_string = λ s. 0 ∷ [];
  no_device = Rc.other 2;
  unsupported = Rc.other 3;
}

try_connect_refines_example :
    fujiusb_try_connect sample_usb_port 1 (sample_runtime wireless_comm)
    ≡ some (
      record (sample_runtime wireless_comm) {
        world = (connected sample_usb_port 1 (sample_runtime wireless_comm).world).0;
        wait_for_response = 0;
        connection_type = ptp_usb;
        fuji = record zeroed_priv { transport = usb };
      },
      (connected sample_usb_port 1 (sample_runtime wireless_comm).world).1,
    )
try_connect_refines_example = try_connect_refines sample_usb_port 1 (sample_runtime wireless_comm)

-- A profile file with a film simulation only.
abbrev plain_root : XmlRoot
plain_root = record {
  name = "ConversionProfile";
  attr = λ key.
      if str_eq key "application"
      then some "XRFC"
      else if str_eq key "version"
      then some "1.12.0.0"
      else none;
  child = some (record {
    name = "PropertyGroup";
    props = record { name = "FilmSimulation"; txt = "Classic"; self_closing = false } ∷ [];
  });
}

abbrev open_plain : String → Option XmlRoot
open_plain path = some plain_root

abbrev plain_fp : FujiProfile
plain_fp = record zeroed { profile_version = 2; film_simulation = 11 }

open_plain_read : fp_parse_fp1 open_plain "a.FP2" ≡ some (plain_fp, success)
unfolding fp_parse_fp1 parse_root parse_group parse_all parse_prop find_key xml_keys parse_tag
    validate_lookup fp_film_sim sanitize_parsed_conv_profile sanitize_white_balance sanitize_hdr
    sanitize_file_type sanitize_grain sanitize_color
open_plain_read = refl

abbrev sample_junk : Junk
sample_junk = record { profile = zeroed; value = λ p. 0xdeadbeef; value_size = 0 }

process_raf-HasLocks_example :
    Ends (HasLocks 0) (
      fuji_process_raf sample_port sample_usb_port open_plain sample_junk "a.RAF" "a.JPG" "a.FP2"
        (sample_runtime raw_conv))
    × Ends
        (HasLocks 0)
        (fujiusb_download_backup sample_port sample_usb_port (sample_runtime raw_conv))
    × Ends
        (HasLocks 0)
        (fuji_get_battery_percent sample_port sample_usb_port (λ v w. w) (sample_runtime raw_conv))
process_raf-HasLocks_example =
    process_raf-HasLocks sample_port sample_usb_port open_plain sample_junk "a.RAF" "a.JPG" "a.FP2"
      (λ v w. w) (sample_runtime raw_conv)

wait_for_image-empty_example :
    wait_for_image sample_port sample_usb_port open_plain sample_junk 20 "a.JPG"
      (sample_runtime raw_conv)
    ≡ some (
      set_world (sample_runtime raw_conv) (
          polled sample_port sample_usb_port open_plain sample_junk 20
            (sample_runtime raw_conv).world),
      ok,
    )
wait_for_image-empty_example =
    wait_for_image-empty sample_port sample_usb_port open_plain sample_junk (λ w. refl) 20 "a.JPG"
      (sample_runtime raw_conv)

-- A session that is open already, and the mode of webcams.
abbrev webcam_runtime : PtpRuntime World
webcam_runtime = record (sample_runtime wireless_comm) {
  world = record { received = []; payload = 0 ∷ 0 ∷ 0 ∷ 0 ∷ 0 ∷ 0 ∷ 0 ∷ 0 ∷ [] };
}

sample_tether_setup :
    fujitether_setup
      (record sample_port { get_prop_value = λ code w. (w, ok) })
      sample_usb_port
      sample_socket
      []
      webcam_runtime
    ≡ some (record webcam_runtime { fuji = record webcam_runtime.fuji { transport = webcam } }, ok)
unfolding fujitether_setup ◌and_then◌ reading initialize finished fujiusb_setup on_result run
    session_opened affect usb_mode_read assign_fuji mode_transport
sample_tether_setup = refl

tether_setup-transport_example :
    HasReadMode
      (record sample_port { get_prop_value = λ code w. (w, ok) })
      sample_usb_port
      webcam_runtime.world
      webcam
tether_setup-transport_example =
    tether_setup-transport (record sample_port { get_prop_value = λ code w. (w, ok) })
      sample_usb_port sample_socket [] webcam_runtime
      (record webcam_runtime { fuji = record webcam_runtime.fuji { transport = webcam } })
      sample_tether_setup

-- Every field is 0 but the film simulation.
plain-get_prop :
    (p : D185Prop) → (get_prop (fp_apply_profile plain_fp zeroed) p 0xdeadbeef 0).1 ≡ success
unfolding get_prop fp_apply_profile has_value fp_film_sim
plain-get_prop D185Prop.shooting_condition = copy-accepted 0 _ _ (inl refl)
plain-get_prop D185Prop.file_type = copy-accepted 0 _ _ (inl refl)
plain-get_prop D185Prop.image_size = copy-accepted 0 _ _ (inl refl)
plain-get_prop D185Prop.image_quality = copy-accepted 0 _ _ (inl refl)
plain-get_prop D185Prop.exposure_bias = copy-accepted 0 _ _ (inl refl)
plain-get_prop D185Prop.dynamic_range = copy-accepted 0 _ _ (inl refl)
plain-get_prop D185Prop.wide_d_range = copy-accepted 0 _ _ (inl refl)
plain-get_prop D185Prop.film_simulation = copy-accepted 11 _ _ (inr refl)
plain-get_prop D185Prop.grain_effect_and_size =
    rw (copy-accepted 0 _ _ (inl refl)) (copy-accepted 0 _ _ (inl refl))
plain-get_prop D185Prop.chrome_effect = copy-accepted 0 _ _ (inl refl)
plain-get_prop D185Prop.white_balance_shoot_cond = copy-accepted 0 _ _ (inl refl)
plain-get_prop D185Prop.white_balance_mode = copy-accepted 0 _ _ (inl refl)
plain-get_prop D185Prop.white_balance_shift_red_green = copy-accepted 0 _ _ (inl refl)
plain-get_prop D185Prop.white_balance_shift_blue_yellow = copy-accepted 0 _ _ (inl refl)
plain-get_prop D185Prop.white_balance_color_temp = copy-accepted 0 _ _ (inl refl)
plain-get_prop D185Prop.highlight_tone = copy-accepted 0 _ _ (inl refl)
plain-get_prop D185Prop.shadow_tone = copy-accepted 0 _ _ (inl refl)
plain-get_prop D185Prop.color = copy-accepted 0 _ _ (inl refl)
plain-get_prop D185Prop.sharpness = copy-accepted 0 _ _ (inl refl)
plain-get_prop D185Prop.noise_reduction = copy-accepted 0 _ _ (inl refl)
plain-get_prop D185Prop.lens_modulation_optimization = copy-accepted 0 _ _ (inl refl)
plain-get_prop D185Prop.color_space = copy-accepted 0 _ _ (inl refl)
plain-get_prop D185Prop.black_image_tone = copy-accepted 0 _ _ (inl refl)
plain-get_prop D185Prop.unknown_24 = refl
plain-get_prop D185Prop.color_chrome_blue = copy-accepted 0 _ _ (inl refl)
plain-get_prop D185Prop.monochromatic_color_rg = copy-accepted 0 _ _ (inl refl)
plain-get_prop D185Prop.clarity = copy-accepted 0 _ _ (inl refl)
plain-get_prop D185Prop.unknown_28 = refl
plain-get_prop D185Prop.unknown_29 = refl

plain_created :
    (bin : List ℕ) × (fp_create_d185 (fp_apply_profile plain_fp zeroed) sample_junk.value 0 1024
      ≡ some (bin, success))
plain_created =
    create_d185-succeeds (fp_apply_profile plain_fp zeroed) sample_junk.value 0 1024 plain-get_prop
      (omega arith)

abbrev plain_sent : PtpRuntime World
plain_sent = record (sample_runtime raw_conv) {
  world = record { received = plain_created.0; payload = [] };
}

plain_sends :
    send_profile sample_port sample_usb_port open_plain sample_junk
      (fp_apply_profile plain_fp zeroed)
      (sample_runtime raw_conv)
    ≡ some (plain_sent, ok)
unfolding send_profile send_created examining run
plain_sends = rw plain_created.1 refl

send_profile-uninitialized_example :
    (bin : List ℕ) × (plain_sent
      ≡ record (sample_runtime raw_conv) { world = record { received = bin; payload = [] } })
    × (length bin ≡ 629)
    × (read_u32 bin 0x201 ≡ some 0xdeadbeef)
send_profile-uninitialized_example =
    send_profile-uninitialized sample_port sample_usb_port open_plain sample_junk "a.FP2" plain_fp
      zeroed success (sample_runtime raw_conv) plain_sent ok open_plain_read (omega arith)
      plain_sends

create_d185-written_example :
    (length plain_created.0 ≡ 629)
    × (read_u32 plain_created.0 (0x201 + 4 * 28)
        ≡ some (get_prop (fp_apply_profile plain_fp zeroed) D185Prop.unknown_29 0xdeadbeef 0).0)
create_d185-written_example =
    create_d185-written (fp_apply_profile plain_fp zeroed) sample_junk.value 0 1024 plain_created.0
      28 D185Prop.unknown_29 plain_created.1 refl (unfold get_prop in omega arith)
