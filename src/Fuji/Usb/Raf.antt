-- ===== src/Fuji/Usb/Raf.antt =====
-- The conversion of a RAW photo (lib/fuji_usb.c: `fuji_send_raf`, `fuji_process_raf`). A file is
-- read whole.
use libfuji.Common.{
  ℕ, zero, suc, String, Option, none, some, List, [], ◌∷◌, ◌++◌, leb, if◌then◌else◌, length, u32,
  le16, le32,
}
use libfuji.Fuji.Session.{
  ok, runtime_err, Port, set_world, ptp_mutex_lock, ptp_mutex_unlock, ◌or_return◌,
}
use libfuji.Fuji.Steps.{
  Step, ◌and_then◌, finished, out_of_fuel, run, reading, on_result, calling, examining, affect,
  set_prop16,
}
use libfuji.Fp.Lookup.{Status, success, failure}
use libfuji.Fp.Profile.{FujiProfile, fp_apply_profile}
use libfuji.Fp.D185.Props.{D185Prop}
use libfuji.Fp.D185.Codec.{fp_create_d185, fp_parse_d185}
use libfuji.Fp.Xml.Profile.{XmlRoot, fp_parse_fp1}
use libfuji.Fuji.Usb.{PtpObjectInfo, UsbPort, is_raw_conv}

module _ {W : Type 0} (port : Port W) (usb_port : UsbPort W) where
  unfoldable pub object_info_bytes : PtpObjectInfo → List ℕ
  object_info_bytes oi =
      le32 oi.storage_id
      ++ (le16 oi.obj_format
          ++ (le16 oi.protection
              ++ (le32 oi.compressed_size
                  ++ (le16 oi.thumb_format
                      ++ (le32 oi.thumb_compressed_size
                          ++ (le32 oi.thumb_width
                              ++ (le32 oi.thumb_height
                                  ++ (le32 oi.img_width
                                      ++ (le32 oi.img_height
                                          ++ (le32 oi.img_bit_depth
                                              ++ (le32 oi.parent_obj
                                                  ++ (le16 oi.assoc_type
                                                      ++ (le32 oi.assoc_desc
                                                          ++ (le32 oi.sequence_num
                                                            ++ (usb_port.write_string oi.filename
                                                            ++ (usb_port.write_string
                                                            oi.date_created
                                                            ++ (usb_port.write_string
                                                            oi.date_modified
                                                            ++ usb_port.write_string
                                                            oi.keywords)))))))))))))))))

  -- More than the buffer holds is undefined.
  abbrev pub bounded : ℕ → List ℕ → Option (List ℕ)
  bounded size bytes = if leb (length bytes) size then some bytes else none

  unfoldable pub fuji_send_object_info_ex : ℕ → ℕ → PtpObjectInfo → Step W
  fuji_send_object_info_ex storage_id handle oi =
      examining (λ w. bounded 2048 (object_info_bytes oi))
        (λ buf. run (usb_port.send_data 0x900c (storage_id ∷ handle ∷ 0 ∷ []) buf))

  unfoldable pub fuji_send_object_ex : List ℕ → Step W
  fuji_send_object_ex bytes = run (usb_port.send_data 0x900d [] bytes)

  -- The object info of a RAW file; the name is `"FUP_FILE.dat"`.
  abbrev pub raf_info : ℕ → PtpObjectInfo
  raf_info file_size = record {
    storage_id = 0;
    obj_format = 0xf802;
    protection = 0;
    compressed_size = u32 file_size;
    thumb_format = 0;
    thumb_compressed_size = 0;
    thumb_width = 0;
    thumb_height = 0;
    img_width = 0;
    img_height = 0;
    img_bit_depth = 0;
    parent_obj = 0;
    assoc_type = 0;
    assoc_desc = 0;
    sequence_num = 0;
    filename =
        0x46 ∷ 0x55 ∷ 0x50 ∷ 0x5f ∷ 0x46 ∷ 0x49 ∷ 0x4c ∷ 0x45 ∷ 0x2e ∷ 0x64 ∷ 0x61 ∷ 0x74 ∷ [];
    date_created = [];
    date_modified = [];
    keywords = [];
  }

  unfoldable pub send_raf_bytes : Option (List ℕ) → Step W
  send_raf_bytes none = finished runtime_err
  send_raf_bytes (some buffer) =
      fuji_send_object_info_ex 0 0 (raf_info (length buffer))
      and_then affect (usb_port.set_max_packet_size 261632)
      and_then on_result (fuji_send_object_ex buffer)
          (λ rc. affect (usb_port.set_max_packet_size 512) and_then finished rc)

  unfoldable pub fuji_send_raf : String → Step W
  fuji_send_raf path = calling (usb_port.read_file path) send_raf_bytes

  -- The camera's profile, copied while the mutex is held.
  unfoldable pub fetch_profile : (List ℕ → Step W) → Step W
  fetch_profile k r =
      let (w, rc) = port.get_prop_value 0xd185 r.world in
      some (ptp_mutex_unlock (set_world (ptp_mutex_lock r) w), rc) or_return k (port.payload w)

-- What the variables of `fuji_process_raf` and `fp_create_d185` hold before they are written.
pub record Junk : Type 0 where
  pub profile : FujiProfile
  pub value : D185Prop → ℕ
  pub value_size : ℕ

module _ {W : Type 0} (port : Port W) (usb_port : UsbPort W)
    (ezxml_parse_file : String → Option XmlRoot) (junk : Junk) where
  unfoldable pub apply_user : FujiProfile × Status → FujiProfile → (FujiProfile → Step W) → Step W
  apply_user (user_fp, success) fp k = k (fp_apply_profile user_fp fp)
  apply_user (user_fp, failure) fp k = finished runtime_err

  -- The result of `fp_parse_d185` is not looked at. `fp_apply_profile` always returns 0.
  unfoldable pub merge_profile : String → List ℕ → (FujiProfile → Step W) → Step W
  merge_profile profile_xml_path profile k =
      examining (λ w. fp_parse_d185 profile (length profile) junk.profile)
        (λ parsed.
          examining (λ w. fp_parse_fp1 ezxml_parse_file profile_xml_path)
            (λ user. apply_user user parsed.0 k))

  -- Where `fp_create_d185` fails, its -1 is the length of 2 ^ 32 - 1 bytes that are sent:
  -- `profile_len` is unsigned, and they leave the buffer.
  unfoldable pub send_created : List ℕ × Status → Step W
  send_created (buffer, success) = run (usb_port.set_prop_value_data 0xd185 buffer)
  send_created (buffer, failure) = out_of_fuel

  unfoldable pub send_profile : FujiProfile → Step W
  send_profile fp = examining (λ w. fp_create_d185 fp junk.value junk.value_size 1024) send_created

  unfoldable pub save_payload : String → Step W
  save_payload output_path = reading (λ r.
      calling (usb_port.write_file output_path (port.payload r.world))
        (λ opened. if opened then finished ok else finished runtime_err))

  unfoldable pub take_image : String → Step W → List ℕ → Step W
  take_image output_path rest [] = rest
  take_image output_path rest (handle ∷ handles) =
      run (usb_port.get_object handle)
      and_then save_payload output_path
      and_then run (usb_port.remove_object handle)

  -- The loop, with the rounds that are left.
  unfoldable pub wait_for_image : ℕ → String → Step W
  wait_for_image zero output_path = finished ok
  wait_for_image (suc left) output_path =
      let rest = wait_for_image left output_path in
      calling usb_port.list_objects
        (λ handles. finished handles.rc and_then take_image output_path rest handles.list)

  unfoldable pub convert : String → FujiProfile → Step W
  convert output_path fp =
      send_profile fp and_then set_prop16 port 0xd183 0 and_then wait_for_image 20 output_path

  unfoldable pub fuji_process_raf : String → String → String → Step W
  fuji_process_raf input_raf_path output_path profile_xml_path = reading (λ r.
      if is_raw_conv r.fuji.transport
      then (fuji_send_raf port usb_port input_raf_path
          and_then fetch_profile port usb_port
              (λ profile. merge_profile profile_xml_path profile (convert output_path)))
      else finished runtime_err)
