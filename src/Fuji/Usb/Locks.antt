-- ===== src/Fuji/Usb/Locks.antt =====
-- The mutex in lib/fuji_usb.c.
use libfuji.Common.{ℕ, String, ◌∙◌, Option, none, some, List, [], ◌∷◌, zero, suc, arith}
use libfuji.Fuji.Session.{PtpRuntime, Port, set_world, ptp_mutex_lock, ptp_mutex_unlock}
use libfuji.Fuji.Ends.{Ends, Ends-imp, or_return-Ends}
use libfuji.Fuji.Events.Locks.{HasLocks, SameLocks, SameLocks-IsFrame}
use libfuji.Fuji.Steps.{Step}
use libfuji.Fuji.Steps.Keeps.{Keeps, keeps_rules}
use libfuji.Fp.Lookup.{Status, success, failure}
use libfuji.Fp.Profile.{FujiProfile, fp_apply_profile}
use libfuji.Fp.Xml.Profile.{XmlRoot}
use libfuji.Fuji.Usb.{
  UsbPort, fujiusb_download_backup, fuji_get_battery_percent, fujiusb_restore_backup,
}
use libfuji.Fuji.Usb.Raf.{
  Junk, send_created, apply_user, fuji_send_object_info_ex, fuji_send_object_ex, send_raf_bytes,
  fuji_send_raf, fetch_profile, merge_profile, send_profile, save_payload, take_image,
  wait_for_image, convert, fuji_process_raf,
}

module _ {W : Type 0} (port : Port W) (usb_port : UsbPort W) where
  send_object_info_ex-Keeps :
      (storage_id handle : ℕ) (oi : _)
      → Keeps SameLocks (fuji_send_object_info_ex port usb_port storage_id handle oi)
  unfolding fuji_send_object_info_ex
  send_object_info_ex-Keeps storage_id handle oi = search (keeps_rules, SameLocks-IsFrame)

  send_raf_bytes-Keeps : (o : Option (List ℕ)) → Keeps SameLocks (send_raf_bytes port usb_port o)
  unfolding send_raf_bytes fuji_send_object_ex
  send_raf_bytes-Keeps none = search (keeps_rules, SameLocks-IsFrame)
  send_raf_bytes-Keeps (some buffer) =
      search (keeps_rules, send_object_info_ex-Keeps, SameLocks-IsFrame) depth 12

  send_raf-Keeps : (path : String) → Keeps SameLocks (fuji_send_raf port usb_port path)
  unfolding fuji_send_raf
  send_raf-Keeps path = search (keeps_rules, send_raf_bytes-Keeps, SameLocks-IsFrame)

  fetch_profile-Keeps :
      (k : List ℕ → Step W)
      → ((bytes : List ℕ) → Keeps SameLocks (k bytes))
      → Keeps SameLocks (fetch_profile port usb_port k)
  unfolding fetch_profile
  fetch_profile-Keeps k h = record {
    at = λ r.
        let (w, rc) = port.get_prop_value 0xd185 r.world in
        or_return-Ends (λ s rc. SameLocks r s) (λ s rc. SameLocks r s)
          (some (ptp_mutex_unlock (set_world (ptp_mutex_lock r) w), rc)) (k (port.payload w))
          (omega arith) (λ s rc e. e)
          (λ s e.
            Ends-imp (λ t rc. SameLocks s t) (λ t rc. SameLocks r t) (k (port.payload w) s)
              ((h (port.payload w)).at s) (λ t rc e'. e' ∙ e));
  }

  download_backup-Keeps : Keeps SameLocks (fujiusb_download_backup port usb_port)
  unfolding fujiusb_download_backup
  download_backup-Keeps = search (keeps_rules, SameLocks-IsFrame) depth 10

  restore_backup-Keeps :
      (input : List ℕ) → Keeps SameLocks (fujiusb_restore_backup port usb_port input)
  unfolding fujiusb_restore_backup
  restore_backup-Keeps input = search (keeps_rules, SameLocks-IsFrame) depth 10

  get_battery_percent-Keeps :
      (store : ℕ → W → W) → Keeps SameLocks (fuji_get_battery_percent port usb_port store)
  unfolding fuji_get_battery_percent
  get_battery_percent-Keeps store = search (keeps_rules, SameLocks-IsFrame) depth 10

module _ {W : Type 0} (port : Port W) (usb_port : UsbPort W)
    (ezxml_parse_file : String → Option XmlRoot) (junk : Junk) where
  send_created-Keeps :
      (created : List ℕ × Status)
      → Keeps SameLocks (send_created port usb_port ezxml_parse_file junk created)
  unfolding send_created
  send_created-Keeps (buffer, success) = search (keeps_rules, SameLocks-IsFrame)
  send_created-Keeps (buffer, failure) = search (keeps_rules, SameLocks-IsFrame)

  apply_user-Keeps :
      (user : FujiProfile × Status) (fp : FujiProfile) (k : FujiProfile → Step W)
      → ((to : FujiProfile) → Keeps SameLocks (k to))
      → Keeps SameLocks (apply_user port usb_port ezxml_parse_file junk user fp k)
  unfolding apply_user
  apply_user-Keeps (user_fp, success) fp k h = h (fp_apply_profile user_fp fp)
  apply_user-Keeps (user_fp, failure) fp k h = search (keeps_rules, SameLocks-IsFrame)

  send_profile-Keeps :
      (fp : FujiProfile) → Keeps SameLocks (send_profile port usb_port ezxml_parse_file junk fp)
  unfolding send_profile
  send_profile-Keeps fp = search (keeps_rules, send_created-Keeps, SameLocks-IsFrame) depth 10

  save_payload-Keeps :
      (path : String) → Keeps SameLocks (save_payload port usb_port ezxml_parse_file junk path)
  unfolding save_payload
  save_payload-Keeps path = search (keeps_rules, SameLocks-IsFrame) depth 10

  take_image-Keeps :
      (path : String) (rest : Step W) (list : List ℕ)
      → Keeps SameLocks rest
      → Keeps SameLocks (take_image port usb_port ezxml_parse_file junk path rest list)
  unfolding take_image
  take_image-Keeps path rest [] h = h
  take_image-Keeps path rest (handle ∷ handles) h =
      search (keeps_rules, save_payload-Keeps, SameLocks-IsFrame) depth 10

  wait_for_image-Keeps :
      (left : ℕ) (path : String)
      → Keeps SameLocks (wait_for_image port usb_port ezxml_parse_file junk left path)
  unfolding wait_for_image
  wait_for_image-Keeps zero path = search (keeps_rules, SameLocks-IsFrame)
  wait_for_image-Keeps (suc left) path =
      let ih = wait_for_image-Keeps left path in
      let taken : (list : List ℕ)
          → Keeps SameLocks (
              take_image port usb_port ezxml_parse_file junk path
                (wait_for_image port usb_port ezxml_parse_file junk left path) list) =
        λ list. take_image-Keeps path _ list ih in
      search (keeps_rules, taken, SameLocks-IsFrame) depth 10

  convert-Keeps :
      (path : String) (fp : FujiProfile)
      → Keeps SameLocks (convert port usb_port ezxml_parse_file junk path fp)
  unfolding convert
  convert-Keeps path fp =
      search (keeps_rules, send_profile-Keeps, wait_for_image-Keeps, SameLocks-IsFrame) depth 10

  merge_profile-Keeps :
      (path : String) (bytes : List ℕ) (k : FujiProfile → Step W)
      → ((fp : FujiProfile) → Keeps SameLocks (k fp))
      → Keeps SameLocks (merge_profile port usb_port ezxml_parse_file junk path bytes k)
  unfolding merge_profile
  merge_profile-Keeps path bytes k h =
      search (keeps_rules, apply_user-Keeps, h, SameLocks-IsFrame) depth 10

  process_raf-Keeps :
      (input output xml : String)
      → Keeps SameLocks (fuji_process_raf port usb_port ezxml_parse_file junk input output xml)
  unfolding fuji_process_raf
  process_raf-Keeps input output xml =
      search
        (
          keeps_rules, send_raf-Keeps, fetch_profile-Keeps, merge_profile-Keeps, convert-Keeps,
          SameLocks-IsFrame,
        )
        depth 10

  -- Wherever `fuji_process_raf`, `fujiusb_download_backup` and `fuji_get_battery_percent` return,
  -- errors included, the mutex is held as often as before.
  pub process_raf-HasLocks :
      (input output xml : String) (store : ℕ → W → W) (r : PtpRuntime W)
      → Ends
          (HasLocks r.locks)
          (fuji_process_raf port usb_port ezxml_parse_file junk input output xml r)
        × Ends (HasLocks r.locks) (fujiusb_download_backup port usb_port r)
        × Ends (HasLocks r.locks) (fuji_get_battery_percent port usb_port store r)
  process_raf-HasLocks input output xml store r = (
    (process_raf-Keeps input output xml).at r,
    (download_backup-Keeps port usb_port).at r,
    (get_battery_percent-Keeps port usb_port store).at r,
  )
