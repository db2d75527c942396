-- ===== src/Bluetooth.antt =====
-- A camera over Bluetooth (lib/bluetooth.c). What is only logged is left out.
pub mod Kept
pub mod Notifs
pub mod Pairing
pub mod References
pub mod Leaks
use libfuji.Common.{
  ℕ, ◌*◌, ◌+◌, ◌%◌, ◌^◌, String, str_eq, List, [], ◌∷◌, ◌++◌, Option, none, some, Bool, ◌==◌, ◌||◌,
  ltb, if◌then◌else◌, length, u8, u16, le16, le32,
}
use libfuji.Calls.{Io, done, undefined, ask, tell, look, using}

-- What `pak_get_timestamp` gives.
pub record PakTimestamp : Type 0 where
  pub year : ℕ
  pub month : ℕ
  pub day : ℕ
  pub hour : ℕ
  pub minute : ℕ
  pub second : ℕ

-- `enum PakBtEvent`; a changed characteristic comes with its UUID.
pub data PakBtEvent : Type 0 where
  services_discovered : PakBtEvent
  connected : PakBtEvent
  disconnected : PakBtEvent
  char_changed : String → PakBtEvent
  other_event : PakBtEvent

-- The Bluetooth strings of `struct Module` (lib/module.h), each as the string in its 64 bytes.
pub record BtPriv : Type 0 where
  pub device_name_buf : List ℕ
  pub wifi_ssid : List ℕ
  pub wifi_password : List ℕ
  pub wifi_ssid_is_hidden : Bool

-- The runtime's Bluetooth, for one device, and what else lib/bluetooth.c calls of it.
-- `get_service` and `get_characteristic` give a reference that is to be given back. Services and
-- characteristics are numbers; codes that are not 0 are errors.
pub record PakBt (W : Type 0) : Type 0 where
  pub get_service : String → W → W × Option ℕ
  pub get_characteristic : ℕ → String → W → W × Option ℕ
  pub unref_service : ℕ → W → W
  pub unref_characteristic : ℕ → W → W
  pub set_watching : ℕ → ℕ → W → W
  pub set_cccd : ℕ → W → W
  pub write : ℕ → List ℕ → W → W × ℕ
  pub read : ℕ → W → W × ℕ
  -- At most the given number of bytes.
  pub cached_value : ℕ → ℕ → W → List ℕ
  pub watch : ℕ → ℕ → W → W × ℕ
  pub manufacturer_data : W → List ℕ
  pub set_callback : W → W
  pub device_connect : W → W × ℕ
  pub create_bond : W → W × ℕ
  pub timestamp : W → PakTimestamp
  pub set_progress : ℕ → W → W
  pub add_instruction : String → W → W
  -- The name of the network, the password if there is one, and whether the name is hidden.
  pub add_wifi : List ℕ → Option (List ℕ) → Bool → W → W
  pub set_name : List ℕ → W → W
  pub set_firmware : List ℕ → W → W
  pub client_name : W → List ℕ
  pub save_signature : List ℕ → List ℕ → W → W
  pub support_intervalometer : W → W
  pub shutter_down : String
  pub shutter_up : String
  pub focus_down : String
  pub focus_up : String
  pub unsupported : ℕ
  pub unimplemented : ℕ
  pub no_connection : ℕ

-- `fujifilm_time_t`, packed.
unfoldable pub time_bytes : PakTimestamp → List ℕ
time_bytes ts =
    le16 (u16 ts.year) ++ u8 ts.month ∷ u8 ts.day ∷ u8 ts.hour ∷ u8 ts.minute ∷ u8 ts.second ∷ []

-- `geotag_t`, packed.
unfoldable pub geotag_bytes : PakTimestamp → List ℕ
geotag_bytes ts =
    le32 (123 * 10000000)
    ++ (le32 (123 * 10000000) ++ (le32 50000 ++ (0 ∷ 0 ∷ 0 ∷ 0 ∷ [] ++ time_bytes ts)))

-- A result, and the string that was read with it.
pub record Text : Type 0 where
  pub rc : ℕ
  pub text : List ℕ

module _ {W : Type 0} (bt : PakBt W) where
  -- Looking a characteristic up, where an error gives the service back.
  unfoldable pub characteristic_found : {A : Type 0} → A → (ℕ → ℕ → Io W A) → ℕ → Option ℕ → Io W A
  characteristic_found e k service none = tell (bt.unref_service service) (done e)
  characteristic_found e k service (some chr) = k service chr

  unfoldable pub service_found : {A : Type 0} → String → A → (ℕ → ℕ → Io W A) → Option ℕ → Io W A
  service_found uuid_chr e k none = done e
  service_found uuid_chr e k (some service) =
      ask (bt.get_characteristic service uuid_chr) (characteristic_found e k service)

  unfoldable pub with_characteristic :
      {A : Type 0} → String → String → A → (ℕ → ℕ → Io W A) → Io W A
  with_characteristic uuid_svc uuid_chr e k =
      ask (bt.get_service uuid_svc) (service_found uuid_chr e k)

  unfoldable pub subscribe : String → String → ℕ → Io W ℕ
  subscribe uuid_svc uuid_chr notif =
      with_characteristic uuid_svc uuid_chr bt.unsupported (λ service chr.
        tell (bt.set_watching chr notif) (
          tell (bt.set_cccd chr)
            (tell (bt.unref_service service) (tell (bt.unref_characteristic chr) (done 0)))))

  -- `SVC_SHUTTER_UUID` and `CHR_SHUTTER_UUID`.
  unfoldable pub send_shutter_command : List ℕ → List ℕ → Io W ℕ
  send_shutter_command cmd params =
      with_characteristic "6514eb81-4e8f-458d-aa2a-e691336cdfac"
        "7fcf49c6-4ff0-4777-a03d-1a79166af7a8" bt.unsupported
        (λ service chr. ask (bt.write chr cmd) (λ rc.
          ask (bt.write chr params)
            (λ rc1. tell (bt.unref_characteristic chr) (tell (bt.unref_service service) (done 0)))))

  unfoldable pub fuji_bt_handle_command : String → Io W ℕ
  fuji_bt_handle_command command =
      if str_eq command bt.shutter_down
      then send_shutter_command (1 ∷ 0 ∷ []) (2 ∷ 0 ∷ [])
      else if str_eq command bt.focus_down
      then send_shutter_command (1 ∷ 0 ∷ []) (3 ∷ 0 ∷ [])
      else if str_eq command bt.focus_up || str_eq command bt.shutter_up
      then send_shutter_command (1 ∷ 0 ∷ []) (0 ∷ 0 ∷ [])
      else done bt.unimplemented

  -- `SVC_GEOTAG_UUID` and `CHR_GEOTAG_UUID`.
  unfoldable pub update_geo_data : Io W ℕ
  update_geo_data =
      with_characteristic "3b46ec2b-48ba-41fd-b1b8-ed860b60d22b"
        "0f36ec14-29e5-411a-a1b6-64ee8383f090" bt.unsupported
        (λ service chr. look bt.timestamp (λ ts.
          ask (bt.write chr (geotag_bytes ts))
            (λ rc. tell (bt.unref_characteristic chr) (tell (bt.unref_service service) (done 0)))))

  -- `SVC_UNKNOWN3` and `CHR_UNKNOWN_TIME`.
  unfoldable pub send_time : Io W ℕ
  send_time =
      with_characteristic "e872b11f-d526-4ae1-9bb4-89a99d48fa59"
        "b9bfd37f-ccad-4d36-a1ee-018e792b3edf" bt.unsupported
        (λ service time_chr. look bt.timestamp (λ ts. ask (bt.write time_chr (time_bytes ts)) (λ rc.
          tell (bt.unref_characteristic time_chr) (tell (bt.unref_service service) (done 0)))))

  -- The characteristic is `CHR_NOT1_UUID`.
  unfoldable pub device_callback : PakBtEvent → Io W ℕ
  device_callback services_discovered = tell (bt.set_progress 30) (done 0)
  device_callback connected = tell (bt.set_progress 20) (done 0)
  device_callback disconnected = done 0
  device_callback (char_changed uuid) =
      if str_eq uuid "f9150137-5d40-4801-a8dc-f7fc5b01da50" then send_time else done 0
  device_callback other_event = done 0

  -- The terminator behind as many bytes as the buffer holds leaves it.
  unfoldable pub string_read : ℕ → ℕ → ℕ → ℕ → Io W Text
  string_read max service chr rc =
      if rc == 0
      then look (bt.cached_value chr max) (λ value.
        if ltb (length value) max
        then tell (bt.unref_characteristic chr)
            (tell (bt.unref_service service) (done (record { rc = 0; text = value })))
        else undefined)
      else tell (bt.unref_characteristic chr)
          (tell (bt.unref_service service) (done (record { rc = rc; text = [] })))

  unfoldable pub get_characteristic_as_string : String → String → ℕ → Io W Text
  get_characteristic_as_string svcuuid chruuid max =
      with_characteristic svcuuid chruuid (record { rc = bt.unsupported; text = [] })
        (λ service chr. ask (bt.read chr) (string_read max service chr))

  -- What is in `buf` after the watched value was read into 0xff 0xff.
  unfoldable pub first_byte : List ℕ → ℕ
  first_byte [] = 0xff
  first_byte (b ∷ bytes) = b

  unfoldable pub answer_read : BtPriv → ℕ → ℕ → ℕ → Io W ℕ
  answer_read priv service chr rc = look (bt.cached_value chr 2) (λ buf.
      tell
        (if first_byte buf == 0
          then bt.add_instruction "Camera is busy, can't connect. Switch to liveview."
          else bt.add_wifi priv.wifi_ssid
              (if priv.wifi_ssid_is_hidden then some priv.wifi_password else none)
              priv.wifi_ssid_is_hidden)
        (tell (bt.unref_service service) (tell (bt.unref_characteristic chr) (done rc))))

  -- `SVC_CONF_UUID` and `CHR_IND1_UUID`.
  unfoldable pub wait_for_wifi : BtPriv → Io W ℕ
  wait_for_wifi priv =
      with_characteristic "4c0020fe-f3b6-40de-acc9-77d129067b14"
        "a68e3f66-0fcc-4395-8d4c-aa980b5877fa" bt.unsupported
        (λ service chr. ask (bt.watch chr 500) (λ rc.
          if rc == 0
          then answer_read priv service chr rc
          else tell (bt.add_instruction "Something went wrong. please try again.")
              (answer_read priv service chr rc)))

  -- `SVC_SHUTTER_UUID` and `CHR_SHUTTER_UUID2`; where they are missing, nothing else is done.
  unfoldable pub fuji_bluetooth_connect_to_wifi : BtPriv → Io W ℕ
  fuji_bluetooth_connect_to_wifi priv =
      with_characteristic "6514eb81-4e8f-458d-aa2a-e691336cdfac"
        "600655e6-3637-42f1-8fb2-44efc5c63b13" bt.unsupported
        (λ service chr. ask (bt.write chr (4 ∷ 0 ∷ [])) (λ rc.
          tell (bt.unref_characteristic chr)
            (tell (bt.unref_service service) (wait_for_wifi priv))))
