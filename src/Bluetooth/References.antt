-- ===== src/Bluetooth/References.antt =====
-- The references to services and characteristics (lib/bluetooth.c).
use libfuji.Common.{
  ℕ, String, List, ◌∷◌, Option, none, some, Bool, true, false, ◌≡◌, refl, if◌then◌else◌,
}
use libfuji.Calls.{Io, done}
use libfuji.Calls.Counts.{
  Handle, service, characteristic, Returns, Counts, Ignores, Leaves, Releases, Acquires,
  Counts-done, Counts-ask, Counts-tell, Counts-release, Counts-look, Counts-if, Counts-acquire,
  counts_rules,
}
use libfuji.Bluetooth.{
  PakBt, PakBtEvent, services_discovered, connected, disconnected, char_changed, other_event,
  BtPriv, characteristic_found, service_found, with_characteristic, subscribe, send_shutter_command,
  fuji_bt_handle_command, update_geo_data, send_time, device_callback, string_read,
  get_characteristic_as_string, answer_read, wait_for_wifi, fuji_bluetooth_connect_to_wifi,
}

-- What the runtime promises of the references that are held: a lookup that succeeds takes one to what
-- it has found, and giving one back releases one to that service or characteristic, and none where
-- there is none.
pub record IsReferenced {W : Type 0} (bt : PakBt W) (refs : W → List Handle) : Type 0 where
  pub services : (uuid : String) → Acquires refs service (bt.get_service uuid)
  pub characteristics :
      (svc : ℕ) (uuid : String) → Acquires refs characteristic (bt.get_characteristic svc uuid)
  pub unrefs_service : (svc : ℕ) → Releases refs (service svc) (bt.unref_service svc)
  pub unrefs_characteristic :
      (chr : ℕ) → Releases refs (characteristic chr) (bt.unref_characteristic chr)
  pub watches : (chr notif : ℕ) → Leaves refs (bt.set_watching chr notif)
  pub sets : (chr : ℕ) → Leaves refs (bt.set_cccd chr)
  pub writes : (chr : ℕ) (bytes : List ℕ) → Ignores refs (bt.write chr bytes)
  pub reads : (chr : ℕ) → Ignores refs (bt.read chr)
  pub waits : (chr n : ℕ) → Ignores refs (bt.watch chr n)
  pub callback : Leaves refs bt.set_callback
  pub connects : Ignores refs bt.device_connect
  pub bonds : Ignores refs bt.create_bond
  pub progress : (n : ℕ) → Leaves refs (bt.set_progress n)
  pub instructs : (s : String) → Leaves refs (bt.add_instruction s)
  pub wifi :
      (ssid : List ℕ) (password : Option (List ℕ)) (hidden : Bool)
      → Leaves refs (bt.add_wifi ssid password hidden)
  pub names : (s : List ℕ) → Leaves refs (bt.set_name s)
  pub firmware : (s : List ℕ) → Leaves refs (bt.set_firmware s)
  pub saves : (s t : List ℕ) → Leaves refs (bt.save_signature s t)
  pub screen : Leaves refs bt.support_intervalometer

-- The same references are held.
abbrev pub Same : {A : Type 0} → List Handle → List Handle → A → Type 0
Same n m a = m ≡ n

module _ {W : Type 0} (bt : PakBt W) (refs : W → List Handle) (c : IsReferenced bt refs)
    (n : List Handle) where
  pub returned : {A : Type 0} (a : A) → Counts {W = W} refs n (done a) (Same n)
  returned a = Counts-done a refl

  pub with_characteristic-Counts :
      {A : Type 0} (svc chr : String) (e : A) (k : ℕ → ℕ → Io W A)
      → ((s c : ℕ) → Counts refs (characteristic c ∷ service s ∷ n) (k s c) (Same n))
      → Counts refs n (with_characteristic bt svc chr e k) (Same n)
  unfolding with_characteristic service_found characteristic_found
  with_characteristic-Counts svc chr e k h = Counts-acquire _ _ (c.services svc) (returned e) (λ s.
      Counts-acquire _ _ (c.characteristics s chr)
        (Counts-release _ _ (c.unrefs_service s) (returned e)) (λ found. h s found))

  pub subscribe-Counts :
      (svc chr : String) (notif : ℕ) → Counts refs n (subscribe bt svc chr notif) (Same n)
  unfolding subscribe
  subscribe-Counts svc chr notif = with_characteristic-Counts svc chr _ _ (λ s found.
      search (counts_rules, returned, c.watches, c.sets, c.unrefs_service, c.unrefs_characteristic)
        depth 10)

  shutter-Counts :
      (cmd params : List ℕ) → Counts refs n (send_shutter_command bt cmd params) (Same n)
  unfolding send_shutter_command
  shutter-Counts cmd params = with_characteristic-Counts _ _ _ _ (λ s found.
      search (counts_rules, returned, c.writes, c.unrefs_service, c.unrefs_characteristic) depth 10)

  command-Counts : (command : String) → Counts refs n (fuji_bt_handle_command bt command) (Same n)
  unfolding fuji_bt_handle_command
  command-Counts command = search (counts_rules, returned, shutter-Counts) depth 10

  geo-Counts : Counts refs n (update_geo_data bt) (Same n)
  unfolding update_geo_data
  geo-Counts = with_characteristic-Counts _ _ _ _ (λ s found.
      search (counts_rules, returned, c.writes, c.unrefs_service, c.unrefs_characteristic) depth 10)

  time-Counts : Counts refs n (send_time bt) (Same n)
  unfolding send_time
  time-Counts = with_characteristic-Counts _ _ _ _ (λ s found.
      search (counts_rules, returned, c.writes, c.unrefs_service, c.unrefs_characteristic) depth 10)

  callback-Counts : (ev : PakBtEvent) → Counts refs n (device_callback bt ev) (Same n)
  unfolding device_callback
  callback-Counts services_discovered = search (counts_rules, returned, c.progress)
  callback-Counts connected = search (counts_rules, returned, c.progress)
  callback-Counts disconnected = returned 0
  callback-Counts (char_changed uuid) = Counts-if _ _ _ time-Counts (returned 0)
  callback-Counts other_event = returned 0

  string_read-Counts :
      (max s chr rc : ℕ)
      → Counts refs (characteristic chr ∷ service s ∷ n) (string_read bt max s chr rc) (Same n)
  unfolding string_read
  string_read-Counts max s chr rc =
      search (counts_rules, returned, c.unrefs_service, c.unrefs_characteristic) depth 12

  pub as_string-Counts :
      (svc chr : String) (max : ℕ)
      → Counts refs n (get_characteristic_as_string bt svc chr max) (Same n)
  unfolding get_characteristic_as_string
  as_string-Counts svc chr max =
      with_characteristic-Counts svc chr _ _
        (λ s found. Counts-ask _ _ (c.reads found) (string_read-Counts max s found))

  told :
      (priv : BtPriv) (b : Bool)
      → Leaves refs (
          if b
          then bt.add_instruction "Camera is busy, can't connect. Switch to liveview."
          else bt.add_wifi priv.wifi_ssid
              (if priv.wifi_ssid_is_hidden then some priv.wifi_password else none)
              priv.wifi_ssid_is_hidden)
  told priv true = c.instructs _
  told priv false = c.wifi _ _ _

  answer-Counts :
      (priv : BtPriv) (s chr rc : ℕ)
      → Counts refs (characteristic chr ∷ service s ∷ n) (answer_read bt priv s chr rc) (Same n)
  unfolding answer_read
  answer-Counts priv s chr rc = Counts-look _ _ (λ buf.
      Counts-tell _ _ (told priv _)
        (search (counts_rules, returned, c.unrefs_service, c.unrefs_characteristic) depth 8))

  wait-Counts : (priv : BtPriv) → Counts refs n (wait_for_wifi bt priv) (Same n)
  unfolding wait_for_wifi
  wait-Counts priv =
      with_characteristic-Counts _ _ _ _
        (λ s found. search (counts_rules, answer-Counts, c.waits, c.instructs) depth 10)

  wifi-Counts : (priv : BtPriv) → Counts refs n (fuji_bluetooth_connect_to_wifi bt priv) (Same n)
  unfolding fuji_bluetooth_connect_to_wifi
  wifi-Counts priv = with_characteristic-Counts _ _ _ _ (λ s found.
      search (counts_rules, wait-Counts, c.writes, c.unrefs_service, c.unrefs_characteristic) depth
        10)

-- Wherever the remote commands, the location update, the callback for a device's events and the
-- connection to the camera's network return, errors included, exactly the references to services and
-- to characteristics are held that were held before: each one that they take is given back once.
pub bluetooth_calls-Same :
    {W : Type 0} (bt : PakBt W) (held : W → List Handle) (w : W) (command : String)
    (ev : PakBtEvent) (priv : BtPriv)
    → IsReferenced bt held
    → Returns (λ w' rc. held w' ≡ held w) (fuji_bt_handle_command bt command w)
      × Returns (λ w' rc. held w' ≡ held w) (update_geo_data bt w)
      × Returns (λ w' rc. held w' ≡ held w) (device_callback bt ev w)
      × Returns (λ w' rc. held w' ≡ held w) (fuji_bluetooth_connect_to_wifi bt priv w)
bluetooth_calls-Same bt held w command ev priv c = (
  (command-Counts bt held c (held w) command).at w refl,
  (geo-Counts bt held c (held w)).at w refl,
  (callback-Counts bt held c (held w) ev).at w refl,
  (wifi-Counts bt held c (held w) priv).at w refl,
)
