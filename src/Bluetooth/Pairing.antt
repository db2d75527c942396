-- ===== src/Bluetooth/Pairing.antt =====
-- Pairing with a camera (lib/bluetooth.c: `fuji_connect_bluetooth`).
use libfuji.Common.{
  ℕ, ◌+◌, List, [], ◌∷◌, ◌++◌, Option, none, some, Bool, true, false, ◌==◌, if◌then◌else◌, take,
  drop, length,
}
use libfuji.Calls.{Io, done, ask, tell, look, using}
use libfuji.Bluetooth.Notifs.{Notifs, subscriptions}
use libfuji.Bluetooth.{PakBt, BtPriv, Text, get_characteristic_as_string, subscribe}

-- What a function returns, and the module's strings as it leaves them.
pub record Paired : Type 0 where
  pub rc : ℕ
  pub priv : BtPriv

module _ {W : Type 0} (bt : PakBt W) where
  -- A result that is not 0 ends `send_client_name` with the reference held.
  unfoldable pub client_name_sent : ℕ → ℕ → Io W ℕ
  client_name_sent iden_chr rc =
      if rc == 0 then tell (bt.unref_characteristic iden_chr) (done 0) else done rc

  unfoldable pub identity_found : Option ℕ → Io W ℕ
  identity_found none = done bt.no_connection
  identity_found (some iden_chr) =
      look bt.client_name (λ name. ask (bt.write iden_chr name) (client_name_sent iden_chr))

  -- `CHR_IDEN_UUID`.
  unfoldable pub send_client_name : ℕ → Io W ℕ
  send_client_name pair_service =
      ask (bt.get_characteristic pair_service "85b9163e-62d1-49ff-a6f5-054b4630d4a1") identity_found

  unfoldable pub password_read : BtPriv → Text → Io W Paired
  password_read priv t = done (record {
    rc = 0;
    priv =
        if t.rc == 0
        then record priv { wifi_password = t.text; wifi_ssid_is_hidden = true }
        else priv;
  })

  unfoldable pub ssid_read : BtPriv → Text → Io W Paired
  ssid_read priv t =
      if t.rc == 0
      then using
          (get_characteristic_as_string bt "4e941240-d01d-46b9-a5ea-67636806830b"
            "e809256a-915c-4967-92e8-53b7d4cad213" 64)
          (password_read (record priv { wifi_ssid = t.text }))
      else done (record { rc = t.rc; priv = priv })

  unfoldable pub read_ssid : BtPriv → Io W Paired
  read_ssid priv =
      using
        (get_characteristic_as_string bt "4e941240-d01d-46b9-a5ea-67636806830b"
          "bf6dc9cf-3606-4ec9-a4c8-d77576e93ea4" 64)
        (ssid_read priv)

  unfoldable pub firmware_read : BtPriv → Text → Io W Paired
  firmware_read priv t =
      if t.rc == 0 then tell (bt.set_firmware t.text) (read_ssid priv) else read_ssid priv

  unfoldable pub read_firmware : BtPriv → Io W Paired
  read_firmware priv =
      using
        (get_characteristic_as_string bt "0000180a-0000-1000-8000-00805f9b34fb"
          "00002A26-0000-1000-8000-00805f9b34fb" 64)
        (firmware_read priv)

  unfoldable pub name_read : BtPriv → Text → Io W Paired
  name_read priv t =
      if t.rc == 0
      then tell (bt.set_name t.text) (read_firmware (record priv { device_name_buf = t.text }))
      else read_firmware priv

  unfoldable pub fill_props : BtPriv → Io W Paired
  fill_props priv =
      using
        (get_characteristic_as_string bt "00001800-0000-1000-8000-00805f9b34fb"
          "00002a00-0000-1000-8000-00805f9b34fb" 64)
        (name_read priv)

  -- The loop over the table, with the percentage before it.
  unfoldable pub subscribe_all : ℕ → List Notifs → Io W ℕ
  subscribe_all percent [] = done percent
  subscribe_all percent (s ∷ ss) =
      let rest : Io W ℕ = subscribe_all (percent + 3) ss in
      using (subscribe bt s.service_uuid s.char_uuid s.flag)
        (λ rc. tell (bt.set_progress (percent + 3)) rest)

  unfoldable pub finish_pairing : List ℕ → Paired → Io W Paired
  finish_pairing token p = tell (bt.save_signature p.priv.device_name_buf token) (
      tell (bt.set_progress 100)
        (tell bt.support_intervalometer (done (record { rc = 0; priv = p.priv }))))

  unfoldable pub secure_named : List ℕ → BtPriv → ℕ → Io W Paired
  secure_named token priv rc =
      if rc == 0
      then using (fill_props priv) (λ p.
        tell (bt.set_progress 55)
          (using (subscribe_all 40 subscriptions) (λ percent. finish_pairing token p)))
      else done (record { rc = rc; priv = priv })

  unfoldable pub status_written : List ℕ → BtPriv → ℕ → ℕ → Io W Paired
  status_written token priv pair_service rc =
      if rc == 0
      then tell (bt.set_progress 50)
          (using (send_client_name pair_service) (secure_named token priv))
      else done (record { rc = bt.no_connection; priv = priv })

  unfoldable pub status_read : List ℕ → BtPriv → ℕ → ℕ → ℕ → Io W Paired
  status_read token priv pair_service pair_chr rc =
      if rc == 0
      then look (bt.cached_value pair_chr 4) (λ status.
        if length status == 4
        then ask (bt.write pair_chr (take 3 status ++ 0x20 ∷ []))
            (status_written token priv pair_service)
        else done (record { rc = bt.no_connection; priv = priv }))
      else done (record { rc = bt.unsupported; priv = priv })

  -- Where it is missing, the service is not given back.
  unfoldable pub status_found : List ℕ → BtPriv → ℕ → Option ℕ → Io W Paired
  status_found token priv pair_service none = done (record { rc = bt.unsupported; priv = priv })
  status_found token priv pair_service (some pair_chr) =
      ask (bt.read pair_chr) (status_read token priv pair_service pair_chr)

  -- `CHR_SECURE_STATUS_UUID`.
  unfoldable pub secure_found : List ℕ → BtPriv → Option ℕ → Io W Paired
  secure_found token priv none = done (record { rc = bt.unsupported; priv = priv })
  secure_found token priv (some pair_service) =
      ask (bt.get_characteristic pair_service "f557d96b-8284-4667-8793-b971c1deca2a")
        (status_found token priv pair_service)

  -- `SVC_SECURE_PAIR_UUID`.
  unfoldable pub find_secure : List ℕ → BtPriv → Io W Paired
  find_secure token priv =
      tell (bt.set_progress 45)
        (ask (bt.get_service "123d8f06-62a1-4935-9322-833c531ee225") (secure_found token priv))

  unfoldable pub bonded : List ℕ → BtPriv → ℕ → Io W Paired
  bonded token priv rc =
      if rc == 0
      then find_secure token priv
      else done (record { rc = bt.no_connection; priv = priv })

  unfoldable pub pair_securely : Bool → List ℕ → BtPriv → Io W Paired
  pair_securely is_saved token priv =
      tell (bt.set_progress 35)
        (if is_saved then find_secure token priv else ask bt.create_bond (bonded token priv))

  -- The notifications of an older camera.
  unfoldable pub subscribe_some : Io W ℕ → Io W ℕ
  subscribe_some k =
      using
        (subscribe bt "4e941240-d01d-46b9-a5ea-67636806830b" "bf6dc9cf-3606-4ec9-a4c8-d77576e93ea4"
          1)
        (λ rc.
          using
            (subscribe bt "4c0020fe-f3b6-40de-acc9-77d129067b14"
              "a68e3f66-0fcc-4395-8d4c-aa980b5877fa" 1)
            (λ rc1.
              using
                (subscribe bt "4c0020fe-f3b6-40de-acc9-77d129067b14"
                  "bd17ba04-b76b-4892-a545-b73ba1f74dae" 1)
                (λ rc2. tell (bt.set_progress 60) k)))

  unfoldable pub subscribe_more : Io W ℕ
  subscribe_more =
      using
        (subscribe bt "4c0020fe-f3b6-40de-acc9-77d129067b14" "f9150137-5d40-4801-a8dc-f7fc5b01da50"
          1)
        (λ rc. tell (bt.set_progress 70) (
          using
            (subscribe bt "4c0020fe-f3b6-40de-acc9-77d129067b14"
              "ad06c7b7-f41a-46f4-a29a-712055319122" 1)
            (λ rc1. tell (bt.set_progress 80) (
              subscribe bt "4c0020fe-f3b6-40de-acc9-77d129067b14"
                "049ec406-ef75-4205-a390-08fe209c51f0" 1))))

  unfoldable pub plain_named : List ℕ → BtPriv → ℕ → ℕ → Io W Paired
  plain_named token priv pair_service rc =
      if rc == 0
      then using (fill_props priv) (λ p. tell (bt.unref_service pair_service) (
          tell (bt.set_progress 50)
            (using (subscribe_some subscribe_more) (λ rc1. finish_pairing token p))))
      else done (record { rc = rc; priv = priv })

  unfoldable pub token_written : List ℕ → BtPriv → ℕ → ℕ → Io W Paired
  token_written token priv pair_service rc =
      if rc == 0
      then tell (bt.set_progress 40)
          (using (send_client_name pair_service) (plain_named token priv pair_service))
      else done (record { rc = rc; priv = priv })

  unfoldable pub pair_found : List ℕ → BtPriv → ℕ → Option ℕ → Io W Paired
  pair_found token priv pair_service none = done (record { rc = bt.unsupported; priv = priv })
  pair_found token priv pair_service (some pair_chr) =
      ask (bt.write pair_chr token) (token_written token priv pair_service)

  -- `CHR_PAIR_UUID`.
  unfoldable pub pair : Bool → List ℕ → BtPriv → Option ℕ → Io W Paired
  pair is_saved token priv none = pair_securely is_saved token priv
  pair is_saved token priv (some pair_service) =
      ask (bt.get_characteristic pair_service "aba356eb-9633-4e60-b73f-f52516dbd671")
        (pair_found token priv pair_service)

  -- `SVC_PAIR_UUID`.
  unfoldable pub device_connected : Bool → List ℕ → BtPriv → ℕ → Io W Paired
  device_connected is_saved token priv rc =
      if rc == 0
      then ask (bt.get_service "91f1de68-dff6-466e-8b65-ff13b0f16fb8") (pair is_saved token priv)
      else done (record { rc = rc; priv = priv })

  -- The token is the last four of seven bytes, of which the advertisement may have given fewer;
  -- `junk` is what they held before.
  unfoldable pub advertised_token : List ℕ → List ℕ → List ℕ
  advertised_token junk mfgdata = take 4 (drop 3 (mfgdata ++ drop (length mfgdata) junk))

  unfoldable pub advertised : List ℕ → BtPriv → List ℕ → Io W Paired
  advertised junk priv mfgdata =
      if length mfgdata == 0
      then tell (bt.add_instruction "Device is not in pairing mode")
          (done (record { rc = bt.no_connection; priv = priv }))
      else ask bt.device_connect (device_connected false (advertised_token junk mfgdata) priv)

  unfoldable pub started : List ℕ → BtPriv → Option (List ℕ) → Io W Paired
  started junk priv none = look bt.manufacturer_data (advertised junk priv)
  started junk priv (some aux_data) =
      ask bt.device_connect (device_connected true (take 4 aux_data) priv)

  unfoldable pub fuji_connect_bluetooth : List ℕ → BtPriv → Option (List ℕ) → Io W Paired
  fuji_connect_bluetooth junk priv saved =
      tell bt.set_callback (tell (bt.set_progress 5) (started junk priv saved))
