-- ===== src/Bluetooth/Notifs.antt =====
-- What a newer camera is asked to notify of (lib/bluetooth.c: `fuji_connect_bluetooth`).
use libfuji.Common.{ℕ, String, List, [], ◌∷◌}

-- The table of notifications.
pub record Notifs : Type 0 where
  pub service_uuid : String
  pub char_uuid : String
  pub flag : ℕ

unfoldable pub subscriptions : List Notifs
subscriptions =
    record {
      service_uuid = "4c0020fe-f3b6-40de-acc9-77d129067b14";
      char_uuid = "a68e3f66-0fcc-4395-8d4c-aa980b5877fa";
      flag = 0;
    }
    ∷ record {
      service_uuid = "4c0020fe-f3b6-40de-acc9-77d129067b14";
      char_uuid = "bd17ba04-b76b-4892-a545-b73ba1f74dae";
      flag = 0;
    }
    ∷ record {
      service_uuid = "4c0020fe-f3b6-40de-acc9-77d129067b14";
      char_uuid = "f9150137-5d40-4801-a8dc-f7fc5b01da50";
      flag = 1;
    }
    ∷ record {
      service_uuid = "4c0020fe-f3b6-40de-acc9-77d129067b14";
      char_uuid = "ad06c7b7-f41a-46f4-a29a-712055319122";
      flag = 1;
    }
    ∷ record {
      service_uuid = "804daa8e-ffeb-4ab3-8e75-6edd7303208d";
      char_uuid = "7170fd5a-56d9-4c19-b043-7a7047d8e1a0";
      flag = 1;
    }
    ∷ record {
      service_uuid = "4e941240-d01d-46b9-a5ea-67636806830b";
      char_uuid = "bf6dc9cf-3606-4ec9-a4c8-d77576e93ea4";
      flag = 1;
    }
    ∷ record {
      service_uuid = "4e941240-d01d-46b9-a5ea-67636806830b";
      char_uuid = "75823784-fbb7-4b71-abae-cd9a34072e3c";
      flag = 1;
    }
    ∷ record {
      service_uuid = "4c0020fe-f3b6-40de-acc9-77d129067b14";
      char_uuid = "e6692c5c-b7cd-44f4-95fc-eda07ce32560";
      flag = 1;
    }
    ∷ record {
      service_uuid = "4e941240-d01d-46b9-a5ea-67636806830b";
      char_uuid = "aab609c4-94dd-4d89-bc60-665d5090b828";
      flag = 1;
    }
    ∷ record {
      service_uuid = "4e941240-d01d-46b9-a5ea-67636806830b";
      char_uuid = "2a125640-706d-4dd1-b420-c0f4ab93c361";
      flag = 1;
    }
    ∷ record {
      service_uuid = "4e941240-d01d-46b9-a5ea-67636806830b";
      char_uuid = "82a9f452-c5ce-4ef5-8203-3fc9a47f8171";
      flag = 1;
    }
    ∷ record {
      service_uuid = "4e941240-d01d-46b9-a5ea-67636806830b";
      char_uuid = "deef7187-3f43-4364-9e22-11a8c8a15951";
      flag = 1;
    }
    ∷ record {
      service_uuid = "4e941240-d01d-46b9-a5ea-67636806830b";
      char_uuid = "c95d91ae-b247-4d6d-8661-7dd5d6a0f85b";
      flag = 1;
    }
    ∷ []
