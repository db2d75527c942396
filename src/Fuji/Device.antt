-- ===== src/Fuji/Device.antt =====
-- The camera's properties and their values (lib/data.c: `fuji_register_device_info`). The codes of PTP
-- itself are those of the standard.
use libfuji.Common.{
  ℕ, zero, suc, ◌+◌, List, [], ◌∷◌, Option, none, some, Bool, true, false, ◌==◌, ◌||◌, ltb,
  if◌then◌else◌, ◌>>=◌, length, u32, String, read_u16, read_u32,
}

abbrev pub capture_delays : List (ℕ × String)
capture_delays = (0, "off") ∷ (2, "2s") ∷ (4, "10s") ∷ []

abbrev pub film_simulations : List (ℕ × String)
film_simulations =
    (1, "Standard")
    ∷ (2, "Vivid")
    ∷ (3, "Soft")
    ∷ (4, "4")
    ∷ (5, "5")
    ∷ (6, "6")
    ∷ (7, "7")
    ∷ (8, "8")
    ∷ (9, "9")
    ∷ (10, "10")
    ∷ (11, "11")
    ∷ []

abbrev pub exposure_indices : List (ℕ × String)
exposure_indices =
    (0x80000190, "AUTO(400)")
    ∷ (0x80000320, "AUTO(800)")
    ∷ (0x80000640, "AUTO(1600)")
    ∷ (0x80000c80, "AUTO(3200)")
    ∷ (0x80001900, "AUTO(6400)")
    ∷ (0x40000064, "AUTO(100)")
    ∷ (0xc8, "200")
    ∷ (0xfa, "250")
    ∷ (0x140, "320")
    ∷ (0x190, "400")
    ∷ (0x1f4, "500")
    ∷ (0x280, "640")
    ∷ (0x320, "800")
    ∷ (0x3e8, "1000")
    ∷ (0x4e2, "1250")
    ∷ (0x640, "1600")
    ∷ (0x7d0, "2000")
    ∷ (0x9c4, "2500")
    ∷ (0xc80, "3200")
    ∷ (0xfa0, "4000")
    ∷ (0x1388, "5000")
    ∷ (0x1900, "6400")
    ∷ (0x40003200, "12800 (?)")
    ∷ (0x40006400, "25600 (?)")
    ∷ (0x4000c800, "51200 (?)")
    ∷ []

abbrev pub f_numbers : List (ℕ × String)
f_numbers =
    (350, "f/3.5")
    ∷ (450, "f/4.5")
    ∷ (530, "f/5.3")
    ∷ (710, "f/7.1")
    ∷ (1000, "f/10.0")
    ∷ (1100, "f/11.0")
    ∷ (1600, "f/16.0")
    ∷ []

unfoldable pub name_of : ℕ → List (ℕ × String) → Option String
name_of val [] = none
name_of val ((v, name) ∷ rows) = if val == v then some name else name_of val rows

-- `PTP_DPC_CaptureDelay` is 0x5012, and `PTP_DPC_FNumber` 0x5007. A property without names has none.
unfoldable pub get_val_name : ℕ → ℕ → Option String
get_val_name code val =
    if code == 0x5012
    then name_of val capture_delays
    else if code == 0xd001
    then name_of val film_simulations
    else if code == 0xd02a
    then name_of val exposure_indices
    else if code == 0x5007
    then name_of val f_numbers
    else none

pub record PropDescValue : Type 0 where
  pub val_name : Option String
  pub raw_val : ℕ

pub record FujiPropDesc : Type 0 where
  pub code : ℕ
  pub items : List PropDescValue

-- Values of 4 bytes where `wide`, and of 2 otherwise.
unfoldable pub read_values : ℕ → Bool → ℕ → List ℕ → ℕ → Option (List PropDescValue)
read_values zero wide code bytes of = some []
read_values (suc left) wide code bytes of = do
  val ← if wide then read_u32 bytes of else read_u16 bytes of
  rest ← read_values left wide code bytes (of + (if wide then 4 else 2))
  some (record { val_name = get_val_name code val; raw_val = val } ∷ rest)

-- Behind the default value, at `of`: the number of values, and the values.
unfoldable pub read_items : Bool → ℕ → List ℕ → ℕ → Option (Option FujiPropDesc)
read_items wide code bytes of = do
  n_items ← read_u16 bytes of
  items ← read_values n_items wide code bytes (of + 2)
  some (some (record { code = code; items = items }))

-- One property; a type that is not known leaves the pointer to it uninitialised, which is no property here.
unfoldable pub read_desc : ℕ → ℕ → List ℕ → ℕ → Option (Option FujiPropDesc)
read_desc code type bytes of =
    if type == 3 || type == 4
    then (read_u32 bytes (of + 9) >>= λ default. read_items false code bytes (of + 14))
    else if type == 6
    then (read_u32 bytes (of + 9) >>= λ default.
        read_u32 bytes (of + 13) >>= λ default. read_items true code bytes (of + 18))
    else some none

-- The list, or `ptp_panic`.
pub data Registered : Type 0 where
  panicked : Registered
  registered : List (Option FujiPropDesc) → Registered

abbrev pub and_also : Option FujiPropDesc → Registered → Registered
and_also desc panicked = panicked
and_also desc (registered descs) = registered (desc ∷ descs)

unfoldable pub read_descs : ℕ → List ℕ → ℕ → Option Registered
read_descs zero bytes of = some (registered [])
read_descs (suc left) bytes of = if ltb (length bytes) of then some panicked else (do
  this_length ← read_u32 bytes of
  code ← read_u16 bytes (of + 4)
  type ← read_u16 bytes (of + 6)
  desc ← read_desc code type bytes of
  rest ← read_descs left bytes (u32 (of + this_length))
  some (and_also desc rest))

unfoldable pub fuji_register_device_info : List ℕ → Option Registered
fuji_register_device_info bytes = do n_entries ← read_u32 bytes 0; read_descs n_entries bytes 4
