-- ===== src/Discovery.antt =====
-- What a camera on the network says of itself (lib/discovery.c): the three loops over the words of
-- a message.
pub mod Headers
pub mod Names
pub mod Kept
pub mod Ends
pub mod Closed
pub mod Balance
pub mod Descriptors
pub mod Sockets
pub mod Exchange
pub mod Thread
pub mod Words
use libfuji.Common.{
  ℕ, zero, suc, ◌+◌, ◌-◌, ◌*◌, ◌^◌, List, [], ◌∷◌, Option, none, some, Bool, true, false, ◌==◌,
  ◌&&◌, ◌||◌, ltb, leb, if◌then◌else◌, take, u32, neg32,
}
use libfuji.Fuji.Session.{FujiTransport}
use libfuji.Discovery.Words.{strtok_r}

-- `struct DiscoverInfo` (lib/fuji.h), as far as the messages fill it in. A name is what its 64
-- bytes hold: it has a terminator where it is shorter.
pub record DiscoverInfo : Type 0 where
  pub transport : FujiTransport
  pub camera_ip : List ℕ
  pub camera_name : List ℕ
  pub camera_model : List ℕ
  pub client_name : List ℕ
  pub camera_port : ℕ

-- For a word that takes the next one as its value: where that is stored.
abbrev pub Header : Type 0
Header = List ℕ → Option (List ℕ → DiscoverInfo → DiscoverInfo)

-- `while (cur != NULL)`, with fuel: what is left in the record, and whether the function goes on
-- behind the loop.
unfoldable pub read_headers : ℕ → Header → List ℕ → DiscoverInfo → Option (DiscoverInfo × Bool)
read_headers zero header s info = none
read_headers (suc fuel) header s info = elim (strtok_r s) [
  | none ↦ some (info, true)
  | some p ↦ elim (header p.0) [
    | none ↦ read_headers fuel header p.1 info
    | some store ↦ elim (strtok_r p.1) [
      | none ↦ some (info, false)
      | some q ↦ read_headers fuel header q.1 (store q.0 info)
    ]
  ]
]

-- `!strcmp`.
unfoldable pub is_word : List ℕ → List ℕ → Bool
is_word [] [] = true
is_word (x ∷ xs) (y ∷ ys) = x == y && is_word xs ys
is_word xs ys = false

-- `strncpy` into 64 bytes, which leaves out the terminator where there is no room, and `snprintf`
-- with `"%s"`, which does not.
unfoldable pub strncpy_64 : List ℕ → List ℕ
strncpy_64 s = take 64 s

unfoldable pub snprintf_64 : List ℕ → List ℕ
snprintf_64 s = take 63 s

-- `respond_to_datagram`: `DISCOVER`, whose value may be `*`, and `DSCADDR`.
unfoldable pub greeting_header : Header
greeting_header cur =
    if is_word cur (0x44 ∷ 0x49 ∷ 0x53 ∷ 0x43 ∷ 0x4f ∷ 0x56 ∷ 0x45 ∷ 0x52 ∷ [])
    then some (λ value info.
      if is_word value (0x2a ∷ []) then info else record info { client_name = strncpy_64 value })
    else if is_word cur (0x44 ∷ 0x53 ∷ 0x43 ∷ 0x41 ∷ 0x44 ∷ 0x44 ∷ 0x52 ∷ [])
    then some (λ value info. record info { camera_ip = strncpy_64 value })
    else none

-- `start_invite_server`: `DSCNAME` and `DSCMODEL`.
unfoldable pub invite_header : Header
invite_header cur =
    if is_word cur (0x44 ∷ 0x53 ∷ 0x43 ∷ 0x4e ∷ 0x41 ∷ 0x4d ∷ 0x45 ∷ [])
    then some (λ value info. record info { camera_name = snprintf_64 value })
    else if is_word cur (0x44 ∷ 0x53 ∷ 0x43 ∷ 0x4d ∷ 0x4f ∷ 0x44 ∷ 0x45 ∷ 0x4c ∷ [])
    then some (λ value info. record info { camera_model = snprintf_64 value })
    else none

-- `strtol` in base 10: digits, behind white space that a word can hold and a sign. The fifteen
-- bytes that are read have no number that a `long` cannot hold.
unfoldable pub is_digit : ℕ → Bool
is_digit c = leb 0x30 c && leb c 0x39

unfoldable pub digits_value : ℕ → List ℕ → ℕ
digits_value n [] = n
digits_value n (c ∷ cs) =
    let rest : ℕ = digits_value (n * 10 + (c - 0x30)) cs in if is_digit c then rest else n

unfoldable pub signed_value : List ℕ → ℕ
signed_value [] = 0
signed_value (c ∷ cs) =
    if c == 0x2d
    then u32 (neg32 (u32 (digits_value 0 cs)))
    else if c == 0x2b
    then u32 (digits_value 0 cs)
    else u32 (digits_value 0 (c ∷ cs))

-- The white space of C but for the delimiters: tabs, and a form feed.
unfoldable pub skip_space : List ℕ → List ℕ
skip_space [] = []
skip_space (c ∷ cs) =
    let rest : List ℕ = skip_space cs in if c == 9 || c == 11 || c == 12 then rest else c ∷ cs

unfoldable pub strtol_10 : List ℕ → ℕ
strtol_10 s = signed_value (skip_space s)

-- `fuji_tether_accept`: `DSC`, `CAMERANAME` and `DSCPORT`.
unfoldable pub tether_header : Header
tether_header cur =
    if is_word cur (0x44 ∷ 0x53 ∷ 0x43 ∷ [])
    then some (λ value info. record info { camera_ip = snprintf_64 value })
    else if is_word cur (0x43 ∷ 0x41 ∷ 0x4d ∷ 0x45 ∷ 0x52 ∷ 0x41 ∷ 0x4e ∷ 0x41 ∷ 0x4d ∷ 0x45 ∷ [])
    then some (λ value info. record info { camera_model = snprintf_64 value })
    else if is_word cur (0x44 ∷ 0x53 ∷ 0x43 ∷ 0x50 ∷ 0x4f ∷ 0x52 ∷ 0x54 ∷ [])
    then some (λ value info. record info { camera_port = strtol_10 (take 15 value) })
    else none
