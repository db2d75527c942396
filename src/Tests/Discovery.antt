-- ===== src/Tests/Discovery.antt =====
-- A tether message.
use libfuji.Common.{ℕ, ◌≡◌, refl, true, List, [], ◌∷◌, some, arith}
use libfuji.Fuji.Session.{FujiTransport}
use libfuji.Discovery.Words.{strtok_r, first_word, skip_delims, span_word, is_delim, words}
use libfuji.Discovery.{
  DiscoverInfo, read_headers, is_word, snprintf_64, tether_header, strtol_10, signed_value,
  skip_space, digits_value, is_digit,
}
use libfuji.Discovery.Headers.{stored, read_headers-stored}
use libfuji.Discovery.Names.{
  Message, greeting, tether_message, HasNames, read_all, read_all-HasNames,
}
use libfuji.Discovery.Thread.{initial_info}

abbrev blank : DiscoverInfo
blank = record {
  transport = FujiTransport.autosave;
  camera_ip = [];
  camera_name = [];
  camera_model = [];
  client_name = [];
  camera_port = 0;
}

-- `"DSCPORT: 80\r\nDSC:1"`.
abbrev message : List ℕ
message =
    0x44 ∷ 0x53 ∷ 0x43 ∷ 0x50 ∷ 0x4f ∷ 0x52 ∷ 0x54 ∷ 58 ∷ 32 ∷ 0x38 ∷ 0x30 ∷ 13 ∷ 10 ∷ 0x44 ∷ 0x53
    ∷ 0x43 ∷ 58 ∷ 0x31 ∷ []

abbrev told : DiscoverInfo
told = record blank { camera_ip = 0x31 ∷ []; camera_port = 80 }

is_read : read_headers 19 tether_header message blank ≡ some (told, true)
unfolding read_headers tether_header is_word snprintf_64 strtol_10 signed_value skip_space
    digits_value is_digit strtok_r first_word skip_delims span_word is_delim
is_read = refl

read_headers-stored_example :
    read_headers 19 tether_header message blank ≡ some (stored tether_header (words message) blank)
read_headers-stored_example = read_headers-stored tether_header 19 message blank (omega arith)

-- A greeting and a tether message, of a camera that is not named.
abbrev exchange : List (Message × List ℕ)
exchange = (greeting, []) ∷ (tether_message, message) ∷ []

read_all-told : read_all exchange (initial_info []) ≡ some told
unfolding read_all read_headers tether_header is_word snprintf_64 strtol_10 signed_value skip_space
    digits_value is_digit strtok_r first_word skip_delims span_word is_delim
read_all-told = refl

read_all-HasNames_example : HasNames told
read_all-HasNames_example = read_all-HasNames [] exchange told read_all-told
