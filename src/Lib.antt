-- ===== src/Lib.antt =====
-- A model of libfuji, a library that talks to Fujifilm cameras and handles their raw conversion
-- profiles.
--
-- The profile library (fp/src) is modelled in Fp:
-- - Fp/Lookup: `struct FujiLookup`, and the searches of a table by value and by key.
-- - Fp/Tables: the lookup tables of fp/src/data.c, one definition for each; `fp_color_temp` is put
--   together from eight parts.
-- - Fp/Profile: `struct FujiProfile` as a record, `fp_apply_profile`, and the choice of the tone tables.
-- - Fp/D185: `fp_create_d185` and `fp_parse_d185` of fp/src/d185.c with the switches over the
--   properties, `get_prop` and `parse_prop`.
-- - Fp/Xml: fp/src/xml.c: `parse_prop`, `sanitize_parsed_conv_profile`, `fp_parse_fp1` and the dump.
-- - Fp/Pack: a profile file read, applied and packed, as lib/fuji_usb.c does it.
-- - Common: Boolean tests, lists and bytes. Tests: concrete inputs.
--
-- A session with a camera (lib) is modelled in Fuji:
-- - Fuji/Session: `struct PtpUserPriv`, the part of libpict's `struct PtpRuntime` that lib/fuji.c uses,
--   and `Port`, a record of libpict's operations and the frontend's callbacks on a state of the outside.
--   Every function of the session is one from a runtime to a runtime and a return code; `or_return` is
--   `if (rc) return rc`.
-- - Fuji/Ends: how such chains are reasoned about.
-- - Fuji/Events: `fuji_get_events`, from the bytes of the payload to the session's record.
-- - Fuji/Modes: `fuji_config_init_mode`.
-- - Fuji/Download: `fuji_download_file_ex`, its loop and its clean-up, and `ptp_fuji_get_object_handles`.
--   What is expected of a camera is a record of laws: `IsFaithful` for the bytes, `IsCooperative` for
--   success.
-- - Fuji/Steps: such functions put together from calls, assignments and tests; Fuji/Steps/Keeps has a
--   rule for what each way of putting them together keeps, and Fuji/Steps/Ensures for what holds where
--   0 is returned.
-- - Fuji/Versions, Fuji/Handshake, Fuji/Setup: `fuji_config_version`, `fuji_xapp_config_gallery`,
--   `ptpip_fuji_connect_handshake`, `fuji_setup`. Fuji/Liveview: `fuji_config_liveview`,
--   `fuji_end_liveview`, `fuji_config_image_gallery`. Fuji/Frames: `ptp_fuji_read_liveview_frame`.
-- - Fuji/Thumbs: `fuji_get_thumb` and `ptp_get_partial_exif`, on top of Exif. Fuji/Tether:
--   `fuji_tether_download`.
-- - Fuji/Shutdown: `ptp_report_error` as a function, and in Fuji/Shutdown/Threads as a step relation for
--   any number of threads that call it at once.
--
-- Exif models lib/exif.c. A buffer there is a memory, from an index to a byte or to `none`, since it
-- grows by what a callback gives. A parser returns nothing where C leaves the behaviour undefined, and
-- no value where the C function returns -1.
--
-- Fuji/Device models `fuji_register_device_info` of lib/data.c, and Fuji/DeviceInfo what lib/fuji.c does
-- with it.
--
-- Fuji/Usb models lib/fuji_usb.c over a record of libpict's calls, `UsbPort`; Fuji/Usb/Raf has the
-- conversion of RAW photos, which puts the profile library to use.
--
-- Discovery models lib/discovery.c: the loops over the words of a camera's messages, with `strtok_r`
-- written out in Discovery/Words, where a loop has a round for each byte and one more;
-- Discovery/Sockets has the servers, Discovery/Exchange what is said to a camera, and Discovery/Thread
-- `fuji_discover_thread`, over `Network`, a record of the system's calls.
--
-- Bluetooth and Bluetooth/Pairing model lib/bluetooth.c over `PakBt`, a record of the runtime's calls.
-- Calls puts such chains together, and Calls/Counts has a rule for what each way does to the list of
-- the descriptors or references that are held.
--
-- Numbers are naturals; a `uint32_t` is one below 2 ^ 32, and arithmetic on it is cut off with `% 2 ^
-- 32`; a negative value in a table is its bit pattern. A buffer is the list of its bytes, and an
-- access that leaves the buffer is `none`. A variable that C leaves uninitialised is an argument.
-- Loops run over lists or over a number of rounds that is left; the padding of `fp_create_d185` has
-- fuel 0x202, one more than the bytes that it can write; a download has as many rounds as the object
-- has bytes, and one more, since each round that goes on has received a byte. ezxml's
-- `ezxml_parse_file` is an argument that gives the tree or, for NULL, `none`; `strtoul` of the C
-- library is written out with a 64-bit `long`.
--
-- The loop over the events of a camera, which reads their count anew in every round, has 65536 rounds,
-- one more than a count of 16 bits. The loop in `fuji_setup` that waits for access has fuel; a camera that grants access after n polls
-- needs n. Reading a frame has as many rounds as the frame has bytes. The loop of discovery has fuel,
-- one round for each call of `state_idle`; it goes on until a camera comes or the user cancels, for
-- which there is no bound. The loop for a converted photo has its twenty rounds.
--
-- Not modelled: the readers of lib/data.c that hand bytes to libpict's string readers; ezxml and
-- libpict themselves, the clock, pauses, messages to the user and the error text, the command lines, the
-- script bindings of lib/module.c and the manual tests.
pub mod Bluetooth
pub mod Calls
pub mod Common
pub mod Discovery
pub mod Exif
pub mod Fp
pub mod Fuji
pub mod Tests
