-- ===== src/Fuji/Handshake.antt =====
-- The handshake of a session over a network (lib/fuji.c: `ptpip_fuji_connect_handshake`).
use libfuji.Common.{
  ℕ, ◌+◌, ◌-◌, ◌^◌, ◌||◌, List, ◌++◌, ◌==◌, if◌then◌else◌, take, replicate, u32, le32, read_u32,
}
pub use libfuji.Calls.{is_negative}
use libfuji.Fuji.Session.{Rc, ok, runtime_err}
use libfuji.Fuji.Steps.{Step, ◌and_then◌, finished, locked, calling, examining, affect}

-- The command socket, and libpict's `buffer`, `r->data`. `write` and `read` return an `int`; `read` puts the bytes
-- into the buffer from the given offset on. `unicode` is what `ptp_write_unicode_string` writes, and
-- `send_cam_name` reads the answer in the buffer and passes the camera's name to the frontend.
pub record CommandSocket (W : Type 0) : Type 0 where
  pub buffer : W → List ℕ
  pub set_buffer : List ℕ → W → W
  pub write : List ℕ → W → W × ℕ
  pub read : ℕ → ℕ → W → W × ℕ
  pub unicode : List ℕ → List ℕ
  pub send_cam_name : W → W
  pub io_err : Rc

module _ {W : Type 0} (socket : CommandSocket W) where
  -- `struct FujiInitPacket`. In PTP/IP, an init command request is 1, and its acknowledgement 2.
  unfoldable pub init_packet : List ℕ → List ℕ
  init_packet device_name =
      le32 0x52
      ++ le32 1
      ++ le32 0x8f53e4f2
      ++ le32 0x5d48a5ad
      ++ le32 0x0b7fb287
      ++ le32 0xd0ded5d3
      ++ le32 0
      ++ take 54 (socket.unicode device_name ++ replicate 54 0)

  -- Reading from the socket, where less than one byte is an error.
  unfoldable pub receive : ℕ → ℕ → Step W
  receive of n =
      calling (socket.read of n)
        (λ x. if x == 0 || is_negative x then finished socket.io_err else finished ok)

  unfoldable pub handshake_unlocked : List ℕ → Step W
  handshake_unlocked device_name =
      affect (socket.set_buffer (init_packet device_name))
      and_then calling (socket.write (init_packet device_name))
          (λ n. if n == 0x52 then finished ok else finished socket.io_err)
      and_then receive 0 4
      and_then examining (λ w. read_u32 (socket.buffer w) 0)
          (λ len. receive 4 (u32 (2 ^ 32 + len - 4)))
      and_then examining (λ w. read_u32 (socket.buffer w) 4)
          (λ type. if type == 2 then finished ok else finished runtime_err)

  unfoldable pub ptpip_fuji_connect_handshake : List ℕ → Step W
  ptpip_fuji_connect_handshake device_name = locked (handshake_unlocked device_name)
