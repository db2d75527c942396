-- ===== src/Fuji/Frames.antt =====
-- The frames of live view (lib/fuji.c: `ptp_fuji_read_liveview_frame`).
use libfuji.Common.{
  ap, ◌∙◌, ◌≡◌, refl, arith, ℕ, zero, suc, ◌+◌, ◌-◌, ◌^◌, ◌≤◌, ◌<◌, List, Option, none, some, ◌==◌,
  ltb, if◌then◌else◌, u32, read_u32,
}
use libfuji.Fuji.Handshake.{is_negative}

-- `ptpip_video_read`: what it returns, an `int`, and the bytes that it has read.
pub record VideoSocket (W : Type 0) : Type 0 where
  pub read : ℕ → W → W × ℕ × List ℕ

-- What the function leaves and returns, and the frame's size, which an error leaves as it was.
abbrev pub Frame : Type 0 → Type 0
Frame W = Option (W × ℕ × ℕ)

module _ {W : Type 0} (video : VideoSocket W) where
  -- `while (len != 0)`, with fuel, at offset `of` in a buffer of `room` bytes; writing behind it is undefined. An
  -- error ends the loop.
  unfoldable pub read_rest : ℕ → ℕ → ℕ → ℕ → W → Option W
  read_rest zero room zero of w = some w
  read_rest zero room (suc len) of w = none
  read_rest (suc fuel) room zero of w = some w
  read_rest (suc fuel) room (suc len) of w =
      let (w', rc, bytes) = video.read (suc len) w in
      let rest : Option W = read_rest fuel room (u32 (2 ^ 32 + suc len - rc)) (u32 (of + rc)) w' in
      if is_negative rc then some w' else if ltb room (of + rc) then none else rest

  unfoldable pub read_body : ℕ → ℕ → W → Frame W
  read_body fuel len w =
      let size : ℕ = u32 (2 ^ 32 + len - 18) in
      elim (read_rest fuel len size 0 w) [ none ↦ none | some w' ↦ some (w', 0, size) ]

  unfoldable pub ptp_fuji_read_liveview_frame : ℕ → ℕ → W → Frame W
  ptp_fuji_read_liveview_frame fuel old_size w =
      let (w', rc, header) = video.read 18 w in
      if rc == 18
      then elim (read_u32 header 0) [ none ↦ none | some len ↦ read_body fuel len w' ]
      else some (w', rc, old_size)

-- A socket whose reads give at least one byte and at most as many as they are asked for.
pub record Flows {W : Type 0} (video : VideoSocket W) : Type 0 where
  pub some_bytes : (n : ℕ) (w : W) → 0 < n → 0 < (video.read n w).1
  pub at_most : (n : ℕ) (w : W) → 0 < n → (video.read n w).1 ≤ n

module _ {W : Type 0} {video : VideoSocket W} (c : Flows video) where
  -- A read that went well, and the rest.
  read_on :
      (rc room of : ℕ) (w' : W) (rest : Option W)
      → rc < 2 ^ 31
      → of + rc ≤ room
      → (if is_negative rc then some w' else if ltb room (of + rc) then none else rest) ≡ rest
  read_on rc room of w' rest h l = ground (arith, h, l)

  read_rest-done :
      (fuel room len of : ℕ) (w : W)
      → len ≤ fuel
      → of + len ≤ room
      → room < 2 ^ 31
      → (w' : W) × (read_rest video fuel room len of w ≡ some w')
  unfolding read_rest
  read_rest-done zero room zero of w l f b = (w, refl)
  read_rest-done zero room (suc len) of w l f b = absurd (omega (arith, l))
  read_rest-done (suc fuel) room zero of w l f b = (w, refl)
  read_rest-done (suc fuel) room (suc len) of w l f b =
      let (x, rc, bytes) = video.read (suc len) w in
      let p : 0 < rc = c.some_bytes (suc len) w (omega arith) in
      let q : rc ≤ suc len = c.at_most (suc len) w (omega arith) in
      let e : u32 (2 ^ 32 + suc len - rc) ≡ suc len - rc = omega (arith, p, q, f, b) in
      let g : u32 (of + rc) ≡ of + rc = omega (arith, q, f, b) in
      let (w', h) =
        read_rest-done fuel room (suc len - rc) (of + rc) x (omega (arith, p, q, l))
          (omega (arith, q, f)) b in
      (
        w',
        read_on rc room of x _ (omega (arith, q, f, b)) (omega (arith, q, f))
            ∙ ap (λ (n : ℕ). read_rest video fuel room n (u32 (of + rc)) x) e
            ∙ ap (λ (o : ℕ). read_rest video fuel room (suc len - rc) o x) g
            ∙ h,
      )

  read_body-done :
      (len : ℕ) (x w' : W)
      → 18 ≤ len
      → len < 2 ^ 31
      → read_rest video len len (len - 18) 0 x ≡ some w'
      → read_body video len len x ≡ some (w', 0, len - 18)
  unfolding read_body
  read_body-done len x w' l b k =
      let s : u32 (2 ^ 32 + len - 18) ≡ len - 18 = omega (arith, l, b) in
      rw (read_body, s, k) (ap (λ (n : ℕ). some (w', 0, n)) s)

  framed :
      (w : W) (len old_size : ℕ) (f : Frame W)
      → (video.read 18 w).1 ≡ 18
      → read_u32 (video.read 18 w).2 0 ≡ some len
      → read_body video len len (video.read 18 w).0 ≡ f
      → ptp_fuji_read_liveview_frame video len old_size w ≡ f
  unfolding ptp_fuji_read_liveview_frame
  framed w len old_size f e h k = rw (e, h) k

  -- Where the header of 18 bytes arrives and says a length of at least 18 and less than 2 ^ 31, and the socket
  -- goes on to give bytes, the function returns 0, within as many rounds as the length, with the size of
  -- the frame behind the header; nothing is written behind the buffer.
  pub read_liveview_frame_done :
      (w : W) (len old_size : ℕ)
      → (video.read 18 w).1 ≡ 18
      → read_u32 (video.read 18 w).2 0 ≡ some len
      → 18 ≤ len
      → len < 2 ^ 31
      → (w' : W) × (ptp_fuji_read_liveview_frame video len old_size w ≡ some (w', 0, len - 18))
  read_liveview_frame_done w len old_size e h l b =
      let (w', k) =
        read_rest-done len len (len - 18) 0 (video.read 18 w).0 (omega arith) (omega (arith, l))
          b in
      (w', framed w len old_size _ e h (read_body-done len (video.read 18 w).0 w' l b k))
