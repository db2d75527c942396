-- ===== src/Tests/Frames.antt =====
-- A frame of live view, and thumbnails.
use libfuji.Common.{ℕ, ◌-◌, ◌≡◌, refl, [], ◌∷◌, some, read_u32, arith}
use libfuji.Fuji.Session.{autosave, wireless_comm}
use libfuji.Fuji.Frames.{VideoSocket, ptp_fuji_read_liveview_frame, Flows, read_liveview_frame_done}
use libfuji.Fuji.Thumbs.{fuji_get_thumb}
use libfuji.Fuji.Thumbs.Locks.{ThumbLocks, get_thumb-locks}
use libfuji.Fuji.Thumbs.Size.{IsPayload, get_thumb-IsPayload}
use libfuji.Tests.Fuji.{sample_port, sample_runtime}

-- Each read gives all that it is asked for; the first bytes say 40.
abbrev sample_video : VideoSocket ℕ
sample_video = record { read = λ n w. (w, n, 40 ∷ 0 ∷ 0 ∷ 0 ∷ []) }

sample-Flows : Flows sample_video
sample-Flows = record { some_bytes = λ n w h. h; at_most = λ n w h. omega arith }

header_says : read_u32 (40 ∷ 0 ∷ 0 ∷ 0 ∷ []) 0 ≡ some 40
unfolding read_u32
header_says = refl

read_liveview_frame_done_example :
    (w' : ℕ) × (ptp_fuji_read_liveview_frame sample_video 40 5 7 ≡ some (w', 0, 40 - 18))
read_liveview_frame_done_example =
    read_liveview_frame_done sample-Flows 7 40 5 refl header_says (omega arith) (omega arith)

get_thumb-locks_example : ThumbLocks 0 (fuji_get_thumb sample_port 1 (sample_runtime autosave))
get_thumb-locks_example = get_thumb-locks sample_port 1 (sample_runtime autosave)

get_thumb-IsPayload_example :
    IsPayload sample_port 1 (fuji_get_thumb sample_port 1 (sample_runtime wireless_comm))
get_thumb-IsPayload_example = get_thumb-IsPayload sample_port 1 (sample_runtime wireless_comm) refl
