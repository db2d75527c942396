-- ===== src/Fuji/Tether.antt =====
-- Downloads while the camera shoots tethered, and cameras with a known fault (lib/fuji.c:
-- `fuji_tether_download`, `has_wifi_issue_with_newer_hardware`).
use libfuji.Common.{ℕ, ◌+◌, List, [], ◌∷◌, Bool, true, false, if◌then◌else◌, String, str_eq}
use libfuji.Fuji.Session.{call, ◌or_return◌, ok, Port}
use libfuji.Fuji.Events.{is_wireless_tether}
use libfuji.Fuji.Steps.{run, Step, ◌and_then◌, finished, run, reading, when, affect}

module _ {W : Type 0} (port : Port W) where
  -- Image `i` and the ones behind it; `wireless_tether` also deletes them.
  unfoldable pub download_all : List ℕ → ℕ → Step W
  download_all [] i = finished ok
  download_all (handle ∷ handles) i =
      run (λ w. let (w', rc, size) = port.get_object_info handle w in (w', rc))
      and_then affect (port.download_object handle i)
      and_then reading
          (λ r. when (is_wireless_tether r.fuji.transport) (affect (port.delete_object handle)))
      and_then download_all handles (i + 1)

  unfoldable pub fuji_tether_download : Step W
  fuji_tether_download r =
      let (w, rc, handles) = port.get_object_handles r.world in
      call r (w, rc) or_return download_all handles 0

abbrev pub models_with_wifi_issue : List String
models_with_wifi_issue =
    "X-T1" ∷ "X-T10" ∷ "X-E2S" ∷ "X-E2" ∷ "X-M1" ∷ "X-A2" ∷ "X-A1" ∷ "X100T" ∷ "X70" ∷ "X30" ∷ "XQ2"
    ∷ "XQ1" ∷ []

unfoldable pub is_among : String → List String → Bool
is_among name [] = false
is_among name (model ∷ models) = if str_eq model name then true else is_among name models

unfoldable pub has_wifi_issue_with_newer_hardware : String → Bool
has_wifi_issue_with_newer_hardware model_name = is_among model_name models_with_wifi_issue
