-- ===== src/Fuji/Download/Handles.antt =====
-- The handles that `ptp_fuji_get_object_handles` (lib/fuji.c) makes up over a network.
use libfuji.Common.{
  ℕ, zero, suc, ◌+◌, ◌^◌, ◌<◌, ◌≢◌, false, ◌≡◌, refl, List, some, get_elem?, length, arith,
}
use libfuji.Fuji.Session.{ok, PtpRuntime, Port}
use libfuji.Fuji.Download.{is_usb, handles_from, ptp_fuji_get_object_handles}

length-handles_from : (i n : ℕ) → length (handles_from i n) ≡ n
unfolding handles_from
length-handles_from i zero = refl
length-handles_from i (suc n) = omega (arith, length-handles_from (i + 1) n)

handles_from-at : (i n j : ℕ) → j < n → get_elem? (handles_from i n) j ≡ some (i + j + 1)
unfolding handles_from
handles_from-at i zero j h = absurd (omega arith)
handles_from-at i (suc n) zero h = ground arith
handles_from-at i (suc n) (suc j) h = ground (arith, handles_from-at (i + 1) n j (omega arith))

-- Over a network, with a known and positive number of objects, the list has one handle for each object,
-- the handle at index j being j + 1; so 0, which is no handle, is not among them.
pub get_object_handles-list :
    {W : Type 0} (port : Port W) (r : PtpRuntime W)
    → is_usb r.connection_type ≡ false
    → r.fuji.num_objects ≢ 0
    → r.fuji.num_objects < 2 ^ 31
    → (a : List ℕ) × (ptp_fuji_get_object_handles port r ≡ some (r, ok, a))
      × (length a ≡ r.fuji.num_objects)
      × ((j : ℕ) → j < r.fuji.num_objects → get_elem? a j ≡ some (j + 1))
unfolding ptp_fuji_get_object_handles
get_object_handles-list port r u n b = (
  handles_from 0 r.fuji.num_objects,
  ground arith,
  length-handles_from 0 r.fuji.num_objects,
  λ j h. ground (arith, handles_from-at 0 r.fuji.num_objects j h),
)
