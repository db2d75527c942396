-- ===== src/Fuji/Thumbs/Size.antt =====
-- The bounds that `fuji_get_thumb` (lib/fuji.c) gives to its caller.
use libfuji.Common.{
  ℕ, ◌≤◌, ◌≡◌, ◌⊎◌, inl, inr, refl, Bool, true, false, none, some, if◌then◌else◌, length, ltb,
  arith, ◌&&◌, not,
}
use libfuji.Fuji.Session.{
  Rc, ok, check_code, runtime_err, canceled, other, PtpRuntime, Port, set_world,
}
use libfuji.Fuji.Setup.{is_autosave}
use libfuji.Fuji.Handshake.{is_negative}
use libfuji.Fuji.Thumbs.{Thumb, thumb_result, get_thumbnail, informed, fuji_get_thumb}

module _ {W : Type 0} (port : Port W) (handle : ℕ) where
  -- No thumbnail, or at least 100 bytes, which are all of the last payload.
  abbrev pub IsPayload : Thumb W → Type 0
  IsPayload none = ⊥
  IsPayload (some (r, rc, offset, size)) =
      (offset ≡ 0)
      × ((size ≡ 0) ⊎ ((rc ≡ ok) × (100 ≤ size) × (size ≡ length (port.payload r.world))))

  if-IsPayload :
      (b : Bool) (x y : Thumb W) → IsPayload x → IsPayload y → IsPayload (if b then x else y)
  if-IsPayload true x y h k = h
  if-IsPayload false x y h k = k

  result-IsPayload : (r : PtpRuntime W) (rc : Rc) → IsPayload (thumb_result port handle r rc)
  unfolding thumb_result
  result-IsPayload r ok = go (ltb (length (port.payload r.world)) 100) (λ h. ground (arith, h))
    where
      go :
          (b : Bool)
          → (b ≡ false → 100 ≤ length (port.payload r.world))
          → IsPayload
              (if b then some (r, ok, 0, 0) else some (r, ok, 0, length (port.payload r.world)))
      go true h = (refl, inl refl)
      go false h = (refl, inr (refl, h refl, refl))
  result-IsPayload r check_code = (refl, inl refl)
  result-IsPayload r runtime_err = (refl, inl refl)
  result-IsPayload r canceled = (refl, inl refl)
  result-IsPayload r (other e) = (refl, inl refl)

  informed-IsPayload :
      (r : PtpRuntime W) (rc : Rc) (size : ℕ) → IsPayload (informed port handle r rc size)
  unfolding informed get_thumbnail
  informed-IsPayload r ok size = result-IsPayload _ _
  informed-IsPayload r check_code size = (refl, inl refl)
  informed-IsPayload r runtime_err size = (refl, inl refl)
  informed-IsPayload r canceled size = (refl, inl refl)
  informed-IsPayload r (other e) size = (refl, inl refl)

  -- Outside the transport of PC AutoSave, `fuji_get_thumb` always returns; it gives no thumbnail, or, with
  -- result 0, one of at least 100 bytes that is exactly the payload of the camera's last response.
  pub get_thumb-IsPayload :
      (r : PtpRuntime W)
      → is_autosave r.fuji.transport ≡ false
      → IsPayload (fuji_get_thumb port handle r)
  unfolding fuji_get_thumb get_thumbnail
  get_thumb-IsPayload r h =
      rw (fuji_get_thumb, h)
        (if-IsPayload (ltb 0x20006 r.fuji.remote_version && not (is_negative r.fuji.remote_version))
          _ _
          (informed-IsPayload (set_world r (port.get_object_info handle r.world).0)
            (port.get_object_info handle r.world).1 (port.get_object_info handle r.world).2)
          (result-IsPayload (set_world r (port.get_thumbnail handle r.world).0)
            (port.get_thumbnail handle r.world).1))
