-- ===== src/Fuji/Download/Succeeds.antt =====
-- When a download (lib/fuji.c: `fuji_download_file_ex`) succeeds.
use libfuji.Common.{
  sym, ap, subst, ◌∙◌, u32, ℕ, zero, suc, ◌+◌, ◌-◌, ◌^◌, ◌<◌, ◌≤◌, ◌≡◌, ◌⊎◌, inl, inr, refl, Bool,
  true, false, List, Option, none, some, length, arith, ◌==◌, leb, if-holds,
}
use libfuji.Fuji.Session.{
  xapp_wireless_comm, ◌or_return◌, ptp_mutex_lock, FujiTransport, wireless_comm, PtpUserPriv,
  Result, Rc, ok, check_code, runtime_err, canceled, other, PtpRuntime, Port, set_world,
  ptp_mutex_unlock,
}
use libfuji.Fuji.Download.{
  prepare, fuji_download_file_ex, finish, leave, download_locked, Exit, goto_end, return_now, Sink,
  next_request, take_chunk, request_chunk, download_loop,
}
use libfuji.Fuji.Download.File.{is_wireless_comm}

-- A camera that answers, with at least one byte where there is one; a user who does not cancel; a
-- receiver that takes what it gets.
pub record IsCooperative {W : Type 0} (port : Port W) (sink : Sink W) (handle : ℕ) (file : List ℕ)
    : Type 0 where
  pub never_cancels : (w : W) → (port.check_thread_cancel w).1 ≡ false
  pub has_info : (w : W) → (port.get_object_info handle w).1 ≡ ok
  pub tells_size : (w : W) → (port.get_object_info handle w).2 ≡ length file
  pub answers : (offset n : ℕ) (w : W) → (port.get_partial_object handle offset n w).1 ≡ ok
  pub carries :
      (offset n : ℕ) (w : W)
      → offset < length file
      → 0 < n
      → (0 < length (port.payload (port.get_partial_object handle offset n w).0))
        × (offset + length (port.payload (port.get_partial_object handle offset n w).0)
            ≤ length file)
  pub accepts :
      (bytes : List ℕ) (offset total : ℕ) (w : W) → (sink.handle_add bytes offset total w).1 ≡ false

module _ {W : Type 0} {port : Port W} {sink : Sink W} {handle : ℕ} {file : List ℕ}
    (c : IsCooperative port sink handle file) (bound : length file < 2 ^ 32) (u : PtpUserPriv) where
  -- A chunk is followed by another round, closer to the end, or is the last one.
  abbrev IsFine : ℕ → PtpRuntime W × (ℕ ⊎ Rc) → Type 0
  IsFine read (r, inl read') = (r.fuji ≡ u) × (read < read') × (read' < length file)
  IsFine read (r, inr rc) = (r.fuji ≡ u) × (rc ≡ ok)

  requested : (read : ℕ) → read < length file → 0 < next_request (length file) read
  unfolding next_request
  requested read h = ground (arith, bound)

  take_chunk-IsFine :
      (r : PtpRuntime W) (read : ℕ)
      → r.fuji ≡ u
      → 0 < length (port.payload r.world)
      → read + length (port.payload r.world) ≤ length file
      → IsFine read (take_chunk port sink r (length file) read)
  unfolding take_chunk
  take_chunk-IsFine r read v p q =
      let w : W = port.report_download_speed (length (port.payload r.world)) r.world in
      let added : W × Bool = sink.handle_add (port.payload r.world) read (length file) w in
      let read' : ℕ = u32 (read + length (port.payload r.world)) in
      let r' : PtpRuntime W = set_world r added.0 in
      if-holds (IsFine read) (length (port.payload r.world) == 0) _ _
        (λ z. (v, ground (arith, z, p)))
        (λ _.
          if-holds (IsFine read) added.1 _ _
            (λ a. (v, ground (arith, a, c.accepts (port.payload r.world) read (length file) w)))
            (λ _.
              if-holds (IsFine read) (leb (length file) read') (r', inr ok) (r', inl read')
                (λ _. (v, refl))
                (λ l. (v, ground (arith, p, q, bound), ground (arith, l, q, bound)))))

  -- The loop ends well.
  abbrev EndsWell : Option (Exit W) → Type 0
  EndsWell none = ⊥
  EndsWell (some (goto_end r rc)) = (r.fuji ≡ u) × (rc ≡ ok)
  EndsWell (some (return_now r rc)) = ⊥

  after_chunk :
      (read : ℕ) (r : PtpRuntime W) (next : ℕ ⊎ Rc) (again : PtpRuntime W → ℕ → Option (Exit W))
      → IsFine read (r, next)
      → ((read' : ℕ) → r.fuji ≡ u → read < read' → read' < length file → EndsWell (again r read'))
      → EndsWell (elim next as (λ x. Option (Exit W)) [
        | inl read' ↦ again r read'
        | inr rc' ↦ some (goto_end r rc')
      ])
  after_chunk read r (inl read') again (v, l, b) k = k read' v l b
  after_chunk read r (inr rc) again h k = h

  after_request :
      (r : PtpRuntime W) (rc : Rc) (x : Option (Exit W))
      → rc ≡ ok
      → EndsWell x
      → EndsWell (elim rc as (λ x. Option (Exit W)) [
        | ok ↦ x
        | check_code ↦ some (goto_end r check_code)
        | e ↦ some (return_now (ptp_mutex_unlock r) e)
      ])
  after_request r ok x h k = k
  after_request r check_code x h k = absurd cc
  after_request r runtime_err x h k = absurd cc
  after_request r canceled x h k = absurd cc
  after_request r (other e) x h k = absurd cc

  after_cancel :
      (cancel : Bool) (r : PtpRuntime W) (x : Option (Exit W))
      → cancel ≡ false
      → EndsWell x
      → EndsWell
          (elim cancel as (λ x. Option (Exit W)) [ true ↦ some (goto_end r canceled) | false ↦ x ])
  after_cancel true r x h k = absurd cc
  after_cancel false r x h k = k

  download_loop-EndsWell :
      (fuel : ℕ) (r : PtpRuntime W) (read : ℕ)
      → r.fuji ≡ u
      → read < length file
      → length file - read < fuel
      → EndsWell (download_loop port sink fuel r handle (length file) read)
  unfolding download_loop request_chunk
  download_loop-EndsWell zero r read v h l = absurd (omega arith)
  download_loop-EndsWell (suc fuel) r read v h l =
      let r1 : PtpRuntime W = set_world r (port.check_thread_cancel r.world).0 in
      let got = port.get_partial_object handle read (next_request (length file) read) r1.world in
      let (p, q) = c.carries read (next_request (length file) read) r1.world h (requested read h) in
      after_cancel (port.check_thread_cancel r.world).1 r1 _ (c.never_cancels r.world) (
        after_request (set_world r1 got.0) got.1 _ (c.answers read _ r1.world) (
          after_chunk read (take_chunk port sink (set_world r1 got.0) (length file) read).0
            (take_chunk port sink (set_world r1 got.0) (length file) read).1
            (λ r read'. download_loop port sink fuel r handle (length file) read')
            (take_chunk-IsFine (set_world r1 got.0) read v p q)
            (λ read' v' a b. download_loop-EndsWell fuel _ read' v' b (omega (arith, a, l)))))

  -- The function returns 0.
  abbrev Succeeds : Result W → Type 0
  Succeeds none = ⊥
  Succeeds (some (r, rc)) = rc ≡ ok

  finish-Succeeds :
      (t : FujiTransport) (r : PtpRuntime W)
      → is_wireless_comm t ≡ false
      → Succeeds (finish port sink t r ok)
  unfolding finish
  finish-Succeeds wireless_comm r n = cc
  finish-Succeeds t r n = refl

  leave-Succeeds :
      (x : Option (Exit W))
      → is_wireless_comm u.transport ≡ false
      → EndsWell x
      → Succeeds (leave port sink x)
  unfolding leave
  leave-Succeeds none n d = absurd d
  leave-Succeeds (some (goto_end r rc)) n (v, d) =
      subst (λ (e : Rc). Succeeds (finish port sink r.fuji.transport r e)) (sym d)
        (finish-Succeeds r.fuji.transport r
          (ap (λ (w : PtpUserPriv). is_wireless_comm w.transport) v ∙ n))
  leave-Succeeds (some (return_now r rc)) n d = absurd d

  download_locked-Succeeds :
      (r : PtpRuntime W)
      → r.fuji ≡ u
      → is_wireless_comm u.transport ≡ false
      → 0 < length file
      → Succeeds (download_locked port sink r handle)
  unfolding download_locked
  download_locked-Succeeds r v n l =
      rw (download_locked, c.has_info r.world, c.tells_size r.world)
        (leave-Succeeds _ n (download_loop-EndsWell (suc (length file)) _ 0 v l (omega arith)))

module _ {W : Type 0} {port : Port W} {sink : Sink W} {handle : ℕ} {file : List ℕ}
    (c : IsCooperative port sink handle file) (bound : length file < 2 ^ 32) where
  prepared-Succeeds :
      (t : FujiTransport) (r : PtpRuntime W)
      → is_wireless_comm t ≡ false
      → t ≡ r.fuji.transport
      → 0 < length file
      → Succeeds c bound r.fuji (
          prepare port sink t r or_return λ r1.
          download_locked port sink (ptp_mutex_lock r1) handle)
  unfolding prepare
  prepared-Succeeds wireless_comm r n v l = cc
  prepared-Succeeds xapp_wireless_comm r n v l =
      download_locked-Succeeds c bound r.fuji (ptp_mutex_lock (set_world r _)) refl
        (ap is_wireless_comm (sym v) ∙ n) l
  prepared-Succeeds t r n v l =
      download_locked-Succeeds c bound r.fuji (ptp_mutex_lock r) refl
        (ap is_wireless_comm (sym v) ∙ n) l

  succeeded :
      (u : PtpUserPriv) (o : Result W)
      → Succeeds c bound u o
      → (r' : PtpRuntime W) × (o ≡ some (r', ok))
  succeeded u none h = absurd h
  succeeded u (some (r', rc)) h = (r', ap (λ (e : Rc). some (r', e)) h)

  -- For every transport but `FUJI_FEATURE_WIRELESS_COMM`, a file of at least one and less than 2 ^ 32
  -- bytes, and a cooperative camera, user and receiver, the download returns 0.
  pub download_file-succeeds :
      (r : PtpRuntime W)
      → is_wireless_comm r.fuji.transport ≡ false
      → 0 < length file
      → (r' : PtpRuntime W) × (fuji_download_file_ex port sink r handle ≡ some (r', ok))
  unfolding fuji_download_file_ex
  download_file-succeeds r n l =
      succeeded r.fuji (fuji_download_file_ex port sink r handle)
        (prepared-Succeeds r.fuji.transport r n refl l)
