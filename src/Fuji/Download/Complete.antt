-- ===== src/Fuji/Download/Complete.antt =====
-- A download that succeeds has delivered the file (lib/fuji.c: `fuji_download_file_ex`).
use libfuji.Common.{
  ℕ, zero, suc, ◌+◌, ◌-◌, ◌^◌, ◌≤◌, ◌<◌, ◌≡◌, ◌≢◌, ◌⊎◌, inl, inr, refl, sym, ap, subst, ◌∙◌, Bool,
  true, false, List, ◌++◌, Option, none, some, length, take, drop, take-split, take-length-take,
  length-take-drop, take_all, arith, ◌==◌, leb, u32, if◌then◌else◌, if-holds,
}
use libfuji.Fuji.Session.{
  PtpUserPriv, ptp_mutex_unlock, Rc, ok, check_code, runtime_err, canceled, other, PtpRuntime, Port,
  set_world,
}
use libfuji.Fuji.Download.{
  Exit, goto_end, return_now, next_request, Sink, take_chunk, request_chunk, download_loop,
}

-- What a camera and a receiver of the bytes promise for the object `handle` that holds `file`; `got` is
-- what the receiver has. The object's information gives its size; a partial read that succeeds carries
-- bytes of the file from the offset on, however many; only `handle_add` adds to what the receiver has.
pub record IsFaithful {W : Type 0} (port : Port W) (sink : Sink W) (handle : ℕ) (file : List ℕ)
    (got : W → List ℕ) : Type 0 where
  pub cancel_keeps : (w : W) → got (port.check_thread_cancel w).0 ≡ got w
  pub partial_keeps :
      (offset n : ℕ) (w : W) → got (port.get_partial_object handle offset n w).0 ≡ got w
  pub partial_carries :
      (offset n : ℕ) (w : W)
      → (port.get_partial_object handle offset n w).1 ≡ ok
      → (k : ℕ) × (port.payload (port.get_partial_object handle offset n w).0
          ≡ take k (drop offset file))
  pub prop_keeps : (code value : ℕ) (w : W) → got (port.set_prop_value16 code value w).0 ≡ got w
  pub info_keeps : (w : W) → got (port.get_object_info handle w).0 ≡ got w
  pub info_tells :
      (w : W)
      → (port.get_object_info handle w).1 ≡ ok
      → (port.get_object_info handle w).2 ≡ length file
  pub update_keeps : (size : ℕ) (w : W) → got (port.update_object_info handle size w) ≡ got w
  pub callback_keeps : (w : W) → got (sink.info w) ≡ got w
  pub report_keeps : (n : ℕ) (w : W) → got (port.report_download_speed n w) ≡ got w
  pub add_appends :
      (bytes : List ℕ) (offset total : ℕ) (w : W)
      → (sink.handle_add bytes offset total w).1 ≡ false
      → got (sink.handle_add bytes offset total w).0 ≡ got w ++ bytes

module _ {W : Type 0} {port : Port W} {sink : Sink W} {handle : ℕ} {file : List ℕ}
    {got : W → List ℕ} (f : IsFaithful port sink handle file got) (bound : length file < 2 ^ 32)
    (u : PtpUserPriv) where
  -- What a round of the loop leaves: the file so far, and more of it than before, or an end.
  abbrev HasPrefix : ℕ → PtpRuntime W × (ℕ ⊎ Rc) → Type 0
  HasPrefix read (r, inl read') =
      (r.fuji ≡ u) × (got r.world ≡ take read' file) × (read < read') × (read' ≤ length file)
  HasPrefix read (r, inr rc) = (r.fuji ≡ u) × (rc ≡ ok → got r.world ≡ file)

  -- The bytes of a chunk are those that follow what the receiver has.
  module _ (read k : ℕ) (payload : List ℕ) (b : read ≤ length file)
      (e : payload ≡ take k (drop read file)) where
    payload_end : read + length payload ≤ length file
    payload_end =
        subst (λ (p : List ℕ). read + length p ≤ length file) (sym e)
          (length-take-drop read k file b)

    payload_follows : take read file ++ payload ≡ take (read + length payload) file
    payload_follows =
        ap (λ (p : List ℕ). take read file ++ p)
          (e
            ∙ sym (take-length-take k (drop read file))
            ∙ ap (λ (p : List ℕ). take (length p) (drop read file)) (sym e))
        ∙ take-split read (length payload) (read + length payload) file refl

    added :
        (w : W)
        → got w ≡ take read file
        → (sink.handle_add payload read (length file) w).1 ≡ false
        → got (sink.handle_add payload read (length file) w).0 ≡ take (read + length payload) file
    added w g a =
        f.add_appends payload read (length file) w a
        ∙ ap (λ (p : List ℕ). p ++ payload) g
        ∙ payload_follows

    counted : u32 (read + length payload) ≡ read + length payload
    counted = omega (arith, payload_end)

    added-HasPrefix :
        (r : PtpRuntime W) (w : W)
        → r.fuji ≡ u
        → got w ≡ take read file
        → length payload ≢ 0
        → HasPrefix read (
            if (sink.handle_add payload read (length file) w).1
            then (set_world r (sink.handle_add payload read (length file) w).0, inr canceled)
            else if leb (length file) (u32 (read + length payload))
            then (set_world r (sink.handle_add payload read (length file) w).0, inr ok)
            else (
              set_world r (sink.handle_add payload read (length file) w).0,
              inl (u32 (read + length payload)),
            ))
    added-HasPrefix r w v g n =
        if-holds (HasPrefix read) (sink.handle_add payload read (length file) w).1 _ _
          (λ _. (v, λ x. cc))
          (λ a.
            if-holds (HasPrefix read) (leb (length file) (u32 (read + length payload))) _ _
              (λ l. (
                v,
                λ _. added w g a ∙ take_all (read + length payload) file (ground (arith, counted)),
              ))
              (λ l. (
                v,
                added w g a ∙ ap (λ (m : ℕ). take m file) (sym counted),
                omega (arith, counted),
                omega (arith, counted, payload_end),
              )))

  take_chunk-HasPrefix :
      (r : PtpRuntime W) (read k : ℕ)
      → r.fuji ≡ u
      → got r.world ≡ take read file
      → read ≤ length file
      → port.payload r.world ≡ take k (drop read file)
      → HasPrefix read (take_chunk port sink r (length file) read)
  unfolding take_chunk
  take_chunk-HasPrefix r read k v g b e =
      let w : W = port.report_download_speed (length (port.payload r.world)) r.world in
      if-holds (HasPrefix read) (length (port.payload r.world) == 0) _ _ (λ _. (v, λ x. cc))
        (λ z.
          added-HasPrefix read k (port.payload r.world) b e r w v (f.report_keeps _ _ ∙ g)
            (ground (arith, z)))

  -- The loop ends, and with the whole file if it ends well.
  abbrev pub IsDone : Option (Exit W) → Type 0
  IsDone none = ⊥
  IsDone (some (goto_end r rc)) = (r.fuji ≡ u) × (rc ≡ ok → got r.world ≡ file)
  IsDone (some (return_now r rc)) = rc ≢ ok

  -- A round of the loop, from its last step to its first; `again` is the rest of the loop.
  module _ (read : ℕ) (again : PtpRuntime W → ℕ → Option (Exit W))
      (again_done : (r : PtpRuntime W) (read' : ℕ)
        → r.fuji ≡ u
        → got r.world ≡ take read' file
        → read < read'
        → read' ≤ length file
        → IsDone (again r read')) where
    after_chunk :
        (r : PtpRuntime W) (next : ℕ ⊎ Rc)
        → HasPrefix read (r, next)
        → IsDone (elim next as (λ x. Option (Exit W)) [
          | inl read' ↦ again r read'
          | inr rc' ↦ some (goto_end r rc')
        ])
    after_chunk r (inl read') (v, g, l, b) = again_done r read' v g l b
    after_chunk r (inr rc) h = h

    after_request :
        (r : PtpRuntime W) (rc : Rc)
        → r.fuji ≡ u
        → (rc ≡ ok → HasPrefix read (take_chunk port sink r (length file) read))
        → IsDone (elim rc as (λ x. Option (Exit W)) [
          | ok ↦
              let (r2, next) = take_chunk port sink r (length file) read in
              elim next as (λ x. Option (Exit W)) [
                | inl read' ↦ again r2 read'
                | inr rc' ↦ some (goto_end r2 rc')
              ]
          | check_code ↦ some (goto_end r check_code)
          | e ↦ some (return_now (ptp_mutex_unlock r) e)
        ])
    after_request r ok v h =
        after_chunk (take_chunk port sink r (length file) read).0
          (take_chunk port sink r (length file) read).1 (h refl)
    after_request r check_code v h = (v, λ e. cc)
    after_request r runtime_err v h = λ e. cc
    after_request r canceled v h = λ e. cc
    after_request r (other x) v h = λ e. cc

    after_cancel :
        (r : PtpRuntime W) (cancel : Bool)
        → r.fuji ≡ u
        → got r.world ≡ take read file
        → read ≤ length file
        → IsDone (elim cancel as (λ x. Option (Exit W)) [
          | true ↦ some (goto_end r canceled)
          | false ↦
              let (r1, rc) = request_chunk port sink r handle (length file) read in
              elim rc as (λ x. Option (Exit W)) [
                | ok ↦
                    let (r2, next) = take_chunk port sink r1 (length file) read in
                    elim next as (λ x. Option (Exit W)) [
                      | inl read' ↦ again r2 read'
                      | inr rc' ↦ some (goto_end r2 rc')
                    ]
                | check_code ↦ some (goto_end r1 check_code)
                | e ↦ some (return_now (ptp_mutex_unlock r1) e)
              ]
        ])
    unfolding request_chunk
    after_cancel r true v g b = (v, λ e. cc)
    after_cancel r false v g b =
        after_request (request_chunk port sink r handle (length file) read).0
          (request_chunk port sink r handle (length file) read).1 v
          (λ e.
            let (k, c) = f.partial_carries read (next_request (length file) read) r.world e in
            take_chunk-HasPrefix _ read k v (f.partial_keeps read _ r.world ∙ g) b c)

  pub download_loop-IsDone :
      (fuel : ℕ) (r : PtpRuntime W) (read : ℕ)
      → r.fuji ≡ u
      → got r.world ≡ take read file
      → read ≤ length file
      → length file - read < fuel
      → IsDone (download_loop port sink fuel r handle (length file) read)
  unfolding download_loop
  download_loop-IsDone zero r read v g b l = absurd (omega arith)
  download_loop-IsDone (suc fuel) r read v g b l =
      after_cancel read (λ r read'. download_loop port sink fuel r handle (length file) read')
        (λ r read' v' g' l' b'. download_loop-IsDone fuel r read' v' g' b' (omega arith))
        (set_world r (port.check_thread_cancel r.world).0) (port.check_thread_cancel r.world).1 v
        (f.cancel_keeps r.world ∙ g) b
