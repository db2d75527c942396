-- ===== src/Fuji/Download/File.antt =====
-- The whole download (lib/fuji.c: `fuji_download_file_ex`).
use libfuji.Common.{
  ℕ, suc, ◌^◌, ◌<◌, ◌≡◌, refl, sym, ap, subst, ◌∙◌, Bool, true, false, List, [], Option, none, some,
  length, arith,
}
use libfuji.Fuji.Session.{
  PtpUserPriv, Rc, ok, check_code, runtime_err, canceled, other, FujiTransport, wireless_comm,
  xapp_wireless_comm, PtpRuntime, Port, Result, ◌or_return◌, set_world, ptp_mutex_lock,
}
use libfuji.Fuji.Download.{
  Exit, goto_end, return_now, Sink, download_loop, prepare, finish, leave, download_locked,
  fuji_download_file_ex,
}
use libfuji.Fuji.Download.Complete.{IsFaithful, IsDone, download_loop-IsDone}

abbrev pub is_wireless_comm : FujiTransport → Bool
is_wireless_comm wireless_comm = true
is_wireless_comm t = false

module _ {W : Type 0} {port : Port W} {sink : Sink W} {handle : ℕ} {file : List ℕ}
    {got : W → List ℕ} (f : IsFaithful port sink handle file got)
    (bound : length file < 2 ^ 32) where
  -- The function returns, and with the whole file if it returns 0.
  abbrev HasReturned : Result W → Type 0
  HasReturned none = ⊥
  HasReturned (some (r, rc)) = rc ≡ ok → got r.world ≡ file

  finish-HasReturned :
      (t : FujiTransport) (r : PtpRuntime W) (rc : Rc)
      → is_wireless_comm t ≡ false
      → (rc ≡ ok → got r.world ≡ file)
      → HasReturned (finish port sink t r rc)
  unfolding finish
  finish-HasReturned wireless_comm r rc n h = cc
  finish-HasReturned xapp_wireless_comm r rc n h = λ e. f.prop_keeps 0xd226 2 r.world ∙ h e
  finish-HasReturned t r rc n h = h

  leave-HasReturned :
      (u : PtpUserPriv) (x : Option (Exit W))
      → is_wireless_comm u.transport ≡ false
      → IsDone f bound u x
      → HasReturned (leave port sink x)
  unfolding leave
  leave-HasReturned u none n d = absurd d
  leave-HasReturned u (some (goto_end r rc)) n (v, d) =
      finish-HasReturned r.fuji.transport r rc
        (ap (λ (w : PtpUserPriv). is_wireless_comm w.transport) v ∙ n) d
  leave-HasReturned u (some (return_now r rc)) n d = λ e. absurd (d e)

  after_info :
      (r : PtpRuntime W) (rc : Rc) (size : ℕ)
      → is_wireless_comm r.fuji.transport ≡ false
      → got r.world ≡ []
      → (rc ≡ ok → size ≡ length file)
      → HasReturned (elim rc as (λ x. Result W) [
        | ok ↦ leave port sink (
            download_loop port sink
              (suc size)
              (set_world r (sink.info (port.update_object_info handle size r.world)))
              handle
              size
              0)
        | e ↦ finish port sink r.fuji.transport r e
      ])
  after_info r ok size n g h =
      subst
        (λ (size : ℕ). HasReturned (
          leave port sink (
            download_loop port sink (suc size)
              (set_world r (sink.info (port.update_object_info handle size r.world))) handle size
              0)))
        (sym (h refl))
        (leave-HasReturned r.fuji _ n (
          download_loop-IsDone f bound r.fuji (suc (length file)) _ 0 refl
            (f.callback_keeps _ ∙ f.update_keeps (length file) r.world ∙ g) (omega arith)
            (omega arith)))
  after_info r check_code size n g h = finish-HasReturned _ r check_code n (λ e. cc)
  after_info r runtime_err size n g h = finish-HasReturned _ r runtime_err n (λ e. cc)
  after_info r canceled size n g h = finish-HasReturned _ r canceled n (λ e. cc)
  after_info r (other x) size n g h = finish-HasReturned _ r (other x) n (λ e. cc)

  download_locked-HasReturned :
      (r : PtpRuntime W)
      → is_wireless_comm r.fuji.transport ≡ false
      → got r.world ≡ []
      → HasReturned (download_locked port sink r handle)
  unfolding download_locked
  download_locked-HasReturned r n g =
      after_info (set_world r (port.get_object_info handle r.world).0)
        (port.get_object_info handle r.world).1 (port.get_object_info handle r.world).2 n
        (f.info_keeps r.world ∙ g) (f.info_tells r.world)

  prepared-HasReturned :
      (t : FujiTransport) (r : PtpRuntime W)
      → is_wireless_comm t ≡ false
      → t ≡ r.fuji.transport
      → got r.world ≡ []
      → HasReturned (
          prepare port sink t r or_return λ r1.
          download_locked port sink (ptp_mutex_lock r1) handle)
  unfolding prepare
  prepared-HasReturned wireless_comm r n v g = cc
  prepared-HasReturned xapp_wireless_comm r n v g =
      download_locked-HasReturned (ptp_mutex_lock (set_world r _)) (ap is_wireless_comm (sym v) ∙ n)
        (f.prop_keeps 0xd226 _ r.world ∙ g)
  prepared-HasReturned t r n v g =
      download_locked-HasReturned (ptp_mutex_lock r) (ap is_wireless_comm (sym v) ∙ n) g

  returned :
      (o : Result W)
      → HasReturned o
      → (r' : PtpRuntime W) × (rc : Rc) × (o ≡ some (r', rc)) × (rc ≡ ok → got r'.world ≡ file)
  returned none h = absurd h
  returned (some (r', rc)) h = (r', rc, refl, h)

  -- For every transport but `FUJI_FEATURE_WIRELESS_COMM`, given a faithful camera, a receiver that starts
  -- with nothing, and a file of less than 2 ^ 32 bytes, the download returns, in at most as many rounds
  -- as the file has bytes and one more; and where it returns 0, the receiver has exactly the file.
  pub download_file_complete :
      (r : PtpRuntime W)
      → is_wireless_comm r.fuji.transport ≡ false
      → got r.world ≡ []
      → (r' : PtpRuntime W) × (rc : Rc) × (fuji_download_file_ex port sink r handle ≡ some (r', rc))
        × (rc ≡ ok → got r'.world ≡ file)
  unfolding fuji_download_file_ex
  download_file_complete r n g =
      returned (fuji_download_file_ex port sink r handle)
        (prepared-HasReturned r.fuji.transport r n refl g)
