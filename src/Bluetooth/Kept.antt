-- ===== src/Bluetooth/Kept.antt =====
-- What the steps of pairing keep of the references (lib/bluetooth.c: `send_client_name`,
-- `fill_props`, the subscriptions).
use libfuji.Common.{ℕ, ◌+◌, List, [], ◌∷◌, ◌==◌, ◌≡◌, refl, arith}
use libfuji.Calls.{Io, done, using}
use libfuji.Calls.Counts.{
  Handle, Counts, Counts-done, Counts-ask, Counts-tell, Counts-release, Counts-look, Counts-if,
  Counts-split, Counts-acquire, Counts-using, counts_rules,
}
use libfuji.Bluetooth.{PakBt, BtPriv, Text}
use libfuji.Bluetooth.Notifs.{Notifs}
use libfuji.Bluetooth.Pairing.{
  client_name_sent, identity_found, send_client_name, password_read, ssid_read, read_ssid,
  firmware_read, read_firmware, name_read, fill_props, subscribe_all, subscribe_some,
  subscribe_more,
}
use libfuji.Bluetooth.References.{IsReferenced, Same, subscribe-Counts, as_string-Counts}

-- Where the result is 0, the same references are held; where it is not, one may be left.
abbrev pub Named : List Handle → List Handle → ℕ → Type 0
Named n m rc = rc ≡ 0 → m ≡ n

module _ {W : Type 0} (bt : PakBt W) (refs : W → List Handle) (c : IsReferenced bt refs) where
  pub using_same :
      {A B : Type 0} {Q : List Handle → A → Type 0} (k : List Handle) (f : Io W B) (g : B → Io W A)
      → Counts refs k f (Same k)
      → ((b : B) → Counts refs k (g b) Q)
      → Counts refs k (using f g) Q
  using_same k f g hf hg = Counts-using (Same k) f g hf (λ m b e. rw e (hg b))

  done-Counts : {A : Type 0} (k : List Handle) (a : A) → Counts {W = W} refs k (done a) (Same k)
  done-Counts k a = Counts-done a refl

  password-Counts :
      (k : List Handle) (priv : BtPriv) (t : Text)
      → Counts refs k (password_read bt priv t) (Same k)
  unfolding password_read
  password-Counts k priv t = done-Counts k _

  ssid-Counts :
      (k : List Handle) (priv : BtPriv) (t : Text) → Counts refs k (ssid_read bt priv t) (Same k)
  unfolding ssid_read
  ssid-Counts k priv t =
      Counts-if _ _ _
        (using_same k _ _ (as_string-Counts bt refs c k _ _ 64) (λ t1. password-Counts k _ t1))
        (done-Counts k _)

  read_ssid-Counts : (k : List Handle) (priv : BtPriv) → Counts refs k (read_ssid bt priv) (Same k)
  unfolding read_ssid
  read_ssid-Counts k priv =
      using_same k _ _ (as_string-Counts bt refs c k _ _ 64) (ssid-Counts k priv)

  firmware-Counts :
      (k : List Handle) (priv : BtPriv) → Counts refs k (read_firmware bt priv) (Same k)
  unfolding read_firmware firmware_read
  firmware-Counts k priv =
      using_same k _ _ (as_string-Counts bt refs c k _ _ 64)
        (λ t. search (counts_rules, c.firmware, read_ssid-Counts) depth 8)

  pub props-Counts : (k : List Handle) (priv : BtPriv) → Counts refs k (fill_props bt priv) (Same k)
  unfolding fill_props name_read
  props-Counts k priv =
      using_same k _ _ (as_string-Counts bt refs c k _ _ 64)
        (λ t. search (counts_rules, c.names, firmware-Counts) depth 8)

  pub all-Counts :
      (k : List Handle) (percent : ℕ) (ss : List Notifs)
      → Counts refs k (subscribe_all bt percent ss) (Same k)
  unfolding subscribe_all
  all-Counts k percent [] = done-Counts k percent
  all-Counts k percent (s ∷ ss) =
      let ih = all-Counts k (percent + 3) ss in
      using_same k _ _ (subscribe-Counts bt refs c k s.service_uuid s.char_uuid s.flag)
        (λ rc. Counts-tell _ _ (c.progress (percent + 3)) ih)

  pub some-Counts :
      (k : List Handle) (f : Io W ℕ)
      → Counts refs k f (Same k)
      → Counts refs k (subscribe_some bt f) (Same k)
  unfolding subscribe_some
  some-Counts k f h = using_same k _ _ (subscribe-Counts bt refs c k _ _ 1) (λ rc.
      using_same k _ _ (subscribe-Counts bt refs c k _ _ 1) (λ rc1.
        using_same k _ _ (subscribe-Counts bt refs c k _ _ 1)
          (λ rc2. Counts-tell _ _ (c.progress 60) h)))

  pub more-Counts : (k : List Handle) → Counts refs k (subscribe_more bt) (Same k)
  unfolding subscribe_more
  more-Counts k = using_same k _ _ (subscribe-Counts bt refs c k _ _ 1) (λ rc.
      Counts-tell _ _ (c.progress 70) (
        using_same k _ _ (subscribe-Counts bt refs c k _ _ 1)
          (λ rc1. Counts-tell _ _ (c.progress 80) (subscribe-Counts bt refs c k _ _ 1))))

  pub name-Counts :
      (k : List Handle) (service : ℕ) → Counts refs k (send_client_name bt service) (Named k)
  unfolding send_client_name identity_found client_name_sent
  name-Counts k service =
      Counts-acquire _ _ (c.characteristics service _) (Counts-done bt.no_connection (λ e. refl))
        (λ chr. Counts-look _ _ (λ name. Counts-ask _ _ (c.writes chr name) (λ rc.
          Counts-split (rc == 0) _ _
            (λ b. Counts-release _ _ (c.unrefs_characteristic chr) (Counts-done 0 (λ e. refl)))
            (λ b. Counts-done rc (λ e. absurd (ground (arith, b, e)))))))
