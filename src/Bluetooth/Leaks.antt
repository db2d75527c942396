-- ===== src/Bluetooth/Leaks.antt =====
-- The references that pairing keeps (lib/bluetooth.c: `fuji_connect_bluetooth`).
use libfuji.Common.{
  ℕ, List, ◌∷◌, Option, none, some, Bool, true, false, ◌==◌, ◌≡◌, ◌≢◌, refl, subst, length, arith,
}
use libfuji.Calls.{done}
use libfuji.Calls.Counts.{
  Handle, service, characteristic, Counts-acquire_knowing, Counts-release_service, Returns, Counts,
  Counts-done, Counts-ask, Counts-tell, Counts-look, Counts-if, Counts-split, Counts-acquire,
  Counts-using,
}
use libfuji.Bluetooth.{PakBt, BtPriv}
use libfuji.Bluetooth.Notifs.{subscriptions}
use libfuji.Bluetooth.Pairing.{
  Paired, finish_pairing, secure_named, status_written, status_read, status_found, secure_found,
  find_secure, bonded, pair_securely, plain_named, token_written, pair_found, pair,
  device_connected, advertised_token, advertised, started, fuji_connect_bluetooth,
}
use libfuji.Bluetooth.References.{IsReferenced}
use libfuji.Bluetooth.Kept.{
  Named, using_same, props-Counts, all-Counts, some-Counts, more-Counts, name-Counts,
}

-- What is held behind `n`: for an older camera a characteristic, for a newer one the characteristic
-- and a service.
pub Leaked : Bool → List Handle → List Handle → Type 0
Leaked true n m = (c : ℕ) × (m ≡ characteristic c ∷ n)
Leaked false n m = (s : ℕ) × (c : ℕ) × (m ≡ characteristic c ∷ service s ∷ n)

abbrev Held : Bool → List Handle → List Handle → Paired → Type 0
Held older n m p = p.rc ≡ 0 → Leaked older n m

abbrev is_found : {A : Type 0} → Option A → Bool
is_found none = false
is_found (some a) = true

-- An older camera has the service to pair with, `SVC_PAIR_UUID`, whenever it is asked for; a newer one
-- never has.
pub record IsOlder {W : Type 0} (bt : PakBt W) (older : Bool) : Type 0 where
  pub pairs : (w : W) → is_found (bt.get_service "91f1de68-dff6-466e-8b65-ff13b0f16fb8" w).1 ≡ older

module _ {W : Type 0} (bt : PakBt W) (refs : W → List Handle) (c : IsReferenced bt refs)
    (n : List Handle) (u : bt.unsupported ≢ 0) (v : bt.no_connection ≢ 0) where
  error :
      (older : Bool) (k : List Handle) (rc : ℕ) (priv : BtPriv)
      → rc ≢ 0
      → Counts {W = W} refs k (done (record { rc = rc; priv = priv })) (Held older n)
  error older k rc priv h = Counts-done _ (λ e. absurd (h e))

  finish_pairing-Counts :
      (older : Bool) (k : List Handle) (token : List ℕ) (p : Paired)
      → Leaked older n k
      → Counts refs k (finish_pairing bt token p) (Held older n)
  unfolding finish_pairing
  finish_pairing-Counts older k token p h =
      Counts-tell _ _ (c.saves _ token)
        (Counts-tell _ _ (c.progress 100) (Counts-tell _ _ c.screen (Counts-done _ (λ e. h))))

  -- With a characteristic and its service held.
  abbrev both : ℕ → ℕ → List Handle
  both svc chr = characteristic chr ∷ service svc ∷ n

  secure_named-Counts :
      (svc chr : ℕ) (token : List ℕ) (priv : BtPriv) (k : List Handle) (rc : ℕ)
      → Named (both svc chr) k rc
      → Counts refs k (secure_named bt token priv rc) (Held false n)
  unfolding secure_named Leaked
  secure_named-Counts svc chr token priv k rc h =
      let x : List Handle = both svc chr in
      Counts-split (rc == 0) _ _
        (λ b. rw (h (ground (arith, b))) (
          using_same bt refs c x _ _ (props-Counts bt refs c x priv) (λ p.
            Counts-tell _ _ (c.progress 55) (
              using_same bt refs c x _ _ (all-Counts bt refs c x 40 subscriptions)
                (λ percent. finish_pairing-Counts false x token p (svc, chr, refl))))))
        (λ b. error false k rc priv (ground (arith, b)))

  status_written-Counts :
      (svc chr : ℕ) (token : List ℕ) (priv : BtPriv) (rc : ℕ)
      → Counts refs (both svc chr) (status_written bt token priv svc rc) (Held false n)
  unfolding status_written
  status_written-Counts svc chr token priv rc =
      Counts-split (rc == 0) _ _
        (λ b. Counts-tell _ _ (c.progress 50) (
          Counts-using (Named (both svc chr)) _ _ (name-Counts bt refs c (both svc chr) svc)
            (λ m rc1 h. secure_named-Counts svc chr token priv m rc1 h)))
        (λ b. error false _ _ priv v)

  status_read-Counts :
      (svc chr : ℕ) (token : List ℕ) (priv : BtPriv) (rc : ℕ)
      → Counts refs (both svc chr) (status_read bt token priv svc chr rc) (Held false n)
  unfolding status_read
  status_read-Counts svc chr token priv rc =
      Counts-split (rc == 0) _ _
        (λ b. Counts-look _ _ (λ status.
          Counts-split (length status == 4) _ _
            (λ b1. Counts-ask _ _ (c.writes chr _) (status_written-Counts svc chr token priv))
            (λ b1. error false _ _ priv v)))
        (λ b. error false _ _ priv u)

  secure-Counts :
      (token : List ℕ) (priv : BtPriv) → Counts refs n (find_secure bt token priv) (Held false n)
  unfolding find_secure secure_found status_found
  secure-Counts token priv = Counts-tell _ _ (c.progress 45) (
      Counts-acquire _ _ (c.services _) (error false _ _ priv u) (λ svc.
        Counts-acquire _ _ (c.characteristics svc _) (error false _ _ priv u)
          (λ chr. Counts-ask _ _ (c.reads chr) (status_read-Counts svc chr token priv))))

  securely-Counts :
      (is_saved : Bool) (token : List ℕ) (priv : BtPriv)
      → Counts refs n (pair_securely bt is_saved token priv) (Held false n)
  unfolding pair_securely bonded
  securely-Counts is_saved token priv = Counts-tell _ _ (c.progress 35) (
      Counts-if is_saved _ _ (secure-Counts token priv) (
        Counts-ask _ _ c.bonds
          (λ rc. Counts-if (rc == 0) _ _ (secure-Counts token priv) (error false _ _ priv v))))

  plain_named-Counts :
      (svc chr : ℕ) (token : List ℕ) (priv : BtPriv) (k : List Handle) (rc : ℕ)
      → Named (both svc chr) k rc
      → Counts refs k (plain_named bt token priv svc rc) (Held true n)
  unfolding plain_named Leaked
  plain_named-Counts svc chr token priv k rc h =
      let x : List Handle = both svc chr in
      let y : List Handle = characteristic chr ∷ n in
      Counts-split (rc == 0) _ _
        (λ b. rw (h (ground (arith, b))) (
          using_same bt refs c x _ _ (props-Counts bt refs c x priv) (λ p.
            Counts-release_service _ _ (c.unrefs_service svc) (
              Counts-tell _ _ (c.progress 50) (
                using_same bt refs c y _ _ (some-Counts bt refs c y _ (more-Counts bt refs c y))
                  (λ rc1. finish_pairing-Counts true y token p (chr, refl)))))))
        (λ b. error true k rc priv (ground (arith, b)))

  token_written-Counts :
      (svc chr : ℕ) (token : List ℕ) (priv : BtPriv) (rc : ℕ)
      → Counts refs (both svc chr) (token_written bt token priv svc rc) (Held true n)
  unfolding token_written
  token_written-Counts svc chr token priv rc =
      Counts-split (rc == 0) _ _
        (λ b. Counts-tell _ _ (c.progress 40) (
          Counts-using (Named (both svc chr)) _ _ (name-Counts bt refs c (both svc chr) svc)
            (λ m rc1 h. plain_named-Counts svc chr token priv m rc1 h)))
        (λ b. error true _ rc priv (ground (arith, b)))

  connected-Counts :
      (older is_saved : Bool) (token : List ℕ) (priv : BtPriv) (rc : ℕ)
      → IsOlder bt older
      → Counts refs n (device_connected bt is_saved token priv rc) (Held older n)
  unfolding device_connected pair pair_found
  connected-Counts older is_saved token priv rc o =
      Counts-split (rc == 0) _ _
        (λ b.
          Counts-acquire_knowing (λ x. is_found x ≡ older) service _ _ o.pairs (c.services _)
            (λ e.
              subst (λ old. Counts refs n (pair_securely bt is_saved token priv) (Held old n)) e
                (securely-Counts is_saved token priv))
            (λ svc e. Counts-acquire _ _ (c.characteristics svc _) (error older _ _ priv u) (λ chr.
              Counts-ask _ _ (c.writes chr token) (λ rc1.
                subst
                  (λ old.
                    Counts refs (both svc chr) (token_written bt token priv svc rc1) (Held old n))
                  e (token_written-Counts svc chr token priv rc1)))))
        (λ b. error older _ rc priv (ground (arith, b)))

  started-Counts :
      (older : Bool) (junk : List ℕ) (priv : BtPriv) (saved : Option (List ℕ))
      → IsOlder bt older
      → Counts refs n (started bt junk priv saved) (Held older n)
  unfolding started advertised
  started-Counts older junk priv none o = Counts-look _ _ (λ mfgdata.
      Counts-if (length mfgdata == 0) _ _ (Counts-tell _ _ (c.instructs _) (error older _ _ priv v))
        (Counts-ask _ _ c.connects
          (λ rc. connected-Counts older false (advertised_token bt junk mfgdata) priv rc o)))
  started-Counts older junk priv (some aux_data) o =
      Counts-ask _ _ c.connects (λ rc. connected-Counts older true _ priv rc o)

  connect-Counts :
      (older : Bool) (junk : List ℕ) (priv : BtPriv) (saved : Option (List ℕ))
      → IsOlder bt older
      → Counts refs n (fuji_connect_bluetooth bt junk priv saved) (Held older n)
  unfolding fuji_connect_bluetooth
  connect-Counts older junk priv saved o =
      Counts-tell _ _ c.callback
        (Counts-tell _ _ (c.progress 5) (started-Counts older junk priv saved o))

-- Where pairing returns 0, exactly these references are never given back, of those that it has taken:
-- one to a characteristic where the camera has the service to pair with, and otherwise one to a
-- characteristic and one to a service.
pub connect_bluetooth-leaks :
    {W : Type 0} (bt : PakBt W) (held : W → List Handle) (older : Bool) (junk : List ℕ)
    (priv : BtPriv) (saved : Option (List ℕ)) (w w' : W) (p : Paired)
    → IsReferenced bt held
    → IsOlder bt older
    → bt.unsupported ≢ 0
    → bt.no_connection ≢ 0
    → fuji_connect_bluetooth bt junk priv saved w ≡ some (w', p)
    → p.rc ≡ 0
    → Leaked older (held w) (held w')
connect_bluetooth-leaks bt held older junk priv saved w w' p c o u v e h =
    subst (Returns (λ s a. Held older (held w) (held s) a)) e
      ((connect-Counts bt held c (held w) u v older junk priv saved o).at w refl) h
