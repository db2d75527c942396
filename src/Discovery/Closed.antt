-- ===== src/Discovery/Closed.antt =====
-- The sockets that discovery keeps open, and their end (lib/discovery.c: `fuji_discover_thread`).
use libfuji.Common.{
  ◌⊎◌, ℕ, ◌-◌, ◌^◌, ◌≡◌, refl, true, false, Bool-cases, inl, inr, List, [], ◌∷◌, arith,
}
use libfuji.Calls.{done, failed, is_negative, is_positive}
use libfuji.Calls.Counts.{
  Handle, descriptor, is_same, is_held, remove, Counts, Counts-done, Counts-split, Counts-open,
  Counts-using, Counts-release, Counts-remove, Counts-ask, Counts-tell, Counts-look, Counts-knowing,
  positive-not_negative, counts_rules,
}
use libfuji.Discovery.Sockets.{Network, Outcome, get_local_ip}
use libfuji.Discovery.Thread.{
  DiscoveryState, Opened, open_dgram_socket, fuji_open_tether_server, open_pcss, close_if_open,
  close_all_sockets, try_pcss, try_tether, try_connect, try_connect_all_sockets, no_sockets,
}
use libfuji.Discovery.Descriptors.{IsCounted}
use libfuji.Discovery.Balance.{Closed}

-- Where the address was found, the same descriptors are open.
abbrev pub Found : List Handle → List Handle → ℕ × List ℕ → Type 0
Found n m p = p.0 ≡ 0 → m ≡ n

-- The result is a new descriptor, and it is open.
abbrev IsNew : List Handle → List Handle → ℕ → Type 0
IsNew n m fd = (m ≡ descriptor fd ∷ n) × (is_held (descriptor fd) n ≡ false)

-- Where the result is positive, it is a new descriptor.
abbrev OneDgram : List Handle → List Handle → ℕ → Type 0
OneDgram n m fd = is_positive fd ≡ true → IsNew n m fd

-- Where the result is not negative, it is a new descriptor.
abbrev OneSocket : List Handle → List Handle → ℕ → Type 0
OneSocket n m fd = is_negative fd ≡ false → IsNew n m fd × (is_positive fd ≡ true)

module _ {W : Type 0} (net : Network W) (count : W → List Handle) (c : IsCounted net count)
    (n : List Handle) where
  no_address :
      (m : List Handle) (rc : ℕ)
      → is_negative rc ≡ true
      → Counts {W = W} count m (done (rc, [])) (Found n)
  no_address m rc b = Counts-done _ (λ e. absurd (ground (arith, b, e)))

  address : (name : List ℕ) → Counts {W = W} count n (done (0, name)) (Found n)
  address name = Counts-done _ (λ e. refl)

  pub local_ip-Counts : Counts count n (get_local_ip net) (Found n)
  unfolding get_local_ip
  local_ip-Counts =
      Counts-open _ _ c.opens_dgram
        (λ fd h. Counts-tell _ _ (c.settings fd) (
          Counts-knowing (λ rc. is_negative rc ≡ true) _ _ (λ w. c.no_outside fd w h) (c.outside fd)
            (λ rc b. search (counts_rules, no_address))))
        (λ fd h x.
          search
            (
              Counts-split, Counts-ask, Counts-tell, Counts-release, Counts-look, c.settings,
              c.outside, c.name, c.closes, no_address, address,
            )
            depth 14)

  no_dgram :
      (m : List Handle) (v : ℕ)
      → is_positive v ≡ false
      → Counts {W = W} count m (done v) (OneDgram n)
  no_dgram m v b = Counts-done v (λ e. absurd (ground (arith, b, e)))

  one_dgram :
      (fd : ℕ)
      → is_held (descriptor fd) n ≡ false
      → Counts {W = W} count (descriptor fd ∷ n) (done fd) (OneDgram n)
  one_dgram fd x = Counts-done fd (λ e. (refl, x))

  dgram-Counts : (port : ℕ) → Counts count n (open_dgram_socket net port) (OneDgram n)
  unfolding open_dgram_socket
  dgram-Counts port =
      let none_open : (m : List Handle) → Counts {W = W} count m (done failed) (OneDgram n) =
        λ m. no_dgram m failed refl in
      let denied : (m : List Handle) → Counts {W = W} count m (done (2 ^ 32 - 5)) (OneDgram n) =
        λ m. no_dgram m (2 ^ 32 - 5) refl in
      search
        (
          counts_rules, Counts-open, c.opens_dgram, positive-not_negative, c.settings, c.binds,
          c.closes, none_open, denied, one_dgram,
        )
        depth 12

  no_server : (m : List Handle) → Counts {W = W} count m (done failed) (OneSocket n)
  no_server m = Counts-done failed (λ e. absurd cc)

  one_server :
      (fd : ℕ)
      → is_positive fd ≡ true
      → is_held (descriptor fd) n ≡ false
      → Counts {W = W} count (descriptor fd ∷ n) (done fd) (OneSocket n)
  one_server fd h x = Counts-done fd (λ e. ((refl, x), h))

  server-Counts : (ip : List ℕ) → Counts count n (fuji_open_tether_server net ip) (OneSocket n)
  unfolding fuji_open_tether_server
  server-Counts ip =
      search
        (
          counts_rules, Counts-open, c.opens_stream, positive-not_negative, c.settings, c.reuse,
          c.binds_local, c.listens, no_server, one_server,
        )
        depth 16

  pcss-Counts : Counts count n (open_pcss net) (OneSocket n)
  unfolding open_pcss
  pcss-Counts =
      Counts-open _ _ c.opens_dgram
        (λ fd h. Counts-tell _ _ (c.settings fd) (
          Counts-knowing (λ rc. is_negative rc ≡ true) _ _ (λ w. c.no_broadcast fd w h)
            (c.broadcast fd) (λ rc b. search (counts_rules, no_server))))
        (λ fd h x. search (counts_rules, c.settings, c.broadcast, no_server, one_server) depth 8)

-- What is open with the sockets of discovery.
abbrev pub with_reg : DiscoveryState → List Handle → List Handle
with_reg s n = descriptor s.reg_fd ∷ n

abbrev pub with_con : DiscoveryState → List Handle → List Handle
with_con s n = descriptor s.con_fd ∷ with_reg s n

abbrev pub with_tether : DiscoveryState → List Handle → List Handle
with_tether s n = descriptor s.tether_fd ∷ with_con s n

abbrev pub with_all : DiscoveryState → List Handle → List Handle
with_all s n = descriptor s.pcss_fd ∷ with_tether s n

-- All four sockets are open, each one new when it was opened.
pub record IsOpen (n : List Handle) (s : DiscoveryState) : Type 0 where
  pub reg : is_positive s.reg_fd ≡ true
  pub con : is_positive s.con_fd ≡ true
  pub tether : is_positive s.tether_fd ≡ true
  pub pcss : is_positive s.pcss_fd ≡ true
  pub con_is_new : is_held (descriptor s.con_fd) (with_reg s n) ≡ false
  pub tether_is_new : is_held (descriptor s.tether_fd) (with_con s n) ≡ false
  pub pcss_is_new : is_held (descriptor s.pcss_fd) (with_tether s n) ≡ false

abbrev pub Ready : List Handle → List Handle → Opened → Type 0
Ready n m o = ((o.rc ≡ 0) × (m ≡ with_all o.state n) × IsOpen n o.state) ⊎ (o.rc ≡ failed)

module _ {W : Type 0} (net : Network W) (count : W → List Handle) (c : IsCounted net count)
    (n : List Handle) where
  unopened :
      (m : List Handle) (s : DiscoveryState)
      → Counts {W = W} count m (done (record { rc = failed; state = s })) (Ready n)
  unopened m s = Counts-done _ (inr refl)

  pcss-Ready :
      (s : DiscoveryState)
      → s.pcss_fd ≡ 0
      → is_positive s.reg_fd ≡ true
      → is_positive s.con_fd ≡ true
      → is_positive s.tether_fd ≡ true
      → is_held (descriptor s.con_fd) (with_reg s n) ≡ false
      → is_held (descriptor s.tether_fd) (with_con s n) ≡ false
      → Counts count (with_tether s n) (try_pcss net s) (Ready n)
  unfolding try_pcss
  pcss-Ready s z r o t x y = rw z (
      Counts-using (OneSocket (with_tether s n)) _ _ (pcss-Counts net count c (with_tether s n))
        (λ m fd q. elim (Bool-cases (is_negative fd)) [
          | inl b ↦ rw b (unopened m _)
          | inr b ↦
              rw (b, (q b).0.0)
                (Counts-done _ (
                  inl (
                    refl,
                    refl,
                    record {
                      reg = r;
                      con = o;
                      tether = t;
                      pcss = (q b).1;
                      con_is_new = x;
                      tether_is_new = y;
                      pcss_is_new = (q b).0.1;
                    },
                  )))
        ]))

  tether-Ready :
      (ip : List ℕ) (s : DiscoveryState)
      → s.tether_fd ≡ 0
      → s.pcss_fd ≡ 0
      → is_positive s.reg_fd ≡ true
      → is_positive s.con_fd ≡ true
      → is_held (descriptor s.con_fd) (with_reg s n) ≡ false
      → Counts count (with_con s n) (try_tether net ip s) (Ready n)
  unfolding try_tether
  tether-Ready ip s z p r o x = rw z (
      Counts-using (OneSocket (with_con s n)) _ _ (server-Counts net count c (with_con s n) ip)
        (λ m fd q. elim (Bool-cases (is_negative fd)) [
          | inl b ↦ rw b (unopened m _)
          | inr b ↦
              rw (b, (q b).0.0) (pcss-Ready (record s { tether_fd = fd }) p r o (q b).1 x (q b).0.1)
        ]))

  con-Ready :
      (ip : List ℕ) (s : DiscoveryState)
      → s.con_fd ≡ 0
      → s.tether_fd ≡ 0
      → s.pcss_fd ≡ 0
      → is_positive s.reg_fd ≡ true
      → Counts count (with_reg s n) (try_connect net ip s) (Ready n)
  unfolding try_connect
  con-Ready ip s z t p r = rw z (
      Counts-using (OneDgram (with_reg s n)) _ _ (dgram-Counts net count c (with_reg s n) 51541)
        (λ m fd q. elim (Bool-cases (is_positive fd)) [
          | inl b ↦ rw (b, (q b).0) (tether-Ready ip (record s { con_fd = fd }) t p r b (q b).1)
          | inr b ↦ rw b (unopened m _)
        ]))

  pub sockets-Ready :
      (ip : List ℕ) → Counts count n (try_connect_all_sockets net ip (no_sockets net)) (Ready n)
  unfolding try_connect_all_sockets
  sockets-Ready ip = Counts-using (OneDgram n) _ _ (dgram-Counts net count c n 51542) (λ m fd q.
      elim (Bool-cases (is_positive fd)) [
        | inl b ↦
            rw (b, (q b).0)
              (con-Ready ip (record (no_sockets net) { reg_fd = fd }) refl refl refl b)
        | inr b ↦ rw b (unopened m _)
      ])

  -- Each socket that is closed goes from its own place.
  remove-con :
      (s : DiscoveryState)
      → IsOpen n s
      → remove (descriptor s.con_fd) (with_all s n)
        ≡ descriptor s.pcss_fd ∷ descriptor s.tether_fd ∷ with_reg s n
  unfolding remove is_held is_same
  remove-con s v = ground (arith, v.tether_is_new, v.pcss_is_new)

  remove-reg :
      (s : DiscoveryState)
      → IsOpen n s
      → remove (descriptor s.reg_fd) (descriptor s.pcss_fd ∷ descriptor s.tether_fd ∷ with_reg s n)
        ≡ descriptor s.pcss_fd ∷ descriptor s.tether_fd ∷ n
  unfolding remove is_held is_same
  remove-reg s v = ground (arith, v.tether_is_new, v.pcss_is_new)

  remove-tether :
      (s : DiscoveryState)
      → IsOpen n s
      → remove (descriptor s.tether_fd) (descriptor s.pcss_fd ∷ descriptor s.tether_fd ∷ n)
        ≡ descriptor s.pcss_fd ∷ n
  unfolding remove is_held is_same
  remove-tether s v = ground (arith, v.pcss_is_new)

  -- Closing four open sockets.
  pub shut-Counts :
      (s : DiscoveryState) (found : Outcome)
      → IsOpen n s
      → Counts count (with_all s n) (close_all_sockets net s (done found)) (Closed n)
  unfolding close_all_sockets close_if_open
  shut-Counts s found v =
      rw (v.reg, v.con, v.tether, v.pcss)
        (Counts-remove _ _ _ _ (c.closes s.con_fd) (remove-con s v) (
          Counts-remove _ _ _ _ (c.closes s.reg_fd) (remove-reg s v) (
            Counts-remove _ _ _ _ (c.closes s.tether_fd) (remove-tether s v)
              (Counts-release _ _ (c.closes s.pcss_fd) (Counts-done found (λ e. refl))))))
