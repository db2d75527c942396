-- ===== src/Discovery/Balance.antt =====
-- Every descriptor that discovery opens is closed (lib/discovery.c: `fuji_discover_thread`).
use libfuji.Common.{
  ℕ, zero, suc, ◌≡◌, ◌≢◌, refl, Option, none, some, List, ◌∷◌, ◌==◌, not, Bool-cases, inl, inr,
  if◌then◌else◌, arith,
}
use libfuji.Calls.{Io, done, failed, is_positive}
use libfuji.Calls.Counts.{
  Handle, descriptor, Counts, Counts-done, Counts-undefined, Counts-if, Counts-open, Counts-using,
  positive-not_negative, counts_rules,
}
use libfuji.Discovery.{DiscoverInfo}
use libfuji.Discovery.Sockets.{Network, Outcome}
use libfuji.Discovery.Exchange.{
  receive_ack, notify_camera, answer_greeting, string_64, respond_to_datagram, accept_register,
  accept_connect, respond_to_tether, fuji_tether_accept,
}
use libfuji.Discovery.Thread.{
  DiscoveryState, ended_with, take_greeting, check_cancel, poll_tether, poll_connect, poll_register,
  select_once, send_pcss_datagram, state_idle, idle_loop,
}
use libfuji.Discovery.Descriptors.{
  IsCounted, Balanced, OneMore, notify_server-Counts, reading_message-Counts, invite_server-Counts,
  failed-Counts, ended,
}

-- Where the result is not -1, the same descriptors are open.
abbrev pub Closed : List Handle → List Handle → Outcome → Type 0
Closed n m o = o.rc ≢ failed → m ≡ n

module _ {W : Type 0} (net : Network W) (count : W → List Handle) (c : IsCounted net count)
    (n : List Handle) where
  failed_now :
      (m : List Handle) (info : DiscoverInfo)
      → Counts {W = W} count m (done (record { rc = failed; info = info })) (Balanced n)
  failed_now m info = failed-Counts net count c n m info

  ended_now : (o : Outcome) → Counts {W = W} count n (done o) (Balanced n)
  ended_now o = ended net count c n o

  receive_ack-Counts :
      (fd : ℕ) (info : DiscoverInfo)
      → Counts count (descriptor fd ∷ n) (receive_ack net fd info) (Balanced n)
  unfolding receive_ack
  receive_ack-Counts fd info =
      search (counts_rules, c.receives, c.closes, failed_now, ended_now) depth 12

  notify_camera-Counts :
      (fd : ℕ) (info : DiscoverInfo) (o : Option (List ℕ)) (ip : List ℕ)
      → Counts count (descriptor fd ∷ n) (notify_camera net fd info o ip) (Balanced n)
  unfolding notify_camera
  notify_camera-Counts fd info none ip = Counts-undefined
  notify_camera-Counts fd info (some name) ip =
      search (counts_rules, c.sends, c.closes, receive_ack-Counts, failed_now) depth 12

  connected-Counts :
      (m : List Handle) (fd : ℕ) (info : DiscoverInfo) (ip : List ℕ)
      → OneMore n m fd
      → Counts count m
          (if not (is_positive fd)
            then done (record { rc = failed; info = info })
            else notify_camera net fd info (string_64 info.client_name) ip)
          (Balanced n)
  connected-Counts m fd info ip h = elim (Bool-cases (is_positive fd)) [
    | inl b ↦ rw (b, h b) (notify_camera-Counts fd info (string_64 info.client_name) ip)
    | inr b ↦ rw b (failed_now m info)
  ]

  answer_greeting-Counts :
      (info : DiscoverInfo) (o : Option (List ℕ))
      → Counts count n (answer_greeting net info o) (Balanced n)
  unfolding answer_greeting
  answer_greeting-Counts info none = Counts-undefined
  answer_greeting-Counts info (some ip) =
      Counts-using (OneMore n) _ _ (notify_server-Counts net count c n ip 51540)
        (λ m fd h. connected-Counts m fd info ip h)

  respond-Counts :
      (greeting : List ℕ) (info : DiscoverInfo)
      → Counts count n (respond_to_datagram net greeting info) (Balanced n)
  unfolding respond_to_datagram
  respond-Counts greeting info =
      reading_message-Counts net count c n _ greeting info _ n
        (λ told. answer_greeting-Counts told (string_64 told.camera_ip))

  -- What goes on behind a result of 0 starts from the same descriptors.
  on_success :
      {Q : List Handle → Outcome → Type 0} (m : List Handle) (o : Outcome) (f g : Io W Outcome)
      → Balanced n m o
      → Counts count n f Q
      → (o.rc ≢ 0 → Counts count m g Q)
      → Counts count m (if o.rc == 0 then f else g) Q
  on_success m o f g h hf hg = elim (Bool-cases (o.rc == 0)) [
    | inl b ↦ rw (b, h (ground (arith, b))) hf
    | inr b ↦ rw b (hg (ground (arith, b)))
  ]

  register-Counts :
      (greeting : List ℕ) (info : DiscoverInfo)
      → Counts count n (accept_register net greeting info) (Balanced n)
  unfolding accept_register
  register-Counts greeting info =
      Counts-using (Balanced n) _ _ (respond-Counts greeting info) (λ m o h.
        on_success m o _ _ h (invite_server-Counts net count c n 51542 o.info)
          (λ e. Counts-done o (λ z. absurd (e z))))

  connect-Counts :
      (greeting : List ℕ) (info : DiscoverInfo)
      → Counts count n (accept_connect net greeting info) (Balanced n)
  unfolding accept_connect
  connect-Counts greeting info =
      Counts-using (Balanced n) _ _ (respond-Counts greeting info) (λ m o h.
        on_success m o _ _ h
          (Counts-using (Balanced n) _ _ (invite_server-Counts net count c n 51541 o.info)
            (λ m1 o1 h1.
              on_success m1 o1 _ _ h1 (ended_now _) (λ e. Counts-done o1 (λ z. absurd (e z)))))
          (λ e. Counts-done o (λ z. absurd (e z))))

  respond_to_tether-Counts :
      (fd : ℕ) (info : DiscoverInfo)
      → Counts count (descriptor fd ∷ n) (respond_to_tether net fd info) (Balanced n)
  unfolding respond_to_tether
  respond_to_tether-Counts fd info =
      search (counts_rules, c.sends, c.closes, failed_now, ended_now) depth 12

  tether-Counts :
      (info : DiscoverInfo) (fd : ℕ) → Counts count n (fuji_tether_accept net info fd) (Balanced n)
  unfolding fuji_tether_accept
  tether-Counts info fd =
      search
        (
          counts_rules, Counts-open, c.opens_accepted, positive-not_negative, failed_now,
          c.receives, reading_message-Counts, c, respond_to_tether-Counts,
        )
        depth 12

  -- The results of one round.
  failed_round :
      (m : List Handle) (info : DiscoverInfo)
      → Counts {W = W} count m (done (record { rc = failed; info = info })) (Closed n)
  failed_round m info = Counts-done _ (λ e. absurd (e refl))

  ended_round : (o : Outcome) → Counts {W = W} count n (done o) (Closed n)
  ended_round o = Counts-done o (λ e. refl)

  ended_with-Counts :
      (code : ℕ) (f : Io W Outcome)
      → Counts count n f (Balanced n)
      → Counts count n (ended_with net code f) (Closed n)
  unfolding ended_with
  ended_with-Counts code f h =
      Counts-using (Balanced n) _ _ h
        (λ m o k. on_success m o _ _ k (ended_round _) (λ e. failed_round m o.info))

  take_greeting-Counts :
      (fd code : ℕ) (accept : List ℕ → DiscoverInfo → Io W Outcome) (info : DiscoverInfo)
      → ((greeting : List ℕ) (told : DiscoverInfo)
          → Counts count n (accept greeting told) (Balanced n))
      → Counts count n (take_greeting net fd code accept info) (Closed n)
  unfolding take_greeting
  take_greeting-Counts fd code accept info h =
      search (counts_rules, c.receives, failed_round, ended_with-Counts, h) depth 12

  check_cancel-Counts : (info : DiscoverInfo) → Counts count n (check_cancel net info) (Closed n)
  unfolding check_cancel
  check_cancel-Counts info = search (counts_rules, c.cancels, ended_round) depth 12

  poll_tether-Counts :
      (s : DiscoveryState) (info : DiscoverInfo)
      → Counts count n (poll_tether net s info) (Closed n)
  unfolding poll_tether
  poll_tether-Counts s info =
      search (counts_rules, ended_with-Counts, tether-Counts, check_cancel-Counts) depth 12

  poll_connect-Counts :
      (s : DiscoveryState) (info : DiscoverInfo)
      → Counts count n (poll_connect net s info) (Closed n)
  unfolding poll_connect
  poll_connect-Counts s info =
      search (counts_rules, take_greeting-Counts, connect-Counts, poll_tether-Counts) depth 12

  poll_register-Counts :
      (s : DiscoveryState) (info : DiscoverInfo)
      → Counts count n (poll_register net s info) (Closed n)
  unfolding poll_register
  poll_register-Counts s info =
      search (counts_rules, take_greeting-Counts, register-Counts, poll_connect-Counts) depth 12

  select_once-Counts :
      (s : DiscoveryState) (info : DiscoverInfo)
      → Counts count n (select_once net s info) (Closed n)
  unfolding select_once
  select_once-Counts s info =
      search (counts_rules, c.readable, failed_round, poll_register-Counts) depth 12

  any_result : (rc : ℕ) → Counts {W = W} count n (done rc) (λ m v. m ≡ n)
  any_result rc = Counts-done rc refl

  pub idle-Counts :
      (s : DiscoveryState) (ip : List ℕ) (info : DiscoverInfo)
      → Counts count n (state_idle net s ip info) (Closed n)
  unfolding state_idle send_pcss_datagram
  idle-Counts s ip info =
      let sent : Counts count n (send_pcss_datagram net s.pcss_fd ip) (λ m rc. m ≡ n) =
        search (counts_rules, c.broadcasts, any_result) depth 8 in
      Counts-if _ _ _ (select_once-Counts s info) (
        Counts-using (λ m rc. m ≡ n) _ _ sent
          (λ m rc e. rw e (search (counts_rules, select_once-Counts, failed_round) depth 8)))

module _ {W : Type 0} (net : Network W) (count : W → List Handle) (c : IsCounted net count)
    (n : List Handle) where
  go_on :
      (m : List Handle) (o : Outcome) (f : Io W Outcome)
      → Closed n m o
      → Counts count n f (Closed n)
      → Counts count m (if o.rc == 0 then f else done o) (Closed n)
  go_on m o f h k = elim (Bool-cases (o.rc == 0)) [
    | inl b ↦ rw (b, h (ground (arith, b))) k
    | inr b ↦ rw b (Counts-done o h)
  ]

  pub loop-Counts :
      (fuel : ℕ) (s : DiscoveryState) (ip : List ℕ) (info : DiscoverInfo)
      → Counts count n (idle_loop net fuel s ip info) (Closed n)
  unfolding idle_loop
  loop-Counts zero s ip info = Counts-undefined
  loop-Counts (suc fuel) s ip info =
      let ih = loop-Counts fuel s ip in
      Counts-using (Closed n) _ _ (idle-Counts net count c n s ip info)
        (λ m o h. go_on m o _ h (ih o.info))
