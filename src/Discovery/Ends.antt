-- ===== src/Discovery/Ends.antt =====
-- How discovery ends (lib/discovery.c: `fuji_discover_thread`).
use libfuji.Common.{
  ℕ, ◌≡◌, ◌≢◌, refl, inl, inr, subst, Bool-cases, Option, none, some, List, ◌==◌, arith,
}
use libfuji.Calls.{Io, done, tell, failed, is_positive}
use libfuji.Calls.Counts.{Handle, Returns, Counts, Counts-done, Counts-using}
use libfuji.Discovery.{DiscoverInfo}
use libfuji.Discovery.Sockets.{Network, Outcome}
use libfuji.Discovery.Thread.{
  DiscoveryState, Opened, close_if_open, close_all_sockets, discover_with, fuji_discover_thread,
}
use libfuji.Discovery.Descriptors.{IsCounted}
use libfuji.Discovery.Balance.{Closed, loop-Counts}
use libfuji.Discovery.Closed.{
  Found, with_all, IsOpen, Ready, local_ip-Counts, sockets-Ready, shut-Counts,
}

module _ {W : Type 0} (net : Network W) where
  close_if_open-Returns :
      (P : Outcome → Type 0) (fd : ℕ) (f : Io W Outcome)
      → ((w : W) → Returns (λ w' a. P a) (f w))
      → (w : W) → Returns (λ w' a. P a) (close_if_open net fd f w)
  unfolding close_if_open tell
  close_if_open-Returns P fd f h w = elim (Bool-cases (is_positive fd)) [
    | inl b ↦ rw b (h (net.close fd w))
    | inr b ↦ rw b (h w)
  ]

  close_all-Returns :
      (P : Outcome → Type 0) (s : DiscoveryState) (found : Outcome)
      → P found
      → (w : W) → Returns (λ w' a. P a) (close_all_sockets net s (done found) w)
  unfolding close_all_sockets done
  close_all-Returns P s found p = close_if_open-Returns P s.con_fd _ (
      close_if_open-Returns P s.reg_fd _ (
        close_if_open-Returns P s.tether_fd _
          (close_if_open-Returns P s.pcss_fd (done found) (λ w. p))))

module _ {W : Type 0} (net : Network W) (count : W → List Handle) (c : IsCounted net count)
    (n : List Handle) where
  -- After an error nothing is said of the descriptors.
  given_up :
      (m : List Handle) (s : DiscoveryState) (found : Outcome)
      → found.rc ≡ failed
      → Counts count m (close_all_sockets net s (done found)) (Closed n)
  given_up m s found e = record {
    at = λ w k. unsaid _ (close_all-Returns net (λ a. a.rc ≡ failed) s found e w);
  }
    where
      unsaid :
          (o : Option (W × Outcome))
          → Returns (λ w' a. a.rc ≡ failed) o
          → Returns (λ w' a. Closed n (count w') a) o
      unsaid none h = tt
      unsaid (some (w', a)) h = λ e'. absurd (e' h)

  finally :
      (m : List Handle) (s : DiscoveryState) (found : Outcome)
      → IsOpen n s
      → Closed (with_all s n) m found
      → Counts count m (close_all_sockets net s (done found)) (Closed n)
  finally m s found v h = elim (Bool-cases (found.rc == failed)) [
    | inl b ↦ given_up m s found (ground (arith, b))
    | inr b ↦ rw (h (ground (arith, b))) (shut-Counts net count c n s found v)
  ]

  discover_with-Counts :
      (fuel : ℕ) (ip : List ℕ) (info : DiscoverInfo) (m : List Handle) (o : Opened)
      → Ready n m o
      → Counts count m (discover_with net fuel ip info o) (Closed n)
  unfolding discover_with
  discover_with-Counts fuel ip info m o (inl (e, k, v)) =
      rw (e, k)
        (Counts-using (Closed (with_all o.state n)) _ _
          (loop-Counts net count c (with_all o.state n) fuel o.state ip info)
          (λ m1 found h. finally m1 o.state found v h))
  discover_with-Counts fuel ip info m o (inr e) = rw e (
      Counts-using (λ m1 found. found.rc ≡ failed) _ _ (Counts-done _ refl)
        (λ m1 found h. given_up m1 o.state found h))

  thread-Counts :
      (fuel : ℕ) (client_name : List ℕ)
      → Counts count n (fuji_discover_thread net fuel client_name) (Closed n)
  unfolding fuji_discover_thread
  thread-Counts fuel client_name =
      Counts-using (Found n) _ _ (local_ip-Counts net count c n) (λ m p h.
        elim (Bool-cases (p.0 == 0)) [
          | inl b ↦
              rw (b, h (ground (arith, b)))
                (Counts-using (Ready n) _ _ (sockets-Ready net count c n p.1)
                  (λ m1 o r. discover_with-Counts fuel p.1 _ m1 o r))
          | inr b ↦ rw b (Counts-done _ (λ e. absurd (e refl)))
        ])

-- Where discovery ends otherwise than with the error -1, whatever cameras and other peers have
-- sent, exactly the descriptors are open that were open before: each of the four sockets that it
-- waits on, and those of the exchange with a camera, are closed, and no other descriptor is.
pub discover_thread-closes :
    {W : Type 0} (net : Network W) (open_fds : W → List Handle) (fuel : ℕ) (client_name : List ℕ)
    (w w' : W) (o : Outcome)
    → IsCounted net open_fds
    → fuji_discover_thread net fuel client_name w ≡ some (w', o)
    → o.rc ≢ failed
    → open_fds w' ≡ open_fds w
discover_thread-closes net open_fds fuel client_name w w' o c e h =
    subst (Returns (λ v a. Closed (open_fds w) (open_fds v) a)) e
      ((thread-Counts net open_fds c (open_fds w) fuel client_name).at w refl) h
