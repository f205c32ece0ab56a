-- ===== src/Rolloutwait/Ends.antt =====
-- How a wait ends.
use kubeagent.Prelude.{
  ℕ, zero, suc, ◌+◌, ◌≡◌, refl, ◌⊎◌, inl, inr, true, false, not, Option, none, some, Text, ◌++◌,
  codes, arith, if◌then◌else◌, if_elim, Bool-cases,
}
use kubeagent.Prelude.Int.{ℤ, pos, pos_part, ltb_ℤ, ◌+ℤ◌}
use kubeagent.Prelude.Reply.{Reply, got, failed}
use kubeagent.Rolloutwait.Target.{Target}
use kubeagent.Rolloutwait.Poll.{
  World, Result, Ended, one_more, after_poll, unless_cancelled, observe, poll, wait,
}

-- `Polled n w w'`: from `w`, n polls each found the rollout unsettled before the deadline and were
-- followed by a sleep of the interval, which led to `w'`.
pub data Polled (world : World) (t : Target) (deadline interval : ℤ)
    : ℕ → world.State → world.State → Type 0 where
  here : (w : world.State) → Polled world t deadline interval 0 w w
  again :
      (n : ℕ) (w w' : world.State) (r : Result)
      → world.cancelled w ≡ none
      → (observe world t w).0 ≡ got r
      → r.settled ≡ false
      → ltb_ℤ (world.now (observe world t w).1) deadline ≡ true
      → Polled world t deadline interval n (world.sleep interval (observe world t w).1) w'
      → Polled world t deadline interval (suc n) w w'

module _ (world : World) (t : Target) (deadline interval : ℤ) where
  -- The last poll at `w`, with the number of reads it adds.
  pub data Last (w : world.State) : Reply Result → ℕ → Type 0 where
    cancelled : (e : Text) → world.cancelled w ≡ some e → Last w (failed e) 0
    unread :
        (e : Text)
        → world.cancelled w ≡ none
        → (observe world t w).0 ≡ failed e
        → Last w (failed e) 1
    settled :
        (r : Result)
        → world.cancelled w ≡ none
        → (observe world t w).0 ≡ got r
        → r.settled ≡ true
        → Last w (got r) 1
    timed_out :
        (r : Result)
        → world.cancelled w ≡ none
        → (observe world t w).0 ≡ got r
        → r.settled ≡ false
        → ltb_ℤ (world.now (observe world t w).1) deadline ≡ false
        → Last w (got r) 1

  -- The wait that began at `w` made n reads, and the last of its polls gave the outcome.
  pub Ending : world.State → Ended → Type 0
  Ending w none = Unit
  Ending w (some (o, n)) =
      (k : ℕ) × (w' : world.State) × (m : ℕ) × Polled world t deadline interval k w w'
      × Last w' o m
      × (n ≡ k + m)

  last-Ending : (w : world.State) (o : Reply Result) (m : ℕ) → Last w o m → Ending w (some (o, m))
  unfolding Ending
  last-Ending w o m l = (0, w, m, here w, l, omega arith)

  module _ (w : world.State) (c : world.cancelled w ≡ none) where
    one_more-Ending :
        (r : Result) (later : Ended)
        → (observe world t w).0 ≡ got r
        → r.settled ≡ false
        → ltb_ℤ (world.now (observe world t w).1) deadline ≡ true
        → Ending (world.sleep interval (observe world t w).1) later
        → Ending w (one_more later)
    unfolding Ending
    one_more-Ending r none e u b h = tt
    one_more-Ending r (some (o, n)) e u b (k, w', m, p, l, g) =
        (suc k, w', m, again k w w' r c e u b p, l, omega (arith, g))

    after_poll-Ending :
        (r : Reply Result) (later : Ended)
        → (observe world t w).0 ≡ r
        → Ending (world.sleep interval (observe world t w).1) later
        → Ending w (after_poll r (ltb_ℤ (world.now (observe world t w).1) deadline) later)
    after_poll-Ending (failed e) later h i = last-Ending w (failed e) 1 (unread e c h)
    after_poll-Ending (got r) later h i =
        let before = ltb_ℤ (world.now (observe world t w).1) deadline in
        if_elim (Ending w) r.settled (some (got r, 1))
          (if not before then some (got r, 1) else one_more later)
          (λ s. last-Ending w (got r) 1 (settled r c h s))
          (λ s.
            if_elim (Ending w) (not before) (some (got r, 1)) (one_more later)
              (λ b. last-Ending w (got r) 1 (timed_out r c h s (ground arith)))
              (λ b. one_more-Ending r later h s (ground arith) i))

  unless_cancelled-Ending :
      (w : world.State) (c : Option Text) (polled : Ended)
      → world.cancelled w ≡ c
      → (c ≡ none → Ending w polled)
      → Ending w (unless_cancelled c polled)
  unless_cancelled-Ending w (some e) polled h i = last-Ending w (failed e) 0 (cancelled e h)
  unless_cancelled-Ending w none polled h i = i refl

  poll-Ending : (f : ℕ) (w : world.State) → Ending w (poll world f t deadline interval w)
  unfolding poll Ending
  poll-Ending zero w = tt
  poll-Ending (suc f) w =
      let later = poll world f t deadline interval (world.sleep interval (observe world t w).1) in
      unless_cancelled-Ending w (world.cancelled w)
        (after_poll (observe world t w).0 (ltb_ℤ (world.now (observe world t w).1) deadline) later)
        refl
        (λ c.
          after_poll-Ending w c (observe world t w).0 later refl
            (poll-Ending f (world.sleep interval (observe world t w).1)))

-- A wait with a positive interval that gives an outcome after n reads came to it by k polls that each
-- found the rollout unsettled before the deadline and slept for the interval, and by a last one: that
-- was cancelled, could not read the workload, found it settled, or found it unsettled at the deadline
-- or later. The outcome is that of the last poll. With another interval nothing is read.
pub wait-Ending :
    (world : World) (t : Target) (timeout interval : ℤ) (w : world.State)
    → ((ltb_ℤ (pos 0) interval ≡ true)
        × Ending world t (world.now w +ℤ timeout) interval w (wait world t timeout interval w))
      ⊎ ((ltb_ℤ (pos 0) interval ≡ false)
          × (e : Text) × (wait world t timeout interval w ≡ some (failed e, 0)))
unfolding wait
wait-Ending world t timeout interval w = elim (Bool-cases (ltb_ℤ (pos 0) interval)) [
  | inl e ↦
      inl
        (e, rw e (poll-Ending world t (world.now w +ℤ timeout) interval (suc (pos_part timeout)) w))
  | inr e ↦
      inr
        (e, codes "poll interval must be positive, got " ++ world.show_duration interval, rw e refl)
]
