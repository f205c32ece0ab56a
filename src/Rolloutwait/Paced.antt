-- ===== src/Rolloutwait/Paced.antt =====
-- A wait ends, and it is paced.
use kubeagent.Prelude.{
  ℕ, zero, suc, ◌+◌, ◌*◌, ◌≡◌, ◌≤◌, ◌<◌, refl, inl, inr, Bool, true, false, not, Option, none, some,
  Text, codes, ◌++◌, leb, arith, if◌then◌else◌, if_elim, Bool-cases,
}
use kubeagent.Prelude.Int.{ℤ, pos, negsuc, pos_part, neg_part, ltb_ℤ, leb_ℤ, ◌+ℤ◌, ◌≤ℤ◌, +ℤ_parts}
use kubeagent.Prelude.Reply.{Reply, got, failed}
use kubeagent.Rolloutwait.Target.{Target}
use kubeagent.Rolloutwait.Poll.{
  World, Result, Ended, one_more, after_poll, unless_cancelled, observe, poll, wait,
}

-- What the loop relies on: a sleep lasts at least as long as it was asked to, and a read takes no
-- negative time.
pub record IsClock (world : World) (t : Target) : Type 0 where
  pub slept : (d : ℤ) (w : world.State) → world.now w +ℤ d ≤ℤ world.now (world.sleep d w)
  pub read : (w : world.State) → world.now w ≤ℤ world.now (observe world t w).1

-- There is an outcome, after n reads at most.
pub Within : ℕ → Ended → Type 0
Within n none = ⊥
Within n (some (o, k)) = k ≤ n

one_more-Within : (n : ℕ) (e : Ended) → Within n e → Within (suc n) (one_more e)
unfolding Within
one_more-Within n none h = elim h [ ]
one_more-Within n (some (o, k)) h = omega arith

after_poll-Within :
    (n : ℕ) (r : Reply Result) (before : Bool) (later : Ended)
    → (before ≡ true → Within (suc n) (one_more later))
    → Within (suc n) (after_poll r before later)
unfolding Within
after_poll-Within n (failed e) before later h = omega arith
after_poll-Within n (got r) before later h =
    if_elim (Within (suc n)) r.settled (some (got r, 1))
      (if not before then some (got r, 1) else one_more later) (λ s. omega arith)
      (λ s.
        if_elim (Within (suc n)) (not before) (some (got r, 1)) (one_more later) (λ b. omega arith)
          (λ b. h (ground arith)))

unless_cancelled-Within :
    (n : ℕ) (c : Option Text) (polled : Ended)
    → Within n polled
    → Within n (unless_cancelled c polled)
unfolding Within
unless_cancelled-Within n (some e) polled h = omega arith
unless_cancelled-Within n none polled h = h

-- `n` intervals reach the deadline, from this time on.
Reaches : ℕ → ℕ → ℤ → ℤ → Type 0
Reaches n i now deadline =
    pos_part deadline + neg_part now ≤ pos_part now + neg_part deadline + n * i

slept-Reaches :
    (n i : ℕ) (now now' now'' deadline : ℤ)
    → now ≤ℤ now'
    → now' +ℤ pos i ≤ℤ now''
    → Reaches (suc n) i now deadline
    → Reaches n i now'' deadline
unfolding Reaches
slept-Reaches n i now now' now'' deadline h k r = omega (arith, +ℤ_parts now' (pos i))

none_left :
    (i : ℕ) (now now' deadline : ℤ)
    → now ≤ℤ now'
    → Reaches 0 i now deadline
    → ltb_ℤ now' deadline ≡ false
unfolding Reaches
none_left i now now' deadline h r = ground arith

module _ (world : World) (t : Target) (clock : IsClock world t) where
  poll-Within :
      (n f i : ℕ) (deadline : ℤ) (w : world.State)
      → n ≤ f
      → Reaches n i (world.now w) deadline
      → Within (suc n) (poll world (suc f) t deadline (pos i) w)
  unfolding poll
  poll-Within zero f i deadline w k h =
      let w' = (observe world t w).1 in
      let over = none_left i (world.now w) (world.now w') deadline (clock.read w) h in
      unless_cancelled-Within 1 (world.cancelled w) _ (
        after_poll-Within 0 (observe world t w).0 (ltb_ℤ (world.now w') deadline)
          (poll world f t deadline (pos i) (world.sleep (pos i) w')) (λ b. absurd (ground arith)))
  poll-Within (suc n) zero i deadline w k h = absurd (omega arith)
  poll-Within (suc n) (suc f) i deadline w k h =
      let w' = (observe world t w).1 in
      let w'' = world.sleep (pos i) w' in
      let later = poll world (suc f) t deadline (pos i) w'' in
      unless_cancelled-Within (suc (suc n)) (world.cancelled w) _ (
        after_poll-Within (suc n) (observe world t w).0 (ltb_ℤ (world.now w') deadline) later (λ b.
          one_more-Within (suc n) later (
            poll-Within n f i deadline w'' (omega arith) (
              slept-Reaches n i (world.now w) (world.now w') (world.now w'') deadline (clock.read w)
                (clock.slept (pos i) w') h))))

Within-weaken : (m n : ℕ) (e : Ended) → m ≤ n → Within m e → Within n e
unfolding Within
Within-weaken m n none h k = k
Within-weaken m n (some (o, j)) h k = omega arith

timeout-Reaches :
    (n i : ℕ) (now timeout : ℤ) → pos_part timeout ≤ n * i → Reaches n i now (now +ℤ timeout)
unfolding Reaches
timeout-Reaches n i now timeout h = omega (arith, +ℤ_parts now timeout)

positive_size : (i : ℤ) → leb_ℤ i (pos 0) ≡ false → (0 < pos_part i) × (i ≡ pos (pos_part i))
positive_size (pos i) h = (ground arith, refl)
positive_size (negsuc i) h = absurd (ground arith)

at_least_once : (p i : ℕ) → 0 < i → p ≤ p * i
at_least_once zero i h = omega arith
at_least_once (suc p) i h = omega (arith, at_least_once p i h)

-- A wait ends: the fuel of `wait` is enough, whatever the server answers, if a sleep lasts as long as it
-- was asked to and no read takes negative time. And it is paced: with n intervals covering the timeout
-- it reads the workload n + 1 times at most.
pub wait-Within :
    (world : World) (t : Target) (timeout interval : ℤ) (n : ℕ) (w : world.State)
    → IsClock world t
    → pos_part timeout ≤ n * pos_part interval
    → Within (suc n) (wait world t timeout interval w)
unfolding wait Within
wait-Within world t timeout interval n w clock h =
    let start = world.now w in
    let p = pos_part timeout in
    let refused =
      failed (codes "poll interval must be positive, got " ++ world.show_duration interval) in
    if_elim (Within (suc n)) (leb_ℤ interval (pos 0)) (some (refused, 0))
      (poll world (suc p) t (start +ℤ timeout) interval w) (λ e. omega arith)
      (λ e.
        enough n (pos_part interval) w (positive_size interval e).1 (positive_size interval e).0 h)
  where
    enough :
        (m i : ℕ) (v : world.State)
        → interval ≡ pos i
        → 0 < i
        → pos_part timeout ≤ m * i
        → Within (suc m) (poll world (suc (pos_part timeout)) t (world.now v +ℤ timeout) interval v)
    enough m i v e g k =
        let p = pos_part timeout in
        let start = world.now v in
        let run = poll-Within world t clock in
        rw e (elim (Bool-cases (leb m p)) [
          | inl b ↦ run m p i _ v (ground arith) (timeout-Reaches m i start timeout k)
          | inr b ↦ Within-weaken (suc p) (suc m) _ (ground arith) (
              run p p i _ v (omega arith) (timeout-Reaches p i start timeout (at_least_once p i g)))
        ])
