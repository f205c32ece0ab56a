-- ===== src/Parallel/Ends.antt =====
-- A run never stops before `Do` returns, and it is bounded.
use kubeagent.Prelude.{
  ℕ, zero, suc, ◌+◌, ◌*◌, ◌≡◌, ◌≤◌, ◌<◌, refl, sym, ◌∙◌, ap, ◌⊎◌, inl, inr, List, [], ◌∷◌, ◌++◌,
  none, some, ltb, arith, count_if, length, if◌then◌else◌, Bool-cases,
}
use kubeagent.Prelude.Int.{ℤ}
use kubeagent.Parallel.Pool.{
  one_or_more, clamped, Worker, is_busy, Pool, idle_workers, draw, write, Step, sends, returns,
  Runs, begun, goes_on, start, Finished,
}

abbrev pub busy : List Worker → ℕ
unfolding count_if
busy ws = count_if is_busy ws

busy-middle :
    (before after : List Worker) (w : Worker)
    → busy (before ++ w ∷ after) ≡ (if is_busy w then 1 else 0) + busy (before ++ after)
unfolding count_if
busy-middle [] after w = ground arith
busy-middle (v ∷ before) after w = ground (arith, busy-middle before after w)

length-middle :
    (before after : List Worker) (w : Worker)
    → length (before ++ w ∷ after) ≡ suc (length (before ++ after))
length-middle [] after w = refl
length-middle (v ∷ before) after w = ap suc (length-middle before after w)

busy-le : (ws : List Worker) → busy ws ≤ length ws
unfolding count_if
busy-le [] = omega arith
busy-le (none ∷ ws) = omega (arith, busy-le ws)
busy-le (some i ∷ ws) = omega (arith, busy-le ws)

-- A worker that waits, if not all are busy, and one that is busy, if not all wait.
find_waiting :
    (ws : List Worker)
    → busy ws < length ws
    → (before : List Worker) × (after : List Worker) × (ws ≡ before ++ none ∷ after)
unfolding count_if
find_waiting [] h = absurd (omega arith)
find_waiting (none ∷ ws) h = ([], ws, refl)
find_waiting (some i ∷ ws) h =
    let (before, after, e) = find_waiting ws (omega arith) in
    (some i ∷ before, after, ap (λ l. some i ∷ l) e)

find_busy :
    (ws : List Worker)
    → 0 < busy ws
    → (before : List Worker) × (i : ℕ) × (after : List Worker) × (ws ≡ before ++ some i ∷ after)
unfolding count_if
find_busy [] h = absurd (omega arith)
find_busy (none ∷ ws) h =
    let (before, i, after, e) = find_busy ws h in (none ∷ before, i, after, ap (λ l. none ∷ l) e)
find_busy (some i ∷ ws) h = ([], i, ws, refl)

idle_workers-idle : (k : ℕ) → (length (idle_workers k) ≡ k) × (busy (idle_workers k) ≡ 0)
unfolding idle_workers count_if
idle_workers-idle zero = (refl, refl)
idle_workers-idle (suc k) = let (l, b) = idle_workers-idle k in (ap suc l, b)

-- A step of either kind advances the count of what was sent and of what has returned by one.
record IsPaced (n size k next : ℕ) (ws : List Worker) : Type 0 where
  in_range : next ≤ n
  steps : k + busy ws ≡ next + next
  size_kept : length ws ≡ size

module _ {T : Type 0} (fn : ℕ → T) (n : ℕ) where
  Step-IsPaced :
      {s s' : Pool T} {size k : ℕ}
      → Step fn n s s'
      → IsPaced n size k s.next s.workers
      → IsPaced n size (suc k) s'.next s'.workers
  Step-IsPaced (sends s before after e h) p =
      let b = ap busy e ∙ busy-middle before after none in
      let l = ap length e ∙ length-middle before after none in
      record {
        in_range = h;
        steps = omega (arith, p.steps, b, busy-middle before after (some s.next));
        size_kept = length-middle before after (some s.next) ∙ sym l ∙ p.size_kept;
      }
  Step-IsPaced (returns s before after i e) p =
      let b = ap busy e ∙ busy-middle before after (some i) in
      let l = ap length e ∙ length-middle before after (some i) in
      record {
        in_range = p.in_range;
        steps = omega (arith, p.steps, b, busy-middle before after none);
        size_kept = length-middle before after none ∙ sym l ∙ p.size_kept;
      }

  Runs-IsPaced :
      {k size : ℕ} {s s' : Pool T}
      → Runs fn n k s s'
      → IsPaced n size 0 s.next s.workers
      → IsPaced n size k s'.next s'.workers
  Runs-IsPaced (begun s) p = p
  Runs-IsPaced (goes_on k s s' s'' r l) p = Step-IsPaced l (Runs-IsPaced r p)

  start-IsPaced :
      (workers : ℤ)
      → IsPaced n (clamped workers n) 0 (start fn n workers).next (start fn n workers).workers
  unfolding start
  start-IsPaced workers =
      let (l, b) = idle_workers-idle (clamped workers n) in
      record { in_range = omega arith; steps = omega (arith, b); size_kept = l }

  clamped-positive : (workers : ℤ) → 0 < n → 0 < clamped workers n
  unfolding clamped
  clamped-positive workers h = ground arith

  progress :
      (s : Pool T) (size k : ℕ)
      → (0 < n → 0 < size)
      → IsPaced n size k s.next s.workers
      → Finished fn n s ⊎ ((s' : Pool T) × Step fn n s s')
  unfolding Finished
  progress s size k h p = elim (Bool-cases (ltb s.next n)) [
    | inl more ↦ elim (Bool-cases (ltb (busy s.workers) (length s.workers))) [
      | inl waits ↦
          let (before, after, e) = find_waiting s.workers (ground arith) in
          inr (draw fn n s before after, sends s before after e (ground arith))
      | inr all ↦
          let positive : 0 < length s.workers = omega (arith, h (ground arith), p.size_kept) in
          let (before, i, after, e) = find_busy s.workers (ground arith) in
          inr (write fn n s before i after, returns s before after i e)
    ]
    | inr last ↦ elim (Bool-cases (ltb 0 (busy s.workers))) [
      | inl runs ↦
          let (before, i, after, e) = find_busy s.workers (ground arith) in
          inr (write fn n s before i after, returns s before after i e)
      | inr idle ↦ inl (ground (arith, p.in_range), ground arith)
    ]
  ]

  -- `Do` returns, however its workers interleave: after any sequence of steps either it is finished or
  -- some worker can make a further step, and there are at most 2n steps. At no time are more calls in
  -- flight than there are workers.
  pub run-Finished :
      (workers : ℤ) (k : ℕ) (s : Pool T)
      → Runs fn n k (start fn n workers) s
      → (k ≤ 2 * n)
        × (busy s.workers ≤ one_or_more workers)
        × (Finished fn n s ⊎ ((s' : Pool T) × Step fn n s s'))
  unfolding clamped
  run-Finished workers k s r =
      let p = Runs-IsPaced r (start-IsPaced workers) in
      (
        omega (arith, p.steps, p.in_range),
        ground (arith, busy-le s.workers, p.size_kept),
        progress s (clamped workers n) k (clamped-positive workers) p,
      )
