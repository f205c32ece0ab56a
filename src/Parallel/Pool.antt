-- ===== src/Parallel/Pool.antt =====
-- `Do`: the workers, the channel of indices and the slice of results, and the steps they can make.
use kubeagent.Prelude.{
  ℕ, zero, suc, ◌≡◌, ◌<◌, Bool, true, false, List, [], ◌∷◌, ◌++◌, Option, none, some, eqb, ltb,
  count_if, if◌then◌else◌,
}
use kubeagent.Prelude.Int.{ℤ, pos, pos_part, ltb_ℤ}

-- The number of workers that are started.
abbrev pub one_or_more : ℤ → ℕ
one_or_more workers = if ltb_ℤ workers (pos 1) then 1 else pos_part workers

unfoldable pub clamped : ℤ → ℕ → ℕ
clamped workers n = if ltb n (one_or_more workers) then n else one_or_more workers

-- A worker that waits for an index holds none, and one that runs `fn` holds the index it drew.
abbrev pub Worker : Type 0
Worker = Option ℕ

abbrev pub is_busy : Worker → Bool
is_busy none = false
is_busy (some i) = true

pub record Pool (T : Type 0) : Type 0 where
  -- The index that is sent next.
  pub next : ℕ
  pub workers : List Worker
  -- `out`; none where nothing has been written.
  pub out : ℕ → Option T
  -- The calls of `fn`, the last one first.
  pub called : List ℕ

unfoldable pub idle_workers : ℕ → List Worker
idle_workers zero = []
idle_workers (suc k) = none ∷ idle_workers k

module _ {T : Type 0} (fn : ℕ → T) (n : ℕ) where
  -- `for i := range next { … }` takes an index.
  abbrev pub draw : Pool T → List Worker → List Worker → Pool T
  draw s before after = record s {
    next = suc s.next;
    workers = before ++ some s.next ∷ after;
    called = s.next ∷ s.called;
  }

  -- `out[i] = fn(ctx, i)`.
  abbrev pub write : Pool T → List Worker → ℕ → List Worker → Pool T
  write s before i after = record s {
    workers = before ++ none ∷ after;
    out = λ j. if eqb j i then some (fn i) else s.out j;
  }

  -- The channel is unbuffered: an index is sent when a waiting worker takes it.
  pub data Step : Pool T → Pool T → Type 0 where
    sends :
        (s : Pool T) (before after : List Worker)
        → s.workers ≡ before ++ none ∷ after
        → s.next < n
        → Step s (draw s before after)
    returns :
        (s : Pool T) (before after : List Worker) (i : ℕ)
        → s.workers ≡ before ++ some i ∷ after
        → Step s (write s before i after)

  -- A run of so many steps, in any interleaving of the workers.
  pub data Runs : ℕ → Pool T → Pool T → Type 0 where
    begun : (s : Pool T) → Runs 0 s s
    goes_on : (k : ℕ) (s s' s'' : Pool T) → Runs k s s' → Step s' s'' → Runs (suc k) s s''

  unfoldable pub start : ℤ → Pool T
  unfolding clamped idle_workers
  start workers = record {
    next = 0;
    workers = idle_workers (clamped workers n);
    out = λ i. none;
    called = [];
  }

  -- Every index was sent and every worker has returned, which is what `wg.Wait` waits for.
  unfoldable pub Finished : Pool T → Type 0
  unfolding count_if
  Finished s = (s.next ≡ n) × (count_if is_busy s.workers ≡ 0)
