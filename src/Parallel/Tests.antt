-- ===== src/Parallel/Tests.antt =====
-- Two workers on three calls, where the second call returns first.
use kubeagent.Prelude.{ℕ, ◌+◌, ◌*◌, ◌≡◌, ◌≤◌, ◌<◌, ◌⊎◌, refl, [], ◌∷◌, none, some, arith}
use kubeagent.Prelude.Int.{pos}
use kubeagent.Parallel.Pool.{
  one_or_more, Pool, draw, write, Step, sends, returns, Runs, begun, goes_on, start, Finished,
}
use kubeagent.Parallel.Order.{below, run-ordered}
use kubeagent.Parallel.Ends.{busy, run-Finished}

abbrev twice : ℕ → ℕ
twice i = i + i

abbrev p0 : Pool ℕ
unfolding start
p0 = start twice 2 (pos 2)

abbrev p1 : Pool ℕ
unfolding start
p1 = draw twice 2 p0 [] (none ∷ [])

abbrev p2 : Pool ℕ
unfolding start
p2 = draw twice 2 p1 (some 0 ∷ []) []

abbrev p3 : Pool ℕ
unfolding start
p3 = write twice 2 p2 (some 0 ∷ []) 1 []

abbrev p4 : Pool ℕ
unfolding start
p4 = write twice 2 p3 [] 0 (none ∷ [])

second_first : Runs twice 2 4 (start twice 2 (pos 2)) p4
unfolding start
second_first =
    goes_on 3 p0 p3 p4
      (goes_on 2 p0 p2 p3
        (goes_on 1 p0 p1 p2
          (goes_on 0 p0 p0 p1 (begun p0) (sends p0 [] (none ∷ []) refl (omega arith)))
          (sends p1 (some 0 ∷ []) [] refl (omega arith)))
        (returns p2 (some 0 ∷ []) [] 1 refl))
      (returns p3 [] (none ∷ []) 0 refl)

ended : Finished twice 2 p4
unfolding start Finished
ended = (refl, refl)

run-ordered_example : ((i : ℕ) → i < 2 → p4.out i ≡ some (twice i)) × (p4.called ≡ below 2)
run-ordered_example = run-ordered twice 2 (pos 2) 4 p4 second_first ended

run-Finished_example :
    (4 ≤ 2 * 2)
    × (busy p4.workers ≤ one_or_more (pos 2))
    × (Finished twice 2 p4 ⊎ ((s' : Pool ℕ) × Step twice 2 p4 s'))
run-Finished_example = run-Finished twice 2 (pos 2) 4 p4 second_first
