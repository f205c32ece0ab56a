-- ===== src/Parallel/Order.antt =====
-- The results stand in the order of the indices, whatever the order in which the calls return.
use kubeagent.Prelude.{
  ℕ, zero, suc, ◌≡◌, ◌≤◌, ◌<◌, refl, sym, ◌∙◌, ap, ◌⊎◌, inl, inr, Bool, true, false, ◌||◌, List, [],
  ◌∷◌, ◌++◌, none, some, eqb, eqb_iff, any, arith, count_if, if◌then◌else◌, Bool-cases,
}
use kubeagent.Prelude.Int.{ℤ}
use kubeagent.Parallel.Pool.{
  Worker, is_busy, Pool, Step, sends, returns, Runs, begun, goes_on, start, Finished,
}

abbrev runs_index : ℕ → Worker → Bool
runs_index i none = false
runs_index i (some j) = eqb i j

-- Some worker runs the call for this index.
abbrev in_flight : ℕ → List Worker → Bool
in_flight i ws = any (runs_index i) ws

in_flight-middle :
    (i : ℕ) (before after : List Worker) (w : Worker)
    → in_flight i (before ++ w ∷ after) ≡ (runs_index i w || in_flight i (before ++ after))
in_flight-middle i [] after w = refl
in_flight-middle i (v ∷ before) after w = ground (arith, in_flight-middle i before after w)

none_busy : (i : ℕ) (ws : List Worker) → count_if is_busy ws ≡ 0 → in_flight i ws ≡ false
unfolding count_if
none_busy i [] h = refl
none_busy i (none ∷ ws) h = none_busy i ws h
none_busy i (some j ∷ ws) h = absurd (omega arith)

-- The indices below k, the last one first.
abbrev pub below : ℕ → List ℕ
below zero = []
below (suc k) = k ∷ below k

module _ {T : Type 0} (fn : ℕ → T) (n : ℕ) where
  -- Every index that was sent is in flight or has its result; nothing else was called.
  record IsTracked (s : Pool T) : Type 0 where
    in_range : s.next ≤ n
    kept : (i : ℕ) → i < s.next → (s.out i ≡ some (fn i)) ⊎ (in_flight i s.workers ≡ true)
    calls : s.called ≡ below s.next

  start-IsTracked : (workers : ℤ) → IsTracked (start fn n workers)
  unfolding start
  start-IsTracked workers = record {
    in_range = omega arith;
    kept = λ i h. absurd (omega arith);
    calls = refl;
  }

  sends-kept :
      (s : Pool T) (before after : List Worker)
      → s.workers ≡ before ++ none ∷ after
      → IsTracked s
      → (i : ℕ) → i < suc s.next
      → (s.out i ≡ some (fn i)) ⊎ (in_flight i (before ++ some s.next ∷ after) ≡ true)
  sends-kept s before after e t i h = elim (Bool-cases (eqb i s.next)) [
    | inl g ↦ inr (in_flight-middle i before after (some s.next) ∙ rw g refl)
    | inr g ↦ elim (t.kept i (ground (arith, eqb_iff i s.next))) [
      | inl r ↦ inl r
      | inr b ↦ inr (
          in_flight-middle i before after (some s.next)
          ∙ rw g (sym (in_flight-middle i before after none) ∙ ap (in_flight i) (sym e) ∙ b))
    ]
  ]

  returns-kept :
      (s : Pool T) (before after : List Worker) (j : ℕ)
      → s.workers ≡ before ++ some j ∷ after
      → IsTracked s
      → (i : ℕ) → i < s.next
      → ((if eqb i j then some (fn j) else s.out i) ≡ some (fn i))
        ⊎ (in_flight i (before ++ none ∷ after) ≡ true)
  returns-kept s before after j e t i h = elim (Bool-cases (eqb i j)) [
    | inl g ↦ inl (rw g (ap (λ x. some (fn x)) (sym ((eqb_iff i j).0 g))))
    | inr g ↦ elim (t.kept i h) [
      | inl r ↦ inl (rw g r)
      | inr b ↦ inr (
          in_flight-middle i before after none
          ∙ sym (in_flight-middle i before after (some j) ∙ rw g refl)
          ∙ ap (in_flight i) (sym e)
          ∙ b)
    ]
  ]

  Step-IsTracked : {s s' : Pool T} → Step fn n s s' → IsTracked s → IsTracked s'
  Step-IsTracked (sends s before after e h) t = record {
    in_range = h;
    kept = sends-kept s before after e t;
    calls = ap (λ l. s.next ∷ l) t.calls;
  }
  Step-IsTracked (returns s before after i e) t = record {
    in_range = t.in_range;
    kept = returns-kept s before after i e t;
    calls = t.calls;
  }

  Runs-IsTracked : {k : ℕ} {s s' : Pool T} → Runs fn n k s s' → IsTracked s → IsTracked s'
  Runs-IsTracked (begun s) t = t
  Runs-IsTracked (goes_on k s s' s'' r l) t = Step-IsTracked l (Runs-IsTracked r t)

  -- However the workers interleave, when `Do` returns, the result at each index is what `fn` returned
  -- for that index, and `fn` was called exactly once for each index below n and for nothing else.
  pub run-ordered :
      (workers : ℤ) (k : ℕ) (s : Pool T)
      → Runs fn n k (start fn n workers) s
      → Finished fn n s
      → ((i : ℕ) → i < n → s.out i ≡ some (fn i)) × (s.called ≡ below n)
  unfolding Finished
  run-ordered workers k s r (all, idle) =
      let t = Runs-IsTracked r (start-IsTracked workers) in
      (
        λ i h. elim (t.kept i (omega arith)) [
          | inl e ↦ e
          | inr b ↦ absurd (ground (arith, none_busy i s.workers idle, b))
        ],
        t.calls ∙ ap below all,
      )
