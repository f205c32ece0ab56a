-- ===== src/Gate/Partition.antt =====
-- How `Decide` splits the findings: everything is reported somewhere, by scope and threshold alone.
use mathlib.Core.List.{Perm, Mem, append_assoc, append-nil}
use mathlib.Core.List.Perm
use mathlib.Core.Path.{subst}
use kubeagent.Prelude.{
  ◌≡◌, ◌≤◌, ◌<◌, ◌⊎◌, refl, sym, ap, ◌∙◌, Bool, true, false, not, List, [], ◌∷◌, ◌++◌,
  if◌then◌else◌, keep, keep-perm, All, All-keep, arith, mem-keep, mem_of_keep, test_of_mem-keep,
}
use kubeagent.Prelude.Sort.{All-sort_by}
use kubeagent.Findings.{Finding, rank, less, sort}
use kubeagent.Findings.Sources.{Rates, ScanResult}
use kubeagent.Findings.Order.{sort-perm}
use kubeagent.Findings.Flatten.{flatten, from_policy, from_baseline}
use kubeagent.Gate.{Options, in_scope, counts, judged, separate, decide}

All-sort : (P : Finding → Type 0) (fs : List Finding) → All P fs → All P (sort fs)
unfolding sort
All-sort P fs h = All-sort_by less P fs h

separate_step :
    (c : Bool) (f : Finding) (xs ys : List Finding)
    → (if c then xs ++ (f ∷ []) else xs) ++ ys ≡ xs ++ (if c then f ∷ ys else ys)
separate_step true f xs ys = append_assoc xs (f ∷ []) ys
separate_step false f xs ys = refl

module _ {r : Rates} (opts : Options r) where
  -- The loop keeps the order, and each list gets what passes its condition.
  separate-failing :
      (fs xs ys : List Finding) → (separate opts fs xs ys).0 ≡ xs ++ keep (counts opts) fs
  unfolding separate keep
  separate-failing [] xs ys = sym (append-nil xs)
  separate-failing (f ∷ fs) xs ys =
      separate-failing fs _ _ ∙ separate_step (counts opts f) f xs (keep (counts opts) fs)

  separate-reported :
      (fs xs ys : List Finding)
      → (separate opts fs xs ys).1 ≡ ys ++ keep (λ f. not (counts opts f)) fs
  unfolding separate keep
  separate-reported [] xs ys = sym (append-nil ys)
  separate-reported (f ∷ fs) xs ys = separate-reported fs _ _ ∙ other (counts opts f)
    where
      other :
          (c : Bool)
          → (if c then ys else ys ++ (f ∷ [])) ++ keep (λ g. not (counts opts g)) fs
            ≡ ys
              ++ (if not c
                  then f ∷ keep (λ g. not (counts opts g)) fs
                  else keep (λ g. not (counts opts g)) fs)
      other true = refl
      other false = append_assoc ys (f ∷ []) _

module _ {r : Rates} (res : ScanResult) (opts : Options r) where
  pub decide-failing : (decide res opts).failing ≡ sort (keep (counts opts) (judged res opts))
  unfolding decide
  decide-failing = ap sort (separate-failing opts (judged res opts) [] [])

  decide-reported :
      (decide res opts).reported ≡ sort (keep (λ f. not (counts opts f)) (judged res opts))
  unfolding decide
  decide-reported = ap sort (separate-reported opts (judged res opts) [] [])

  decide-threshold :
      All
        (λ f. (in_scope opts f ≡ true) × (rank opts.fail_on ≤ rank f.level))
        (decide res opts).failing
      × All
          (λ f. (in_scope opts f ≡ false) ⊎ (rank f.level < rank opts.fail_on))
          (decide res opts).reported
  unfolding counts
  decide-threshold =
      rw (decide-failing, decide-reported)
        (
          All-sort _ _ (All-keep _ _ (judged res opts) (λ f h. (ground arith, ground arith))),
          All-sort _ _ (All-keep _ _ (judged res opts) (λ f h. ground arith)),
        )

  -- The failing and the reported findings of a verdict are together a rearrangement of the findings
  -- of the flattened scan, of the policy run and of the baseline: none is dropped and none is listed
  -- twice. Every failing finding is in the scope of the gate and at or above the threshold, and
  -- every reported one is out of scope or below it.
  pub decide-partition :
      Perm ((decide res opts).failing ++ (decide res opts).reported) (
        flatten res
        ++ (from_policy opts.policy_violations opts.policy_not_evaluated
            ++ from_baseline r opts.baseline))
      × All
          (λ f. (in_scope opts f ≡ true) × (rank opts.fail_on ≤ rank f.level))
          (decide res opts).failing
      × All
          (λ f. (in_scope opts f ≡ false) ⊎ (rank f.level < rank opts.fail_on))
          (decide res opts).reported
  unfolding judged
  decide-partition = (
    rw (decide-failing, decide-reported)
        (Perm.trans
          (Perm.trans
            (Perm.append (sort-perm (keep (counts opts) (judged res opts)))
              (sort-perm (keep (λ f. not (counts opts f)) (judged res opts))))
            (keep-perm (counts opts) (judged res opts)))
          (sort-perm _)),
    decide-threshold.0,
    decide-threshold.1,
  )

  -- A finding that was judged fails the gate as soon as it is in scope and at the threshold.
  pub mem-failing :
      {f : Finding}
      → counts opts f ≡ true
      → Mem f (judged res opts)
      → Mem f (decide res opts).failing
  mem-failing h m =
      rw decide-failing ((Perm.mem_iff (sort-perm _)).1 (mem-keep (counts opts) _ h m))

  pub mem_of_failing :
      {f : Finding}
      → Mem f (decide res opts).failing
      → (counts opts f ≡ true) × Mem f (judged res opts)
  mem_of_failing {f} m =
      let k = (Perm.mem_iff (sort-perm _)).0 (subst (λ l. Mem f l) decide-failing m) in
      (test_of_mem-keep (counts opts) _ k, mem_of_keep (counts opts) _ k)
