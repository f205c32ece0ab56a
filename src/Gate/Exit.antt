-- ===== src/Gate/Exit.antt =====
-- The exit code of `Decide`: which of the four codes it gives, and what a waiver cannot hide.
use mathlib.Core.List.{Mem, not-mem-nil, mem-map_of_mem, mem-append_left, mem-append_right}
use mathlib.Core.List.Perm
use kubeagent.Prelude.{
  ℕ, zero, suc, ◌≡◌, ◌≢◌, refl, ◌≤◌, ◌↔◌, ◌⊎◌, inl, Bool, true, false, not, List, [], ◌∷◌, ◌++◌,
  map, Text, codes, any, arith, le→leb, any_of_mem, nil_of_no_mem, any-map, text_eq,
}
use kubeagent.Findings.{Finding, Level, rank}
use kubeagent.Findings.Sources.{Rates, ScanResult, ReadFailure, Unevaluated}
use kubeagent.Findings.Flatten.{
  policy_level, unevaluated_finding, violation_finding, from_policy, flatten, from_baseline,
}
use kubeagent.Findings.Order.{sort-perm}
use kubeagent.Gate.{
  Options, Blindspot, in_scope, is_unevaluated_rule, is_waived, blindspot, has_prefix, counts,
  judged, outcome, decide,
}
use kubeagent.Gate.Partition.{mem-failing, mem_of_failing}

-- Some list could not be read and its failure was not accepted.
abbrev pub blind : {r : Rates} → ScanResult → Options r → Bool
blind res opts =
    any (λ (pr : ReadFailure). not (is_waived opts.allow_partial_read pr.resource))
      res.partial_reads

-- The published word of each code.
abbrev pub word_of : ℕ → Text
word_of zero = codes "pass"
word_of (suc zero) = codes "fail"
word_of (suc (suc zero)) = codes "inconclusive"
word_of _ = codes "timeout"

-- The published meaning of the four codes. `unevaluated` says that an unevaluated rule fails.
pub record IsPublished (timed_out unevaluated unread : Bool) (failing : List Finding) (code : ℕ)
    (word : Text) : Type 0 where
  pub timeout : (code ≡ 3) ↔ (timed_out ≡ true)
  pub inconclusive : (code ≡ 2) ↔ ((timed_out ≡ false) × (unevaluated ≡ false) × (unread ≡ true))
  pub fail :
      (code ≡ 1)
      ↔ ((timed_out ≡ false) × ((unevaluated ≡ true) ⊎ (unread ≡ false) × (failing ≢ [])))
  pub pass : (code ≡ 0) ↔ ((timed_out ≡ false) × (unread ≡ false) × (failing ≡ []))
  pub word_agrees : word ≡ word_of code

outcome-IsPublished :
    (t e b : Bool) (fs : List Finding)
    → (fs ≡ [] → e ≡ false)
    → IsPublished t e b fs (outcome t e b fs).1 (outcome t e b fs).0
unfolding outcome
outcome-IsPublished t e b [] h = record {
  timeout = ground arith;
  inconclusive = ground arith;
  fail = ground arith;
  pass = ground arith;
  word_agrees = ground arith;
}
outcome-IsPublished t e b (f ∷ fs) h = record {
  timeout = ground arith;
  inconclusive = ground arith;
  fail = ground arith;
  pass = ground arith;
  word_agrees = ground arith;
}

blind-map :
    (allowed : List Text) (prs : List ReadFailure)
    → any (λ (b : Blindspot). not b.waived) (map (blindspot allowed) prs)
      ≡ any (λ (pr : ReadFailure). not (is_waived allowed pr.resource)) prs
unfolding blindspot
blind-map allowed prs = any-map _ _ prs

any-nil : (fs : List Finding) → fs ≡ [] → any is_unevaluated_rule fs ≡ false
any-nil fs e = rw e

module _ {r : Rates} (res : ScanResult) (opts : Options r) where
  -- The exit code of `Decide` follows the published contract, whatever was scanned: 3 exactly on a
  -- timeout; otherwise 2 exactly when some list went unread without a waiver and no unevaluated
  -- policy rule fails; 1 exactly when one does, or when nothing went unread and something fails;
  -- 0 exactly when nothing timed out, went unread or fails. The word always names the code.
  pub decide-IsPublished :
      let v = decide res opts in
      IsPublished opts.timed_out
        (any is_unevaluated_rule v.failing)
        (blind res opts)
        v.failing
        v.code
        v.verdict
  unfolding decide
  decide-IsPublished =
      let fs = (decide res opts).failing in
      rw (← blind-map opts.allow_partial_read res.partial_reads)
        (outcome-IsPublished opts.timed_out (any is_unevaluated_rule fs) _ fs (any-nil fs))

has_prefix-append : (p s : Text) → has_prefix (p ++ s) p ≡ true
unfolding has_prefix
has_prefix-append [] s = refl
has_prefix-append (c ∷ p) s = ground (arith, has_prefix-append p s)

unevaluated_finding-is : (u : Unevaluated) → is_unevaluated_rule (unevaluated_finding u) ≡ true
unfolding is_unevaluated_rule unevaluated_finding text_eq
unevaluated_finding-is u = rw (has_prefix-append (codes "policy/") u.rule_id)

in_scope-unevaluated :
    {r : Rates} (opts : Options r) (f : Finding)
    → is_unevaluated_rule f ≡ true
    → in_scope opts f ≡ true
unfolding in_scope
in_scope-unevaluated opts f h = ground arith

module _ {r : Rates} (res : ScanResult) (opts : Options r) where
  mem-judged :
      (u : Unevaluated)
      → Mem u opts.policy_not_evaluated
      → Mem (unevaluated_finding u) (judged res opts)
  unfolding judged from_policy
  mem-judged u m = (Perm.mem_iff (sort-perm _)).1 (
      mem-append_right (flatten res) (
        mem-append_left (from_baseline r opts.baseline) (
          mem-append_right (map violation_finding opts.policy_violations)
            (mem-map_of_mem unevaluated_finding m))))

  counts-unevaluated :
      (u : Unevaluated)
      → rank opts.fail_on ≤ rank (policy_level u.level)
      → counts opts (unevaluated_finding u) ≡ true
  unfolding counts unevaluated_finding
  counts-unevaluated u h =
      rw (in_scope-unevaluated opts (unevaluated_finding u) (unevaluated_finding-is u))
        (le→leb _ _ h)

  -- A policy rule that could not be evaluated and is at or above the threshold fails the gate with
  -- exit code 1 unless the run timed out: no scope narrows it away, and no waiver of the failed
  -- read makes the run inconclusive or passing.
  pub unevaluated_rule_fails :
      (u : Unevaluated)
      → Mem u opts.policy_not_evaluated
      → rank opts.fail_on ≤ rank (policy_level u.level)
      → opts.timed_out ≡ false
      → (decide res opts).code ≡ 1
  unevaluated_rule_fails u m h t = (decide-IsPublished res opts).fail.1 (
    t,
    inl (
        any_of_mem is_unevaluated_rule _ (unevaluated_finding-is u)
          (mem-failing res opts (counts-unevaluated u h) (mem-judged u m))),
  )

counts-lower :
    {r : Rates} (opts : Options r) (l : Level) (f : Finding)
    → rank opts.fail_on ≤ rank l
    → counts (record opts { fail_on = l }) f ≡ true
    → counts opts f ≡ true
unfolding counts in_scope
counts-lower opts l f h c = ground arith

judged-threshold :
    {r : Rates} (res : ScanResult) (opts : Options r) (l : Level)
    → judged res (record opts { fail_on = l }) ≡ judged res opts
unfolding judged
judged-threshold res opts l = refl

-- Raising the threshold of a gate that passes leaves it passing.
pub pass-monotone :
    {r : Rates} (res : ScanResult) (opts : Options r) (l : Level)
    → rank opts.fail_on ≤ rank l
    → (decide res opts).code ≡ 0
    → (decide res (record opts { fail_on = l })).code ≡ 0
pass-monotone res opts l h p =
    let (t, b, e) = (decide-IsPublished res opts).pass.0 p in
    let opts' : Options _ = record opts { fail_on = l } in
    (decide-IsPublished res opts').pass.1 (
      t,
      b,
      nil_of_no_mem _ λ f m.
          let (c, j) = mem_of_failing res opts' m in
          not-mem-nil (
            rw e at (
              mem-failing res opts (counts-lower opts l f h c)
                (rw (judged-threshold res opts l) at j))),
    )
