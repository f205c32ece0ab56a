-- ===== src/Gate.antt =====
-- internal/gate/gate.go: the verdict of `kubeagent gate` over a scan result. The schema version, a
-- constant of the JSON document, is left out.
pub mod Partition
pub mod Exit
pub mod Tests
use kubeagent.Prelude.{
  ℕ, Bool, true, false, ◌&&◌, ◌||◌, not, List, [], ◌∷◌, ◌++◌, map, Option, Text, codes, any, eqb,
  leb, if◌then◌else◌,
}
use kubeagent.Prelude.Strings.{text_eq}
use kubeagent.Findings.{Level, rank, Finding, sort}
use kubeagent.Findings.Sources.{ReadFailure, ScanResult, Violation, Unevaluated, Rates, Deviation}
use kubeagent.Findings.Flatten.{flatten, from_policy, from_baseline}

pub record Options (r : Rates) : Type 0 where
  pub fail_on : Level
  pub scope_kind : Text
  pub scope_name : Text
  pub scope_namespace : Text
  pub allow_partial_read : List Text
  pub timed_out : Bool
  pub timeout_detail : Text
  pub policy_violations : List Violation
  pub policy_not_evaluated : List Unevaluated
  pub baseline : Option (List (Deviation r))

pub record Blindspot : Type 0 where
  pub resource : Text
  pub reason : Text
  pub waived : Bool

-- The five published exit codes; `decide` never gives `code_usage`.
abbrev pub code_pass : ℕ
code_pass = 0

abbrev pub code_fail : ℕ
code_fail = 1

abbrev pub code_inconclusive : ℕ
code_inconclusive = 2

abbrev pub code_timeout : ℕ
code_timeout = 3

abbrev pub code_usage : ℕ
code_usage = 4

pub record Verdict : Type 0 where
  pub verdict : Text
  pub code : ℕ
  pub fail_on : Level
  pub scope : Text
  pub detail : Text
  pub failing : List Finding
  pub reported : List Finding
  pub inconclusive : List Blindspot
  pub policy_not_evaluated : List Unevaluated

-- `strings.HasPrefix`.
unfoldable pub has_prefix : Text → Text → Bool
has_prefix s [] = true
has_prefix [] (c ∷ p) = false
has_prefix (x ∷ s) (c ∷ p) = eqb x c && has_prefix s p

-- `isUnevaluatedRule`.
unfoldable pub is_unevaluated_rule : Finding → Bool
unfolding has_prefix text_eq
is_unevaluated_rule f = has_prefix f.issue (codes "policy/") && text_eq f.name []

-- `Options.inScope`.
unfoldable pub in_scope : {r : Rates} → Options r → Finding → Bool
unfolding is_unevaluated_rule
in_scope o f =
    if text_eq o.scope_kind []
    then true
    else if is_unevaluated_rule f
    then true
    else if not (text_eq f.namespace o.scope_namespace)
    then false
    else if text_eq f.kind o.scope_kind && text_eq f.name o.scope_name
    then true
    else text_eq f.owner (o.scope_kind ++ (codes "/" ++ o.scope_name))

-- Whether a resource is on the list of `--allow-partial-read`.
unfoldable pub is_waived : List Text → Text → Bool
unfolding text_eq
is_waived allowed resource = any (λ r. text_eq r resource) allowed

unfoldable pub blindspot : List Text → ReadFailure → Blindspot
unfolding is_waived
blindspot allowed pr = record {
  resource = pr.resource;
  reason = pr.reason;
  waived = is_waived allowed pr.resource;
}

-- The final switch: the verdict's word and its exit code.
unfoldable pub outcome : Bool → Bool → Bool → List Finding → Text × ℕ
outcome timed_out unevaluated blind failing =
    if timed_out
    then (codes "timeout", code_timeout)
    else if unevaluated
    then (codes "fail", code_fail)
    else if blind
    then (codes "inconclusive", code_inconclusive)
    else elim failing [ [] ↦ (codes "pass", code_pass) | f ∷ fs ↦ (codes "fail", code_fail) ]

module _ {r : Rates} where
  -- What is judged, before it is split: the flattened scan, the policy run and the baseline.
  unfoldable pub judged : ScanResult → Options r → List Finding
  unfolding sort flatten from_policy from_baseline
  judged res opts = sort (
      flatten res
      ++ (from_policy opts.policy_violations opts.policy_not_evaluated
          ++ from_baseline r opts.baseline))

  -- The condition of the loop that splits the findings.
  unfoldable pub counts : Options r → Finding → Bool
  unfolding in_scope
  counts opts f = in_scope opts f && leb (rank opts.fail_on) (rank f.level)

  -- The loop that splits the findings, which appends each to one of two lists.
  unfoldable pub separate :
      Options r → List Finding → List Finding → List Finding → List Finding × List Finding
  unfolding counts
  separate opts [] failing reported = (failing, reported)
  separate opts (f ∷ fs) failing reported =
      let c = counts opts f in
      separate opts fs (if c then failing ++ (f ∷ []) else failing)
        (if c then reported else reported ++ (f ∷ []))

  unfoldable pub scope_of : Options r → Text
  unfolding text_eq
  scope_of opts =
      if not (text_eq opts.scope_kind [])
      then opts.scope_kind
        ++ (codes "/" ++ (opts.scope_name ++ (codes " in " ++ opts.scope_namespace)))
      else codes "cluster"

  -- `Decide`.
  unfoldable pub decide : ScanResult → Options r → Verdict
  unfolding judged separate sort blindspot is_unevaluated_rule outcome scope_of
  decide res opts =
      let inconclusive = map (blindspot opts.allow_partial_read) res.partial_reads in
      let blind = any (λ (b : Blindspot). not b.waived) inconclusive in
      let all = judged res opts in
      let parts = separate opts all [] [] in
      let failing = sort parts.0 in
      let reported = sort parts.1 in
      let (word, code) = outcome opts.timed_out (any is_unevaluated_rule failing) blind failing in
      record {
        verdict = word;
        code = code;
        fail_on = opts.fail_on;
        scope = scope_of opts;
        detail = opts.timeout_detail;
        failing = failing;
        reported = reported;
        inconclusive = inconclusive;
        policy_not_evaluated = opts.policy_not_evaluated;
      }
