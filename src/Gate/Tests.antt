-- ===== src/Gate/Tests.antt =====
-- Runs of the gate, and its theorems at a small scan whose Node list went unread.
use mathlib.Core.List.{Perm, mem-cons_self}
use kubeagent.Prelude.{
  ℕ, ◌/◌, ◌≡◌, ◌≤◌, ◌<◌, ◌⊎◌, refl, true, All, false, any, [], ◌∷◌, ◌++◌, none, codes, eqb, arith,
  text_eq, text_lt,
}
use kubeagent.Prelude.Decimal.{decimal}
use kubeagent.Findings.{rank, warning, critical}
use kubeagent.Findings.Sources.{Rates, ScanResult, Unevaluated, ReadFailure}
use kubeagent.Findings.Tests.{small}
use kubeagent.Findings.Flatten.{policy_level, flatten, from_policy, from_baseline}
use kubeagent.Gate.{Options, is_unevaluated_rule, in_scope, decide}
use kubeagent.Gate.Partition.{decide-partition}
use kubeagent.Gate.Exit.{blind, IsPublished, decide-IsPublished, unevaluated_rule_fails}

abbrev pub whole : Rates
whole = record {
  Rate = ℕ;
  at_most_zero = λ r. eqb r 0;
  two_places = decimal;
  multiple = λ a b. decimal (a / b);
}

abbrev defaults : Options whole
defaults = record {
  fail_on = critical;
  scope_kind = [];
  scope_name = [];
  scope_namespace = [];
  allow_partial_read = [];
  timed_out = false;
  timeout_detail = [];
  policy_violations = [];
  policy_not_evaluated = [];
  baseline = none;
}

abbrev node_gap : ReadFailure
node_gap = record { resource = codes "nodes"; reason = codes "forbidden" }

abbrev pub unread : ScanResult
unread = record small { partial_reads = node_gap ∷ [] }

abbrev pub healthy : ScanResult
healthy = record small { workloads = [] }

blind_run : (decide unread defaults).code ≡ 2
unfolding decide text_eq text_lt
blind_run = refl

waived_run : (decide unread (record defaults { allow_partial_read = codes "nodes" ∷ [] })).code ≡ 1
unfolding decide text_eq text_lt
waived_run = refl

healthy_run : (decide healthy defaults).code ≡ 0
unfolding decide text_eq text_lt
healthy_run = refl

abbrev no_root : Unevaluated
no_root = record {
  rule_id = codes "no-root";
  level = codes "critical";
  kind = codes "Deployment";
  reason = codes "unread";
}

abbrev with_rule : Options whole
with_rule = record defaults {
  scope_kind = codes "Deployment";
  scope_name = codes "web";
  scope_namespace = codes "shop";
  allow_partial_read = codes "nodes" ∷ [];
  policy_not_evaluated = no_root ∷ [];
}

decide-partition_example :
    Perm ((decide unread with_rule).failing ++ (decide unread with_rule).reported) (
      flatten unread
      ++ (from_policy with_rule.policy_violations with_rule.policy_not_evaluated
          ++ from_baseline whole with_rule.baseline))
    × All
        (λ f. (in_scope with_rule f ≡ true) × (rank with_rule.fail_on ≤ rank f.level))
        (decide unread with_rule).failing
    × All
        (λ f. (in_scope with_rule f ≡ false) ⊎ (rank f.level < rank with_rule.fail_on))
        (decide unread with_rule).reported
decide-partition_example = decide-partition unread with_rule

decide-IsPublished_example :
    let v = decide unread defaults in
    IsPublished false
      (any is_unevaluated_rule v.failing)
      (blind unread defaults)
      v.failing
      v.code
      v.verdict
decide-IsPublished_example = decide-IsPublished unread defaults

no_root-level : rank critical ≤ rank (policy_level no_root.level)
unfolding policy_level text_eq
no_root-level = omega arith

unevaluated_rule_fails_example : (decide unread with_rule).code ≡ 1
unevaluated_rule_fails_example =
    unevaluated_rule_fails unread with_rule no_root mem-cons_self no_root-level refl

abbrev strict : Options whole
strict = record defaults { fail_on = warning }

abbrev quiet : ScanResult
quiet = record healthy { service_issues = [] }

quiet_run : (decide quiet strict).code ≡ 0
unfolding decide text_eq text_lt
quiet_run = refl
