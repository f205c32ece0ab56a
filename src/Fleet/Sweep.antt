-- ===== src/Fleet/Sweep.antt =====
-- fleet.go: the report of a sweep, from what the read of each target gave.
use kubeagent.Prelude.{
  Bool, false, List, [], ◌∷◌, none, Text, codes, text_eq, text_lt, if◌then◌else◌,
}
use kubeagent.Prelude.Sort.{sort_by}
use kubeagent.Findings.{Level}
use kubeagent.Findings.Sources.{ScanResult, Rates}
use kubeagent.Gate.{Options, Verdict}
use kubeagent.Fleet.{Target, ClusterSummary, Unreachable, ClusterEvidence, Report}
use kubeagent.Fleet.Summarize.{identity, summarize, sort_summaries}
use kubeagent.Fleet.Correlate.{correlate}

-- How the read of a target went: no client could be built, it gave a scan result, its context was
-- cancelled or overran its deadline, or it failed otherwise.
pub data Read : Type 0 where
  scanned : ScanResult → Read
  no_client cut_off failed_read : Read

-- The gate's options: a threshold and nothing else.
abbrev pub gate_options : (r : Rates) → Level → Options r
gate_options r level = record {
  fail_on = level;
  scope_kind = [];
  scope_name = [];
  scope_namespace = [];
  allow_partial_read = [];
  timed_out = false;
  timeout_detail = [];
  policy_violations = [];
  policy_not_evaluated = [];
  baseline = none;
}

pub data Outcome : Type 0 where
  verdict_of : Verdict → Outcome
  error_of : Text → Outcome

-- `reasonFor`, of each way to fail.
abbrev pub connecting : Text
connecting = codes "connecting to the cluster"

abbrev pub timed_out : Text
timed_out = codes "timed out"

-- The closure that is run for a target, up to the reason that stands for its error.
unfoldable pub judge : (r : Rates) → Level → Read → Outcome
unfolding kubeagent.Gate.decide
judge r level (scanned res) = verdict_of (kubeagent.Gate.decide res (gate_options r level))
judge r level no_client = error_of connecting
judge r level cut_off = error_of timed_out
judge r level failed_read = error_of connecting

-- The pair that a row is named by.
abbrev pub context_of : Target → Text
context_of t = elim (t.context) [ [] ↦ t.name | c ∷ cs ↦ c ∷ cs ]

abbrev pub name_of : Target → Text
name_of t = if text_eq t.name (context_of t) then [] else t.name

-- What the loop has collected.
pub record Rows : Type 0 where
  pub clusters : List ClusterSummary
  pub unreachable : List Unreachable
  pub evidence : List ClusterEvidence

unfoldable pub with_outcome : Target → Outcome → Rows → Rows
unfolding summarize
with_outcome t (verdict_of v) rows =
    let (s, e) = summarize (name_of t) (context_of t) v in
    record rows { clusters = s ∷ rows.clusters; evidence = e ∷ rows.evidence }
with_outcome t (error_of reason) rows = record rows {
  unreachable =
      record { name = name_of t; context = context_of t; reason = reason } ∷ rows.unreachable;
}

module _ (r : Rates) (level : Level) where
  -- The loop over the results, which stand in the order of the targets.
  unfoldable pub rows_of : List (Target × Read) → Rows
  unfolding judge with_outcome
  rows_of [] = record { clusters = []; unreachable = []; evidence = [] }
  rows_of ((t, read) ∷ rest) = with_outcome t (judge r level read) (rows_of rest)

  unfoldable pub by_identity : Unreachable → Unreachable → Bool
  unfolding text_lt
  by_identity a b = text_lt (identity a.name a.context) (identity b.name b.context)

  -- `Sweep`.
  unfoldable pub sweep : List (Target × Read) → Report
  unfolding rows_of correlate sort_summaries by_identity sort_by kubeagent.Fleet.Summarize.decide
  sweep targets =
      let rows = rows_of targets in
      let clusters = sort_summaries rows.clusters in
      let unreachable = sort_by by_identity rows.unreachable in
      let (verdict, code) = kubeagent.Fleet.Summarize.decide clusters unreachable in
      record {
        verdict = verdict;
        code = code;
        fail_on = level;
        clusters = clusters;
        unreachable = unreachable;
        shared = correlate rows.evidence;
      }
