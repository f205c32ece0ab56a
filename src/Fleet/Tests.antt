-- ===== src/Fleet/Tests.antt =====
-- A fleet of three clusters, and two clusters that show the same issue.
use kubeagent.Prelude.{
  ◌≡◌, refl, true, List, [], ◌∷◌, map, Text, codes, ltb, length, keep, text_eq, text_lt, count_if,
  if◌then◌else◌,
}
use kubeagent.Prelude.Sort.{sort_by}
use kubeagent.Findings.{Level, info, warning, critical, Finding}
use kubeagent.Gate.{Verdict}
use kubeagent.Gate.Tests.{whole, unread, healthy}
use kubeagent.Fleet.{Target, issue, blindspot}
use kubeagent.Fleet.Summarize.{all_findings, summarize}
use kubeagent.Fleet.Correlate.{correlate}
use kubeagent.Fleet.Sweep.{Read, scanned, cut_off, sweep}
use kubeagent.Fleet.Exact.{is_for}
use kubeagent.Fleet.Evidence.{Judged, shows, row_id, evidence_of, correlate-shows}
use kubeagent.Fleet.Judge.{worst, target_code, sweep-worst}
use kubeagent.Fleet.Row.{IsTop, of_level, summarize-IsTop}

abbrev found : Level → Text → Finding
found level word = record {
  level = level;
  kind = codes "Pod";
  namespace = codes "shop";
  name = codes "web";
  issue = word;
  reason = [];
  owner = [];
}

abbrev failing : List Text → Verdict
failing issues = record {
  verdict = codes "fail";
  code = 1;
  fail_on = critical;
  scope = codes "cluster";
  detail = [];
  failing = map (found critical) issues;
  reported = found warning (codes "Pending") ∷ [];
  inconclusive = record { resource = codes "nodes"; reason = []; waived = true } ∷ [];
  policy_not_evaluated = [];
}

abbrev east : Judged
east = (
  codes "east",
  codes "default",
  failing (codes "CrashLoop" ∷ codes "CrashLoop" ∷ codes "OOM" ∷ []),
)

abbrev west : Judged
west = ([], codes "west", failing (codes "OOM" ∷ codes "Evicted" ∷ []))

abbrev both_clusters : List Judged
both_clusters = east ∷ west ∷ []

-- What is seen twice in one cluster is not shared.
shared :
    correlate (map evidence_of both_clusters)
    ≡ record { signal = codes "OOM"; source = issue; clusters = codes "east" ∷ codes "west" ∷ [] }
      ∷ record {
        signal = codes "Pending";
        source = issue;
        clusters = codes "east" ∷ codes "west" ∷ [];
      }
      ∷ record {
        signal = codes "nodes";
        source = blindspot;
        clusters = codes "east" ∷ codes "west" ∷ [];
      }
      ∷ []
unfolding correlate summarize text_eq text_lt
shared = refl

top :
    ((summarize [] (codes "east") (failing (codes "b" ∷ codes "c" ∷ codes "c" ∷ codes "a" ∷ []))).0
    ).top_issues
    ≡ codes "c" ∷ codes "Pending" ∷ codes "a" ∷ []
unfolding summarize text_eq text_lt
top = refl

correlate-shows_example :
    let ids = map row_id (keep (shows issue (codes "OOM")) both_clusters) in
    keep (is_for issue (codes "OOM")) (correlate (map evidence_of both_clusters)) ≡ (
      if ltb (length ids) 2
      then []
      else record { signal = codes "OOM"; source = issue; clusters = sort_by text_lt ids } ∷ [])
correlate-shows_example = correlate-shows issue (codes "OOM") both_clusters

abbrev targets : List (Target × Read)
targets =
    (record { name = codes "one"; context = [] }, scanned healthy)
    ∷ (record { name = codes "two"; context = [] }, scanned unread)
    ∷ (record { name = codes "three"; context = [] }, cut_off)
    ∷ []

sweep-worst_example :
    (sweep whole critical targets).code ≡ worst (map (target_code whole critical) targets)
sweep-worst_example = sweep-worst whole critical targets

summarize-IsTop_example :
    let row = (summarize (codes "east") (codes "default") (failing (codes "OOM" ∷ []))).0 in
    let fs = all_findings (failing (codes "OOM" ∷ [])) in
    (row.critical ≡ count_if (of_level critical) fs)
    × (row.warning ≡ count_if (of_level warning) fs)
    × (row.info ≡ count_if (of_level info) fs)
    × IsTop fs row.top_issues
summarize-IsTop_example =
    summarize-IsTop (codes "east") (codes "default") (failing (codes "OOM" ∷ []))
