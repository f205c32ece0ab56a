-- ===== src/Findings/Tests.antt =====
-- Runs of the projections, and the theorems at a small scan.

use kubeagent.Prelude.{◌+◌, ◌≡◌, refl, false, true, [], ◌∷◌, keep, map, codes, text_eq, text_lt}
use kubeagent.Findings.{Finding, info, warning, critical}
use kubeagent.Inventory.{plain}
use kubeagent.Findings.Sources.{flagged, Detection, Workload, ServiceIssue, ScanResult}
use kubeagent.Findings.Flatten.{from_diagnose, flatten}
use kubeagent.Findings.Classes.{tally, detections, undetected, advisories, flatten-tally}

abbrev pub crash : Detection
crash = record {
  pod = codes "shop/api-0";
  issue = codes "CrashLoopBackOff";
  reason = codes "exit 1";
  evidence = codes "restarts=7";
  image = [];
}

abbrev api : Workload
api = record (plain (codes "Deployment") (codes "shop") (codes "api")) {
  desired = 3;
  ready = 2;
  status = codes "Degraded";
  findings = crash ∷ [];
}

abbrev web : Workload
web = record api { name = codes "web"; findings = [] }

abbrev orphan : ServiceIssue
orphan = record {
  namespace = codes "shop";
  name = codes "orphan";
  problem = codes "NoEndpoints";
  detail = codes "no pods";
  expected = false;
}

abbrev pub small : ScanResult
small = record {
  workloads = web ∷ api ∷ [];
  service_issues = orphan ∷ record orphan { expected = true } ∷ [];
  ingress_issues = [];
  pvc_issues = [];
  stuck_terminating = [];
  pdb_issues = [];
  hpa_issues = [];
  webhook_issues = [];
  quota_issues = [];
  partial_reads = [];
}

small_order :
    map (λ (f : Finding). f.name) (flatten small)
    ≡ codes "api-0" ∷ codes "web" ∷ codes "orphan" ∷ []
unfolding flatten text_eq text_lt
small_order = refl

crash_reason : (from_diagnose crash (codes "Deployment/api")).reason ≡ codes "exit 1 (restarts=7)"
unfolding from_diagnose text_eq
crash_reason = refl

flatten-tally_example :
    (tally critical (flatten small) ≡ detections small.workloads)
    × (tally warning (flatten small) ≡ undetected small.workloads + advisories small)
    × (tally info (flatten small) ≡ 0)
flatten-tally_example = flatten-tally small

small_counts :
    (detections small.workloads ≡ 1) × (undetected small.workloads + advisories small ≡ 2)
unfolding detections undetected advisories flagged text_eq keep
small_counts = (refl, refl)

abbrev one : Finding
one = record {
  level = warning;
  kind = codes "Service";
  namespace = codes "shop";
  name = codes "orphan";
  issue = codes "NoEndpoints";
  reason = [];
  owner = [];
}

abbrev two : Finding
two = record one { level = critical; name = codes "api" }
