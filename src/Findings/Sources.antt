-- ===== src/Findings/Sources.antt =====
-- What `Flatten`, `FromPolicy` and `FromBaseline` read of the other packages' results: the fields
-- of internal/scan, internal/inventory, internal/diagnose, the health packages, internal/policy and
-- internal/baseline that reach a finding.
use kubeagent.Prelude.{ℕ, Bool, List, Text}
pub use kubeagent.Inventory.{Detection, Workload, some_findings}
unfoldable pub use kubeagent.Inventory.{flagged}

-- `svchealth.Issue`, and `ingresshealth.RouteIssue` with `Ingress` for the name.
pub record ServiceIssue : Type 0 where
  pub namespace : Text
  pub name : Text
  pub problem : Text
  pub detail : Text
  pub expected : Bool

-- `pvchealth.Issue`.
pub record PvcIssue : Type 0 where
  pub namespace : Text
  pub name : Text
  pub reason : Text
  pub detail : Text

-- `termhealth.Issue`.
pub record TermIssue : Type 0 where
  pub kind : Text
  pub namespace : Text
  pub name : Text
  pub reason : Text

-- `pdbhealth.Issue` and `hpahealth.Issue`.
pub record CategoryIssue : Type 0 where
  pub namespace : Text
  pub name : Text
  pub category : Text
  pub reason : Text

-- `webhookhealth.Issue`.
pub record WebhookIssue : Type 0 where
  pub kind : Text
  pub config : Text
  pub webhook : Text
  pub problem : Text
  pub reason : Text

-- `quotahealth.Issue`.
pub record QuotaIssue : Type 0 where
  pub namespace : Text
  pub quota : Text
  pub resource : Text
  pub used : Text
  pub hard : Text
  pub severity : Text

-- `scan.ReadFailure`.
pub record ReadFailure : Type 0 where
  pub resource : Text
  pub reason : Text

-- `scan.Result`.
pub record ScanResult : Type 0 where
  pub workloads : List Workload
  pub service_issues : List ServiceIssue
  pub ingress_issues : List ServiceIssue
  pub pvc_issues : List PvcIssue
  pub stuck_terminating : List TermIssue
  pub pdb_issues : List CategoryIssue
  pub hpa_issues : List CategoryIssue
  pub webhook_issues : List WebhookIssue
  pub quota_issues : List QuotaIssue
  pub partial_reads : List ReadFailure

-- `policy.Violation`; a policy level is a string.
pub record Violation : Type 0 where
  pub rule_id : Text
  pub level : Text
  pub kind : Text
  pub namespace : Text
  pub name : Text
  pub message : Text
  pub evidence : Text

pub record Unevaluated : Type 0 where
  pub rule_id : Text
  pub level : Text
  pub kind : Text
  pub reason : Text

-- The float64 rates of a deviation, and how `fmt` renders them: the language's floats are not
-- computed here.
pub record Rates : Type 1 where
  pub Rate : Type 0
  pub at_most_zero : Rate → Bool
  -- "%.2f"
  pub two_places : Rate → Text
  -- "%.0f" of the quotient
  pub multiple : Rate → Rate → Text

-- `baseline.Deviation`.
pub record Deviation (r : Rates) : Type 0 where
  pub kind : Text
  pub namespace : Text
  pub name : Text
  pub baseline_rate : r.Rate
  pub current_rate : r.Rate
  pub pods : ℕ
