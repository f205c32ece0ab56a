-- ===== src/Findings/Flatten.antt =====
-- The projections of internal/findings/findings.go into one flat list.
use mathlib.Core.List.{flat_map}
use kubeagent.Prelude.{
  List, [], ◌∷◌, ◌++◌, map, Option, none, some, Text, codes, eqb, keep, not, if◌then◌else◌,
}
use kubeagent.Prelude.Strings.{text_eq}
use kubeagent.Prelude.Decimal.{decimal, trim_space}
use kubeagent.Findings.{Level, info, warning, critical, Finding, sort}
use kubeagent.Findings.Sources.{
  Detection, Workload, flagged, ServiceIssue, PvcIssue, TermIssue, CategoryIssue, WebhookIssue,
  QuotaIssue, ScanResult, Violation, Unevaluated, Rates, Deviation,
}

-- The text in front of the first slash and the text behind it.
unfoldable pub cut_slash : Text → Option (Text × Text)
cut_slash [] = none
cut_slash (c ∷ s) =
    if eqb c b'/'
    then some ([], s)
    else elim (cut_slash s) [ none ↦ none | some (a, b) ↦ some (c ∷ a, b) ]

-- `splitNamespacedName`: a value with no slash is a bare name in no namespace.
unfoldable pub split_namespaced_name : Text → Text × Text
unfolding cut_slash
split_namespaced_name s = elim (cut_slash s) [ none ↦ ([], s) | some (a, b) ↦ (a, b) ]

-- " (" + evidence + ")" behind the reason, where there is evidence.
unfoldable pub with_evidence : Text → Text → Text
unfolding trim_space
with_evidence reason evidence =
    if text_eq evidence []
    then reason
    else trim_space (reason ++ (codes " (" ++ (evidence ++ codes ")")))

unfoldable pub from_diagnose : Detection → Text → Finding
unfolding split_namespaced_name with_evidence
from_diagnose f owner =
    let (ns, name) = split_namespaced_name f.pod in
    record {
      level = critical;
      kind = codes "Pod";
      namespace = ns;
      name = name;
      issue = f.issue;
      reason = with_evidence f.reason f.evidence;
      owner = owner;
    }

unfoldable pub from_workload : Workload → Finding
unfolding decimal
from_workload w = record {
  level = warning;
  kind = w.kind;
  namespace = w.namespace;
  name = w.name;
  issue = w.status;
  reason = decimal w.ready ++ (codes "/" ++ (decimal w.desired ++ codes " ready"));
  owner = w.kind ++ (codes "/" ++ w.name);
}

-- `pdbCategoryToIssue`, with the raw category for one that the map does not hold.
unfoldable pub pdb_issue : Text → Text
pdb_issue c =
    if text_eq c (codes "unsatisfiable")
    then codes "PDBUnsatisfiable"
    else if text_eq c (codes "stale")
    then codes "PDBStale"
    else if text_eq c (codes "blocking")
    then codes "PDBBlocked"
    else if text_eq c (codes "singleton")
    then codes "PDBSingleton"
    else c

-- `hpaCategoryToIssue`.
unfoldable pub hpa_issue : Text → Text
hpa_issue c =
    if text_eq c (codes "unable")
    then codes "HPAUnableToScale"
    else if text_eq c (codes "metrics")
    then codes "HPAMetricsFailed"
    else if text_eq c (codes "disabled")
    then codes "HPAScalingDisabled"
    else if text_eq c (codes "ambiguous")
    then codes "HPAAmbiguousSelector"
    else if text_eq c (codes "capped")
    then codes "HPACapped"
    else c

-- A warning with no owner.
abbrev plain : Text → Text → Text → Text → Text → Finding
plain kind namespace name issue reason = record {
  level = warning;
  kind = kind;
  namespace = namespace;
  name = name;
  issue = issue;
  reason = reason;
  owner = [];
}

-- The body of the loop over the workloads, by the workload's detections.
unfoldable pub detected : List Detection → Workload → List Finding
unfolding from_diagnose from_workload flagged
detected [] w = if flagged w then from_workload w ∷ [] else []
detected (f ∷ fs) w = map (λ d. from_diagnose d (w.kind ++ (codes "/" ++ w.name))) (f ∷ fs)

-- One workload's share of the list.
unfoldable pub workload_findings : Workload → List Finding
unfolding detected
workload_findings w = detected w.findings w

unfoldable pub service_finding : ServiceIssue → Finding
service_finding i = plain (codes "Service") i.namespace i.name i.problem i.detail

unfoldable pub ingress_finding : ServiceIssue → Finding
ingress_finding i = plain (codes "Ingress") i.namespace i.name i.problem i.detail

unfoldable pub pvc_finding : PvcIssue → Finding
pvc_finding i = plain (codes "PersistentVolumeClaim") i.namespace i.name i.reason i.detail

unfoldable pub term_finding : TermIssue → Finding
term_finding i = plain i.kind i.namespace i.name (codes "StuckTerminating") i.reason

unfoldable pub pdb_finding : CategoryIssue → Finding
unfolding pdb_issue
pdb_finding i =
    plain (codes "PodDisruptionBudget") i.namespace i.name (pdb_issue i.category) i.reason

unfoldable pub hpa_finding : CategoryIssue → Finding
unfolding hpa_issue
hpa_finding i =
    plain (codes "HorizontalPodAutoscaler") i.namespace i.name (hpa_issue i.category) i.reason

unfoldable pub webhook_finding : WebhookIssue → Finding
webhook_finding i = plain i.kind [] (i.config ++ (codes "/" ++ i.webhook)) i.problem i.reason

unfoldable pub quota_finding : QuotaIssue → Finding
quota_finding i =
    plain (codes "ResourceQuota") i.namespace i.quota i.severity
      (i.resource ++ (codes " " ++ (i.used ++ (codes "/" ++ (i.hard ++ codes " used")))))

-- The list that `Flatten` sorts.
unfoldable pub collected : ScanResult → List Finding
unfolding workload_findings service_finding ingress_finding pvc_finding term_finding pdb_finding
    hpa_finding webhook_finding quota_finding keep flat_map
collected res =
    flat_map workload_findings res.workloads
    ++ (map service_finding (keep (λ i. not i.expected) res.service_issues)
        ++ (map ingress_finding (keep (λ i. not i.expected) res.ingress_issues)
            ++ (map pvc_finding res.pvc_issues
                ++ (map term_finding res.stuck_terminating
                    ++ (map pdb_finding res.pdb_issues
                        ++ (map hpa_finding res.hpa_issues
                            ++ (map webhook_finding res.webhook_issues
                                ++ map quota_finding res.quota_issues)))))))

-- `Flatten`.
unfoldable pub flatten : ScanResult → List Finding
unfolding collected sort
flatten res = sort (collected res)

unfoldable pub policy_level : Text → Level
policy_level l =
    if text_eq l (codes "critical")
    then critical
    else if text_eq l (codes "warning")
    then warning
    else info

unfoldable pub violation_finding : Violation → Finding
unfolding policy_level with_evidence
violation_finding v = record {
  level = policy_level v.level;
  kind = v.kind;
  namespace = v.namespace;
  name = v.name;
  issue = codes "policy/" ++ v.rule_id;
  reason = with_evidence v.message v.evidence;
  owner = [];
}

unfoldable pub unevaluated_finding : Unevaluated → Finding
unfolding policy_level
unevaluated_finding u = record {
  level = policy_level u.level;
  kind = u.kind;
  namespace = [];
  name = [];
  issue = codes "policy/" ++ u.rule_id;
  reason = u.reason;
  owner = [];
}

-- `FromPolicy`.
unfoldable pub from_policy : List Violation → List Unevaluated → List Finding
unfolding violation_finding unevaluated_finding
from_policy violations not_evaluated =
    map violation_finding violations ++ map unevaluated_finding not_evaluated

module _ (r : Rates) where
  unfoldable pub baseline_reason : Deviation r → Text
  unfolding decimal
  baseline_reason d =
      let rates =
        r.two_places d.baseline_rate
        ++ (codes " -> " ++ (r.two_places d.current_rate ++ codes " restarts/hour (")) in
      if r.at_most_zero d.baseline_rate
      then rates ++ (decimal d.pods ++ codes " pods)")
      else rates
        ++ (r.multiple d.current_rate d.baseline_rate
            ++ (codes "x baseline, " ++ (decimal d.pods ++ codes " pods)")))

  unfoldable pub deviation_finding : Deviation r → Finding
  unfolding baseline_reason
  deviation_finding d = record {
    level = info;
    kind = d.kind;
    namespace = d.namespace;
    name = d.name;
    issue = codes "RestartRateDeviation";
    reason = baseline_reason d;
    owner = [];
  }

  -- `FromBaseline`; no report is the nil pointer.
  unfoldable pub from_baseline : Option (List (Deviation r)) → List Finding
  unfolding deviation_finding
  from_baseline none = []
  from_baseline (some ds) = map deviation_finding ds
