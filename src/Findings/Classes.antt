-- ===== src/Findings/Classes.antt =====
-- What `Flatten` keeps of a scan result: how many findings of each severity, and the owner and
-- object that a detection is attributed to.
use mathlib.Core.List.{flat_map}
use kubeagent.Prelude.{
  ℕ, ◌+◌, ◌≡◌, ◌∙◌, refl, none, some, Bool, true, false, not, ◌&&◌, List, [], ◌∷◌, ◌++◌, map, Text,
  codes, keep, length, eqb, if◌then◌else◌, arith, count_if, count_if-append, count_if-map,
}
use kubeagent.Prelude.Sort.{count_if-sort_by}
use kubeagent.Findings.{Level, info, warning, critical, rank, Finding, less, sort}
use kubeagent.Findings.Sources.{
  Detection, Workload, flagged, some_findings, ServiceIssue, ScanResult,
}
use kubeagent.Findings.Flatten.{
  cut_slash, split_namespaced_name, detected, workload_findings, from_diagnose, from_workload,
  service_finding, ingress_finding, pvc_finding, term_finding, pdb_finding, hpa_finding,
  webhook_finding, quota_finding, collected, flatten,
}

abbrev has_level : Level → Finding → Bool
has_level l f = eqb (rank f.level) (rank l)

-- How many findings have a level.
unfoldable pub tally : Level → List Finding → ℕ
unfolding count_if
tally l = count_if (has_level l)

-- The number of detector matches in the workloads.
unfoldable pub detections : List Workload → ℕ
detections [] = 0
detections (w ∷ ws) = length w.findings + detections ws

-- What one workload adds to the number of warnings: itself, if it is flagged without a detection.
abbrev pub undetected_one : List Detection → Workload → ℕ
undetected_one ds w = if not (some_findings ds) && flagged w then 1 else 0

-- The number of workloads that are flagged although no detector matched.
unfoldable pub undetected : List Workload → ℕ
undetected [] = 0
undetected (w ∷ ws) = undetected_one w.findings w + undetected ws

-- The number of service issues that are not expected.
abbrev unexpected : List ServiceIssue → ℕ
unexpected is = length (keep (λ i. not i.expected) is)

-- The number of advisory issues: all but the workloads.
unfoldable pub advisories : ScanResult → ℕ
advisories res =
    unexpected res.service_issues
    + (unexpected res.ingress_issues
        + (length res.pvc_issues
            + (length res.stuck_terminating
                + (length res.pdb_issues
                    + (length res.hpa_issues
                        + (length res.webhook_issues + length res.quota_issues))))))

attributed : Workload → Detection → Finding
unfolding from_diagnose
attributed w d = from_diagnose d (w.kind ++ (codes "/" ++ w.name))

detected-tally :
    (ds : List Detection) (w : Workload)
    → (tally critical (detected ds w) ≡ length ds)
      × (tally warning (detected ds w) ≡ undetected_one ds w)
      × (tally info (detected ds w) ≡ 0)
unfolding detected tally from_workload attributed
detected-tally [] w = ground arith
detected-tally (d ∷ ds) w = (
  count_if-map (has_level critical) (attributed w) true (λ x. unfold attributed in refl) (d ∷ ds),
  count_if-map (has_level warning) (attributed w) false (λ x. unfold attributed in refl) (d ∷ ds),
  count_if-map (has_level info) (attributed w) false (λ x. unfold attributed in refl) (d ∷ ds),
)

tally-append :
    (l : Level) (fs gs : List Finding) {n m : ℕ}
    → tally l fs ≡ n
    → tally l gs ≡ m
    → tally l (fs ++ gs) ≡ n + m
unfolding tally
tally-append l fs gs h k = omega (arith, count_if-append (has_level l) fs gs)

workloads-tally :
    (ws : List Workload)
    → (tally critical (flat_map workload_findings ws) ≡ detections ws)
      × (tally warning (flat_map workload_findings ws) ≡ undetected ws)
      × (tally info (flat_map workload_findings ws) ≡ 0)
unfolding detections undetected workload_findings flat_map
workloads-tally [] = unfold tally in (refl, refl, refl)
workloads-tally (w ∷ ws) =
    let (c, n, i) = workloads-tally ws in
    let (c', n', i') = detected-tally w.findings w in
    (tally-append critical _ _ c' c, tally-append warning _ _ n' n, tally-append info _ _ i' i)

-- The projections of the advisory issues are all warnings.
advisory-tally :
    (l : Level) {A : Type 0} (g : A → Finding)
    → ((a : A) → (g a).level ≡ warning)
    → (xs : List A) → tally l (map g xs) ≡ (if eqb 1 (rank l) then length xs else 0)
unfolding tally
advisory-tally l g h xs = count_if-map (has_level l) g (eqb 1 (rank l)) (λ x. rw (h x)) xs

if-add :
    (b : Bool) (n m : ℕ) → (if b then n else 0) + (if b then m else 0) ≡ (if b then n + m else 0)
if-add b n m = ground arith

-- Appending two parts that hold only warnings.
advisory-append :
    (l : Level) (fs gs : List Finding) (n m : ℕ)
    → tally l fs ≡ (if eqb 1 (rank l) then n else 0)
    → tally l gs ≡ (if eqb 1 (rank l) then m else 0)
    → tally l (fs ++ gs) ≡ (if eqb 1 (rank l) then n + m else 0)
advisory-append l fs gs n m h k = tally-append l fs gs h k ∙ if-add (eqb 1 (rank l)) n m

collected-tally :
    (l : Level) (res : ScanResult) {n : ℕ}
    → tally l (flat_map workload_findings res.workloads) ≡ n
    → tally l (collected res) ≡ n + (if eqb 1 (rank l) then advisories res else 0)
unfolding collected advisories
collected-tally l res h = tally-append l _ _ h (
    advisory-append l _ _ _ _
      (advisory-tally l service_finding (λ _. unfold service_finding in refl) _)
      (advisory-append l _ _ _ _
        (advisory-tally l ingress_finding (λ _. unfold ingress_finding in refl) _)
        (advisory-append l _ _ _ _
          (advisory-tally l pvc_finding (λ _. unfold pvc_finding in refl) _)
          (advisory-append l _ _ _ _
            (advisory-tally l term_finding (λ _. unfold term_finding in refl) _)
            (advisory-append l _ _ _ _
              (advisory-tally l pdb_finding (λ _. unfold pdb_finding in refl) _)
              (advisory-append l _ _ _ _
                (advisory-tally l hpa_finding (λ _. unfold hpa_finding in refl) _)
                (advisory-append l _ _ _ _
                  (advisory-tally l webhook_finding (λ _. unfold webhook_finding in refl) _)
                  (advisory-tally l quota_finding (λ _. unfold quota_finding in refl) _))))))))

-- `Flatten` loses nothing and invents nothing: its critical findings are as many as the detector
-- matches in the workloads, its warnings as many as the workloads flagged without a match and the
-- advisory issues that are not expected together, and it has no finding at level info.
pub flatten-tally :
    (res : ScanResult)
    → (tally critical (flatten res) ≡ detections res.workloads)
      × (tally warning (flatten res) ≡ undetected res.workloads + advisories res)
      × (tally info (flatten res) ≡ 0)
unfolding flatten sort tally
flatten-tally res =
    let (c, n, i) = workloads-tally res.workloads in
    (
      count_if-sort_by less _ (collected res) ∙ (collected-tally critical res c ∙ omega arith),
      count_if-sort_by less _ (collected res) ∙ collected-tally warning res n,
      count_if-sort_by less _ (collected res) ∙ (collected-tally info res i ∙ omega arith),
    )

-- Whether a text has no slash in it.
abbrev pub has_no_slash : Text → Bool
has_no_slash [] = true
has_no_slash (c ∷ s) = not (eqb c b'/') && has_no_slash s

cut_slash-join :
    (ns name : Text) → has_no_slash ns ≡ true → cut_slash (ns ++ b'/' ∷ name) ≡ some (ns, name)
unfolding cut_slash
cut_slash-join [] name h = refl
cut_slash-join (c ∷ ns) name h = ground (arith, cut_slash-join ns name)

cut_slash-none : (s : Text) → has_no_slash s ≡ true → cut_slash s ≡ none
unfolding cut_slash
cut_slash-none [] h = refl
cut_slash-none (c ∷ s) h = ground (arith, cut_slash-none s)

-- A name "namespace/name" whose namespace has no slash is split where it was joined; a name with
-- no slash at all is a bare name in no namespace.
pub split_namespaced_name-join :
    (ns name : Text)
    → has_no_slash ns ≡ true
    → (split_namespaced_name (ns ++ b'/' ∷ name) ≡ (ns, name))
      × (split_namespaced_name ns ≡ ([], ns))
unfolding split_namespaced_name
split_namespaced_name-join ns name h = (
  rw (cut_slash-join ns name h, split_namespaced_name),
  rw (cut_slash-none ns h, split_namespaced_name),
)
