-- ===== src/Fleet/Summarize.antt =====
-- summarize.go: a cluster's row, the order of the rows, the verdict over all of them.
use kubeagent.Prelude.{
  ℕ, suc, Bool, true, false, not, List, [], ◌∷◌, ◌++◌, map, Option, none, some, Text, codes, eqb,
  ltb, length, take, text_eq, text_lt, if◌then◌else◌,
}
use kubeagent.Prelude.Sort.{sort_by}
use kubeagent.Prelude.Dict.{Dict, find, put, contains, text_eq_inst}
use kubeagent.Findings.{Level, info, warning, critical, Finding}
use kubeagent.Gate.{Blindspot, Verdict, code_pass, code_fail, code_inconclusive}
use kubeagent.Fleet.{ClusterSummary, Unreachable, ClusterEvidence}

abbrev pub max_top_issues : ℕ
max_top_issues = 3

abbrev pub identity : Text → Text → Text
identity [] context = context
identity (c ∷ name) context = c ∷ name

-- Adding to a set.
unfoldable pub add_to : Text → List Text → List Text
unfolding contains
add_to s set = if contains set s then set else s ∷ set

abbrev pub or_none : Option ℕ → ℕ
or_none none = 0
or_none (some n) = n

-- `counts[f.Issue]++`.
unfoldable pub tallied : Text → Dict Text ℕ → Dict Text ℕ
unfolding find put
tallied issue counts = put issue (suc (or_none (find issue counts))) counts

unfoldable pub tally_issues : List Finding → Dict Text ℕ → Dict Text ℕ
unfolding tallied
tally_issues [] counts = counts
tally_issues (f ∷ fs) counts = tally_issues fs (tallied f.issue counts)

-- The less-function of `topIssues`, on the entries of the map.
unfoldable pub more_frequent : Text × ℕ → Text × ℕ → Bool
unfolding text_lt
more_frequent a b = if not (eqb a.1 b.1) then ltb b.1 a.1 else text_lt a.0 b.0

abbrev pub issue_kind : Text × ℕ → Text
issue_kind e = e.0

-- `topIssues`; a kind with its count in place of the kind and a look at the map.
unfoldable pub top_issues : Dict Text ℕ → List Text
unfolding more_frequent sort_by
top_issues counts = map issue_kind (take max_top_issues (sort_by more_frequent counts))

-- `switch f.Level` of the loop.
unfoldable pub count_level : Level → ClusterSummary → ClusterSummary
count_level critical s = record s { critical = suc s.critical }
count_level warning s = record s { warning = suc s.warning }
count_level info s = record s { info = suc s.info }

unfoldable pub counted : List Finding → ClusterSummary → ClusterSummary
unfolding count_level
counted [] s = s
counted (f ∷ fs) s = counted fs (count_level f.level s)

unfoldable pub issues_of : List Finding → List Text → List Text
unfolding add_to
issues_of [] set = set
issues_of (f ∷ fs) set = issues_of fs (add_to f.issue set)

unfoldable pub resources_of : List Blindspot → List Text → List Text
unfolding add_to
resources_of [] set = set
resources_of (b ∷ bs) set = resources_of bs (add_to b.resource set)

abbrev pub all_findings : Verdict → List Finding
all_findings v = v.failing ++ v.reported

abbrev pub blank_row : Text → Text → Verdict → ClusterSummary
blank_row name context v = record {
  name = name;
  context = context;
  verdict = v.verdict;
  critical = 0;
  warning = 0;
  info = 0;
  blindspots = length v.inconclusive;
  top_issues = [];
}

-- `summarize`.
unfoldable pub summarize : Text → Text → Verdict → ClusterSummary × ClusterEvidence
unfolding counted tally_issues top_issues issues_of resources_of
summarize name context v = (
  record (counted (all_findings v) (blank_row name context v)) {
    top_issues = top_issues (tally_issues (all_findings v) []);
  },
  record {
    id = identity name context;
    issues = issues_of (all_findings v) [];
    blindspots = resources_of v.inconclusive [];
  },
)

-- `rank`.
unfoldable pub rank : Text → ℕ
unfolding text_eq
rank verdict =
    if text_eq verdict (codes "unreachable")
    then 0
    else if text_eq verdict (codes "inconclusive")
    then 1
    else if text_eq verdict (codes "fail")
    then 2
    else 3

-- The less-function of `sortSummaries`.
unfoldable pub worse : ClusterSummary → ClusterSummary → Bool
unfolding rank text_lt
worse a b =
    if not (eqb (rank a.verdict) (rank b.verdict))
    then ltb (rank a.verdict) (rank b.verdict)
    else if not (eqb a.critical b.critical)
    then ltb b.critical a.critical
    else if not (eqb a.warning b.warning)
    then ltb b.warning a.warning
    else if not (eqb a.info b.info)
    then ltb b.info a.info
    else text_lt (identity a.name a.context) (identity b.name b.context)

unfoldable pub sort_summaries : List ClusterSummary → List ClusterSummary
unfolding worse sort_by
sort_summaries s = sort_by worse s

abbrev pub has_verdict : Text → ClusterSummary → Bool
has_verdict v c = text_eq c.verdict v

abbrev pub some_unreachable : List Unreachable → Bool
some_unreachable [] = false
some_unreachable (u ∷ us) = true

-- What follows the loop of `decide`.
unfoldable pub concluded : Bool → List Unreachable → Text × ℕ
concluded failing unreachable =
    if some_unreachable unreachable
    then (codes "inconclusive", code_inconclusive)
    else if failing
    then (codes "fail", code_fail)
    else (codes "pass", code_pass)

-- The loop, with `failing` as it stands.
unfoldable pub decide_from : Bool → List ClusterSummary → List Unreachable → Text × ℕ
unfolding concluded text_eq
decide_from failing [] unreachable = concluded failing unreachable
decide_from failing (c ∷ cs) unreachable =
    if has_verdict (codes "inconclusive") c
    then (codes "inconclusive", code_inconclusive)
    else decide_from (if has_verdict (codes "fail") c then true else failing) cs unreachable

-- `decide`.
unfoldable pub decide : List ClusterSummary → List Unreachable → Text × ℕ
unfolding decide_from
decide clusters unreachable = decide_from false clusters unreachable
