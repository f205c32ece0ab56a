-- ===== src/Fleet/Correlate.antt =====
-- correlate.go: the signals that appeared in two or more clusters.
use kubeagent.Prelude.{
  ℕ, Bool, not, List, [], ◌∷◌, ◌++◌, Option, none, some, Text, eqb, ltb, length, text_lt,
  if◌then◌else◌,
}
use kubeagent.Prelude.Sort.{sort_by}
use kubeagent.Prelude.Dict.{Dict, find, put, text_eq_inst}
use kubeagent.Fleet.{Source, issue, blindspot, Shared, ClusterEvidence}

abbrev pub min_shared : ℕ
min_shared = 2

abbrev pub or_nil : Option (List Text) → List Text
or_nil none = []
or_nil (some ids) = ids

-- `issues[signal] = append(issues[signal], e.id)`.
unfoldable pub appended : Text → Text → Dict Text (List Text) → Dict Text (List Text)
unfolding find put
appended signal id m = put signal (or_nil (find signal m) ++ id ∷ []) m

-- The inner loop over one set.
unfoldable pub append_all : List Text → Text → Dict Text (List Text) → Dict Text (List Text)
unfolding appended
append_all [] id m = m
append_all (signal ∷ signals) id m = append_all signals id (appended signal id m)

-- The signals of one kind.
abbrev pub signals_of : Source → ClusterEvidence → List Text
signals_of issue e = e.issues
signals_of blindspot e = e.blindspots

-- The outer loop, for one of the two maps.
unfoldable pub by_signal :
    Source → List ClusterEvidence → Dict Text (List Text) → Dict Text (List Text)
unfolding append_all
by_signal source [] m = m
by_signal source (e ∷ es) m = by_signal source es (append_all (signals_of source e) e.id m)

unfoldable pub entry : Source → Text → List Text → List Shared
unfolding sort_by text_lt
entry source signal ids =
    if ltb (length ids) min_shared
    then []
    else record { signal = signal; source = source; clusters = sort_by text_lt ids } ∷ []

-- `gather`.
unfoldable pub gather : Dict Text (List Text) → Source → List Shared
unfolding entry
gather [] source = []
gather ((signal, ids) ∷ m) source = entry source signal ids ++ gather m source

-- `sourceRank`.
abbrev pub source_rank : Source → ℕ
source_rank issue = 0
source_rank blindspot = 1

-- The less-function of `correlate`.
unfoldable pub wider : Shared → Shared → Bool
unfolding text_lt
wider a b =
    if not (eqb (source_rank a.source) (source_rank b.source))
    then ltb (source_rank a.source) (source_rank b.source)
    else if not (eqb (length a.clusters) (length b.clusters))
    then ltb (length b.clusters) (length a.clusters)
    else text_lt a.signal b.signal

-- `correlate`.
unfoldable pub correlate : List ClusterEvidence → List Shared
unfolding by_signal gather wider sort_by
correlate evidence =
    if ltb (length evidence) min_shared
    then []
    else sort_by wider (
        gather (by_signal issue evidence []) issue
        ++ gather (by_signal blindspot evidence []) blindspot)
