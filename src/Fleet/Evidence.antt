-- ===== src/Fleet/Evidence.antt =====
-- The shared signals of clusters with these verdicts.
use kubeagent.Prelude.{
  ◌≡◌, refl, sym, ◌∙◌, ap, Bool, ◌||◌, List, [], ◌∷◌, ◌++◌, map, Text, All, any, arith, keep, ltb,
  length, text_eq, text_eq_iff, text_lt, if◌then◌else◌, if_elim, Bool-cases, inl, inr,
}
use kubeagent.Prelude.Sort.{sort_by}
use kubeagent.Prelude.Dict.{contains, text_eq_inst}
use kubeagent.Findings.{Finding}
use kubeagent.Gate.{Blindspot, Verdict}
use kubeagent.Fleet.{Source, issue, blindspot, ClusterEvidence}
use kubeagent.Fleet.Summarize.{identity, add_to, issues_of, resources_of, all_findings, summarize}
use kubeagent.Fleet.Correlate.{signals_of, entry, correlate}
use kubeagent.Fleet.Fold.{Unique, one_if_any, ids_of}
use kubeagent.Fleet.Exact.{is_for, Distinct, correlate-entry}

-- A cluster that was judged: its name, its context and the verdict of its gate.
abbrev pub Judged : Type 0
Judged = Text × Text × Verdict

-- Whether a cluster shows a signal: an issue of one of its findings, or a resource that went unread.
abbrev pub shows : Source → Text → Judged → Bool
shows issue s (name, context, v) = any (λ (f : Finding). text_eq f.issue s) (all_findings v)
shows blindspot s (name, context, v) = any (λ (b : Blindspot). text_eq b.resource s) v.inconclusive

abbrev pub row_id : Judged → Text
row_id (name, context, v) = identity name context

abbrev pub evidence_of : Judged → ClusterEvidence
unfolding summarize
evidence_of (name, context, v) = (summarize name context v).1

add_to-Unique : (s : Text) (set : List Text) → Unique set → Unique (add_to s set)
unfolding add_to
add_to-Unique s set u = if_elim Unique (contains set s) set (s ∷ set) (λ e. u) (λ e. (e, u))

contains-add_to :
    (s t : Text) (set : List Text) → contains (add_to s set) t ≡ (text_eq s t || contains set t)
unfolding add_to contains
contains-add_to s t set =
    if_elim (λ (l : List Text). contains l t ≡ (text_eq s t || contains set t)) (contains set s) set
      (s ∷ set)
      (λ e. elim (Bool-cases (text_eq s t)) [
        | inl g ↦ rw g (ap (contains set) (sym ((text_eq_iff s t).0 g)) ∙ e)
        | inr g ↦ rw g refl
      ])
      (λ e. refl)

issues_of-Unique : (fs : List Finding) (set : List Text) → Unique set → Unique (issues_of fs set)
unfolding issues_of
issues_of-Unique [] set u = u
issues_of-Unique (f ∷ fs) set u =
    issues_of-Unique fs (add_to f.issue set) (add_to-Unique f.issue set u)

resources_of-Unique :
    (bs : List Blindspot) (set : List Text) → Unique set → Unique (resources_of bs set)
unfolding resources_of
resources_of-Unique [] set u = u
resources_of-Unique (b ∷ bs) set u =
    resources_of-Unique bs (add_to b.resource set) (add_to-Unique b.resource set u)

contains-issues_of :
    (fs : List Finding) (set : List Text) (s : Text)
    → contains (issues_of fs set) s
      ≡ (any (λ (f : Finding). text_eq f.issue s) fs || contains set s)
unfolding issues_of
contains-issues_of [] set s = refl
contains-issues_of (f ∷ fs) set s =
    ground (arith, contains-issues_of fs (add_to f.issue set) s, contains-add_to f.issue s set)

contains-resources_of :
    (bs : List Blindspot) (set : List Text) (s : Text)
    → contains (resources_of bs set) s
      ≡ (any (λ (b : Blindspot). text_eq b.resource s) bs || contains set s)
unfolding resources_of
contains-resources_of [] set s = refl
contains-resources_of (b ∷ bs) set s =
    ground
      (arith, contains-resources_of bs (add_to b.resource set) s, contains-add_to b.resource s set)

evidence-Distinct : (js : List Judged) → All Distinct (map evidence_of js)
unfolding summarize
evidence-Distinct [] = tt
evidence-Distinct ((name, context, v) ∷ js) = (
  (issues_of-Unique (all_findings v) [] tt, resources_of-Unique v.inconclusive [] tt),
  evidence-Distinct js,
)

signals-shows :
    (source : Source) (s : Text) (j : Judged)
    → contains (signals_of source (evidence_of j)) s ≡ shows source s j
unfolding summarize contains
signals-shows issue s (name, context, v) = ground (arith, contains-issues_of (all_findings v) [] s)
signals-shows blindspot s (name, context, v) =
    ground (arith, contains-resources_of v.inconclusive [] s)

id-row : (j : Judged) → (evidence_of j).id ≡ row_id j
unfolding summarize
id-row (name, context, v) = refl

ids_of-shows :
    (source : Source) (s : Text) (js : List Judged)
    → ids_of source s (map evidence_of js) ≡ map row_id (keep (shows source s) js)
unfolding keep
ids_of-shows source s [] = refl
ids_of-shows source s (j ∷ js) =
    ap (λ b. one_if_any b (evidence_of j).id ++ ids_of source s (map evidence_of js))
      (signals-shows source s j)
    ∙ elim (Bool-cases (shows source s j)) [
      | inl e ↦ rw e (
          ap (λ x. x ∷ ids_of source s (map evidence_of js)) (id-row j)
          ∙ ap (λ l. row_id j ∷ l) (ids_of-shows source s js))
      | inr e ↦ rw e (ids_of-shows source s js)
    ]

-- The report lists a signal as shared exactly if two or more of the judged clusters showed it, however
-- often each did: the entries for a signal and its kind are one, with the identities of all clusters
-- that showed it in order, or none where fewer than two did.
pub correlate-shows :
    (source : Source) (s : Text) (js : List Judged)
    → let ids = map row_id (keep (shows source s) js) in
      keep (is_for source s) (correlate (map evidence_of js)) ≡ (
        if ltb (length ids) 2
        then []
        else record { signal = s; source = source; clusters = sort_by text_lt ids } ∷ [])
unfolding entry
correlate-shows source s js =
    correlate-entry source s (map evidence_of js) (evidence-Distinct js)
    ∙ ap (entry source s) (ids_of-shows source s js)
