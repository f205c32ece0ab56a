-- ===== src/Policy/Related.antt =====
-- internal/policy/relation.go: whether some budget or autoscaler points at a workload. What the
-- unstructured helpers of the Kubernetes library read of an object is a field of it.
use kubeagent.Prelude.{
  ℕ, ◌≡◌, ◌↔◌, Bool, true, false, not, ◌&&◌, List, [], ◌∷◌, Option, none, some, Text, All, arith,
  ltb, text_eq, text_eq_iff, if◌then◌else◌,
}
use kubeagent.Prelude.Dict.{Dict, find, text_eq_inst}
use kubeagent.Prelude.Reply.{Reply, got, failed}
use kubeagent.Policy.{Relation, no_relation, has_pdb, has_hpa, unknown_relation}

-- `spec.selector`: missing or unreadable, no object, or one with so many matchExpressions.
pub data Selector : Type 0 where
  no_selector no_object : Selector
  with_expressions : ℕ → Selector

pub record Budget : Type 0 where
  pub namespace : Text
  pub selector : Selector
  pub match_labels : Reply (Dict Text Text)

pub record Autoscaler : Type 0 where
  pub namespace : Text
  pub target_kind : Reply Text
  pub target_name : Reply Text

pub record Workload : Type 0 where
  pub namespace : Text
  pub kind : Text
  pub name : Text
  pub template_labels : Reply (Dict Text Text)

-- `have[k]`, which is empty for a missing key.
abbrev pub or_empty : Option Text → Text
or_empty none = []
or_empty (some v) = v

-- `subset`.
unfoldable pub subset : Dict Text Text → Dict Text Text → Bool
unfolding find text_eq
subset [] have = true
subset ((k, v) ∷ want) have =
    let rest = subset want have in if not (text_eq (or_empty (find k have)) v) then false else rest

-- `podTemplateLabels`.
abbrev pub pod_template_labels : Reply (Dict Text Text) → Dict Text Text
pod_template_labels (got labels) = labels
pod_template_labels (failed e) = []

abbrev pub matches_labels : Reply (Dict Text Text) → Dict Text Text → Bool
unfolding subset
matches_labels (got match) labels = subset match labels
matches_labels (failed e) labels = false

abbrev pub selects : Selector → Reply (Dict Text Text) → Dict Text Text → Bool
unfolding subset
selects no_selector match labels = false
selects no_object match labels = false
selects (with_expressions n) match labels = if ltb 0 n then false else matches_labels match labels

-- `coveredByPDB`.
unfoldable pub covered_by_pdb : Workload → List (Option Budget) → Bool
unfolding selects text_eq
covered_by_pdb w [] = false
covered_by_pdb w (none ∷ ps) = covered_by_pdb w ps
covered_by_pdb w (some p ∷ ps) =
    let rest = covered_by_pdb w ps in
    if not (text_eq p.namespace w.namespace)
    then rest
    else if selects p.selector p.match_labels (pod_template_labels w.template_labels)
    then true
    else rest

abbrev pub targets : Reply Text → Reply Text → Workload → Bool
unfolding text_eq
targets (failed e) name w = false
targets (got kind) (failed e) w = false
targets (got kind) (got name) w = text_eq kind w.kind && text_eq name w.name

-- `targetedByHPA`.
unfoldable pub targeted_by_hpa : Workload → List (Option Autoscaler) → Bool
unfolding targets text_eq
targeted_by_hpa w [] = false
targeted_by_hpa w (none ∷ hs) = targeted_by_hpa w hs
targeted_by_hpa w (some h ∷ hs) =
    let rest = targeted_by_hpa w hs in
    if not (text_eq h.namespace w.namespace)
    then rest
    else if targets h.target_kind h.target_name w
    then true
    else rest

-- `relationHolds`.
unfoldable pub relation_holds :
    Relation → Workload → List (Option Budget) → List (Option Autoscaler) → Bool
unfolding covered_by_pdb targeted_by_hpa
relation_holds has_pdb w pdbs hpas = covered_by_pdb w pdbs
relation_holds has_hpa w pdbs hpas = targeted_by_hpa w hpas
relation_holds no_relation w pdbs hpas = false
relation_holds unknown_relation w pdbs hpas = false

-- A subset holds its values under the same keys, where a key that is missing counts as one with an
-- empty value.
pub subset-All :
    (want have : Dict Text Text)
    → (subset want have ≡ true) ↔ All (λ (l : Text × Text). or_empty (find l.0 have) ≡ l.1) want
unfolding subset
subset-All [] have = ground arith
subset-All ((k, v) ∷ want) have =
    ground (arith, text_eq_iff (or_empty (find k have)) v, subset-All want have)
