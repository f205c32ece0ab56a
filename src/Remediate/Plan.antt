-- ===== src/Remediate/Plan.antt =====
-- `Plan`: the fixes that are proposed, and `Inverse`: the fix that undoes one.
use kubeagent.Prelude.{
  Bool, false, not, ◌||◌, List, [], ◌∷◌, ◌++◌, Option, none, some, Text, codes, any, leb, text_eq,
  if◌then◌else◌,
}
use kubeagent.Prelude.Int.{ℤ, pos}
use kubeagent.Prelude.Atoi.{itoa}
use kubeagent.Findings.Sources.{Detection, Workload}
use kubeagent.Remediate.{
  Kube, Action, ActionKind, rollout_undo, uncordon, rollout_forward, cordon, other_kind, Node,
  ReplicaSet,
}
use kubeagent.Remediate.Revisions.{revision_of, plan_target, is_zero}
use kubeagent.Remediate.Changes.{template_changes}

-- `protectedNamespaces`.
unfoldable pub is_protected : Text → Bool
unfolding text_eq
is_protected ns =
    text_eq ns (codes "kube-system")
    || text_eq ns (codes "kube-public")
    || text_eq ns (codes "kube-node-lease")

-- `hasNoExecuteTaint`.
unfoldable pub has_no_execute_taint : Node → Bool
unfolding text_eq
has_no_execute_taint n = any (λ e. text_eq e (codes "NoExecute")) n.taint_effects

-- `hasImagePullFinding`.
unfoldable pub has_image_pull_finding : Workload → Bool
unfolding text_eq
has_image_pull_finding w =
    any
      (λ (f : Detection).
        text_eq f.issue (codes "ImagePullBackOff") || text_eq f.issue (codes "ErrImagePull"))
      w.findings

abbrev pub deployment_target : Text → Text → Text
deployment_target namespace name = namespace ++ (codes "/" ++ (name ++ codes " (Deployment)"))

abbrev pub uncordon_action : Node → Action
uncordon_action n = record {
  kind = uncordon;
  namespace = [];
  name = n.name;
  target = codes "node/" ++ n.name;
  summary = codes "uncordon the node (make it schedulable)";
  reason = codes "node is cordoned (SchedulingDisabled)";
  kubectl_equivalent = codes "kubectl uncordon " ++ n.name;
  changes =
      record { field = codes "spec.unschedulable"; from = codes "true"; to = codes "false" } ∷ [];
  current_revision = pos 0;
  target_revision = pos 0;
}

-- The loop over the nodes.
unfoldable pub plan_nodes : List Node → List Action
unfolding has_no_execute_taint
plan_nodes [] = []
plan_nodes (n ∷ ns) =
    (if not n.unschedulable || has_no_execute_taint n then [] else uncordon_action n ∷ [])
    ++ plan_nodes ns

-- The guards of the loop over the workloads, up to the choice of a target.
unfoldable pub is_fixable : Workload → Bool
unfolding is_protected has_image_pull_finding text_eq
is_fixable w =
    if not (text_eq w.kind (codes "Deployment")) || is_protected w.namespace
    then false
    else if not (has_image_pull_finding w)
    then false
    else not (leb w.desired w.ready)

module _ {kube : Kube} where
  unfoldable pub undo_action : Workload → ReplicaSet kube → ReplicaSet kube → Action
  unfolding revision_of itoa template_changes
  undo_action w cur target = record {
    kind = rollout_undo;
    namespace = w.namespace;
    name = w.name;
    target = deployment_target w.namespace w.name;
    summary = codes "roll back to the previous revision";
    reason =
        codes "newest rollout cannot pull its image; a prior revision ("
        ++ (itoa (revision_of target) ++ codes ") exists");
    kubectl_equivalent =
        codes "kubectl -n " ++ (w.namespace ++ (codes " rollout undo deployment/" ++ w.name));
    changes = template_changes cur target;
    current_revision = revision_of cur;
    target_revision = revision_of target;
  }

  abbrev pub action_for :
      Workload → Option (ReplicaSet kube × Option (ReplicaSet kube)) → List Action
  unfolding undo_action
  action_for w none = []
  action_for w (some (cur, none)) = []
  action_for w (some (cur, some target)) = undo_action w cur target ∷ []

  -- The loop over the workloads.
  unfoldable pub plan_workloads : List (ReplicaSet kube) → List Workload → List Action
  unfolding is_fixable plan_target action_for
  plan_workloads sets [] = []
  plan_workloads sets (w ∷ ws) =
      (if is_fixable w then action_for w (plan_target w.namespace w.name sets) else [])
      ++ plan_workloads sets ws

  -- `Plan`.
  unfoldable pub plan : List Workload → List (ReplicaSet kube) → List Node → List Action
  unfolding plan_workloads plan_nodes
  plan workloads sets nodes = plan_workloads sets workloads ++ plan_nodes nodes

-- `Inverse`; none where it reports an error.
abbrev forward_action : Text → Text → ℤ → ℤ → Action
unfolding itoa
forward_action namespace name from to = record {
  kind = rollout_forward;
  namespace = namespace;
  name = name;
  target = deployment_target namespace name;
  summary = codes "roll forward to the pre-fix revision";
  reason =
      codes "undo the fix that rolled "
      ++ (namespace
          ++ (codes "/"
              ++ (name
                  ++ (codes " back from revision " ++ (itoa from ++ (codes " to " ++ itoa to))))));
  kubectl_equivalent =
      codes "kubectl -n "
      ++ (namespace
          ++ (codes " rollout undo deployment/"
              ++ (name ++ (codes " --to-revision=" ++ itoa from))));
  changes = record { field = codes "revision"; from = itoa to; to = itoa from } ∷ [];
  current_revision = to;
  target_revision = from;
}

abbrev pub cordon_action : Text → Action
cordon_action name = record {
  kind = cordon;
  namespace = [];
  name = name;
  target = codes "node/" ++ name;
  summary = codes "re-cordon the node (make it unschedulable)";
  reason = codes "undo the fix that uncordoned node " ++ name;
  kubectl_equivalent = codes "kubectl cordon " ++ name;
  changes =
      record { field = codes "spec.unschedulable"; from = codes "false"; to = codes "true" } ∷ [];
  current_revision = pos 0;
  target_revision = pos 0;
}

unfoldable pub inverse : ActionKind → Text → Text → ℤ → ℤ → Option Action
unfolding forward_action
inverse rollout_undo namespace name from to =
    if is_zero from || is_zero to then none else some (forward_action namespace name from to)
inverse uncordon namespace name from to = some (cordon_action name)
inverse rollout_forward namespace name from to = none
inverse cordon namespace name from to = none
inverse (other_kind k) namespace name from to = none
