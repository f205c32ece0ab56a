-- ===== src/Remediate/Apply.antt =====
-- `Preflight`, and `applyRolloutUndo`: the guards in their order, and the write behind them.
use kubeagent.Prelude.{
  Bool, true, false, not, ◌||◌, List, [], ◌∷◌, ◌++◌, Option, none, some, Text, codes, if◌then◌else◌,
}
use kubeagent.Prelude.Reply.{Reply, got, failed}
use kubeagent.Prelude.Int.{ℤ, equal_ℤ}
use kubeagent.Prelude.Atoi.{itoa}
use kubeagent.Remediate.{
  Kube, Action, ActionKind, rollout_undo, uncordon, rollout_forward, cordon, other_kind, ReplicaSet,
  Deployment, Result,
}
use kubeagent.Remediate.Revisions.{revision, revision_of, pick_target, without_hash}
use kubeagent.Remediate.Plan.{is_protected}
use kubeagent.Remediate.Attempts.{
  Saved, Attempt, blank, with_err, refusing, unsent, save, after_review, retry_on_conflict,
}

-- `%q` of a name, which holds nothing that is escaped.
abbrev pub quoted : Text → Text
quoted s = b'"' ∷ (s ++ b'"' ∷ [])

abbrev pub review_of : Text → Reply Bool → Reply (Option Text)
review_of reason (failed e) = failed e
review_of reason (got true) = got none
review_of reason (got false) = got (some reason)

abbrev pub lacking_in : Text → Text
lacking_in namespace =
    codes "you lack permission to update deployments in namespace "
    ++ (quoted namespace ++ codes " (RBAC)")

-- With an empty namespace the review is cluster-wide, and the message names none.
abbrev pub lacking_deployments : Text → Text
lacking_deployments [] = codes "you lack permission to update deployments (RBAC)"
lacking_deployments (c ∷ cs) = lacking_in (c ∷ cs)

-- The `ResourceAttributes` of a SelfSubjectAccessReview.
pub record Review : Type 0 where
  pub verb : Text
  pub group : Text
  pub resource : Text
  pub namespace : Text
  pub name : Text

abbrev pub deployment_review : Action → Review
deployment_review a = record {
  verb = codes "update";
  group = codes "apps";
  resource = codes "deployments";
  namespace = a.namespace;
  name = a.name;
}

abbrev pub node_review : Action → Review
node_review a = record {
  verb = codes "update";
  group = [];
  resource = codes "nodes";
  namespace = [];
  name = a.name;
}

abbrev lacking_nodes : Text
lacking_nodes = codes "you lack permission to update nodes (RBAC)"

-- `Preflight`, for the server's answer to each review: none if allowed, the reason if not.
unfoldable pub preflight : ActionKind → Action → (Review → Reply Bool) → Reply (Option Text)
preflight rollout_undo a review =
    review_of (lacking_deployments a.namespace) (review (deployment_review a))
preflight rollout_forward a review =
    review_of (lacking_deployments a.namespace) (review (deployment_review a))
preflight uncordon a review = review_of lacking_nodes (review (node_review a))
preflight cordon a review = review_of lacking_nodes (review (node_review a))
preflight (other_kind k) a review = failed (codes "unknown action kind " ++ quoted k)

abbrev pub protected_err : Text → Result
protected_err namespace = record blank {
  err = some (codes "refusing to act in protected namespace " ++ quoted namespace);
}

-- The arrow and the dash of the messages, in UTF-8.
abbrev pub long_arrow : Text
long_arrow = 0xE2 ∷ 0x86 ∷ 0x92 ∷ []

abbrev pub long_dash : Text
long_dash = 0xE2 ∷ 0x80 ∷ 0x94 ∷ []

abbrev pub drifted : Action → ℤ → ℤ → Text
unfolding itoa
drifted a cur target =
    codes "state changed since preview (revision "
    ++ (itoa cur
        ++ (codes " is now current and the rollback would land on "
            ++ (itoa target
                ++ (codes "; previewed "
                    ++ (itoa a.current_revision
                        ++ (codes " "
                            ++ (long_arrow
                                ++ (codes " "
                                    ++ (itoa a.target_revision
                                        ++ (codes ") "
                                            ++ (long_dash
                                                ++ codes
                                                    " re-run kubeagent scan --fix; no write made")))))))))))

-- What the server answers in one run, should it be asked.
pub record Try (kube : Kube) : Type 0 where
  pub deployment : Reply (Deployment kube)
  pub sets : Reply (List (ReplicaSet kube))
  pub review : Review → Reply Bool
  pub update : Saved

module _ {kube : Kube} where
  -- The template of the target, less its hash label, in the Deployment as read.
  unfoldable pub restored : Deployment kube → ReplicaSet kube → Deployment kube
  unfolding without_hash
  restored dep target = record dep {
    template = record (target.template) { labels = without_hash target.template.labels };
  }

  abbrev pub rolled_back : Action → ReplicaSet kube → Text
  unfolding itoa revision_of
  rolled_back a target =
      codes "rolled back "
      ++ (a.namespace
          ++ (codes "/"
              ++ (a.name
                  ++ (codes " to revision "
                      ++ (itoa (revision_of target) ++ codes " (pod template restored)")))))

  -- From the drift check on, for the target that was picked.
  unfoldable pub undo_to :
      Action → Try kube → Deployment kube → Option (ReplicaSet kube) → Attempt (Deployment kube)
  unfolding revision revision_of preflight after_review restored save drifted rolled_back
  undo_to a t dep none = unsent (
      refusing (codes "no differing prior revision to roll back to (state changed); no write made"))
  undo_to a t dep (some target) =
      if not (equal_ℤ (revision dep.annotations) a.current_revision)
        || not (equal_ℤ (revision_of target) a.target_revision)
      then unsent (refusing (drifted a (revision dep.annotations) (revision_of target)))
      else after_review (preflight a.kind a t.review)
          (save (restored dep target) (rolled_back a target) t.update)

  unfoldable pub undo_with :
      Action
      → Try kube
      → Deployment kube
      → Reply (List (ReplicaSet kube))
      → Attempt (Deployment kube)
  unfolding pick_target undo_to
  undo_with a t dep (failed e) = unsent (with_err (codes "list replicasets") e)
  undo_with a t dep (got sets) = undo_to a t dep (pick_target dep sets)

  unfoldable pub undo_read : Action → Try kube → Reply (Deployment kube) → Attempt (Deployment kube)
  unfolding undo_with
  undo_read a t (failed e) = unsent (with_err (codes "get deployment") e)
  undo_read a t (got dep) = undo_with a t dep t.sets

  -- The retried closure.
  unfoldable pub try_undo : Action → Try kube → Attempt (Deployment kube)
  unfolding undo_read
  try_undo a t = undo_read a t t.deployment

  -- `applyRolloutUndo`.
  unfoldable pub apply_rollout_undo :
      Action → Try kube → List (Try kube) → Result × List (Deployment kube × Saved)
  unfolding is_protected try_undo retry_on_conflict
  apply_rollout_undo a t ts =
      if is_protected a.namespace
      then (protected_err a.namespace, [])
      else retry_on_conflict (codes "update deployment") (try_undo a) t ts
