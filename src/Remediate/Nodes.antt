-- ===== src/Remediate/Nodes.antt =====
-- `applyUncordon` and `applyCordon`.
use kubeagent.Prelude.{Bool, true, false, not, ◌||◌, List, ◌++◌, codes, if◌then◌else◌}
use kubeagent.Prelude.Reply.{Reply, got, failed}
use kubeagent.Remediate.{Action, Node, Result}
use kubeagent.Remediate.Plan.{has_no_execute_taint}
use kubeagent.Remediate.Attempts.{
  Saved, Attempt, with_err, refusing, unsent, save, after_review, retry_on_conflict,
}
use kubeagent.Remediate.Apply.{Review, preflight}

-- What the server answers in one run, should it be asked.
pub record NodeTry : Type 0 where
  pub node : Reply Node
  pub review : Review → Reply Bool
  pub update : Saved

unfoldable pub uncordon_read : Action → NodeTry → Reply Node → Attempt Node
unfolding has_no_execute_taint preflight after_review save
uncordon_read a t (failed e) = unsent (with_err (codes "get node") e)
uncordon_read a t (got n) =
    if not n.unschedulable || has_no_execute_taint n
    then unsent (
        refusing (
          codes
            "node is no longer a safe uncordon target (already schedulable or NoExecute-tainted); no write made"))
    else after_review (preflight a.kind a t.review)
        (save (record n { unschedulable = false }) (codes "uncordoned node " ++ a.name) t.update)

-- `applyUncordon`.
unfoldable pub apply_uncordon : Action → NodeTry → List NodeTry → Result × List (Node × Saved)
unfolding uncordon_read retry_on_conflict
apply_uncordon a t ts =
    retry_on_conflict (codes "update node") (λ (t' : NodeTry). uncordon_read a t' t'.node) t ts

unfoldable pub cordon_read : Action → NodeTry → Reply Node → Attempt Node
unfolding preflight after_review save
cordon_read a t (failed e) = unsent (with_err (codes "get node") e)
cordon_read a t (got n) =
    if n.unschedulable
    then unsent (refusing (codes "node is already cordoned; no write made"))
    else after_review (preflight a.kind a t.review)
        (save (record n { unschedulable = true }) (codes "re-cordoned node " ++ a.name) t.update)

-- `applyCordon`.
unfoldable pub apply_cordon : Action → NodeTry → List NodeTry → Result × List (Node × Saved)
unfolding cordon_read retry_on_conflict
apply_cordon a t ts =
    retry_on_conflict (codes "update node") (λ (t' : NodeTry). cordon_read a t' t'.node) t ts
