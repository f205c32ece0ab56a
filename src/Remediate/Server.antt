-- ===== src/Remediate/Server.antt =====
-- `Apply`: the write of an action by its kind.
use kubeagent.Prelude.{List, [], ◌++◌, map, some, codes}
use kubeagent.Remediate.{
  Kube, Action, ActionKind, rollout_undo, uncordon, rollout_forward, cordon, other_kind, Node,
  Deployment, Result,
}
use kubeagent.Remediate.Attempts.{Saved, blank}
use kubeagent.Remediate.Apply.{Try, quoted, apply_rollout_undo}
use kubeagent.Remediate.Forward.{apply_rollout_forward}
use kubeagent.Remediate.Nodes.{NodeTry, apply_uncordon, apply_cordon}

-- What the server answers in the runs of one `Apply`: the first, and the retries that are left.
pub record Server (kube : Kube) : Type 0 where
  pub first : Try kube
  pub more : List (Try kube)
  pub first_node : NodeTry
  pub more_nodes : List NodeTry

pub data Written (kube : Kube) : Type 0 where
  wrote_deployment : Deployment kube → Written kube
  wrote_node : Node → Written kube

module _ {kube : Kube} where
  abbrev pub tagged :
      {O : Type 0}
      → (O → Written kube)
      → Result × List (O × Saved)
      → Result × List (Written kube × Saved)
  tagged tag (r, log) = (r, map (λ w. (tag w.0, w.1)) log)

  unfoldable pub apply_kind :
      ActionKind → Action → Server kube → Result × List (Written kube × Saved)
  unfolding apply_rollout_undo apply_uncordon apply_rollout_forward apply_cordon
  apply_kind rollout_undo a s = tagged wrote_deployment (apply_rollout_undo a s.first s.more)
  apply_kind uncordon a s = tagged wrote_node (apply_uncordon a s.first_node s.more_nodes)
  apply_kind rollout_forward a s = tagged wrote_deployment (apply_rollout_forward a s.first s.more)
  apply_kind cordon a s = tagged wrote_node (apply_cordon a s.first_node s.more_nodes)
  apply_kind (other_kind k) a s =
      (record blank { err = some (codes "unknown action kind " ++ quoted k) }, [])

  -- `Apply`: the result, and every object that was sent with the answer to it.
  unfoldable pub apply : Action → Server kube → Result × List (Written kube × Saved)
  unfolding apply_kind
  apply a s = apply_kind a.kind a s
