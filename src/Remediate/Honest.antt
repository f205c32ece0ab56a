-- ===== src/Remediate/Honest.antt =====
-- The outcome of `Apply`, over every kind of action.
use kubeagent.Prelude.{
  Bool, ◌≡◌, refl, List, [], ◌∷◌, ◌++◌, map, some, Text, arith, count_if, if◌then◌else◌, if_elim,
  ◌∙◌, codes,
}
use kubeagent.Remediate.{
  Kube, Action, ActionKind, rollout_undo, uncordon, rollout_forward, cordon, other_kind, Deployment,
  Result,
}
use kubeagent.Remediate.Attempts.{Saved, blank, retry_on_conflict}
use kubeagent.Remediate.Plan.{is_protected}
use kubeagent.Remediate.Apply.{Try, quoted, protected_err, try_undo, apply_rollout_undo}
use kubeagent.Remediate.Forward.{forward_read, apply_rollout_forward}
use kubeagent.Remediate.Nodes.{NodeTry, uncordon_read, cordon_read, apply_uncordon, apply_cordon}
use kubeagent.Remediate.Server.{
  Server, Written, wrote_deployment, wrote_node, tagged, apply_kind, apply,
}
use kubeagent.Remediate.Safety.{
  IsHonest, IsDecided, is_saved, is_stored, writes, stored, retry_on_conflict-IsHonest,
  undo_read-Fair, forward_read-Fair, uncordon_read-Fair, cordon_read-Fair,
}

-- Naming the objects that were sent leaves their numbers.
retag-writes :
    {O W : Type 0} (p : Saved → Bool) (tag : O → W) (log : List (O × Saved))
    → count_if (λ (w : W × Saved). p w.1) (map (λ (w : O × Saved). (tag w.0, w.1)) log)
      ≡ count_if (λ (w : O × Saved). p w.1) log
unfolding count_if
retag-writes p tag [] = refl
retag-writes p tag (w ∷ log) = ground (arith, retag-writes p tag log)

uncordon-IsHonest :
    (a : Action) (t : NodeTry) (ts : List NodeTry) → IsHonest (apply_uncordon a t ts)
unfolding apply_uncordon
uncordon-IsHonest a t ts =
    retry_on_conflict-IsHonest (codes "update node") (λ (t' : NodeTry). uncordon_read a t' t'.node)
      t ts (λ t'. uncordon_read-Fair a t' t'.node)

cordon-IsHonest : (a : Action) (t : NodeTry) (ts : List NodeTry) → IsHonest (apply_cordon a t ts)
unfolding apply_cordon
cordon-IsHonest a t ts =
    retry_on_conflict-IsHonest (codes "update node") (λ (t' : NodeTry). cordon_read a t' t'.node) t
      ts (λ t'. cordon_read-Fair a t' t'.node)

unknown-IsHonest :
    (kube : Kube) (k : Text)
    → IsHonest {O = Written kube}
        (record blank { err = some (codes "unknown action kind " ++ quoted k) }, [])
unfolding IsHonest IsDecided writes stored count_if
unknown-IsHonest kube k = (refl, (refl, (omega arith, omega arith)))

module _ {kube : Kube} where
  tagged-IsHonest :
      {O : Type 0} (tag : O → Written kube) (r : Result × List (O × Saved))
      → IsHonest r
      → IsHonest (tagged tag r)
  unfolding IsHonest writes stored
  tagged-IsHonest tag (r, log) (h, (g, (l, u))) =
      let answered = retag-writes is_saved tag log in
      let kept = retag-writes is_stored tag log in
      (h, (answered ∙ g, (omega (arith, l, kept), omega (arith, u, kept))))

  -- A protected namespace is refused before anything is read.
  guarded-IsHonest :
      (a : Action) (r : Result × List (Deployment kube × Saved))
      → IsHonest r
      → IsHonest (if is_protected a.namespace then (protected_err a.namespace, []) else r)
  unfolding IsHonest IsDecided writes stored count_if
  guarded-IsHonest a r h =
      if_elim IsHonest (is_protected a.namespace) (protected_err a.namespace, []) r
        (λ e. (refl, (refl, (omega arith, omega arith)))) (λ e. h)

  undo-IsHonest :
      (a : Action) (t : Try kube) (ts : List (Try kube)) → IsHonest (apply_rollout_undo a t ts)
  unfolding apply_rollout_undo try_undo
  undo-IsHonest a t ts =
      let what = codes "update deployment" in
      guarded-IsHonest a (retry_on_conflict what (try_undo a) t ts) (
        retry_on_conflict-IsHonest what (try_undo a) t ts (λ t'. undo_read-Fair a t' t'.deployment))

  forward-IsHonest :
      (a : Action) (t : Try kube) (ts : List (Try kube)) → IsHonest (apply_rollout_forward a t ts)
  unfolding apply_rollout_forward
  forward-IsHonest a t ts =
      let what = codes "update deployment" in
      let run = λ (t' : Try kube). forward_read a t' t'.deployment in
      guarded-IsHonest a (retry_on_conflict what run t ts)
        (retry_on_conflict-IsHonest what run t ts (λ t'. forward_read-Fair a t' t'.deployment))

  apply_kind-IsHonest :
      (k : ActionKind) (a : Action) (s : Server kube) → IsHonest (apply_kind k a s)
  unfolding apply_kind
  apply_kind-IsHonest rollout_undo a s =
      tagged-IsHonest wrote_deployment (apply_rollout_undo a s.first s.more)
        (undo-IsHonest a s.first s.more)
  apply_kind-IsHonest uncordon a s =
      tagged-IsHonest wrote_node (apply_uncordon a s.first_node s.more_nodes)
        (uncordon-IsHonest a s.first_node s.more_nodes)
  apply_kind-IsHonest rollout_forward a s =
      tagged-IsHonest wrote_deployment (apply_rollout_forward a s.first s.more)
        (forward-IsHonest a s.first s.more)
  apply_kind-IsHonest cordon a s =
      tagged-IsHonest wrote_node (apply_cordon a s.first_node s.more_nodes)
        (cordon-IsHonest a s.first_node s.more_nodes)
  apply_kind-IsHonest (other_kind k) a s = unknown-IsHonest kube k

  -- `Apply` reports exactly one of applied, refused, denied and failed, whatever the server answers, whether or not an
  -- update that ended in an error other than a conflict was stored, and however often a conflict is retried. It reports
  -- applied exactly if one update was answered without an error; the server then stored that one object. After a
  -- refusal or a denial it stored nothing, and after an error at most one object.
  pub apply-IsHonest : (a : Action) (s : Server kube) → IsHonest (apply a s)
  unfolding apply
  apply-IsHonest a s = apply_kind-IsHonest a.kind a s
