-- ===== src/Remediate/Allowlist.antt =====
-- What `Plan` may propose.
use kubeagent.Prelude.{
  ◌≡◌, ◌<◌, refl, true, false, not, ◌||◌, ◌⊎◌, inl, inr, List, [], ◌∷◌, Option, none, some, Text,
  codes, All, All-append, All-map, arith, text_eq, if◌then◌else◌, if_elim,
}
use kubeagent.Prelude.Int.{ltb_ℤ}
use kubeagent.Findings.Sources.{Workload}
use kubeagent.Remediate.{Kube, Action, rollout_undo, uncordon, Node, ReplicaSet}
use kubeagent.Remediate.Revisions.{
  is_zero, revision_of, pick_best, is_prior, is_current_candidate, plan_target, prior_of,
}
use kubeagent.Remediate.Plan.{
  is_protected, has_no_execute_taint, has_image_pull_finding, is_fixable, plan_nodes,
  plan_workloads, action_for, plan, uncordon_action, undo_action,
}
use kubeagent.Remediate.Best.{pick_best-kept}
use kubeagent.Remediate.Guards.{Some}
use kubeagent.Remediate.Preview.{found_kept}

-- A Deployment outside the protected namespaces that cannot pull an image and is short of replicas.
pub record IsBroken (w : Workload) : Type 0 where
  pub deployment : text_eq w.kind (codes "Deployment") ≡ true
  pub unprotected : is_protected w.namespace ≡ false
  pub cannot_pull : has_image_pull_finding w ≡ true
  pub short : w.ready < w.desired

-- A rollback of one of the broken Deployments to an earlier revision.
Undoes : List Workload → Action → Type 0
Undoes ws a =
    (a.kind ≡ rollout_undo)
    × Some (λ w. (w.namespace ≡ a.namespace) × (w.name ≡ a.name) × IsBroken w) ws
    × (ltb_ℤ a.target_revision a.current_revision ≡ true)
    × (is_zero a.target_revision ≡ false)

-- An uncordoning of one of the cordoned nodes that nothing drains.
Uncordons : List Node → Action → Type 0
Uncordons ns a =
    (a.kind ≡ uncordon)
    × Some (λ n. (n.name ≡ a.name) × (n.unschedulable ≡ true) × (has_no_execute_taint n ≡ false)) ns

pub IsAllowed : List Workload → List Node → Action → Type 0
IsAllowed ws ns a = Undoes ws a ⊎ Uncordons ns a

is_fixable-IsBroken : (w : Workload) → is_fixable w ≡ true → IsBroken w
unfolding is_fixable
is_fixable-IsBroken w h = ground arith

prior-lower :
    {kube : Kube} (namespace name : Text) (cur rs : ReplicaSet kube)
    → is_prior namespace name cur rs ≡ true
    → (ltb_ℤ (revision_of rs) (revision_of cur) ≡ true) × (is_zero (revision_of rs) ≡ false)
unfolding is_prior
prior-lower namespace name cur rs h = ground arith

module _ {kube : Kube} where
  action_for-allowed :
      (w : Workload) (sets : List (ReplicaSet kube)) (c : Option (ReplicaSet kube))
      → All
          (λ a.
            (a.kind ≡ rollout_undo)
            × (w.namespace ≡ a.namespace)
            × (w.name ≡ a.name)
            × (ltb_ℤ a.target_revision a.current_revision ≡ true)
            × (is_zero a.target_revision ≡ false))
          (action_for w (prior_of w.namespace w.name sets c))
  unfolding prior_of undo_action
  action_for-allowed w sets none = tt
  action_for-allowed w sets (some cur) =
      picked (pick_best (is_prior w.namespace w.name cur) sets none)
        (pick_best-kept (is_prior w.namespace w.name cur) sets none)
    where
      picked :
          (t : Option (ReplicaSet kube))
          → ((b : ReplicaSet kube)
              → t ≡ some b
              → (none ≡ some b) ⊎ (is_prior w.namespace w.name cur b ≡ true))
          → All
              (λ a.
                (a.kind ≡ rollout_undo)
                × (w.namespace ≡ a.namespace)
                × (w.name ≡ a.name)
                × (ltb_ℤ a.target_revision a.current_revision ≡ true)
                × (is_zero a.target_revision ≡ false))
              (action_for w (some (cur, t)))
      picked none h = tt
      picked (some b) h =
          let (lower, nonzero) = prior-lower w.namespace w.name cur b (found_kept (h b refl)) in
          ((refl, refl, refl, lower, nonzero), tt)

plan_nodes-Uncordons : (ns : List Node) → All (Uncordons ns) (plan_nodes ns)
unfolding plan_nodes Uncordons
plan_nodes-Uncordons [] = tt
plan_nodes-Uncordons (n ∷ ns) =
    All-append (Uncordons (n ∷ ns)) _ (plan_nodes ns)
      (if_elim (λ (l : List Action). All (Uncordons (n ∷ ns)) l)
        (not n.unschedulable || has_no_execute_taint n) [] (uncordon_action n ∷ []) (λ e. tt)
        (λ e. ((refl, inl (refl, ground arith, ground arith)), tt)))
      (All-map (Uncordons ns) (Uncordons (n ∷ ns)) (plan_nodes ns) (λ a (k, h). (k, inr h))
        (plan_nodes-Uncordons ns))

plan_workloads-Undoes :
    {kube : Kube} (sets : List (ReplicaSet kube)) (ws : List Workload)
    → All (Undoes ws) (plan_workloads sets ws)
unfolding plan_workloads plan_target Undoes
plan_workloads-Undoes sets [] = tt
plan_workloads-Undoes sets (w ∷ ws) =
    let proposed = action_for w (plan_target w.namespace w.name sets) in
    All-append (Undoes (w ∷ ws)) (if is_fixable w then proposed else []) (plan_workloads sets ws)
      (if_elim (λ (l : List Action). All (Undoes (w ∷ ws)) l) (is_fixable w) proposed []
        (λ e.
          All-map _ (Undoes (w ∷ ws)) proposed
            (λ a (k, ns, name, lower, nonzero).
              (k, inl (ns, name, is_fixable-IsBroken w e), lower, nonzero))
            (action_for-allowed w sets
              (pick_best (is_current_candidate w.namespace w.name) sets none)))
        (λ e. tt))
      (All-map (Undoes ws) (Undoes (w ∷ ws)) (plan_workloads sets ws)
        (λ a (k, h, lower, nonzero). (k, inr h, lower, nonzero)) (plan_workloads-Undoes sets ws))

-- `Plan` proposes nothing else than rollbacks and uncordonings. Each rollback is of a Deployment of the
-- scan that stands outside the protected namespaces, cannot pull an image and is short of replicas, to
-- a revision below the current one and other than 0; each uncordoning is of a cordoned node of the
-- scan without a taint of effect NoExecute.
pub plan-IsAllowed :
    {kube : Kube} (ws : List Workload) (sets : List (ReplicaSet kube)) (ns : List Node)
    → All (IsAllowed ws ns) (plan ws sets ns)
unfolding plan IsAllowed Undoes Uncordons
plan-IsAllowed ws sets ns =
    All-append (IsAllowed ws ns) (plan_workloads sets ws) (plan_nodes ns)
      (All-map (Undoes ws) (IsAllowed ws ns) (plan_workloads sets ws) (λ a h. inl h)
        (plan_workloads-Undoes sets ws))
      (All-map (Uncordons ns) (IsAllowed ws ns) (plan_nodes ns) (λ a h. inr h)
        (plan_nodes-Uncordons ns))
