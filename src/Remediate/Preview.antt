-- ===== src/Remediate/Preview.antt =====
-- The preview and the write choose the same ReplicaSet.
use mathlib.Core.Path.{subst}
use kubeagent.Prelude.{
  ◌≡◌, refl, Bool, true, false, ◌⊎◌, inl, inr, List, Option, none, some, Text, arith, Bool-cases,
  eqb_iff,
}
use kubeagent.Prelude.Int.{ℤ, pos, negsuc, ltb_ℤ}
use kubeagent.Remediate.{Kube, ReplicaSet, Deployment}
use kubeagent.Remediate.Revisions.{
  is_zero, revision, revision_of, templates_equal, pick_best, is_current_candidate, is_prior,
  is_target, plan_target, prior_of, pick_target,
}
use kubeagent.Remediate.Best.{Alike, pick_best-Alike, Alike-high, pick_best-kept}

is_zero_sound : (i : ℤ) → is_zero i ≡ true → i ≡ pos 0
is_zero_sound (pos n) h = ground (arith, eqb_iff n 0)
is_zero_sound (negsuc n) h = cc

pub found_kept : {A : Type 0} {x : A} {b : Bool} → (none ≡ some x) ⊎ (b ≡ true) → b ≡ true
found_kept (inl e) = cc
found_kept (inr h) = h

module _ {kube : Kube} where
  -- The Deployment as the server holds it now, against what the plan saw: the same object, at the
  -- revision of its current ReplicaSet, with that set's template.
  pub record Unchanged (dep : Deployment kube) (namespace name : Text) (cur : ReplicaSet kube)
      : Type 0 where
    pub same_namespace : dep.namespace ≡ namespace
    pub same_name : dep.name ≡ name
    pub same_revision : revision dep.annotations ≡ revision_of cur
    pub same_template :
        (rs : ReplicaSet kube)
        → templates_equal rs.template dep.template ≡ templates_equal rs.template cur.template

  -- The two conditions differ only at revision 0.
  prior-or-zero :
      (dep : Deployment kube) (namespace name : Text) (cur rs : ReplicaSet kube)
      → Unchanged dep namespace name cur
      → (is_prior namespace name cur rs ≡ is_target dep rs)
        ⊎ ((is_prior namespace name cur rs ≡ false) × (revision_of rs ≡ pos 0))
  unfolding is_prior is_target
  prior-or-zero dep namespace name cur rs u = elim (Bool-cases (is_zero (revision_of rs))) [
    | inl z ↦ inr (ground arith, is_zero_sound _ z)
    | inr z ↦ inl (rw (u.same_namespace, u.same_name, u.same_revision, u.same_template rs, z) refl)
  ]

  current-nonzero :
      (namespace name : Text) (rs : ReplicaSet kube)
      → is_current_candidate namespace name rs ≡ true
      → is_zero (revision_of rs) ≡ false
  unfolding is_current_candidate
  current-nonzero namespace name rs h = ground arith

  -- With the current set known, the picked target is the planned one.
  target-agreed :
      (dep : Deployment kube) (namespace name : Text) (sets : List (ReplicaSet kube))
      (cur target : ReplicaSet kube)
      → pick_best (is_current_candidate namespace name) sets none ≡ some cur
      → pick_best (is_prior namespace name cur) sets none ≡ some target
      → Unchanged dep namespace name cur
      → ltb_ℤ (pos 0) (revision_of target) ≡ true
      → pick_target dep sets ≡ some target
  unfolding pick_target Alike
  target-agreed dep namespace name sets cur target h e u p =
      let nonzero : is_zero (revision dep.annotations) ≡ false = rw u.same_revision (
        current-nonzero namespace name cur
          (found_kept (pick_best-kept (is_current_candidate namespace name) sets none cur h))) in
      let alike =
        pick_best-Alike (is_prior namespace name cur) (is_target dep)
          (λ rs. prior-or-zero dep namespace name cur rs u) sets none none (inl refl) in
      rw nonzero
        (Alike-high target _ p (subst (λ x. Alike x (pick_best (is_target dep) sets none)) e alike))

  target-found :
      (dep : Deployment kube) (namespace name : Text) (sets : List (ReplicaSet kube))
      (c : Option (ReplicaSet kube)) (cur target : ReplicaSet kube)
      → pick_best (is_current_candidate namespace name) sets none ≡ c
      → prior_of namespace name sets c ≡ some (cur, some target)
      → Unchanged dep namespace name cur
      → ltb_ℤ (pos 0) (revision_of target) ≡ true
      → pick_target dep sets ≡ some target
  unfolding pick_target prior_of
  target-found dep namespace name sets none cur target h e u p = cc
  target-found dep namespace name sets (some c) cur target h e u p =
      let same : c ≡ cur = cc in
      target-agreed dep namespace name sets cur target (rw (← same) h)
        (subst (λ d. pick_best (is_prior namespace name d) sets none ≡ some target) same (cc)) u p

  -- The preview shows what the write does: as long as the Deployment is as the plan saw it and the
  -- ReplicaSets are the same, and the previewed target has a revision above 0, `pickTarget` picks the
  -- ReplicaSet that `planTarget` previewed, although only the latter skips revision 0.
  pub plan_target-agrees :
      (dep : Deployment kube) (namespace name : Text) (sets : List (ReplicaSet kube))
      (cur target : ReplicaSet kube)
      → plan_target namespace name sets ≡ some (cur, some target)
      → Unchanged dep namespace name cur
      → ltb_ℤ (pos 0) (revision_of target) ≡ true
      → pick_target dep sets ≡ some target
  unfolding plan_target
  plan_target-agrees dep namespace name sets cur target e u p =
      target-found dep namespace name sets
        (pick_best (is_current_candidate namespace name) sets none) cur target refl e u p
