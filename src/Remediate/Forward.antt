-- ===== src/Remediate/Forward.antt =====
-- `applyRolloutForward`: restoring the revision that a fix rolled back from. And `Apply`.
use kubeagent.Prelude.{
  not, ◌&&◌, List, [], ◌∷◌, ◌++◌, Option, none, some, Text, codes, drop, eqb, text_eq,
  if◌then◌else◌,
}
use kubeagent.Prelude.Int.{equal_ℤ}
use kubeagent.Prelude.Reply.{Reply, got, failed}
use kubeagent.Prelude.Atoi.{itoa}
use kubeagent.Gate.{has_prefix}
use kubeagent.Remediate.{Kube, Change, Action, Container, ReplicaSet, Deployment, Result}
use kubeagent.Remediate.Revisions.{revision_of, owned_by, templates_equal}
use kubeagent.Remediate.Plan.{is_protected}
use kubeagent.Remediate.Attempts.{
  Saved, Attempt, with_err, refusing, unsent, save, after_review, retry_on_conflict,
}
use kubeagent.Remediate.Apply.{Try, quoted, long_dash, preflight, protected_err, restored}

abbrev image_prefix : Text
image_prefix = codes "image ("

-- `strings.TrimSuffix(s, ")")`.
unfoldable pub trim_close : Text → Text
trim_close [] = []
trim_close (c ∷ []) = if eqb c b')' then [] else c ∷ []
trim_close (c ∷ d ∷ s) = c ∷ trim_close (d ∷ s)

-- The container that an image change names.
unfoldable pub container_of : Change → Text
unfolding trim_close
container_of c = trim_close (drop 7 c.field)

abbrev pub gone : Action → Text
unfolding itoa
gone a = codes "revision " ++ (itoa a.target_revision ++ codes " no longer exists; no write made")

abbrev pub changed_since : Text → Text → Text → Text
changed_since name actual want =
    codes "state changed since the fix (container "
    ++ (quoted name
        ++ (codes " is now "
            ++ (actual
                ++ (codes "; the fix left it at "
                    ++ (want ++ (codes ") " ++ (long_dash ++ codes " no write made")))))))

abbrev pub rolled_forward : Action → Text
unfolding itoa
rolled_forward a =
    codes "rolled "
    ++ (a.namespace
        ++ (codes "/"
            ++ (a.name
                ++ (codes " forward to revision "
                    ++ (itoa a.target_revision ++ codes " (pre-fix pod template restored)")))))

module _ {kube : Kube} where
  -- The first owned set of the target revision.
  unfoldable pub restore_target : Action → List (ReplicaSet kube) → Option (ReplicaSet kube)
  unfolding owned_by revision_of
  restore_target a [] = none
  restore_target a (rs ∷ rest) =
      if owned_by rs.owners a.name && equal_ℤ (revision_of rs) a.target_revision
      then some rs
      else restore_target a rest

  -- The image of the named container, empty if there is none.
  unfoldable pub image_in : Text → List (Container kube) → Text
  unfolding text_eq
  image_in name [] = []
  image_in name (c ∷ cs) = if text_eq c.name name then c.image else image_in name cs

  -- The drift check: the message for the first image that is not what the fix left.
  unfoldable pub image_drift : List (Container kube) → List Change → Option Text
  unfolding has_prefix container_of image_in text_eq
  image_drift cs [] = none
  image_drift cs (c ∷ rest) =
      if not (has_prefix c.field image_prefix)
      then image_drift cs rest
      else if text_eq (image_in (container_of c) cs) c.to
      then image_drift cs rest
      else some (changed_since (container_of c) (image_in (container_of c) cs) c.to)

  unfoldable pub forward_undrifted :
      Action
      → Try kube
      → Deployment kube
      → ReplicaSet kube
      → Option Text
      → Attempt (Deployment kube)
  unfolding preflight after_review restored save
  forward_undrifted a t dep target (some message) = unsent (refusing message)
  forward_undrifted a t dep target none =
      after_review (preflight a.kind a t.review)
        (save (restored dep target) (rolled_forward a) t.update)

  unfoldable pub forward_to :
      Action → Try kube → Deployment kube → Option (ReplicaSet kube) → Attempt (Deployment kube)
  unfolding templates_equal image_drift forward_undrifted
  forward_to a t dep none = unsent (refusing (gone a))
  forward_to a t dep (some target) =
      if templates_equal dep.template target.template
      then unsent (refusing (codes "already at the pre-fix revision; no write made"))
      else forward_undrifted a t dep target (image_drift dep.template.containers a.changes)

  unfoldable pub forward_with :
      Action
      → Try kube
      → Deployment kube
      → Reply (List (ReplicaSet kube))
      → Attempt (Deployment kube)
  unfolding restore_target forward_to
  forward_with a t dep (failed e) = unsent (with_err (codes "list replicasets") e)
  forward_with a t dep (got sets) = forward_to a t dep (restore_target a sets)

  unfoldable pub forward_read :
      Action → Try kube → Reply (Deployment kube) → Attempt (Deployment kube)
  unfolding forward_with
  forward_read a t (failed e) = unsent (with_err (codes "get deployment") e)
  forward_read a t (got dep) = forward_with a t dep t.sets

  -- `applyRolloutForward`.
  unfoldable pub apply_rollout_forward :
      Action → Try kube → List (Try kube) → Result × List (Deployment kube × Saved)
  unfolding is_protected forward_read retry_on_conflict
  apply_rollout_forward a t ts =
      if is_protected a.namespace
      then (protected_err a.namespace, [])
      else retry_on_conflict (codes "update deployment")
          (λ (t' : Try kube). forward_read a t' t'.deployment) t ts
