-- ===== src/Remediate/Revisions.antt =====
-- Revisions, equality of templates, and the choice of the ReplicaSet to go back to.
use kubeagent.Prelude.{
  Bool, true, false, not, ◌&&◌, ◌||◌, List, [], ◌∷◌, Option, none, some, Text, codes, any, eqb,
  text_eq, if◌then◌else◌,
}
use kubeagent.Prelude.Int.{ℤ, pos, negsuc, ltb_ℤ, leb_ℤ}
use kubeagent.Prelude.Atoi.{atoi}
use kubeagent.Prelude.Dict.{Dict, find, del, text_eq_inst}
use kubeagent.Remediate.{Kube, Owner, Container, Template, ReplicaSet, Deployment}

abbrev pub is_zero : ℤ → Bool
is_zero (pos n) = eqb n 0
is_zero (negsuc n) = false

abbrev pub or_zero : Option ℤ → ℤ
or_zero none = pos 0
or_zero (some n) = n

abbrev pub parsed : Option Text → Option ℤ
unfolding atoi
parsed none = none
parsed (some v) = atoi v

-- `revFromAnnotations`: 0 where there is no such annotation or it is no number.
unfoldable pub revision : Dict Text Text → ℤ
unfolding find atoi text_eq
revision annotations =
    or_zero (parsed (find (codes "deployment.kubernetes.io/revision") annotations))

-- `ownedBy`.
unfoldable pub owned_by : List Owner → Text → Bool
unfolding text_eq
owned_by owners deployment =
    any (λ (o : Owner). text_eq o.kind (codes "Deployment") && text_eq o.name deployment) owners

-- Semantic equality of string maps: the same values under the same keys.
abbrev same_value : Option Text → Text → Bool
same_value none v = false
same_value (some w) v = text_eq w v

unfoldable pub included : Dict Text Text → Dict Text Text → Bool
unfolding find text_eq
included [] m = true
included ((k, v) ∷ l) m = same_value (find k m) v && included l m

unfoldable pub equal_map : Dict Text Text → Dict Text Text → Bool
unfolding included
equal_map l m = included l m && included m l

-- `delete(labels, "pod-template-hash")`.
unfoldable pub without_hash : Dict Text Text → Dict Text Text
unfolding del
without_hash labels = del (codes "pod-template-hash") labels

module _ {kube : Kube} where
  unfoldable pub equal_container : Container kube → Container kube → Bool
  unfolding text_eq
  equal_container a b =
      text_eq a.name b.name && text_eq a.image b.image && kube.equal_body a.body b.body

  unfoldable pub equal_containers : List (Container kube) → List (Container kube) → Bool
  unfolding equal_container
  equal_containers [] [] = true
  equal_containers [] (b ∷ bs) = false
  equal_containers (a ∷ as') [] = false
  equal_containers (a ∷ as') (b ∷ bs) = equal_container a b && equal_containers as' bs

  -- `templatesEqual`.
  unfoldable pub templates_equal : Template kube → Template kube → Bool
  unfolding equal_map without_hash equal_containers
  templates_equal a b =
      equal_map (without_hash a.labels) (without_hash b.labels)
      && equal_map a.annotations b.annotations
      && equal_containers a.containers b.containers
      && equal_containers a.init_containers b.init_containers
      && kube.equal_spec a.spec b.spec
      && kube.equal_meta a.meta b.meta

  unfoldable pub revision_of : ReplicaSet kube → ℤ
  unfolding revision
  revision_of rs = revision rs.annotations

  -- `if best == nil || r > rev(best) { best = rs }`.
  abbrev pub better : Option (ReplicaSet kube) → ReplicaSet kube → Option (ReplicaSet kube)
  better none rs = some rs
  better (some b) rs = if ltb_ℤ (revision_of b) (revision_of rs) then some rs else some b

  -- The loop that picks the highest revision among the sets that are not skipped.
  unfoldable pub pick_best :
      (ReplicaSet kube → Bool)
      → List (ReplicaSet kube)
      → Option (ReplicaSet kube)
      → Option (ReplicaSet kube)
  pick_best keeps [] best = best
  pick_best keeps (rs ∷ rest) best =
      pick_best keeps rest (if keeps rs then better best rs else best)

  -- The first loop's condition: an owned set with a revision.
  unfoldable pub is_current_candidate : Text → Text → ReplicaSet kube → Bool
  unfolding owned_by revision_of text_eq
  is_current_candidate namespace deployment rs = not (
      not (text_eq rs.namespace namespace)
      || not (owned_by rs.owners deployment)
      || is_zero (revision_of rs))

  -- The second loop's: an owned set of a lower revision, not 0, with another template.
  unfoldable pub is_prior : Text → Text → ReplicaSet kube → ReplicaSet kube → Bool
  unfolding owned_by revision_of templates_equal text_eq
  is_prior namespace deployment cur rs =
      if not (text_eq rs.namespace namespace) || not (owned_by rs.owners deployment)
      then false
      else if is_zero (revision_of rs) || leb_ℤ (revision_of cur) (revision_of rs)
      then false
      else not (templates_equal rs.template cur.template)

  unfoldable pub prior_of :
      Text
      → Text
      → List (ReplicaSet kube)
      → Option (ReplicaSet kube)
      → Option (ReplicaSet kube × Option (ReplicaSet kube))
  unfolding pick_best is_prior
  prior_of namespace deployment sets none = none
  prior_of namespace deployment sets (some cur) =
      some (cur, pick_best (is_prior namespace deployment cur) sets none)

  -- `planTarget`: the current set, with the target if there is one.
  unfoldable pub plan_target :
      Text → Text → List (ReplicaSet kube) → Option (ReplicaSet kube × Option (ReplicaSet kube))
  unfolding pick_best is_current_candidate prior_of
  plan_target namespace deployment sets =
      prior_of namespace deployment sets
        (pick_best (is_current_candidate namespace deployment) sets none)

  -- The condition of `pickTarget`'s loop, which has no test for revision 0.
  unfoldable pub is_target : Deployment kube → ReplicaSet kube → Bool
  unfolding owned_by revision_of revision templates_equal text_eq
  is_target dep rs =
      if not (text_eq rs.namespace dep.namespace) || not (owned_by rs.owners dep.name)
      then false
      else if leb_ℤ (revision dep.annotations) (revision_of rs)
      then false
      else not (templates_equal rs.template dep.template)

  -- `pickTarget`.
  unfoldable pub pick_target : Deployment kube → List (ReplicaSet kube) → Option (ReplicaSet kube)
  unfolding revision is_target pick_best
  pick_target dep sets =
      if is_zero (revision dep.annotations) then none else pick_best (is_target dep) sets none
