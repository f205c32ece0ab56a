-- ===== src/Remediate/Guards.antt =====
-- A rollback is written only behind every guard: each Deployment that is sent was read, approved and
-- permitted in the same run.
use kubeagent.Prelude.{
  ◌≡◌, refl, Bool, true, false, not, ◌||◌, ◌⊎◌, inl, inr, List, [], ◌∷◌, ◌++◌, Option, none, some,
  Text, codes, All, All-append, arith, if_elim,
}
use kubeagent.Prelude.Reply.{Reply, got, failed}
use kubeagent.Prelude.Int.{ℤ, equal_ℤ}
use kubeagent.Remediate.{
  Kube, Action, ActionKind, rollout_undo, uncordon, rollout_forward, cordon, other_kind, Deployment,
  ReplicaSet, Result,
}
use kubeagent.Remediate.Revisions.{revision, revision_of, pick_target}
use kubeagent.Remediate.Plan.{is_protected}
use kubeagent.Remediate.Attempts.{
  Saved, saved, conflict, errored, Attempt, unsent, refusing, save, after_review, log_of, closed,
  is_conflict, retry_on_conflict,
}
use kubeagent.Remediate.Apply.{
  Try, Review, deployment_review, node_review, lacking_deployments, review_of, preflight, restored,
  drifted, rolled_back, undo_to, undo_with, undo_read, try_undo, apply_rollout_undo, protected_err,
}

-- Some element has the property.
abbrev pub Some : {A : Type 0} → (A → Type 0) → List A → Type 0
Some P [] = ⊥
Some P (x ∷ xs) = P x ⊎ Some P xs

equal_ℤ-sound : (a b : ℤ) → equal_ℤ a b ≡ true → a ≡ b
equal_ℤ-sound a b h = ground arith

review-allowed : (reason : Text) (r : Reply Bool) → review_of reason r ≡ got none → r ≡ got true
review-allowed reason (failed e) h = cc
review-allowed reason (got true) h = refl
review-allowed reason (got false) h = cc

-- The update that an action of a kind needs permission for.
abbrev pub needed : ActionKind → Action → Review
needed rollout_undo a = deployment_review a
needed rollout_forward a = deployment_review a
needed uncordon a = node_review a
needed cordon a = node_review a
needed (other_kind k) a = deployment_review a

-- The preflight passes only where the server says that this very update is allowed.
preflight-allowed :
    (k : ActionKind) (a : Action) (review : Review → Reply Bool)
    → preflight k a review ≡ got none
    → review (needed k a) ≡ got true
unfolding preflight
preflight-allowed rollout_undo a r h = review-allowed (lacking_deployments a.namespace) _ h
preflight-allowed rollout_forward a r h = review-allowed (lacking_deployments a.namespace) _ h
preflight-allowed uncordon a r h = review-allowed _ _ h
preflight-allowed cordon a r h = review-allowed _ _ h
preflight-allowed (other_kind k) a r h = cc

both_kept : (x y : Bool) → not x || not y ≡ false → (x ≡ true) × (y ≡ true)
both_kept x y h = ground arith

-- A fact beside a property of every element.
with-All : {A P : Type 0} (Q : A → Type 0) (xs : List A) → P → All Q xs → All (λ x. P × Q x) xs
with-All Q [] p h = tt
with-All Q (x ∷ xs) p (h, hs) = ((p, h), with-All Q xs p hs)

module _ {O : Type 0} where
  save-logged :
      (P : O → Type 0) (o : O) (d : Text) (s : Saved) → P o → All (λ w. P w.0) (log_of (save o d s))
  unfolding save
  save-logged P o d saved h = (h, tt)
  save-logged P o d (conflict e) h = (h, tt)
  save-logged P o d (errored b e) h = (h, tt)

  after_review-logged :
      (P : O → Type 0) (p : Reply (Option Text)) (w : Attempt O)
      → (p ≡ got none → All (λ (x : O × Saved). P x.0) (log_of w))
      → All (λ (x : O × Saved). P x.0) (log_of (after_review p w))
  unfolding after_review
  after_review-logged P (failed e) w h = tt
  after_review-logged P (got (some reason)) w h = tt
  after_review-logged P (got none) w h = h refl

  module _ {T : Type 0} where
    here-All :
        (P : T → O → Type 0) (t : T) (ts : List T) (log : List (O × Saved))
        → All (λ w. P t w.0) log
        → All (λ w. Some (λ t'. P t' w.0) (t ∷ ts)) log
    here-All P t ts [] h = tt
    here-All P t ts (w ∷ log) (h, hs) = (inl h, here-All P t ts log hs)

    later-All :
        (P : T → O → Type 0) (t : T) (ts : List T) (log : List (O × Saved))
        → All (λ w. Some (λ t'. P t' w.0) ts) log
        → All (λ w. Some (λ t'. P t' w.0) (t ∷ ts)) log
    later-All P t ts [] h = tt
    later-All P t ts (w ∷ log) (h, hs) = (inr h, later-All P t ts log hs)

    -- What holds of each run's write holds of everything that is sent, for one of the runs.
    retry_on_conflict-logged :
        (P : T → O → Type 0) (what : Text) (run : T → Attempt O) (t : T) (ts : List T)
        → ((t' : T) → All (λ (w : O × Saved). P t' w.0) (log_of (run t')))
        → All
            (λ (w : O × Saved). Some (λ t'. P t' w.0) (t ∷ ts))
            (retry_on_conflict what run t ts).1
    unfolding retry_on_conflict
    retry_on_conflict-logged P what run t [] h = here-All P t [] (log_of (run t)) (h t)
    retry_on_conflict-logged P what run t (t' ∷ ts) h =
        let rest = retry_on_conflict what run t' ts in
        if_elim
          (λ (r : Result × List (O × Saved)).
            All (λ (w : O × Saved). Some (λ t''. P t'' w.0) (t ∷ t' ∷ ts)) r.1)
          (is_conflict (run t).sent) (rest.0, log_of (run t) ++ rest.1)
          (closed what (run t).result (run t).sent, log_of (run t))
          (λ e.
            All-append _ (log_of (run t)) rest.1 (here-All P t (t' ∷ ts) (log_of (run t)) (h t))
              (later-All P t (t' ∷ ts) rest.1 (retry_on_conflict-logged P what run t' ts h)))
          (λ e. here-All P t (t' ∷ ts) (log_of (run t)) (h t))

module _ {kube : Kube} where
  -- The Deployment `d` may be written in the run `t`: the revisions that were read are those that were
  -- previewed, the server allows the update that the
  -- action needs, and `d` is what was read with the target's template.
  pub record Approved (a : Action) (t : Try kube) (d : Deployment kube) : Type 0 where
    pub dep : Deployment kube
    pub sets : List (ReplicaSet kube)
    pub target : ReplicaSet kube
    pub dep_read : t.deployment ≡ got dep
    pub sets_read : t.sets ≡ got sets
    pub picked : pick_target dep sets ≡ some target
    pub current_kept : revision dep.annotations ≡ a.current_revision
    pub target_kept : revision_of target ≡ a.target_revision
    pub allowed : t.review (needed a.kind a) ≡ got true
    pub restores : d ≡ restored dep target

  undo_to-Approved :
      (a : Action) (t : Try kube) (dep : Deployment kube) (sets : List (ReplicaSet kube))
      (target : Option (ReplicaSet kube))
      → t.deployment ≡ got dep
      → t.sets ≡ got sets
      → pick_target dep sets ≡ target
      → All (λ (w : Deployment kube × Saved). Approved a t w.0) (log_of (undo_to a t dep target))
  unfolding undo_to
  undo_to-Approved a t dep sets none hd hs hp = tt
  undo_to-Approved a t dep sets (some target) hd hs hp =
      if_elim
        (λ (r : Attempt (Deployment kube)).
          All (λ (w : Deployment kube × Saved). Approved a t w.0) (log_of r))
        (not (equal_ℤ (revision dep.annotations) a.current_revision)
          || not (equal_ℤ (revision_of target) a.target_revision))
        (unsent (refusing (drifted a (revision dep.annotations) (revision_of target))))
        (after_review (preflight a.kind a t.review)
          (save (restored dep target) (rolled_back a target) t.update))
        (λ e. tt)
        λ e.
          let (cur, tar) = both_kept _ _ e in
          after_review-logged (Approved a t) (preflight a.kind a t.review) _ λ ok.
            save-logged (Approved a t) (restored dep target) (rolled_back a target) t.update
              (record {
                dep = dep;
                sets = sets;
                target = target;
                dep_read = hd;
                sets_read = hs;
                picked = hp;
                current_kept = equal_ℤ-sound _ _ cur;
                target_kept = equal_ℤ-sound _ _ tar;
                allowed = preflight-allowed a.kind a t.review ok;
                restores = refl;
              })

  undo_with-Approved :
      (a : Action) (t : Try kube) (dep : Deployment kube) (sets : Reply (List (ReplicaSet kube)))
      → t.deployment ≡ got dep
      → t.sets ≡ sets
      → All (λ (w : Deployment kube × Saved). Approved a t w.0) (log_of (undo_with a t dep sets))
  unfolding undo_with
  undo_with-Approved a t dep (failed e) hd hs = tt
  undo_with-Approved a t dep (got sets) hd hs =
      undo_to-Approved a t dep sets (pick_target dep sets) hd hs refl

  undo_read-Approved :
      (a : Action) (t : Try kube) (r : Reply (Deployment kube))
      → t.deployment ≡ r
      → All (λ (w : Deployment kube × Saved). Approved a t w.0) (log_of (undo_read a t r))
  unfolding undo_read
  undo_read-Approved a t (failed e) hd = tt
  undo_read-Approved a t (got dep) hd = undo_with-Approved a t dep t.sets hd refl

  -- Everything that a rollback sends lies outside the protected namespaces, and was approved in one of
  -- the runs: in that run the server allowed the update, the Deployment that was read had the revision
  -- that was previewed, the ReplicaSet that was picked from the sets that were read had the previewed
  -- target revision, and what is sent is that Deployment with the template of that ReplicaSet.
  pub apply_rollout_undo-Approved :
      (a : Action) (t : Try kube) (ts : List (Try kube))
      → All
          (λ (w : Deployment kube × Saved).
            (is_protected a.namespace ≡ false) × Some (λ t'. Approved a t' w.0) (t ∷ ts))
          (apply_rollout_undo a t ts).1
  unfolding apply_rollout_undo try_undo
  apply_rollout_undo-Approved a t ts =
      let Q = λ (w : Deployment kube × Saved).
        (is_protected a.namespace ≡ false) × Some (λ t'. Approved a t' w.0) (t ∷ ts) in
      if_elim (λ (r : Result × List (Deployment kube × Saved)). All Q r.1)
        (is_protected a.namespace) (protected_err a.namespace, [])
        (retry_on_conflict (codes "update deployment") (try_undo a) t ts) (λ e. tt)
        λ e.
          with-All (λ w. Some (λ t'. Approved a t' w.0) (t ∷ ts)) _ e
            (retry_on_conflict-logged (Approved a) (codes "update deployment") (try_undo a) t ts
              (λ t'. undo_read-Approved a t' t'.deployment refl))
