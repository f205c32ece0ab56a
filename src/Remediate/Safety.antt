-- ===== src/Remediate/Safety.antt =====
-- What a result says is what happened: `Applied` is one accepted write, and only a reported error leaves a write open.
use kubeagent.Prelude.{
  ℕ, ◌+◌, ◌≡◌, ◌≤◌, refl, Bool, true, false, not, ◌||◌, List, [], ◌∷◌, ◌++◌, Option, none, some,
  Text, codes, arith, count_if, count_if-append, if◌then◌else◌, if_elim,
}
use kubeagent.Prelude.Reply.{Reply, got, failed}
use kubeagent.Remediate.{Kube, Action, Node, Deployment, ReplicaSet, Result}
use kubeagent.Remediate.Attempts.{
  Saved, saved, conflict, errored, Attempt, blank, success, unsent, save, after_review, log_of,
  closed, is_conflict, retry_on_conflict, refusing,
}
use kubeagent.Remediate.Plan.{has_no_execute_taint}
use kubeagent.Remediate.Revisions.{revision, revision_of, templates_equal}
use kubeagent.Remediate.Apply.{
  Try, preflight, restored, drifted, rolled_back, undo_to, undo_with, undo_read,
}
use kubeagent.Remediate.Forward.{
  image_drift, forward_undrifted, forward_to, forward_with, forward_read,
}
use kubeagent.Remediate.Nodes.{NodeTry, uncordon_read, cordon_read}

abbrev pub unit_if : Bool → ℕ
unit_if b = if b then 1 else 0

abbrev pub has_err : Option Text → Bool
has_err none = false
has_err (some e) = true

-- Exactly one of the four outcomes is reported.
unfoldable pub IsDecided : Result → Type 0
IsDecided r =
    unit_if r.applied + unit_if r.refused + unit_if r.preflight_denied + unit_if (has_err r.err) ≡ 1

-- Whether the update was answered without an error.
abbrev pub is_saved : Saved → Bool
is_saved saved = true
is_saved (conflict e) = false
is_saved (errored b e) = false

-- Whether the server stored the object, answered or not.
abbrev pub is_stored : Saved → Bool
is_stored saved = true
is_stored (conflict e) = false
is_stored (errored b e) = b

module _ {O : Type 0} where
  -- The number of updates that were answered without an error, and of those that the server stored.
  unfoldable pub writes : List (O × Saved) → ℕ
  writes log = count_if (λ w. is_saved w.1) log

  unfoldable pub stored : List (O × Saved) → ℕ
  stored log = count_if (λ w. is_stored w.1) log

  -- One outcome is reported. It is `Applied` exactly if one update was answered without an error. What the server
  -- stored is then that update alone; it is nothing if the outcome is a refusal or a denied preflight, and one object
  -- at most if it is an error.
  unfoldable pub IsHonest : Result × List (O × Saved) → Type 0
  unfolding IsDecided writes stored
  IsHonest (r, log) =
      IsDecided r
      × ((writes log ≡ unit_if r.applied)
          × ((unit_if r.applied ≤ stored log)
              × (stored log ≤ unit_if r.applied + unit_if (has_err r.err))))

  -- A run of the closure: a write that was accepted is reported as applied, one that was not leaves
  -- the result blank, and without a write one of the other outcomes is reported.
  pub Fair : Result → Option (O × Saved) → Type 0
  unfolding IsDecided
  Fair r none = IsDecided r × (r.applied ≡ false)
  Fair r (some (o, saved)) = (d : Text) × (r ≡ success d)
  Fair r (some (o, conflict e)) = r ≡ blank
  Fair r (some (o, errored b e)) = r ≡ blank

  closed-IsHonest :
      (what : Text) (r : Result) (w : Option (O × Saved))
      → Fair r w
      → IsHonest (closed what r w, log_of (record { result = r; sent = w }))
  unfolding Fair IsHonest IsDecided writes stored closed count_if
  closed-IsHonest what r none (h, g) = (h, (rw g refl, (rw g (omega arith), omega arith)))
  closed-IsHonest what r (some (o, saved)) (d, h) = rw h (refl, (refl, (omega arith, omega arith)))
  closed-IsHonest what r (some (o, conflict e)) h = rw h (refl, (refl, (omega arith, omega arith)))
  closed-IsHonest what r (some (o, errored true e)) h =
      rw h (refl, (refl, (omega arith, omega arith)))
  closed-IsHonest what r (some (o, errored false e)) h =
      rw h (refl, (refl, (omega arith, omega arith)))

  -- What a conflict sent was not stored.
  conflict-writes :
      (r : Result) (w : Option (O × Saved))
      → is_conflict w ≡ true
      → (writes (log_of (record { result = r; sent = w })) ≡ 0)
        × (stored (log_of (record { result = r; sent = w })) ≡ 0)
  unfolding writes stored count_if
  conflict-writes r none h = (refl, refl)
  conflict-writes r (some (o, saved)) h = absurd (ground arith)
  conflict-writes r (some (o, conflict e)) h = (refl, refl)
  conflict-writes r (some (o, errored b e)) h = absurd (ground arith)

  IsHonest-append :
      (r : Result) (log rest : List (O × Saved))
      → (writes log ≡ 0) × (stored log ≡ 0)
      → IsHonest (r, rest)
      → IsHonest (r, log ++ rest)
  unfolding IsHonest writes stored
  IsHonest-append r log rest (h, h') (g, (k, (l, u))) =
      let answered = count_if-append (λ (w : O × Saved). is_saved w.1) log rest in
      let kept = count_if-append (λ (w : O × Saved). is_stored w.1) log rest in
      (g, (omega (arith, h, k, answered), (omega (arith, h', l, kept), omega (arith, h', u, kept))))

  save-Fair : (o : O) (d : Text) (s : Saved) → Fair ((save o d s).result) ((save o d s).sent)
  unfolding Fair save
  save-Fair o d saved = (d, refl)
  save-Fair o d (conflict e) = refl
  save-Fair o d (errored b e) = refl

  after_review-Fair :
      (p : Reply (Option Text)) (w : Attempt O)
      → Fair (w.result) (w.sent)
      → Fair ((after_review p w).result) ((after_review p w).sent)
  unfolding Fair IsDecided after_review
  after_review-Fair (failed e) w h = (refl, refl)
  after_review-Fair (got (some reason)) w h = (refl, refl)
  after_review-Fair (got none) w h = h

  module _ {T : Type 0} where
    pub retry_on_conflict-IsHonest :
        (what : Text) (run : T → Attempt O) (t : T) (ts : List T)
        → ((t' : T) → Fair ((run t').result) ((run t').sent))
        → IsHonest (retry_on_conflict what run t ts)
    unfolding retry_on_conflict
    retry_on_conflict-IsHonest what run t [] h = closed-IsHonest what _ _ (h t)
    retry_on_conflict-IsHonest what run t (t' ∷ ts) h =
        let rest = retry_on_conflict what run t' ts in
        if_elim IsHonest (is_conflict (run t).sent) (rest.0, log_of (run t) ++ rest.1)
          (closed what (run t).result (run t).sent, log_of (run t))
          (λ e.
            IsHonest-append rest.0 (log_of (run t)) rest.1
              (conflict-writes (run t).result (run t).sent e)
              (retry_on_conflict-IsHonest what run t' ts h))
          (λ e. closed-IsHonest what _ _ (h t))

-- That a run is fair, for the closures below.
abbrev pub IsFair : {O : Type 0} → Attempt O → Type 0
IsFair a = Fair a.result a.sent

module _ {kube : Kube} where
  undo_to-Fair :
      (a : Action) (t : Try kube) (dep : Deployment kube) (target : Option (ReplicaSet kube))
      → IsFair (undo_to a t dep target)
  unfolding undo_to Fair IsDecided
  undo_to-Fair a t dep none = (refl, refl)
  undo_to-Fair a t dep (some target) =
      if_elim IsFair _
        (unsent (refusing (drifted a (revision dep.annotations) (revision_of target))))
        (after_review (preflight a.kind a t.review)
          (save (restored dep target) (rolled_back a target) t.update))
        (λ e. (refl, refl)) (λ e. after_review-Fair _ _ (save-Fair _ _ t.update))

  undo_with-Fair :
      (a : Action) (t : Try kube) (dep : Deployment kube) (sets : Reply (List (ReplicaSet kube)))
      → IsFair (undo_with a t dep sets)
  unfolding undo_with Fair IsDecided
  undo_with-Fair a t dep (failed e) = (refl, refl)
  undo_with-Fair a t dep (got sets) = undo_to-Fair a t dep _

  pub undo_read-Fair :
      (a : Action) (t : Try kube) (r : Reply (Deployment kube)) → IsFair (undo_read a t r)
  unfolding undo_read Fair IsDecided
  undo_read-Fair a t (failed e) = (refl, refl)
  undo_read-Fair a t (got dep) = undo_with-Fair a t dep t.sets

  forward_undrifted-Fair :
      (a : Action) (t : Try kube) (dep : Deployment kube) (target : ReplicaSet kube)
      (m : Option Text)
      → IsFair (forward_undrifted a t dep target m)
  unfolding forward_undrifted Fair IsDecided
  forward_undrifted-Fair a t dep target (some m) = (refl, refl)
  forward_undrifted-Fair a t dep target none = after_review-Fair _ _ (save-Fair _ _ t.update)

  forward_to-Fair :
      (a : Action) (t : Try kube) (dep : Deployment kube) (target : Option (ReplicaSet kube))
      → IsFair (forward_to a t dep target)
  unfolding forward_to Fair IsDecided
  forward_to-Fair a t dep none = (refl, refl)
  forward_to-Fair a t dep (some target) =
      if_elim IsFair (templates_equal dep.template target.template)
        (unsent (refusing (codes "already at the pre-fix revision; no write made")))
        (forward_undrifted a t dep target (image_drift dep.template.containers a.changes))
        (λ e. (refl, refl)) (λ e. forward_undrifted-Fair a t dep target _)

  pub forward_read-Fair :
      (a : Action) (t : Try kube) (r : Reply (Deployment kube)) → IsFair (forward_read a t r)
  unfolding forward_read forward_with Fair IsDecided
  forward_read-Fair a t (failed e) = (refl, refl)
  forward_read-Fair a t (got dep) = listed t.sets
    where
      listed : (s : Reply (List (ReplicaSet kube))) → IsFair (forward_with a t dep s)
      listed (failed e) = (refl, refl)
      listed (got sets) = forward_to-Fair a t dep _

pub uncordon_read-Fair : (a : Action) (t : NodeTry) (r : Reply Node) → IsFair (uncordon_read a t r)
unfolding uncordon_read Fair IsDecided
uncordon_read-Fair a t (failed e) = (refl, refl)
uncordon_read-Fair a t (got n) =
    if_elim IsFair (not n.unschedulable || has_no_execute_taint n) _ _ (λ e. (refl, refl))
      (λ e. after_review-Fair (preflight a.kind a t.review) _ (
        save-Fair (record n { unschedulable = false }) (codes "uncordoned node " ++ a.name)
          t.update))

pub cordon_read-Fair : (a : Action) (t : NodeTry) (r : Reply Node) → IsFair (cordon_read a t r)
unfolding cordon_read Fair IsDecided
cordon_read-Fair a t (failed e) = (refl, refl)
cordon_read-Fair a t (got n) =
    if_elim IsFair n.unschedulable _ _ (λ e. (refl, refl))
      (λ e. after_review-Fair (preflight a.kind a t.review) _ (
        save-Fair (record n { unschedulable = true }) (codes "re-cordoned node " ++ a.name)
          t.update))
