-- ===== src/Remediate/Restore.antt =====
-- Undoing a fix: uncordoning a node, and the inverse of that.
use kubeagent.Prelude.{
  ◌≡◌, refl, true, false, not, ◌||◌, ◌⊎◌, inl, inr, if_elim, ap, ◌∙◌, List, [], ◌∷◌, ◌++◌, none,
  some, Text, codes, arith,
}
use kubeagent.Prelude.Reply.{got}
use kubeagent.Prelude.Int.{ℤ}
use kubeagent.Remediate.{Action, ActionKind, uncordon, cordon, Node}
use kubeagent.Remediate.Plan.{has_no_execute_taint, inverse, cordon_action}
use kubeagent.Remediate.Attempts.{saved, Attempt, save, after_review, retry_on_conflict}
use kubeagent.Remediate.Apply.{preflight}
use kubeagent.Remediate.Nodes.{NodeTry, uncordon_read, cordon_read, apply_uncordon, apply_cordon}

-- A run in which the server answers with the node, allows the update and accepts it.
abbrev pub smooth : Node → NodeTry
smooth n = record { node = got n; review = λ r. got true; update = saved }

-- Both kinds of action on a node pass a preflight that the server allows.
node_preflight :
    (k : ActionKind) (a : Action)
    → (k ≡ uncordon) ⊎ (k ≡ cordon)
    → preflight k a (λ r. got true) ≡ got none
unfolding preflight
node_preflight k a (inl e) = rw e refl
node_preflight k a (inr e) = rw e refl

uncordon-sends :
    (a : Action) (n : Node)
    → a.kind ≡ uncordon
    → n.unschedulable ≡ true
    → has_no_execute_taint n ≡ false
    → uncordon_read a (smooth n) (got n)
      ≡ save (record n { unschedulable = false }) (codes "uncordoned node " ++ a.name) saved
unfolding uncordon_read after_review
uncordon-sends a n k u t =
    let safe : not n.unschedulable || has_no_execute_taint n ≡ false = ground arith in
    let allowed = node_preflight a.kind a (inl k) in rw safe (rw allowed refl)

cordon-sends :
    (a : Action) (n : Node)
    → a.kind ≡ cordon
    → n.unschedulable ≡ false
    → cordon_read a (smooth n) (got n)
      ≡ save (record n { unschedulable = true }) (codes "re-cordoned node " ++ a.name) saved
unfolding cordon_read after_review
cordon-sends a n k u =
    let allowed = node_preflight a.kind a (inr k) in
    if_elim
      (λ (r : Attempt Node).
        r ≡ save (record n { unschedulable = true }) (codes "re-cordoned node " ++ a.name) saved)
      n.unschedulable _ _ (λ e. absurd (ground arith)) (λ e. rw allowed refl)

-- A run that is accepted is the only one.
accepted-once :
    {T O : Type 0} (what : Text) (run : T → Attempt O) (t : T) (ts : List T) (o : O) (d : Text)
    → run t ≡ save o d saved
    → (retry_on_conflict what run t ts).1 ≡ (o, saved) ∷ []
unfolding retry_on_conflict save
accepted-once what run t [] o d e = rw e refl
accepted-once what run t (t' ∷ ts) o d e = rw e refl

-- A fix of a node can be undone: uncordoning a cordoned node that nothing drains sends the node as
-- schedulable and nothing else, `Inverse` gives an action for the audit record of that, and applying
-- it to the node as it was sent sends the node exactly as it was before.
pub cordon-restores :
    (a : Action) (n : Node) (ts us : List NodeTry) (from to : ℤ)
    → a.kind ≡ uncordon
    → a.name ≡ n.name
    → n.unschedulable ≡ true
    → has_no_execute_taint n ≡ false
    → (n' : Node) × (a' : Action) × ((apply_uncordon a (smooth n) ts).1 ≡ (n', saved) ∷ [])
      × (n'.unschedulable ≡ false)
      × (inverse a.kind a.namespace a.name from to ≡ some a')
      × (a'.name ≡ n.name)
      × ((apply_cordon a' (smooth n') us).1 ≡ (n, saved) ∷ [])
unfolding apply_uncordon apply_cordon inverse
cordon-restores a n ts us from to k e u t =
    let n' : Node = record n { unschedulable = false } in
    (
      n',
      cordon_action a.name,
      accepted-once (codes "update node") (λ (t' : NodeTry). uncordon_read a t' t'.node) (smooth n)
          ts n' _ (uncordon-sends a n k u t),
      refl,
      inverse-uncordon a.kind a.namespace a.name from to k,
      e,
      accepted-once (codes "update node")
            (λ (t' : NodeTry). cordon_read (cordon_action a.name) t' t'.node) (smooth n') us
            (record n { unschedulable = true }) _ (cordon-sends (cordon_action a.name) n' refl refl)
          ∙ ap (λ (m : Node). (m, saved) ∷ []) (as_it_was n u),
    )
  where
    inverse-uncordon :
        (kind : ActionKind) (ns name : Text) (x y : ℤ)
        → kind ≡ uncordon
        → inverse kind ns name x y ≡ some (cordon_action name)
    inverse-uncordon kind ns name x y e = rw e refl

    as_it_was : (m : Node) → m.unschedulable ≡ true → record m { unschedulable = true } ≡ m
    as_it_was m e = ground arith
