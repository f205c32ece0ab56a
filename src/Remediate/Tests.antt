-- ===== src/Remediate/Tests.antt =====
-- A Deployment whose newest revision cannot pull its image, and a cordoned node.
use kubeagent.Prelude.{
  ℕ, ◌≡◌, refl, true, false, List, [], ◌∷◌, some, Text, codes, eqb, text_eq, All, length,
}
use kubeagent.Prelude.Reply.{got}
use kubeagent.Prelude.Int.{pos, ltb_ℤ}
use kubeagent.Prelude.Dict.{Dict}
use kubeagent.Findings.Sources.{Workload}
use kubeagent.Inventory.{plain}
use kubeagent.Remediate.{Kube, Action, uncordon, Node, Template, ReplicaSet, Deployment}
use kubeagent.Remediate.Revisions.{revision, revision_of, plan_target, pick_target}
use kubeagent.Remediate.Plan.{
  plan, inverse, is_protected, has_no_execute_taint, uncordon_action, undo_action,
}
use kubeagent.Remediate.Attempts.{saved, conflict, Saved}
use kubeagent.Remediate.Apply.{Try, apply_rollout_undo}
use kubeagent.Remediate.Nodes.{apply_uncordon, apply_cordon}
use kubeagent.Remediate.Server.{Server, apply}
use kubeagent.Remediate.Safety.{IsHonest}
use kubeagent.Remediate.Honest.{apply-IsHonest}
use kubeagent.Remediate.Guards.{Some, Approved, apply_rollout_undo-Approved}
use kubeagent.Remediate.Preview.{Unchanged, plan_target-agrees}
use kubeagent.Remediate.Allowlist.{IsAllowed, plan-IsAllowed}
use kubeagent.Remediate.Restore.{smooth, cordon-restores}

abbrev small : Kube
small = record {
  Body = ℕ;
  Spec = ℕ;
  Meta = ℕ;
  equal_body = eqb;
  equal_spec = eqb;
  equal_meta = eqb;
}

abbrev web_template : Text → Template small
web_template image = record {
  labels = (codes "app", codes "web") ∷ (codes "pod-template-hash", image) ∷ [];
  annotations = [];
  containers = record { name = codes "web"; image = image; body = 1 } ∷ [];
  init_containers = [];
  spec = 2;
  meta = 0;
}

abbrev numbered : Text → Dict Text Text
numbered n = (codes "deployment.kubernetes.io/revision", n) ∷ []

abbrev web_set : Text → Text → ReplicaSet small
web_set n image = record {
  namespace = codes "shop";
  owners = record { kind = codes "Deployment"; name = codes "web" } ∷ [];
  annotations = numbered n;
  template = web_template image;
}

abbrev sets : List (ReplicaSet small)
sets =
    web_set (codes "1") (codes "web:v0")
    ∷ web_set (codes "2") (codes "web:v1")
    ∷ web_set (codes "3") (codes "web:v9")
    ∷ []

abbrev web : Deployment small
web = record {
  namespace = codes "shop";
  name = codes "web";
  annotations = numbered (codes "3");
  template = web_template (codes "web:v9");
}

abbrev broken : Workload
broken = record (plain (codes "Deployment") (codes "shop") (codes "web")) {
  desired = 3;
  ready = 2;
  status = codes "Running";
  findings =
      record {
        pod = codes "web-1";
        issue = codes "ImagePullBackOff";
        reason = [];
        evidence = [];
        image = [];
      }
      ∷ [];
}

abbrev worker : Node
worker = record {
  name = codes "worker-1";
  unschedulable = true;
  taint_effects = codes "NoSchedule" ∷ [];
}

abbrev undo_web : Action
unfolding undo_action
undo_web =
    undo_action broken (web_set (codes "3") (codes "web:v9")) (web_set (codes "2") (codes "web:v1"))

abbrev asked : Saved → Try small
asked answer = record {
  deployment = got web;
  sets = got sets;
  review = λ r. got true;
  update = answer;
}

-- One rollback and one uncordoning are planned; a kube-system workload and a drained node give none.
planned :
    (plan
        (broken ∷ record broken { namespace = codes "kube-system" } ∷ [])
        sets
        (worker ∷ record worker { taint_effects = codes "NoExecute" ∷ [] } ∷ [])
      ≡ undo_web ∷ uncordon_action worker ∷ [])
    × (undo_web.changes
        ≡ record { field = codes "revision"; from = codes "3"; to = codes "2" }
          ∷ record { field = codes "image (web)"; from = codes "web:v9"; to = codes "web:v1" }
          ∷ [])
    × (undo_web.target_revision ≡ pos 2)
unfolding plan undo_action text_eq
planned = (refl, refl, refl)

-- A conflict is retried: two Deployments are sent, the second is accepted.
retried :
    (((apply_rollout_undo undo_web (asked (conflict (codes "409"))) (asked saved ∷ [])).0).applied
      ≡ true)
    × (length (apply_rollout_undo undo_web (asked (conflict (codes "409"))) (asked saved ∷ [])).1
        ≡ 2)
    × (((apply_rollout_undo undo_web (record (asked saved) { review = λ r. got false }) []).0
          ).preflight_denied
        ≡ true)
    × (((apply_rollout_undo (record undo_web { target_revision = pos 1 }) (asked saved) []).0
          ).refused
        ≡ true)
unfolding undo_action apply_rollout_undo length text_eq
retried = (refl, refl, refl, refl)

plan-IsAllowed_example :
    All (IsAllowed (broken ∷ []) (worker ∷ [])) (plan (broken ∷ []) sets (worker ∷ []))
plan-IsAllowed_example = plan-IsAllowed (broken ∷ []) sets (worker ∷ [])

apply_rollout_undo-Approved_example :
    All
      (λ (w : Deployment small × Saved).
        (is_protected undo_web.namespace ≡ false)
        × Some (λ t. Approved undo_web t w.0) (asked (conflict (codes "409")) ∷ asked saved ∷ []))
      (apply_rollout_undo undo_web (asked (conflict (codes "409"))) (asked saved ∷ [])).1
apply_rollout_undo-Approved_example =
    apply_rollout_undo-Approved undo_web (asked (conflict (codes "409"))) (asked saved ∷ [])

Unchanged-web : Unchanged web (codes "shop") (codes "web") (web_set (codes "3") (codes "web:v9"))
unfolding revision_of revision
Unchanged-web = record {
  same_namespace = refl;
  same_name = refl;
  same_revision = refl;
  same_template = λ rs. refl;
}

target_planned :
    plan_target (codes "shop") (codes "web") sets
    ≡ some (web_set (codes "3") (codes "web:v9"), some (web_set (codes "2") (codes "web:v1")))
unfolding plan_target text_eq
target_planned = refl

above_zero : ltb_ℤ (pos 0) (revision_of (web_set (codes "2") (codes "web:v1"))) ≡ true
unfolding revision_of
above_zero = refl

plan_target-agrees_example : pick_target web sets ≡ some (web_set (codes "2") (codes "web:v1"))
plan_target-agrees_example =
    plan_target-agrees web (codes "shop") (codes "web") sets (web_set (codes "3") (codes "web:v9"))
      (web_set (codes "2") (codes "web:v1")) target_planned Unchanged-web above_zero

abbrev server : Server small
server = record {
  first = asked (conflict (codes "409"));
  more = asked saved ∷ [];
  first_node = smooth worker;
  more_nodes = [];
}

apply-IsHonest_example : IsHonest (apply undo_web server)
apply-IsHonest_example = apply-IsHonest undo_web server

no_drain : has_no_execute_taint worker ≡ false
unfolding has_no_execute_taint text_eq
no_drain = refl

cordon-restores_example :
    (n' : Node) × (a' : Action) × ((apply_uncordon (uncordon_action worker) (smooth worker) []).1
      ≡ (n', saved) ∷ [])
    × (n'.unschedulable ≡ false)
    × (inverse uncordon [] (codes "worker-1") (pos 0) (pos 0) ≡ some a')
    × (a'.name ≡ codes "worker-1")
    × ((apply_cordon a' (smooth n') []).1 ≡ (worker, saved) ∷ [])
cordon-restores_example =
    cordon-restores (uncordon_action worker) worker [] [] (pos 0) (pos 0) refl refl refl no_drain
