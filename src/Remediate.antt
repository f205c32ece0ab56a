-- ===== src/Remediate.antt =====
-- internal/remediate/remediate.go: the fixes that kubeagent plans, and the one guarded write by which
-- it applies each. `Remediate.Revisions` picks the ReplicaSets, `Remediate.Plan` plans,
-- `Remediate.Changes` renders the preview, `Remediate.Apply` and `Remediate.Nodes` write.
pub mod Revisions
pub mod Changes
pub mod Plan
pub mod Attempts
pub mod Apply
pub mod Forward
pub mod Server
pub mod Nodes
pub mod Best
pub mod Preview
pub mod Safety
pub mod Honest
pub mod Guards
pub mod Allowlist
pub mod Restore
mod Tests
use kubeagent.Prelude.{ℕ, Bool, List, Option, Text}
use kubeagent.Prelude.Int.{ℤ}
use kubeagent.Prelude.Dict.{Dict}

-- What the Kubernetes types hold beside the fields that the code reads: the rest of a container, of a
-- pod spec and of a template's metadata, with their semantic equality.
pub record Kube : Type 1 where
  pub Body : Type 0
  pub Spec : Type 0
  pub Meta : Type 0
  pub equal_body : Body → Body → Bool
  pub equal_spec : Spec → Spec → Bool
  pub equal_meta : Meta → Meta → Bool

pub record Owner : Type 0 where
  pub kind : Text
  pub name : Text

pub record Change : Type 0 where
  pub field : Text
  pub from : Text
  pub to : Text

pub data ActionKind : Type 0 where
  rollout_undo uncordon rollout_forward cordon : ActionKind
  other_kind : Text → ActionKind

pub record Action : Type 0 where
  pub kind : ActionKind
  pub namespace : Text
  pub name : Text
  pub target : Text
  pub summary : Text
  pub reason : Text
  pub kubectl_equivalent : Text
  pub changes : List Change
  pub current_revision : ℤ
  pub target_revision : ℤ

pub record Node : Type 0 where
  pub name : Text
  pub unschedulable : Bool
  pub taint_effects : List Text

-- `Result`, less the action that it repeats; `err` is the error's text.
pub record Result : Type 0 where
  pub applied : Bool
  pub refused : Bool
  pub preflight_denied : Bool
  pub detail : Text
  pub err : Option Text

module _ (kube : Kube) where
  pub record Container : Type 0 where
    pub name : Text
    pub image : Text
    pub body : kube.Body

  pub record Template : Type 0 where
    pub labels : Dict Text Text
    pub annotations : Dict Text Text
    pub containers : List Container
    pub init_containers : List Container
    pub spec : kube.Spec
    pub meta : kube.Meta

  pub record ReplicaSet : Type 0 where
    pub namespace : Text
    pub owners : List Owner
    pub annotations : Dict Text Text
    pub template : Template

  pub record Deployment : Type 0 where
    pub namespace : Text
    pub name : Text
    pub annotations : Dict Text Text
    pub template : Template
