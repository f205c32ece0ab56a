-- ===== src/Inventory.antt =====
-- internal/inventory/inventory.go: a workload and what it holds, and what the package reads of the Kubernetes
-- objects. A time is a number of seconds since the zero time, a count is not negative.
pub mod Pods
pub mod Owners
pub mod Seeds
pub mod Assemble
pub mod Prioritize
pub mod Names
pub mod Grown
pub mod Attached
pub mod Seeded
pub mod Cut
pub mod Grouping
pub mod Complete
pub mod Once
pub mod Census
mod Tests
use kubeagent.Prelude.{ℕ, Bool, false, true, List, [], ◌∷◌, ◌||◌, Option, Text, codes, ltb, text_eq}
use kubeagent.Prelude.Int.{ℤ}
use kubeagent.Safetext.{Unicode}

-- `diagnose.Finding`; `pod` is "namespace/name".
pub record Detection : Type 0 where
  pub pod : Text
  pub issue : Text
  pub reason : Text
  pub evidence : Text
  pub image : Text

-- `Verdict`.
pub data Verdict : Type 0 where
  attributed ruled_out outranked : Verdict

pub record Hypothesis : Type 0 where
  pub cause : Text
  pub kind : Text
  pub verdict : Verdict
  pub reason : Text
  pub object : Text

pub record PodRow : Type 0 where
  pub name : Text
  pub phase : Text
  pub state : Text
  pub ready : Text
  pub restarts : ℕ
  pub last_restart : Text
  pub node : Text
  pub ip : Text
  pub age : Text
  pub image : Text

-- `Workload`, without the hints that the passes after `Assemble` and `rootcause` attach.
pub record Workload : Type 0 where
  pub namespace : Text
  pub name : Text
  pub kind : Text
  pub desired : ℕ
  pub ready : ℕ
  pub status : Text
  pub restarts : ℕ
  pub last_restart : Text
  pub image : Text
  pub pods : List PodRow
  pub findings : List Detection
  pub pods_omitted : ℕ
  pub schedule : Text
  pub priority : ℕ
  pub root_cause : Text
  pub root_cause_trace : List Hypothesis

-- `&Workload{Namespace: ns, Name: name, Kind: kind}`.
abbrev pub plain : Text → Text → Text → Workload
plain kind ns name = record {
  namespace = ns;
  name = name;
  kind = kind;
  desired = 0;
  ready = 0;
  status = [];
  restarts = 0;
  last_restart = [];
  image = [];
  pods = [];
  findings = [];
  pods_omitted = 0;
  schedule = [];
  priority = 0;
  root_cause = [];
  root_cause_trace = [];
}

abbrev pub some_findings : List Detection → Bool
some_findings [] = false
some_findings (f ∷ fs) = true

-- `Workload.Flagged`.
unfoldable pub flagged : Workload → Bool
flagged w = some_findings w.findings || ltb w.ready w.desired || text_eq w.status (codes "Failed")

-- `metav1.OwnerReference`.
pub record OwnerReference : Type 0 where
  pub kind : Text
  pub name : Text
  pub controller : Option Bool

-- The terminated state of a container.
pub record Terminated : Type 0 where
  pub exit_code : ℤ
  pub reason : Text
  pub finished_at : ℕ

-- `corev1.ContainerStatus`; `waiting` holds a reason.
pub record ContainerStatus : Type 0 where
  pub restart_count : ℕ
  pub ready : Bool
  pub waiting : Option Text
  pub terminated : Option Terminated
  pub last_terminated : Option Terminated

-- `corev1.Pod`; `images` are those of the containers of its spec.
pub record Pod : Type 0 where
  pub namespace : Text
  pub name : Text
  pub owners : List OwnerReference
  pub phase : Text
  pub deleting : Bool
  pub init_statuses : List ContainerStatus
  pub statuses : List ContainerStatus
  pub images : List Text
  pub node : Text
  pub ip : Text
  pub created : ℕ

-- A Deployment or a StatefulSet.
pub record Scaled : Type 0 where
  pub namespace : Text
  pub name : Text
  pub replicas : Option ℕ
  pub ready_replicas : ℕ

pub record DaemonSet : Type 0 where
  pub namespace : Text
  pub name : Text
  pub desired_number : ℕ
  pub number_ready : ℕ

-- What `PodOwners` reads of a ReplicaSet.
pub record OwnedSet : Type 0 where
  pub namespace : Text
  pub name : Text
  pub owners : List OwnerReference

-- A condition of a Job.
pub record Condition : Type 0 where
  pub type : Text
  pub status : Text

pub record Job : Type 0 where
  pub namespace : Text
  pub name : Text
  pub owners : List OwnerReference
  pub conditions : List Condition
  pub active : ℕ

-- A CronJob, with the number of its active Jobs.
pub record CronJob : Type 0 where
  pub namespace : Text
  pub name : Text
  pub active : ℕ
  pub schedule : Text

pub record Inputs : Type 0 where
  pub pods : List Pod
  pub deployments : List Scaled
  pub replica_sets : List OwnedSet
  pub stateful_sets : List Scaled
  pub daemon_sets : List DaemonSet
  pub jobs : List Job
  pub cron_jobs : List CronJob

-- What the package calls of the standard library: RFC 3339 in UTC and back, the runes of a text, and their categories.
pub record Runtime : Type 0 where
  pub rfc3339 : ℕ → Text
  pub parse_rfc3339 : Text → Option ℕ
  pub runes : Text → List ℕ
  pub from_runes : List ℕ → Text
  pub unicode : Unicode
