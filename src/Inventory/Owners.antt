-- ===== src/Inventory/Owners.antt =====
-- inventory.go: `PodOwners`.
use kubeagent.Prelude.{
  Bool, true, List, [], ◌∷◌, ◌++◌, Option, none, some, Text, codes, text_eq, if◌then◌else◌,
}
use kubeagent.Prelude.Dict.{Dict, find, put, has, text_eq_inst}
use kubeagent.Inventory.{OwnerReference, Pod, OwnedSet, Job, CronJob, Inputs}
use kubeagent.Inventory.Pods.{controller_owner}

pub record Owner : Type 0 where
  pub kind : Text
  pub namespace : Text
  pub name : Text

-- "namespace/name".
unfoldable pub full_name : Text → Text → Text
full_name ns name = ns ++ (codes "/" ++ name)

-- An owner of a kind is noted under the name of what it owns.
abbrev noted : Text → Text → Option OwnerReference → Dict Text Text → Dict Text Text
noted kind k none m = m
noted kind k (some o) m = if text_eq o.kind kind then put k o.name m else m

-- `rsToDeploy`.
unfoldable sets_to_deployments : Dict Text Text → List OwnedSet → Dict Text Text
unfolding full_name controller_owner
sets_to_deployments m [] = m
sets_to_deployments m (s ∷ ss) =
    sets_to_deployments
      (noted (codes "Deployment") (full_name s.namespace s.name) (controller_owner s.owners) m) ss

-- `jobToCronJob`.
unfoldable jobs_to_cron_jobs : Dict Text Text → List Job → Dict Text Text
unfolding full_name controller_owner
jobs_to_cron_jobs m [] = m
jobs_to_cron_jobs m (j ∷ js) =
    jobs_to_cron_jobs
      (noted (codes "CronJob") (full_name j.namespace j.name) (controller_owner j.owners) m) js

-- `cronJobs`.
unfoldable known_cron_jobs : Dict Text Bool → List CronJob → Dict Text Bool
unfolding full_name
known_cron_jobs m [] = m
known_cron_jobs m (c ∷ cs) = known_cron_jobs (put (full_name c.namespace c.name) true m) cs

abbrev of_set : Text → Text → Option Text → Owner
of_set ns name none = record { kind = codes "ReplicaSet"; namespace = ns; name = name }
of_set ns name (some d) = record { kind = codes "Deployment"; namespace = ns; name = d }

abbrev of_job : Text → Text → Dict Text Bool → Option Text → Owner
of_job ns name crons none = record { kind = codes "Job"; namespace = ns; name = name }
of_job ns name crons (some c) =
    if has (full_name ns c) crons
    then record { kind = codes "CronJob"; namespace = ns; name = c }
    else record { kind = codes "Job"; namespace = ns; name = name }

-- The body of the loop over the pods: the workload that a pod rolls up to.
module _ (sets jobs : Dict Text Text) (crons : Dict Text Bool) where
  abbrev pub rolled_up : Pod → Option OwnerReference → Owner
  rolled_up p none = record { kind = codes "Pod"; namespace = p.namespace; name = p.name }
  rolled_up p (some o) =
      if text_eq o.kind (codes "ReplicaSet")
      then of_set p.namespace o.name (find (full_name p.namespace o.name) sets)
      else if text_eq o.kind (codes "Job")
      then of_job p.namespace o.name crons (find (full_name p.namespace o.name) jobs)
      else record { kind = o.kind; namespace = p.namespace; name = o.name }

  unfoldable pub owners_from : Dict Text Owner → List Pod → Dict Text Owner
  unfolding full_name controller_owner
  owners_from out [] = out
  owners_from out (p ∷ ps) =
      owners_from (put (full_name p.namespace p.name) (rolled_up p (controller_owner p.owners)) out)
        ps

-- The workload that a pod of these lists rolls up to.
unfoldable pub owner_of : Inputs → Pod → Owner
unfolding controller_owner sets_to_deployments jobs_to_cron_jobs known_cron_jobs
owner_of i p =
    rolled_up (sets_to_deployments [] i.replica_sets) (jobs_to_cron_jobs [] i.jobs)
      (known_cron_jobs [] i.cron_jobs) p (controller_owner p.owners)

-- `PodOwners`.
unfoldable pub pod_owners : Inputs → Dict Text Owner
unfolding owners_from sets_to_deployments jobs_to_cron_jobs known_cron_jobs
pod_owners i =
    owners_from (sets_to_deployments [] i.replica_sets) (jobs_to_cron_jobs [] i.jobs)
      (known_cron_jobs [] i.cron_jobs) [] i.pods
