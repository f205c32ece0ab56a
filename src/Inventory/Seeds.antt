-- ===== src/Inventory/Seeds.antt =====
-- inventory.go: the key of a workload, and what the controllers seed at the start of `Assemble`.
use kubeagent.Prelude.{
  ℕ, Bool, true, false, not, List, [], ◌∷◌, ◌++◌, Option, none, some, Text, codes, text_eq, ltb,
  if◌then◌else◌, map,
}
use kubeagent.Prelude.Decimal.{decimal}
use kubeagent.Prelude.Dict.{Dict, put, text_eq_inst}
use kubeagent.Inventory.{
  Workload, plain, OwnerReference, Scaled, DaemonSet, Condition, Job, CronJob, Inputs,
}
use kubeagent.Inventory.Pods.{controller_owner}

-- The key of a workload.
unfoldable pub key : Text → Text → Text → Text
key kind ns name = kind ++ (codes "/" ++ (ns ++ (codes "/" ++ name)))

-- `jobStatus`.
unfoldable pub job_status_from : ℕ → List Condition → Text
job_status_from active [] = if ltb 0 active then codes "Running" else codes "Pending"
job_status_from active (c ∷ cs) =
    let rest = job_status_from active cs in
    if not (text_eq c.status (codes "True"))
    then rest
    else if text_eq c.type (codes "Failed")
    then codes "Failed"
    else if text_eq c.type (codes "Complete")
    then codes "Complete"
    else rest

-- `cronJobStatus`.
unfoldable pub cron_job_status : CronJob → Text
unfolding decimal
cron_job_status c =
    if ltb 0 c.active then codes "Active(" ++ (decimal c.active ++ codes ")") else codes "Idle"

-- `workloads` and `controllerKeys`.
pub record Seeds : Type 0 where
  pub workloads : Dict Text Workload
  pub controllers : Dict Text Bool

abbrev pub no_seeds : Seeds
no_seeds = record { workloads = []; controllers = [] }

-- `seed` and `seedJobLike`: a fresh workload under its key.
unfoldable pub seeded : Workload → Seeds → Seeds
unfolding key
seeded w s = record {
  workloads = put (key w.kind w.namespace w.name) w s.workloads;
  controllers = put (key w.kind w.namespace w.name) true s.controllers;
}

abbrev desired_of : Option ℕ → ℕ
desired_of none = 1
desired_of (some n) = n

abbrev scaled_seed : Text → Scaled → Workload
scaled_seed kind d = record (plain kind d.namespace d.name) {
  desired = desired_of d.replicas;
  ready = d.ready_replicas;
}

abbrev daemon_seed : DaemonSet → Workload
daemon_seed d = record (plain (codes "DaemonSet") d.namespace d.name) {
  desired = d.desired_number;
  ready = d.number_ready;
}

abbrev cron_seed : CronJob → Workload
cron_seed c = record (plain (codes "CronJob") c.namespace c.name) {
  status = cron_job_status c;
  schedule = c.schedule;
}

abbrev job_seed : Job → Workload
job_seed j = record (plain (codes "Job") j.namespace j.name) {
  status = job_status_from j.active j.conditions;
}

abbrev is_cron_job : Option OwnerReference → Bool
is_cron_job none = false
is_cron_job (some o) = text_eq o.kind (codes "CronJob")

-- The Jobs that no CronJob owns.
unfoldable own_jobs : List Job → List Job
unfolding controller_owner
own_jobs [] = []
own_jobs (j ∷ js) =
    let rest = own_jobs js in if is_cron_job (controller_owner j.owners) then rest else j ∷ rest

-- The workloads that the controllers seed, in the order of the loops.
unfoldable pub seeds_of : Inputs → List Workload
unfolding own_jobs cron_job_status job_status_from
seeds_of i =
    map (scaled_seed (codes "Deployment")) i.deployments
    ++ (map (scaled_seed (codes "StatefulSet")) i.stateful_sets
        ++ (map daemon_seed i.daemon_sets
            ++ (map cron_seed i.cron_jobs ++ map job_seed (own_jobs i.jobs))))

unfoldable pub seed_all : Seeds → List Workload → Seeds
unfolding seeded
seed_all s [] = s
seed_all s (w ∷ ws) = seed_all (seeded w s) ws
