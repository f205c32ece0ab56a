-- ===== src/Inventory/Tests.antt =====
-- A Deployment with a crashing pod, a CronJob with four pods and a bare pod.
use kubeagent.Prelude.{
  ◌≡◌, refl, true, false, List, [], ◌∷◌, none, some, Text, codes, text_eq, text_lt, map, All,
  count_if, length, ◌+◌,
}
use kubeagent.Prelude.Decimal.{decimal}
use kubeagent.Inventory.{Detection, Workload, OwnerReference, ContainerStatus, Pod, Inputs, Runtime}
use kubeagent.Inventory.Assemble.{assemble}
use kubeagent.Inventory.Prioritize.{prioritize}
use kubeagent.Prelude.Dict.{contains, find, put, has}
use kubeagent.Inventory.Owners.{full_name}
use kubeagent.Inventory.Names.{Distinct}
use kubeagent.Inventory.Grown.{owner_key}
use kubeagent.Inventory.Seeded.{key_of}
use kubeagent.Inventory.Grouping.{IsGrouped}
use kubeagent.Inventory.Complete.{assemble-IsGrouped}
use kubeagent.Inventory.Once.{total, Shows, assemble-once}
use kubeagent.Inventory.Census.{IsPrioritized, prioritize-IsPrioritized}

abbrev plain_text : Runtime
plain_text = record {
  rfc3339 = decimal;
  parse_rfc3339 = λ s. none;
  runes = λ s. s;
  from_runes = λ s. s;
  unicode = record {
    is_control = λ r. false;
    is_format = λ r. false;
    is_mark = λ r. false;
    is_space = λ r. false;
  };
}

abbrev running : ContainerStatus
running = record {
  restart_count = 0;
  ready = true;
  waiting = none;
  terminated = none;
  last_terminated = none;
}

abbrev crashing : ContainerStatus
crashing = record running {
  restart_count = 7;
  ready = false;
  waiting = some (codes "CrashLoopBackOff");
}

abbrev owned : Text → Text → OwnerReference
owned kind name = record { kind = kind; name = name; controller = some true }

abbrev pod : Text → List OwnerReference → ContainerStatus → Pod
pod name owners c = record {
  namespace = codes "shop";
  name = name;
  owners = owners;
  phase = codes "Running";
  deleting = false;
  init_statuses = [];
  statuses = c ∷ [];
  images = codes "web:v2" ∷ [];
  node = codes "n1";
  ip = [];
  created = 100;
}

abbrev crashing_pod : Pod
crashing_pod = pod (codes "web-b") (owned (codes "ReplicaSet") (codes "web-5d") ∷ []) crashing

abbrev nightly_pod : Text → Pod
nightly_pod name = pod name (owned (codes "Job") (codes "nightly-1") ∷ []) running

abbrev shop : Inputs
shop = record {
  pods =
      crashing_pod
      ∷ pod (codes "web-a") (owned (codes "ReplicaSet") (codes "web-5d") ∷ []) running
      ∷ nightly_pod (codes "n-1")
      ∷ nightly_pod (codes "n-2")
      ∷ nightly_pod (codes "n-3")
      ∷ nightly_pod (codes "n-4")
      ∷ pod (codes "debug") [] running
      ∷ [];
  deployments =
      record { namespace = codes "shop"; name = codes "web"; replicas = some 2; ready_replicas = 1 }
      ∷ [];
  replica_sets =
      record {
        namespace = codes "shop";
        name = codes "web-5d";
        owners = owned (codes "Deployment") (codes "web") ∷ [];
      }
      ∷ [];
  stateful_sets = [];
  daemon_sets = [];
  jobs =
      record {
        namespace = codes "shop";
        name = codes "nightly-1";
        owners = owned (codes "CronJob") (codes "nightly") ∷ [];
        conditions = [];
        active = 1;
      }
      ∷ [];
  cron_jobs =
      record {
        namespace = codes "shop";
        name = codes "nightly";
        active = 1;
        schedule = codes "@daily";
      }
      ∷ [];
}

abbrev crash_loop : Detection
crash_loop = record {
  pod = codes "shop/web-b";
  issue = codes "CrashLoopBackOff";
  reason = [];
  evidence = [];
  image = [];
}

abbrev seen : List Workload
seen = assemble plain_text 90000 shop (crash_loop ∷ [])

runs :
    (map (λ (w : Workload). w.name) seen ≡ codes "web" ∷ codes "debug" ∷ codes "nightly" ∷ [])
    × ((map (λ (w : Workload). w.restarts) seen ≡ 7 ∷ 0 ∷ 0 ∷ [])
        × ((map (λ (w : Workload). length w.pods) seen ≡ 2 ∷ 1 ∷ 3 ∷ [])
            × (map (λ (w : Workload). w.status) seen
                ≡ codes "Degraded" ∷ codes "Running" ∷ codes "Active(1)" ∷ [])))
unfolding assemble text_eq find put has text_lt
runs = (refl, (refl, (refl, refl)))

shop-Distinct : Distinct shop.pods
unfolding contains text_eq full_name
shop-Distinct = (refl, (refl, (refl, (refl, (refl, (refl, (refl, tt)))))))

assemble-IsGrouped_example :
    All
      (IsGrouped plain_text 90000 shop (crash_loop ∷ []))
      (assemble plain_text 90000 shop (crash_loop ∷ []))
assemble-IsGrouped_example =
    assemble-IsGrouped plain_text 90000 shop shop-Distinct (crash_loop ∷ [])

assemble-once_example :
    let ws = assemble plain_text 90000 shop (crash_loop ∷ []) in
    (total (λ w. length w.pods + w.pods_omitted) ws ≡ length shop.pods)
    × All
        (λ p.
          (count_if (λ w. text_eq (key_of w) (owner_key shop p)) ws ≡ 1)
          × All (Shows plain_text 90000 shop p) ws)
        shop.pods
assemble-once_example = assemble-once plain_text 90000 shop (crash_loop ∷ []) shop-Distinct

prioritize-IsPrioritized_example :
    IsPrioritized
      (record { include_restarts = true; include_cron = false })
      seen
      (prioritize seen (record { include_restarts = true; include_cron = false }))
prioritize-IsPrioritized_example =
    prioritize-IsPrioritized seen (record { include_restarts = true; include_cron = false })
