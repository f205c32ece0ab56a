-- ===== src/Inventory/Assemble.antt =====
-- inventory.go: `Assemble`, from its loop over the pods to the sorted workloads.
use kubeagent.Prelude.{
  ℕ, ◌+◌, ◌-◌, Bool, not, ◌&&◌, ◌||◌, List, [], ◌∷◌, ◌++◌, Option, none, some, Text, codes, text_eq,
  text_lt, ltb, length, if◌then◌else◌, map, take,
}
use kubeagent.Prelude.Dict.{Dict, find, put, has, text_eq_inst}
use kubeagent.Prelude.Sort.{sort_by}
use kubeagent.Inventory.{Detection, Workload, plain, flagged, Pod, Inputs, Runtime}
use kubeagent.Inventory.Pods.{
  pod_restarts, pod_is_ready, pod_image, term_time, pod_row_for, workload_status,
  terminal_pod_status,
}
use kubeagent.Inventory.Owners.{Owner, full_name, pod_owners}
use kubeagent.Inventory.Seeds.{key, no_seeds, seeds_of, seed_all}

-- `jobPodCap`.
abbrev pub job_pod_cap : ℕ
job_pod_cap = 3

-- The maps of the loop over the pods.
pub record Groups : Type 0 where
  pub workloads : Dict Text Workload
  pub pod_key : Dict Text Text
  pub derived_ready : Dict Text ℕ

abbrev pub or_plain : Owner → Option Workload → Workload
or_plain o none = plain o.kind o.namespace o.name
or_plain o (some w) = w

abbrev pub or_zero : Option ℕ → ℕ
or_zero none = 0
or_zero (some n) = n

-- The zero value of a missing entry.
abbrev pub owner_or_zero : Option Owner → Owner
owner_or_zero none = record { kind = []; namespace = []; name = [] }
owner_or_zero (some o) = o

module _ (go : Runtime) (now : ℕ) where
  -- What a pod adds to its workload.
  unfoldable pub with_pod : Pod → Workload → Workload
  unfolding term_time pod_restarts pod_image pod_row_for
  with_pod p w =
      let lt = term_time go (pod_restarts p).1 in
      record w {
        restarts = w.restarts + (pod_restarts p).0;
        last_restart =
            (if not (text_eq lt []) && text_lt w.last_restart lt then lt else w.last_restart);
        image = (if text_eq w.image [] then pod_image p else w.image);
        pods = w.pods ++ pod_row_for go now p ∷ [];
      }

  -- The body of the loop over the pods, for the owner that was found.
  unfoldable pub add_pod : Pod → Owner → Groups → Groups
  unfolding key full_name with_pod pod_is_ready
  add_pod p found g =
      let o : Owner = record found { namespace = p.namespace } in
      let k = key o.kind o.namespace o.name in
      record {
        workloads = put k (with_pod p (or_plain o (find k g.workloads))) g.workloads;
        pod_key = put (full_name p.namespace p.name) k g.pod_key;
        derived_ready =
            (if pod_is_ready p
              then put k (or_zero (find k g.derived_ready) + 1) g.derived_ready
              else g.derived_ready);
      }

  unfoldable pub add_pods : Dict Text Owner → List Pod → Groups → Groups
  unfolding add_pod full_name
  add_pods owners [] g = g
  add_pods owners (p ∷ ps) g =
      add_pods owners ps (add_pod p (owner_or_zero (find (full_name p.namespace p.name) owners)) g)

-- The body of the loop over the findings.
abbrev pub attach_to : Detection → Text → Option Workload → Dict Text Workload → Dict Text Workload
attach_to f k none m = m
attach_to f k (some w) m = put k (record w { findings = w.findings ++ f ∷ [] }) m

unfoldable pub attach : Detection → Option Text → Dict Text Workload → Dict Text Workload
attach f none m = m
attach f (some k) m = attach_to f k (find k m) m

unfoldable pub attach_all :
    Dict Text Text → List Detection → Dict Text Workload → Dict Text Workload
unfolding attach
attach_all keys [] m = m
attach_all keys (f ∷ fs) m = attach_all keys fs (attach f (find f.pod keys) m)

-- The three steps of the last loop.
unfoldable pub counted_ready : Bool → ℕ → Workload → Workload
unfolding terminal_pod_status
counted_ready controlled ready w =
    let s = terminal_pod_status w.pods in
    if controlled
    then w
    else if text_eq s []
    then record w { desired = length w.pods; ready = ready }
    else record w { desired = 0; ready = 0; status = s }

abbrev pub is_job_like : Workload → Bool
is_job_like w = text_eq w.kind (codes "Job") || text_eq w.kind (codes "CronJob")

unfoldable pub capped : Workload → Workload
capped w =
    if is_job_like w && ltb job_pod_cap (length w.pods)
    then record w { pods_omitted = length w.pods - job_pod_cap; pods = take job_pod_cap w.pods }
    else w

unfoldable pub with_status : Workload → Workload
unfolding workload_status
with_status w =
    if text_eq w.status [] then record w { status = workload_status w.ready w.desired } else w

unfoldable pub finished : Dict Text Bool → Dict Text ℕ → Text × Workload → Workload
unfolding counted_ready capped with_status
finished controllers ready (k, w) =
    with_status (capped (counted_ready (has k controllers) (or_zero (find k ready)) w))

-- The less-function of `sortWorkloads`.
unfoldable pub less : Workload → Workload → Bool
unfolding flagged
less a b =
    if flagged a && not (flagged b) || flagged b && not (flagged a)
    then flagged a
    else if not (text_eq a.namespace b.namespace)
    then text_lt a.namespace b.namespace
    else if not (text_eq a.name b.name)
    then text_lt a.name b.name
    else text_lt a.kind b.kind

-- The maps after the three loops over the lists.
unfoldable pub grouped : Runtime → ℕ → Inputs → Groups
unfolding seed_all seeds_of add_pods pod_owners
grouped go now i = add_pods go now (pod_owners i) i.pods (record {
  workloads = (seed_all no_seeds (seeds_of i)).workloads;
  pod_key = [];
  derived_ready = [];
})

-- `Assemble`, read at one time.
unfoldable pub assemble : Runtime → ℕ → Inputs → List Detection → List Workload
unfolding grouped attach_all finished less sort_by seed_all seeds_of
assemble go now i findings =
    let g = grouped go now i in
    let controllers = (seed_all no_seeds (seeds_of i)).controllers in
    sort_by less
      (map (finished controllers g.derived_ready) (attach_all g.pod_key findings g.workloads))
