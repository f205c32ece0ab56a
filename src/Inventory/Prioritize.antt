-- ===== src/Inventory/Prioritize.antt =====
-- inventory.go: `Prioritize`.
use kubeagent.Prelude.{
  ℕ, suc, Bool, not, List, [], ◌∷◌, ◌++◌, codes, text_eq, text_lt, ltb, eqb, if◌then◌else◌,
}
use kubeagent.Prelude.Sort.{sort_by}
use kubeagent.Inventory.{Workload, flagged}
use kubeagent.Inventory.Assemble.{is_job_like}

pub record Opts : Type 0 where
  pub include_restarts : Bool
  pub include_cron : Bool

pub record Census : Type 0 where
  pub good : ℕ
  pub total : ℕ

pub record Result : Type 0 where
  pub workloads : List Workload
  pub hidden_restarts : ℕ
  pub hidden_cron : ℕ
  pub census : Census

abbrev pub nothing : Result
nothing = record {
  workloads = [];
  hidden_restarts = 0;
  hidden_cron = 0;
  census = record { good = 0; total = 0 };
}

abbrev pub priority_problem : ℕ
priority_problem = 2

abbrev pub priority_restart : ℕ
priority_restart = 3

abbrev pub priority_cron : ℕ
priority_cron = 4

unfoldable pub counted : Workload → Census → Census
unfolding flagged
counted w c =
    if is_job_like w
    then c
    else if flagged w
    then record c { total = suc c.total }
    else record { good = suc c.good; total = suc c.total }

abbrev pub shown_at : ℕ → Workload → Result → Result
shown_at n w r = record r { workloads = r.workloads ++ record w { priority = n } ∷ [] }

-- The switch of the loop.
unfoldable pub placed : Opts → Workload → Result → Result
unfolding flagged
placed opts w r =
    if text_eq w.kind (codes "CronJob")
    then (if flagged w
        then shown_at priority_problem w r
        else if opts.include_cron
        then shown_at priority_cron w r
        else record r { hidden_cron = suc r.hidden_cron })
    else if flagged w
    then shown_at priority_problem w r
    else if ltb 0 w.restarts
    then (if opts.include_restarts
        then shown_at priority_restart w r
        else record r { hidden_restarts = suc r.hidden_restarts })
    else r

unfoldable pub place_all : Opts → Result → List Workload → Result
unfolding placed counted
place_all opts r [] = r
place_all opts r (w ∷ ws) =
    place_all opts (placed opts w (record r { census = counted w r.census })) ws

-- The less-function of the last sort.
unfoldable pub before : Workload → Workload → Bool
before a b =
    if not (eqb a.priority b.priority)
    then ltb a.priority b.priority
    else if not (text_eq a.namespace b.namespace)
    then text_lt a.namespace b.namespace
    else if not (text_eq a.name b.name)
    then text_lt a.name b.name
    else text_lt a.kind b.kind

-- `Prioritize`.
unfoldable pub prioritize : List Workload → Opts → Result
unfolding place_all before sort_by
prioritize ws opts =
    let r = place_all opts nothing ws in record r { workloads = sort_by before r.workloads }
