-- ===== src/Rootcause.antt =====
-- internal/rootcause/rootcause.go: the attribution of failing workloads to a node that is down, a broken
-- PersistentVolumeClaim or an image registry, over the workloads of internal/inventory.
pub mod Node
pub mod Claim
pub mod Registry
pub mod Explained
pub mod Indexed
pub mod Grouped
pub mod Judged
pub mod Kept
pub mod Precedence
mod Tests
use kubeagent.Prelude.{Bool, true, false, not, ◌&&◌, List, [], ◌∷◌, ◌++◌, Text, codes, text_eq}
use kubeagent.Inventory.{Workload, Hypothesis, Verdict}

-- `record`: one more candidate in the trace.
unfoldable pub recorded : Text → Text → Text → Verdict → Text → Workload → Workload
recorded cause kind object verdict reason w = record w {
  root_cause_trace =
      w.root_cause_trace
      ++ record { cause = cause; kind = kind; verdict = verdict; reason = reason; object = object }
        ∷ [];
}

-- The candidate becomes the cause.
unfoldable pub blamed : Text → Text → Text → Text → Workload → Workload
unfolding recorded
blamed cause kind object reason w =
    recorded cause kind object Verdict.attributed reason (record w { root_cause = cause })

unfoldable pub outranked_by : Text → Text → Text → Workload → Workload
unfolding recorded
outranked_by cause kind object w =
    recorded cause kind object Verdict.outranked (w.root_cause ++ codes " is the stronger cause") w
