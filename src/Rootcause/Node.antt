-- ===== src/Rootcause/Node.antt =====
-- rootcause.go: `Annotate`, `podNodes` and `podOn`.
use kubeagent.Prelude.{
  Bool, not, ◌&&◌, List, [], ◌∷◌, ◌++◌, Option, none, some, Text, codes, text_eq, text_lt, any, map,
  if◌then◌else◌,
}
use kubeagent.Prelude.Dict.{Dict, find, put, has, text_eq_inst}
use kubeagent.Prelude.Sort.{sort_by}
use kubeagent.Inventory.{Workload, PodRow, Verdict, flagged}
use kubeagent.Rootcause.{recorded, blamed, outranked_by}

-- `clusterhealth.DownNode`.
pub record DownNode : Type 0 where
  pub name : Text
  pub reason : Text

-- `names` and `reasonByNode`: the names in the order of their first mention, the last reason of each.
unfoldable pub noted : List (Text × Text) → List Text × Dict Text Text → List Text × Dict Text Text
noted [] (names, reasons) = (names, reasons)
noted ((name, reason) ∷ ds) (names, reasons) =
    noted ds ((if has name reasons then names else names ++ name ∷ []), put name reason reasons)

abbrev pub or_empty : Option Text → Text
or_empty none = []
or_empty (some t) = t

-- `podNodes`, as a test.
unfoldable pub is_on : Workload → Text → Bool
is_on w name = any (λ (p : PodRow). not (text_eq p.node []) && text_eq p.node name) w.pods

-- `podOn`.
unfoldable pub pod_on : Text → List PodRow → Text
pod_on node [] = []
pod_on node (p ∷ ps) = let rest = pod_on node ps in if text_eq p.node node then p.name else rest

abbrev pub node_cause : Dict Text Text → Text → Text
node_cause reasons name =
    codes "node " ++ (name ++ (codes " (" ++ (or_empty (find name reasons) ++ codes ")")))

-- The switch on one candidate.
unfoldable pub on_candidate : Dict Text Text → Text → Workload → Workload
unfolding is_on pod_on recorded blamed outranked_by
on_candidate reasons name w =
    let cause = node_cause reasons name in
    if not (is_on w name)
    then recorded cause (codes "node") name Verdict.ruled_out
        (codes "no pod of this workload is scheduled on it") w
    else if text_eq w.root_cause []
    then blamed cause (codes "node") name
        (codes "pod " ++ (pod_on name w.pods ++ codes " is scheduled on it")) w
    else outranked_by cause (codes "node") name w

unfoldable pub on_candidates : Dict Text Text → List Text → Workload → Workload
unfolding on_candidate
on_candidates reasons [] w = w
on_candidates reasons (n ∷ ns) w = on_candidates reasons ns (on_candidate reasons n w)

abbrev node_pair : DownNode → Text × Text
node_pair d = (d.name, d.reason)

abbrev pub node_names : List DownNode → List Text × Dict Text Text
node_names down = noted (map node_pair down) ([], [])

-- `Annotate`.
unfoldable pub annotate : List DownNode → List Workload → List Workload
unfolding noted on_candidates sort_by
annotate [] ws = ws
annotate (d ∷ ds) ws =
    let names = sort_by text_lt (node_names (d ∷ ds)).0 in
    map (λ w. if flagged w then on_candidates (node_names (d ∷ ds)).1 names w else w) ws
