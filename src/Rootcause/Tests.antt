-- ===== src/Rootcause/Tests.antt =====
-- Four failing workloads: one on a node that is down, two that pull from the same host, one alone.
use kubeagent.Prelude.{
  ◌≡◌, refl, false, List, [], ◌∷◌, none, Text, codes, text_eq, text_lt, keep, map, All,
}
use kubeagent.Prelude.Decimal.{decimal}
use kubeagent.Prelude.Dict.{Dict, find, put, has}
use kubeagent.Safetext.{line}
use kubeagent.Findings.Sources.{PvcIssue}
use kubeagent.Inventory.{Workload, PodRow, Runtime, plain, flagged}
use kubeagent.Rootcause.Node.{DownNode, annotate}
use kubeagent.Rootcause.Claim.{annotate_pvc}
use kubeagent.Rootcause.Registry.{annotate_registry}
use kubeagent.Rootcause.Explained.{IsExplained}
use kubeagent.Rootcause.Judged.{verdict_on, annotate_registry-judges}
use kubeagent.Rootcause.Precedence.{AllStay, attribution-IsOrdered}

abbrev plain_text : Runtime
plain_text = record {
  rfc3339 = decimal;
  parse_rfc3339 = λ s. none;
  runes = λ s. s;
  from_runes = λ s. s;
  unicode = record {
    is_control = λ r. false;
    is_format = λ r. false;
    is_mark = λ r. false;
    is_space = λ r. false;
  };
}

abbrev row : Text → Text → PodRow
row name node = record {
  name = name;
  phase = [];
  state = [];
  ready = [];
  restarts = 0;
  last_restart = [];
  node = node;
  ip = [];
  age = [];
  image = [];
}

abbrev pulling : Text → Text → Text → Workload
pulling name node image = record (plain (codes "Deployment") (codes "shop") name) {
  pods = row name node ∷ [];
  findings =
      record { pod = []; issue = codes "ErrImagePull"; reason = []; evidence = []; image = image }
      ∷ [];
}

abbrev failing : List Workload
failing =
    pulling (codes "a") (codes "n1") (codes "ghcr.io/a:1")
    ∷ pulling (codes "b") (codes "n2") (codes "ghcr.io/b:1")
    ∷ pulling (codes "c") (codes "n2") (codes "ghcr.io/c:1")
    ∷ pulling (codes "d") (codes "n2") (codes "nginx")
    ∷ []

abbrev down : List DownNode
down = record { name = codes "n1"; reason = codes "NotReady" } ∷ []

abbrev broken_claim : PvcIssue
broken_claim = record {
  namespace = codes "shop";
  name = codes "data";
  reason = codes "Pending";
  detail = [];
}

abbrev mounts : Dict Text (List Text)
mounts = (codes "shop/d", codes "data" ∷ []) ∷ []

runs :
    map
      (λ (w : Workload). w.root_cause)
      (annotate_registry plain_text
        (annotate_pvc mounts (broken_claim ∷ []) (annotate down failing)))
    ≡ codes "node n1 (NotReady)"
      ∷ codes "registry ghcr.io (2 workloads failing to pull)"
      ∷ codes "registry ghcr.io (2 workloads failing to pull)"
      ∷ codes "PVC data (Pending)"
      ∷ []
unfolding annotate_registry annotate_pvc annotate find put has text_eq text_lt flagged line
runs = refl

annotate_registry-judges_example :
    annotate_registry plain_text failing ≡ map (verdict_on plain_text failing) failing
annotate_registry-judges_example = annotate_registry-judges plain_text failing

failing-IsExplained : All IsExplained failing
unfolding text_eq keep
failing-IsExplained = (refl, (refl, (refl, (refl, tt))))

attribution-IsOrdered_example :
    All IsExplained (
      annotate_registry plain_text
        (annotate_pvc mounts (broken_claim ∷ []) (annotate down failing)))
    × (AllStay (annotate down failing) (
          annotate_registry plain_text
            (annotate_pvc mounts (broken_claim ∷ []) (annotate down failing)))
        × AllStay (annotate_pvc mounts (broken_claim ∷ []) (annotate down failing)) (
            annotate_registry plain_text
              (annotate_pvc mounts (broken_claim ∷ []) (annotate down failing))))
attribution-IsOrdered_example =
    attribution-IsOrdered plain_text down mounts (broken_claim ∷ []) failing failing-IsExplained
