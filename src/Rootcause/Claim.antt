-- ===== src/Rootcause/Claim.antt =====
-- rootcause.go: `AnnotatePVC`.
use kubeagent.Prelude.{
  ◌||◌, List, [], ◌∷◌, ◌++◌, Option, none, some, Text, codes, text_eq, text_lt, map, length, eqb,
  if◌then◌else◌,
}
use kubeagent.Prelude.Dict.{Dict, find, put, has, text_eq_inst}
use kubeagent.Prelude.Sort.{sort_by}
use kubeagent.Gate.{has_prefix}
use kubeagent.Findings.Flatten.{cut_slash}
use kubeagent.Findings.Sources.{PvcIssue}
use kubeagent.Inventory.{Workload, PodRow, Verdict, flagged}
use kubeagent.Inventory.Owners.{full_name}
use kubeagent.Rootcause.{recorded, blamed, outranked_by}
use kubeagent.Rootcause.Node.{noted, or_empty}

abbrev pub or_none : Option (List Text) → List Text
or_none none = []
or_none (some l) = l

-- The first pod that mounts each claim of the namespace.
unfoldable mounting : Text → Text → List Text → Dict Text Text → Dict Text Text
unfolding full_name
mounting ns pod [] m = m
mounting ns pod (c ∷ cs) m =
    mounting ns pod cs (if has (full_name ns c) m then m else put (full_name ns c) pod m)

-- `mounted`.
unfoldable pub mounted_by :
    Dict Text (List Text) → Text → List PodRow → Dict Text Text → Dict Text Text
unfolding mounting full_name
mounted_by claims ns [] m = m
mounted_by claims ns (p ∷ ps) m =
    mounted_by claims ns ps (mounting ns p.name (or_none (find (full_name ns p.name) claims)) m)

abbrev rest_of_cut : Text → Option (Text × Text) → Text
rest_of_cut key none = key
rest_of_cut key (some (a, b)) = b

-- What follows the first slash, or the whole text.
unfoldable pub after_slash : Text → Text
unfolding cut_slash
after_slash key = rest_of_cut key (cut_slash key)

abbrev pub claim_cause : Dict Text Text → Text → Text
claim_cause reasons key =
    codes "PVC " ++ (after_slash key ++ (codes " (" ++ (or_empty (find key reasons) ++ codes ")")))

unfoldable pub on_claim : Dict Text Text → Text → Option Text → Workload → Workload
unfolding after_slash recorded blamed outranked_by
on_claim reasons key none w =
    recorded (claim_cause reasons key) (codes "pvc") (after_slash key) Verdict.ruled_out
      (codes "not mounted by this workload's pods") w
on_claim reasons key (some pod) w =
    if text_eq w.root_cause []
    then blamed (claim_cause reasons key) (codes "pvc") (after_slash key)
        (codes "pod " ++ (pod ++ codes " mounts it")) w
    else outranked_by (claim_cause reasons key) (codes "pvc") (after_slash key) w

-- The loop over the keys; a claim in another namespace is no candidate.
unfoldable pub on_claims : Dict Text Text → Dict Text Text → List Text → Workload → Workload
unfolding on_claim has_prefix
on_claims reasons mounted [] w = w
on_claims reasons mounted (k ∷ ks) w =
    on_claims reasons mounted ks
      (if has_prefix k (w.namespace ++ codes "/") then on_claim reasons k (find k mounted) w else w)

abbrev claim_pair : PvcIssue → Text × Text
claim_pair i = (full_name i.namespace i.name, i.reason)

abbrev pub claim_keys : List PvcIssue → List Text × Dict Text Text
claim_keys issues = noted (map claim_pair issues) ([], [])

-- `AnnotatePVC`.
unfoldable pub annotate_pvc : Dict Text (List Text) → List PvcIssue → List Workload → List Workload
unfolding noted on_claims mounted_by sort_by full_name
annotate_pvc claims issues ws =
    let keys = sort_by text_lt (claim_keys issues).0 in
    if eqb (length issues) 0 || eqb (length claims) 0
    then ws
    else map
        (λ w.
          if flagged w
          then on_claims (claim_keys issues).1 (mounted_by claims w.namespace w.pods []) keys w
          else w)
        ws
