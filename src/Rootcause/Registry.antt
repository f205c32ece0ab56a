-- ===== src/Rootcause/Registry.antt =====
-- rootcause.go: `AnnotateRegistry`, `pullImage` and `registryHost`.
use kubeagent.Prelude.{
  ℕ, zero, suc, not, ◌&&◌, ◌||◌, List, [], ◌∷◌, ◌++◌, Option, none, some, Text, codes, text_eq,
  text_lt, any, map, length, eqb, ltb, if◌then◌else◌,
}
use kubeagent.Prelude.Decimal.{decimal}
use kubeagent.Prelude.Dict.{Dict, find, put, text_eq_inst}
use kubeagent.Prelude.Sort.{sort_by}
use kubeagent.Findings.Flatten.{cut_slash}
use kubeagent.Inventory.{Workload, Detection, Verdict, Runtime, flagged}
use kubeagent.Inventory.Pods.{safe_line}
use kubeagent.Rootcause.{recorded, blamed, outranked_by}

-- `pullImage`.
unfoldable pub pull_image : List Detection → Option Text
pull_image [] = none
pull_image (f ∷ fs) =
    let rest = pull_image fs in
    if text_eq f.issue (codes "ImagePullBackOff") || text_eq f.issue (codes "ErrImagePull")
    then some f.image
    else rest

abbrev host_of_cut : Option (Text × Text) → Text
host_of_cut none = codes "docker.io"
host_of_cut (some (seg, rest)) =
    if not (any (λ c. eqb c b'.' || eqb c b':') seg) && not (text_eq seg (codes "localhost"))
    then codes "docker.io"
    else seg

-- `registryHost`.
unfoldable pub registry_host : Text → Text
unfolding cut_slash
registry_host image = host_of_cut (cut_slash image)

abbrev pub appended : Option (List ℕ) → ℕ → List ℕ
appended none i = i ∷ []
appended (some l) i = l ++ i ∷ []

-- The host whose group a workload joins.
abbrev pub joins_by : Workload → Option Text → Option Text
joins_by w none = none
joins_by w (some img) =
    if text_eq img [] || not (text_eq w.root_cause []) then none else some (registry_host img)

unfoldable pub joins : Workload → Option Text
unfolding pull_image registry_host
joins w = if flagged w then joins_by w (pull_image w.findings) else none

abbrev pub joined : Option Text → ℕ → Dict Text (List ℕ) → Dict Text (List ℕ)
joined none i m = m
joined (some host) i m = put host (appended (find host m) i) m

-- `groups`, after the first loop, from an index on.
unfoldable pub groups : ℕ → List Workload → Dict Text (List ℕ) → Dict Text (List ℕ)
unfolding joins
groups i [] m = m
groups i (w ∷ ws) m = groups (suc i) ws (joined (joins w) i m)

unfoldable pub update_at : ℕ → (Workload → Workload) → List Workload → List Workload
update_at i f [] = []
update_at zero f (w ∷ ws) = f w ∷ ws
update_at (suc i) f (w ∷ ws) = w ∷ update_at i f ws

unfoldable pub update_each : List ℕ → (Workload → Workload) → List Workload → List Workload
unfolding update_at
update_each [] f ws = ws
update_each (i ∷ is) f ws = update_each is f (update_at i f ws)

abbrev pub members_of : Option (List ℕ) → List ℕ
members_of none = []
members_of (some l) = l

abbrev pub hosts_of : Dict Text (List ℕ) → List Text
hosts_of m = map (λ (x : Text × List ℕ). x.0) m

module _ (go : Runtime) where
  abbrev pub registry_text : Text → Text
  registry_text host = codes "registry " ++ safe_line go host

  -- The body of the first loop, for a flagged workload and the image that it fails to pull.
  unfoldable pub sorted_out : Workload → Text → Workload
  unfolding registry_host recorded outranked_by
  sorted_out w img =
      if text_eq img []
      then recorded (codes "registry unknown") (codes "registry") [] Verdict.ruled_out
          (codes "image reference undeterminable") w
      else if text_eq w.root_cause []
      then w
      else outranked_by (registry_text (registry_host img)) (codes "registry") (registry_host img) w

  abbrev pub first_seen : Workload → Option Text → Workload
  first_seen w none = w
  first_seen w (some img) = sorted_out w img

  unfoldable pub first_pass : Workload → Workload
  unfolding pull_image sorted_out
  first_pass w = if flagged w then first_seen w (pull_image w.findings) else w

  -- What the second loop does to a workload of a group of this size.
  unfoldable pub second_pass : Text → ℕ → Workload → Workload
  unfolding recorded blamed decimal
  second_pass host n w =
      if ltb n 2
      then recorded (registry_text host) (codes "registry") host Verdict.ruled_out
          (codes "only workload failing to pull from this host; threshold is 2") w
      else blamed
          (registry_text host ++ (codes " (" ++ (decimal n ++ codes " workloads failing to pull)")))
          (codes "registry") host
          (decimal n ++ codes " workloads failing to pull from this host clear the threshold of 2")
          w

  -- The second loop, over the sorted hosts.
  unfoldable pub judge_hosts : Dict Text (List ℕ) → List Text → List Workload → List Workload
  unfolding update_each second_pass
  judge_hosts m [] ws = ws
  judge_hosts m (h ∷ hs) ws =
      let members = members_of (find h m) in
      judge_hosts m hs (update_each members (second_pass h (length members)) ws)

  -- `AnnotateRegistry`.
  unfoldable pub annotate_registry : List Workload → List Workload
  unfolding first_pass groups judge_hosts sort_by
  annotate_registry ws =
      let m = groups 0 ws [] in judge_hosts m (sort_by text_lt (hosts_of m)) (map first_pass ws)
