-- ===== src/Inventory/Pods.antt =====
-- inventory.go: what a pod adds to its workload, from `controllerOwner` to `terminalPodStatus`.
use kubeagent.Prelude.{
  ℕ, ◌+◌, ◌-◌, ◌/◌, Bool, true, false, not, ◌&&◌, ◌||◌, List, [], ◌∷◌, ◌++◌, Option, none, some,
  Text, codes, text_eq, ltb, leb, eqb, length, if◌then◌else◌,
}
use kubeagent.Prelude.Decimal.{decimal}
use kubeagent.Prelude.Int.{pos, equal_ℤ}
use kubeagent.Safetext.{line}
use kubeagent.Inventory.{PodRow, OwnerReference, Terminated, ContainerStatus, Pod, Runtime}

abbrev is_controller : Option Bool → Bool
is_controller none = false
is_controller (some b) = b

unfoldable first_controller : List OwnerReference → Option OwnerReference
first_controller [] = none
first_controller (o ∷ os) =
    let rest = first_controller os in if is_controller o.controller then some o else rest

abbrev first_owner : List OwnerReference → Option OwnerReference
first_owner [] = none
first_owner (o ∷ os) = some o

abbrev or_else : {A : Type 0} → Option A → Option A → Option A
or_else none d = d
or_else (some a) d = some a

-- `controllerOwner`.
unfoldable pub controller_owner : List OwnerReference → Option OwnerReference
unfolding first_controller
controller_owner refs = or_else (first_controller refs) (first_owner refs)

abbrev later : ℕ → Option Terminated → ℕ
later last none = last
later last (some t) = if eqb last 0 || ltb last t.finished_at then t.finished_at else last

-- `podRestarts`: the sum of the restarts, and the latest end of a container.
unfoldable restarts_from : ℕ → ℕ → List ContainerStatus → ℕ × ℕ
restarts_from total last [] = (total, last)
restarts_from total last (c ∷ cs) =
    restarts_from (total + c.restart_count) (later last c.last_terminated) cs

unfoldable pub pod_restarts : Pod → ℕ × ℕ
unfolding restarts_from
pod_restarts p = restarts_from 0 0 p.statuses

unfoldable count_ready : List ContainerStatus → ℕ
count_ready [] = 0
count_ready (c ∷ cs) = (if c.ready then 1 else 0) + count_ready cs

-- `podReady`.
unfoldable pub pod_ready : Pod → Text
unfolding count_ready decimal
pod_ready p = decimal (count_ready p.statuses) ++ (codes "/" ++ decimal (length p.images))

unfoldable all_ready : List ContainerStatus → Bool
all_ready [] = true
all_ready (c ∷ cs) = c.ready && all_ready cs

-- `podIsReady`.
unfoldable pub pod_is_ready : Pod → Bool
unfolding all_ready
pod_is_ready p = not (eqb (length p.statuses) 0) && all_ready p.statuses

abbrev first_image : List Text → Text
first_image [] = []
first_image (i ∷ is) = i

-- `podImage`.
unfoldable pub pod_image : Pod → Text
pod_image p = first_image p.images

abbrev terminated_reason : Bool → Option Terminated → Text
terminated_reason is_init none = []
terminated_reason is_init (some t) = if is_init && equal_ℤ t.exit_code (pos 0) then [] else t.reason

abbrev reason_of : Bool → Option Text → Option Terminated → Text
reason_of is_init (some w) t = w
reason_of is_init none t = terminated_reason is_init t

-- `containerReason`.
unfoldable pub container_reason : ContainerStatus → Bool → Text
container_reason c is_init = reason_of is_init c.waiting c.terminated

-- The longest duration, in seconds.
abbrev longest : ℕ
longest = 9223372036

-- `HumanAge`; `now.Sub` is capped at the longest duration, and an age below zero reads as zero.
unfoldable pub human_age : ℕ → ℕ → Text
unfolding decimal
human_age t now =
    let d = if ltb longest (now - t) then longest else now - t in
    if leb 86400 d
    then decimal (d / 3600 / 24) ++ codes "d"
    else if leb 3600 d
    then decimal (d / 3600) ++ codes "h"
    else if leb 60 d
    then decimal (d / 60) ++ codes "m"
    else decimal d ++ codes "s"

-- `WorkloadStatus`.
unfoldable pub workload_status : ℕ → ℕ → Text
workload_status ready desired =
    if eqb desired 0
    then codes "Scaled Down"
    else if leb desired ready
    then codes "Running"
    else codes "Degraded"

-- The loop of `terminalPodStatus`.
unfoldable finished_status : Bool → List PodRow → Text
finished_status any_failed [] = if any_failed then codes "Failed" else codes "Complete"
finished_status any_failed (p ∷ ps) =
    let ok = finished_status any_failed ps in
    let bad = finished_status true ps in
    if text_eq p.phase (codes "Succeeded")
    then ok
    else if text_eq p.phase (codes "Failed")
    then bad
    else []

-- `terminalPodStatus`.
unfoldable pub terminal_pod_status : List PodRow → Text
unfolding finished_status
terminal_pod_status [] = []
terminal_pod_status (p ∷ ps) = finished_status false (p ∷ ps)

module _ (go : Runtime) where
  -- `termTime`.
  unfoldable pub term_time : ℕ → Text
  term_time t = if eqb t 0 then [] else go.rfc3339 t

  abbrev ago : ℕ → Option ℕ → Text
  ago now none = []
  ago now (some t) = human_age t now ++ codes " ago"

  -- `HumanSince`.
  unfoldable pub human_since : Text → ℕ → Text
  unfolding human_age
  human_since text now = if text_eq text [] then [] else ago now (go.parse_rfc3339 text)

  -- `safetext.Line` on a text.
  abbrev pub safe_line : Text → Text
  safe_line s = go.from_runes (line go.unicode (go.runes s))

  unfoldable first_reason : Bool → List ContainerStatus → Text
  unfolding container_reason
  first_reason is_init [] = []
  first_reason is_init (c ∷ cs) =
      let r = safe_line (container_reason c is_init) in
      let rest = first_reason is_init cs in if text_eq r [] then rest else r

  -- `podState`.
  unfoldable pub pod_state : Pod → Text
  unfolding first_reason
  pod_state p =
      let init = first_reason true p.init_statuses in
      let main = first_reason false p.statuses in
      if p.deleting
      then codes "Terminating"
      else if not (text_eq init [])
      then codes "Init:" ++ init
      else if not (text_eq main [])
      then main
      else p.phase

  -- `PodRowFor`.
  unfoldable pub pod_row_for : ℕ → Pod → PodRow
  unfolding pod_restarts pod_state pod_ready term_time human_age pod_image
  pod_row_for now p = record {
    name = p.name;
    phase = p.phase;
    state = pod_state p;
    ready = pod_ready p;
    restarts = (pod_restarts p).0;
    last_restart = term_time (pod_restarts p).1;
    node = p.node;
    ip = p.ip;
    age = human_age p.created now;
    image = pod_image p;
  }
