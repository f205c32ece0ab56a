-- ===== src/Rolloutwait/Poll.antt =====
-- `Wait` and `observe`, over a clock and an API server that are given.
use kubeagent.Prelude.{
  ℕ, zero, suc, Bool, not, ◌&&◌, ◌∷◌, ◌++◌, Option, none, some, Text, codes, text_eq, if◌then◌else◌,
}
use kubeagent.Prelude.Int.{ℤ, pos, pos_part, ltb_ℤ, leb_ℤ, equal_ℤ, ◌+ℤ◌}
use kubeagent.Prelude.Atoi.{itoa}
use kubeagent.Prelude.Reply.{Reply, got, failed}
use kubeagent.Rolloutwait.Target.{Kind, deployment, stateful_set, daemon_set, other_kind, Target}

-- The fields that `observe` reads of each kind of workload.
pub record Deployment : Type 0 where
  pub generation : ℤ
  pub replicas : Option ℤ
  pub observed_generation : ℤ
  pub updated_replicas : ℤ
  pub status_replicas : ℤ
  pub available_replicas : ℤ

pub record StatefulSet : Type 0 where
  pub generation : ℤ
  pub replicas : Option ℤ
  pub observed_generation : ℤ
  pub updated_replicas : ℤ
  pub ready_replicas : ℤ
  pub current_revision : Text
  pub update_revision : Text

pub record DaemonSet : Type 0 where
  pub generation : ℤ
  pub observed_generation : ℤ
  pub updated_number_scheduled : ℤ
  pub desired_number_scheduled : ℤ
  pub number_available : ℤ

-- The clock, the context and the API server, with the printing of a duration and of a quoted text. A
-- read takes time, and so leaves another state.
pub record World : Type 1 where
  pub State : Type 0
  pub now : State → ℤ
  pub sleep : ℤ → State → State
  pub cancelled : State → Option Text
  pub get_deployment : Text → Text → State → Reply Deployment × State
  pub get_stateful_set : Text → Text → State → Reply StatefulSet × State
  pub get_daemon_set : Text → Text → State → Reply DaemonSet × State
  pub show_duration : ℤ → Text
  pub quote : Text → Text

pub record Result : Type 0 where
  pub settled : Bool
  pub detail : Text

abbrev pub wanted : Option ℤ → ℤ
wanted none = pos 1
wanted (some n) = n

unfoldable pub detail_of : ℤ → ℤ → ℤ → Text → Text
unfolding itoa
detail_of updated want live word =
    itoa updated ++ (b'/' ∷ (itoa want ++ (codes " updated, " ++ (itoa live ++ word))))

unfoldable pub of_deployment : Deployment → Result
unfolding detail_of
of_deployment d = record {
  settled =
      leb_ℤ d.generation d.observed_generation
      && equal_ℤ d.updated_replicas (wanted d.replicas)
      && equal_ℤ d.status_replicas d.updated_replicas
      && equal_ℤ d.available_replicas d.updated_replicas;
  detail =
      detail_of d.updated_replicas (wanted d.replicas) d.available_replicas (codes " available");
}

unfoldable pub of_stateful_set : StatefulSet → Result
unfolding detail_of text_eq
of_stateful_set s = record {
  settled =
      leb_ℤ s.generation s.observed_generation
      && equal_ℤ s.updated_replicas (wanted s.replicas)
      && equal_ℤ s.ready_replicas (wanted s.replicas)
      && text_eq s.current_revision s.update_revision;
  detail = detail_of s.updated_replicas (wanted s.replicas) s.ready_replicas (codes " ready");
}

unfoldable pub of_daemon_set : DaemonSet → Result
unfolding detail_of
of_daemon_set s = record {
  settled =
      leb_ℤ s.generation s.observed_generation
      && equal_ℤ s.updated_number_scheduled s.desired_number_scheduled
      && equal_ℤ s.number_available s.desired_number_scheduled;
  detail =
      detail_of s.updated_number_scheduled s.desired_number_scheduled s.number_available
        (codes " available");
}

abbrev pub on_got : {A B : Type 0} → (A → B) → Reply A → Reply B
on_got f (got a) = got (f a)
on_got f (failed e) = failed e

-- A poll goes on until the deadline: no result, or the outcome with the number of polls.
abbrev pub Ended : Type 0
Ended = Option (Reply Result × ℕ)

-- One more poll was made before.
abbrev pub one_more : Ended → Ended
one_more none = none
one_more (some (r, n)) = some (r, suc n)

-- After the read: the last poll if it failed, settled or came at the deadline or later.
abbrev pub after_poll : Reply Result → Bool → Ended → Ended
after_poll (failed e) before later = some (failed e, 1)
after_poll (got r) before later =
    if r.settled then some (got r, 1) else if not before then some (got r, 1) else one_more later

abbrev pub unless_cancelled : Option Text → Ended → Ended
unless_cancelled (some e) polled = some (failed e, 0)
unless_cancelled none polled = polled

module _ (world : World) where
  unfoldable pub observe_kind : Kind → Target → world.State → Reply Result × world.State
  unfolding of_deployment of_stateful_set of_daemon_set
  observe_kind deployment t w =
      let (r, w') = world.get_deployment t.namespace t.name w in (on_got of_deployment r, w')
  observe_kind stateful_set t w =
      let (r, w') = world.get_stateful_set t.namespace t.name w in (on_got of_stateful_set r, w')
  observe_kind daemon_set t w =
      let (r, w') = world.get_daemon_set t.namespace t.name w in (on_got of_daemon_set r, w')
  observe_kind (other_kind k) t w = (failed (codes "unsupported kind " ++ world.quote k), w)

  -- `observe`.
  unfoldable pub observe : Target → world.State → Reply Result × world.State
  unfolding observe_kind
  observe t w = observe_kind t.kind t w

  -- The loop of `Wait`, on fuel.
  unfoldable pub poll : ℕ → Target → ℤ → ℤ → world.State → Ended
  unfolding observe
  poll zero t deadline interval w = none
  poll (suc f) t deadline interval w =
      let (r, w') = observe t w in
      let later = poll f t deadline interval (world.sleep interval w') in
      unless_cancelled (world.cancelled w) (after_poll r (ltb_ℤ (world.now w') deadline) later)

  -- `Wait`.
  unfoldable pub wait : Target → ℤ → ℤ → world.State → Ended
  unfolding poll
  wait t timeout interval w =
      if leb_ℤ interval (pos 0)
      then some
          (failed (codes "poll interval must be positive, got " ++ world.show_duration interval), 0)
      else poll (suc (pos_part timeout)) t (world.now w +ℤ timeout) interval w
