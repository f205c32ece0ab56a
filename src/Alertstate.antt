-- ===== src/Alertstate.antt =====
-- internal/alertstate/alertstate.go: the roll-up of issue records to one alert per object. Instants
-- are nanoseconds; the map of open alerts is an association list.
pub mod Roll
pub mod Lifecycle
pub mod Since
mod Tests
use kubeagent.Prelude.{
  ℕ, zero, suc, ◌*◌, ◌≡◌, refl, ◌↔◌, Bool, true, false, ◌&&◌, Text, codes, List, [], ◌∷◌, ◌++◌,
  text_eq, text_eq_iff, if◌then◌else◌, arith,
}
use kubeagent.Prelude.Dict.{Keyed, Dict}
use kubeagent.Prelude.Int.{ℤ, pos, negsuc}

pub record Object : Type 0 where
  pub cluster : Text
  pub kind : Text
  pub namespace : Text
  pub name : Text

-- `Object.String`.
unfoldable pub object_string : Object → Text
object_string o =
    if text_eq o.namespace []
    then o.cluster ++ (codes "/" ++ (o.kind ++ (codes "/" ++ o.name)))
    else o.cluster
      ++ (codes "/" ++ (o.kind ++ (codes "/" ++ (o.namespace ++ (codes "/" ++ o.name)))))

unfoldable pub object_eq : Object → Object → Bool
object_eq a b =
    text_eq a.cluster b.cluster
    && text_eq a.kind b.kind
    && text_eq a.namespace b.namespace
    && text_eq a.name b.name

pub object_eq_iff : (a b : Object) → (object_eq a b ≡ true) ↔ (a ≡ b)
unfolding object_eq
object_eq_iff a b = ground (
  arith,
  text_eq_iff a.cluster b.cluster,
  text_eq_iff a.kind b.kind,
  text_eq_iff a.namespace b.namespace,
  text_eq_iff a.name b.name,
)

instance abbrev pub eq_object : Keyed Object
eq_object = record { same = object_eq; same_iff = object_eq_iff }

pub data Status : Type 0 where
  firing resolved : Status

-- `ReasonExplanation` is written by internal/oncall alone.
pub data Reason : Type 0 where
  new changed repeat resolved explanation : Reason

pub record Notification : Type 0 where
  pub object : Object
  pub status : Status
  pub issues : List Text
  pub firing_since : ℕ
  pub resolved_at : ℕ
  pub flapping : Bool
  pub reason : Reason
  pub text : Text

pub record OpenAlert : Type 0 where
  pub firing_since : ℕ
  pub issues : List Text
  pub last_sent : ℕ

pub record Roller : Type 0 where
  pub repeat_after : ℕ
  pub cluster : Text
  pub open_alerts : Dict Object OpenAlert

-- `New`: four hours between repeats, unless a positive time is asked for.
unfoldable pub new_roller : ℤ → Text → Roller
new_roller (pos (suc n)) cluster = record {
  repeat_after = suc n;
  cluster = cluster;
  open_alerts = [];
}
new_roller _ cluster = record {
  repeat_after = 14_400_000_000_000;
  cluster = cluster;
  open_alerts = [];
}

-- `group`: one object's share of the active records.
pub record Group : Type 0 where
  pub issues : List Text
  pub firing_since : ℕ
  pub flapping : Bool
