-- ===== src/Alertstate/Tests.antt =====
-- A roller over three cycles: an object breaks, changes its failure, and recovers.
use kubeagent.Prelude.{
  ◌≤◌, ◌≡◌, refl, true, false, [], ◌∷◌, some, map, any, All, codes, text_eq, text_lt,
}
use kubeagent.Prelude.Dict.{find, has}
use kubeagent.Prelude.Int.{pos}
use kubeagent.Watchstate.{Record}
use kubeagent.Alertstate.{
  Object, eq_object, object_eq, Notification, OpenAlert, Roller, Reason, new_roller,
}
use kubeagent.Alertstate.Roll.{object_of, roll}
use kubeagent.Alertstate.Lifecycle.{is_broken, IsTrue, roll-open, roll-IsTrue}
use kubeagent.Alertstate.Since.{says, is_new, is_recovery, roll-since, roll-reports}

abbrev pull : Record
pull = record {
  key = record {
    kind = codes "Deployment";
    namespace = codes "shop";
    name = codes "web";
    issue = codes "ErrImagePull";
  };
  first_seen = 100;
  firing_since = 100;
  last_seen = 100;
  active = true;
  firings = 1;
  resolved_at = 0;
  flapping = false;
  recent_firings = 1;
}

abbrev degraded : Record
degraded = record pull { key = record (pull.key) { issue = codes "Degraded" }; firing_since = 90 }

abbrev roller : Roller
roller = new_roller (pos 50) (codes "prod")

abbrev web : Object
web = object_of (codes "prod") pull

abbrev opened : Roller
opened = (roll (pull ∷ pull ∷ []) 100 roller).0

abbrev changed : Roller
changed = (roll (pull ∷ degraded ∷ []) 110 opened).0

runs :
    (map (λ (n : Notification). n.reason) (roll (pull ∷ pull ∷ []) 100 roller).1 ≡ Reason.new ∷ [])
    × (map (λ (n : Notification). n.issues) (roll (pull ∷ degraded ∷ []) 110 opened).1
        ≡ (codes "Degraded" ∷ codes "ErrImagePull" ∷ []) ∷ [])
    × (map (λ (n : Notification). n.reason) (roll (degraded ∷ pull ∷ []) 159 changed).1 ≡ [])
    × (map (λ (n : Notification). n.reason) (roll (degraded ∷ pull ∷ []) 160 changed).1
        ≡ Reason.repeat ∷ [])
    × (map (λ (n : Notification). n.reason) (roll [] 120 changed).1 ≡ Reason.resolved ∷ [])
unfolding roll new_roller text_eq text_lt object_eq
runs = (refl, refl, refl, refl, refl)

roll-open_example :
    has web (roll (degraded ∷ []) 110 opened).0.open_alerts
    ≡ is_broken opened.cluster (degraded ∷ []) web
roll-open_example = roll-open (degraded ∷ []) 110 opened web

roll-IsTrue_example :
    All
      (IsTrue opened.cluster (degraded ∷ []) opened.open_alerts)
      (roll (degraded ∷ []) 110 opened).1
roll-IsTrue_example = roll-IsTrue (degraded ∷ []) 110 opened

abbrev first_alert : OpenAlert
first_alert = record { firing_since = 100; issues = codes "ErrImagePull" ∷ []; last_sent = 100 }

first_alert-open : find web opened.open_alerts ≡ some first_alert
unfolding roll new_roller text_eq text_lt object_eq
first_alert-open = refl

web_broken : is_broken opened.cluster (degraded ∷ []) web ≡ true
unfolding text_eq object_eq new_roller roll
web_broken = refl

roll-since_example :
    (a' : OpenAlert) × (find web (roll (degraded ∷ []) 110 opened).0.open_alerts ≡ some a')
    × (a'.firing_since ≤ 100)
roll-since_example =
    roll-since (degraded ∷ []) 110 opened web first_alert first_alert-open web_broken

roll-reports_example :
    (has web opened.open_alerts ≡ true
      → is_broken opened.cluster [] web ≡ false
      → any (says web is_recovery) (roll [] 120 opened).1 ≡ true)
    × (has web opened.open_alerts ≡ false
        → is_broken opened.cluster [] web ≡ true
        → any (says web is_new) (roll [] 120 opened).1 ≡ true)
roll-reports_example = roll-reports [] 120 opened web
