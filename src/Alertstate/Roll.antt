-- ===== src/Alertstate/Roll.antt =====
-- `Roll`: group the active records by object, open or update alerts, and resolve what is gone.
use kubeagent.Prelude.{
  ℕ, ◌+◌, Bool, true, false, ◌&&◌, ◌||◌, not, Text, List, [], ◌∷◌, ◌++◌, Option, none, some, ltb,
  leb, if◌then◌else◌, text_eq, text_lt,
}
use kubeagent.Prelude.Sort.{sort_by}
use kubeagent.Prelude.Dict.{Dict, find, put, has}
use kubeagent.Watchstate.{Record}
use kubeagent.Alertstate.{
  Object, eq_object, object_string, Status, Reason, Notification, OpenAlert, Roller, Group,
}

-- The object that a record is about.
abbrev pub object_of : Text → Record → Object
object_of cluster r = record {
  cluster = cluster;
  kind = r.key.kind;
  namespace = r.key.namespace;
  name = r.key.name;
}

-- One record joins the group of its object.
abbrev pub join : Record → Group → Group
join r g = record {
  issues = g.issues ++ r.key.issue ∷ [];
  firing_since = if ltb r.firing_since g.firing_since then r.firing_since else g.firing_since;
  flapping = g.flapping || r.flapping;
}

abbrev pub empty_group : Record → Group
empty_group r = record { issues = []; firing_since = r.firing_since; flapping = false }

-- The group that the map holds for an object, or a new one.
unfoldable pub group_or : Option Group → Record → Group
group_or none r = empty_group r
group_or (some g) r = g

unfoldable pub group_all : Text → List Record → Dict Object Group → Dict Object Group
unfolding find put group_or
group_all cluster [] groups = groups
group_all cluster (r ∷ records) groups =
    let o = object_of cluster r in
    group_all cluster records (put o (join r (group_or (find o groups) r)) groups)

-- Drop each text that equals the one before it.
unfoldable pub unique_from : Text → List Text → List Text
unfolding text_eq
unique_from p [] = []
unique_from p (s ∷ ts) = let rest = unique_from s ts in if text_eq s p then rest else s ∷ rest

unfoldable pub unique : List Text → List Text
unfolding unique_from
unique [] = []
unique (s ∷ ts) = s ∷ unique_from s ts

-- `uniqueSorted`.
unfoldable pub unique_sorted : List Text → List Text
unfolding unique sort_by text_lt
unique_sorted ts = unique (sort_by text_lt ts)

-- `sameIssues`.
unfoldable pub same_issues : List Text → List Text → Bool
unfolding text_eq
same_issues [] [] = true
same_issues [] (b ∷ bs) = false
same_issues (a ∷ as') [] = false
same_issues (a ∷ as') (b ∷ bs) = text_eq a b && same_issues as' bs

-- `firing`.
abbrev pub notify : Object → OpenAlert → Group → Reason → Notification
notify o a g why = record {
  object = o;
  status = Status.firing;
  issues = g.issues;
  firing_since = a.firing_since;
  resolved_at = 0;
  flapping = g.flapping;
  reason = why;
  text = [];
}

-- The three ways through the switch for an alert that is open already.
pub data Due : Type 0 where
  changed repeated nothing : Due

unfoldable pub due : ℕ → ℕ → Group → OpenAlert → Due
unfolding same_issues
due now repeat_after g a =
    if not (same_issues a.issues g.issues)
    then changed
    else if leb (a.last_sent + repeat_after) now
    then repeated
    else nothing

-- The switch; the alert's start has been moved earlier already.
unfoldable pub act : ℕ → Object → Group → OpenAlert → Due → OpenAlert × List Notification
act now o g a changed =
    let a' = record a { issues = g.issues; last_sent = now } in
    (a', notify o a' g Reason.changed ∷ [])
act now o g a repeated =
    let a' = record a { last_sent = now } in (a', notify o a' g Reason.repeat ∷ [])
act now o g a nothing = (a, [])

-- "An object's firing start only ever moves earlier."
abbrev pub earlier : Group → OpenAlert → OpenAlert
earlier g a = record a {
  firing_since = if ltb g.firing_since a.firing_since then g.firing_since else a.firing_since;
}

-- The alert of an object that is broken in this cycle, and what is sent of it.
unfoldable pub update : ℕ → ℕ → Object → Group → Option OpenAlert → OpenAlert × List Notification
unfolding due act
update now repeat_after o g none =
    let a : OpenAlert = record {
      firing_since = g.firing_since;
      issues = g.issues;
      last_sent = now;
    } in
    (a, notify o a g Reason.new ∷ [])
update now repeat_after o g (some a) =
    act now o g (earlier g a) (due now repeat_after g (earlier g a))

-- The loop over the groups.
unfoldable pub update_all :
    ℕ
    → ℕ
    → Dict Object Group
    → Dict Object OpenAlert × List Notification
    → Dict Object OpenAlert × List Notification
unfolding unique_sorted find put update
update_all now repeat_after [] s = s
update_all now repeat_after ((o, g) ∷ groups) (alerts, out) =
    let g' = record g { issues = unique_sorted g.issues } in
    let (a, sent) = update now repeat_after o g' (find o alerts) in
    update_all now repeat_after groups (put o a alerts, out ++ sent)

abbrev pub recovery : ℕ → Object → OpenAlert → Notification
recovery now o a = record {
  object = o;
  status = Status.resolved;
  issues = [];
  firing_since = a.firing_since;
  resolved_at = now;
  flapping = false;
  reason = Reason.resolved;
  text = [];
}

-- The loop that resolves and deletes the alerts of objects with no active record.
unfoldable pub clear_gone :
    ℕ → Dict Object Group → Dict Object OpenAlert → Dict Object OpenAlert × List Notification
unfolding has
clear_gone now groups [] = ([], [])
clear_gone now groups ((o, a) ∷ alerts) =
    let (kept, sent) = clear_gone now groups alerts in
    if has o groups then ((o, a) ∷ kept, sent) else (kept, recovery now o a ∷ sent)

abbrev pub by_object : Notification → Notification → Bool
by_object a b = text_lt (object_string a.object) (object_string b.object)

-- `Roll`.
unfoldable pub roll : List Record → ℕ → Roller → Roller × List Notification
unfolding group_all update_all clear_gone sort_by object_string
roll active now r =
    let groups = group_all r.cluster active [] in
    let (alerts, sent) = update_all now r.repeat_after groups (r.open_alerts, []) in
    let (kept, gone) = clear_gone now groups alerts in
    (record r { open_alerts = kept }, sort_by by_object (sent ++ gone))
