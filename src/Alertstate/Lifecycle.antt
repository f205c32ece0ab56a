-- ===== src/Alertstate/Lifecycle.antt =====
-- When alerts are open, what is sent, and since when an object counts as broken.
use kubeagent.Prelude.{
  ℕ, ◌≡◌, refl, sym, ◌⊎◌, Bool, true, false, ◌&&◌, ◌||◌, Text, List, [], ◌∷◌, ◌++◌, Option, none,
  some, arith, if_elim, any, All, All-append, All-map,
}
use kubeagent.Prelude.Sort.{All-sort_by}
use kubeagent.Prelude.Dict.{Dict, find, put, has, ◌==◌, has-put, has-cons, entries-has}
use mathlib.Core.Path.{subst}
use kubeagent.Watchstate.{Record}
use kubeagent.Alertstate.{
  Object, eq_object, object_eq_iff, Status, Notification, OpenAlert, Roller, Group,
}
use kubeagent.Alertstate.Roll.{
  object_of, join, group_or, group_all, unique_sorted, Due, changed, repeated, nothing, due, act,
  earlier, update, update_all, clear_gone, by_object, roll,
}

-- Whether some active record is about the object.
abbrev pub is_broken : Text → List Record → Object → Bool
is_broken cluster active o = any (λ r. object_of cluster r == o) active

pub has-group_all :
    (cluster : Text) (active : List Record) (groups : Dict Object Group) (o : Object)
    → has o (group_all cluster active groups) ≡ is_broken cluster active o || has o groups
unfolding group_all
has-group_all cluster [] groups o = refl
has-group_all cluster (r ∷ active) groups o =
    let k = object_of cluster r in
    let g = join r (group_or (find k groups) r) in
    ground (arith, has-group_all cluster active (put k g groups) o, has-put k o g groups)

pub has-update_all :
    (now repeat_after : ℕ) (groups : Dict Object Group) (alerts : Dict Object OpenAlert)
    (out : List Notification) (o : Object)
    → has o (update_all now repeat_after groups (alerts, out)).0 ≡ has o groups || has o alerts
unfolding update_all has
has-update_all now repeat_after [] alerts out o = unfold find in refl
has-update_all now repeat_after ((k, g) ∷ groups) alerts out o =
    let g' = record g { issues = unique_sorted g.issues } in
    let (a, sent) = update now repeat_after k g' (find k alerts) in
    ground (
      arith,
      has-update_all now repeat_after groups (put k a alerts) (out ++ sent) o,
      has-put k o a alerts,
      has-cons o k g groups,
    )

pub has-clear_gone :
    (now : ℕ) (groups : Dict Object Group) (alerts : Dict Object OpenAlert) (o : Object)
    → has o (clear_gone now groups alerts).0 ≡ has o alerts && has o groups
unfolding clear_gone
has-clear_gone now groups [] o = unfold has find in refl
has-clear_gone now groups ((k, a) ∷ alerts) o =
    let kept = (clear_gone now groups alerts).0 in
    ground (
      arith,
      has-clear_gone now groups alerts o,
      has-cons o k a alerts,
      has-cons o k a kept,
      object_eq_iff k o,
    )

-- After `Roll` an object has an open alert exactly if some active record is about it.
pub roll-open :
    (active : List Record) (now : ℕ) (r : Roller) (o : Object)
    → has o (roll active now r).0.open_alerts ≡ is_broken r.cluster active o
unfolding roll
roll-open active now r o =
    let groups = group_all r.cluster active [] in
    let (alerts, sent) = update_all now r.repeat_after groups (r.open_alerts, []) in
    ground (
      arith,
      has-clear_gone now groups alerts o,
      has-update_all now r.repeat_after groups r.open_alerts [] o,
      has-group_all r.cluster active [] o,
    )

-- What a notification says of its object: still broken, or recovered and open until now.
abbrev pub IsTrue : Text → List Record → Dict Object OpenAlert → Notification → Type 0
IsTrue cluster active alerts n =
    (n.status ≡ Status.firing) × (is_broken cluster active n.object ≡ true)
    ⊎ (n.status ≡ Status.resolved)
      × (is_broken cluster active n.object ≡ false)
      × (has n.object alerts ≡ true)

act-sent :
    (now : ℕ) (o : Object) (g : Group) (a : OpenAlert) (d : Due)
    → All (λ n. (n.object ≡ o) × (n.status ≡ Status.firing)) (act now o g a d).1
unfolding act
act-sent now o g a changed = ((refl, refl), tt)
act-sent now o g a repeated = ((refl, refl), tt)
act-sent now o g a nothing = tt

-- Everything that the group's update sends is about the object and fires.
update-sent :
    (now repeat_after : ℕ) (o : Object) (g : Group) (found : Option OpenAlert)
    → All (λ n. (n.object ≡ o) × (n.status ≡ Status.firing)) (update now repeat_after o g found).1
unfolding update
update-sent now repeat_after o g none = ((refl, refl), tt)
update-sent now repeat_after o g (some a) =
    act-sent now o g (earlier g a) (due now repeat_after g (earlier g a))

update_all-sent :
    (now repeat_after : ℕ) (P : Object → Type 0) (groups : Dict Object Group)
    (alerts : Dict Object OpenAlert) (out : List Notification)
    → All (λ x. P x.0) groups
    → All (λ n. (n.status ≡ Status.firing) × P n.object) out
    → All
        (λ n. (n.status ≡ Status.firing) × P n.object)
        (update_all now repeat_after groups (alerts, out)).1
unfolding update_all
update_all-sent now repeat_after P [] alerts out h k = k
update_all-sent now repeat_after P ((o, g) ∷ groups) alerts out h k =
    let g' = record g { issues = unique_sorted g.issues } in
    let (a, sent) = update now repeat_after o g' (find o alerts) in
    update_all-sent now repeat_after P groups (put o a alerts) (out ++ sent) h.1 (
      All-append _ out sent k (
        All-map _ _ sent (λ n e. (e.1, subst P (sym e.0) h.0))
          (update-sent now repeat_after o g' (find o alerts))))

clear_gone-sent :
    (now : ℕ) (groups : Dict Object Group) (P : Object → Type 0) (alerts : Dict Object OpenAlert)
    → All (λ x. P x.0) alerts
    → All
        (λ n. (n.status ≡ Status.resolved) × (has n.object groups ≡ false) × P n.object)
        (clear_gone now groups alerts).1
unfolding clear_gone
clear_gone-sent now groups P [] h = tt
clear_gone-sent now groups P ((o, a) ∷ alerts) h =
    let rest = clear_gone-sent now groups P alerts h.1 in
    if_elim
      (λ (s : Dict Object OpenAlert × List Notification).
        All (λ n. (n.status ≡ Status.resolved) × (has n.object groups ≡ false) × P n.object) s.1)
      (has o groups) _ _ (λ e. rest) (λ e. ((refl, e, h.0), rest))

-- Every notification of a `Roll` is true of its object: a firing one is about an object with an
-- active record, and a resolved one is about an object that has none and had an open alert. So no
-- object is reported recovered while it is still broken.
pub roll-IsTrue :
    (active : List Record) (now : ℕ) (r : Roller)
    → All (IsTrue r.cluster active r.open_alerts) (roll active now r).1
unfolding roll
roll-IsTrue active now r =
    let groups = group_all r.cluster active [] in
    let (alerts, sent) = update_all now r.repeat_after groups (r.open_alerts, []) in
    All-sort_by by_object _ _ (
      All-append _ sent (clear_gone now groups alerts).1
        (All-map _ _ sent (λ n h. ground (arith, has-group_all r.cluster active [] n.object))
          (update_all-sent now r.repeat_after (λ o. has o groups ≡ true) groups r.open_alerts []
            (entries-has groups) tt))
        (All-map _ _ _
          (λ n h. ground (
            arith,
            has-group_all r.cluster active [] n.object,
            has-update_all now r.repeat_after groups r.open_alerts [] n.object,
          ))
          (clear_gone-sent now groups (λ o. has o alerts ≡ true) alerts (entries-has alerts))))
