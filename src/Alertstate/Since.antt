-- ===== src/Alertstate/Since.antt =====
-- Since when an object counts as broken, and that no change of its state goes unsent.
use kubeagent.Prelude.{
  ℕ, ◌≤◌, ◌≡◌, refl, ap, ◌∙◌, inl, inr, Bool, true, false, ◌&&◌, ◌||◌, List, [], ◌∷◌, ◌++◌, Option,
  none, some, arith, Bool-cases, if_elim, any,
}
use kubeagent.Prelude.Sort.{sort_by, insert_by}
use kubeagent.Prelude.Dict.{Dict, find, put, has, ◌==◌, find-put, has-cons}
use kubeagent.Watchstate.{Record}
use kubeagent.Alertstate.{
  Object, eq_object, object_eq_iff, Reason, Notification, OpenAlert, Roller, Group,
}
use kubeagent.Alertstate.Roll.{
  group_all, unique_sorted, Due, changed, repeated, nothing, due, act, earlier, update, update_all,
  clear_gone, by_object, roll,
}
use kubeagent.Alertstate.Lifecycle.{is_broken, has-group_all, has-update_all}

act-since :
    (now : ℕ) (o : Object) (g : Group) (a : OpenAlert) (d : Due)
    → (act now o g a d).0.firing_since ≡ a.firing_since
unfolding act
act-since now o g a changed = refl
act-since now o g a repeated = refl
act-since now o g a nothing = refl

update-since :
    (now repeat_after t : ℕ) (o : Object) (g : Group) (a : OpenAlert)
    → a.firing_since ≤ t
    → (update now repeat_after o g (some a)).0.firing_since ≤ t
unfolding update
update-since now repeat_after t o g a h =
    ground (arith, act-since now o g (earlier g a) (due now repeat_after g (earlier g a)))

-- An open alert that starts at `t` or before.
abbrev OpenBy : ℕ → Object → Dict Object OpenAlert → Type 0
OpenBy t o m = (a : OpenAlert) × (find o m ≡ some a) × (a.firing_since ≤ t)

put-OpenBy :
    (now repeat_after t : ℕ) (o k : Object) (g : Group) (alerts : Dict Object OpenAlert)
    → OpenBy t o alerts
    → OpenBy t o (put k (update now repeat_after k g (find k alerts)).0 alerts)
put-OpenBy now repeat_after t o k g alerts (a, f, h) = elim (Bool-cases (k == o)) [
  | inl e ↦
      let q : k ≡ o = (object_eq_iff k o).0 e in
      let f' : find k alerts ≡ some a = ap (λ x. find x alerts) q ∙ f in
      (
        (update now repeat_after k g (some a)).0,
        find-put k o _ alerts ∙ rw e (rw f'),
        update-since now repeat_after t k g a h,
      )
  | inr e ↦ (a, find-put k o _ alerts ∙ rw e f, h)
]

update_all-OpenBy :
    (now repeat_after t : ℕ) (o : Object) (groups : Dict Object Group)
    (alerts : Dict Object OpenAlert) (out : List Notification)
    → OpenBy t o alerts
    → OpenBy t o (update_all now repeat_after groups (alerts, out)).0
unfolding update_all
update_all-OpenBy now repeat_after t o [] alerts out h = h
update_all-OpenBy now repeat_after t o ((k, g) ∷ groups) alerts out h =
    let g' = record g { issues = unique_sorted g.issues } in
    let (a, sent) = update now repeat_after k g' (find k alerts) in
    update_all-OpenBy now repeat_after t o groups (put k a alerts) (out ++ sent)
      (put-OpenBy now repeat_after t o k g' alerts h)

find-clear_gone :
    (now : ℕ) (groups : Dict Object Group) (alerts : Dict Object OpenAlert) (o : Object)
    → has o groups ≡ true
    → find o (clear_gone now groups alerts).0 ≡ find o alerts
unfolding clear_gone find
find-clear_gone now groups [] o h = refl
find-clear_gone now groups ((k, a) ∷ alerts) o h =
    ground (arith, find-clear_gone now groups alerts o h, object_eq_iff k o)

-- An object that has an open alert and is still broken keeps an open alert, and the start of its
-- outage never moves later, however its issues come and go.
pub roll-since :
    (active : List Record) (now : ℕ) (r : Roller) (o : Object) (a : OpenAlert)
    → find o r.open_alerts ≡ some a
    → is_broken r.cluster active o ≡ true
    → (a' : OpenAlert) × (find o (roll active now r).0.open_alerts ≡ some a')
      × (a'.firing_since ≤ a.firing_since)
unfolding roll
roll-since active now r o a f b =
    let groups = group_all r.cluster active [] in
    let (alerts, sent) = update_all now r.repeat_after groups (r.open_alerts, []) in
    let (a', f', h') =
      update_all-OpenBy now r.repeat_after a.firing_since o groups r.open_alerts []
        (a, f, omega arith) in
    (a', find-clear_gone now groups alerts o (has-group_all r.cluster active [] o ∙ rw b) ∙ f', h')

-- Whether some notification is about the object and has the reason.
abbrev pub says : Object → (Reason → Bool) → Notification → Bool
says o p n = (n.object == o) && p n.reason

abbrev pub is_new : Reason → Bool
is_new Reason.new = true
is_new _ = false

abbrev pub is_recovery : Reason → Bool
is_recovery Reason.resolved = true
is_recovery _ = false

any-append :
    (p : Notification → Bool) (xs ys : List Notification) → any p (xs ++ ys) ≡ any p xs || any p ys
any-append p [] ys = refl
any-append p (x ∷ xs) ys = ground (arith, any-append p xs ys)

any-insert_by :
    (p : Notification → Bool) (x : Notification) (xs : List Notification)
    → any p (insert_by by_object x xs) ≡ p x || any p xs
unfolding insert_by
any-insert_by p x [] = refl
any-insert_by p x (y ∷ ys) =
    if_elim (λ l. any p l ≡ p x || any p (y ∷ ys)) (by_object y x) _ _
      (λ _. ground (arith, any-insert_by p x ys)) (λ _. refl)

any-sort_by :
    (p : Notification → Bool) (xs : List Notification) → any p (sort_by by_object xs) ≡ any p xs
unfolding sort_by
any-sort_by p [] = refl
any-sort_by p (x ∷ xs) = any-insert_by p x (sort_by by_object xs) ∙ rw (any-sort_by p xs)

clear_gone-recovery :
    (now : ℕ) (groups : Dict Object Group) (alerts : Dict Object OpenAlert) (o : Object)
    → has o groups ≡ false
    → any (says o is_recovery) (clear_gone now groups alerts).1 ≡ has o alerts
unfolding clear_gone
clear_gone-recovery now groups [] o h = unfold has find in refl
clear_gone-recovery now groups ((k, a) ∷ alerts) o h =
    ground
      (arith, clear_gone-recovery now groups alerts o h, has-cons o k a alerts, object_eq_iff k o)

update_all-says :
    (p : Notification → Bool) (now repeat_after : ℕ) (groups : Dict Object Group)
    (alerts : Dict Object OpenAlert) (out : List Notification)
    → any p out ≡ true
    → any p (update_all now repeat_after groups (alerts, out)).1 ≡ true
unfolding update_all
update_all-says p now repeat_after [] alerts out h = h
update_all-says p now repeat_after ((k, g) ∷ groups) alerts out h =
    let g' = record g { issues = unique_sorted g.issues } in
    let (a, sent) = update now repeat_after k g' (find k alerts) in
    update_all-says p now repeat_after groups (put k a alerts) (out ++ sent)
      (any-append p out sent ∙ rw h)

update_new-says :
    (now repeat_after : ℕ) (o k : Object) (g : Group) (found : Option OpenAlert)
    → found ≡ none
    → (k == o) ≡ true
    → any (says o is_new) (update now repeat_after k g found).1 ≡ true
unfolding update
update_new-says now repeat_after o k g none f e = rw e
update_new-says now repeat_after o k g (some a) f e = absurd (cc f)

has-nil : {A : Type 0} (o : Object) → has {V = Group} o [] ≡ true → A
unfolding has find
has-nil o h = cc

find-none : (o : Object) (m : Dict Object OpenAlert) → has o m ≡ false → find o m ≡ none
unfolding has
find-none o m h = ground arith

update_all-new :
    (now repeat_after : ℕ) (o : Object) (groups : Dict Object Group)
    (alerts : Dict Object OpenAlert) (out : List Notification)
    → find o alerts ≡ none
    → has o groups ≡ true
    → any (says o is_new) (update_all now repeat_after groups (alerts, out)).1 ≡ true
unfolding update_all
update_all-new now repeat_after o [] alerts out f h = has-nil o h
update_all-new now repeat_after o ((k, g) ∷ groups) alerts out f h =
    let g' = record g { issues = unique_sorted g.issues } in
    let (a, sent) = update now repeat_after k g' (find k alerts) in
    elim (Bool-cases (k == o)) [
      | inl e ↦
          let f' : find k alerts ≡ none = ap (λ x. find x alerts) ((object_eq_iff k o).0 e) ∙ f in
          update_all-says (says o is_new) now repeat_after groups (put k a alerts) (out ++ sent) (
            any-append (says o is_new) out sent
            ∙ ground (arith, update_new-says now repeat_after o k g' (find k alerts) f' e))
      | inr e ↦
          update_all-new now repeat_after o groups (put k a alerts) (out ++ sent)
            (find-put k o a alerts ∙ rw e f) (ground (arith, has-cons o k g groups))
    ]

-- No change of an object's state goes unsent: an object whose alert was open and that has no active
-- record any more is reported resolved, and one that had no open alert and is broken now is
-- reported as new.
pub roll-reports :
    (active : List Record) (now : ℕ) (r : Roller) (o : Object)
    → (has o r.open_alerts ≡ true
        → is_broken r.cluster active o ≡ false
        → any (says o is_recovery) (roll active now r).1 ≡ true)
      × (has o r.open_alerts ≡ false
          → is_broken r.cluster active o ≡ true
          → any (says o is_new) (roll active now r).1 ≡ true)
unfolding roll
roll-reports active now r o =
    let groups = group_all r.cluster active [] in
    let (alerts, sent) = update_all now r.repeat_after groups (r.open_alerts, []) in
    let gone = (clear_gone now groups alerts).1 in
    (
      λ h b.
          any-sort_by (says o is_recovery) (sent ++ gone)
          ∙ (any-append (says o is_recovery) sent gone
              ∙ ground (
                arith,
                clear_gone-recovery now groups alerts o,
                has-update_all now r.repeat_after groups r.open_alerts [] o,
                has-group_all r.cluster active [] o,
              )),
      λ h b.
          any-sort_by (says o is_new) (sent ++ gone)
          ∙ (any-append (says o is_new) sent gone
              ∙ ground (
                arith,
                update_all-new now r.repeat_after o groups r.open_alerts []
                    (find-none o r.open_alerts h),
                has-group_all r.cluster active [] o,
              )),
    )
