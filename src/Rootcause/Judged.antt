-- ===== src/Rootcause/Judged.antt =====
-- `AnnotateRegistry` judges each workload by the number of those that fail to pull from its host.
use mathlib.Core.Path.{subst}
use kubeagent.Prelude.{
  ℕ, ◌+◌, ◌≡◌, refl, sym, ap, ◌∙◌, Bool, true, false, ◌||◌, List, [], ◌∷◌, Option, none, some, Text,
  text_eq, text_eq_iff, text_lt, map, length, count_if, get_elem?, arith, if◌then◌else◌, Bool-cases,
  inl, inr,
}
use kubeagent.Prelude.Dict.{
  Dict, find, has, contains, contains-insert_by, contains-sort_by, text_eq_inst, nat_eq,
}
use kubeagent.Prelude.Sort.{insert_by, sort_by}
use kubeagent.Prelude.Unique.{Unique}
use kubeagent.Inventory.{Workload, Runtime}
use kubeagent.Rootcause.Registry.{
  joins, first_pass, groups, second_pass, update_each, members_of, judge_hosts, hosts_of,
  annotate_registry,
}
use kubeagent.Rootcause.Indexed.{changed, get_elem?-map, indexed_ext, Apart, get_elem?-update_each}
use kubeagent.Rootcause.Grouped.{
  joins_host, indices, joins_at, members-groups, groups-KeysUnique, indices_at, indices-Apart,
  length-indices, contains-hosts_of, hosts_of-Unique,
}

insert_by-Unique :
    (less : Text → Text → Bool) (x : Text) (xs : List Text)
    → contains xs x ≡ false
    → Unique xs
    → Unique (insert_by less x xs)
unfolding insert_by contains
insert_by-Unique less x [] h u = (refl, tt)
insert_by-Unique less x (y ∷ ys) h (fresh, u) =
    let apart : text_eq x y ≡ false = ground (arith, text_eq_iff x y, text_eq_iff y x) in
    let below : contains ys x ≡ false = ground arith in
    elim (Bool-cases (less y x)) [
      | inl e ↦ rw e (
        contains-insert_by less x ys y ∙ ap (λ b. b || contains ys y) apart ∙ fresh,
        insert_by-Unique less x ys below u,
      )
      | inr e ↦ rw e (h, (fresh, u))
    ]

sort_by-Unique : (less : Text → Text → Bool) (xs : List Text) → Unique xs → Unique (sort_by less xs)
unfolding sort_by
sort_by-Unique less [] u = tt
sort_by-Unique less (x ∷ xs) (fresh, u) =
    insert_by-Unique less x (sort_by less xs) (contains-sort_by less xs x ∙ fresh)
      (sort_by-Unique less xs u)

-- A host with members is one of the hosts.
has_members :
    (m : Dict Text (List ℕ)) (h : Text) (j : ℕ)
    → contains (members_of (find h m)) j ≡ true
    → has h m ≡ true
unfolding has contains
has_members m h j e = there (find h m) e
  where
    there :
        (o : Option (List ℕ))
        → contains (members_of o) j ≡ true
        → elim o [ none ↦ false | some v ↦ true ] ≡ true
    there none e = absurd (ground arith)
    there (some l) e = refl

module _ (go : Runtime) where
  -- The verdict on a workload of a slice, told from the slice.
  abbrev pub verdict_by : List Workload → Option Text → Workload → Workload
  verdict_by ws none w = w
  verdict_by ws (some h) w = second_pass go h (count_if (λ v. joins_host (joins v) h) ws) w

  abbrev pub verdict_on : List Workload → Workload → Workload
  verdict_on ws w = verdict_by ws (joins w) (first_pass go w)

  module _ (m : Dict Text (List ℕ)) (apart : (h : Text) → Apart (members_of (find h m))) where
    -- What the second loop does at an index, over these hosts.
    abbrev over_hosts : List Text → Option Text → Option Workload → Option Workload
    over_hosts hs none x = x
    over_hosts hs (some g) x =
        if contains hs g then changed (second_pass go g (length (members_of (find g m)))) x else x

    get_elem?-judge_hosts :
        (hs : List Text) (o : Option Text) (j : ℕ) (ws : List Workload)
        → Unique hs
        → ((h : Text) → contains (members_of (find h m)) j ≡ joins_host o h)
        → get_elem? (judge_hosts go m hs ws) j ≡ over_hosts hs o (get_elem? ws j)
    unfolding judge_hosts contains
    get_elem?-judge_hosts [] none j ws u at = refl
    get_elem?-judge_hosts [] (some g) j ws u at = refl
    get_elem?-judge_hosts (h ∷ hs) o j ws (fresh, u) at =
        let n = length (members_of (find h m)) in
        get_elem?-judge_hosts hs o j (update_each (members_of (find h m)) (second_pass go h n) ws) u
          at
        ∙ ap (over_hosts hs o)
            (get_elem?-update_each (members_of (find h m)) (second_pass go h n) ws j (apart h))
        ∙ ap
            (λ (b : Bool).
              over_hosts hs o
                (if b then changed (second_pass go h n) (get_elem? ws j) else get_elem? ws j))
            (at h)
        ∙ one_host o h hs (get_elem? ws j) fresh
      where
        one_host :
            (o : Option Text) (h : Text) (hs : List Text) (x : Option Workload)
            → contains hs h ≡ false
            → over_hosts hs o (
                if joins_host o h
                then changed (second_pass go h (length (members_of (find h m)))) x
                else x)
              ≡ over_hosts (h ∷ hs) o x
        one_host none h hs x fresh = refl
        one_host (some g) h hs x fresh =
            let f = λ (k : Text). changed (second_pass go k (length (members_of (find k m)))) x in
            elim (Bool-cases (text_eq g h)) [
              | inl e ↦
                  let same = (text_eq_iff g h).0 e in
                  let absent : contains hs g ≡ false = ap (contains hs) same ∙ fresh in
                  let here : text_eq h g ≡ true = (text_eq_iff h g).1 (sym same) in
                  rw (absent, here, e) (ap f (sym same))
              | inr e ↦
                  let apart : text_eq h g ≡ false =
                    ground (arith, text_eq_iff g h, text_eq_iff h g) in
                  rw (e, apart) refl
            ]

  module _ (ws : List Workload) where
    abbrev of_slice : Dict Text (List ℕ)
    of_slice = groups 0 ws []

    members_of_slice : (h : Text) → members_of (find h of_slice) ≡ indices h 0 ws
    unfolding find
    members_of_slice h = members-groups h 0 ws []

    members_of_slice-Apart : (h : Text) → Apart (members_of (find h of_slice))
    members_of_slice-Apart h = subst Apart (sym (members_of_slice h)) (indices-Apart h 0 ws)

    abbrev join_of : Option Workload → Option Text
    join_of none = none
    join_of (some w) = joins w

    joins_at_join : (h : Text) (x : Option Workload) → joins_at h x ≡ joins_host (join_of x) h
    joins_at_join h none = refl
    joins_at_join h (some w) = refl

    member_at :
        (j : ℕ) (h : Text)
        → contains (members_of (find h of_slice)) j ≡ joins_host (join_of (get_elem? ws j)) h
    member_at j h =
        let shift : j ≡ 0 + j = omega arith in
        ap (λ l. contains l j) (members_of_slice h)
        ∙ ap (contains (indices h 0 ws)) shift
        ∙ indices_at h 0 j ws
        ∙ joins_at_join h (get_elem? ws j)

    abbrev slice_hosts : List Text
    slice_hosts = sort_by text_lt (hosts_of of_slice)

    -- A host that a workload fails to pull from is verdict_on.
    judged_host :
        (g : Text) (j : ℕ) → join_of (get_elem? ws j) ≡ some g → contains slice_hosts g ≡ true
    judged_host g j e =
        contains-sort_by text_lt (hosts_of of_slice) g
        ∙ contains-hosts_of of_slice g
        ∙ has_members of_slice g j
            (member_at j g ∙ ap (λ o. joins_host o g) e ∙ (text_eq_iff g g).1 refl)

    judged_at :
        (j : ℕ) (x : Option Workload) (o : Option Text)
        → get_elem? ws j ≡ x
        → join_of x ≡ o
        → over_hosts of_slice members_of_slice-Apart slice_hosts o (changed (first_pass go) x)
          ≡ changed (λ w. verdict_by ws o (first_pass go w)) x
    judged_at j none none h e = refl
    judged_at j none (some g) h e = absurd (ground arith)
    judged_at j (some w) none h e = refl
    judged_at j (some w) (some g) h e =
        let size = ap length (members_of_slice g) ∙ length-indices g 0 ws in
        ap
          (λ (b : Bool).
            if b
            then changed (second_pass go g (length (members_of (find g of_slice))))
                (some (first_pass go w))
            else some (first_pass go w))
          (judged_host g j (ap join_of h ∙ e))
        ∙ ap (λ n. some (second_pass go g n (first_pass go w))) size

    changed_judged :
        (x : Option Workload)
        → changed (λ w. verdict_by ws (join_of x) (first_pass go w)) x ≡ changed (verdict_on ws) x
    changed_judged none = refl
    changed_judged (some w) = refl

    -- The groups, the sorted hosts and the writes by index of `AnnotateRegistry` come to one judgement of each workload:
    -- after the first pass, a workload that joins the group of a host is verdict_on by the number of the workloads that do.
    pub annotate_registry-judges : annotate_registry go ws ≡ map (verdict_on ws) ws
    unfolding annotate_registry
    annotate_registry-judges = indexed_ext _ _ (λ j.
        get_elem?-judge_hosts of_slice members_of_slice-Apart slice_hosts (join_of (get_elem? ws j))
          j (map (first_pass go) ws)
          (sort_by-Unique text_lt (hosts_of of_slice)
            (hosts_of-Unique of_slice (groups-KeysUnique 0 ws [] tt)))
          (member_at j)
        ∙ ap (over_hosts of_slice members_of_slice-Apart slice_hosts (join_of (get_elem? ws j)))
            (get_elem?-map (first_pass go) ws j)
        ∙ judged_at j (get_elem? ws j) (join_of (get_elem? ws j)) refl refl
        ∙ changed_judged (get_elem? ws j)
        ∙ sym (get_elem?-map (verdict_on ws) ws j))
