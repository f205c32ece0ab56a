-- ===== src/Inventory/Once.antt =====
-- `Assemble` as a count: every pod stands under the one workload that it rolls up to, or is among
-- those that a Job or a CronJob leaves out and counts.
use mathlib.Core.Path.{subst}
use mathlib.Core.List.{Mem, not-mem-nil, mem-cons_self, mem-cons_of_mem, mem-map_of_mem}
use kubeagent.Prelude.{
  ℕ, suc, ◌+◌, ◌<◌, ◌⊎◌, ◌&&◌, ltb, length, keep, arith, take, ◌≡◌, refl, sym, ap, ◌∙◌, Bool, true,
  false, List, [], ◌∷◌, Option, none, some, Text, text_eq, text_eq_iff, All, All-map, map, mem-keep,
  count_if, if◌then◌else◌, Bool-cases, inl, inr,
}
use kubeagent.Prelude.Dict.{find, has, text_eq_inst}
use kubeagent.Prelude.Sort.{count_if-sort_by}
use kubeagent.Prelude.Unique.{one_if_true, count_if-KeysUnique, entries-find}
use kubeagent.Inventory.{Workload, Pod, PodRow, Inputs, Detection, Runtime}
use kubeagent.Inventory.Seeds.{no_seeds, seed_all, seeds_of}
use kubeagent.Inventory.Assemble.{
  attach_all, finished, grouped, less, assemble, is_job_like, job_pod_cap,
}
use kubeagent.Inventory.Names.{Distinct}
use kubeagent.Inventory.Grown.{members, owner_key}
use kubeagent.Inventory.Attached.{find-attach_all, attach_all-KeysUnique}
use kubeagent.Inventory.Seeded.{key_of, MayHold}
use kubeagent.Inventory.Grouping.{IsGrouped, finished-key}
use kubeagent.Inventory.Cut.{shown, uncut, length-take_all}
use kubeagent.Inventory.Pods.{pod_row_for}
use kubeagent.Inventory.Complete.{
  grouped-MayHold, grouped-KeysUnique, attached-Whole, assemble-IsGrouped,
}

-- Two tests that agree on the entries count the same.
count_if-map_ext :
    {A B : Type 0} (p : B → Bool) (q : A → Bool) (f : A → B) (xs : List A)
    → All (λ x. p (f x) ≡ q x) xs
    → count_if p (map f xs) ≡ count_if q xs
unfolding count_if
count_if-map_ext p q f [] h = refl
count_if-map_ext p q f (x ∷ xs) (h, hs) = rw (h, count_if-map_ext p q f xs hs) refl

count_if_ext :
    {A : Type 0} (p q : A → Bool)
    → ((x : A) → p x ≡ q x)
    → (xs : List A) → count_if p xs ≡ count_if q xs
unfolding count_if
count_if_ext p q h [] = refl
count_if_ext p q h (x ∷ xs) = rw (h x, count_if_ext p q h xs) refl

abbrev pub total : {A : Type 0} → (A → ℕ) → List A → ℕ
total f [] = 0
total f (x ∷ xs) = f x + total f xs

total_ext :
    {A : Type 0} (f g : A → ℕ) (xs : List A) → All (λ x. f x ≡ g x) xs → total f xs ≡ total g xs
total_ext f g [] h = refl
total_ext f g (x ∷ xs) (h, hs) = omega (arith, h, total_ext f g xs hs)

total_zero : {A : Type 0} (xs : List A) → total (λ x. 0) xs ≡ 0
total_zero [] = refl
total_zero (x ∷ xs) = omega (arith, total_zero xs)

total_one : {A : Type 0} (xs : List A) → total (λ x. 1) xs ≡ length xs
total_one [] = refl
total_one (x ∷ xs) = omega (arith, total_one xs)

one_more :
    {A : Type 0} (q : A → Bool) (f : A → ℕ) (xs : List A)
    → length (keep q xs) + total f xs ≡ total (λ x. if q x then suc (f x) else f x) xs
unfolding keep
one_more q f [] = refl
one_more q f (x ∷ xs) = ground (arith, one_more q f xs)

-- Pairs counted by their second and by their first component.
count_both :
    {A B : Type 0} (r : A → B → Bool) (xs : List A) (ys : List B)
    → total (λ y. length (keep (λ x. r x y) xs)) ys ≡ total (λ x. count_if (λ y. r x y) ys) xs
unfolding count_if
count_both r xs [] = sym (total_zero xs)
count_both r xs (y ∷ ys) =
    ap (λ n. length (keep (λ x. r x y) xs) + n) (count_both r xs ys)
    ∙ one_more (λ x. r x y) (λ x. count_if (λ z. r x z) ys) xs

All-members : {A : Type 0} (P : A → Type 0) (xs : List A) → ((x : A) → Mem x xs → P x) → All P xs
All-members P [] h = tt
All-members P (x ∷ xs) h = (h x mem-cons_self, All-members P xs (λ y m. h y (mem-cons_of_mem x m)))

length-map : {A B : Type 0} (f : A → B) (xs : List A) → length (map f xs) ≡ length xs
length-map f [] = refl
length-map f (x ∷ xs) = ap suc (length-map f xs)

-- A Job or a CronJob with more rows than it shows leaves some out.
left_out :
    (w : Workload) (rows : List PodRow)
    → is_job_like w ≡ true
    → job_pod_cap < length rows
    → w.pods ≡ shown w.kind rows
    → length w.pods + w.pods_omitted ≡ length rows
    → 0 < w.pods_omitted
left_out w rows job over cut sum =
    let few : shown w.kind rows ≡ take job_pod_cap rows = rw job refl in
    omega (
      arith,
      over,
      sum,
      ap length (cut ∙ few),
      length-take_all job_pod_cap rows (omega (arith, over)),
    )

module _ (go : Runtime) (now : ℕ) (i : Inputs) where
  -- Where the row of a pod stands, told of one workload.
  abbrev pub Shows : Pod → Workload → Type 0
  Shows p w =
      (text_eq (key_of w) (owner_key i p) ≡ false)
      ⊎ (Mem (pod_row_for go now p) w.pods ⊎ ((is_job_like w ≡ true) × (0 < w.pods_omitted)))

module _ (go : Runtime) (now : ℕ) (i : Inputs) (fs : List Detection)
    (distinct : Distinct i.pods) where
  text_eq_comm : (a b : Text) → text_eq a b ≡ text_eq b a
  text_eq_comm a b = ground (arith, text_eq_iff a b, text_eq_iff b a)

  abbrev is_some : Option Workload → Bool
  is_some o = elim o [ none ↦ false | some v ↦ true ]

  some_workload :
      (k : Text) (p : Pod) (o : Option Workload)
      → Mem p (members i k i.pods)
      → find k (grouped go now i).workloads ≡ o
      → MayHold go now k (members i k i.pods) o
      → has k (attach_all (grouped go now i).pod_key fs (grouped go now i).workloads) ≡ true
  unfolding has
  some_workload k p none mem h m = absurd (not-mem-nil (subst (λ l. Mem p l) m mem))
  some_workload k p (some w) mem h m =
      ap is_some (find-attach_all (grouped go now i).pod_key k fs w (grouped go now i).workloads h)

  written_once :
      (p : Pod)
      → Mem p i.pods
      → count_if (λ w. text_eq (key_of w) (owner_key i p)) (assemble go now i fs) ≡ 1
  unfolding assemble
  written_once p mem =
      let k = owner_key i p in
      let g = grouped go now i in
      let m = attach_all g.pod_key fs g.workloads in
      let unique =
        attach_all-KeysUnique g.pod_key fs g.workloads (grouped-KeysUnique go now i distinct) in
      let here = mem-keep (λ q. text_eq (owner_key i q) k) i.pods ((text_eq_iff k k).1 refl) mem in
      count_if-sort_by less (λ w. text_eq (key_of w) k) _
      ∙ count_if-map_ext (λ w. text_eq (key_of w) k) (λ (x : Text × Workload). text_eq x.0 k)
          (finished (seed_all no_seeds (seeds_of i)).controllers g.derived_ready) m
          (All-map _ _ m
            (λ x h.
              ap (λ l. text_eq l k)
                (finished-key go now i fs (seed_all no_seeds (seeds_of i)).controllers
                  g.derived_ready x
                  (attached-Whole go now i distinct fs x.0 x.1 (find x.0 g.workloads) refl
                    (grouped-MayHold go now i distinct x.0) h)))
            (entries-find m unique))
      ∙ count_if-KeysUnique k m unique
      ∙ ap one_if_true
          (some_workload k p (find k g.workloads) here refl (grouped-MayHold go now i distinct k))

  row-Shows : (p : Pod) (w : Workload) → Mem p i.pods → IsGrouped go now i fs w → Shows go now i p w
  row-Shows p w mem g = elim (Bool-cases (text_eq (key_of w) (owner_key i p))) [
    | inr other ↦ inl other
    | inl same ↦
        let k = key_of w in
        let rows = map (pod_row_for go now) (members i k i.pods) in
        let mine : text_eq (owner_key i p) k ≡ true =
          (text_eq_iff (owner_key i p) k).1 (sym ((text_eq_iff k (owner_key i p)).0 same)) in
        let row : Mem (pod_row_for go now p) rows =
          mem-map_of_mem (pod_row_for go now)
            (mem-keep (λ q. text_eq (owner_key i q) k) i.pods mine mem) in
        inr (elim (Bool-cases (is_job_like w && ltb job_pod_cap (length rows))) [
          | inr e ↦ inl (
              subst (λ l. Mem (pod_row_for go now p) l)
                (uncut (record w { pods = rows }) e ∙ sym g.pods) row)
          | inl e ↦
              let job : is_job_like w ≡ true = ground arith in
              let over : job_pod_cap < length rows = ground arith in
              inr (
                job,
                left_out w rows job over g.pods
                    (g.omitted ∙ sym (length-map (pod_row_for go now) (members i k i.pods))),
              )
        ])
  ]

  rows_kept : total (λ w. length w.pods + w.pods_omitted) (assemble go now i fs) ≡ length i.pods
  rows_kept =
      let ws = assemble go now i fs in
      total_ext _ (λ w. length (members i (key_of w) i.pods)) ws
        (All-map _ _ ws (λ w (g : IsGrouped go now i fs w). g.omitted)
          (assemble-IsGrouped go now i distinct fs))
      ∙ count_both (λ p w. text_eq (owner_key i p) (key_of w)) i.pods ws
      ∙ total_ext _ (λ p. 1) i.pods
          (All-members _ i.pods (λ p m.
            count_if_ext _ _ (λ w. text_eq_comm (owner_key i p) (key_of w)) ws ∙ written_once p m))
      ∙ total_one i.pods

  -- Where no two pods share a namespace and a name, the rows that `Assemble` shows and those it leaves
  -- out and counts are together as many as the pods. For each pod, the workload that it rolls up to is
  -- written out exactly once, and shows the row of the pod, or else is a Job or a CronJob that leaves
  -- rows out.
  pub assemble-once :
      (total (λ w. length w.pods + w.pods_omitted) (assemble go now i fs) ≡ length i.pods)
      × All
          (λ p.
            (count_if (λ w. text_eq (key_of w) (owner_key i p)) (assemble go now i fs) ≡ 1)
            × All (Shows go now i p) (assemble go now i fs))
          i.pods
  assemble-once = (
    rows_kept,
    All-members _ i.pods (λ p m. (
      written_once p m,
      All-map _ _ (assemble go now i fs) (λ w g. row-Shows p w m g)
          (assemble-IsGrouped go now i distinct fs),
    )),
  )
