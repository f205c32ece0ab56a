-- ===== src/Inventory/Complete.antt =====
-- `Assemble` as a whole: what its workloads show, and that every pod stands under one of them.
use mathlib.Core.Path.{subst}
use kubeagent.Prelude.{
  ℕ, ◌≡◌, refl, sym, ap, ◌∙◌, Bool, List, [], ◌∷◌, ◌++◌, Option, none, some, Text, text_eq,
  text_eq_iff, All, All-map, All-keep, map, keep, any, arith, Bool-cases, inl, inr,
}
use kubeagent.Prelude.Dict.{find, text_eq_inst}
use kubeagent.Prelude.Sort.{All-sort_by}
use kubeagent.Prelude.Unique.{KeysUnique, entries-find}
use kubeagent.Inventory.{Workload, Pod, Inputs, Detection, Runtime}
use kubeagent.Inventory.Owners.{pod_owners}
use kubeagent.Inventory.Seeds.{seed_all, no_seeds, seeds_of}
use kubeagent.Inventory.Assemble.{attach_all, grouped, less, assemble}
use kubeagent.Inventory.Names.{pod_name, Distinct, pod_owners-All}
use kubeagent.Inventory.Grown.{
  members, owner_key, points, named-members, find-add_pods, add_pods-KeysUnique, points-add_pods,
}
use kubeagent.Inventory.Attached.{
  with_findings, pointed, find-attach_all, attach_all-none, attach_all-KeysUnique,
}
use kubeagent.Inventory.Seeded.{
  Holds, MayHold, find-seed_all, seeds_of-IsFresh, seed_all-KeysUnique, seed-MayHold, grown-MayHold,
}
use kubeagent.Inventory.Grouping.{IsGrouped, Whole, finished-IsGrouped}

keep_ext :
    {A : Type 0} (p q : A → Bool) → ((x : A) → p x ≡ q x) → (xs : List A) → keep p xs ≡ keep q xs
unfolding keep
keep_ext p q h [] = refl
keep_ext p q h (x ∷ xs) = rw (h x, keep_ext p q h xs) refl

members-All :
    (i : Inputs) (k : Text) (ps : List Pod) → All (λ p. owner_key i p ≡ k) (members i k ps)
members-All i k ps =
    All-keep (λ p. owner_key i p ≡ k) (λ p. text_eq (owner_key i p) k) ps
      (λ p h. (text_eq_iff (owner_key i p) k).0 h)

pub map-All :
    {A B : Type 0} (P : A → Type 0) (Q : B → Type 0) (f : A → B)
    → ((x : A) → P x → Q (f x))
    → (xs : List A) → All P xs
    → All Q (map f xs)
map-All P Q f h [] a = tt
map-All P Q f h (x ∷ xs) (a, more) = (h x a, map-All P Q f h xs more)

module _ (go : Runtime) (now : ℕ) (i : Inputs) where
  module _ (distinct : Distinct i.pods) where
    pub grouped-MayHold :
        (k : Text) → MayHold go now k (members i k i.pods) (find k (grouped go now i).workloads)
    unfolding grouped find
    grouped-MayHold k =
        let start = (seed_all no_seeds (seeds_of i)).workloads in
        subst (MayHold go now k (members i k i.pods))
          (sym (
            find-add_pods go now i (pod_owners i) k i.pods
              (record { workloads = start; pod_key = []; derived_ready = [] })
              (pod_owners-All i distinct)))
          (grown-MayHold go now i k [] (members i k i.pods) (find k start) (members-All i k i.pods)
            (seed-MayHold go now k (find k start)
              (find-seed_all k (seeds_of i) no_seeds (seeds_of-IsFresh i) tt)))

    pub grouped-points :
        (k n : Text)
        → points k (find n (grouped go now i).pod_key)
          ≡ any (λ p. text_eq (pod_name p) n) (members i k i.pods)
    unfolding grouped find
    grouped-points k n =
        let start = (seed_all no_seeds (seeds_of i)).workloads in
        points-add_pods go now i (pod_owners i) k n i.pods
          (record { workloads = start; pod_key = []; derived_ready = [] }) distinct
          (pod_owners-All i distinct)
        ∙ elim (Bool-cases (any (λ p. text_eq (pod_name p) n) i.pods)) [
          | inl e ↦ rw e refl
          | inr e ↦ rw e (sym (named-members go now i (pod_owners i) n k i.pods e))
        ]

    pub grouped-KeysUnique : KeysUnique (grouped go now i).workloads
    unfolding grouped
    grouped-KeysUnique =
        add_pods-KeysUnique go now i (pod_owners i) i.pods
          (record {
            workloads = (seed_all no_seeds (seeds_of i)).workloads;
            pod_key = [];
            derived_ready = [];
          })
          (seed_all-KeysUnique (seeds_of i) no_seeds tt)

    module _ (fs : List Detection) where
      held-Whole :
          (k : Text) (w : Workload)
          → Holds go now k (members i k i.pods) w
          → Whole go now i fs (k, with_findings (pointed (grouped go now i).pod_key k fs) w)
      held-Whole k w (n, (p, (f, (r, o)))) = (
        n,
        (
          p,
          (
            ap (λ l. l ++ pointed (grouped go now i).pod_key k fs) f
                ∙ keep_ext (λ g. points k (find g.pod (grouped go now i).pod_key))
                    (λ g. any (λ p. text_eq (pod_name p) g.pod) (members i k i.pods))
                    (λ g. grouped-points k g.pod) fs,
            (r, o),
          ),
        ),
      )

      abbrev WholeOr : Text → Option Workload → Type 0
      WholeOr k none = Unit
      WholeOr k (some w) = Whole go now i fs (k, w)

      pub attached-Whole :
          (k : Text) (w : Workload) (o : Option Workload)
          → find k (grouped go now i).workloads ≡ o
          → MayHold go now k (members i k i.pods) o
          → find k (attach_all (grouped go now i).pod_key fs (grouped go now i).workloads) ≡ some w
          → Whole go now i fs (k, w)
      attached-Whole k w none h m g =
          let clash =
            sym (attach_all-none (grouped go now i).pod_key k fs (grouped go now i).workloads h)
            ∙ g in
          absurd (ground arith)
      attached-Whole k w (some w') h m g =
          let found =
            sym (find-attach_all (grouped go now i).pod_key k fs w' (grouped go now i).workloads h)
            ∙ g in
          subst (λ (x : Option Workload). WholeOr k x) found (held-Whole k w' m)

      -- Where no two pods share a namespace and a name, every workload of `Assemble` shows the rows, the restarts and
      -- the findings of exactly the pods that roll up to it, cut for Jobs and CronJobs after three rows with the
      -- number of the others.
      pub assemble-IsGrouped : All (IsGrouped go now i fs) (assemble go now i fs)
      unfolding assemble
      assemble-IsGrouped =
          let g = grouped go now i in
          let m = attach_all g.pod_key fs g.workloads in
          All-sort_by less (IsGrouped go now i fs) _ (
            map-All (Whole go now i fs) (IsGrouped go now i fs) _
              (λ x h.
                finished-IsGrouped go now i fs (seed_all no_seeds (seeds_of i)).controllers
                  g.derived_ready x h)
              m
              (All-map _ (Whole go now i fs) m
                (λ x h. attached-Whole x.0 x.1 (find x.0 g.workloads) refl (grouped-MayHold x.0) h)
                (entries-find m
                  (attach_all-KeysUnique g.pod_key fs g.workloads grouped-KeysUnique))))
