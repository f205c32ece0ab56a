-- ===== src/Inventory/Grouping.antt =====
-- What a workload of `Assemble` shows, told from the pods that roll up to it.
use kubeagent.Prelude.{
  ℕ, suc, ◌+◌, ◌≡◌, refl, sym, ap, ◌∙◌, Bool, List, [], ◌∷◌, Text, text_eq, map, keep, any, length,
}
use kubeagent.Prelude.Dict.{Dict, text_eq_inst}
use kubeagent.Inventory.{Workload, Inputs, Detection, Runtime}
use kubeagent.Inventory.Pods.{pod_row_for}
use kubeagent.Inventory.Seeds.{key}
use kubeagent.Inventory.Assemble.{finished}
use kubeagent.Inventory.Names.{pod_name}
use kubeagent.Inventory.Grown.{members}
use kubeagent.Inventory.Seeded.{key_of, total_restarts}
use kubeagent.Inventory.Cut.{shown, finished-IsCut}

module _ (go : Runtime) (now : ℕ) (i : Inputs) (fs : List Detection) where
  -- A workload shows the rows of its pods in their order, of a Job or a CronJob the first three and how many more
  -- there are; the sum of their restarts; and the findings about them in their order.
  pub record IsGrouped (w : Workload) : Type 0 where
    pub pods : w.pods ≡ shown w.kind (map (pod_row_for go now) (members i (key_of w) i.pods))
    pub omitted : length w.pods + w.pods_omitted ≡ length (members i (key_of w) i.pods)
    pub restarts : w.restarts ≡ total_restarts (members i (key_of w) i.pods)
    pub findings :
        w.findings
        ≡ keep (λ f. any (λ p. text_eq (pod_name p) f.pod) (members i (key_of w) i.pods)) fs

  -- One of the workloads before the last loop: not yet cut, under its key.
  abbrev pub Whole : Text × Workload → Type 0
  Whole (k, w) =
      (key_of w ≡ k)
      × ((w.pods ≡ map (pod_row_for go now) (members i k i.pods))
          × ((w.findings
                ≡ keep (λ f. any (λ p. text_eq (pod_name p) f.pod) (members i k i.pods)) fs)
              × ((w.restarts ≡ total_restarts (members i k i.pods)) × (w.pods_omitted ≡ 0))))

  length-map : {A B : Type 0} (f : A → B) (xs : List A) → length (map f xs) ≡ length xs
  length-map f [] = refl
  length-map f (x ∷ xs) = ap suc (length-map f xs)

  pub finished-key :
      (c : Dict Text Bool) (r : Dict Text ℕ) (x : Text × Workload)
      → Whole x
      → key_of (finished c r x) ≡ x.0
  finished-key c r (k, w) (n, (p, (f, (t, z)))) =
      let cut = finished-IsCut c r k w z in
      let v = finished c r (k, w) in
      ap (λ l. key l v.namespace v.name) cut.kind
      ∙ ap (λ l. key w.kind l v.name) cut.namespace
      ∙ ap (λ l. key w.kind w.namespace l) cut.name
      ∙ n

  pub finished-IsGrouped :
      (c : Dict Text Bool) (r : Dict Text ℕ) (x : Text × Workload)
      → Whole x
      → IsGrouped (finished c r x)
  finished-IsGrouped c r (k, w) (n, (p, (f, (t, z)))) =
      let cut = finished-IsCut c r k w z in
      let v = finished c r (k, w) in
      let named = finished-key c r (k, w) (n, (p, (f, (t, z)))) in
      let mine = members i k i.pods in
      record {
        pods =
            cut.pods
            ∙ ap (shown w.kind) p
            ∙ ap (λ l. shown l (map (pod_row_for go now) mine)) (sym cut.kind)
            ∙ ap (λ l. shown v.kind (map (pod_row_for go now) (members i l i.pods))) (sym named);
        omitted =
            cut.omitted
            ∙ ap length p
            ∙ length-map (pod_row_for go now) mine
            ∙ ap (λ l. length (members i l i.pods)) (sym named);
        restarts = cut.restarts ∙ t ∙ ap (λ l. total_restarts (members i l i.pods)) (sym named);
        findings =
            cut.findings
            ∙ f
            ∙ ap (λ l. keep (λ f. any (λ p. text_eq (pod_name p) f.pod) (members i l i.pods)) fs)
                (sym named);
      }
