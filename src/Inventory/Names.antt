-- ===== src/Inventory/Names.antt =====
-- The workload that each pod is looked up to, where no two pods share their namespace and name.
use kubeagent.Prelude.{
  ◌≡◌, refl, ap, ◌∙◌, Bool, false, List, [], ◌∷◌, some, Text, text_eq, text_eq_iff, All, map, arith,
  if◌then◌else◌,
}
use kubeagent.Prelude.Dict.{Dict, find, put, find-put, contains, text_eq_inst}
use kubeagent.Prelude.Unique.{Unique}
use kubeagent.Inventory.{Pod, Inputs}
use kubeagent.Inventory.Pods.{controller_owner}
use kubeagent.Inventory.Owners.{Owner, full_name, rolled_up, owners_from, owner_of, pod_owners}

abbrev pub pod_name : Pod → Text
pod_name p = full_name p.namespace p.name

-- No two pods share their namespace and name, as the API server has it.
abbrev pub Distinct : List Pod → Type 0
Distinct ps = Unique (map pod_name ps)

module _ (sets jobs : Dict Text Text) (crons : Dict Text Bool) where
  find-owners_from :
      (k : Text) (out : Dict Text Owner) (ps : List Pod)
      → contains (map pod_name ps) k ≡ false
      → find k (owners_from sets jobs crons out ps) ≡ find k out
  unfolding owners_from contains
  find-owners_from k out [] h = refl
  find-owners_from k out (p ∷ ps) h =
      let o = rolled_up sets jobs crons p (controller_owner p.owners) in
      let apart : text_eq (pod_name p) k ≡ false = ground (arith) in
      find-owners_from k (put (pod_name p) o out) ps (ground arith)
      ∙ find-put (pod_name p) k o out
      ∙ ap (λ b. if b then some o else find k out) apart

  owners_from-All :
      (out : Dict Text Owner) (ps : List Pod)
      → Distinct ps
      → All
          (λ p.
            find (pod_name p) (owners_from sets jobs crons out ps)
            ≡ some (rolled_up sets jobs crons p (controller_owner p.owners)))
          ps
  unfolding owners_from
  owners_from-All out [] u = tt
  owners_from-All out (p ∷ ps) (h, u) =
      let o = rolled_up sets jobs crons p (controller_owner p.owners) in
      (
        find-owners_from (pod_name p) (put (pod_name p) o out) ps h
            ∙ find-put (pod_name p) (pod_name p) o out
            ∙ ap (λ b. if b then some o else find (pod_name p) out)
                ((text_eq_iff (pod_name p) (pod_name p)).1 refl),
        owners_from-All (put (pod_name p) o out) ps u,
      )

-- Each pod is looked up to the workload that it rolls up to.
pub pod_owners-All :
    (i : Inputs)
    → Distinct i.pods
    → All (λ p. find (pod_name p) (pod_owners i) ≡ some (owner_of i p)) i.pods
unfolding pod_owners owner_of
pod_owners-All i u = owners_from-All _ _ _ [] i.pods u
