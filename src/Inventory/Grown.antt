-- ===== src/Inventory/Grown.antt =====
-- What the loop over the pods leaves under one key, told from the pods of that key alone.
use kubeagent.Prelude.{
  ℕ, ◌≡◌, refl, sym, ap, ◌∙◌, Bool, false, ◌||◌, List, [], ◌∷◌, Option, none, some, Text, text_eq,
  text_eq_iff, All, map, keep, any, arith, if◌then◌else◌, Bool-cases, inl, inr,
}
use kubeagent.Prelude.Dict.{Dict, find, find-put, contains, text_eq_inst}
use kubeagent.Prelude.Unique.{KeysUnique, put-KeysUnique}
use kubeagent.Inventory.{Workload, Pod, Inputs, Runtime}
use kubeagent.Inventory.Owners.{Owner, owner_of}
use kubeagent.Inventory.Seeds.{key}
use kubeagent.Inventory.Assemble.{Groups, or_plain, owner_or_zero, with_pod, add_pod, add_pods}
use kubeagent.Inventory.Names.{pod_name, Distinct}

-- The key of the workload that a pod rolls up to.
abbrev pub owner_key : Inputs → Pod → Text
owner_key i p = key (owner_of i p).kind p.namespace (owner_of i p).name

-- The pods that roll up to a key, in their order.
abbrev pub members : Inputs → Text → List Pod → List Pod
members i k ps = keep (λ p. text_eq (owner_key i p) k) ps

-- The owner as `Assemble` reads it: in the namespace of the pod.
abbrev pub placed : Inputs → Pod → Owner
placed i p = record (owner_of i p) { namespace = p.namespace }

-- Whether a looked-up key is this one.
abbrev pub points : Text → Option Text → Bool
points k none = false
points k (some j) = text_eq j k

module _ (go : Runtime) (now : ℕ) (i : Inputs) where
  abbrev pub grown : Option Workload → List Pod → Option Workload
  grown w [] = w
  grown w (p ∷ ps) = grown (some (with_pod go now p (or_plain (placed i p) w))) ps

  find-add_pod :
      (k : Text) (p : Pod) (g : Groups)
      → find k (add_pod go now p (owner_of i p) g).workloads ≡ (
          if text_eq (owner_key i p) k
          then some (with_pod go now p (or_plain (placed i p) (find k g.workloads)))
          else find k g.workloads)
  unfolding add_pod
  find-add_pod k p g =
      find-put (owner_key i p) k
        (with_pod go now p (or_plain (placed i p) (find (owner_key i p) g.workloads))) g.workloads
      ∙ elim (Bool-cases (text_eq (owner_key i p) k)) [
        | inl e ↦ rw e (
            ap (λ j. some (with_pod go now p (or_plain (placed i p) (find j g.workloads))))
              ((text_eq_iff (owner_key i p) k).0 e))
        | inr e ↦ rw e refl
      ]

  module _ (owners : Dict Text Owner) where
    -- Each of the pods is looked up to its owner.
    abbrev pub Known : List Pod → Type 0
    Known ps = All (λ p. find (pod_name p) owners ≡ some (owner_of i p)) ps

    pub find-add_pods :
        (k : Text) (ps : List Pod) (g : Groups)
        → Known ps
        → find k (add_pods go now owners ps g).workloads
          ≡ grown (find k g.workloads) (members i k ps)
    unfolding add_pods keep
    find-add_pods k [] g h = refl
    find-add_pods k (p ∷ ps) g (h, hs) =
        ap
          (λ o. find k (add_pods go now owners ps (add_pod go now p (owner_or_zero o) g)).workloads)
          h
        ∙ find-add_pods k ps (add_pod go now p (owner_of i p) g) hs
        ∙ ap (λ w. grown w (members i k ps)) (find-add_pod k p g)
        ∙ elim (Bool-cases (text_eq (owner_key i p) k)) [ inl e ↦ rw e refl | inr e ↦ rw e refl ]

    pub add_pods-KeysUnique :
        (ps : List Pod) (g : Groups)
        → KeysUnique g.workloads
        → KeysUnique (add_pods go now owners ps g).workloads
    unfolding add_pods add_pod
    add_pods-KeysUnique [] g u = u
    add_pods-KeysUnique (p ∷ ps) g u =
        add_pods-KeysUnique ps (add_pod go now p (owner_or_zero (find (pod_name p) owners)) g)
          (put-KeysUnique _ _ g.workloads u)

    abbrev pub named : Text → List Pod → Bool
    named n ps = any (λ p. text_eq (pod_name p) n) ps

    named-contains : (n : Text) (ps : List Pod) → named n ps ≡ contains (map pod_name ps) n
    unfolding contains
    named-contains n [] = refl
    named-contains n (p ∷ ps) = ap (λ b. text_eq (pod_name p) n || b) (named-contains n ps)

    pub named-members :
        (n k : Text) (ps : List Pod) → named n ps ≡ false → named n (members i k ps) ≡ false
    unfolding keep
    named-members n k [] h = refl
    named-members n k (p ∷ ps) h = ground (arith, named-members n k ps)

    points-add_pod :
        (k n : Text) (p : Pod) (g : Groups)
        → points k (find n (add_pod go now p (owner_of i p) g).pod_key) ≡ (
            if text_eq (pod_name p) n
            then text_eq (owner_key i p) k
            else points k (find n g.pod_key))
    unfolding add_pod
    points-add_pod k n p g =
        ap (points k) (find-put (pod_name p) n (owner_key i p) g.pod_key)
        ∙ elim (Bool-cases (text_eq (pod_name p) n)) [ inl e ↦ rw e refl | inr e ↦ rw e refl ]

    -- The key noted for a pod's name leads to the workload that the pod of that name rolls up to.
    pub points-add_pods :
        (k n : Text) (ps : List Pod) (g : Groups)
        → Distinct ps
        → Known ps
        → points k (find n (add_pods go now owners ps g).pod_key)
          ≡ (if named n ps then named n (members i k ps) else points k (find n g.pod_key))
    unfolding add_pods keep
    points-add_pods k n [] g u h = refl
    points-add_pods k n (p ∷ ps) g (fresh, u) (h, hs) =
        let g' = add_pod go now p (owner_of i p) g in
        ap
          (λ o.
            points k
              (find n (add_pods go now owners ps (add_pod go now p (owner_or_zero o) g)).pod_key))
          h
        ∙ points-add_pods k n ps g' u hs
        ∙ ap (λ (b : Bool). if named n ps then named n (members i k ps) else b)
            (points-add_pod k n p g)
        ∙ elim (Bool-cases (text_eq (pod_name p) n)) [
          | inl e ↦
              let rest : named n ps ≡ false =
                ap (named n) refl
                ∙ named-contains n ps
                ∙ ap (λ m. contains (map pod_name ps) m) (sym ((text_eq_iff (pod_name p) n).0 e))
                ∙ fresh in
              elim (Bool-cases (text_eq (owner_key i p) k)) [
                | inl o ↦ rw (e, rest, o) (rw e refl)
                | inr o ↦ rw (e, rest, o) (sym (named-members n k ps rest))
              ]
          | inr e ↦ elim (Bool-cases (text_eq (owner_key i p) k)) [
            | inl o ↦ rw (e, o) (rw e refl)
            | inr o ↦ rw (e, o) refl
          ]
        ]
