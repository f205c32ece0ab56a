-- ===== src/Rootcause/Indexed.antt =====
-- The workloads of a slice by their index, through the writes of `AnnotateRegistry`.
use kubeagent.Prelude.{
  ℕ, zero, suc, ◌≡◌, refl, sym, ap, ◌∙◌, Bool, true, false, List, [], ◌∷◌, Option, none, some, map,
  get_elem?, eqb, eqb_iff, arith, if◌then◌else◌, Bool-cases, inl, inr,
}
use kubeagent.Prelude.Dict.{contains, nat_eq}
use kubeagent.Inventory.{Workload}
use kubeagent.Rootcause.Registry.{update_at, update_each}

abbrev pub changed : (Workload → Workload) → Option Workload → Option Workload
changed f none = none
changed f (some w) = some (f w)

pub get_elem?-map :
    (f : Workload → Workload) (ws : List Workload) (j : ℕ)
    → get_elem? (map f ws) j ≡ changed f (get_elem? ws j)
get_elem?-map f [] j = refl
get_elem?-map f (w ∷ ws) zero = refl
get_elem?-map f (w ∷ ws) (suc j) = get_elem?-map f ws j

abbrev or_this : Workload → Option Workload → Workload
or_this w none = w
or_this w (some v) = v

-- Two slices that agree at every index are one.
pub indexed_ext : (vs ws : List Workload) → ((j : ℕ) → get_elem? vs j ≡ get_elem? ws j) → vs ≡ ws
indexed_ext [] [] h = refl
indexed_ext [] (w ∷ ws) h = let clash = h 0 in absurd (ground arith)
indexed_ext (v ∷ vs) [] h = let clash = h 0 in absurd (ground arith)
indexed_ext (v ∷ vs) (w ∷ ws) h =
    ap (λ x. x ∷ vs) (ap (or_this v) (h 0)) ∙ ap (λ l. w ∷ l) (indexed_ext vs ws (λ j. h (suc j)))

same_either : {A : Type 0} (b : Bool) (x : A) → x ≡ (if b then x else x)
same_either true x = refl
same_either false x = refl

get_elem?-update_at :
    (i : ℕ) (f : Workload → Workload) (ws : List Workload) (j : ℕ)
    → get_elem? (update_at i f ws) j
      ≡ (if eqb i j then changed f (get_elem? ws j) else get_elem? ws j)
unfolding update_at
get_elem?-update_at i f [] j = same_either (eqb i j) none
get_elem?-update_at zero f (w ∷ ws) zero = refl
get_elem?-update_at zero f (w ∷ ws) (suc j) = ground arith
get_elem?-update_at (suc i) f (w ∷ ws) zero = ground arith
get_elem?-update_at (suc i) f (w ∷ ws) (suc j) =
    let same : eqb (suc i) (suc j) ≡ eqb i j = ground arith in
    rw same (get_elem?-update_at i f ws j)

-- Indices of which none stands twice.
abbrev pub Apart : List ℕ → Type 0
Apart [] = Unit
Apart (i ∷ is) = (contains is i ≡ false) × Apart is

pub get_elem?-update_each :
    (is : List ℕ) (f : Workload → Workload) (ws : List Workload) (j : ℕ)
    → Apart is
    → get_elem? (update_each is f ws) j
      ≡ (if contains is j then changed f (get_elem? ws j) else get_elem? ws j)
unfolding update_each contains
get_elem?-update_each [] f ws j u = refl
get_elem?-update_each (i ∷ is) f ws j (fresh, u) =
    get_elem?-update_each is f (update_at i f ws) j u
    ∙ ap (λ x. if contains is j then changed f x else x) (get_elem?-update_at i f ws j)
    ∙ elim (Bool-cases (eqb i j)) [
      | inl e ↦
          let absent : contains is j ≡ false = ap (contains is) (sym ((eqb_iff i j).0 e)) ∙ fresh in
          rw (e, absent) refl
      | inr e ↦ rw e refl
    ]
