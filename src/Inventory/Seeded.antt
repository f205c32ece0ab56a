-- ===== src/Inventory/Seeded.antt =====
-- What a workload holds before the loop over the pods, and after it.
use mathlib.Core.Path.{subst}
use mathlib.Core.List.{append-nil, append_assoc}
use kubeagent.Prelude.{
  ℕ, ◌+◌, ◌≡◌, refl, sym, ap, ◌∙◌, List, [], ◌∷◌, ◌++◌, Option, none, some, Text, text_eq,
  text_eq_iff, All, All-append, map, arith, Bool-cases, inl, inr,
}
use kubeagent.Prelude.Dict.{find, find-put, text_eq_inst}
use kubeagent.Prelude.Unique.{KeysUnique, put-KeysUnique}
use kubeagent.Inventory.{Workload, Pod, Inputs, Runtime}
use kubeagent.Inventory.Pods.{pod_restarts, pod_row_for}
use kubeagent.Inventory.Seeds.{key, Seeds, seeded, seed_all, seeds_of}
use kubeagent.Inventory.Assemble.{or_plain, with_pod}
use kubeagent.Inventory.Grown.{owner_key, placed, grown}

abbrev pub key_of : Workload → Text
key_of w = key w.kind w.namespace w.name

-- The restarts of the containers of these pods.
abbrev pub total_restarts : List Pod → ℕ
total_restarts [] = 0
total_restarts (p ∷ ps) = (pod_restarts p).0 + total_restarts ps

total_last :
    (ps : List Pod) (p : Pod)
    → total_restarts (ps ++ p ∷ []) ≡ total_restarts ps + (pod_restarts p).0
total_last [] p = omega arith
total_last (q ∷ ps) p = omega (arith, total_last ps p)

map_last :
    {A B : Type 0} (f : A → B) (xs : List A) (x : A) → map f (xs ++ x ∷ []) ≡ map f xs ++ f x ∷ []
map_last f [] x = refl
map_last f (y ∷ xs) x = ap (λ l. f y ∷ l) (map_last f xs x)

All-mapped :
    {A B : Type 0} (P : B → Type 0) (f : A → B)
    → ((x : A) → P (f x))
    → (xs : List A) → All P (map f xs)
All-mapped P f h [] = tt
All-mapped P f h (x ∷ xs) = (h x, All-mapped P f h xs)

-- A workload that no pod and no finding was added to.
abbrev pub IsFresh : Workload → Type 0
IsFresh w = (w.pods ≡ []) × ((w.findings ≡ []) × ((w.restarts ≡ 0) × (w.pods_omitted ≡ 0)))

pub seeds_of-IsFresh : (i : Inputs) → All IsFresh (seeds_of i)
unfolding seeds_of
seeds_of-IsFresh i =
    All-append IsFresh _ _ (All-mapped IsFresh _ (λ d. (refl, (refl, (refl, refl)))) i.deployments)
      (All-append IsFresh _ _
        (All-mapped IsFresh _ (λ d. (refl, (refl, (refl, refl)))) i.stateful_sets)
        (All-append IsFresh _ _
          (All-mapped IsFresh _ (λ d. (refl, (refl, (refl, refl)))) i.daemon_sets)
          (All-append IsFresh _ _
            (All-mapped IsFresh _ (λ d. (refl, (refl, (refl, refl)))) i.cron_jobs)
            (All-mapped IsFresh _ (λ d. (refl, (refl, (refl, refl)))) _))))

abbrev pub IsSeed : Text → Option Workload → Type 0
IsSeed k none = Unit
IsSeed k (some w) = (key_of w ≡ k) × IsFresh w

pub find-seed_all :
    (k : Text) (ws : List Workload) (s : Seeds)
    → All IsFresh ws
    → IsSeed k (find k s.workloads)
    → IsSeed k (find k (seed_all s ws).workloads)
unfolding seed_all seeded
find-seed_all k [] s h g = g
find-seed_all k (w ∷ ws) s (h, hs) g = find-seed_all k ws (seeded w s) hs (
    subst (IsSeed k) (sym (find-put (key_of w) k w s.workloads))
      (elim (Bool-cases (text_eq (key_of w) k)) [
        | inl e ↦ rw e ((text_eq_iff (key_of w) k).0 e, h)
        | inr e ↦ rw e g
      ]))

pub seed_all-KeysUnique :
    (ws : List Workload) (s : Seeds) → KeysUnique s.workloads → KeysUnique (seed_all s ws).workloads
unfolding seed_all seeded
seed_all-KeysUnique [] s u = u
seed_all-KeysUnique (w ∷ ws) s u =
    seed_all-KeysUnique ws (seeded w s) (put-KeysUnique (key_of w) w s.workloads u)

module _ (go : Runtime) (now : ℕ) where
  -- A workload of a key that holds these pods and no finding.
  abbrev pub Holds : Text → List Pod → Workload → Type 0
  Holds k ps w =
      (key_of w ≡ k)
      × ((w.pods ≡ map (pod_row_for go now) ps)
          × ((w.findings ≡ []) × ((w.restarts ≡ total_restarts ps) × (w.pods_omitted ≡ 0))))

  abbrev pub MayHold : Text → List Pod → Option Workload → Type 0
  MayHold k ps none = ps ≡ []
  MayHold k ps (some w) = Holds k ps w

  pub seed-MayHold : (k : Text) (w : Option Workload) → IsSeed k w → MayHold k [] w
  seed-MayHold k none h = refl
  seed-MayHold k (some w) (n, (p, (f, (r, o)))) = (n, (p, (f, (r, o))))

  module _ (i : Inputs) where
    with_pod-Holds :
        (k : Text) (ps : List Pod) (p : Pod) (w : Option Workload)
        → owner_key i p ≡ k
        → MayHold k ps w
        → Holds k (ps ++ p ∷ []) (with_pod go now p (or_plain (placed i p) w))
    unfolding with_pod
    with_pod-Holds k ps p none e h =
        subst (λ l. Holds k (l ++ p ∷ []) (with_pod go now p (or_plain (placed i p) none))) (sym h)
          (e, (refl, (refl, (omega arith, refl))))
    with_pod-Holds k ps p (some w) e (n, (q, (f, (r, o)))) = (
      n,
      (
        ap (λ l. l ++ pod_row_for go now p ∷ []) q ∙ sym (map_last (pod_row_for go now) ps p),
        (f, (ap (λ t. t + (pod_restarts p).0) r ∙ sym (total_last ps p), o)),
      ),
    )

    pub grown-MayHold :
        (k : Text) (ps ms : List Pod) (w : Option Workload)
        → All (λ p. owner_key i p ≡ k) ms
        → MayHold k ps w
        → MayHold k (ps ++ ms) (grown go now i w ms)
    grown-MayHold k ps [] w es h = subst (λ l. MayHold k l w) (sym (append-nil ps)) h
    grown-MayHold k ps (p ∷ ms) w (e, es) h =
        subst (λ l. MayHold k l (grown go now i w (p ∷ ms))) (append_assoc ps (p ∷ []) ms)
          (grown-MayHold k (ps ++ p ∷ []) ms (some (with_pod go now p (or_plain (placed i p) w))) es
            (with_pod-Holds k ps p w e h))
