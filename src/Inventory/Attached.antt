-- ===== src/Inventory/Attached.antt =====
-- What the loop over the findings leaves under one key.
use mathlib.Core.List.{append-nil, append_assoc}
use kubeagent.Prelude.{
  ◌≡◌, refl, sym, ap, ◌∙◌, Bool, true, false, List, [], ◌∷◌, ◌++◌, Option, none, some, Text,
  text_eq, text_eq_iff, keep, arith, if◌then◌else◌, Bool-cases, inl, inr,
}
use kubeagent.Prelude.Dict.{Dict, find, find-put, text_eq_inst}
use kubeagent.Prelude.Unique.{KeysUnique, put-KeysUnique}
use kubeagent.Inventory.{Workload, Detection}
use kubeagent.Inventory.Assemble.{attach_to, attach, attach_all}
use kubeagent.Inventory.Grown.{points}

abbrev pub with_findings : List Detection → Workload → Workload
with_findings fs w = record w { findings = w.findings ++ fs }

abbrev pub one_if_pointed : Text → Option Text → Detection → List Detection
one_if_pointed k o f = if points k o then f ∷ [] else []

with_none : (w : Workload) → with_findings [] w ≡ w
with_none w = ap (λ l. record w { findings = l }) (append-nil w.findings)

-- What a finding does under a key that holds a workload.
find-attach_to :
    (f : Detection) (k j : Text) (o : Option Workload) (w : Workload) (m : Dict Text Workload)
    → find j m ≡ o
    → find k m ≡ some w
    → find k (attach_to f j o m) ≡ some (with_findings (one_if_pointed k (some j) f) w)
find-attach_to f k j none w m h g = elim (Bool-cases (text_eq j k)) [
  | inl e ↦
      let clash : none ≡ some w = sym h ∙ ap (λ (i : Text). find i m) ((text_eq_iff j k).0 e) ∙ g in
      absurd (ground arith)
  | inr e ↦ rw e (g ∙ ap some (sym (with_none w)))
]
find-attach_to f k j (some v) w m h g = elim (Bool-cases (text_eq j k)) [
  | inl e ↦
      let same : some v ≡ some w =
        sym h ∙ ap (λ (i : Text). find i m) ((text_eq_iff j k).0 e) ∙ g in
      find-put j k (with_findings (f ∷ []) v) m ∙ rw e (ap (λ (x : Option Workload). added x) same)
  | inr e ↦ find-put j k (with_findings (f ∷ []) v) m ∙ rw e (g ∙ ap some (sym (with_none w)))
]
  where
    added : Option Workload → Option Workload
    added none = none
    added (some x) = some (with_findings (f ∷ []) x)

find-attach :
    (f : Detection) (k : Text) (o : Option Text) (w : Workload) (m : Dict Text Workload)
    → find k m ≡ some w
    → find k (attach f o m) ≡ some (with_findings (one_if_pointed k o f) w)
unfolding attach
find-attach f k none w m g = g ∙ ap some (sym (with_none w))
find-attach f k (some j) w m g = find-attach_to f k j (find j m) w m refl g

module _ (keys : Dict Text Text) where
  -- The findings whose pod leads to a key, in their order.
  abbrev pub pointed : Text → List Detection → List Detection
  pointed k fs = keep (λ f. points k (find f.pod keys)) fs

  pub find-attach_all :
      (k : Text) (fs : List Detection) (w : Workload) (m : Dict Text Workload)
      → find k m ≡ some w
      → find k (attach_all keys fs m) ≡ some (with_findings (pointed k fs) w)
  unfolding attach_all keep
  find-attach_all k [] w m g = g ∙ ap some (sym (with_none w))
  find-attach_all k (f ∷ fs) w m g =
      find-attach_all k fs (with_findings (one_if_pointed k (find f.pod keys) f) w)
        (attach f (find f.pod keys) m) (find-attach f k (find f.pod keys) w m g)
      ∙ ap (λ l. some (record w { findings = l }))
          (append_assoc w.findings (one_if_pointed k (find f.pod keys) f) (pointed k fs)
            ∙ ap (λ l. w.findings ++ l) (split (points k (find f.pod keys))))
    where
      split :
          (b : Bool)
          → (if b then f ∷ [] else []) ++ pointed k fs
            ≡ (if b then f ∷ pointed k fs else pointed k fs)
      split true = refl
      split false = refl

  attach_to-none :
      (f : Detection) (k j : Text) (o : Option Workload) (m : Dict Text Workload)
      → find j m ≡ o
      → find k m ≡ none
      → find k (attach_to f j o m) ≡ none
  attach_to-none f k j none m h g = g
  attach_to-none f k j (some v) m h g = elim (Bool-cases (text_eq j k)) [
    | inl e ↦
        let clash : some v ≡ none =
          sym h ∙ ap (λ (i : Text). find i m) ((text_eq_iff j k).0 e) ∙ g in
        absurd (ground arith)
    | inr e ↦ find-put j k (with_findings (f ∷ []) v) m ∙ rw e g
  ]

  attach-none :
      (f : Detection) (k : Text) (o : Option Text) (m : Dict Text Workload)
      → find k m ≡ none
      → find k (attach f o m) ≡ none
  unfolding attach
  attach-none f k none m g = g
  attach-none f k (some j) m g = attach_to-none f k j (find j m) m refl g

  pub attach_all-none :
      (k : Text) (fs : List Detection) (m : Dict Text Workload)
      → find k m ≡ none
      → find k (attach_all keys fs m) ≡ none
  unfolding attach_all
  attach_all-none k [] m g = g
  attach_all-none k (f ∷ fs) m g =
      attach_all-none k fs (attach f (find f.pod keys) m) (attach-none f k (find f.pod keys) m g)

  attach_to-KeysUnique :
      (f : Detection) (k : Text) (o : Option Workload) (m : Dict Text Workload)
      → KeysUnique m
      → KeysUnique (attach_to f k o m)
  attach_to-KeysUnique f k none m u = u
  attach_to-KeysUnique f k (some w) m u = put-KeysUnique k (with_findings (f ∷ []) w) m u

  attach-KeysUnique :
      (f : Detection) (o : Option Text) (m : Dict Text Workload)
      → KeysUnique m
      → KeysUnique (attach f o m)
  unfolding attach
  attach-KeysUnique f none m u = u
  attach-KeysUnique f (some k) m u = attach_to-KeysUnique f k (find k m) m u

  pub attach_all-KeysUnique :
      (fs : List Detection) (m : Dict Text Workload)
      → KeysUnique m
      → KeysUnique (attach_all keys fs m)
  unfolding attach_all
  attach_all-KeysUnique [] m u = u
  attach_all-KeysUnique (f ∷ fs) m u =
      attach_all-KeysUnique fs (attach f (find f.pod keys) m)
        (attach-KeysUnique f (find f.pod keys) m u)
