-- ===== src/Prelude/Dict.antt =====
-- Go maps as association lists, over any key type with a Boolean equality.
use Prim.Native.Nat.{ℕ, suc, ◌+◌}
use mathlib.Core.Path.{◌≡◌, refl}
use mathlib.Core.Logic.{◌↔◌, inl, inr}
use mathlib.Core.List.{List, [], ◌∷◌}
use mathlib.Core.Bool.{Bool, true, false, ◌||◌}
use mathlib.Core.Option.{Option, none, some}
use native.Mathlib.Omega.{arith}
use kubeagent.Prelude.Tests.{if◌then◌else◌, Bool-cases, eqb, eqb_iff}
use kubeagent.Prelude.Lists.{length, count_if, All}
use kubeagent.Prelude.Sort.{insert_by, sort_by}
use kubeagent.Prelude.Strings.{Text, text_eq, text_eq_iff}

abbrev pub Dict {ℓ κ} : Type ℓ → Type κ → Type (ℓ ⊔ κ)
Dict K V = List (K × V)

-- A type of keys: a test for equality that decides paths.
pub record Keyed {ℓ} (K : Type ℓ) : Type ℓ where
  pub same : K → K → Bool
  pub same_iff : (j k : K) → (same j k ≡ true) ↔ (j ≡ k)

abbrev pub ◌==◌ {ℓ} : {K : Type ℓ} ⦃e : Keyed K⦄ → K → K → Bool
◌==◌ ⦃e⦄ = e.same

infix 50 ◌==◌
instance abbrev pub nat_eq : Keyed ℕ
nat_eq = record { same = eqb; same_iff = eqb_iff }

instance abbrev pub text_eq_inst : Keyed Text
text_eq_inst = record { same = text_eq; same_iff = text_eq_iff }

-- 1 for a value that passes a test.
abbrev pub one_if {ℓ} : {V : Type ℓ} → (V → Bool) → Option V → ℕ
one_if p none = 0
one_if p (some v) = if p v then 1 else 0

module _ {ℓ κ} {K : Type ℓ} {V : Type κ} ⦃e : Keyed K⦄ where
  unfoldable pub find : K → Dict K V → Option V
  find k [] = none
  find k ((j, v) ∷ m) = if j == k then some v else find k m

  unfoldable pub put : K → V → Dict K V → Dict K V
  put k v [] = (k, v) ∷ []
  put k v ((j, w) ∷ m) = if j == k then (k, v) ∷ m else (j, w) ∷ put k v m

  unfoldable pub del : K → Dict K V → Dict K V
  del k [] = []
  del k ((j, w) ∷ m) = let rest = del k m in if j == k then rest else (j, w) ∷ rest

  pub find-put :
      (k j : K) (v : V) (m : Dict K V) → find j (put k v m) ≡ (if k == j then some v else find j m)
  unfolding find put
  find-put k j v [] = refl
  find-put k j v ((i, w) ∷ m) =
      ground (arith, e.same_iff k j, e.same_iff i k, e.same_iff i j, find-put k j v m)

  pub find-del : (k j : K) (m : Dict K V) → find j (del k m) ≡ (if k == j then none else find j m)
  unfolding find del
  find-del k j [] = elim (Bool-cases (k == j)) [ inl h ↦ rw h | inr h ↦ rw h ]
  find-del k j ((i, w) ∷ m) =
      ground (arith, e.same_iff k j, e.same_iff i k, e.same_iff i j, find-del k j m)

  -- Whether a key is present.
  unfoldable pub has : K → Dict K V → Bool
  unfolding find
  has k m = elim (find k m) [ none ↦ false | some v ↦ true ]

  pub has-cons : (j k : K) (v : V) (m : Dict K V) → has j ((k, v) ∷ m) ≡ (k == j || has j m)
  unfolding has find
  has-cons j k v m = ground arith

  pub has-put : (k j : K) (v : V) (m : Dict K V) → has j (put k v m) ≡ (k == j || has j m)
  unfolding has
  has-put k j v m = ground (arith, find-put k j v m)

  entries-weaken :
      (k : K) (v : V) (m n : Dict K V)
      → All (λ (x : K × V). has x.0 m ≡ true) n
      → All (λ (x : K × V). has x.0 ((k, v) ∷ m) ≡ true) n
  entries-weaken k v m [] h = tt
  entries-weaken k v m ((j, w) ∷ n) h =
      (ground (arith, has-cons j k v m, h.0), entries-weaken k v m n h.1)

  -- Every entry's key is present.
  pub entries-has : (m : Dict K V) → All (λ (x : K × V). has x.0 m ≡ true) m
  entries-has [] = tt
  entries-has ((k, v) ∷ m) =
      (ground (arith, has-cons k k v m, e.same_iff k k), entries-weaken k v m m (entries-has m))

  pub length-put :
      (k : K) (v : V) (m : Dict K V)
      → length (put k v m) ≡ (if has k m then length m else suc (length m))
  unfolding has put find
  length-put k v [] = refl
  length-put k v ((j, w) ∷ m) = elim (Bool-cases (j == k)) [
    | inl h ↦ rw h (ground arith)
    | inr h ↦ rw h (ground (arith, length-put k v m))
  ]

  -- How the number of values that pass a test changes by a write.
  pub count_if-put :
      (p : V → Bool) (k : K) (v : V) (m : Dict K V)
      → count_if (λ (x : K × V). p x.1) (put k v m) + one_if p (find k m)
        ≡ count_if (λ (x : K × V). p x.1) m + one_if p (some v)
  unfolding find put count_if
  count_if-put p k v [] = ground arith
  count_if-put p k v ((j, w) ∷ m) = elim (Bool-cases (j == k)) [
    | inl h ↦ rw h (ground arith)
    | inr h ↦ rw h (ground (arith, count_if-put p k v m))
  ]

module _ {ℓ} {K : Type ℓ} ⦃e : Keyed K⦄ where
  unfoldable pub contains : List K → K → Bool
  contains [] k = false
  contains (j ∷ ks) k = j == k || contains ks k

  pub contains-insert_by :
      (less : K → K → Bool) (j : K) (ks : List K) (k : K)
      → contains (insert_by less j ks) k ≡ (j == k || contains ks k)
  unfolding insert_by contains
  contains-insert_by less j [] k = refl
  contains-insert_by less j (i ∷ ks) k = elim (Bool-cases (less i j)) [
    | inl h ↦ rw h (ground (arith, contains-insert_by less j ks k))
    | inr h ↦ rw h
  ]

  -- The first occurrence of each key, in order; `seen` holds those already taken.
  unfoldable pub dedup_from : List K → List K → List K
  unfolding contains
  dedup_from seen [] = []
  dedup_from seen (k ∷ ks) =
      let skip = dedup_from seen ks in
      let take = k ∷ dedup_from (k ∷ seen) ks in if contains seen k then skip else take

  pub contains-dedup_from :
      (seen ks : List K) (k : K)
      → contains (dedup_from seen ks) k || contains seen k ≡ contains ks k || contains seen k
  unfolding dedup_from contains
  contains-dedup_from seen [] k = refl
  contains-dedup_from seen (j ∷ ks) k = elim (Bool-cases (contains seen j)) [
    | inl h ↦ rw h (ground (arith, e.same_iff j k, contains-dedup_from seen ks k))
    | inr h ↦ rw h (ground (arith, contains-dedup_from (j ∷ seen) ks k))
  ]

  unfoldable pub dedup : List K → List K
  unfolding dedup_from
  dedup ks = dedup_from [] ks

  pub contains-dedup : (ks : List K) (k : K) → contains (dedup ks) k ≡ contains ks k
  unfolding dedup
  contains-dedup ks k = ground (arith, contains-dedup_from [] ks k)

  pub contains-sort_by :
      (less : K → K → Bool) (ks : List K) (k : K) → contains (sort_by less ks) k ≡ contains ks k
  unfolding sort_by contains
  contains-sort_by less [] k = refl
  contains-sort_by less (j ∷ ks) k =
      rw (contains-insert_by less j (sort_by less ks) k) (rw (contains-sort_by less ks k))
