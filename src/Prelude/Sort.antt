-- ===== src/Prelude/Sort.antt =====
-- Sorting by a less-function, as `sort.Slice` and `sort.SliceStable` are called: equal elements
-- keep their order.
use mathlib.Core.Path.{◌≡◌, refl, ap₂, subst}
use mathlib.Core.List.{
  List, [], ◌∷◌, map, Perm, Mem, mem-cons, mem-cons_self, not-mem-nil, perm-cons,
}
use mathlib.Core.Logic.Or
use mathlib.Core.List.Perm
use mathlib.Core.Bool.{Bool, true, false, ◌&&◌, Bool-set}
use native.Mathlib.Omega.{arith}
use kubeagent.Prelude.Tests.{if◌then◌else◌, Bool-cases}
use kubeagent.Prelude.Lists.{All, All-map, count_if}
use mathlib.Core.Logic.{inl, inr, ◌↔◌}

module _ {ℓ} {A : Type ℓ} (less : A → A → Bool) where
  unfoldable pub insert_by : A → List A → List A
  insert_by x [] = x ∷ []
  insert_by x (y ∷ ys) = let rest = insert_by x ys in if less y x then y ∷ rest else x ∷ y ∷ ys

  unfoldable pub sort_by : List A → List A
  unfolding insert_by
  sort_by [] = []
  sort_by (x ∷ xs) = insert_by x (sort_by xs)

  -- No later element is less than an earlier one.
  abbrev pub IsSorted : List A → Type 0
  IsSorted [] = Unit
  IsSorted (x ∷ xs) = All (λ y. less y x ≡ false) xs × IsSorted xs

  pub record IsStrictWeak : Type ℓ where
    pub asymm : (x y : A) → less x y ≡ true → less y x ≡ false
    pub neg_trans : (x y z : A) → less x y ≡ false → less y z ≡ false → less x z ≡ false

  insert_by-perm : (x : A) (xs : List A) → Perm (insert_by x xs) (x ∷ xs)
  unfolding insert_by
  insert_by-perm x [] = Perm.refl (x ∷ [])
  insert_by-perm x (y ∷ ys) = elim (Bool-cases (less y x)) [
    | inl e ↦ rw e (Perm.trans (Perm.cons y (insert_by-perm x ys)) (Perm.swap x y ys))
    | inr e ↦ rw e (Perm.refl (x ∷ y ∷ ys))
  ]

  pub sort_by-perm : (xs : List A) → Perm (sort_by xs) xs
  unfolding sort_by
  sort_by-perm [] = Perm.refl []
  sort_by-perm (x ∷ xs) = Perm.trans (insert_by-perm x (sort_by xs)) (Perm.cons x (sort_by-perm xs))

  pub All-insert_by {κ} :
      (P : A → Type κ) (x : A) (xs : List A) → P x → All P xs → All P (insert_by x xs)
  unfolding insert_by
  All-insert_by P x [] h k = (h, tt)
  All-insert_by P x (y ∷ ys) h k = elim (Bool-cases (less y x)) [
    | inl e ↦ rw e (k.0, All-insert_by P x ys h k.1)
    | inr e ↦ rw e (h, k)
  ]

  pub All-sort_by {κ} : (P : A → Type κ) (xs : List A) → All P xs → All P (sort_by xs)
  unfolding sort_by
  All-sort_by P [] h = tt
  All-sort_by P (x ∷ xs) h = All-insert_by P x (sort_by xs) h.0 (All-sort_by P xs h.1)

  count_if-insert_by :
      (p : A → Bool) (x : A) (xs : List A) → count_if p (insert_by x xs) ≡ count_if p (x ∷ xs)
  unfolding insert_by count_if
  count_if-insert_by p x [] = refl
  count_if-insert_by p x (y ∷ ys) = elim (Bool-cases (less y x)) [
    | inl e ↦ rw e (ground (arith, count_if-insert_by p x ys))
    | inr e ↦ rw e
  ]

  pub count_if-sort_by : (p : A → Bool) (xs : List A) → count_if p (sort_by xs) ≡ count_if p xs
  unfolding sort_by count_if
  count_if-sort_by p [] = refl
  count_if-sort_by p (x ∷ xs) =
      rw (count_if-insert_by p x (sort_by xs)) (ground (arith, count_if-sort_by p xs))

  module _ (w : IsStrictWeak) where
    insert_by-IsSorted : (x : A) (xs : List A) → IsSorted xs → IsSorted (insert_by x xs)
    unfolding insert_by
    insert_by-IsSorted x [] h = (tt, tt)
    insert_by-IsSorted x (y ∷ ys) h = elim (Bool-cases (less y x)) [
      | inl e ↦ rw e (
        All-insert_by (λ z. less z y ≡ false) x ys (w.asymm y x e) h.0,
        insert_by-IsSorted x ys h.1,
      )
      | inr e ↦ rw e ((e, All-map _ _ ys (λ z g. w.neg_trans z y x g e) h.0), h)
    ]

    pub sort_by-IsSorted : (xs : List A) → IsSorted (sort_by xs)
    unfolding sort_by
    sort_by-IsSorted [] = tt
    sort_by-IsSorted (x ∷ xs) = insert_by-IsSorted x (sort_by xs) (sort_by-IsSorted xs)

-- A strict order that tells any two elements apart, with a test of their equality.
pub record IsLinear {κ} {K : Type κ} (eq lt : K → K → Bool) : Type κ where
  pub eq_iff : (a b : K) → (eq a b ≡ true) ↔ (a ≡ b)
  pub weak : IsStrictWeak lt
  pub total : (a b : K) → lt a b ≡ false → lt b a ≡ false → a ≡ b

-- Compare by the first component, and by the second where the first are equal.
module _ {ℓ κ} {A : Type ℓ} {B : Type κ} (eq lt : A → A → Bool) (eq' lt' : B → B → Bool) where
  abbrev pub pair_eq : A × B → A × B → Bool
  pair_eq p q = eq p.0 q.0 && eq' p.1 q.1

  abbrev pub pair_lt : A × B → A × B → Bool
  pair_lt p q = if eq p.0 q.0 then lt' p.1 q.1 else lt p.0 q.0

  module _ (l : IsLinear eq lt) (m : IsLinear eq' lt') where
    pair-asymm : (p q : A × B) → pair_lt p q ≡ true → pair_lt q p ≡ false
    pair-asymm (a, b) (c, d) h =
        ground (arith, l.eq_iff a c, l.eq_iff c a, l.weak.asymm a c, m.weak.asymm b d)

    pair-neg_trans :
        (p q r : A × B) → pair_lt p q ≡ false → pair_lt q r ≡ false → pair_lt p r ≡ false
    pair-neg_trans (a, b) (c, d) (e, f) h k = ground (
      arith,
      l.eq_iff a c,
      l.eq_iff c e,
      l.eq_iff a e,
      l.weak.neg_trans a c e,
      l.total a c,
      l.total a e,
      l.weak.asymm a c,
      l.weak.asymm c e,
      l.weak.asymm a e,
      m.weak.neg_trans b d f,
    )

    pair-eq_iff : (p q : A × B) → (pair_eq p q ≡ true) ↔ (p ≡ q)
    pair-eq_iff (a, b) (c, d) = ground (arith, l.eq_iff a c, m.eq_iff b d)

    pair-total : (p q : A × B) → pair_lt p q ≡ false → pair_lt q p ≡ false → p ≡ q
    pair-total (a, b) (c, d) h k =
        ground (arith, l.eq_iff a c, l.eq_iff c a, l.total a c, m.total b d)

    pub pair-IsLinear : IsLinear pair_eq pair_lt
    pair-IsLinear = record {
      eq_iff = pair-eq_iff;
      weak = record { asymm = pair-asymm; neg_trans = pair-neg_trans };
      total = pair-total;
    }

irrefl {ℓ} : {A : Type ℓ} {lt : A → A → Bool} → IsStrictWeak lt → (x : A) → lt x x ≡ false
irrefl {lt} w x = elim (Bool-cases (lt x x)) [ inl e ↦ w.asymm x x e | inr e ↦ e ]

-- A property that is a proposition reaches each member.
All-mem {ℓ κ} :
    {A : Type ℓ} (P : A → Type κ)
    → ((x : A) → IsProp (P x))
    → {a : A} (xs : List A) → All P xs
    → Mem a xs
    → P a
All-mem P pr [] h m = absurd (not-mem-nil m)
All-mem P pr (x ∷ xs) h m = Or.elim (pr _) (mem-cons.0 m) (λ e. rw e h.0) (All-mem P pr xs h.1)

-- A linear order leaves one sorted arrangement.
pub sorted_unique {ℓ} :
    {A : Type ℓ} {eq lt : A → A → Bool}
    → IsLinear eq lt
    → (xs ys : List A) → IsSorted lt xs
    → IsSorted lt ys
    → Perm xs ys
    → xs ≡ ys
sorted_unique l [] ys h k p = Perm.nil-eq p
sorted_unique l (x ∷ xs) [] h k p = Perm.eq-nil p
sorted_unique {lt} l (x ∷ xs) (y ∷ ys) h k p =
    let e : x ≡ y =
      l.total x y
        (All-mem (λ z. lt z y ≡ false) (λ z. Bool-set _ _) (y ∷ ys) (irrefl l.weak y, k.0)
          ((Perm.mem_iff p).0 mem-cons_self))
        (All-mem (λ z. lt z x ≡ false) (λ z. Bool-set _ _) (x ∷ xs) (irrefl l.weak x, h.0)
          ((Perm.mem_iff p).1 mem-cons_self)) in
    ap₂ ◌∷◌ e
      (sorted_unique l xs ys h.1 k.1 ((perm-cons y).0 (subst (λ z. Perm (z ∷ xs) (y ∷ ys)) e p)))

-- A key through which `less` compares: sorting rearranged inputs gives the same keys in the same
-- places.
module _ {ℓ κ} {A : Type ℓ} {K : Type κ} (key : A → K) (lt : K → K → Bool) where
  abbrev pub on_key : A → A → Bool
  on_key x y = lt (key x) (key y)

  pub on_key-IsStrictWeak : IsStrictWeak lt → IsStrictWeak on_key
  on_key-IsStrictWeak w = record {
    asymm = λ x y. w.asymm (key x) (key y);
    neg_trans = λ x y z. w.neg_trans (key x) (key y) (key z);
  }

  map-All :
      (x : A) (ys : List A)
      → All (λ y. on_key y x ≡ false) ys
      → All (λ k. lt k (key x) ≡ false) (map key ys)
  map-All x [] h = tt
  map-All x (y ∷ ys) h = (h.0, map-All x ys h.1)

  map-IsSorted : (xs : List A) → IsSorted on_key xs → IsSorted lt (map key xs)
  map-IsSorted [] h = tt
  map-IsSorted (x ∷ xs) h = (map-All x xs h.0, map-IsSorted xs h.1)

  pub sort_by-keys :
      {eq : K → K → Bool}
      → IsLinear eq lt
      → (xs ys : List A) → Perm xs ys
      → map key (sort_by on_key xs) ≡ map key (sort_by on_key ys)
  sort_by-keys l xs ys p =
      let w = on_key-IsStrictWeak l.weak in
      sorted_unique l _ _ (map-IsSorted _ (sort_by-IsSorted on_key w xs))
        (map-IsSorted _ (sort_by-IsSorted on_key w ys))
        (Perm.map key
          (Perm.trans (sort_by-perm on_key xs) (Perm.trans p (Perm.symm (sort_by-perm on_key ys)))))
