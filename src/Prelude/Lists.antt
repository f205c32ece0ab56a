-- ===== src/Prelude/Lists.antt =====
-- Lists measured and indexed by native numbers, and predicates on lists by recursion.
use Prim.Native.Nat.{ℕ, zero, suc, ◌+◌, ◌-◌, ◌≤◌}
use mathlib.Core.Path.{◌≡◌, refl}
use mathlib.Core.List.{
  List, [], ◌∷◌, ◌++◌, map, Mem, Mem-prop, mem-cons, mem-cons_self, mem-cons_of_mem, not-mem-nil,
  Perm, perm_middle,
}
use mathlib.Core.List.Perm
use mathlib.Core.Logic.Or
use mathlib.Core.Bool.{Bool, true, false, not, ◌||◌, Bool-set}
use mathlib.Core.Option.{Option, none, some}
use native.Mathlib.Omega.{arith}
use mathlib.Core.Logic.{inl, inr}
use kubeagent.Prelude.Tests.{if◌then◌else◌, Bool-cases}

module _ {ℓ} {A : Type ℓ} where
  abbrev pub length : List A → ℕ
  length [] = 0
  length (x ∷ xs) = suc (length xs)

  abbrev pub get_elem? : List A → ℕ → Option A
  get_elem? [] i = none
  get_elem? (x ∷ xs) zero = some x
  get_elem? (x ∷ xs) (suc i) = get_elem? xs i

  abbrev pub take : ℕ → List A → List A
  take zero xs = []
  take (suc n) [] = []
  take (suc n) (x ∷ xs) = x ∷ take n xs

  abbrev pub drop : ℕ → List A → List A
  drop zero xs = xs
  drop (suc n) [] = []
  drop (suc n) (x ∷ xs) = drop n xs

  pub length-append : (xs ys : List A) → length (xs ++ ys) ≡ length xs + length ys
  length-append [] ys = omega arith
  length-append (x ∷ xs) ys = omega (arith, length-append xs ys)

  pub length-drop : (n : ℕ) (xs : List A) → length (drop n xs) ≡ length xs - n
  length-drop zero xs = omega arith
  length-drop (suc n) [] = omega arith
  length-drop (suc n) (x ∷ xs) = omega (arith, length-drop n xs)

  -- The elements that pass a Boolean test, in their order.
  unfoldable pub keep : (A → Bool) → List A → List A
  keep p [] = []
  keep p (x ∷ xs) = let rest = keep p xs in if p x then x ∷ rest else rest

  -- Whether some element passes, and whether all do.
  abbrev pub any : (A → Bool) → List A → Bool
  any p [] = false
  any p (x ∷ xs) = p x || any p xs

  pub length-keep-le : (p : A → Bool) (xs : List A) → length (keep p xs) ≤ length xs
  unfolding keep
  length-keep-le p [] = omega arith
  length-keep-le p (x ∷ xs) = ground (arith, length-keep-le p xs)

module _ {ℓ} {A : Type ℓ} (p : A → Bool) where
  -- How many elements pass.
  unfoldable pub count_if : List A → ℕ
  count_if [] = 0
  count_if (x ∷ xs) = let rest = count_if xs in if p x then suc rest else rest

  pub count_if-append : (xs ys : List A) → count_if (xs ++ ys) ≡ count_if xs + count_if ys
  unfolding count_if
  count_if-append [] ys = omega arith
  count_if-append (x ∷ xs) ys = ground (arith, count_if-append xs ys)

  -- On the images of a list where the test has one answer.
  pub count_if-map {κ} :
      {B : Type κ} (g : B → A) (b : Bool)
      → ((x : B) → p (g x) ≡ b)
      → (xs : List B) → count_if (map g xs) ≡ (if b then length xs else 0)
  unfolding count_if
  count_if-map g b h [] = ground arith
  count_if-map g b h (x ∷ xs) = ground (arith, h x, count_if-map g b h xs)

-- A predicate by recursion computes to tuples, which the tactics read and build.
abbrev pub All {ℓ κ} : {A : Type ℓ} → (A → Type κ) → List A → Type κ
All P [] = Unit
All P (x ∷ xs) = P x × All P xs

pub All-append {ℓ κ} :
    {A : Type ℓ} (P : A → Type κ) (xs ys : List A) → All P xs → All P ys → All P (xs ++ ys)
All-append P [] ys hx hy = hy
All-append P (x ∷ xs) ys hx hy = (hx.0, All-append P xs ys hx.1 hy)

pub All-map {ℓ κ} :
    {A : Type ℓ} (P Q : A → Type κ) (xs : List A) → ((x : A) → P x → Q x) → All P xs → All Q xs
All-map P Q [] f h = tt
All-map P Q (x ∷ xs) f h = (f x h.0, All-map P Q xs f h.1)

pub All-keep {ℓ κ} :
    {A : Type ℓ} (P : A → Type κ) (p : A → Bool) (xs : List A)
    → ((x : A) → p x ≡ true → P x)
    → All P (keep p xs)
unfolding keep
All-keep P p [] f = tt
All-keep P p (x ∷ xs) f = elim (Bool-cases (p x)) [
  | inl e ↦ rw e (f x e, All-keep P p xs f)
  | inr e ↦ rw e (All-keep P p xs f)
]

module _ {ℓ} {A : Type ℓ} where
  -- A test splits a list into two parts that make it up.
  pub keep-perm : (p : A → Bool) (xs : List A) → Perm (keep p xs ++ keep (λ x. not (p x)) xs) xs
  unfolding keep
  keep-perm p [] = Perm.refl []
  keep-perm p (x ∷ xs) = elim (Bool-cases (p x)) [
    | inl e ↦ rw e (Perm.cons x (keep-perm p xs))
    | inr e ↦ rw e (
        Perm.trans (perm_middle (keep p xs) (keep (λ y. not (p y)) xs))
          (Perm.cons x (keep-perm p xs)))
  ]

  pub mem-keep : (p : A → Bool) {a : A} (xs : List A) → p a ≡ true → Mem a xs → Mem a (keep p xs)
  unfolding keep
  mem-keep p [] h m = absurd (not-mem-nil m)
  mem-keep p {a} (x ∷ xs) h m =
      Or.elim Mem-prop (mem-cons.0 m) (λ e. rw (← e) (rw h (mem-cons_self)))
        (λ t. elim (Bool-cases (p x)) [
          | inl e ↦ rw e (mem-cons_of_mem x (mem-keep p xs h t))
          | inr e ↦ rw e (mem-keep p xs h t)
        ])

  pub mem_of_keep : (p : A → Bool) {a : A} (xs : List A) → Mem a (keep p xs) → Mem a xs
  unfolding keep
  mem_of_keep p [] m = m
  mem_of_keep p {a} (x ∷ xs) m = elim (Bool-cases (p x)) [
    | inl e ↦
        Or.elim Mem-prop (mem-cons.0 (rw e at m)) (λ q. rw q mem-cons_self)
          (λ t. mem-cons_of_mem x (mem_of_keep p xs t))
    | inr e ↦ mem-cons_of_mem x (mem_of_keep p xs (rw e at m))
  ]

  pub test_of_mem-keep : (p : A → Bool) {a : A} (xs : List A) → Mem a (keep p xs) → p a ≡ true
  unfolding keep
  test_of_mem-keep p [] m = absurd (not-mem-nil m)
  test_of_mem-keep p {a} (x ∷ xs) m = elim (Bool-cases (p x)) [
    | inl e ↦
        Or.elim (Bool-set _ _) (mem-cons.0 (rw e at m)) (λ q. rw q e) (λ t. test_of_mem-keep p xs t)
    | inr e ↦ test_of_mem-keep p xs (rw e at m)
  ]

  pub any_of_mem : (p : A → Bool) {a : A} (xs : List A) → p a ≡ true → Mem a xs → any p xs ≡ true
  any_of_mem p [] h m = absurd (not-mem-nil m)
  any_of_mem p (x ∷ xs) h m =
      Or.elim (Bool-set _ _) (mem-cons.0 m) (λ e. rw (← e, h))
        (λ t. ground (arith, any_of_mem p xs h t))

  pub nil_of_no_mem : (xs : List A) → ((a : A) → ¬ Mem a xs) → xs ≡ []
  nil_of_no_mem [] h = refl
  nil_of_no_mem (x ∷ xs) h = absurd (h x mem-cons_self)

pub any-map {ℓ κ} :
    {A : Type ℓ} {B : Type κ} (p : B → Bool) (f : A → B) (xs : List A)
    → any p (map f xs) ≡ any (λ x. p (f x)) xs
any-map p f [] = refl
any-map p f (x ∷ xs) = rw (any-map p f xs)
