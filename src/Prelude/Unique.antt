-- ===== src/Prelude/Unique.antt =====
-- Lists and maps that hold nothing twice.
use mathlib.Core.Path.{◌≡◌, refl, sym, ap, ◌∙◌}
use mathlib.Core.Logic.{inl, inr}
use mathlib.Core.Bool.{Bool, false, ◌||◌}
use mathlib.Core.List.{List, [], ◌∷◌}
use mathlib.Core.Option.{some}
use native.Mathlib.Omega.{arith}
use Prim.Native.Nat.{ℕ, suc}
use kubeagent.Prelude.Tests.{Bool-cases, if◌then◌else◌}
use kubeagent.Prelude.Lists.{All, All-map, count_if}
use kubeagent.Prelude.Strings.{Text, text_eq, text_eq_iff}
use kubeagent.Prelude.Dict.{Dict, find, put, has, has-put, has-cons, contains, text_eq_inst}

-- A list that holds nothing twice.
abbrev pub Unique : List Text → Type 0
Unique [] = Unit
Unique (x ∷ xs) = (contains xs x ≡ false) × Unique xs

-- No key stands twice.
abbrev pub KeysUnique : {V : Type 0} → Dict Text V → Type 0
KeysUnique [] = Unit
KeysUnique ((k, v) ∷ m) = (has k m ≡ false) × KeysUnique m

module _ {V : Type 0} where
  pub put-KeysUnique : (k : Text) (v : V) (m : Dict Text V) → KeysUnique m → KeysUnique (put k v m)
  unfolding put has
  put-KeysUnique k v [] u = (refl, tt)
  put-KeysUnique k v ((j, w) ∷ m) (h, u) = elim (Bool-cases (text_eq j k)) [
    | inl e ↦ rw e (ap (λ i. has i m) (sym ((text_eq_iff j k).0 e)) ∙ h, u)
    | inr e ↦
        let apart : text_eq k j ≡ false = ground (arith, text_eq_iff j k, text_eq_iff k j) in
        rw e (has-put k j v m ∙ ap (λ b. b || has j m) apart ∙ h, put-KeysUnique k v m u)
  ]

  still_found :
      (k : Text) (v : V) (m : Dict Text V) (x : Text × V)
      → has k m ≡ false
      → find x.0 m ≡ some x.1
      → find x.0 ((k, v) ∷ m) ≡ some x.1
  unfolding has find
  still_found k v m (j, w) h f = elim (Bool-cases (text_eq k j)) [
    | inl e ↦
        let g : has j m ≡ false = ap (λ i. has i m) (sym ((text_eq_iff k j).0 e)) ∙ h in
        absurd (ground arith)
    | inr e ↦ rw e f
  ]

  -- Each entry is what its key is looked up to.
  pub entries-find :
      (m : Dict Text V) → KeysUnique m → All (λ (x : Text × V). find x.0 m ≡ some x.1) m
  unfolding find
  entries-find [] u = tt
  entries-find ((k, v) ∷ m) (h, u) = (
    rw ((text_eq_iff k k).1 refl) refl,
    All-map _ _ m (λ x f. still_found k v m x h f) (entries-find m u),
  )

abbrev pub one_if_true : Bool → ℕ
one_if_true b = if b then 1 else 0

module _ {V : Type 0} where
  count_if-fresh :
      (k j : Text) (w : V) (m : Dict Text V)
      → has j m ≡ false
      → count_if (λ (x : Text × V). text_eq x.0 k) m ≡ one_if_true (has k m)
      → count_if (λ (x : Text × V). text_eq x.0 k) ((j, w) ∷ m)
        ≡ one_if_true (text_eq j k || has k m)
  unfolding count_if
  count_if-fresh k j w m fresh ih = elim (Bool-cases (text_eq j k)) [
    | inl e ↦
        let absent : has k m ≡ false = ap (λ i. has i m) (sym ((text_eq_iff j k).0 e)) ∙ fresh in
        rw e (ap suc (ih ∙ ap one_if_true absent))
    | inr e ↦ rw e ih
  ]

  -- The entries of a key, where no key stands twice.
  pub count_if-KeysUnique :
      (k : Text) (m : Dict Text V)
      → KeysUnique m
      → count_if (λ (x : Text × V). text_eq x.0 k) m ≡ one_if_true (has k m)
  unfolding count_if has find
  count_if-KeysUnique k [] u = refl
  count_if-KeysUnique k ((j, w) ∷ m) (fresh, u) =
      count_if-fresh k j w m fresh (count_if-KeysUnique k m u)
      ∙ sym (ap one_if_true (has-cons k j w m))
