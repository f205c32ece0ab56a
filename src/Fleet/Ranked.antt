-- ===== src/Fleet/Ranked.antt =====
-- The order of the top issues of a row: by how often a kind occurs, and by name where that ties.
use kubeagent.Prelude.{
  ℕ, zero, suc, ◌≡◌, ◌≤◌, ◌<◌, Bool, true, false, ◌&&◌, ◌||◌, List, [], ◌∷◌, map, Text, All, arith,
  eqb, ltb, take, text_eq, text_eq_iff, text_lt, text_lt-total, count_if, eqb_iff,
}
use kubeagent.Prelude.Sort.{IsSorted, count_if-sort_by, sort_by}
use kubeagent.Prelude.Unique.{one_if_true, count_if-KeysUnique}
use kubeagent.Prelude.Dict.{has}
use kubeagent.Findings.{Finding}
use kubeagent.Fleet.Summarize.{tally_issues, more_frequent, issue_kind}
use kubeagent.Fleet.Top.{
  frequency, IsCount, names, tally_issues-KeysUnique, All-take, All-both, count_if-cut,
}

-- Whether a kind goes before another: it occurs more often, or as often and its name is smaller.
abbrev pub ahead : List Finding → Text → Text → Bool
ahead fs k j =
    ltb (frequency fs j) (frequency fs k) || (eqb (frequency fs j) (frequency fs k) && text_lt k j)

-- Each kind goes before all that follow it, so none stands twice.
pub Ranked : List Finding → List Text → Type 0
Ranked fs [] = Unit
Ranked fs (k ∷ ks) = All (λ j. ahead fs k j ≡ true) ks × Ranked fs ks

pub map-All :
    {A B : Type 0} (f : A → B) (P : B → Type 0) (xs : List A)
    → All (λ x. P (f x)) xs
    → All P (map f xs)
map-All f P [] h = tt
map-All f P (x ∷ xs) h = (h.0, map-All f P xs h.1)

take-IsSorted :
    {A : Type 0} (less : A → A → Bool) (n : ℕ) (xs : List A)
    → IsSorted less xs
    → IsSorted less (take n xs)
take-IsSorted less zero xs h = tt
take-IsSorted less (suc n) [] h = h
take-IsSorted less (suc n) (x ∷ xs) h = (All-take _ n xs h.0, take-IsSorted less n xs h.1)

at_most_one : (b : Bool) → one_if_true b ≤ 1
at_most_one true = omega arith
at_most_one false = omega arith

none_named :
    (j : Text) (xs : List (Text × ℕ)) → count_if (names j) xs ≤ 0 → All (λ x. names j x ≡ false) xs
unfolding count_if
none_named j [] h = tt
none_named j (x ∷ xs) h = (ground arith, none_named j xs (ground arith))

still_once :
    (j : Text) (x : Text × ℕ) (xs : List (Text × ℕ))
    → count_if (names j) (x ∷ xs) ≤ 1
    → count_if (names j) xs ≤ 1
unfolding count_if
still_once j x xs h = ground arith

named_once :
    (x : Text × ℕ) (xs : List (Text × ℕ))
    → count_if (names x.0) (x ∷ xs) ≤ 1
    → count_if (names x.0) xs ≤ 0
unfolding count_if
named_once x xs h = ground (arith, text_eq_iff x.0 x.0)

module _ (fs : List Finding) where
  pub ahead_absent : (k j : Text) → 0 < frequency fs k → frequency fs j ≡ 0 → ahead fs k j ≡ true
  ahead_absent k j h e = ground (arith, h, e)

  pub ahead_of :
      (x y : Text × ℕ)
      → IsCount fs x
      → IsCount fs y
      → more_frequent y x ≡ false
      → text_eq y.0 x.0 ≡ false
      → ahead fs x.0 y.0 ≡ true
  unfolding IsCount more_frequent
  ahead_of x y (c, p) (d, q) h e =
      ground (arith, text_lt-total y.0 x.0, text_eq_iff y.0 x.0, eqb_iff y.1 x.1)

  sorted-Ranked :
      (xs : List (Text × ℕ))
      → IsSorted more_frequent xs
      → All (IsCount fs) xs
      → ((j : Text) → count_if (names j) xs ≤ 1)
      → Ranked fs (map issue_kind xs)
  unfolding Ranked
  sorted-Ranked [] s c once = tt
  sorted-Ranked (x ∷ xs) s c once = (
    map-All issue_kind _ xs (
        All-both _ _ _ xs (λ y f e. f e) (All-both _ _ _ xs (λ y d h. ahead_of x y c.0 d h) c.1 s.0)
          (none_named x.0 xs (named_once x xs (once x.0)))),
    sorted-Ranked xs s.1 c.1 (λ j. still_once j x xs (once j)),
  )

  -- The first of the sorted counts are ranked.
  pub cut-Ranked :
      (n : ℕ)
      → IsSorted more_frequent (sort_by more_frequent (tally_issues fs []))
      → All (IsCount fs) (sort_by more_frequent (tally_issues fs []))
      → Ranked fs (map issue_kind (take n (sort_by more_frequent (tally_issues fs []))))
  cut-Ranked n s c =
      let m = tally_issues fs [] in
      let xs = sort_by more_frequent m in
      sorted-Ranked (take n xs) (take-IsSorted more_frequent n xs s) (All-take _ n xs c) (λ j.
        omega (
          arith,
          count_if-cut (names j) n xs,
          count_if-sort_by more_frequent (names j) m,
          count_if-KeysUnique j m (tally_issues-KeysUnique fs [] tt),
          at_most_one (has j m),
        ))
