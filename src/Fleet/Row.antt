-- ===== src/Fleet/Row.antt =====
-- What a row says of its cluster's verdict.
use mathlib.Core.Path.{subst}
use kubeagent.Prelude.{
  text_eq, text_eq_iff, Bool-cases, true, ℕ, zero, suc, ◌+◌, ◌≡◌, ◌≤◌, ◌<◌, refl, sym, ◌∙◌, ap, ◌⊎◌,
  Bool, false, List, [], ◌∷◌, map, Option, none, some, Text, All, All-map, arith, eqb, length, take,
  drop, inl, inr, count_if,
}
use kubeagent.Prelude.Sort.{sort_by, sort_by-IsSorted, All-sort_by, count_if-sort_by}
use kubeagent.Prelude.Dict.{find, contains, text_eq_inst}
use kubeagent.Findings.{Level, info, warning, critical, Finding}
use kubeagent.Gate.{Verdict}
use kubeagent.Fleet.{ClusterSummary}
use kubeagent.Fleet.Summarize.{
  or_none, tally_issues, more_frequent, issue_kind, top_issues, count_level, counted, all_findings,
  blank_row, summarize,
}
use kubeagent.Fleet.Ranked.{Ranked, ahead, ahead_absent, ahead_of, map-All, cut-Ranked}
use kubeagent.Fleet.Top.{
  frequency, or_none-tally_issues, IsCount, tally_issues-IsCount, more_frequent-IsStrictWeak,
  All-drop, All-take, cut-IsSorted, names, named_of_find, count_if-cut, unnamed, pick_named,
}

-- At most three kinds of issue that occur, each of which goes before every one left out and before
-- those listed after it; and all that occur if there are fewer than three.
pub record IsTop (fs : List Finding) (ks : List Text) : Type 0 where
  pub short : length ks ≤ 3
  pub listed :
      All
        (λ k. (0 < frequency fs k) × ((j : Text) → contains ks j ≡ false → ahead fs k j ≡ true))
        ks
  pub ranked : Ranked fs ks
  pub full : (j : Text) → length ks < 3 → contains ks j ≡ false → frequency fs j ≡ 0

length-map : {A B : Type 0} (f : A → B) (xs : List A) → length (map f xs) ≡ length xs
length-map f [] = refl
length-map f (x ∷ xs) = ap suc (length-map f xs)

length-take-le : {A : Type 0} (n : ℕ) (xs : List A) → length (take n xs) ≤ n
length-take-le zero xs = omega arith
length-take-le (suc n) [] = omega arith
length-take-le (suc n) (x ∷ xs) = omega (arith, length-take-le n xs)

nothing_cut :
    {A : Type 0} (p : A → Bool) (n : ℕ) (xs : List A)
    → length (take n xs) < n
    → count_if p (drop n xs) ≡ 0
unfolding count_if
nothing_cut p zero xs h = absurd (omega arith)
nothing_cut p (suc n) [] h = refl
nothing_cut p (suc n) (x ∷ xs) h = nothing_cut p n xs (omega arith)

All-pair :
    {A : Type 0} (P Q : A → Type 0) (xs : List A) → All P xs → All Q xs → All (λ x. P x × Q x) xs
All-pair P Q [] h k = tt
All-pair P Q (x ∷ xs) h k = ((h.0, k.0), All-pair P Q xs h.1 k.1)

kind-contained : (xs : List (Text × ℕ)) → All (λ x. contains (map issue_kind xs) x.0 ≡ true) xs
unfolding contains
kind-contained [] = tt
kind-contained (x ∷ xs) = (
  ground (arith, text_eq_iff x.0 x.0),
  All-map _ _ xs (λ y h. ground (arith, h)) (kind-contained xs),
)

-- A kind that is listed is not one that is left out.
apart :
    (x y : Text × ℕ) (j : Text) (ks : List Text)
    → y.0 ≡ j
    → contains ks x.0 ≡ true
    → contains ks j ≡ false
    → text_eq y.0 x.0 ≡ false
apart x y j ks name l k = elim (Bool-cases (text_eq y.0 x.0)) [
  | inr e ↦ e
  | inl e ↦
      let same : contains ks x.0 ≡ contains ks j =
        ap (contains ks) (sym ((text_eq_iff y.0 x.0).0 e) ∙ name) in
      absurd (ground arith)
]

module _ (fs : List Finding) where
  abbrev sorted_counts : List (Text × ℕ)
  sorted_counts = sort_by more_frequent (tally_issues fs [])

  -- A kind that occurs and is not listed was cut off.
  cut_off :
      (j : Text)
      → contains (map issue_kind (take 3 sorted_counts)) j ≡ false
      → (frequency fs j ≡ 0) ⊎ (0 < count_if (names j) (drop 3 sorted_counts))
  unfolding find
  cut_off j h =
      let m = tally_issues fs [] in
      let count : or_none (find j m) ≡ frequency fs j =
        or_none-tally_issues fs [] j ∙ omega arith in
      found (find j m) refl count
    where
      found :
          (o : Option ℕ)
          → find j (tally_issues fs []) ≡ o
          → or_none o ≡ frequency fs j
          → (frequency fs j ≡ 0) ⊎ (0 < count_if (names j) (drop 3 sorted_counts))
      found none e c = inl (sym c)
      found (some n) e c = inr (
          omega (
            arith,
            named_of_find j n (tally_issues fs []) e,
            count_if-sort_by more_frequent (names j) (tally_issues fs []),
            count_if-cut (names j) 3 sorted_counts,
            unnamed j (take 3 sorted_counts) h,
          ))

  counts_right : All (IsCount fs) sorted_counts
  counts_right =
      All-sort_by more_frequent (IsCount fs) (tally_issues fs []) (tally_issues-IsCount fs)

  left_out-ahead :
      (x : Text × ℕ) (j : Text)
      → IsCount fs x
      → contains (map issue_kind (take 3 sorted_counts)) x.0 ≡ true
      → All (λ y. more_frequent y x ≡ false) (drop 3 sorted_counts)
      → contains (map issue_kind (take 3 sorted_counts)) j ≡ false
      → ahead fs x.0 j ≡ true
  unfolding IsCount
  left_out-ahead x j (c, p) l h k = elim (cut_off j k) [
    | inl e ↦ ahead_absent fs x.0 j (omega (arith, c, p)) e
    | inr e ↦
        let (y, name, (below, right)) =
          pick_named (λ y. (more_frequent y x ≡ false) × IsCount fs y) j (drop 3 sorted_counts)
            (All-pair _ _ (drop 3 sorted_counts) h
              (All-drop (IsCount fs) 3 sorted_counts counts_right))
            e in
        subst (λ i. ahead fs x.0 i ≡ true) name
          (ahead_of fs x y (c, p) right below (apart x y j _ name l k))
  ]

  top_issues-IsTop : IsTop fs (top_issues (tally_issues fs []))
  unfolding top_issues IsCount
  top_issues-IsTop =
      let sorted = sort_by-IsSorted more_frequent more_frequent-IsStrictWeak (tally_issues fs []) in
      let listed = take 3 sorted_counts in
      record {
        short = omega (arith, length-map issue_kind listed, length-take-le 3 sorted_counts);
        listed = map-All issue_kind _ listed (
            All-map _ _ listed
              (λ x (c, (h, l)). (omega (arith, c.0, c.1), λ j k. left_out-ahead x j c l h k))
              (All-pair (IsCount fs) _ listed (All-take (IsCount fs) 3 sorted_counts counts_right) (
                All-pair _ _ listed (cut-IsSorted more_frequent 3 sorted_counts sorted)
                  (kind-contained listed))));
        ranked = cut-Ranked fs 3 sorted counts_right;
        full = λ j l k. elim (cut_off j k) [
          | inl e ↦ e
          | inr e ↦ absurd (
              omega (
                arith,
                e,
                nothing_cut (names j) 3 sorted_counts
                    (omega (arith, l, length-map issue_kind listed)),
              ))
        ];
      }

abbrev pub of_level : Level → Finding → Bool
of_level l f = eqb (kubeagent.Findings.rank l) (kubeagent.Findings.rank f.level)

-- The counts are those of a row to which the findings were added.
Adds : List Finding → ClusterSummary → ClusterSummary → Type 0
Adds fs s s' =
    (s'.critical ≡ s.critical + count_if (of_level critical) fs)
    × (s'.warning ≡ s.warning + count_if (of_level warning) fs)
    × (s'.info ≡ s.info + count_if (of_level info) fs)

count_level-Adds :
    (f : Finding) (l : Level) (s : ClusterSummary) → f.level ≡ l → Adds (f ∷ []) s (count_level l s)
unfolding Adds count_level count_if
count_level-Adds f critical s e = rw e (omega arith, omega arith, omega arith)
count_level-Adds f warning s e = rw e (omega arith, omega arith, omega arith)
count_level-Adds f info s e = rw e (omega arith, omega arith, omega arith)

counted-Adds : (fs : List Finding) (s : ClusterSummary) → Adds fs s (counted fs s)
unfolding Adds counted count_if
counted-Adds [] s = (omega arith, omega arith, omega arith)
counted-Adds (f ∷ fs) s =
    let (c, w, i) = counted-Adds fs (count_level f.level s) in
    let (c', w', i') = count_level-Adds f f.level s refl in
    (ground (arith, c, c'), ground (arith, w, w'), ground (arith, i, i'))

-- The row of a cluster counts the findings of its verdict, failing and reported ones, by their level,
-- and lists the three kinds of issue that occur most often among them, or all kinds if there are
-- fewer: no kind twice, the more frequent ones first, and of those that occur as often the ones with
-- the smaller names, which also decide which kinds are listed.
pub summarize-IsTop :
    (name context : Text) (v : Verdict)
    → let row = (summarize name context v).0 in
      let fs = all_findings v in
      (row.critical ≡ count_if (of_level critical) fs)
      × (row.warning ≡ count_if (of_level warning) fs)
      × (row.info ≡ count_if (of_level info) fs)
      × IsTop fs row.top_issues
unfolding summarize Adds
summarize-IsTop name context v =
    let (c, w, i) = counted-Adds (all_findings v) (blank_row name context v) in
    (c ∙ omega arith, w ∙ omega arith, i ∙ omega arith, top_issues-IsTop (all_findings v))
