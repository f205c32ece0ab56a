-- ===== src/Fleet/Top.antt =====
-- The top issues of a row, and its counts.
use kubeagent.Prelude.{
  ℕ, zero, suc, ◌+◌, ◌≡◌, ◌<◌, refl, sym, ◌∙◌, ap, Bool, false, List, [], ◌∷◌, map, some, Text, All,
  arith, take, drop, text_eq, text_eq_iff, Bool-cases, inl, inr, count_if, eqb_iff, text_lt-asymm,
  text_lt-neg_trans,
}
use kubeagent.Prelude.Sort.{IsSorted, IsStrictWeak}
use kubeagent.Prelude.Dict.{Dict, find, put, contains, text_eq_inst, find-put}
use kubeagent.Findings.{Finding}
use kubeagent.Fleet.Fold.{KeysUnique, put-KeysUnique, entries-find}
use kubeagent.Fleet.Summarize.{or_none, tallied, tally_issues, more_frequent, issue_kind}

-- How many findings are of a kind of issue.
abbrev pub frequency : List Finding → Text → ℕ
unfolding count_if
frequency fs k = count_if (λ (f : Finding). text_eq f.issue k) fs

pub or_none-tally_issues :
    (fs : List Finding) (m : Dict Text ℕ) (k : Text)
    → or_none (find k (tally_issues fs m)) ≡ or_none (find k m) + frequency fs k
unfolding tally_issues tallied count_if
or_none-tally_issues [] m k = omega arith
or_none-tally_issues (f ∷ fs) m k =
    or_none-tally_issues fs (tallied f.issue m) k
    ∙ rw (find-put f.issue k (suc (or_none (find f.issue m))) m)
        (elim (Bool-cases (text_eq f.issue k)) [
          | inl e ↦ rw e (
              ap (λ i. suc (or_none (find i m)) + frequency fs k) ((text_eq_iff f.issue k).0 e)
              ∙ omega arith)
          | inr e ↦ rw e refl
        ])

pub tally_issues-KeysUnique :
    (fs : List Finding) (m : Dict Text ℕ) → KeysUnique m → KeysUnique (tally_issues fs m)
unfolding tally_issues tallied
tally_issues-KeysUnique [] m u = u
tally_issues-KeysUnique (f ∷ fs) m u =
    tally_issues-KeysUnique fs (tallied f.issue m)
      (put-KeysUnique f.issue (suc (or_none (find f.issue m))) m u)

Positive : Text × ℕ → Type 0
Positive x = 0 < x.1

put-Positive :
    (k : Text) (n : ℕ) (m : Dict Text ℕ) → All Positive m → All Positive (put k (suc n) m)
unfolding put Positive
put-Positive k n [] h = (omega arith, tt)
put-Positive k n ((j, w) ∷ m) (h, hs) = elim (Bool-cases (text_eq j k)) [
  | inl e ↦ rw e (omega arith, hs)
  | inr e ↦ rw e (h, put-Positive k n m hs)
]

tally_issues-Positive :
    (fs : List Finding) (m : Dict Text ℕ) → All Positive m → All Positive (tally_issues fs m)
unfolding tally_issues tallied
tally_issues-Positive [] m h = h
tally_issues-Positive (f ∷ fs) m h =
    tally_issues-Positive fs (tallied f.issue m)
      (put-Positive f.issue (or_none (find f.issue m)) m h)

-- Each entry of the counts is right.
unfoldable pub IsCount : List Finding → Text × ℕ → Type 0
IsCount fs x = (x.1 ≡ frequency fs x.0) × (0 < x.1)

pub All-both :
    {A : Type 0} (P Q R : A → Type 0) (xs : List A)
    → ((x : A) → P x → Q x → R x)
    → All P xs
    → All Q xs
    → All R xs
All-both P Q R [] f h k = tt
All-both P Q R (x ∷ xs) f h k = (f x h.0 k.0, All-both P Q R xs f h.1 k.1)

pub tally_issues-IsCount : (fs : List Finding) → All (IsCount fs) (tally_issues fs [])
unfolding IsCount Positive find
tally_issues-IsCount fs =
    let m = tally_issues fs [] in
    All-both (λ x. find x.0 m ≡ some x.1) Positive (IsCount fs) m
      (λ x f p. (ap or_none (sym f) ∙ or_none-tally_issues fs [] x.0 ∙ omega arith, p))
      (entries-find m (tally_issues-KeysUnique fs [] tt)) (tally_issues-Positive fs [] tt)

-- The order of the counts.
pub more_frequent-IsStrictWeak : IsStrictWeak more_frequent
unfolding more_frequent
more_frequent-IsStrictWeak = record {
  asymm = λ x y h. ground (arith, text_lt-asymm x.0 y.0, eqb_iff x.1 y.1);
  neg_trans =
      λ x y z h k. ground (arith, text_lt-neg_trans x.0 y.0 z.0, text_lt-neg_trans z.0 y.0 x.0);
}

pub All-drop : {A : Type 0} (P : A → Type 0) (n : ℕ) (xs : List A) → All P xs → All P (drop n xs)
All-drop P zero xs h = h
All-drop P (suc n) [] h = h
All-drop P (suc n) (x ∷ xs) h = All-drop P n xs h.1

pub All-take : {A : Type 0} (P : A → Type 0) (n : ℕ) (xs : List A) → All P xs → All P (take n xs)
All-take P zero xs h = tt
All-take P (suc n) [] h = h
All-take P (suc n) (x ∷ xs) h = (h.0, All-take P n xs h.1)

-- What is cut off is not less than what is left.
pub cut-IsSorted :
    {A : Type 0} (less : A → A → Bool) (n : ℕ) (xs : List A)
    → IsSorted less xs
    → All (λ x. All (λ y. less y x ≡ false) (drop n xs)) (take n xs)
cut-IsSorted less zero xs h = tt
cut-IsSorted less (suc n) [] h = tt
cut-IsSorted less (suc n) (x ∷ xs) h =
    (All-drop (λ y. less y x ≡ false) n xs h.0, cut-IsSorted less n xs h.1)

abbrev pub names : Text → Text × ℕ → Bool
names j x = text_eq x.0 j

pub named_of_find :
    (j : Text) (n : ℕ) (m : Dict Text ℕ) → find j m ≡ some n → 0 < count_if (names j) m
unfolding find count_if
named_of_find j n [] h = cc
named_of_find j n ((k, v) ∷ m) h = ground (arith, named_of_find j n m)

pub count_if-cut :
    {A : Type 0} (p : A → Bool) (n : ℕ) (xs : List A)
    → count_if p xs ≡ count_if p (take n xs) + count_if p (drop n xs)
unfolding count_if
count_if-cut p zero xs = omega arith
count_if-cut p (suc n) [] = omega arith
count_if-cut p (suc n) (x ∷ xs) = ground (arith, count_if-cut p n xs)

pub unnamed :
    (j : Text) (xs : List (Text × ℕ))
    → contains (map issue_kind xs) j ≡ false
    → count_if (names j) xs ≡ 0
unfolding contains count_if
unnamed j [] h = refl
unnamed j (x ∷ xs) h = ground (arith, unnamed j xs)

pub pick_named :
    (P : Text × ℕ → Type 0) (j : Text) (xs : List (Text × ℕ))
    → All P xs
    → 0 < count_if (names j) xs
    → (x : Text × ℕ) × (x.0 ≡ j) × P x
unfolding count_if
pick_named P j [] h c = absurd (omega arith)
pick_named P j (x ∷ xs) h c = elim (Bool-cases (text_eq x.0 j)) [
  | inl e ↦ (x, (text_eq_iff x.0 j).0 e, h.0)
  | inr e ↦ pick_named P j xs h.1 (ground arith)
]
