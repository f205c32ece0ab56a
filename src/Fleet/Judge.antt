-- ===== src/Fleet/Judge.antt =====
-- The fleet's exit code against the gates'.
use kubeagent.Prelude.{
  ℕ, ◌≡◌, ◌≤◌, refl, sym, ◌∙◌, ap, inl, inr, Bool, true, false, List, [], ◌∷◌, map, Text, codes,
  arith, ltb, text_eq, if◌then◌else◌, Bool-cases,
}
use kubeagent.Prelude.Sort.{insert_by, sort_by}
use kubeagent.Findings.{Level, info, warning, critical, Finding}
use kubeagent.Findings.Sources.{Rates, ScanResult}
use kubeagent.Gate.{outcome, Verdict}
use kubeagent.Fleet.{Target, ClusterSummary, Unreachable}
use kubeagent.Fleet.Summarize.{
  has_verdict, some_unreachable, concluded, decide_from, count_level, counted, all_findings,
  blank_row, summarize, sort_summaries, worse,
}
use kubeagent.Fleet.Sweep.{
  Read, scanned, no_client, cut_off, failed_read, gate_options, name_of, context_of, judge,
  with_outcome, rows_of, by_identity, sweep,
}

abbrev larger : ℕ → ℕ → ℕ
larger a b = if ltb a b then b else a

larger_zero : (n : ℕ) → larger 0 n ≡ n
larger_zero n = ground arith

-- The largest of the codes, which are ordered by how bad they are.
abbrev pub worst : List ℕ → ℕ
worst [] = 0
worst (c ∷ cs) = larger c (worst cs)

-- The exit code that a verdict's word stands for.
word_code : Text → ℕ
unfolding text_eq
word_code w =
    if text_eq w (codes "inconclusive") then 2 else if text_eq w (codes "fail") then 1 else 0

abbrev verdict_code : ClusterSummary → ℕ
verdict_code c = word_code c.verdict

abbrev unreached : List Unreachable → ℕ
unreached us = if some_unreachable us then 2 else 0

worst-bound : (cs : List ClusterSummary) → worst (map verdict_code cs) ≤ 2
unfolding word_code
worst-bound [] = omega arith
worst-bound (c ∷ cs) = ground (arith, worst-bound cs)

decide_from-inconclusive :
    (failing : Bool) (cs : List ClusterSummary) (us : List Unreachable)
    → 2
      ≡ larger
          (if failing then 1 else 0)
          (larger (larger 2 (worst (map verdict_code cs))) (unreached us))
decide_from-inconclusive failing cs us = ground (arith, worst-bound cs)

decide_from-worst :
    (failing : Bool) (cs : List ClusterSummary) (us : List Unreachable)
    → (decide_from failing cs us).1
      ≡ larger (if failing then 1 else 0) (larger (worst (map verdict_code cs)) (unreached us))
unfolding decide_from concluded word_code
decide_from-worst failing [] us = ground arith
decide_from-worst failing (c ∷ cs) us = elim (Bool-cases (has_verdict (codes "inconclusive") c)) [
  | inl e ↦ rw e (decide_from-inconclusive failing cs us)
  | inr e ↦ elim (Bool-cases (has_verdict (codes "fail") c)) [
    | inl f ↦ rw (e, f) (decide_from-worst true cs us ∙ ground arith)
    | inr f ↦ rw (e, f) (decide_from-worst failing cs us ∙ ground arith)
  ]
]

-- Sorting leaves the largest code, and the emptiness of a list.
module _ {A : Type 0} (less : A → A → Bool) where
  worst-insert_by :
      (code : A → ℕ) (x : A) (xs : List A)
      → worst (map code (insert_by less x xs)) ≡ larger (code x) (worst (map code xs))
  unfolding insert_by
  worst-insert_by code x [] = refl
  worst-insert_by code x (y ∷ ys) = ground (arith, worst-insert_by code x ys)

  worst-sort_by :
      (code : A → ℕ) (xs : List A) → worst (map code (sort_by less xs)) ≡ worst (map code xs)
  unfolding sort_by
  worst-sort_by code [] = refl
  worst-sort_by code (x ∷ xs) =
      worst-insert_by code x (sort_by less xs) ∙ ap (larger (code x)) (worst-sort_by code xs)

some_unreachable-insert_by :
    (less : Unreachable → Unreachable → Bool) (x : Unreachable) (xs : List Unreachable)
    → some_unreachable (insert_by less x xs) ≡ true
unfolding insert_by
some_unreachable-insert_by less x [] = refl
some_unreachable-insert_by less x (y ∷ ys) = ground arith

some_unreachable-sort_by :
    (less : Unreachable → Unreachable → Bool) (xs : List Unreachable)
    → some_unreachable (sort_by less xs) ≡ some_unreachable xs
unfolding sort_by
some_unreachable-sort_by less [] = refl
some_unreachable-sort_by less (x ∷ xs) = some_unreachable-insert_by less x (sort_by less xs)

count_level-verdict : (l : Level) (s : ClusterSummary) → (count_level l s).verdict ≡ s.verdict
unfolding count_level
count_level-verdict critical s = refl
count_level-verdict warning s = refl
count_level-verdict info s = refl

counted-verdict : (fs : List Finding) (s : ClusterSummary) → (counted fs s).verdict ≡ s.verdict
unfolding counted
counted-verdict [] s = refl
counted-verdict (f ∷ fs) s =
    counted-verdict fs (count_level f.level s) ∙ count_level-verdict f.level s

-- A gate that cannot time out gives one of three words, each with its code.
data IsJudged (word : Text) (code : ℕ) : Type 0 where
  inconclusive : word ≡ codes "inconclusive" → code ≡ 2 → IsJudged word code
  failing : word ≡ codes "fail" → code ≡ 1 → IsJudged word code
  passing : word ≡ codes "pass" → code ≡ 0 → IsJudged word code

outcome-IsJudged :
    (u b : Bool) (fs : List Finding) → IsJudged (outcome false u b fs).0 (outcome false u b fs).1
unfolding outcome
outcome-IsJudged true b fs = failing refl refl
outcome-IsJudged false true fs = inconclusive refl refl
outcome-IsJudged false false [] = passing refl refl
outcome-IsJudged false false (f ∷ fs) = failing refl refl

word_code_of_judged : (word : Text) (code : ℕ) → IsJudged word code → word_code word ≡ code
unfolding word_code text_eq
word_code_of_judged word code (inconclusive e k) = rw e (sym k)
word_code_of_judged word code (failing e k) = rw e (sym k)
word_code_of_judged word code (passing e k) = rw e (sym k)

-- The exit code of a target's gate; a target that gave no scan result counts as inconclusive.
module _ (r : Rates) (level : Level) where
  abbrev pub target_code : Target × Read → ℕ
  target_code (t, scanned res) = (kubeagent.Gate.decide res (gate_options r level)).code
  target_code (t, no_client) = 2
  target_code (t, cut_off) = 2
  target_code (t, failed_read) = 2

  gate_word :
      (res : ScanResult)
      → word_code (kubeagent.Gate.decide res (gate_options r level)).verdict
        ≡ (kubeagent.Gate.decide res (gate_options r level)).code
  unfolding kubeagent.Gate.decide
  gate_word res = word_code_of_judged _ _ (outcome-IsJudged _ _ _)

  summarize-verdict :
      (name context : Text) (v : Verdict) → (summarize name context v).0.verdict ≡ v.verdict
  unfolding summarize
  summarize-verdict name context v = counted-verdict (all_findings v) (blank_row name context v)

  rows-worst :
      (ts : List (Target × Read))
      → larger
          (worst (map verdict_code (rows_of r level ts).clusters))
          (unreached (rows_of r level ts).unreachable)
        ≡ worst (map target_code ts)
  unfolding rows_of judge with_outcome
  rows-worst [] = refl
  rows-worst ((t, scanned res) ∷ ts) =
      let v = kubeagent.Gate.decide res (gate_options r level) in
      let word = ap word_code (summarize-verdict (name_of t) (context_of t) v) ∙ gate_word res in
      rw word (ground (arith, rows-worst ts))
  rows-worst ((t, no_client) ∷ ts) = ground (arith, rows-worst ts)
  rows-worst ((t, cut_off) ∷ ts) = ground (arith, rows-worst ts)
  rows-worst ((t, failed_read) ∷ ts) = ground (arith, rows-worst ts)

  -- The exit code of a sweep is the worst of its targets' codes, where 2 is the worst: the code of the
  -- gate on what was read of a cluster, and 2 for a cluster that could not be read. So a sweep passes if
  -- and only if every cluster was read and passes its own gate.
  pub sweep-worst :
      (ts : List (Target × Read)) → (sweep r level ts).code ≡ worst (map target_code ts)
  unfolding sweep kubeagent.Fleet.Summarize.decide sort_summaries
  sweep-worst ts =
      let rows = rows_of r level ts in
      let clusters = sort_summaries rows.clusters in
      let unreachable = sort_by (by_identity r level) rows.unreachable in
      decide_from-worst false clusters unreachable
      ∙ rw (worst-sort_by worse verdict_code rows.clusters) (
          rw (some_unreachable-sort_by (by_identity r level) rows.unreachable)
            (larger_zero _ ∙ rows-worst ts))
