-- ===== src/Inventory/Census.antt =====
-- `Prioritize`: what is shown, in which order, and what is only counted.
use mathlib.Core.List.{append-nil, append_assoc, Perm}
use kubeagent.Prelude.{
  ℕ, ◌+◌, ◌≡◌, refl, sym, ap, ◌∙◌, Bool, true, false, not, ◌||◌, ◌&&◌, List, [], ◌∷◌, ◌++◌, Text,
  codes, text_eq, text_lt, map, keep, count_if, count_if-append, arith, eqb, eqb_iff, ltb,
  if◌then◌else◌, Bool-cases, inl, inr,
}
use kubeagent.Prelude.Sort.{
  IsSorted, sort_by-IsSorted, sort_by-perm, count_if-sort_by, IsStrictWeak, IsLinear, pair_eq,
  pair_lt, pair-IsLinear, on_key, on_key-IsStrictWeak,
}
use kubeagent.Findings.Order.{text-IsLinear}
use kubeagent.Inventory.{Workload, flagged}
use kubeagent.Inventory.Assemble.{is_job_like}
use kubeagent.Inventory.Prioritize.{
  Opts, Result, nothing, priority_problem, priority_restart, priority_cron, counted, placed,
  place_all, before, prioritize,
}

ltb-asymm : (a b : ℕ) → ltb a b ≡ true → ltb b a ≡ false
ltb-asymm a b h = ground arith

ltb-neg_trans : (a b c : ℕ) → ltb a b ≡ false → ltb b c ≡ false → ltb a c ≡ false
ltb-neg_trans a b c h k = ground arith

ltb-total : (a b : ℕ) → ltb a b ≡ false → ltb b a ≡ false → a ≡ b
ltb-total a b h k = ground arith

ltb-IsLinear : IsLinear eqb ltb
ltb-IsLinear = record {
  eq_iff = eqb_iff;
  weak = record { asymm = ltb-asymm; neg_trans = ltb-neg_trans };
  total = ltb-total;
}

abbrev place_key : Workload → ℕ × (Text × (Text × Text))
place_key w = (w.priority, (w.namespace, (w.name, w.kind)))

abbrev eq_2 : Text × Text → Text × Text → Bool
eq_2 = pair_eq text_eq text_lt text_eq text_lt

abbrev lt_2 : Text × Text → Text × Text → Bool
lt_2 = pair_lt text_eq text_lt text_eq text_lt

abbrev eq_3 : Text × (Text × Text) → Text × (Text × Text) → Bool
eq_3 = pair_eq text_eq text_lt eq_2 lt_2

abbrev lt_3 : Text × (Text × Text) → Text × (Text × Text) → Bool
lt_3 = pair_lt text_eq text_lt eq_2 lt_2

before-on_key : (x y : Workload) → before x y ≡ on_key place_key (pair_lt eqb ltb eq_3 lt_3) x y
unfolding before
before-on_key x y = ground arith

before-eq : before ≡ on_key place_key (pair_lt eqb ltb eq_3 lt_3)
before-eq = λ i x y. before-on_key x y i

before-IsStrictWeak : IsStrictWeak before
before-IsStrictWeak = rw before-eq (
    on_key-IsStrictWeak place_key (pair_lt eqb ltb eq_3 lt_3)
      (pair-IsLinear _ _ _ _ ltb-IsLinear (
        pair-IsLinear _ _ _ _ text-IsLinear
          (pair-IsLinear _ _ _ _ text-IsLinear text-IsLinear))).weak)

abbrev pub is_cron : Workload → Bool
is_cron w = text_eq w.kind (codes "CronJob")

-- Whether a workload is worth a row on this request.
abbrev pub is_shown : Opts → Workload → Bool
is_shown opts w =
    flagged w
    || (is_cron w && opts.include_cron)
    || (not (is_cron w) && (ltb 0 w.restarts && opts.include_restarts))

abbrev pub tier : Workload → ℕ
tier w =
    if flagged w then priority_problem else if is_cron w then priority_cron else priority_restart

abbrev pub tagged : Workload → Workload
tagged w = record w { priority = tier w }

abbrev pub is_hidden_cron : Opts → Workload → Bool
is_hidden_cron opts w = is_cron w && (not (flagged w) && not opts.include_cron)

abbrev pub is_hidden_restart : Opts → Workload → Bool
is_hidden_restart opts w =
    not (is_cron w) && (not (flagged w) && (ltb 0 w.restarts && not opts.include_restarts))

abbrev pub is_problem : Workload → Bool
is_problem w = eqb w.priority priority_problem

-- What `Prioritize` promises of its result.
pub record IsPrioritized (opts : Opts) (ws : List Workload) (r : Result) : Type 0 where
  pub ordered : IsSorted before r.workloads
  pub rows : Perm r.workloads (map tagged (keep (is_shown opts) ws))
  pub hidden_cron : r.hidden_cron ≡ count_if (is_hidden_cron opts) ws
  pub hidden_restarts : r.hidden_restarts ≡ count_if (is_hidden_restart opts) ws
  pub total : r.census.total ≡ count_if (λ w. not (is_job_like w)) ws
  pub good : r.census.good ≡ count_if (λ w. not (is_job_like w) && not (flagged w)) ws
  pub problems : count_if is_problem r.workloads ≡ count_if flagged ws

abbrev one_row : Opts → Workload → List Workload
one_row opts w = if is_shown opts w then tagged w ∷ [] else []

abbrev one : Bool → ℕ
one b = if b then 1 else 0

-- One step of the loop, on each part of the result.
record IsStep (opts : Opts) (w : Workload) (r s : Result) : Type 0 where
  workloads : s.workloads ≡ r.workloads ++ one_row opts w
  hidden_cron : s.hidden_cron ≡ r.hidden_cron + one (is_hidden_cron opts w)
  hidden_restarts : s.hidden_restarts ≡ r.hidden_restarts + one (is_hidden_restart opts w)
  total : s.census.total ≡ r.census.total + one (not (is_job_like w))
  good : s.census.good ≡ r.census.good + one (not (is_job_like w) && not (flagged w))

step :
    (opts : Opts) (w : Workload) (r : Result)
    → IsStep opts w r (placed opts w (record r { census = counted w r.census }))
unfolding placed counted
step opts w r = record {
  workloads = ground (arith, append-nil r.workloads);
  hidden_cron = ground arith;
  hidden_restarts = ground arith;
  total = ground arith;
  good = ground arith;
}

rows-cons :
    (opts : Opts) (w : Workload) (ws : List Workload)
    → map tagged (keep (is_shown opts) (w ∷ ws))
      ≡ one_row opts w ++ map tagged (keep (is_shown opts) ws)
unfolding keep
rows-cons opts w ws = elim (Bool-cases (is_shown opts w)) [ inl e ↦ rw e refl | inr e ↦ rw e refl ]

place_all-workloads :
    (opts : Opts) (ws : List Workload) (r : Result)
    → (place_all opts r ws).workloads ≡ r.workloads ++ map tagged (keep (is_shown opts) ws)
unfolding place_all keep
place_all-workloads opts [] r = sym (append-nil r.workloads)
place_all-workloads opts (w ∷ ws) r =
    place_all-workloads opts ws (placed opts w (record r { census = counted w r.census }))
    ∙ ap (λ l. l ++ map tagged (keep (is_shown opts) ws)) (step opts w r).workloads
    ∙ append_assoc r.workloads (one_row opts w) (map tagged (keep (is_shown opts) ws))
    ∙ ap (λ l. r.workloads ++ l) (sym (rows-cons opts w ws))

-- The counters, each by the same steps.
module _ (opts : Opts) (field : Result → ℕ) (test : Workload → Bool) where
  place_all-count :
      ((w : Workload) (r : Result)
        → field (placed opts w (record r { census = counted w r.census })) ≡ field r + one (test w))
      → (ws : List Workload) (r : Result) → field (place_all opts r ws) ≡ field r + count_if test ws
  unfolding place_all count_if
  place_all-count h [] r = ground arith
  place_all-count h (w ∷ ws) r =
      let ih = place_all-count h ws (placed opts w (record r { census = counted w r.census })) in
      ground (arith, ih, h w r)

  pub place_all-counts :
      ((w : Workload) (r : Result)
        → field (placed opts w (record r { census = counted w r.census })) ≡ field r + one (test w))
      → field nothing ≡ 0
      → (ws : List Workload) → field (place_all opts nothing ws) ≡ count_if test ws
  place_all-counts h z ws = omega (arith, place_all-count h ws nothing)

count_if-one_row :
    (opts : Opts) (w : Workload) → count_if is_problem (one_row opts w) ≡ one (flagged w)
unfolding count_if
count_if-one_row opts w = ground arith

count_if-cons :
    (p : Workload → Bool) (w : Workload) (ws : List Workload)
    → count_if p (w ∷ ws) ≡ one (p w) + count_if p ws
unfolding count_if
count_if-cons p w ws = ground arith

problems_shown :
    (opts : Opts) (ws : List Workload)
    → count_if is_problem (map tagged (keep (is_shown opts) ws)) ≡ count_if flagged ws
unfolding keep count_if
problems_shown opts [] = refl
problems_shown opts (w ∷ ws) =
    ap (count_if is_problem) (rows-cons opts w ws)
    ∙ count_if-append is_problem (one_row opts w) (map tagged (keep (is_shown opts) ws))
    ∙ ap (λ n. n + count_if is_problem (map tagged (keep (is_shown opts) ws)))
        (count_if-one_row opts w)
    ∙ ap (λ n. one (flagged w) + n) (problems_shown opts ws)
    ∙ sym (count_if-cons flagged w ws)

-- `Prioritize` shows exactly the workloads that are flagged or asked for, each with its tier and in order; it counts
-- the CronJobs and the restarted ones that it hides, and takes the census of all; no flagged workload is hidden.
pub prioritize-IsPrioritized :
    (ws : List Workload) (opts : Opts) → IsPrioritized opts ws (prioritize ws opts)
unfolding prioritize
prioritize-IsPrioritized ws opts =
    let r = place_all opts nothing ws in
    let rows = place_all-workloads opts ws nothing in
    record {
      ordered = sort_by-IsSorted before before-IsStrictWeak r.workloads;
      rows = rw (← rows) (sort_by-perm before r.workloads);
      hidden_cron =
          place_all-counts opts (λ s. s.hidden_cron) (is_hidden_cron opts)
            (λ w s. (step opts w s).hidden_cron) refl ws;
      hidden_restarts =
          place_all-counts opts (λ s. s.hidden_restarts) (is_hidden_restart opts)
            (λ w s. (step opts w s).hidden_restarts) refl ws;
      total =
          place_all-counts opts (λ s. s.census.total) (λ w. not (is_job_like w))
            (λ w s. (step opts w s).total) refl ws;
      good =
          place_all-counts opts (λ s. s.census.good) (λ w. not (is_job_like w) && not (flagged w))
            (λ w s. (step opts w s).good) refl ws;
      problems =
          count_if-sort_by before is_problem r.workloads
          ∙ ap (count_if is_problem) rows
          ∙ problems_shown opts ws;
    }
