-- ===== src/Inventory/Cut.antt =====
-- What the last loop of `Assemble` leaves of a workload, and what it cuts.
use kubeagent.Prelude.{
  ℕ, zero, suc, ◌+◌, ◌-◌, ◌≡◌, ◌≤◌, refl, sym, ap, ◌∙◌, Bool, true, false, codes, ◌||◌, ◌&&◌, List,
  [], ◌∷◌, Text, text_eq, take, length, arith, ltb, if_elim, if◌then◌else◌, Bool-cases, inl, inr,
}
use kubeagent.Prelude.Dict.{Dict, find, has, text_eq_inst}
use kubeagent.Inventory.{Workload, PodRow}
use kubeagent.Inventory.Pods.{terminal_pod_status, workload_status}
use kubeagent.Inventory.Assemble.{
  counted_ready, capped, with_status, is_job_like, job_pod_cap, finished, or_zero,
}

take_all : {A : Type 0} (n : ℕ) (xs : List A) → length xs ≤ n → take n xs ≡ xs
take_all zero [] h = refl
take_all (suc n) [] h = refl
take_all zero (x ∷ xs) h = absurd (omega arith)
take_all (suc n) (x ∷ xs) h = ap (λ l. x ∷ l) (take_all n xs (omega arith))

pub length-take_all : {A : Type 0} (n : ℕ) (xs : List A) → n ≤ length xs → length (take n xs) ≡ n
length-take_all zero xs h = refl
length-take_all (suc n) [] h = absurd (omega arith)
length-take_all (suc n) (x ∷ xs) h = ap suc (length-take_all n xs (omega arith))

-- The rows that a workload of a kind shows of these.
abbrev pub shown : Text → List PodRow → List PodRow
shown kind rows =
    if text_eq kind (codes "Job") || text_eq kind (codes "CronJob")
    then take job_pod_cap rows
    else rows

-- What the steps of the last loop leave of a workload.
record IsSame (w v : Workload) : Type 0 where
  kind : v.kind ≡ w.kind
  namespace : v.namespace ≡ w.namespace
  name : v.name ≡ w.name
  restarts : v.restarts ≡ w.restarts
  findings : v.findings ≡ w.findings
  pods : v.pods ≡ w.pods
  omitted : v.pods_omitted ≡ w.pods_omitted

same : (w : Workload) → IsSame w w
same w = record {
  kind = refl;
  namespace = refl;
  name = refl;
  restarts = refl;
  findings = refl;
  pods = refl;
  omitted = refl;
}

counted_ready-IsSame : (c : Bool) (n : ℕ) (w : Workload) → IsSame w (counted_ready c n w)
unfolding counted_ready
counted_ready-IsSame c n w =
    if_elim (IsSame w) c w
      (if text_eq (terminal_pod_status w.pods) []
        then record w { desired = length w.pods; ready = n }
        else record w { desired = 0; ready = 0; status = terminal_pod_status w.pods })
      (λ e. same w)
      (λ e.
        if_elim (IsSame w) (text_eq (terminal_pod_status w.pods) [])
          (record w { desired = length w.pods; ready = n })
          (record w { desired = 0; ready = 0; status = terminal_pod_status w.pods })
          (λ d. record {
            kind = refl;
            namespace = refl;
            name = refl;
            restarts = refl;
            findings = refl;
            pods = refl;
            omitted = refl;
          })
          (λ d. record {
            kind = refl;
            namespace = refl;
            name = refl;
            restarts = refl;
            findings = refl;
            pods = refl;
            omitted = refl;
          }))

with_status-IsSame : (w : Workload) → IsSame w (with_status w)
unfolding with_status
with_status-IsSame w =
    if_elim (IsSame w) (text_eq w.status [])
      (record w { status = workload_status w.ready w.desired }) w
      (λ d. record {
        kind = refl;
        namespace = refl;
        name = refl;
        restarts = refl;
        findings = refl;
        pods = refl;
        omitted = refl;
      })
      (λ d. same w)

pub record IsCut (w v : Workload) : Type 0 where
  pub kind : v.kind ≡ w.kind
  pub namespace : v.namespace ≡ w.namespace
  pub name : v.name ≡ w.name
  pub restarts : v.restarts ≡ w.restarts
  pub findings : v.findings ≡ w.findings
  pub pods : v.pods ≡ shown w.kind w.pods
  pub omitted : length v.pods + v.pods_omitted ≡ length w.pods

pub uncut :
    (w : Workload)
    → is_job_like w && ltb job_pod_cap (length w.pods) ≡ false
    → w.pods ≡ shown w.kind w.pods
uncut w e = elim (Bool-cases (is_job_like w)) [
  | inl j ↦ rw j (sym (take_all job_pod_cap w.pods (ground arith)))
  | inr j ↦ rw j refl
]

capped-IsCut : (w : Workload) → w.pods_omitted ≡ 0 → IsCut w (capped w)
unfolding capped
capped-IsCut w z =
    if_elim (IsCut w) (is_job_like w && ltb job_pod_cap (length w.pods))
      (record w { pods_omitted = length w.pods - job_pod_cap; pods = take job_pod_cap w.pods }) w
      (λ e.
        let job : is_job_like w ≡ true = ground arith in
        let over : job_pod_cap ≤ length w.pods = ground arith in
        let cut = length-take_all job_pod_cap w.pods over in
        record {
          kind = refl;
          namespace = refl;
          name = refl;
          restarts = refl;
          findings = refl;
          pods = ap (λ (b : Bool). if b then take job_pod_cap w.pods else w.pods) (sym job);
          omitted = omega arith;
        })
      (λ e. record {
        kind = refl;
        namespace = refl;
        name = refl;
        restarts = refl;
        findings = refl;
        pods = uncut w e;
        omitted = omega arith;
      })

-- The workload that the last loop writes out for this one.
pub finished-IsCut :
    (c : Dict Text Bool) (r : Dict Text ℕ) (k : Text) (w : Workload)
    → w.pods_omitted ≡ 0
    → IsCut w (finished c r (k, w))
unfolding finished
finished-IsCut c r k w z =
    let x = counted_ready (has k c) (or_zero (find k r)) w in
    let a = counted_ready-IsSame (has k c) (or_zero (find k r)) w in
    let b = capped-IsCut x (a.omitted ∙ z) in
    let d = with_status-IsSame (capped x) in
    record {
      kind = d.kind ∙ b.kind ∙ a.kind;
      namespace = d.namespace ∙ b.namespace ∙ a.namespace;
      name = d.name ∙ b.name ∙ a.name;
      restarts = d.restarts ∙ b.restarts ∙ a.restarts;
      findings = d.findings ∙ b.findings ∙ a.findings;
      pods = d.pods ∙ b.pods ∙ ap (λ l. shown l x.pods) a.kind ∙ ap (shown w.kind) a.pods;
      omitted =
          ap (λ l. length l + (with_status (capped x)).pods_omitted) d.pods
          ∙ ap (λ n. length (capped x).pods + n) d.omitted
          ∙ b.omitted
          ∙ ap length a.pods;
    }
