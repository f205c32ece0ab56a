-- ===== src/Rootcause/Kept.antt =====
-- `AnnotateRegistry` keeps the traces in agreement with their causes.
use mathlib.Core.Path.{subst}
use kubeagent.Prelude.{
  ℕ, ◌≡◌, refl, sym, ap, ◌∙◌, Bool, true, false, List, [], ◌++◌, Option, none, some, Text, codes,
  text_eq, All, count_if, ltb, arith, if◌then◌else◌, if_elim,
}
use kubeagent.Prelude.Decimal.{decimal}
use kubeagent.Inventory.{Workload, Runtime, Verdict, flagged}
use kubeagent.Inventory.Complete.{map-All}
use kubeagent.Rootcause.{recorded, blamed, outranked_by}
use kubeagent.Rootcause.Registry.{
  pull_image, registry_host, registry_text, sorted_out, joins, joins_by, first_seen, first_pass,
  second_pass, annotate_registry,
}
use kubeagent.Rootcause.Grouped.{joins_host}
use kubeagent.Rootcause.Judged.{verdict_by, verdict_on, annotate_registry-judges}
use kubeagent.Rootcause.Explained.{
  IsExplained, recorded-IsExplained, blamed-IsExplained, outranked_by-IsExplained,
  annotate-IsExplained, annotate_pvc-IsExplained,
}
use kubeagent.Prelude.Dict.{Dict}
use kubeagent.Findings.Sources.{PvcIssue}
use kubeagent.Rootcause.Node.{DownNode, annotate}
use kubeagent.Rootcause.Claim.{annotate_pvc}

module _ (go : Runtime) where
  sorted_out-IsExplained :
      (w : Workload) (img : Text) → IsExplained w → IsExplained (sorted_out go w img)
  unfolding sorted_out
  sorted_out-IsExplained w img h =
      let host = registry_host img in
      let unknown =
        recorded (codes "registry unknown") (codes "registry") [] Verdict.ruled_out
          (codes "image reference undeterminable") w in
      let lost = outranked_by (registry_text go host) (codes "registry") host w in
      if_elim IsExplained (text_eq img []) unknown (if text_eq w.root_cause [] then w else lost)
        (λ e.
          recorded-IsExplained (codes "registry unknown") (codes "registry") []
            (codes "image reference undeterminable") Verdict.ruled_out w refl h)
        (λ e.
          if_elim IsExplained (text_eq w.root_cause []) w lost (λ f. h)
            (λ f. outranked_by-IsExplained (registry_text go host) (codes "registry") host w h))

  some_text : (x : Text) → none ≡ some x → (A : Type 0) → A
  some_text x e A = absurd (ground arith)

  first_seen-joins_by :
      (w : Workload) (o : Option Text) (h : Text)
      → joins_by w o ≡ some h
      → (first_seen go w o ≡ w) × (text_eq w.root_cause [] ≡ true)
  unfolding sorted_out
  first_seen-joins_by w none h e = some_text h e _
  first_seen-joins_by w (some img) h e = ground arith

  -- A workload that joins a group is left alone by the first pass, and has no cause yet.
  pub first_pass-joins :
      (w : Workload) (h : Text)
      → joins w ≡ some h
      → (first_pass go w ≡ w) × (text_eq w.root_cause [] ≡ true)
  unfolding first_pass joins
  first_pass-joins w h e = by_flag (flagged w) e
    where
      by_flag :
          (b : Bool)
          → (if b then joins_by w (pull_image w.findings) else none) ≡ some h
          → ((if b then first_seen go w (pull_image w.findings) else w) ≡ w)
            × (text_eq w.root_cause [] ≡ true)
      by_flag true e = first_seen-joins_by w (pull_image w.findings) h e
      by_flag false e = some_text h e _

  first_seen-IsExplained :
      (w : Workload) (o : Option Text) → IsExplained w → IsExplained (first_seen go w o)
  first_seen-IsExplained w none x = x
  first_seen-IsExplained w (some img) x = sorted_out-IsExplained w img x

  first_pass-IsExplained : (w : Workload) → IsExplained w → IsExplained (first_pass go w)
  unfolding first_pass
  first_pass-IsExplained w x =
      if_elim IsExplained (flagged w) (first_seen go w (pull_image w.findings)) w
        (λ e. first_seen-IsExplained w (pull_image w.findings) x) (λ e. x)

  second_pass-IsExplained :
      (h : Text) (n : ℕ) (w : Workload)
      → text_eq w.root_cause [] ≡ true
      → IsExplained w
      → IsExplained (second_pass go h n w)
  unfolding second_pass text_eq
  second_pass-IsExplained h n w free x =
      let c =
        registry_text go h ++ (codes " (" ++ (decimal n ++ codes " workloads failing to pull)")) in
      let why =
        decimal n ++ codes " workloads failing to pull from this host clear the threshold of 2" in
      let alone = codes "only workload failing to pull from this host; threshold is 2" in
      if_elim IsExplained (ltb n 2)
        (recorded (registry_text go h) (codes "registry") h Verdict.ruled_out alone w)
        (blamed c (codes "registry") h why w)
        (λ e.
          recorded-IsExplained (registry_text go h) (codes "registry") h alone Verdict.ruled_out w
            refl x)
        (λ e. blamed-IsExplained c (codes "registry") h why w refl free x)

  verdict_on-IsExplained :
      (ws : List Workload) (w : Workload) (o : Option Text)
      → joins w ≡ o
      → IsExplained w
      → IsExplained (verdict_by go ws o (first_pass go w))
  verdict_on-IsExplained ws w none e x = first_pass-IsExplained w x
  verdict_on-IsExplained ws w (some h) e x =
      let still = first_pass-joins w h e in
      second_pass-IsExplained h (count_if (λ v. joins_host (joins v) h) ws) (first_pass go w)
        (ap (λ (v : Workload). text_eq v.root_cause []) still.0 ∙ still.1)
        (first_pass-IsExplained w x)

  -- `AnnotateRegistry` keeps every trace in agreement with its cause: it attributes only workloads that no earlier pass
  -- attributed, each once.
  pub annotate_registry-IsExplained :
      (ws : List Workload) → All IsExplained ws → All IsExplained (annotate_registry go ws)
  annotate_registry-IsExplained ws h =
      subst (All IsExplained) (sym (annotate_registry-judges go ws)) (
        map-All IsExplained IsExplained (verdict_on go ws)
          (λ w x. verdict_on-IsExplained ws w (joins w) refl x) ws h)

  -- The three passes in the order of the scan: of workloads whose traces agree with their causes, as those without both,
  -- each has at the end no cause and no attributed candidate, or one cause and exactly that candidate attributed.
  pub attribution-IsExplained :
      (down : List DownNode) (claims : Dict Text (List Text)) (issues : List PvcIssue)
      (ws : List Workload)
      → All IsExplained ws
      → All IsExplained (annotate_registry go (annotate_pvc claims issues (annotate down ws)))
  attribution-IsExplained down claims issues ws h =
      annotate_registry-IsExplained (annotate_pvc claims issues (annotate down ws))
        (annotate_pvc-IsExplained claims issues (annotate down ws) (annotate-IsExplained down ws h))
