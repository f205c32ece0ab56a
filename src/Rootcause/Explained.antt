-- ===== src/Rootcause/Explained.antt =====
-- The trace of a workload agrees with its cause, and the node and claim passes keep it so.
use mathlib.Core.List.{append-nil}
use kubeagent.Prelude.{
  ◌≡◌, refl, sym, ap, ◌∙◌, Bool, true, false, not, ◌||◌, List, [], ◌∷◌, ◌++◌, Option, none, some,
  Text, codes, text_eq, text_lt, All, map, keep, length, eqb, if◌then◌else◌, if_elim, Bool-cases,
  inl, inr,
}
use kubeagent.Prelude.Dict.{Dict, find, text_eq_inst}
use kubeagent.Prelude.Sort.{sort_by}
use kubeagent.Gate.{has_prefix}
use kubeagent.Findings.Sources.{PvcIssue}
use kubeagent.Inventory.{Workload, Hypothesis, Verdict, flagged}
use kubeagent.Inventory.Complete.{map-All}
use kubeagent.Rootcause.{recorded, blamed, outranked_by}
use kubeagent.Rootcause.Node.{
  DownNode, is_on, pod_on, node_cause, node_names, on_candidate, on_candidates, annotate,
}
use kubeagent.Rootcause.Claim.{
  claim_cause, claim_keys, after_slash, mounted_by, on_claim, on_claims, annotate_pvc,
}

abbrev pub is_attributed : Verdict → Bool
is_attributed Verdict.attributed = true
is_attributed Verdict.ruled_out = false
is_attributed Verdict.outranked = false

-- The causes that the trace calls attributed.
abbrev causes : List Hypothesis → List Text
causes hs =
    map (λ (h : Hypothesis). h.cause) (keep (λ (h : Hypothesis). is_attributed h.verdict) hs)

-- No cause and none in the trace, or one cause and exactly that one in the trace.
abbrev pub IsExplained : Workload → Type 0
IsExplained w =
    causes w.root_cause_trace ≡ (if text_eq w.root_cause [] then [] else w.root_cause ∷ [])

causes_last :
    (hs : List Hypothesis) (h : Hypothesis)
    → causes (hs ++ h ∷ []) ≡ causes hs ++ (if is_attributed h.verdict then h.cause ∷ [] else [])
unfolding keep
causes_last [] h = elim (Bool-cases (is_attributed h.verdict)) [
  | inl e ↦ rw e refl
  | inr e ↦ rw e refl
]
causes_last (g ∷ hs) h = elim (Bool-cases (is_attributed g.verdict)) [
  | inl e ↦ rw e (ap (λ l. g.cause ∷ l) (causes_last hs h))
  | inr e ↦ rw e (causes_last hs h)
]

pub recorded-IsExplained :
    (c k o r : Text) (v : Verdict) (w : Workload)
    → is_attributed v ≡ false
    → IsExplained w
    → IsExplained (recorded c k o v r w)
unfolding recorded
recorded-IsExplained c k o r v w e h =
    causes_last w.root_cause_trace
      (record { cause = c; kind = k; verdict = v; reason = r; object = o })
    ∙ ap (λ (b : Bool). causes w.root_cause_trace ++ (if b then c ∷ [] else [])) e
    ∙ append-nil (causes w.root_cause_trace)
    ∙ h

pub blamed-IsExplained :
    (c k o r : Text) (w : Workload)
    → text_eq c [] ≡ false
    → text_eq w.root_cause [] ≡ true
    → IsExplained w
    → IsExplained (blamed c k o r w)
unfolding blamed recorded
blamed-IsExplained c k o r w filled free h =
    causes_last w.root_cause_trace
      (record { cause = c; kind = k; verdict = Verdict.attributed; reason = r; object = o })
    ∙ ap (λ l. l ++ c ∷ []) (h ∙ ap (λ (b : Bool). if b then [] else w.root_cause ∷ []) free)
    ∙ ap (λ (b : Bool). if b then [] else c ∷ []) (sym filled)

pub outranked_by-IsExplained :
    (c k o : Text) (w : Workload) → IsExplained w → IsExplained (outranked_by c k o w)
unfolding outranked_by
outranked_by-IsExplained c k o w h =
    recorded-IsExplained c k o (w.root_cause ++ codes " is the stronger cause") Verdict.outranked w
      refl h

on_candidate-IsExplained :
    (reasons : Dict Text Text) (n : Text) (w : Workload)
    → IsExplained w
    → IsExplained (on_candidate reasons n w)
unfolding on_candidate text_eq
on_candidate-IsExplained reasons n w h =
    let c = node_cause reasons n in
    let won =
      blamed c (codes "node") n (codes "pod " ++ (pod_on n w.pods ++ codes " is scheduled on it"))
        w in
    let lost = outranked_by c (codes "node") n w in
    let out =
      recorded c (codes "node") n Verdict.ruled_out
        (codes "no pod of this workload is scheduled on it") w in
    if_elim IsExplained (not (is_on w n)) out (if text_eq w.root_cause [] then won else lost)
      (λ e.
        recorded-IsExplained c (codes "node") n (codes "no pod of this workload is scheduled on it")
          Verdict.ruled_out w refl h)
      (λ e.
        if_elim IsExplained (text_eq w.root_cause []) won lost
          (λ f.
            blamed-IsExplained c (codes "node") n
              (codes "pod " ++ (pod_on n w.pods ++ codes " is scheduled on it")) w refl f h)
          (λ f. outranked_by-IsExplained c (codes "node") n w h))

on_candidates-IsExplained :
    (reasons : Dict Text Text) (ns : List Text) (w : Workload)
    → IsExplained w
    → IsExplained (on_candidates reasons ns w)
unfolding on_candidates
on_candidates-IsExplained reasons [] w h = h
on_candidates-IsExplained reasons (n ∷ ns) w h =
    on_candidates-IsExplained reasons ns (on_candidate reasons n w)
      (on_candidate-IsExplained reasons n w h)

-- `Annotate` keeps every trace in agreement with its cause: at most one candidate is attributed, and it is the cause.
pub annotate-IsExplained :
    (down : List DownNode) (ws : List Workload)
    → All IsExplained ws
    → All IsExplained (annotate down ws)
unfolding annotate
annotate-IsExplained [] ws h = h
annotate-IsExplained (d ∷ ds) ws h =
    let names = sort_by text_lt (node_names (d ∷ ds)).0 in
    let reasons = (node_names (d ∷ ds)).1 in
    map-All IsExplained IsExplained _
      (λ w e.
        if_elim IsExplained (flagged w) (on_candidates reasons names w) w
          (λ f. on_candidates-IsExplained reasons names w e) (λ f. e))
      ws h

on_claim-IsExplained :
    (reasons : Dict Text Text) (key : Text) (pod : Option Text) (w : Workload)
    → IsExplained w
    → IsExplained (on_claim reasons key pod w)
unfolding on_claim text_eq
on_claim-IsExplained reasons key none w h =
    recorded-IsExplained (claim_cause reasons key) (codes "pvc") (after_slash key)
      (codes "not mounted by this workload's pods") Verdict.ruled_out w refl h
on_claim-IsExplained reasons key (some pod) w h =
    let c = claim_cause reasons key in
    let o = after_slash key in
    if_elim IsExplained (text_eq w.root_cause [])
      (blamed c (codes "pvc") o (codes "pod " ++ (pod ++ codes " mounts it")) w)
      (outranked_by c (codes "pvc") o w)
      (λ f.
        blamed-IsExplained c (codes "pvc") o (codes "pod " ++ (pod ++ codes " mounts it")) w refl f
          h)
      (λ f. outranked_by-IsExplained c (codes "pvc") o w h)

on_claims-IsExplained :
    (reasons mounted : Dict Text Text) (ks : List Text) (w : Workload)
    → IsExplained w
    → IsExplained (on_claims reasons mounted ks w)
unfolding on_claims
on_claims-IsExplained reasons mounted [] w h = h
on_claims-IsExplained reasons mounted (k ∷ ks) w h = on_claims-IsExplained reasons mounted ks _ (
    if_elim IsExplained (has_prefix k (w.namespace ++ codes "/"))
      (on_claim reasons k (find k mounted) w) w
      (λ e. on_claim-IsExplained reasons k (find k mounted) w h) (λ e. h))

-- `AnnotatePVC` keeps every trace in agreement with its cause.
pub annotate_pvc-IsExplained :
    (claims : Dict Text (List Text)) (issues : List PvcIssue) (ws : List Workload)
    → All IsExplained ws
    → All IsExplained (annotate_pvc claims issues ws)
unfolding annotate_pvc
annotate_pvc-IsExplained claims issues ws h =
    let keys = sort_by text_lt (claim_keys issues).0 in
    let reasons = (claim_keys issues).1 in
    if_elim (All IsExplained) (eqb (length issues) 0 || eqb (length claims) 0) ws
      (map
        (λ w.
          if flagged w
          then on_claims reasons (mounted_by claims w.namespace w.pods []) keys w
          else w)
        ws)
      (λ e. h)
      (λ e.
        map-All IsExplained IsExplained _
          (λ w x.
            if_elim IsExplained (flagged w)
              (on_claims reasons (mounted_by claims w.namespace w.pods []) keys w) w
              (λ f.
                on_claims-IsExplained reasons (mounted_by claims w.namespace w.pods []) keys w x)
              (λ f. x))
          ws h)
