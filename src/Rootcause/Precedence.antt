-- ===== src/Rootcause/Precedence.antt =====
-- A node's cause outweighs a claim's, and a claim's a registry's: no pass replaces a cause.
use mathlib.Core.Path.{subst}
use kubeagent.Prelude.{
  ◌≡◌, refl, sym, ap, ◌∙◌, false, not, ◌||◌, List, [], ◌∷◌, ◌++◌, Option, none, some, Text, codes,
  text_eq, text_lt, All, map, length, eqb, arith, if◌then◌else◌, if_elim,
}
use kubeagent.Prelude.Dict.{Dict, find, text_eq_inst}
use kubeagent.Prelude.Sort.{sort_by}
use kubeagent.Gate.{has_prefix}
use kubeagent.Findings.Sources.{PvcIssue}
use kubeagent.Inventory.{Workload, Runtime, Verdict, flagged}
use kubeagent.Rootcause.{recorded, blamed, outranked_by}
use kubeagent.Rootcause.Node.{
  DownNode, is_on, pod_on, node_cause, node_names, on_candidate, on_candidates, annotate,
}
use kubeagent.Rootcause.Claim.{
  claim_cause, claim_keys, after_slash, mounted_by, on_claim, on_claims, annotate_pvc,
}
use kubeagent.Rootcause.Registry.{
  pull_image, sorted_out, first_seen, joins, first_pass, annotate_registry,
}
use kubeagent.Rootcause.Judged.{verdict_by, verdict_on, annotate_registry-judges}
use kubeagent.Rootcause.Explained.{IsExplained}
use kubeagent.Rootcause.Kept.{first_pass-joins, attribution-IsExplained}

-- A cause that stands before stands after.
abbrev pub Stays : Workload → Workload → Type 0
Stays w v = text_eq w.root_cause [] ≡ false → v.root_cause ≡ w.root_cause

-- The same for each workload of two slices.
abbrev pub AllStay : List Workload → List Workload → Type 0
AllStay [] [] = Unit
AllStay [] (v ∷ vs) = ⊥
AllStay (w ∷ ws) [] = ⊥
AllStay (w ∷ ws) (v ∷ vs) = Stays w v × AllStay ws vs

Stays-trans : (u v w : Workload) → Stays u v → Stays v w → Stays u w
Stays-trans u v w h k e = k (ap (λ t. text_eq t []) (h e) ∙ e) ∙ h e

AllStay-trans : (us vs ws : List Workload) → AllStay us vs → AllStay vs ws → AllStay us ws
AllStay-trans [] [] [] h k = tt
AllStay-trans [] [] (w ∷ ws) h k = k
AllStay-trans [] (v ∷ vs) ws h k = absurd h
AllStay-trans (u ∷ us) [] ws h k = absurd h
AllStay-trans (u ∷ us) (v ∷ vs) [] h k = k
AllStay-trans (u ∷ us) (v ∷ vs) (w ∷ ws) (h, hs) (k, ks) =
    (Stays-trans u v w h k, AllStay-trans us vs ws hs ks)

AllStay-map :
    (f : Workload → Workload)
    → ((w : Workload) → Stays w (f w))
    → (ws : List Workload) → AllStay ws (map f ws)
AllStay-map f h [] = tt
AllStay-map f h (w ∷ ws) = (h w, AllStay-map f h ws)

AllStay-refl : (ws : List Workload) → AllStay ws ws
AllStay-refl [] = tt
AllStay-refl (w ∷ ws) = ((λ e. refl), AllStay-refl ws)

-- The last two ways of the switches of `Annotate` and `AnnotatePVC`.
abbrev won : Text → Text → Text → Text → Workload → Workload
won c k o r w = if text_eq w.root_cause [] then blamed c k o r w else outranked_by c k o w

won-Stays : (c k o r : Text) (w : Workload) → Stays w (won c k o r w)
unfolding blamed outranked_by recorded
won-Stays c k o r w e =
    if_elim (λ v. v.root_cause ≡ w.root_cause) (text_eq w.root_cause []) (blamed c k o r w)
      (outranked_by c k o w) (λ f. absurd (ground arith)) (λ f. refl)

recorded-Stays : (c k o r : Text) (v : Verdict) (w : Workload) → Stays w (recorded c k o v r w)
unfolding recorded
recorded-Stays c k o r v w e = refl

on_candidates-Stays :
    (reasons : Dict Text Text) (ns : List Text) (w : Workload)
    → Stays w (on_candidates reasons ns w)
unfolding on_candidates on_candidate
on_candidates-Stays reasons [] w = λ e. refl
on_candidates-Stays reasons (n ∷ ns) w =
    let c = node_cause reasons n in
    let r = codes "pod " ++ (pod_on n w.pods ++ codes " is scheduled on it") in
    let out = codes "no pod of this workload is scheduled on it" in
    Stays-trans w (on_candidate reasons n w) (on_candidates reasons ns (on_candidate reasons n w))
      (if_elim (Stays w) (not (is_on w n)) (recorded c (codes "node") n Verdict.ruled_out out w)
        (won c (codes "node") n r w)
        (λ e. recorded-Stays c (codes "node") n out Verdict.ruled_out w)
        (λ e. won-Stays c (codes "node") n r w))
      (on_candidates-Stays reasons ns (on_candidate reasons n w))

pub annotate-AllStay : (down : List DownNode) (ws : List Workload) → AllStay ws (annotate down ws)
unfolding annotate
annotate-AllStay [] ws = AllStay-refl ws
annotate-AllStay (d ∷ ds) ws =
    let names = sort_by text_lt (node_names (d ∷ ds)).0 in
    let reasons = (node_names (d ∷ ds)).1 in
    AllStay-map _
      (λ w.
        if_elim (Stays w) (flagged w) (on_candidates reasons names w) w
          (λ f. on_candidates-Stays reasons names w) (λ f e. refl))
      ws

on_claim-Stays :
    (reasons : Dict Text Text) (k : Text) (o : Option Text) (w : Workload)
    → Stays w (on_claim reasons k o w)
unfolding on_claim
on_claim-Stays reasons k none w =
    recorded-Stays (claim_cause reasons k) (codes "pvc") (after_slash k)
      (codes "not mounted by this workload's pods") Verdict.ruled_out w
on_claim-Stays reasons k (some pod) w =
    won-Stays (claim_cause reasons k) (codes "pvc") (after_slash k)
      (codes "pod " ++ (pod ++ codes " mounts it")) w

on_claims-Stays :
    (reasons mounted : Dict Text Text) (ks : List Text) (w : Workload)
    → Stays w (on_claims reasons mounted ks w)
unfolding on_claims
on_claims-Stays reasons mounted [] w = λ e. refl
on_claims-Stays reasons mounted (k ∷ ks) w =
    let v =
      if has_prefix k (w.namespace ++ codes "/")
      then on_claim reasons k (find k mounted) w
      else w in
    Stays-trans w v (on_claims reasons mounted ks v)
      (if_elim (Stays w) (has_prefix k (w.namespace ++ codes "/"))
        (on_claim reasons k (find k mounted) w) w (λ e. on_claim-Stays reasons k (find k mounted) w)
        (λ e f. refl))
      (on_claims-Stays reasons mounted ks v)

pub annotate_pvc-AllStay :
    (claims : Dict Text (List Text)) (issues : List PvcIssue) (ws : List Workload)
    → AllStay ws (annotate_pvc claims issues ws)
unfolding annotate_pvc
annotate_pvc-AllStay claims issues ws =
    let keys = sort_by text_lt (claim_keys issues).0 in
    let reasons = (claim_keys issues).1 in
    if_elim (AllStay ws) (eqb (length issues) 0 || eqb (length claims) 0) ws
      (map
        (λ w.
          if flagged w
          then on_claims reasons (mounted_by claims w.namespace w.pods []) keys w
          else w)
        ws)
      (λ e. AllStay-refl ws)
      (λ e.
        AllStay-map _
          (λ w.
            if_elim (Stays w) (flagged w)
              (on_claims reasons (mounted_by claims w.namespace w.pods []) keys w) w
              (λ f. on_claims-Stays reasons (mounted_by claims w.namespace w.pods []) keys w)
              (λ f x. refl))
          ws)

module _ (go : Runtime) where
  sorted_out-Stays : (w : Workload) (img : Text) → Stays w (sorted_out go w img)
  unfolding sorted_out outranked_by recorded
  sorted_out-Stays w img e = ground arith

  first_seen-Stays : (w : Workload) (o : Option Text) → Stays w (first_seen go w o)
  first_seen-Stays w none = λ e. refl
  first_seen-Stays w (some img) = sorted_out-Stays w img

  first_pass-Stays : (w : Workload) → Stays w (first_pass go w)
  unfolding first_pass
  first_pass-Stays w =
      if_elim (Stays w) (flagged w) (first_seen go w (pull_image w.findings)) w
        (λ e. first_seen-Stays w (pull_image w.findings)) (λ e f. refl)

  verdict-Stays :
      (ws : List Workload) (w : Workload) (o : Option Text)
      → joins w ≡ o
      → Stays w (verdict_by go ws o (first_pass go w))
  verdict-Stays ws w none e = first_pass-Stays w
  verdict-Stays ws w (some h) e =
      λ f. let free = (first_pass-joins go w h e).1 in absurd (ground arith)

  pub annotate_registry-AllStay : (ws : List Workload) → AllStay ws (annotate_registry go ws)
  annotate_registry-AllStay ws =
      subst (AllStay ws) (sym (annotate_registry-judges go ws))
        (AllStay-map (verdict_on go ws) (λ w. verdict-Stays ws w (joins w) refl) ws)

  -- The three passes in the order of the scan, on workloads whose traces agree with their causes, as those without both:
  -- each has at the end no cause and no attributed candidate, or one cause and exactly that candidate attributed, and
  -- the cause that a node or a claim gave is not replaced by a later pass.
  pub attribution-IsOrdered :
      (down : List DownNode) (claims : Dict Text (List Text)) (issues : List PvcIssue)
      (ws : List Workload)
      → All IsExplained ws
      → All IsExplained (annotate_registry go (annotate_pvc claims issues (annotate down ws)))
        × (AllStay
              (annotate down ws)
              (annotate_registry go (annotate_pvc claims issues (annotate down ws)))
            × AllStay
                (annotate_pvc claims issues (annotate down ws))
                (annotate_registry go (annotate_pvc claims issues (annotate down ws))))
  attribution-IsOrdered down claims issues ws h =
      let last = annotate_registry-AllStay (annotate_pvc claims issues (annotate down ws)) in
      (
        attribution-IsExplained go down claims issues ws h,
        (
          AllStay-trans (annotate down ws) (annotate_pvc claims issues (annotate down ws))
              (annotate_registry go (annotate_pvc claims issues (annotate down ws)))
              (annotate_pvc-AllStay claims issues (annotate down ws)) last,
          last,
        ),
      )
