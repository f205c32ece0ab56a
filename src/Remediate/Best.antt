-- ===== src/Remediate/Best.antt =====
-- The loop that picks the highest revision: what it gives, and that sets of revision 0 do not matter.
use kubeagent.Prelude.{
  ◌≡◌, refl, Bool, true, false, ◌⊎◌, inl, inr, List, [], ◌∷◌, Option, none, some, ap, sym, ◌∙◌,
  ltb→lt, arith, if◌then◌else◌, Bool-cases,
}
use kubeagent.Prelude.Int.{pos, ◌≤ℤ◌, ltb_ℤ}
use kubeagent.Remediate.{Kube, ReplicaSet}
use kubeagent.Remediate.Revisions.{better, pick_best, revision_of}

module _ {kube : Kube} where
  -- Nothing yet, or nothing above revision 0.
  pub IsLow : Option (ReplicaSet kube) → Type 0
  IsLow none = Unit
  IsLow (some b) = revision_of b ≤ℤ pos 0

  -- Equal, or both low.
  unfoldable pub Alike : Option (ReplicaSet kube) → Option (ReplicaSet kube) → Type 0
  unfolding IsLow
  Alike x y = (x ≡ y) ⊎ (IsLow x × IsLow y)

  better-Alike :
      (x y : Option (ReplicaSet kube)) (rs : ReplicaSet kube)
      → Alike x y
      → Alike (better x rs) (better y rs)
  unfolding Alike IsLow
  better-Alike x y rs (inl e) = inl (ap (λ b. better b rs) e)
  better-Alike none none rs (inr h) = inl refl
  better-Alike none (some c) rs (inr h) = ground arith
  better-Alike (some b) none rs (inr h) = ground arith
  better-Alike (some b) (some c) rs (inr h) = ground arith

  -- A further set of no revision changes nothing of note.
  better-low :
      (x y : Option (ReplicaSet kube)) (rs : ReplicaSet kube)
      → revision_of rs ≡ pos 0
      → Alike x y
      → Alike x (better y rs)
  unfolding Alike IsLow
  better-low none none rs h g = inr (tt, rw h (omega arith))
  better-low (some b) none rs h (inl e) = cc
  better-low (some b) none rs h (inr (g, k)) = inr (g, ground arith)
  better-low none (some c) rs h g = ground arith
  better-low (some b) (some c) rs h g = ground arith

  step-Alike :
      (b c : Bool) (x y : Option (ReplicaSet kube)) (rs : ReplicaSet kube)
      → (b ≡ c) ⊎ ((b ≡ false) × (revision_of rs ≡ pos 0))
      → Alike x y
      → Alike (if b then better x rs else x) (if c then better y rs else y)
  step-Alike true true x y rs h g = better-Alike x y rs g
  step-Alike true false x y rs (inl e) g = cc
  step-Alike true false x y rs (inr (e, z)) g = cc
  step-Alike false true x y rs (inl e) g = cc
  step-Alike false true x y rs (inr (e, z)) g = better-low x y rs z g
  step-Alike false false x y rs h g = g

  better-either :
      (x : Option (ReplicaSet kube)) (rs b : ReplicaSet kube)
      → better x rs ≡ some b
      → (x ≡ some b) ⊎ (rs ≡ b)
  better-either none rs b h = inr (cc)
  better-either (some c) rs b h = ground arith

  step-kept :
      (p : ReplicaSet kube → Bool) (rs : ReplicaSet kube) (x : Option (ReplicaSet kube))
      (b : ReplicaSet kube)
      → ((if p rs then better x rs else x) ≡ some b) ⊎ (p b ≡ true)
      → (x ≡ some b) ⊎ (p b ≡ true)
  step-kept p rs x b (inr h) = inr h
  step-kept p rs x b (inl h) = elim (Bool-cases (p rs)) [
    | inl e ↦ elim (better-either x rs b (sym (rw e refl) ∙ h)) [
      | inl g ↦ inl g
      | inr g ↦ inr (rw (← g) e)
    ]
    | inr e ↦ inl (sym (rw e refl) ∙ h)
  ]

  -- Two loops that differ in sets of revision 0 only, which the first skips.
  pub pick_best-Alike :
      (p q : ReplicaSet kube → Bool)
      → ((rs : ReplicaSet kube) → (p rs ≡ q rs) ⊎ ((p rs ≡ false) × (revision_of rs ≡ pos 0)))
      → (sets : List (ReplicaSet kube)) (x y : Option (ReplicaSet kube)) → Alike x y
      → Alike (pick_best p sets x) (pick_best q sets y)
  unfolding pick_best
  pick_best-Alike p q h [] x y g = g
  pick_best-Alike p q h (rs ∷ sets) x y g =
      pick_best-Alike p q h sets (if p rs then better x rs else x) (if q rs then better y rs else y)
        (step-Alike (p rs) (q rs) x y rs (h rs) g)

  -- With a revision above 0 the two loops agree.
  pub Alike-high :
      (t : ReplicaSet kube) (y : Option (ReplicaSet kube))
      → ltb_ℤ (pos 0) (revision_of t) ≡ true
      → Alike (some t) y
      → y ≡ some t
  unfolding Alike IsLow
  Alike-high t y h (inl e) = sym e
  Alike-high t y h (inr (g, k)) = absurd (omega (arith, g, ltb→lt _ _ h))

  -- What is picked was not skipped.
  pub pick_best-kept :
      (p : ReplicaSet kube → Bool) (sets : List (ReplicaSet kube)) (x : Option (ReplicaSet kube))
      (b : ReplicaSet kube)
      → pick_best p sets x ≡ some b
      → (x ≡ some b) ⊎ (p b ≡ true)
  unfolding pick_best
  pick_best-kept p [] x b h = inl h
  pick_best-kept p (rs ∷ sets) x b h =
      step-kept p rs x b (pick_best-kept p sets (if p rs then better x rs else x) b h)
