-- ===== src/Oncall/Cooldown.antt =====
-- The cooldown: an object that was explained is not explained again until it has passed.
use mathlib.Core.Path.{subst}
use kubeagent.Prelude.{
  ℕ, ◌≡◌, refl, Bool, true, false, List, [], ◌∷◌, Option, some, Text, All, arith, keep, eqb,
  if_elim, text_eq, text_eq_iff, ap, ◌∙◌, Bool-cases, inl, inr,
}
use kubeagent.Prelude.Dict.{Dict, find, put, find-put, text_eq_inst}
use kubeagent.Prelude.Int.{ℤ}
use kubeagent.Oncall.Throttle.{
  Floats, Throttle, still_blocks, refill, prune, is_blocked, grant, decide_call, decide_call-cases,
  allow,
}

-- A value that passes the test is still found among those that pass.
find-keep :
    (k : Text) (v : ℕ) (f : ℕ → Bool) (m : Dict Text ℕ)
    → f v ≡ true
    → find k m ≡ some v
    → find k (keep (λ e. f e.1) m) ≡ some v
unfolding find keep
find-keep k v f [] h g = g
find-keep k v f ((j, w) ∷ m) h g = ground (arith, h, g, find-keep k v f m h)

-- The calls of `Allow` one after the other, each for an object at a time.
unfoldable pub serve : (fl : Floats) → List (Text × ℕ) → Throttle fl → Throttle fl
unfolding allow
serve fl [] t = t
serve fl ((key, now) ∷ calls) t = serve fl calls (allow fl key now t).0

-- A new stamp for an object that was not blocked leaves that of a blocked one.
kept :
    (j k : Text) (s now : ℕ) (blocks : Option ℕ → Bool) (m : Dict Text ℕ)
    → find k m ≡ some s
    → blocks (find j m) ≡ false
    → blocks (find k m) ≡ true
    → find k (put j now m) ≡ some s
kept j k s now blocks m h free blocked = elim (Bool-cases (text_eq j k)) [
  | inl e ↦ ground (arith, free, blocked, ap (λ i. blocks (find i m)) ((text_eq_iff j k).0 e))
  | inr e ↦ find-put j k now m ∙ rw e h
]

module _ {fl : Floats} where
  -- The object's last explanation is on record, and the cooldown is the given one.
  pub Stamped : Text → ℕ → ℤ → Throttle fl → Type 0
  Stamped k s cooldown t = (find k t.seen ≡ some s) × (t.cooldown ≡ cooldown)

  refill-seen :
      (now : ℕ) (t : Throttle fl)
      → ((refill fl now t).seen ≡ t.seen) × ((refill fl now t).cooldown ≡ t.cooldown)
  unfolding refill
  refill-seen now t =
      if_elim (λ (r : Throttle fl). (r.seen ≡ t.seen) × (r.cooldown ≡ t.cooldown)) (eqb t.last 0) _
        _ (λ e. (refl, refl)) (λ e. (refl, refl))

  prune-Stamped :
      (k : Text) (s now : ℕ) (c : ℤ) (t : Throttle fl)
      → still_blocks fl c now s ≡ true
      → Stamped k s c t
      → Stamped k s c (prune fl now t)
  unfolding Stamped prune
  prune-Stamped k s now c t b (h, g) =
      (find-keep k s (λ w. still_blocks fl t.cooldown now w) t.seen (rw g b) h, g)

  refill-Stamped :
      (k : Text) (s now : ℕ) (c : ℤ) (t : Throttle fl)
      → Stamped k s c t
      → Stamped k s c (refill fl now t)
  unfolding Stamped
  refill-Stamped k s now c t (h, g) = let (seen, cool) = refill-seen now t in (rw seen h, rw cool g)

  -- A call for the object itself is refused while its stamp blocks.
  decide_call-blocked :
      (k : Text) (s now : ℕ) (c : ℤ) (t : Throttle fl)
      → still_blocks fl c now s ≡ true
      → Stamped k s c t
      → (decide_call fl k now t).1 ≡ false
  unfolding Stamped
  decide_call-blocked k s now c t b (h, g) =
      let blocked : is_blocked fl t.cooldown now (find k t.seen) ≡ true = rw (h, g) b in
      decide_call-cases fl (λ r. r.1 ≡ false) k now t refl
        (λ free enough. ground (arith, blocked, free))

  -- A call for any object keeps the stamp.
  decide_call-Stamped :
      (j k : Text) (s now : ℕ) (c : ℤ) (t : Throttle fl)
      → still_blocks fl c now s ≡ true
      → Stamped k s c t
      → Stamped k s c (decide_call fl j now t).0
  unfolding Stamped grant
  decide_call-Stamped j k s now c t b (h, g) =
      let blocked : is_blocked fl t.cooldown now (find k t.seen) ≡ true = rw (h, g) b in
      decide_call-cases fl (λ r. Stamped k s c r.0) j now t (h, g)
        (λ free enough. (kept j k s now (is_blocked fl t.cooldown now) t.seen h free blocked, g))

  allow-Stamped :
      (j k : Text) (s now : ℕ) (c : ℤ) (t : Throttle fl)
      → still_blocks fl c now s ≡ true
      → Stamped k s c t
      → Stamped k s c (allow fl j now t).0
  unfolding allow
  allow-Stamped j k s now c t b h =
      decide_call-Stamped j k s now c (prune fl now (refill fl now t)) b
        (prune-Stamped k s now c (refill fl now t) b (refill-Stamped k s now c t h))

  serve-Stamped :
      (calls : List (Text × ℕ)) (k : Text) (s : ℕ) (c : ℤ) (t : Throttle fl)
      → All (λ call. still_blocks fl c call.1 s ≡ true) calls
      → Stamped k s c t
      → Stamped k s c (serve fl calls t)
  unfolding serve
  serve-Stamped [] k s c t b h = h
  serve-Stamped ((j, now) ∷ calls) k s c t (b, bs) h =
      serve-Stamped calls k s c (allow fl j now t).0 bs (allow-Stamped j k s now c t b h)

  -- An explanation leaves a stamp.
  grant-Stamped : (k : Text) (s : ℕ) (t : Throttle fl) → Stamped k s t.cooldown (grant fl k s t).0
  unfolding Stamped grant
  grant-Stamped k s t = (find-put k k s t.seen ∙ rw ((text_eq_iff k k).1 refl) refl, refl)

  refill-cooldown : (s : ℕ) (t : Throttle fl) → (prune fl s (refill fl s t)).cooldown ≡ t.cooldown
  unfolding prune
  refill-cooldown s t = (refill-seen s t).1

  allow-stamps :
      (k : Text) (s : ℕ) (t : Throttle fl)
      → (allow fl k s t).1 ≡ true
      → Stamped k s t.cooldown (allow fl k s t).0
  unfolding allow
  allow-stamps k s t =
      let u = prune fl s (refill fl s t) in
      decide_call-cases fl (λ r. r.1 ≡ true → Stamped k s t.cooldown r.0) k s u
        (λ e. ground (arith, e))
        (λ free enough e.
          subst (λ c. Stamped k s c (grant fl k s u).0) (refill-cooldown s t) (grant-Stamped k s u))

  -- Once `Allow` has allowed an object, it refuses every further call for it until the cooldown has
  -- passed, whatever calls for whatever objects come in between, in any order of their times as long
  -- as these lie within the cooldown too.
  pub allow-quiet :
      (k : Text) (s now : ℕ) (calls : List (Text × ℕ)) (t : Throttle fl)
      → (allow fl k s t).1 ≡ true
      → All (λ call. still_blocks fl t.cooldown call.1 s ≡ true) calls
      → still_blocks fl t.cooldown now s ≡ true
      → (allow fl k now (serve fl calls (allow fl k s t).0)).1 ≡ false
  unfolding allow
  allow-quiet k s now calls t allowed within b =
      let u = serve fl calls (allow fl k s t).0 in
      let stamped =
        serve-Stamped calls k s t.cooldown (allow fl k s t).0 within (allow-stamps k s t allowed) in
      decide_call-blocked k s now t.cooldown (prune fl now (refill fl now u)) b (
        prune-Stamped k s now t.cooldown (refill fl now u) b
          (refill-Stamped k s now t.cooldown u stamped))
