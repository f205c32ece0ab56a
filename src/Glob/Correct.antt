-- ===== src/Glob/Correct.antt =====
-- The loop ends within its fuel and decides `Matches`.
use kubeagent.Prelude.{
  ℕ, zero, suc, ◌+◌, ◌*◌, ◌≤◌, ◌<◌, ◌≡◌, refl, ◌↔◌, ◌⊎◌, inl, inr, Bool, true, false, [], ◌∷◌,
  Option, none, some, Text, length, arith, Bool-cases,
}
use kubeagent.Glob.{is_star, accepts, only_stars, Back, swallow_more, loop, run, glob_match}
use kubeagent.Glob.Spec.{
  Matches, Somewhere, here, later, byte, star→Somewhere, Somewhere→star, Somewhere-star, byte_inv,
  Somewhere-tail, Somewhere-nil, only_stars_iff,
}

-- A retry succeeds: the star before `p` swallows at least one byte of the text.
abbrev Retry : Back → Type 0
Retry none = ⊥
Retry (some (p, [])) = ⊥
Retry (some (p, x ∷ s)) = Somewhere p s

-- The run returned, and `true` exactly when `G` holds.
abbrev pub Answers : Type 0 → Option Bool → Type 0
Answers G none = ⊥
Answers G (some true) = G
Answers G (some false) = ¬ G

abbrev Bounds : ℕ → ℕ → Text → Back → Type 0
Bounds k m s none = Unit
Bounds k m s (some (star_p, star_s)) =
    (length star_s ≤ m) × (length s ≤ length star_s) × (length star_p < k)

Answers-map : {G H : Type 0} (r : Option Bool) → (G → H) → (H → G) → Answers G r → Answers H r
Answers-map none f g a = a
Answers-map (some true) f g a = f a
Answers-map (some false) f g a = λ h. a (g h)

Answers-some : {G : Type 0} (b : Bool) → (b ≡ true) ↔ G → Answers G (some b)
Answers-some true e = e.0 refl
Answers-some false e = λ g. cc (e.1 g)

-- Every pattern in play is shorter than `k`; `m` bounds the text that is left to scan.
module _ (k : ℕ) where
  record Inv (f m : ℕ) (p s : Text) (back : Back) : Type 0 where
    reaches : Retry back → Somewhere p s
    bounds : Bounds k m s back
    text_bound : length s ≤ m
    pattern_bound : length p < k
    fuel : m * k + length p < f

  abbrev Goal : Text → Text → Back → Type 0
  Goal p s back = Matches p s ⊎ Retry back

  Retry→Somewhere : (p s : Text) → Retry (some (p, s)) → Somewhere p s
  Retry→Somewhere p [] r = elim r [ ]
  Retry→Somewhere p (x ∷ s) r = later r

  Somewhere→Goal : (p s : Text) → Somewhere p s → Goal p s (some (p, s))
  Somewhere→Goal p s (here d) = inl d
  Somewhere→Goal p s (later d) = inr d

  Goal→Somewhere : (p s : Text) → Goal p s (some (p, s)) → Somewhere p s
  Goal→Somewhere p s (inl d) = here d
  Goal→Somewhere p s (inr r) = Retry→Somewhere p s r

  -- A fresh start behind a star.
  Inv-restart :
      {f m : ℕ} (p s : Text)
      → length s ≤ m
      → length p < k
      → m * k + length p < f
      → Inv f m p s (some (p, s))
  Inv-restart p s hs hp hf = record {
    reaches = Retry→Somewhere p s;
    bounds = (hs, omega arith, hp);
    text_bound = hs;
    pattern_bound = hp;
    fuel = hf;
  }

  Bounds-byte : (m x : ℕ) (s : Text) (back : Back) → Bounds k m (x ∷ s) back → Bounds k m s back
  Bounds-byte m x s none h = tt
  Bounds-byte m x s (some (p, t)) h = omega arith

  retry-Answers :
      {f x : ℕ} (m : ℕ) (p s : Text) (back : Back)
      → Inv (suc f) m p (x ∷ s) back
      → ¬ Matches p (x ∷ s)
      → ((m' : ℕ) (p' s' : Text) (b : Back)
          → Inv f m' p' s' b
          → Answers (Goal p' s' b) (loop f p' s' b))
      → Answers (Goal p (x ∷ s) back) (swallow_more back (loop f))
  unfolding swallow_more
  retry-Answers m p s none i nm ih = elim [ inl d ↦ nm d | inr r ↦ r ]
  retry-Answers m p s (some (sp, [])) i nm ih = absurd (omega arith)
  retry-Answers zero p s (some (sp, y ∷ ss)) i nm ih = absurd (omega arith)
  retry-Answers (suc m) p s (some (sp, y ∷ ss)) i nm ih =
      Answers-map _ (λ g. inr (Goal→Somewhere sp ss g))
        (elim [ inl d ↦ absurd (nm d) | inr r ↦ Somewhere→Goal sp ss r ])
        (ih m sp ss (some (sp, ss)) (Inv-restart sp ss (omega arith) (omega arith) (omega arith)))

  -- At a star the answer is the one after it: an older star can be forgotten.
  star-Goal :
      (c : ℕ) (p s : Text) (back : Back)
      → is_star c ≡ true
      → (Retry back → Somewhere (c ∷ p) s)
      → Goal (c ∷ p) s back
      → Goal p s (some (p, s))
  star-Goal c p s back h r (inl d) = Somewhere→Goal p s (star→Somewhere h d)
  star-Goal c p s back h r (inr q) = Somewhere→Goal p s (star→Somewhere h (Somewhere-star h (r q)))

  byte-Goal :
      (c x : ℕ) (p s : Text) (back : Back)
      → is_star c ≡ false
      → Goal (c ∷ p) (x ∷ s) back
      → Goal p s back
  byte-Goal c x p s back h (inl d) = inl (byte_inv h d).1
  byte-Goal c x p s back h (inr r) = inr r

  unbyte-Goal :
      (c x : ℕ) (p s : Text) (back : Back)
      → is_star c ≡ false
      → accepts c x ≡ true
      → Goal p s back
      → Goal (c ∷ p) (x ∷ s) back
  unbyte-Goal c x p s back h a (inl d) = inl (byte h a d)
  unbyte-Goal c x p s back h a (inr r) = inr r

  loop-Answers :
      (f m : ℕ) (p s : Text) (back : Back)
      → Inv f m p s back
      → Answers (Goal p s back) (loop f p s back)
  unfolding loop
  loop-Answers zero m p s back i = absurd (omega (arith, i.fuel))
  loop-Answers (suc f) m p [] back i = Answers-some (only_stars p) (
    λ h. inl ((only_stars_iff p).0 h),
    elim [
      | inl d ↦ (only_stars_iff p).1 d
      | inr r ↦ (only_stars_iff p).1 (Somewhere-nil (i.reaches r))
    ],
  )
  loop-Answers (suc f) m [] (x ∷ s) back i =
      retry-Answers m [] s back i (λ d. elim d [ ]) (loop-Answers f)
  loop-Answers (suc f) m (c ∷ p) (x ∷ s) back i = elim (Bool-cases (is_star c)) [
    | inl h ↦ rw h (
        Answers-map _ (λ g. inl (Somewhere→star h (Goal→Somewhere p (x ∷ s) g)))
          (star-Goal c p (x ∷ s) back h i.reaches)
          (loop-Answers f m p (x ∷ s) (some (p, x ∷ s))
            (Inv-restart p (x ∷ s) i.text_bound (omega arith) (omega arith))))
    | inr h ↦ elim (Bool-cases (accepts c x)) [
      | inl a ↦
          rw (h, a)
            (Answers-map _ (unbyte-Goal c x p s back h a) (byte-Goal c x p s back h) (
              loop-Answers f m p s back (record {
                reaches = λ r. Somewhere-tail s h (i.reaches r);
                bounds = Bounds-byte m x s back i.bounds;
                text_bound = omega arith;
                pattern_bound = omega arith;
                fuel = omega arith;
              })))
      | inr a ↦
          rw (h, a) (retry-Answers m (c ∷ p) s back i (λ d. cc ((byte_inv h d).0)) (loop-Answers f))
    ]
  ]

-- The run returns within its fuel, and answers whether the text matches.
run-Answers : (p s : Text) → Answers (Matches p s) (run p s)
unfolding run
run-Answers p s =
    Answers-map (run p s) (elim [ inl d ↦ d | inr r ↦ absurd r ]) inl
      (loop-Answers (suc (length p)) _ (length s) p s none (record {
        reaches = absurd;
        bounds = tt;
        text_bound = omega arith;
        pattern_bound = omega arith;
        fuel = omega arith;
      }))

-- For every pattern and every text, the backtracking loop ends within
-- (len(s) + 1) * (len(pattern) + 1) rounds with some Boolean, and that Boolean is `true` exactly
-- when the text matches the pattern in the sense of the search-free relation `Matches`.
pub run-decides : (p s : Text) → (b : Bool) × (run p s ≡ some b) × ((b ≡ true) ↔ Matches p s)
run-decides p s = go (run p s) refl (run-Answers p s)
  where
    go :
        (r : Option Bool)
        → run p s ≡ r
        → Answers (Matches p s) r
        → (b : Bool) × (run p s ≡ some b) × ((b ≡ true) ↔ Matches p s)
    go none e a = absurd a
    go (some true) e a = (true, e, (λ _. a, λ _. refl))
    go (some false) e a = (false, e, (λ h. cc h, λ d. absurd (a d)))

-- `glob_match` answers true exactly on the texts that match the pattern.
pub glob_match_iff : (p s : Text) → (glob_match p s ≡ true) ↔ Matches p s
unfolding glob_match
glob_match_iff p s = let (b, e, iff) = run-decides p s in rw (e, glob_match) iff
