-- ===== src/Glob/Spec.antt =====
-- What it means for a text to match a pattern, with no search order in it.
use kubeagent.Prelude.{ℕ, ◌≡◌, refl, ◌↔◌, true, false, [], ◌∷◌, Text, arith, inl, inr, Bool-cases}
use kubeagent.Glob.{is_star, accepts, only_stars}

pub data Matches : Text → Text → Type 0 where
  end : Matches [] []
  skip : {c : ℕ} {p s : Text} → is_star c ≡ true → Matches p s → Matches (c ∷ p) s
  take : {c x : ℕ} {p s : Text} → is_star c ≡ true → Matches (c ∷ p) s → Matches (c ∷ p) (x ∷ s)
  byte :
      {c x : ℕ} {p s : Text}
      → is_star c ≡ false
      → accepts c x ≡ true
      → Matches p s
      → Matches (c ∷ p) (x ∷ s)

-- Some suffix of the text matches.
pub data Somewhere (p : Text) : Text → Type 0 where
  here : {s : Text} → Matches p s → Somewhere p s
  later : {x : ℕ} {s : Text} → Somewhere p s → Somewhere p (x ∷ s)

module _ {c : ℕ} {p : Text} where
  pub star→Somewhere : {s : Text} → is_star c ≡ true → Matches (c ∷ p) s → Somewhere p s
  star→Somewhere h (skip _ d) = here d
  star→Somewhere h (take _ d) = later (star→Somewhere h d)
  star→Somewhere h (byte n _ d) = cc

  pub Somewhere→star : {s : Text} → is_star c ≡ true → Somewhere p s → Matches (c ∷ p) s
  Somewhere→star h (here d) = skip h d
  Somewhere→star h (later d) = take h (Somewhere→star h d)

  -- A star that starts later matches from here on as well.
  pub Somewhere-star : {s : Text} → is_star c ≡ true → Somewhere (c ∷ p) s → Matches (c ∷ p) s
  Somewhere-star h (here d) = d
  Somewhere-star h (later d) = take h (Somewhere-star h d)

  pub byte_inv :
      {x : ℕ} {s : Text}
      → is_star c ≡ false
      → Matches (c ∷ p) (x ∷ s)
      → (accepts c x ≡ true) × Matches p s
  byte_inv h (skip n d) = cc
  byte_inv h (take n d) = cc
  byte_inv h (byte _ a d) = (a, d)

  not-Matches-nil : is_star c ≡ false → ¬ Matches (c ∷ p) []
  not-Matches-nil h (skip n d) = cc

  -- Where the first byte's test and then `p` match, `p` matches behind the first byte.
  pub Somewhere-tail :
      {x : ℕ} (s : Text) → is_star c ≡ false → Somewhere (c ∷ p) (x ∷ s) → Somewhere p s
  Somewhere-tail s h (here d) = here (byte_inv h d).1
  Somewhere-tail [] h (later (here d)) = absurd (not-Matches-nil h d)
  Somewhere-tail (y ∷ s) h (later d) = later (Somewhere-tail s h d)

pub Somewhere-nil : {p : Text} → Somewhere p [] → Matches p []
Somewhere-nil (here d) = d

only_stars→Matches : (p : Text) → only_stars p ≡ true → Matches p []
unfolding only_stars
only_stars→Matches [] h = end
only_stars→Matches (c ∷ p) h = elim (Bool-cases (is_star c)) [
  | inl e ↦ skip e (only_stars→Matches p (ground arith))
  | inr e ↦ absurd (ground arith)
]

Matches→only_stars : {p : Text} → Matches p [] → only_stars p ≡ true
unfolding only_stars
Matches→only_stars end = refl
Matches→only_stars (skip e d) = ground (arith, Matches→only_stars d)

pub only_stars_iff : (p : Text) → (only_stars p ≡ true) ↔ Matches p []
only_stars_iff p = (only_stars→Matches p, Matches→only_stars)
