-- ===== src/Safetext/Cleaned.antt =====
-- Runes that the loop of `Line` writes as they are, and what the cuts leave of them.
use mathlib.Core.Path.{subst}
use kubeagent.Prelude.{
  ℕ, zero, suc, ◌-◌, ◌≡◌, refl, ◌∙◌, ap, Bool, true, false, List, [], ◌∷◌, ◌++◌, ltb, length, take,
  arith, All, if_elim, Bool-cases, inl, inr,
}
use kubeagent.Safetext.{
  Unicode, max_line, ellipsis, folded, Attached, detached, put_back, trim_right, trim_left, keeps,
  after, clean, truncated,
}

folded-folded : (r : ℕ) → folded (folded r) ≡ folded r
unfolding folded
folded-folded r = ground arith

-- What the standard library says of two runes.
pub record HasRunes (u : Unicode) : Type 0 where
  pub space_kept : (u.is_control 32 ≡ false) × (u.is_format 32 ≡ false)
  pub ellipsis_kept : (u.is_control ellipsis ≡ false) × (u.is_format ellipsis ≡ false)
  pub ellipsis_base : (u.is_mark ellipsis ≡ false) × (u.is_space ellipsis ≡ false)

module _ (u : Unicode) where
  -- Runes that the loop writes as they are, from this state.
  abbrev pub IsClean : Attached → List ℕ → Type 0
  IsClean s [] = Unit
  IsClean s (r ∷ rs) = (folded r ≡ r) × (keeps u s r ≡ true) × IsClean (after u s r) rs

  pub clean_fixed : (s : Attached) (rs : List ℕ) → IsClean s rs → clean u s rs ≡ rs
  unfolding clean
  clean_fixed s [] h = refl
  clean_fixed s (r ∷ rs) (f, k, h) = rw (f, k) (ap (λ l. r ∷ l) (clean_fixed (after u s r) rs h))

  after_dropped : (s : Attached) (r : ℕ) → keeps u s r ≡ false → after u s r ≡ s
  unfolding keeps after
  after_dropped s r h = ground arith

  pub clean-IsClean : (s : Attached) (rs : List ℕ) → IsClean s (clean u s rs)
  unfolding clean
  clean-IsClean s [] = tt
  clean-IsClean s (r ∷ rs) = elim (Bool-cases (keeps u s (folded r))) [
    | inl k ↦ rw k (folded-folded r, k, clean-IsClean (after u s (folded r)) rs)
    | inr k ↦ rw (k, after_dropped s (folded r) k) (clean-IsClean s rs)
  ]

  take-IsClean : (n : ℕ) (s : Attached) (rs : List ℕ) → IsClean s rs → IsClean s (take n rs)
  take-IsClean zero s rs h = tt
  take-IsClean (suc n) s [] h = h
  take-IsClean (suc n) s (r ∷ rs) (f, k, h) = (f, k, take-IsClean n (after u s r) rs h)

  put_back-IsClean :
      (p : ℕ → Bool) (s : Attached) (r : ℕ) (rs : List ℕ)
      → folded r ≡ r
      → keeps u s r ≡ true
      → IsClean (after u s r) rs
      → IsClean s (put_back p r rs)
  put_back-IsClean p s r [] f k h =
      if_elim (IsClean s) (p r) [] (r ∷ []) (λ e. tt) (λ e. (f, k, tt))
  put_back-IsClean p s r (t ∷ ts) f k h = (f, k, h)

  pub trim_right-IsClean :
      (p : ℕ → Bool) (s : Attached) (rs : List ℕ) → IsClean s rs → IsClean s (trim_right p rs)
  unfolding trim_right
  trim_right-IsClean p s [] h = h
  trim_right-IsClean p s (r ∷ rs) (f, k, h) =
      put_back-IsClean p s r (trim_right p rs) f k (trim_right-IsClean p (after u s r) rs h)

  module _ (known : HasRunes u) where
    ellipsis-IsClean : (s : Attached) (rs : List ℕ) → IsClean s rs → IsClean s (rs ++ ellipsis ∷ [])
    unfolding folded keeps
    ellipsis-IsClean s [] h = (refl, ground (arith, known.ellipsis_kept, known.ellipsis_base), tt)
    ellipsis-IsClean s (r ∷ rs) (f, k, h) = (f, k, ellipsis-IsClean (after u s r) rs h)

    pub truncated-IsClean : (s : Attached) (rs : List ℕ) → IsClean s rs → IsClean s (truncated u rs)
    unfolding truncated
    truncated-IsClean s rs h =
        if_elim (IsClean s) (ltb max_line (length rs))
          (trim_right u.is_mark (take (max_line - 1) rs) ++ ellipsis ∷ []) rs
          (λ e. ellipsis-IsClean s (trim_right u.is_mark (take (max_line - 1) rs)) (
            trim_right-IsClean u.is_mark s (take (max_line - 1) rs)
              (take-IsClean (max_line - 1) s rs h)))
          (λ e. h)

    -- No rune is a space but the ASCII one.
    abbrev pub IsPlain : List ℕ → Type 0
    IsPlain rs = All (λ r. u.is_space r ≡ true → r ≡ 32) rs

    after_space : (s : Attached) → after u s 32 ≡ detached
    unfolding after
    after_space s = ground (arith, known.space_kept)

    -- What is left of a plain text is written from the start as it was.
    pub trim_left-IsClean :
        (rs : List ℕ)
        → IsPlain rs
        → IsClean detached rs
        → IsClean detached (trim_left u.is_space rs)
    unfolding trim_left
    trim_left-IsClean [] q h = h
    trim_left-IsClean (r ∷ rs) (q, qs) (f, k, h) =
        if_elim (IsClean detached) (u.is_space r) (trim_left u.is_space rs) (r ∷ rs)
          (λ e.
            trim_left-IsClean rs qs
              (subst (λ s. IsClean s rs) (ap (after u detached) (q e) ∙ after_space detached) h))
          (λ e. (f, k, h))
