-- ===== src/Safetext/Idempotent.antt =====
-- Where `Line` is idempotent, and where it is not.
use kubeagent.Prelude.{
  eqb_iff, any, not, ◌&&◌, ℕ, zero, suc, ◌-◌, ◌≡◌, refl, ◌∙◌, ap, Bool, true, false, List, [], ◌∷◌,
  ◌++◌, eqb, ltb, length, take, arith, if_elim,
}
use kubeagent.Safetext.Bounds.{keeps-IsPrintable, length-truncated, truncated_fixed}
use kubeagent.Safetext.{
  Unicode, max_line, ellipsis, folded, dropped, Attached, detached, put_back, trim_right, trim_left,
  keeps, after, clean, trim_space, truncated, line,
}
use kubeagent.Safetext.Cleaned.{
  HasRunes, IsPlain, clean_fixed, clean-IsClean, trim_right-IsClean, trim_left-IsClean,
  truncated-IsClean,
}

module _ (u : Unicode) where
  -- The first rune fails a test.
  abbrev Starts : List ℕ → Type 0
  Starts [] = Unit
  Starts (r ∷ rs) = u.is_space r ≡ false

  trim_left-Starts : (rs : List ℕ) → Starts (trim_left u.is_space rs)
  unfolding trim_left
  trim_left-Starts [] = tt
  trim_left-Starts (r ∷ rs) =
      if_elim Starts (u.is_space r) (trim_left u.is_space rs) (r ∷ rs) (λ e. trim_left-Starts rs)
        (λ e. e)

  put_back-Starts :
      (p : ℕ → Bool) (r : ℕ) (rs : List ℕ) → u.is_space r ≡ false → Starts (put_back p r rs)
  put_back-Starts p r [] h = if_elim Starts (p r) [] (r ∷ []) (λ e. tt) (λ e. h)
  put_back-Starts p r (t ∷ ts) h = h

  trim_right-Starts : (p : ℕ → Bool) (rs : List ℕ) → Starts rs → Starts (trim_right p rs)
  unfolding trim_right
  trim_right-Starts p [] h = h
  trim_right-Starts p (r ∷ rs) h = put_back-Starts p r (trim_right p rs) h

  take-Starts : (n : ℕ) (rs : List ℕ) → Starts rs → Starts (take n rs)
  take-Starts zero rs h = tt
  take-Starts (suc n) [] h = h
  take-Starts (suc n) (r ∷ rs) h = h

  trim_left_fixed : (rs : List ℕ) → Starts rs → trim_left u.is_space rs ≡ rs
  unfolding trim_left
  trim_left_fixed [] h = refl
  trim_left_fixed (r ∷ rs) h = rw h refl

  trim_right-put_back :
      (p : ℕ → Bool) (r : ℕ) (rs : List ℕ)
      → trim_right p rs ≡ rs
      → trim_right p (put_back p r rs) ≡ put_back p r rs
  unfolding trim_right
  trim_right-put_back p r [] h =
      if_elim (λ l. trim_right p l ≡ l) (p r) [] (r ∷ []) (λ e. refl) (λ e. rw e refl)
  trim_right-put_back p r (t ∷ ts) h = ap (put_back p r) h

  trim_right-trim_right :
      (p : ℕ → Bool) (rs : List ℕ) → trim_right p (trim_right p rs) ≡ trim_right p rs
  unfolding trim_right
  trim_right-trim_right p [] = refl
  trim_right-trim_right p (r ∷ rs) =
      trim_right-put_back p r (trim_right p rs) (trim_right-trim_right p rs)

  put_back-last :
      (p : ℕ → Bool) (r x : ℕ) (rs : List ℕ) → put_back p r (rs ++ x ∷ []) ≡ r ∷ (rs ++ x ∷ [])
  put_back-last p r x [] = refl
  put_back-last p r x (t ∷ ts) = refl

  trim_right-last :
      (p : ℕ → Bool) (x : ℕ) (rs : List ℕ)
      → p x ≡ false
      → trim_right p (rs ++ x ∷ []) ≡ rs ++ x ∷ []
  unfolding trim_right
  trim_right-last p x [] h = rw h refl
  trim_right-last p x (r ∷ rs) h =
      ap (put_back p r) (trim_right-last p x rs h) ∙ put_back-last p r x rs

  -- Runes of a text that `Line` shortens twice: a space other than the ASCII one, a combining mark and a
  -- letter.
  pub record IsOddSpace (s m c : ℕ) : Type 0 where
    pub odd_space : (u.is_space s ≡ true) × (u.is_mark s ≡ false) × (eqb s 32 ≡ false)
    pub mark : (u.is_mark m ≡ true) × (u.is_space m ≡ false) × (eqb m 32 ≡ false)
    pub letter : (u.is_mark c ≡ false) × (u.is_space c ≡ false) × (eqb c 32 ≡ false)
    pub written : (dropped u s ≡ false) × (dropped u m ≡ false) × (dropped u c ≡ false)
    pub kept_as_is : (folded s ≡ s) × (folded m ≡ m) × (folded c ≡ c)

  module _ (known : HasRunes u) where
    ellipsis-Starts : (rs : List ℕ) → Starts rs → Starts (rs ++ ellipsis ∷ [])
    ellipsis-Starts [] h = known.ellipsis_base.1
    ellipsis-Starts (r ∷ rs) h = h

    truncated-Starts : (rs : List ℕ) → Starts rs → Starts (truncated u rs)
    unfolding truncated
    truncated-Starts rs h =
        if_elim Starts (ltb max_line (length rs))
          (trim_right u.is_mark (take (max_line - 1) rs) ++ ellipsis ∷ []) rs
          (λ e. ellipsis-Starts (trim_right u.is_mark (take (max_line - 1) rs)) (
            trim_right-Starts u.is_mark (take (max_line - 1) rs) (take-Starts (max_line - 1) rs h)))
          (λ e. h)

    truncated-IsTrimmed :
        (rs : List ℕ)
        → trim_right u.is_space rs ≡ rs
        → trim_right u.is_space (truncated u rs) ≡ truncated u rs
    unfolding truncated
    truncated-IsTrimmed rs h =
        if_elim (λ l. trim_right u.is_space l ≡ l) (ltb max_line (length rs))
          (trim_right u.is_mark (take (max_line - 1) rs) ++ ellipsis ∷ []) rs
          (λ e.
            trim_right-last u.is_space ellipsis (trim_right u.is_mark (take (max_line - 1) rs))
              known.ellipsis_base.1)
          (λ e. h)

    -- A rune that the loop writes, that `strings.TrimSpace` calls a space, and that is not the ASCII one.
    abbrev pub is_odd_space : ℕ → Bool
    is_odd_space r =
        not (dropped u (folded r)) && (u.is_space (folded r) && not (eqb (folded r) 32))

    clean-IsPlain :
        (s : Attached) (rs : List ℕ) → any is_odd_space rs ≡ false → IsPlain u known (clean u s rs)
    unfolding clean
    clean-IsPlain s [] h = tt
    clean-IsPlain s (r ∷ rs) h =
        let plain : is_odd_space r ≡ false = ground arith in
        let more : any is_odd_space rs ≡ false = ground arith in
        let ih = clean-IsPlain (after u s (folded r)) rs more in
        if_elim (IsPlain u known) (keeps u s (folded r))
          (folded r ∷ clean u (after u s (folded r)) rs) (clean u (after u s (folded r)) rs)
          (λ e.
            let written = (keeps-IsPrintable u s r e).0 in
            ((λ f. ground (arith, eqb_iff (folded r) 32)), ih))
          (λ e. ih)

    -- `Line` leaves its own result alone, where the text holds no Unicode space but the ASCII one and those that `Line`
    -- folds or drops.
    pub line-idempotent :
        (rs : List ℕ) → any is_odd_space rs ≡ false → line u (line u rs) ≡ line u rs
    unfolding line trim_space
    line-idempotent rs none_odd =
        let plain = clean-IsPlain detached rs none_odd in
        let cleaned = clean u detached rs in
        let started = trim_left u.is_space cleaned in
        let trimmed = trim_space u cleaned in
        let result = truncated u trimmed in
        let starts =
          truncated-Starts trimmed
            (trim_right-Starts u.is_space started (trim_left-Starts cleaned)) in
        let safe = truncated-IsClean u known detached trimmed (
          trim_right-IsClean u u.is_space detached started
            (trim_left-IsClean u known cleaned plain (clean-IsClean u detached rs))) in
        let ends = truncated-IsTrimmed trimmed (trim_right-trim_right u.is_space started) in
        ap (λ l. truncated u (trim_space u l)) (clean_fixed u detached result safe)
        ∙ ap (λ l. truncated u (trim_right u.is_space l)) (trim_left_fixed result starts)
        ∙ ap (truncated u) ends
        ∙ truncated_fixed u result (length-truncated u trimmed)

    line_first : (s m c : ℕ) → IsOddSpace s m c → line u (s ∷ m ∷ c ∷ []) ≡ m ∷ c ∷ []
    unfolding line clean keeps after trim_space trim_left trim_right truncated
    line_first s m c h = ground (arith, h.kept_as_is, h.written, h.odd_space, h.mark, h.letter)

    line_second : (s m c : ℕ) → IsOddSpace s m c → line u (m ∷ c ∷ []) ≡ c ∷ []
    unfolding line clean keeps after trim_space trim_left trim_right truncated
    line_second s m c h = ground (arith, h.kept_as_is, h.written, h.odd_space, h.mark, h.letter)

    -- On such a text the second `Line` drops the mark that the first one left at the start.
    pub line-not_idempotent :
        (s m c : ℕ)
        → IsOddSpace s m c
        → (line u (s ∷ m ∷ c ∷ []) ≡ m ∷ c ∷ []) × (line u (line u (s ∷ m ∷ c ∷ [])) ≡ c ∷ [])
    line-not_idempotent s m c h =
        (line_first s m c h, ap (line u) (line_first s m c h) ∙ line_second s m c h)
