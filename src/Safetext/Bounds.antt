-- ===== src/Safetext/Bounds.antt =====
-- `Line` is never longer than `MaxLine`, and holds no control and no formatting rune.
use kubeagent.Prelude.{
  ℕ, zero, suc, ◌-◌, ◌≡◌, ◌≤◌, refl, ap, Bool, true, false, List, [], ◌∷◌, ◌++◌, ltb, length, take,
  arith, All, if_elim,
}
use kubeagent.Safetext.{
  Unicode, max_line, ellipsis, put_back, trim_right, trim_left, truncated, trim_space, clean,
  detached, line, dropped, folded, keeps, after, Attached,
}

length_last : (x : ℕ) (rs : List ℕ) → length (rs ++ x ∷ []) ≡ suc (length rs)
length_last x [] = refl
length_last x (r ∷ rs) = ap suc (length_last x rs)

length-take : (n : ℕ) (rs : List ℕ) → length (take n rs) ≤ n
length-take zero rs = omega arith
length-take (suc n) [] = omega arith
length-take (suc n) (r ∷ rs) = let ih = length-take n rs in omega arith

length-put_back : (p : ℕ → Bool) (r : ℕ) (rs : List ℕ) → length (put_back p r rs) ≤ suc (length rs)
length-put_back p r [] =
    if_elim (λ l. length l ≤ 1) (p r) [] (r ∷ []) (λ e. omega arith) (λ e. omega arith)
length-put_back p r (t ∷ ts) = omega arith

length-trim_right : (p : ℕ → Bool) (rs : List ℕ) → length (trim_right p rs) ≤ length rs
unfolding trim_right
length-trim_right p [] = omega arith
length-trim_right p (r ∷ rs) =
    let ih = length-trim_right p rs in
    let put = length-put_back p r (trim_right p rs) in omega arith

within : (n : ℕ) → ltb max_line n ≡ false → n ≤ max_line
within n h = ground arith

pub length-truncated : (u : Unicode) (rs : List ℕ) → length (truncated u rs) ≤ max_line
unfolding truncated
length-truncated u rs =
    let kept = trim_right u.is_mark (take (max_line - 1) rs) in
    let trimmed = length-trim_right u.is_mark (take (max_line - 1) rs) in
    let taken = length-take (max_line - 1) rs in
    let last = length_last ellipsis kept in
    if_elim (λ l. length l ≤ max_line) (ltb max_line (length rs)) (kept ++ ellipsis ∷ []) rs
      (λ e. omega arith) (λ e. within (length rs) e)

pub truncated_fixed : (u : Unicode) (rs : List ℕ) → length rs ≤ max_line → truncated u rs ≡ rs
unfolding truncated
truncated_fixed u rs h = ground arith

-- The property of every rune, through the cuts.
module _ (P : ℕ → Type 0) where
  All-put_back : (p : ℕ → Bool) (r : ℕ) (rs : List ℕ) → P r → All P rs → All P (put_back p r rs)
  All-put_back p r [] h hs = if_elim (All P) (p r) [] (r ∷ []) (λ e. tt) (λ e. (h, tt))
  All-put_back p r (t ∷ ts) h hs = (h, hs)

  All-trim_right : (p : ℕ → Bool) (rs : List ℕ) → All P rs → All P (trim_right p rs)
  unfolding trim_right
  All-trim_right p [] h = h
  All-trim_right p (r ∷ rs) (h, hs) = All-put_back p r (trim_right p rs) h (All-trim_right p rs hs)

  All-trim_left : (p : ℕ → Bool) (rs : List ℕ) → All P rs → All P (trim_left p rs)
  unfolding trim_left
  All-trim_left p [] h = h
  All-trim_left p (r ∷ rs) (h, hs) =
      if_elim (All P) (p r) (trim_left p rs) (r ∷ rs) (λ e. All-trim_left p rs hs) (λ e. (h, hs))

  All-take : (n : ℕ) (rs : List ℕ) → All P rs → All P (take n rs)
  All-take zero rs h = tt
  All-take (suc n) [] h = tt
  All-take (suc n) (r ∷ rs) (h, hs) = (h, All-take n rs hs)

  All-last : (x : ℕ) (rs : List ℕ) → P x → All P rs → All P (rs ++ x ∷ [])
  All-last x [] h hs = (h, tt)
  All-last x (r ∷ rs) h (k, ks) = (k, All-last x rs h ks)

  All-truncated : (u : Unicode) (rs : List ℕ) → P ellipsis → All P rs → All P (truncated u rs)
  unfolding truncated
  All-truncated u rs h hs =
      if_elim (All P) (ltb max_line (length rs))
        (trim_right u.is_mark (take (max_line - 1) rs) ++ ellipsis ∷ []) rs
        (λ e.
          All-last ellipsis (trim_right u.is_mark (take (max_line - 1) rs)) h
            (All-trim_right u.is_mark (take (max_line - 1) rs) (All-take (max_line - 1) rs hs)))
        (λ e. hs)

-- A rune that a terminal prints in its line.
abbrev pub IsPrintable : Unicode → ℕ → Type 0
IsPrintable u r = (dropped u r ≡ false) × (folded r ≡ r)

pub keeps-IsPrintable :
    (u : Unicode) (s : Attached) (r : ℕ) → keeps u s (folded r) ≡ true → IsPrintable u (folded r)
unfolding keeps folded
keeps-IsPrintable u s r h = ground arith

clean-IsPrintable : (u : Unicode) (s : Attached) (rs : List ℕ) → All (IsPrintable u) (clean u s rs)
unfolding clean
clean-IsPrintable u s [] = tt
clean-IsPrintable u s (r ∷ rs) =
    let ih = clean-IsPrintable u (after u s (folded r)) rs in
    if_elim (All (IsPrintable u)) (keeps u s (folded r))
      (folded r ∷ clean u (after u s (folded r)) rs) (clean u (after u s (folded r)) rs)
      (λ e. (keeps-IsPrintable u s r e, ih)) (λ e. ih)

-- The result of `Line` has at most 512 runes, none of them a control or formatting rune, a tab, a line break or
-- a separator, where the ellipsis is none of these.
pub line-IsPrintable :
    (u : Unicode) (rs : List ℕ)
    → u.is_control ellipsis ≡ false
    → u.is_format ellipsis ≡ false
    → (length (line u rs) ≤ max_line) × All (IsPrintable u) (line u rs)
unfolding line trim_space folded
line-IsPrintable u rs c f =
    let cleaned = clean u detached rs in
    (
      length-truncated u (trim_space u cleaned),
      All-truncated (IsPrintable u) u (trim_space u cleaned) (rw (c, f) refl, refl)
          (All-trim_right (IsPrintable u) u.is_space (trim_left u.is_space cleaned)
            (All-trim_left (IsPrintable u) u.is_space cleaned (clean-IsPrintable u detached rs))),
    )
