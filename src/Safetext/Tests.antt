-- ===== src/Safetext/Tests.antt =====
-- Lines of a log with escapes, stacked marks and a no-break space.
use kubeagent.Prelude.{ℕ, ◌≡◌, ◌≤◌, refl, not, ◌&&◌, ◌||◌, List, [], ◌∷◌, eqb, ltb, length, All}
use kubeagent.Safetext.{Unicode, max_line, folded, line}
use kubeagent.Safetext.Cleaned.{HasRunes}
use kubeagent.Safetext.Idempotent.{IsOddSpace, line-idempotent, line-not_idempotent}
use kubeagent.Safetext.Bounds.{IsPrintable, line-IsPrintable}

abbrev latin : Unicode
latin = record {
  is_control = λ r. ltb r 32;
  is_format = λ r. eqb r 0x200d;
  is_mark = λ r. not (ltb r 0x300) && ltb r 0x370;
  is_space = λ r. eqb r 32 || eqb r 0xa0;
}

-- A tab, an escape sequence's start, and five accents on one letter.
abbrev hostile : List ℕ
hostile = 9 ∷ 27 ∷ 97 ∷ 0x301 ∷ 0x301 ∷ 0x200d ∷ 0x301 ∷ 0x301 ∷ 0x301 ∷ 10 ∷ 0x301 ∷ 98 ∷ 32 ∷ []

runs : line latin hostile ≡ 97 ∷ 0x301 ∷ 0x301 ∷ 0x301 ∷ 0x301 ∷ 32 ∷ 98 ∷ []
unfolding line
runs = refl

latin-HasRunes : HasRunes latin
latin-HasRunes = record {
  space_kept = (refl, refl);
  ellipsis_kept = (refl, refl);
  ellipsis_base = (refl, refl);
}

line-idempotent_example : line latin (line latin hostile) ≡ line latin hostile
unfolding folded
line-idempotent_example = line-idempotent latin latin-HasRunes hostile refl

no_break-IsOddSpace : IsOddSpace latin 0xa0 0x301 97
unfolding folded
no_break-IsOddSpace = record {
  odd_space = (refl, refl, refl);
  mark = (refl, refl, refl);
  letter = (refl, refl, refl);
  written = (refl, refl, refl);
  kept_as_is = (refl, refl, refl);
}

line-not_idempotent_example :
    (line latin (0xa0 ∷ 0x301 ∷ 97 ∷ []) ≡ 0x301 ∷ 97 ∷ [])
    × (line latin (line latin (0xa0 ∷ 0x301 ∷ 97 ∷ [])) ≡ 97 ∷ [])
line-not_idempotent_example =
    line-not_idempotent latin latin-HasRunes 0xa0 0x301 97 no_break-IsOddSpace

line-IsPrintable_example :
    (length (line latin hostile) ≤ max_line) × All (IsPrintable latin) (line latin hostile)
line-IsPrintable_example = line-IsPrintable latin hostile refl refl
