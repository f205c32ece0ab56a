-- ===== src/Safetext.antt =====
-- internal/safetext/safetext.go: `Line`, on the runes of a text. What `strings.ToValidUTF8` replaces is
-- one rune U+FFFD here.
pub mod Cleaned
pub mod Idempotent
pub mod Bounds
mod Tests
use kubeagent.Prelude.{
  ℕ, suc, ◌-◌, ◌+◌, Bool, true, false, not, ◌&&◌, ◌||◌, List, [], ◌∷◌, ◌++◌, eqb, ltb, length, take,
  if◌then◌else◌,
}

-- The categories of Go's unicode package.
pub record Unicode : Type 0 where
  pub is_control : ℕ → Bool
  pub is_format : ℕ → Bool
  pub is_mark : ℕ → Bool
  pub is_space : ℕ → Bool

abbrev pub max_line : ℕ
max_line = 512

abbrev pub max_combining : ℕ
max_combining = 4

abbrev pub ellipsis : ℕ
ellipsis = 0x2026

-- The whitespace controls and the two separators become a space.
unfoldable pub folded : ℕ → ℕ
folded r =
    if eqb r 9 || eqb r 10 || eqb r 11 || eqb r 12 || eqb r 13 || eqb r 0x2028 || eqb r 0x2029
    then 32
    else r

-- `base` and `marks`.
pub record Attached : Type 0 where
  pub base : Bool
  pub marks : ℕ

abbrev pub detached : Attached
detached = record { base = false; marks = 0 }

-- The last runes dropped while they pass a test.
abbrev pub put_back : (ℕ → Bool) → ℕ → List ℕ → List ℕ
put_back p r [] = if p r then [] else r ∷ []
put_back p r (t ∷ ts) = r ∷ t ∷ ts

unfoldable pub trim_right : (ℕ → Bool) → List ℕ → List ℕ
trim_right p [] = []
trim_right p (r ∷ rs) = put_back p r (trim_right p rs)

unfoldable pub trim_left : (ℕ → Bool) → List ℕ → List ℕ
trim_left p [] = []
trim_left p (r ∷ rs) = let rest = trim_left p rs in if p r then rest else r ∷ rs

module _ (u : Unicode) where
  abbrev pub dropped : ℕ → Bool
  dropped r = u.is_control r || u.is_format r

  -- Whether the loop writes a rune, and what it leaves for the next.
  unfoldable pub keeps : Attached → ℕ → Bool
  keeps s r =
      if dropped r
      then false
      else if eqb r 32
      then true
      else if u.is_mark r
      then not (not s.base || eqb s.marks max_combining)
      else true

  unfoldable pub after : Attached → ℕ → Attached
  after s r =
      if dropped r
      then s
      else if eqb r 32
      then detached
      else if u.is_mark r
      then (if not s.base || eqb s.marks max_combining then s else record s { marks = suc s.marks })
      else record { base = true; marks = 0 }

  -- The loop over the runes.
  unfoldable pub clean : Attached → List ℕ → List ℕ
  unfolding folded keeps after
  clean s [] = []
  clean s (r ∷ rs) =
      let rest = clean (after s (folded r)) rs in
      if keeps s (folded r) then folded r ∷ rest else rest

  -- `strings.TrimSpace`.
  unfoldable pub trim_space : List ℕ → List ℕ
  unfolding trim_left trim_right
  trim_space rs = trim_right u.is_space (trim_left u.is_space rs)

  unfoldable pub truncated : List ℕ → List ℕ
  unfolding trim_right
  truncated rs =
      if ltb max_line (length rs)
      then trim_right u.is_mark (take (max_line - 1) rs) ++ ellipsis ∷ []
      else rs

  -- `Line`.
  unfoldable pub line : List ℕ → List ℕ
  unfolding clean trim_space truncated
  line rs = truncated (trim_space (clean detached rs))
