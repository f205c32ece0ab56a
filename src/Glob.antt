-- ===== src/Glob.antt =====
-- internal/glob/glob.go: the matcher of `*` and `?`. A cursor that only moves forward through the
-- pattern or the text is the suffix that is left; `starP` and `starI` are the pattern behind the
-- last star and the text where that star stood. The loop runs on fuel.
pub mod Spec
pub mod Correct
mod Tests
use kubeagent.Prelude.{
  ℕ, zero, suc, ◌+◌, ◌*◌, Bool, true, false, ◌||◌, List, [], ◌∷◌, Option, none, some, Text, length,
  eqb, if◌then◌else◌,
}

abbrev pub is_star : ℕ → Bool
is_star c = eqb c b'*'

-- The second case of the switch: `?`, or the same byte.
abbrev pub accepts : ℕ → ℕ → Bool
accepts c x = eqb c b'?' || eqb c x

-- The trailing loop and the final test, `p == len(pattern)` after skipping stars.
unfoldable pub only_stars : Text → Bool
only_stars [] = true
only_stars (c ∷ p) = let rest = only_stars p in if is_star c then rest else false

abbrev pub Back : Type 0
Back = Option (Text × Text)

-- The last two cases of the switch: let the star swallow one more byte, or fail.
unfoldable pub swallow_more : Back → (Text → Text → Back → Option Bool) → Option Bool
swallow_more none next = some false
swallow_more (some (star_p, [])) next = some false
swallow_more (some (star_p, x ∷ star_s)) next = next star_p star_s (some (star_p, star_s))

unfoldable pub loop : ℕ → Text → Text → Back → Option Bool
loop zero p s back = none
loop (suc f) p [] back = some (only_stars p)
loop (suc f) [] (x ∷ s) back = swallow_more back (loop f)
loop (suc f) (c ∷ p) (x ∷ s) back =
    let opened = loop f p (x ∷ s) (some (p, x ∷ s)) in
    let matched = loop f p s back in
    let again = swallow_more back (loop f) in
    if is_star c then opened else if accepts c x then matched else again

unfoldable pub run : Text → Text → Option Bool
unfolding loop swallow_more only_stars
run pattern s = loop ((length s + 1) * (length pattern + 1)) pattern s none

-- `Match`. The fuel never runs out (`Glob.Correct`).
unfoldable pub glob_match : Text → Text → Bool
unfolding run
glob_match pattern s = elim (run pattern s) [ none ↦ false | some b ↦ b ]
