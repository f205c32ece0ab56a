-- ===== src/Glob/Tests.antt =====
-- Runs of the matcher, and its theorems at concrete inputs.
use kubeagent.Prelude.{◌≡◌, refl, ◌↔◌, Bool, true, false, some, codes}
use kubeagent.Glob.{run, glob_match}
use kubeagent.Glob.Spec.{Matches}
use kubeagent.Glob.Correct.{run-decides}

crosses_slash :
    glob_match (codes "registry.example.com/*") (codes "registry.example.com/team/app:1.0") ≡ true
unfolding glob_match
crosses_slash = refl

-- A star in the text is a literal there and does not use the pattern's star up.
star_in_text : glob_match (codes "*x") (codes "**x") ≡ true
unfolding glob_match
star_in_text = refl

bracket_is_literal : glob_match (codes "[a]") (codes "a") ≡ false
unfolding glob_match
bracket_is_literal = refl

run-decides_example :
    (b : Bool) × (run (codes "*ab?") (codes "aabab1") ≡ some b)
    × ((b ≡ true) ↔ Matches (codes "*ab?") (codes "aabab1"))
run-decides_example = run-decides (codes "*ab?") (codes "aabab1")
