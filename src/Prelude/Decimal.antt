-- ===== src/Prelude/Decimal.antt =====
-- `%d` of a number that is not negative, and `strings.TrimSpace`.
use Prim.Native.Nat.{ℕ, zero, suc, ◌+◌, ◌/◌, ◌%◌}
use mathlib.Core.List.{[], ◌∷◌, reverse}
use mathlib.Core.Bool.{Bool, ◌&&◌, ◌||◌}
use kubeagent.Prelude.Tests.{ltb, leb, eqb, if◌then◌else◌}
use kubeagent.Prelude.Strings.{Text}

-- One round for each digit; a number has at most as many digits as its value plus one.
digits_from : ℕ → ℕ → Text → Text
digits_from zero n acc = acc
digits_from (suc f) n acc =
    let more = digits_from f (n / 10) ((b'0' + n % 10) ∷ acc) in
    if ltb n 10 then (b'0' + n) ∷ acc else more

unfoldable pub decimal : ℕ → Text
unfolding digits_from
decimal n = digits_from (suc n) n []

ascii_space : ℕ → Bool
ascii_space a = leb 9 a && leb a 13 || eqb a 32

-- U+0085 and U+00A0 in UTF-8.
space_2 : ℕ → ℕ → Bool
space_2 a b = eqb a 0xC2 && (eqb b 0x85 || eqb b 0xA0)

-- U+1680, U+2000 to U+200A, U+2028, U+2029, U+202F, U+205F and U+3000 in UTF-8.
space_3 : ℕ → ℕ → ℕ → Bool
space_3 a b c =
    eqb a 0xE1 && eqb b 0x9A && eqb c 0x80
    || eqb a 0xE2
      && eqb b 0x80
      && (leb 0x80 c && leb c 0x8A || leb 0xA8 c && leb c 0xA9 || eqb c 0xAF)
    || eqb a 0xE2 && eqb b 0x81 && eqb c 0x9F
    || eqb a 0xE3 && eqb b 0x80 && eqb c 0x80

unfoldable pub trim_left : Text → Text
unfolding ascii_space space_2 space_3
trim_left [] = []
trim_left (a ∷ []) = if ascii_space a then [] else a ∷ []
trim_left (a ∷ b ∷ []) =
    let one = trim_left (b ∷ []) in
    if ascii_space a then one else if space_2 a b then [] else a ∷ b ∷ []
trim_left (a ∷ b ∷ c ∷ s) =
    let one = trim_left (b ∷ c ∷ s) in
    let two = trim_left (c ∷ s) in
    let three = trim_left s in
    if ascii_space a
    then one
    else if space_2 a b
    then two
    else if space_3 a b c
    then three
    else a ∷ b ∷ c ∷ s

-- The same on the reversed text.
unfoldable pub trim_reversed : Text → Text
unfolding ascii_space space_2 space_3
trim_reversed [] = []
trim_reversed (a ∷ []) = if ascii_space a then [] else a ∷ []
trim_reversed (b ∷ a ∷ []) =
    let one = trim_reversed (a ∷ []) in
    if ascii_space b then one else if space_2 a b then [] else b ∷ a ∷ []
trim_reversed (c ∷ b ∷ a ∷ s) =
    let one = trim_reversed (b ∷ a ∷ s) in
    let two = trim_reversed (a ∷ s) in
    let three = trim_reversed s in
    if ascii_space c
    then one
    else if space_2 b c
    then two
    else if space_3 a b c
    then three
    else c ∷ b ∷ a ∷ s

unfoldable pub trim_space : Text → Text
unfolding trim_left trim_reversed
trim_space s = reverse (trim_reversed (reverse (trim_left s)))
