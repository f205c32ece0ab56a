-- ===== src/Prelude/Atoi.antt =====
-- `strconv.Atoi` and `strconv.Itoa` of Go's standard library, for a 64-bit int.
use Prim.Native.Nat.{ℕ, ◌+◌, ◌-◌, ◌*◌, ◌^◌, suc}
use mathlib.Core.List.{[], ◌∷◌}
use mathlib.Core.Bool.{◌&&◌}
use mathlib.Core.Option.{Option, none, some}
use kubeagent.Prelude.Tests.{ltb, leb, eqb, if◌then◌else◌}
use kubeagent.Prelude.Strings.{Text}
use kubeagent.Prelude.Int.{ℤ, pos, negsuc, sub_ℕ}
use kubeagent.Prelude.Decimal.{decimal}

unfoldable pub digits_value : Text → ℕ → Option ℕ
digits_value [] acc = some acc
digits_value (c ∷ cs) acc =
    let rest = digits_value cs (acc * 10 + (c - 48)) in if leb 48 c && leb c 57 then rest else none

unsigned : Text → Option ℕ
unfolding digits_value
unsigned [] = none
unsigned (c ∷ cs) = digits_value (c ∷ cs) 0

positive : Option ℕ → Option ℤ
positive none = none
positive (some n) = if ltb n (2 ^ 63) then some (pos n) else none

negative : Option ℕ → Option ℤ
negative none = none
negative (some n) = if leb n (2 ^ 63) then some (sub_ℕ 0 n) else none

unfoldable pub atoi : Text → Option ℤ
unfolding unsigned positive negative
atoi [] = none
atoi (c ∷ cs) =
    if eqb c b'-'
    then negative (unsigned cs)
    else if eqb c b'+'
    then positive (unsigned cs)
    else positive (unsigned (c ∷ cs))

unfoldable pub itoa : ℤ → Text
unfolding decimal
itoa (pos n) = decimal n
itoa (negsuc n) = b'-' ∷ decimal (suc n)
