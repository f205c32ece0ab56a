-- ===== src/Oncall/Tests.antt =====
-- A throttle of two calls an hour and a cooldown of ten seconds, in fixed point with 3600 parts.
use kubeagent.Prelude.{
  ℕ, ◌*◌, ◌/◌, ◌+◌, ◌-◌, ◌≡◌, refl, true, false, List, [], ◌∷◌, Text, codes, text_eq, ltb, All,
  arith,
}
use kubeagent.Prelude.Int.{pos, pos_part}
use kubeagent.Oncall.Throttle.{Floats, Throttle, new_throttle, still_blocks, allow}
use kubeagent.Oncall.Budget.{Laws, IsFunded, new_throttle-IsFunded, allow-IsFunded}
use kubeagent.Oncall.Cooldown.{serve, allow-quiet}

abbrev fixed : Floats
fixed = record {
  Float = ℕ;
  less = ltb;
  add = λ a b. a + b;
  sub = λ a b. a - b;
  mul = λ a b. a * b / 3600;
  div = λ a b. a * 3600 / b;
  of_int = λ i. 3600 * pos_part i;
  seconds = λ d. 3600 * pos_part d;
}

no_negative : (x : ℕ) → ltb x 0 ≡ false
no_negative x = ground arith

fixed_laws : Laws fixed
fixed_laws = record {
  less-irrefl = λ x. ground arith;
  less-sub = λ x top h. ground arith;
  sub-nonneg = λ x h. no_negative _;
  gain-nonneg = λ x s rate h g k. no_negative _;
  div-nonneg = λ x h. no_negative _;
  of_int-nonneg = λ n. no_negative _;
}

abbrev start : Throttle fixed
start = new_throttle fixed (pos 10) (pos 2)

abbrev once : Throttle fixed
once = (allow fixed (codes "web") 100 start).0

-- The second call for the object is refused, another object is explained, and a third finds the
-- bucket empty.
answers :
    ((allow fixed (codes "web") 100 start).1 ≡ true)
    × ((allow fixed (codes "web") 109 once).1 ≡ false)
    × ((allow fixed (codes "api") 109 once).1 ≡ true)
    × ((allow fixed (codes "db") 109 (allow fixed (codes "api") 109 once).0).1 ≡ false)
    × ((allow fixed (codes "web") 110 once).1 ≡ true)
unfolding allow new_throttle text_eq
answers = (refl, refl, refl, refl, refl)

allow-IsFunded_example : IsFunded (allow fixed (codes "web") 100 start).0
allow-IsFunded_example =
    allow-IsFunded fixed_laws (codes "web") 100 start
      (new_throttle-IsFunded fixed_laws (pos 10) (pos 2))

web_allowed : (allow fixed (codes "web") 100 start).1 ≡ true
unfolding allow new_throttle text_eq
web_allowed = refl

abbrev api_call : List (Text × ℕ)
api_call = (codes "api", 105) ∷ []

api_within : All (λ (call : Text × ℕ). still_blocks fixed start.cooldown call.1 100 ≡ true) api_call
unfolding new_throttle
api_within = (refl, tt)

web_within : still_blocks fixed start.cooldown 109 100 ≡ true
unfolding new_throttle
web_within = refl

allow-quiet_example :
    (allow fixed (codes "web") 109 (serve fixed api_call (allow fixed (codes "web") 100 start).0)).1
    ≡ false
allow-quiet_example =
    allow-quiet (codes "web") 100 109 api_call start web_allowed api_within web_within
