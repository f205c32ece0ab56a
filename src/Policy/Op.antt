-- ===== src/Policy/Op.antt =====
-- internal/policy/op.go: one operator applied to one slot.
use kubeagent.Prelude.{
  ℕ, Bool, true, false, not, ◌||◌, List, [], ◌∷◌, Option, none, some, Text, codes, text_eq, any,
  length, ltb, if◌then◌else◌,
}
use mathlib.Core.Option
use kubeagent.Prelude.Int.{ℤ, ltb_ℤ}
use kubeagent.Glob.{glob_match}
use kubeagent.Policy.{
  Compared, below, equal, above, Numbers, Value, v_string, v_bool, v_int, v_float, v_nil, v_object,
  v_list, Operator, op_exists, op_not_exists, op_in, op_not_in, op_matches, op_not_matches, op_gt,
  op_gte, op_lt, op_lte, op_other,
}
use kubeagent.Policy.Path.{Slot}

-- What `checkOp` answers: `(ok, skip)` is (true, false), (false, false) and (false, true).
pub data Answer : Type 0 where
  holds violated skipped : Answer

-- The longest text that the glob operators look at.
abbrev pub max_match_len : ℕ
max_match_len = 4096

abbrev pub answer : Bool → Answer
answer b = if b then holds else violated

abbrev pub compare_int : ℤ → ℤ → Compared
compare_int a b = if ltb_ℤ a b then below else if ltb_ℤ b a then above else equal

-- The inner switch over the four comparisons.
abbrev pub judge : Operator → Compared → Answer
judge op_gt c = elim c [ below ↦ violated | equal ↦ violated | above ↦ holds ]
judge op_gte c = elim c [ below ↦ violated | equal ↦ holds | above ↦ holds ]
judge op_lt c = elim c [ below ↦ holds | equal ↦ violated | above ↦ violated ]
judge op_lte c = elim c [ below ↦ holds | equal ↦ holds | above ↦ violated ]
judge op_exists c = skipped
judge op_not_exists c = skipped
judge op_in c = skipped
judge op_not_in c = skipped
judge op_matches c = skipped
judge op_not_matches c = skipped
judge op_other c = skipped

abbrev pub judged_as : Operator → Option Compared → Answer
judged_as op none = skipped
judged_as op (some c) = judge op c

abbrev pub is_among : Text → List Text → Bool
is_among got values = any (λ v. text_eq got v) values

unfoldable pub matches_any : Text → List Text → Bool
unfolding glob_match
matches_any got values = any (λ v. glob_match v got) values

module _ (numbers : Numbers) where
  unfoldable pub compare_float : numbers.Float → numbers.Float → Option Compared
  compare_float a b =
      if not (numbers.is_finite a) || not (numbers.is_finite b)
      then none
      else if numbers.float_less a b
      then some below
      else if numbers.float_less b a
      then some above
      else some equal

  -- The comparison as quantities.
  unfoldable pub compare_as_quantity : Text → Text → Option Compared
  compare_as_quantity a b = elim (numbers.parse_quantity a) [
    | none ↦ none
    | some aq ↦ Option.map (numbers.compare_quantity aq) (numbers.parse_quantity b)
  ]

  -- Numbers where both sides parse as numbers, quantities otherwise.
  unfoldable pub compare_floats :
      Text → Text → Option numbers.Float → Option numbers.Float → Option Compared
  unfolding compare_float compare_as_quantity
  compare_floats a b (some x) (some y) = compare_float x y
  compare_floats a b none y = compare_as_quantity a b
  compare_floats a b (some x) none = compare_as_quantity a b

  unfoldable pub compare_ints : Text → Text → Option ℤ → Option ℤ → Option Compared
  unfolding compare_floats
  compare_ints a b (some i) (some j) = some (compare_int i j)
  compare_ints a b none j = compare_floats a b (numbers.parse_float a) (numbers.parse_float b)
  compare_ints a b (some i) none =
      compare_floats a b (numbers.parse_float a) (numbers.parse_float b)

  -- `compareNumeric`: whole integers first, then numbers, then quantities.
  unfoldable pub compare_numeric : Text → Text → Option Compared
  unfolding compare_ints
  compare_numeric a b = compare_ints a b (numbers.parse_int a) (numbers.parse_int b)

  -- The second switch, for a scalar and the values `v ∷ vs`.
  unfoldable pub check_scalar : Operator → Text → Text → List Text → Answer
  unfolding compare_numeric matches_any text_eq length
  check_scalar op_in got v vs = answer (is_among got (v ∷ vs))
  check_scalar op_not_in got v vs = answer (not (is_among got (v ∷ vs)))
  check_scalar op_matches got v vs =
      if ltb max_match_len (length got) then skipped else answer (matches_any got (v ∷ vs))
  check_scalar op_not_matches got v vs =
      if ltb max_match_len (length got) then skipped else answer (not (matches_any got (v ∷ vs)))
  check_scalar op_gt got v vs = judged_as op_gt (compare_numeric got v)
  check_scalar op_gte got v vs = judged_as op_gte (compare_numeric got v)
  check_scalar op_lt got v vs = judged_as op_lt (compare_numeric got v)
  check_scalar op_lte got v vs = judged_as op_lte (compare_numeric got v)
  check_scalar op_exists got v vs = skipped
  check_scalar op_not_exists got v vs = skipped
  check_scalar op_other got v vs = skipped

  abbrev pub check_text : Operator → Option Text → List Text → Answer
  check_text op none values = skipped
  check_text op (some got) [] = skipped
  check_text op (some got) (v ∷ vs) = check_scalar op got v vs

module _ {numbers : Numbers} where
  -- `stringOf`, none where it reports false.
  unfoldable pub string_of : Value numbers → Option Text
  string_of (v_string s) = some s
  string_of (v_bool b) = some (if b then codes "true" else codes "false")
  string_of (v_int i) = some (numbers.int_text i)
  string_of (v_float x) = numbers.float_text x
  string_of v_nil = none
  string_of (v_object m) = none
  string_of (v_list l) = none

  -- What is left once `exists` and `notExists` are answered.
  unfoldable pub check_present : Operator → Slot numbers → List Text → Answer
  unfolding string_of check_scalar
  check_present op none values = skipped
  check_present op (some v) values = check_text numbers op (string_of v) values

  abbrev pub is_present : Slot numbers → Bool
  is_present none = false
  is_present (some v) = true

  -- `checkOp`.
  unfoldable pub check_op : Operator → Slot numbers → List Text → Answer
  unfolding check_present
  check_op op_exists s values = answer (is_present s)
  check_op op_not_exists s values = answer (not (is_present s))
  check_op op_in s values = check_present op_in s values
  check_op op_not_in s values = check_present op_not_in s values
  check_op op_matches s values = check_present op_matches s values
  check_op op_not_matches s values = check_present op_not_matches s values
  check_op op_gt s values = check_present op_gt s values
  check_op op_gte s values = check_present op_gte s values
  check_op op_lt s values = check_present op_lt s values
  check_op op_lte s values = check_present op_lte s values
  check_op op_other s values = check_present op_other s values
