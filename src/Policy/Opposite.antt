-- ===== src/Policy/Opposite.antt =====
-- An operator and its negation: `in` and `notIn`, `matches` and `notMatches`, `gt` and `lte`.
use kubeagent.Prelude.{
  ◌≡◌, refl, Bool, true, false, not, ◌&&◌, ◌||◌, List, [], ◌∷◌, Option, none, some, Text, ltb,
  length, if◌then◌else◌,
}
use kubeagent.Policy.{
  Compared, below, equal, above, Numbers, v_string, v_bool, v_int, v_float, v_nil, v_object, v_list,
  Operator, op_exists, op_not_exists, op_in, op_not_in, op_matches, op_not_matches, op_gt, op_gte,
  op_lt, op_lte, op_other,
}
use kubeagent.Policy.Path.{Slot}
use kubeagent.Policy.Op.{
  Answer, holds, violated, skipped, answer, is_present, is_among, matches_any, compare_numeric,
  judged_as, string_of, check_scalar, check_text, check_present, check_op, max_match_len,
}

-- The operator that says the opposite; an unknown one has none.
abbrev pub negate : Operator → Operator
negate op_exists = op_not_exists
negate op_not_exists = op_exists
negate op_in = op_not_in
negate op_not_in = op_in
negate op_matches = op_not_matches
negate op_not_matches = op_matches
negate op_gt = op_lte
negate op_gte = op_lt
negate op_lt = op_gte
negate op_lte = op_gt
negate op_other = op_other

abbrev pub opposite : Answer → Answer
opposite holds = violated
opposite violated = holds
opposite skipped = skipped

abbrev pub is_skipped : Answer → Bool
is_skipped holds = false
is_skipped violated = false
is_skipped skipped = true

-- Whether an operator compares the value, and not only whether there is one.
abbrev pub asks_value : Operator → Bool
asks_value op_exists = false
asks_value op_not_exists = false
asks_value op_in = true
asks_value op_not_in = true
asks_value op_matches = true
asks_value op_not_matches = true
asks_value op_gt = true
asks_value op_gte = true
asks_value op_lt = true
asks_value op_lte = true
asks_value op_other = true

answer-not : (b : Bool) → answer (not b) ≡ opposite (answer b)
answer-not true = refl
answer-not false = refl

answer-same : (b : Bool) → answer b ≡ opposite (answer (not b))
answer-same true = refl
answer-same false = refl

capped-not :
    (c b : Bool)
    → (if c then skipped else answer (not b)) ≡ opposite (if c then skipped else answer b)
capped-not true b = refl
capped-not false b = answer-not b

capped-same :
    (c b : Bool)
    → (if c then skipped else answer b) ≡ opposite (if c then skipped else answer (not b))
capped-same true b = refl
capped-same false b = answer-same b

judged-gt : (c : Option Compared) → judged_as op_lte c ≡ opposite (judged_as op_gt c)
judged-gt none = refl
judged-gt (some below) = refl
judged-gt (some equal) = refl
judged-gt (some above) = refl

judged-gte : (c : Option Compared) → judged_as op_lt c ≡ opposite (judged_as op_gte c)
judged-gte none = refl
judged-gte (some below) = refl
judged-gte (some equal) = refl
judged-gte (some above) = refl

judged-lt : (c : Option Compared) → judged_as op_gte c ≡ opposite (judged_as op_lt c)
judged-lt none = refl
judged-lt (some below) = refl
judged-lt (some equal) = refl
judged-lt (some above) = refl

judged-lte : (c : Option Compared) → judged_as op_gt c ≡ opposite (judged_as op_lte c)
judged-lte none = refl
judged-lte (some below) = refl
judged-lte (some equal) = refl
judged-lte (some above) = refl

module _ (numbers : Numbers) where
  check_scalar-negate :
      (op : Operator) (got v : Text) (vs : List Text)
      → check_scalar numbers (negate op) got v vs ≡ opposite (check_scalar numbers op got v vs)
  unfolding check_scalar
  check_scalar-negate op_in got v vs = answer-not (is_among got (v ∷ vs))
  check_scalar-negate op_not_in got v vs = answer-same (is_among got (v ∷ vs))
  check_scalar-negate op_matches got v vs =
      capped-not (ltb max_match_len (length got)) (matches_any got (v ∷ vs))
  check_scalar-negate op_not_matches got v vs =
      capped-same (ltb max_match_len (length got)) (matches_any got (v ∷ vs))
  check_scalar-negate op_gt got v vs = judged-gt (compare_numeric numbers got v)
  check_scalar-negate op_gte got v vs = judged-gte (compare_numeric numbers got v)
  check_scalar-negate op_lt got v vs = judged-lt (compare_numeric numbers got v)
  check_scalar-negate op_lte got v vs = judged-lte (compare_numeric numbers got v)
  check_scalar-negate op_exists got v vs = refl
  check_scalar-negate op_not_exists got v vs = refl
  check_scalar-negate op_other got v vs = refl

  check_text-negate :
      (op : Operator) (got : Option Text) (vs : List Text)
      → check_text numbers (negate op) got vs ≡ opposite (check_text numbers op got vs)
  check_text-negate op none vs = refl
  check_text-negate op (some got) [] = refl
  check_text-negate op (some got) (v ∷ vs) = check_scalar-negate op got v vs

  check_text-lacking :
      (op : Operator) (got : Option Text) (vs : List Text)
      → not (elim got [ none ↦ true | some t ↦ false ]) || is_skipped (check_text numbers op got vs)
        ≡ true
  check_text-lacking op none vs = refl
  check_text-lacking op (some t) vs = refl

module _ {numbers : Numbers} where
  check_present-negate :
      (op : Operator) (s : Slot numbers) (vs : List Text)
      → check_present (negate op) s vs ≡ opposite (check_present op s vs)
  unfolding check_present
  check_present-negate op none vs = refl
  check_present-negate op (some v) vs = check_text-negate numbers op (string_of v) vs

  -- Whether there is nothing to compare at a slot: the field is absent or null, it is an object or a
  -- list, or a number that does not print.
  unfoldable pub lacks_text : Slot numbers → Bool
  lacks_text none = true
  lacks_text (some (v_string s)) = false
  lacks_text (some (v_bool b)) = false
  lacks_text (some (v_int i)) = false
  lacks_text (some (v_float x)) = elim (numbers.float_text x) [ none ↦ true | some t ↦ false ]
  lacks_text (some v_nil) = true
  lacks_text (some (v_object m)) = true
  lacks_text (some (v_list l)) = true

  check_present-lacking :
      (op : Operator) (s : Slot numbers) (vs : List Text)
      → not (lacks_text s) || is_skipped (check_present op s vs) ≡ true
  unfolding lacks_text check_present string_of
  check_present-lacking op none vs = refl
  check_present-lacking op (some (v_string s)) vs = refl
  check_present-lacking op (some (v_bool b)) vs = refl
  check_present-lacking op (some (v_int i)) vs = refl
  check_present-lacking op (some (v_float x)) vs =
      check_text-lacking numbers op (numbers.float_text x) vs
  check_present-lacking op (some v_nil) vs = refl
  check_present-lacking op (some (v_object m)) vs = refl
  check_present-lacking op (some (v_list l)) vs = refl

  check_op-opposite :
      (op : Operator) (s : Slot numbers) (vs : List Text)
      → check_op (negate op) s vs ≡ opposite (check_op op s vs)
  unfolding check_op
  check_op-opposite op_exists s vs = answer-not (is_present s)
  check_op-opposite op_not_exists s vs = answer-same (is_present s)
  check_op-opposite op_in s vs = check_present-negate op_in s vs
  check_op-opposite op_not_in s vs = check_present-negate op_not_in s vs
  check_op-opposite op_matches s vs = check_present-negate op_matches s vs
  check_op-opposite op_not_matches s vs = check_present-negate op_not_matches s vs
  check_op-opposite op_gt s vs = check_present-negate op_gt s vs
  check_op-opposite op_gte s vs = check_present-negate op_gte s vs
  check_op-opposite op_lt s vs = check_present-negate op_lt s vs
  check_op-opposite op_lte s vs = check_present-negate op_lte s vs
  check_op-opposite op_other s vs = check_present-negate op_other s vs

  check_op-lacking :
      (op : Operator) (s : Slot numbers) (vs : List Text)
      → not (asks_value op && lacks_text s) || is_skipped (check_op op s vs) ≡ true
  unfolding check_op
  check_op-lacking op_in s vs = check_present-lacking op_in s vs
  check_op-lacking op_not_in s vs = check_present-lacking op_not_in s vs
  check_op-lacking op_matches s vs = check_present-lacking op_matches s vs
  check_op-lacking op_not_matches s vs = check_present-lacking op_not_matches s vs
  check_op-lacking op_gt s vs = check_present-lacking op_gt s vs
  check_op-lacking op_gte s vs = check_present-lacking op_gte s vs
  check_op-lacking op_lt s vs = check_present-lacking op_lt s vs
  check_op-lacking op_lte s vs = check_present-lacking op_lte s vs
  check_op-lacking op_other s vs = check_present-lacking op_other s vs
  check_op-lacking op_exists s vs = refl
  check_op-lacking op_not_exists s vs = refl

  -- Each operator and its negation are opposites on every slot, whatever its value and however
  -- numbers and quantities are parsed: where one holds the other is violated, and both skip the same
  -- slots. A slot with nothing to compare, one that is absent, null, an object, a list or a number
  -- that does not print, is skipped by every operator but `exists` and `notExists`.
  pub check_op-negate :
      (op : Operator) (s : Slot numbers) (vs : List Text)
      → (check_op (negate op) s vs ≡ opposite (check_op op s vs))
        × (not (asks_value op && lacks_text s) || is_skipped (check_op op s vs) ≡ true)
  check_op-negate op s vs = (check_op-opposite op s vs, check_op-lacking op s vs)
