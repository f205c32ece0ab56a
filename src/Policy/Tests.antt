-- ===== src/Policy/Tests.antt =====
-- Runs of a rule over a small pod of which one container has no limit, and the theorems there.
use kubeagent.Prelude.{
  ℕ, ◌≡◌, refl, Bool, true, false, not, ◌&&◌, ◌||◌, List, [], ◌∷◌, none, some, codes, text_eq, ltb,
  length,
}
use kubeagent.Prelude.Decimal.{decimal}
use kubeagent.Prelude.Int.{pos, pos_part}
use kubeagent.Policy.{
  equal, Numbers, Value, v_string, v_object, v_list, Fields, no_field, field_of, no_value, value_of,
  Segment, op_exists, op_gt, op_matches, has_pdb,
}
use kubeagent.Policy.Path.{Slot}
use kubeagent.Policy.Op.{check_op, holds}
use kubeagent.Policy.Check.{failing, nowhere, check_path}
use kubeagent.Policy.Slots.{slots}
use kubeagent.Policy.Visits.{first, fails, is_some_slot, verdict, check_path-first}
use kubeagent.Policy.Opposite.{
  negate, opposite, is_skipped, asks_value, lacks_text, check_op-negate,
}
use kubeagent.Prelude.Reply.{got}
use kubeagent.Policy.Related.{Budget, with_expressions, subset, relation_holds}

-- Numbers in unary: a text stands for its length.
abbrev unary : Numbers
unary = record {
  Float = ℕ;
  float_text = λ x. some (decimal x);
  int_text = λ i. decimal (pos_part i);
  parse_int = λ s. some (pos (length s));
  parse_float = λ s. some (length s);
  is_finite = λ x. true;
  float_less = ltb;
  Quantity = ℕ;
  parse_quantity = λ s. none;
  compare_quantity = λ a b. equal;
}

abbrev limited : Value unary
limited = v_object (field_of (codes "limit") (v_string (codes "500m")) no_field)

abbrev bare : Value unary
bare = v_object no_field

abbrev pod : Fields unary
pod = field_of (codes "containers") (v_list (value_of limited (value_of bare no_value))) no_field

abbrev containers : Segment
containers = record { key = codes "containers"; wildcard = true }

abbrev limit : Segment
limit = record { key = codes "limit"; wildcard = false }

abbrev limits : List Segment
limits = containers ∷ limit ∷ []

-- Two slots, of which the second is absent: `exists` is violated.
limits_run : check_path {numbers = unary} op_exists [] limits pod ≡ failing none
unfolding check_path text_eq
limits_run = refl

empty_run :
    check_path {numbers = unary} op_exists [] limits
      (field_of (codes "containers") (v_list no_value) no_field)
    ≡ nowhere
unfolding check_path text_eq
empty_run = refl

compare_run :
    check_op {numbers = unary} op_gt (some (v_string (codes "xxx"))) (codes "xx" ∷ []) ≡ holds
unfolding check_op length
compare_run = refl

-- Counts the slots it is shown, and stops at an absent one.
abbrev count : Slot unary → ℕ → Bool × ℕ
count none n = (false, 1)
count (some v) n = (true, 1)

check_path-first_example :
    let ss = slots limits (some (v_object pod)) in
    check_path {numbers = unary} op_exists [] limits pod
    ≡ verdict op_exists (first (fails op_exists []) ss) (is_some_slot ss)
check_path-first_example = check_path-first op_exists [] limits pod

-- An absent field is skipped by `notMatches` too.
check_op-negate_example :
    (check_op {numbers = unary} (negate op_matches) none (codes "app:*" ∷ [])
      ≡ opposite (check_op {numbers = unary} op_matches none (codes "app:*" ∷ [])))
    × (not (asks_value op_matches && lacks_text {numbers = unary} none)
          || is_skipped (check_op {numbers = unary} op_matches none (codes "app:*" ∷ []))
        ≡ true)
check_op-negate_example = check_op-negate {numbers = unary} op_matches none (codes "app:*" ∷ [])

abbrev unlabelled : kubeagent.Policy.Related.Workload
unlabelled = record {
  namespace = codes "shop";
  kind = codes "Deployment";
  name = codes "web";
  template_labels = got [];
}

abbrev budget_for_empty : Budget
budget_for_empty = record {
  namespace = codes "shop";
  selector = with_expressions 0;
  match_labels = got ((codes "app", []) ∷ []);
}

-- A selector that asks for an empty value is taken to select pods without the label.
empty_value :
    (subset ((codes "app", []) ∷ []) [] ≡ true)
    × (relation_holds has_pdb unlabelled (some budget_for_empty ∷ []) [] ≡ true)
    × (relation_holds has_pdb
          (record unlabelled { namespace = codes "db" })
          (some budget_for_empty ∷ [])
          []
        ≡ false)
unfolding subset relation_holds text_eq
empty_value = (refl, refl, refl)
