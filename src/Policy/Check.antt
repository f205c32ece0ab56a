-- ===== src/Policy/Check.antt =====
-- internal/policy/eval.go: why a rule cannot run, and the check of one object against a path.
use kubeagent.Prelude.{
  Bool, true, false, ◌&&◌, List, [], ◌∷◌, Option, none, some, Text, codes, text_eq, any,
  if◌then◌else◌,
}
use kubeagent.Policy.{
  Numbers, v_object, Fields, Segment, Operator, op_exists, op_not_exists, op_in, op_not_in,
  op_matches, op_not_matches, op_gt, op_gte, op_lt, op_lte, op_other, Relation, no_relation,
  has_pdb, has_hpa, unknown_relation,
}
use kubeagent.Policy.Path.{Slot, walk_from}
use kubeagent.Policy.Op.{Answer, holds, violated, skipped, check_op}

abbrev pub unreadable_reason : Text
unreadable_reason = codes "kubeagent could not read this kind, so the rule was not evaluated"

abbrev pub unreadable_support_reason : Text
unreadable_support_reason =
    codes
      "kubeagent could not read the objects this rule compares against, so the rule was not evaluated"

-- `in.Unreadable[kind]`.
unfoldable pub is_unreadable : List Text → Text → Bool
unfolding text_eq
is_unreadable unreadable kind = any (λ k. text_eq k kind) unreadable

-- The list that a relation compares against.
abbrev pub support_missing : List Text → Relation → Bool
support_missing unreadable no_relation = false
support_missing unreadable has_pdb = is_unreadable unreadable (codes "PodDisruptionBudget")
support_missing unreadable has_hpa = is_unreadable unreadable (codes "HorizontalPodAutoscaler")
support_missing unreadable unknown_relation = false

abbrev pub some_labels : List (Text × Text) → Bool
some_labels [] = false
some_labels (l ∷ ls) = true

-- `unreadableFor`: the reason, or the empty text.
unfoldable pub unreadable_for : Text → List (Text × Text) → Relation → List Text → Text
unfolding is_unreadable
unreadable_for kind namespace_labels relation unreadable =
    if is_unreadable unreadable kind
    then unreadable_reason
    else if some_labels namespace_labels && is_unreadable unreadable (codes "Namespace")
    then unreadable_support_reason
    else if support_missing unreadable relation
    then unreadable_support_reason
    else []

-- What the check of a path finds: nothing wrong, a slot that fails, or no slot for `exists`.
pub data Found (numbers : Numbers) : Type 0 where
  clean : Found numbers
  failing : Slot numbers → Found numbers
  nowhere : Found numbers

-- `anySlot`, and the slot that violated.
pub record Progress (numbers : Numbers) : Type 0 where
  pub any_slot : Bool
  pub violation : Option (Slot numbers)

module _ {numbers : Numbers} where
  -- The visitor's answer to one slot.
  unfoldable pub visit_answer : Slot numbers → Progress numbers → Answer → Bool × Progress numbers
  visit_answer s st holds = (true, record st { any_slot = true })
  visit_answer s st skipped = (true, record st { any_slot = true })
  visit_answer s st violated = (false, record { any_slot = true; violation = some s })

  unfoldable pub visit :
      Operator → List Text → Slot numbers → Progress numbers → Bool × Progress numbers
  unfolding visit_answer check_op
  visit op values s st = visit_answer s st (check_op op s values)

  -- "`exists` still violates — something was required and there is nowhere it could be."
  abbrev pub nowhere_to_be : Operator → Found numbers
  nowhere_to_be op_exists = nowhere
  nowhere_to_be op_not_exists = clean
  nowhere_to_be op_in = clean
  nowhere_to_be op_not_in = clean
  nowhere_to_be op_matches = clean
  nowhere_to_be op_not_matches = clean
  nowhere_to_be op_gt = clean
  nowhere_to_be op_gte = clean
  nowhere_to_be op_lt = clean
  nowhere_to_be op_lte = clean
  nowhere_to_be op_other = clean

  abbrev pub concluded : Operator → Bool → Option (Slot numbers) → Found numbers
  concluded op any_slot (some s) = failing s
  concluded op true none = clean
  concluded op false none = nowhere_to_be op

  -- The part of `check` for a path.
  unfoldable pub check_path : Operator → List Text → List Segment → Fields numbers → Found numbers
  unfolding walk_from visit
  check_path op values segs object =
      let start : Progress numbers = record { any_slot = false; violation = none } in
      let st = (walk_from (visit op values) segs (some (v_object object)) start).1 in
      concluded op st.any_slot st.violation
