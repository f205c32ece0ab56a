-- ===== src/Policy.antt =====
-- internal/policy: the values a rule looks at, its parts, and what of the program's surroundings it
-- calls. `Policy.Path` is path.go, `Policy.Op` op.go, `Policy.Check` the check of one object,
-- `Policy.Related` relation.go, `Policy.Select` the choice of the objects of eval.go.
pub mod Path
pub mod Op
pub mod Check
pub mod Slots
pub mod Visits
pub mod Opposite
pub mod Needs
pub mod Related
pub mod Select
mod Tests
use kubeagent.Prelude.{ℕ, Bool, List, Option, Text}
use kubeagent.Prelude.Int.{ℤ}

-- The numbers and quantities that Go's and Kubernetes' libraries parse and print. `float_text` is
-- none of a value that is not finite; `order` compares two texts as compareNumeric does.
pub data Compared : Type 0 where
  below equal above : Compared

pub record Numbers : Type 1 where
  pub Float : Type 0
  pub float_text : Float → Option Text
  pub int_text : ℤ → Text
  pub parse_int : Text → Option ℤ
  pub parse_float : Text → Option Float
  pub is_finite : Float → Bool
  pub float_less : Float → Float → Bool
  pub Quantity : Type 0
  pub parse_quantity : Text → Option Quantity
  pub compare_quantity : Quantity → Quantity → Compared

module _ (numbers : Numbers) where
  -- An unstructured value: the leaf types of the converter, objects and lists.
  mutual
    pub data Value : Type 0 where
      v_string : Text → Value
      v_bool : Bool → Value
      v_int : ℤ → Value
      v_float : numbers.Float → Value
      v_nil : Value
      v_object : Fields → Value
      v_list : Values → Value

    pub data Fields : Type 0 where
      no_field : Fields
      field_of : Text → Value → Fields → Fields

    pub data Values : Type 0 where
      no_value : Values
      value_of : Value → Values → Values

-- One component of a path, with or without [*].
pub record Segment : Type 0 where
  pub key : Text
  pub wildcard : Bool

pub data Operator : Type 0 where
  op_exists op_not_exists op_in op_not_in op_matches op_not_matches op_gt op_gte op_lt op_lte
        op_other :
      Operator

-- The relation of a rule; a rule with a path has none.
pub data Relation : Type 0 where
  no_relation has_pdb has_hpa unknown_relation : Relation
