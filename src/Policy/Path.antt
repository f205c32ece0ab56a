-- ===== src/Policy/Path.antt =====
-- internal/policy/path.go: walking an object along a path. Parsing a path is not modelled.
use kubeagent.Prelude.{
  Bool, true, false, List, [], ◌∷◌, Option, none, some, Text, text_eq, if◌then◌else◌,
}
use kubeagent.Policy.{
  Numbers, Value, v_string, v_bool, v_int, v_float, v_nil, v_object, v_list, Fields, no_field,
  field_of, Values, no_value, value_of, Segment,
}

-- `Slot`: absent, or present with its value.
abbrev pub Slot : Numbers → Type 0
Slot numbers = Option (Value numbers)

-- A visitor: what it is shown, the state it keeps, and whether to go on.
abbrev pub Visitor : Numbers → Type 0 → Type 0
Visitor numbers S = Slot numbers → S → Bool × S

module _ {numbers : Numbers} where
  -- `m[seg.key]`, where an explicit null counts as missing.
  unfoldable pub not_nil : Value numbers → Slot numbers
  not_nil v_nil = none
  not_nil (v_string s) = some (v_string s)
  not_nil (v_bool b) = some (v_bool b)
  not_nil (v_int i) = some (v_int i)
  not_nil (v_float x) = some (v_float x)
  not_nil (v_object m) = some (v_object m)
  not_nil (v_list l) = some (v_list l)

  unfoldable pub lookup : Text → Fields numbers → Slot numbers
  unfolding text_eq not_nil
  lookup key no_field = none
  lookup key (field_of k v m) = if text_eq k key then not_nil v else lookup key m

  -- The value under a key; none if there is no object.
  unfoldable pub field_at : Text → Slot numbers → Slot numbers
  unfolding lookup
  field_at key none = none
  field_at key (some (v_object m)) = lookup key m
  field_at key (some (v_string s)) = none
  field_at key (some (v_bool b)) = none
  field_at key (some (v_int i)) = none
  field_at key (some (v_float x)) = none
  field_at key (some v_nil) = none
  field_at key (some (v_list l)) = none

  -- The elements that a wildcard spreads to; none if the value is no list.
  unfoldable pub spread : Slot numbers → Option (Values numbers)
  spread none = none
  spread (some (v_list l)) = some l
  spread (some (v_string s)) = none
  spread (some (v_bool b)) = none
  spread (some (v_int i)) = none
  spread (some (v_float x)) = none
  spread (some v_nil) = none
  spread (some (v_object m)) = none

  module _ {S : Type 0} where
    -- The loop over a list's elements, which stops once the walk below one element stops.
    unfoldable pub walk_each : Visitor numbers S → Values numbers → S → Bool × S
    walk_each go no_value st = (true, st)
    walk_each go (value_of v vs) st =
        let (on, st') = go (some v) st in
        let rest = walk_each go vs st' in if on then rest else (false, st')

    -- The last part of `walkFrom`, for a wildcard: by whether there is a list.
    unfoldable pub walk_list : Visitor numbers S → Option (Values numbers) → S → Bool × S
    unfolding walk_each
    walk_list go none st = go none st
    walk_list go (some vs) st = walk_each go vs st

    -- `walkFrom`.
    unfoldable pub walk_from : Visitor numbers S → List Segment → Slot numbers → S → Bool × S
    unfolding field_at spread walk_list
    walk_from visit [] s st = visit s st
    walk_from visit (seg ∷ rest) s st =
        if seg.wildcard
        then walk_list (walk_from visit rest) (spread (field_at seg.key s)) st
        else walk_from visit rest (field_at seg.key s) st
