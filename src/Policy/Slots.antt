-- ===== src/Policy/Slots.antt =====
-- The slots that a path names in an object, described apart from the code that walks it.
use kubeagent.Prelude.{
  ◌≡◌, refl, Bool, true, false, keep, text_eq, List, [], ◌∷◌, ◌++◌, none, some, Text, if◌then◌else◌,
  if_elim,
}
use kubeagent.Policy.{
  Numbers, Value, v_string, v_bool, v_int, v_float, v_nil, v_object, v_list, Fields, no_field,
  field_of, Values, no_value, value_of, Segment,
}
use kubeagent.Policy.Path.{Slot, not_nil, lookup, field_at}

module _ {numbers : Numbers} where
  -- The entries of an object, and none of any other value.
  abbrev entries : Fields numbers → List (Text × Value numbers)
  entries no_field = []
  entries (field_of k v m) = (k, v) ∷ entries m

  abbrev entries_at : Slot numbers → List (Text × Value numbers)
  entries_at none = []
  entries_at (some (v_object m)) = entries m
  entries_at (some (v_string s)) = []
  entries_at (some (v_bool b)) = []
  entries_at (some (v_int i)) = []
  entries_at (some (v_float x)) = []
  entries_at (some v_nil) = []
  entries_at (some (v_list l)) = []

  abbrev is_null : Value numbers → Bool
  is_null v_nil = true
  is_null (v_string s) = false
  is_null (v_bool b) = false
  is_null (v_int i) = false
  is_null (v_float x) = false
  is_null (v_object m) = false
  is_null (v_list l) = false

  -- The first of some entries with the same key; an explicit null counts as absent.
  abbrev first_set : List (Text × Value numbers) → Slot numbers
  first_set [] = none
  first_set (e ∷ es) = if is_null e.1 then none else some e.1

  unfoldable pub value_under : Text → Slot numbers → Slot numbers
  unfolding text_eq
  value_under key s = first_set (keep (λ e. text_eq e.0 key) (entries_at s))

  not_nil-null : (v : Value numbers) → not_nil v ≡ (if is_null v then none else some v)
  unfolding not_nil
  not_nil-null v_nil = refl
  not_nil-null (v_string s) = refl
  not_nil-null (v_bool b) = refl
  not_nil-null (v_int i) = refl
  not_nil-null (v_float x) = refl
  not_nil-null (v_object m) = refl
  not_nil-null (v_list l) = refl

  lookup-entries :
      (key : Text) (m : Fields numbers)
      → lookup key m ≡ first_set (keep (λ e. text_eq e.0 key) (entries m))
  unfolding lookup keep
  lookup-entries key no_field = refl
  lookup-entries key (field_of k v m) =
      if_elim (λ r. r ≡ first_set (keep (λ e. text_eq e.0 key) (entries (field_of k v m))))
        (text_eq k key) _ _ (λ e. rw e (not_nil-null v)) (λ e. rw e (lookup-entries key m))

  pub field_at-under : (key : Text) (s : Slot numbers) → field_at key s ≡ value_under key s
  unfolding field_at value_under keep
  field_at-under key none = refl
  field_at-under key (some (v_object m)) = lookup-entries key m
  field_at-under key (some (v_string s)) = refl
  field_at-under key (some (v_bool b)) = refl
  field_at-under key (some (v_int i)) = refl
  field_at-under key (some (v_float x)) = refl
  field_at-under key (some v_nil) = refl
  field_at-under key (some (v_list l)) = refl

  -- The slots of every element of a list.
  unfoldable pub each_slot :
      (Slot numbers → List (Slot numbers)) → Values numbers → List (Slot numbers)
  each_slot f no_value = []
  each_slot f (value_of v vs) = f (some v) ++ each_slot f vs

  -- The slots of the elements of a list, or of the absent slot where there is no list.
  unfoldable pub list_slots :
      (Slot numbers → List (Slot numbers)) → Slot numbers → List (Slot numbers)
  unfolding each_slot
  list_slots f (some (v_list l)) = each_slot f l
  list_slots f none = f none
  list_slots f (some (v_string s)) = f none
  list_slots f (some (v_bool b)) = f none
  list_slots f (some (v_int i)) = f none
  list_slots f (some (v_float x)) = f none
  list_slots f (some v_nil) = f none
  list_slots f (some (v_object m)) = f none

  -- All the slots that a path names, in order, with no visitor.
  unfoldable pub slots : List Segment → Slot numbers → List (Slot numbers)
  unfolding value_under list_slots
  slots [] s = s ∷ []
  slots (seg ∷ rest) s =
      if seg.wildcard
      then list_slots (slots rest) (value_under seg.key s)
      else slots rest (value_under seg.key s)
