-- ===== src/Policy/Visits.antt =====
-- What the check of a path amounts to: the slots of the path in order, and the first that fails. The
-- verdict on them is described here apart from the code.
use kubeagent.Prelude.{
  ◌≡◌, refl, sym, ◌∙◌, ap, Bool, true, false, not, ◌&&◌, ◌||◌, List, [], ◌∷◌, ◌++◌, Option, none,
  some, Text, arith, if◌then◌else◌, if_elim,
}
use kubeagent.Policy.{
  Numbers, v_string, v_bool, v_int, v_float, v_nil, v_object, v_list, Fields, Values, no_value,
  value_of, Segment, Operator, op_exists, op_not_exists, op_in, op_not_in, op_matches,
  op_not_matches, op_gt, op_gte, op_lt, op_lte, op_other,
}
use kubeagent.Policy.Path.{Slot, Visitor, field_at, spread, walk_each, walk_list, walk_from}
use kubeagent.Policy.Slots.{each_slot, list_slots, field_at-under, slots}
use kubeagent.Policy.Op.{Answer, holds, violated, skipped, check_op}
use kubeagent.Policy.Check.{
  Found, clean, failing, nowhere, Progress, visit_answer, visit, concluded, check_path,
}

-- The operator that a path with no slot at all violates.
abbrev pub is_exists : Operator → Bool
is_exists op_exists = true
is_exists op_not_exists = false
is_exists op_in = false
is_exists op_not_in = false
is_exists op_matches = false
is_exists op_not_matches = false
is_exists op_gt = false
is_exists op_gte = false
is_exists op_lt = false
is_exists op_lte = false
is_exists op_other = false

module _ {numbers : Numbers} where
  module _ {S : Type 0} where
    -- Showing a list of slots to a visitor until it stops.
    unfoldable pub visit_all : Visitor numbers S → List (Slot numbers) → S → Bool × S
    visit_all go [] st = (true, st)
    visit_all go (s ∷ ss) st =
        let (on, st') = go s st in
        let rest = visit_all go ss st' in if on then rest else (false, st')

    visit_all-one :
        (go : Visitor numbers S) (s : Slot numbers) (st : S) → visit_all go (s ∷ []) st ≡ go s st
    unfolding visit_all
    visit_all-one go s st = if_same (go s st)
      where
        if_same : (r : Bool × S) → (if r.0 then (true, r.1) else (false, r.1)) ≡ r
        if_same (true, x) = refl
        if_same (false, x) = refl

    -- Going on after a part that may have stopped.
    abbrev then_visit : Visitor numbers S → List (Slot numbers) → Bool × S → Bool × S
    then_visit go ss (true, st) = visit_all go ss st
    then_visit go ss (false, st) = (false, st)

    visit_all-append :
        (go : Visitor numbers S) (ss ts : List (Slot numbers)) (st : S)
        → visit_all go (ss ++ ts) st ≡ then_visit go ts (visit_all go ss st)
    unfolding visit_all
    visit_all-append go [] ts st = refl
    visit_all-append go (s ∷ ss) ts st = step (λ x. visit_all-append go ss ts x) (go s st)
      where
        step :
            ((x : S) → visit_all go (ss ++ ts) x ≡ then_visit go ts (visit_all go ss x))
            → (r : Bool × S)
            → (if r.0 then visit_all go (ss ++ ts) r.1 else (false, r.1))
              ≡ then_visit go ts (if r.0 then visit_all go ss r.1 else (false, r.1))
        step ih (true, x) = ih x
        step ih (false, x) = refl

    walk_each-visits :
        (go walk : Visitor numbers S) (f : Slot numbers → List (Slot numbers)) (vs : Values numbers)
        (st : S)
        → ((s : Slot numbers) (st' : S) → walk s st' ≡ visit_all go (f s) st')
        → walk_each walk vs st ≡ visit_all go (each_slot f vs) st
    unfolding walk_each visit_all each_slot
    walk_each-visits go walk f no_value st h = refl
    walk_each-visits go walk f (value_of v vs) st h =
        step (λ x. walk_each-visits go walk f vs x h) (walk (some v) st) (h (some v) st)
        ∙ sym (visit_all-append go (f (some v)) (each_slot f vs) st)
      where
        step :
            ((x : S) → walk_each walk vs x ≡ visit_all go (each_slot f vs) x)
            → (r : Bool × S) → r ≡ visit_all go (f (some v)) st
            → (if r.0 then walk_each walk vs r.1 else (false, r.1))
              ≡ then_visit go (each_slot f vs) (visit_all go (f (some v)) st)
        step ih (true, x) e = rw (sym e) (ih x)
        step ih (false, x) e = rw (sym e) refl

    walk_list-visits :
        (go walk : Visitor numbers S) (f : Slot numbers → List (Slot numbers)) (l : Slot numbers)
        (st : S)
        → ((s : Slot numbers) (st' : S) → walk s st' ≡ visit_all go (f s) st')
        → walk_list walk (spread l) st ≡ visit_all go (list_slots f l) st
    unfolding walk_list list_slots spread
    walk_list-visits go walk f (some (v_list vs)) st h = walk_each-visits go walk f vs st h
    walk_list-visits go walk f none st h = h none st
    walk_list-visits go walk f (some (v_string s)) st h = h none st
    walk_list-visits go walk f (some (v_bool b)) st h = h none st
    walk_list-visits go walk f (some (v_int i)) st h = h none st
    walk_list-visits go walk f (some (v_float x)) st h = h none st
    walk_list-visits go walk f (some v_nil) st h = h none st
    walk_list-visits go walk f (some (v_object m)) st h = h none st

    -- Walking an object shows the visitor exactly the slots that the path names, in order, up to the
    -- first at which it stops, whatever it does with them.
    pub walk_from-visits :
        (go : Visitor numbers S) (segs : List Segment) (s : Slot numbers) (st : S)
        → walk_from go segs s st ≡ visit_all go (slots segs s) st
    unfolding walk_from slots
    walk_from-visits go [] s st = sym (visit_all-one go s st)
    walk_from-visits go (seg ∷ rest) s st = rw (← field_at-under seg.key s) (
        if_elim
          (λ r.
            r
            ≡ visit_all go
                (if seg.wildcard
                  then list_slots (slots rest) (field_at seg.key s)
                  else slots rest (field_at seg.key s))
                st)
          seg.wildcard _ _
          (λ e. rw e (
            walk_list-visits go (walk_from go rest) (slots rest) (field_at seg.key s) st
              (λ s' st'. walk_from-visits go rest s' st')))
          λ e. rw e (walk_from-visits go rest (field_at seg.key s) st))

    -- An absent slot stays one absent slot, with or without wildcards.
    walk_from-absent :
        (go : Visitor numbers S) (segs : List Segment) (st : S)
        → walk_from go segs none st ≡ go none st
    unfolding walk_from field_at spread walk_list
    walk_from-absent go [] st = refl
    walk_from-absent go (seg ∷ rest) st =
        if_elim (λ r. r ≡ go none st) seg.wildcard _ _ (λ e. walk_from-absent go rest st)
          (λ e. walk_from-absent go rest st)

  -- Whether a slot fails.
  abbrev pub fails : Operator → List Text → Slot numbers → Bool
  fails op values s = elim (check_op op s values) [
    | violated ↦ true
    | holds ↦ false
    | skipped ↦ false
  ]

  unfoldable pub first : (Slot numbers → Bool) → List (Slot numbers) → Option (Slot numbers)
  first p [] = none
  first p (s ∷ ss) = if p s then some s else first p ss

  abbrev pub is_some_slot : List (Slot numbers) → Bool
  is_some_slot [] = false
  is_some_slot (s ∷ ss) = true

  pub Reached : List (Slot numbers) → Option (Slot numbers) → Bool → Progress numbers → Type 0
  Reached ss v b st = (st.violation ≡ v) × (st.any_slot ≡ b || is_some_slot ss)

  Reached-more :
      (ss : List (Slot numbers)) (v : Option (Slot numbers)) (b : Bool) (st : Progress numbers)
      → Reached ss v true st
      → (st.violation ≡ v) × (st.any_slot ≡ b || true)
  unfolding Reached
  Reached-more ss v b st (h, g) = (h, ground (arith, g))

  -- One more slot, by what the operator answers.
  visit_step :
      (op : Operator) (values : List Text) (s : Slot numbers) (ss : List (Slot numbers))
      (st : Progress numbers) (a : Answer)
      → st.violation ≡ none
      → ((st' : Progress numbers)
          → st'.violation ≡ none
          → Reached ss
              (first (fails op values) ss)
              st'.any_slot
              (visit_all (visit op values) ss st').1)
      → let (on, st') = visit_answer s st a in
        Reached
          (s ∷ ss)
          (if elim a [ violated ↦ true | holds ↦ false | skipped ↦ false ]
            then some s
            else first (fails op values) ss)
          st.any_slot
          (if on then visit_all (visit op values) ss st' else (false, st')).1
  unfolding Reached visit_answer
  visit_step op values s ss st holds h ih =
      Reached-more ss _ st.any_slot _ (ih (record st { any_slot = true }) h)
  visit_step op values s ss st skipped h ih =
      Reached-more ss _ st.any_slot _ (ih (record st { any_slot = true }) h)
  visit_step op values s ss st violated h ih = (refl, ground arith)

  visit_all-first :
      (op : Operator) (values : List Text) (ss : List (Slot numbers)) (st : Progress numbers)
      → st.violation ≡ none
      → Reached ss (first (fails op values) ss) st.any_slot (visit_all (visit op values) ss st).1
  unfolding Reached visit_all visit visit_answer first
  visit_all-first op values [] st h = (h, ground arith)
  visit_all-first op values (s ∷ ss) st h =
      visit_step op values s ss st (check_op op s values) h
        (λ st' h'. visit_all-first op values ss st' h')

  concluded_same :
      (op : Operator) (b c : Bool) (x v : Option (Slot numbers))
      → x ≡ v
      → b ≡ c
      → concluded op b x ≡ concluded op c v
  concluded_same op b c x v h g = rw (h, g)

  concluded-Reached :
      (op : Operator) (ss : List (Slot numbers)) (v : Option (Slot numbers)) (st : Progress numbers)
      → Reached ss v false st
      → concluded op st.any_slot st.violation ≡ concluded op (is_some_slot ss) v
  unfolding Reached
  concluded-Reached op ss v st (h, g) = concluded_same op _ _ _ _ h g

  -- The verdict on the slots of a path: the first that fails; with none, that there is nowhere the
  -- field could be exactly if the operator is `exists` and there is no slot; otherwise clean.
  abbrev pub verdict : Operator → Option (Slot numbers) → Bool → Found numbers
  verdict op (some s) any_slot = failing s
  verdict op none any_slot = if is_exists op && not any_slot then nowhere else clean

  concluded-verdict :
      (op : Operator) (b : Bool) (v : Option (Slot numbers)) → concluded op b v ≡ verdict op v b
  concluded-verdict op b (some s) = refl
  concluded-verdict op true none = ground arith
  concluded-verdict op_exists false none = refl
  concluded-verdict op_not_exists false none = refl
  concluded-verdict op_in false none = refl
  concluded-verdict op_not_in false none = refl
  concluded-verdict op_matches false none = refl
  concluded-verdict op_not_matches false none = refl
  concluded-verdict op_gt false none = refl
  concluded-verdict op_gte false none = refl
  concluded-verdict op_lt false none = refl
  concluded-verdict op_lte false none = refl
  concluded-verdict op_other false none = refl

  -- The check of a path finds the first of the path's slots, in order, at which the operator is
  -- violated. With no such slot the object is clean, except that `exists` is violated by a path with
  -- no slot at all. A key names its value in an object, an absent slot where the object has no such
  -- key or an explicit null, or where there is no object; a wildcard names every element of a list,
  -- and an absent slot where there is no list.
  pub check_path-first :
      (op : Operator) (values : List Text) (segs : List Segment) (object : Fields numbers)
      → let ss = slots segs (some (v_object object)) in
        check_path op values segs object ≡ verdict op (first (fails op values) ss) (is_some_slot ss)
  unfolding check_path
  check_path-first op values segs object =
      let start : Progress numbers = record { any_slot = false; violation = none } in
      let ss = slots segs (some (v_object object)) in
      ap (λ r. concluded op (r.1.any_slot) (r.1.violation))
        (walk_from-visits (visit op values) segs (some (v_object object)) start)
      ∙ concluded-Reached op ss _ _ (visit_all-first op values ss start refl)
      ∙ concluded-verdict op (is_some_slot ss) (first (fails op values) ss)
