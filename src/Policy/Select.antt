-- ===== src/Policy/Select.antt =====
-- internal/policy/eval.go: which of the objects of its kind a rule is about.
use kubeagent.Prelude.{
  ◌≡◌, Bool, true, false, not, ◌&&◌, List, [], ◌∷◌, Option, none, some, Text, any, arith, text_eq,
  if◌then◌else◌,
}
use kubeagent.Prelude.Dict.{Dict, find, put, text_eq_inst}
use kubeagent.Policy.Related.{subset}

-- `Match`, less the kind, by which the objects are looked up.
pub record Match : Type 0 where
  pub namespaces : List Text
  pub labels : Dict Text Text
  pub namespace_labels : Dict Text Text

-- What the selection reads of an object, a Namespace for one.
pub record Labelled : Type 0 where
  pub namespace : Text
  pub name : Text
  pub labels : Dict Text Text

abbrev pub any_name : List Text → Bool
any_name [] = false
any_name (n ∷ ns) = true

abbrev pub any_label : Dict Text Text → Bool
any_label [] = false
any_label (l ∷ ls) = true

-- The test for the labels of the object's namespace, which may not have been read.
abbrev pub in_labelled : Dict Text Text → Option (Dict Text Text) → Bool
unfolding subset
in_labelled want none = false
in_labelled want (some labels) = subset want labels

-- `matches`.
unfoldable pub matches : Match → Labelled → Dict Text (Dict Text Text) → Bool
unfolding subset in_labelled find text_eq
matches m obj ns_labels =
    if any_name m.namespaces && not (any (λ want. text_eq obj.namespace want) m.namespaces)
    then false
    else if any_label m.labels && not (subset m.labels obj.labels)
    then false
    else if any_label m.namespace_labels
    then in_labelled m.namespace_labels (find obj.namespace ns_labels)
    else true

-- `namespaceLabelIndex`, from the index that has been built so far.
unfoldable pub index_from :
    List (Option Labelled) → Dict Text (Dict Text Text) → Dict Text (Dict Text Text)
unfolding put
index_from [] out = out
index_from (none ∷ ns) out = index_from ns out
index_from (some n ∷ ns) out = index_from ns (put n.name n.labels out)

unfoldable pub namespace_label_index : List (Option Labelled) → Dict Text (Dict Text Text)
unfolding index_from
namespace_label_index ns = index_from ns []

-- A rule that selects by the labels of a namespace is about no object of one that was not read.
pub unread-matches :
    (m : Match) (obj : Labelled) (ns_labels : Dict Text (Dict Text Text))
    → any_label m.namespace_labels ≡ true
    → find obj.namespace ns_labels ≡ none
    → matches m obj ns_labels ≡ false
unfolding matches
unread-matches m obj ns_labels h e = rw (h, e) (ground arith)
