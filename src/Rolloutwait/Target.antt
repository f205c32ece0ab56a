-- ===== src/Rolloutwait/Target.antt =====
-- `ParseTarget`: from a --wait-for value to the workload to watch.
use kubeagent.Prelude.{
  ℕ, ◌+◌, ◌&&◌, ◌||◌, List, [], ◌∷◌, ◌++◌, Option, none, some, Text, codes, eqb, leb, map, text_eq,
  if◌then◌else◌,
}
use kubeagent.Prelude.Reply.{Reply, got, failed}

pub data Kind : Type 0 where
  deployment stateful_set daemon_set : Kind
  other_kind : Text → Kind

pub record Target : Type 0 where
  pub kind : Kind
  pub namespace : Text
  pub name : Text

-- `strings.Split(s, "/")`, the part that is being read first.
pub record Parts : Type 0 where
  pub first : Text
  pub rest : List Text

unfoldable pub split : Text → Parts
split [] = record { first = []; rest = [] }
split (c ∷ s) =
    let p = split s in
    if eqb c b'/'
    then record { first = []; rest = p.first ∷ p.rest }
    else record p { first = c ∷ p.first }

-- `strings.ToLower`, of the ASCII letters. No other letter is lowered to one of the letters of the
-- words that it is compared to.
abbrev pub lower : ℕ → ℕ
lower c = if leb b'A' c && leb c b'Z' then c + 32 else c

unfoldable pub to_lower : Text → Text
to_lower s = map lower s

-- The `switch` over the kind's words.
unfoldable pub kind_of : Text → Option Kind
unfolding text_eq
kind_of w =
    if text_eq w (codes "deployment")
      || text_eq w (codes "deployments")
      || text_eq w (codes "deploy")
    then some deployment
    else if text_eq w (codes "statefulset")
        || text_eq w (codes "statefulsets")
        || text_eq w (codes "sts")
    then some stateful_set
    else if text_eq w (codes "daemonset")
        || text_eq w (codes "daemonsets")
        || text_eq w (codes "ds")
    then some daemon_set
    else none

abbrev pub no_namespace : Text
no_namespace = codes "--wait-for needs a namespace (pass -n)"

-- The words are over `quote`, which is how `%q` prints a text.
module _ (quote : Text → Text) where
  abbrev pub not_kind_name : Text → Text
  not_kind_name s =
      codes "--wait-for " ++ (quote s ++ codes " is not kind/name (e.g. deployment/api)")

  abbrev pub not_supported : Text → Text
  not_supported k =
      codes "--wait-for kind "
      ++ (quote k ++ codes " is not supported (want deployment, statefulset or daemonset)")

  abbrev pub target_of : Option Kind → Text → Text → Text → Reply Target
  target_of none k namespace name = failed (not_supported k)
  target_of (some kind) k namespace name =
      got (record { kind = kind; namespace = namespace; name = name })

  -- `len(parts) != 2 || parts[0] == "" || parts[1] == ""`, and what follows it.
  unfoldable pub of_parts : Text → Text → Text → List Text → Reply Target
  unfolding kind_of to_lower
  of_parts s namespace [] rest = failed (not_kind_name s)
  of_parts s namespace (c ∷ k) [] = failed (not_kind_name s)
  of_parts s namespace (c ∷ k) ([] ∷ ps) = failed (not_kind_name s)
  of_parts s namespace (c ∷ k) ((d ∷ name) ∷ p ∷ ps) = failed (not_kind_name s)
  of_parts s namespace (c ∷ k) ((d ∷ name) ∷ []) =
      target_of (kind_of (to_lower (c ∷ k))) (c ∷ k) namespace (d ∷ name)

  -- `ParseTarget`.
  unfoldable pub parse_target : Text → Text → Reply Target
  unfolding of_parts split
  parse_target s [] = failed no_namespace
  parse_target s (c ∷ namespace) = of_parts s (c ∷ namespace) (split s).first (split s).rest
