-- ===== src/Findings.antt =====
-- internal/findings/findings.go: the severity levels, the flat finding, and its total order. The
-- children project a scan result, a policy run and a baseline comparison into findings.
pub mod Sources
pub mod Flatten
pub mod Order
pub mod Classes
pub mod Tests
use kubeagent.Prelude.{ℕ, Bool, true, false, List, Text, codes, ltb, eqb, if◌then◌else◌, not}
use kubeagent.Prelude.Strings.{text_eq, text_lt}
use kubeagent.Prelude.Sort.{sort_by}

pub data Level : Type 0 where
  info warning critical : Level

-- The ordinal of the Go constant.
abbrev pub rank : Level → ℕ
rank info = 0
rank warning = 1
rank critical = 2

-- `Level.String`.
unfoldable pub level_string : Level → Text
level_string critical = codes "critical"
level_string warning = codes "warning"
level_string info = codes "info"

pub record Finding : Type 0 where
  pub level : Level
  pub kind : Text
  pub namespace : Text
  pub name : Text
  pub issue : Text
  pub reason : Text
  pub owner : Text

-- The less-function of `Sort`: the highest severity first, then by object and issue.
unfoldable pub less : Finding → Finding → Bool
less x y =
    if not (eqb (rank x.level) (rank y.level))
    then ltb (rank y.level) (rank x.level)
    else if not (text_eq x.namespace y.namespace)
    then text_lt x.namespace y.namespace
    else if not (text_eq x.kind y.kind)
    then text_lt x.kind y.kind
    else if not (text_eq x.name y.name)
    then text_lt x.name y.name
    else text_lt x.issue y.issue

-- `Sort`, a stable sort.
unfoldable pub sort : List Finding → List Finding
unfolding less sort_by
sort = sort_by less
