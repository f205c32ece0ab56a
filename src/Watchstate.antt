-- ===== src/Watchstate.antt =====
-- internal/watchstate/watchstate.go: the tracker of issues across reconciles. Instants are
-- nanoseconds with 0 for the zero time, maps are association lists, and `now.Sub(t) > d` is written
-- as `t + d < now`, which is the same on integers.
pub mod Passes
pub mod Activity
pub mod Counters
mod Tests
use kubeagent.Prelude.{
  ℕ, zero, suc, ◌+◌, ◌*◌, ◌≡◌, refl, ◌↔◌, Bool, true, false, ◌&&◌, Text, codes, List, [], ◌++◌, ◌∷◌,
  Option, none, some, ltb, leb, eqb, keep, length, if◌then◌else◌, text_eq, text_eq_iff, text_lt,
  arith,
}
use kubeagent.Prelude.Dict.{Keyed, Dict, find, put, del}
use kubeagent.Prelude.Int.{ℤ, pos, negsuc}

pub record Key : Type 0 where
  pub kind : Text
  pub namespace : Text
  pub name : Text
  pub issue : Text

-- `Key.String`.
unfoldable pub key_string : Key → Text
key_string k =
    if text_eq k.namespace []
    then k.kind ++ (codes "/" ++ (k.name ++ (codes ":" ++ k.issue)))
    else k.kind ++ (codes "/" ++ (k.namespace ++ (codes "/" ++ (k.name ++ (codes ":" ++ k.issue)))))

-- Equality of the four fields, as map keys are compared.
unfoldable pub key_eq : Key → Key → Bool
key_eq a b =
    text_eq a.kind b.kind
    && text_eq a.namespace b.namespace
    && text_eq a.name b.name
    && text_eq a.issue b.issue

pub key_eq_iff : (a b : Key) → (key_eq a b ≡ true) ↔ (a ≡ b)
unfolding key_eq
key_eq_iff a b = ground (
  arith,
  text_eq_iff a.kind b.kind,
  text_eq_iff a.namespace b.namespace,
  text_eq_iff a.name b.name,
  text_eq_iff a.issue b.issue,
)

instance abbrev pub eq_key : Keyed Key
eq_key = record { same = key_eq; same_iff = key_eq_iff }

pub record Record : Type 0 where
  pub key : Key
  pub first_seen : ℕ
  pub firing_since : ℕ
  pub last_seen : ℕ
  pub active : Bool
  pub firings : ℕ
  pub resolved_at : ℕ
  pub flapping : Bool
  pub recent_firings : ℕ

pub record Delta : Type 0 where
  pub new : List Record
  pub resolved : List Record
  pub ongoing : List Record
  pub newly_flapping : List Record

-- The options after the defaults: all positive.
pub record Options : Type 0 where
  pub max_tracked : ℕ
  pub retain_resolved : ℕ
  pub flap_window : ℕ
  pub flap_threshold : ℕ

-- The counters are the bit patterns of their int64; the float64 sum of seconds is kept as an exact
-- signed number of nanoseconds.
pub record Stats : Type 0 where
  pub new_total : ℕ
  pub resolved_total : ℕ
  pub flap_total : ℕ
  pub dropped_total : ℕ
  pub resolution_sum : ℤ
  pub resolution_count : ℕ

pub record Tracker : Type 0 where
  pub opts : Options
  pub records : Dict Key Record
  pub firings : Dict Key (List ℕ)
  pub stats : Stats

-- The requested value where it is positive, and the default otherwise.
abbrev or_default : ℤ → ℕ → ℕ
or_default (pos zero) d = d
or_default (pos (suc n)) d = suc n
or_default (negsuc n) d = d

abbrev minute : ℕ
minute = 60_000_000_000

abbrev no_stats : Stats
no_stats = record {
  new_total = 0;
  resolved_total = 0;
  flap_total = 0;
  dropped_total = 0;
  resolution_sum = pos 0;
  resolution_count = 0;
}

-- `New`, from the four requested options.
unfoldable pub new : ℤ → ℤ → ℤ → ℤ → Tracker
new max_tracked retain_resolved flap_window flap_threshold = record {
  opts = record {
    max_tracked = or_default max_tracked 500;
    retain_resolved = or_default retain_resolved (60 * minute);
    flap_window = or_default flap_window (30 * minute);
    flap_threshold = or_default flap_threshold 3;
  };
  records = [];
  firings = [];
  stats = no_stats;
}
