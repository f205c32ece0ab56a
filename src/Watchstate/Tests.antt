-- ===== src/Watchstate/Tests.antt =====
-- Three reconciles of a tracker: an issue fires, clears, and fires again.
use kubeagent.Prelude.{◌≡◌, refl, ◌&&◌, [], ◌∷◌, map, codes, text_eq, text_lt, length}
use kubeagent.Prelude.Dict.{contains, has}
use kubeagent.Prelude.Int.{pos, negsuc}
use kubeagent.Watchstate.{Key, eq_key, key_eq, Record, Tracker, new}
use kubeagent.Watchstate.Passes.{observe}
use kubeagent.Watchstate.Activity.{active_at, observe-active}
use kubeagent.Watchstate.Counters.{IsValid, new-IsValid, observe-IsValid}

abbrev crash : Key
crash = record {
  kind = codes "Deployment";
  namespace = codes "prod";
  name = codes "api";
  issue = codes "CrashLoopBackOff";
}

abbrev pull : Key
pull = record crash { issue = codes "ErrImagePull" }

abbrev pub start : Tracker
start = new (pos 2) (pos 0) (negsuc 0) (pos 2)

abbrev pub first : Tracker
first = (observe (pull ∷ crash ∷ pull ∷ []) 100 start).0

abbrev pub second : Tracker
second = (observe (pull ∷ []) 200 first).0

first_new :
    map (λ (r : Record). r.key.issue) (observe (pull ∷ crash ∷ pull ∷ []) 100 start).1.new
    ≡ codes "CrashLoopBackOff" ∷ codes "ErrImagePull" ∷ []
unfolding observe new text_eq text_lt key_eq
first_new = refl

second_resolved :
    map (λ (r : Record). r.key.issue) (observe (pull ∷ []) 200 first).1.resolved
    ≡ codes "CrashLoopBackOff" ∷ []
unfolding observe new text_eq text_lt key_eq
second_resolved = refl

-- The second firing inside the window crosses the threshold of two.
third_flaps : length (observe (crash ∷ pull ∷ []) 300 second).1.newly_flapping ≡ 1
unfolding observe new text_eq text_lt key_eq
third_flaps = refl

observe-active_example :
    active_at crash (observe (pull ∷ []) 200 first).0.records
    ≡ contains (pull ∷ []) crash && has crash (observe (pull ∷ []) 200 first).0.records
observe-active_example = observe-active (pull ∷ []) 200 first crash

first-IsValid : IsValid first
first-IsValid =
    (observe-IsValid (pull ∷ crash ∷ pull ∷ []) 100 start
      (new-IsValid (pos 2) (pos 0) (negsuc 0) (pos 2))).0

observe-IsValid_example :
    IsValid (observe (pull ∷ []) 200 first).0
    × ((observe (pull ∷ []) 200 first).0.opts ≡ first.opts)
observe-IsValid_example = observe-IsValid (pull ∷ []) 200 first first-IsValid
