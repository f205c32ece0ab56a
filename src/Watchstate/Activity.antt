-- ===== src/Watchstate/Activity.antt =====
-- Which issues are active after `Observe`.
use kubeagent.Prelude.{
  ℕ, ◌≡◌, refl, ◌∙◌, Bool, true, false, ◌&&◌, ◌||◌, List, [], ◌∷◌, ◌++◌, Option, none, some, arith,
  if◌then◌else◌,
}
use mathlib.Core.Option
use kubeagent.Prelude.Dict.{
  Dict, find, put, has, contains, dedup, ◌==◌, find-put, contains-dedup, contains-sort_by,
}
use kubeagent.Prelude.Sort.{sort_by}
use kubeagent.Watchstate.{Key, eq_key, key_eq_iff, Record, Delta, Stats, Tracker}
use kubeagent.Watchstate.Passes.{
  clear, fresh, refired, before, touch, stays, count_resolved, observe_found, observe_key,
  observe_keys, resolve_loop, observed, observe, purge, refresh_flaps, no_delta,
}

-- Whether an issue is tracked and active.
unfoldable pub active_at : Key → Dict Key Record → Bool
unfolding find
active_at k m = elim (find k m) [ none ↦ false | some r ↦ r.active ]

-- Whether an issue, if it is tracked, is active.
quiet_at : Key → Dict Key Record → Bool
unfolding find
quiet_at k m = elim (find k m) [ none ↦ true | some r ↦ r.active ]

quiet-put :
    (k j : Key) (v : Record) (m : Dict Key Record)
    → quiet_at j (put k v m) ≡ (if k == j then v.active else quiet_at j m)
unfolding quiet_at
quiet-put k j v m = ground (arith, find-put k j v m)

quiet-untracked : (k : Key) (m : Dict Key Record) → find k m ≡ none → quiet_at k m ≡ true
unfolding quiet_at
quiet-untracked k m h = ground arith

refired-active : (now : ℕ) (r : Record) (t : Tracker) → (refired now r t).active ≡ true
unfolding refired
refired-active now r t = refl

-- Observing a key leaves it active if it is tracked, and changes no other key.
touch-quiet :
    (now : ℕ) (k j : Key) (r : Record) (t : Tracker) (d : Delta)
    → quiet_at j (touch now k r (t, d)).0.records ≡ (k == j) || quiet_at j t.records
unfolding touch
touch-quiet now k j r t d = ground (
  arith,
  quiet-put k j (record r { last_seen = now }) t.records,
  quiet-put k j (refired now r t) t.records,
  refired-active now r t,
)

observe_found-quiet :
    (now : ℕ) (k j : Key) (o : Option Record) (t : Tracker) (d : Delta)
    → find k t.records ≡ o
    → quiet_at j (observe_found now k o (t, d)).0.records ≡ (k == j) || quiet_at j t.records
unfolding observe_found
observe_found-quiet now k j none t d h =
    ground
      (arith, touch-quiet now k j (fresh now k) t d, quiet-untracked k t.records h, key_eq_iff k j)
observe_found-quiet now k j (some r) t d h = touch-quiet now k j r t d

observe_key-quiet :
    (now : ℕ) (k j : Key) (t : Tracker) (d : Delta)
    → quiet_at j (observe_key now k (t, d)).0.records ≡ (k == j) || quiet_at j t.records
unfolding observe_key
observe_key-quiet now k j t d = observe_found-quiet now k j (find k t.records) t d refl

observe_keys-quiet :
    (now : ℕ) (ks : List Key) (j : Key) (t : Tracker) (d : Delta)
    → quiet_at j (observe_keys now ks (t, d)).0.records ≡ contains ks j || quiet_at j t.records
unfolding observe_keys contains
observe_keys-quiet now [] j t d = refl
observe_keys-quiet now (k ∷ ks) j t d =
    let (t', d') = observe_key now k (t, d) in
    ground (arith, observe_keys-quiet now ks j t' d', observe_key-quiet now k j t d)

observed-quiet :
    (keys : List Key) (now : ℕ) (t : Tracker) (k : Key)
    → contains keys k ≡ true
    → quiet_at k (observed keys now t).0.records ≡ true
unfolding observed
observed-quiet keys now t k h =
    observe_keys-quiet now (sort_by before (dedup keys)) k (refresh_flaps now (purge now t))
      no_delta
    ∙ rw (contains-sort_by before (dedup keys) k ∙ (contains-dedup keys k ∙ h))

-- What the resolve loop makes of one record.
abbrev settle : ℕ → List Key → Key → Record → Record
settle now seen k r = if stays seen k r then r else clear now r

find-resolve_loop :
    (now : ℕ) (seen : List Key) (j : Key) (m : Dict Key Record) (s : Stats) (l : List Record)
    → find j (resolve_loop now seen m s l).0 ≡ Option.map (settle now seen j) (find j m)
unfolding resolve_loop find
find-resolve_loop now seen j [] s l = refl
find-resolve_loop now seen j ((k, r) ∷ m) s l = ground (
  arith,
  key_eq_iff k j,
  find-resolve_loop now seen j m s l,
  find-resolve_loop now seen j m (count_resolved now r s) (l ++ clear now r ∷ []),
)

-- After `Observe` an issue that is tracked is active exactly if it was among the observed keys:
-- nothing observed is left inactive, and nothing unobserved is left active.
pub observe-active :
    (keys : List Key) (now : ℕ) (t : Tracker) (k : Key)
    → active_at k (observe keys now t).0.records
      ≡ contains keys k && has k (observe keys now t).0.records
unfolding observe active_at has quiet_at
observe-active keys now t k =
    let (t', d) = observed keys now t in
    ground (arith, find-resolve_loop now keys k t'.records t'.stats [], observed-quiet keys now t k)
