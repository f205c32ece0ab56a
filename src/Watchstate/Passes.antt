-- ===== src/Watchstate/Passes.antt =====
-- `Observe` and the passes that it makes over the maps: purge, refresh, observe each key, resolve.
use kubeagent.Prelude.{
  ℕ, ◌+◌, ◌%◌, ◌^◌, Bool, true, false, ◌&&◌, ◌||◌, not, List, [], ◌∷◌, ◌++◌, Option, none, some,
  ltb, leb, eqb, keep, length, if◌then◌else◌, text_lt,
}
use kubeagent.Prelude.Dict.{Dict, find, put, del, contains, dedup}
use kubeagent.Prelude.Int.{◌+ℤ◌, sub_ℕ}
use kubeagent.Prelude.Sort.{sort_by}
use kubeagent.Watchstate.{Key, eq_key, key_string, Record, Delta, Options, Stats, Tracker}

-- One more, in an int64.
abbrev pub inc : ℕ → ℕ
inc n = (n + 1) % 2 ^ 64

-- The condition of `purge`.
abbrev pub is_expired : Options → ℕ → Record → Bool
is_expired o now r =
    not r.active && not (eqb r.resolved_at 0) && ltb (r.resolved_at + o.retain_resolved) now

unfoldable pub purge_loop :
    Options → ℕ → Dict Key Record → Dict Key (List ℕ) → Dict Key Record × Dict Key (List ℕ)
purge_loop o now [] firings = ([], firings)
purge_loop o now ((k, r) ∷ records) firings =
    let (records', firings') = purge_loop o now records firings in
    if is_expired o now r then (records', del k firings') else ((k, r) ∷ records', firings')

-- `purge`.
unfoldable pub purge : ℕ → Tracker → Tracker
unfolding purge_loop del
purge now t =
    let (records, firings) = purge_loop t.opts now t.records t.firings in
    record t { records = records; firings = firings }

-- The firings that are still inside the window: `ts.After(now - window)`.
unfoldable pub in_window : Options → ℕ → List ℕ → List ℕ
unfolding keep
in_window o now times = keep (λ ts. ltb now (ts + o.flap_window)) times

-- `RecentFirings` and `Flapping` of a record with so many firings in the window.
abbrev pub with_recent : Options → ℕ → Record → Record
with_recent o n r = record r { recent_firings = n; flapping = leb o.flap_threshold n }

-- `if r, ok := t.records[k]; ok { … }`.
unfoldable pub refresh_record : Options → Key → ℕ → Dict Key Record → Dict Key Record
unfolding find put
refresh_record o k n records = elim (find k records) [
  | none ↦ records
  | some r ↦ put k (with_recent o n r) records
]

-- Store the firings that are left, or delete the entry where none is.
unfoldable pub put_kept : Key → List ℕ → Dict Key (List ℕ) → Dict Key (List ℕ)
put_kept k [] firings = firings
put_kept k (ts ∷ times) firings = (k, ts ∷ times) ∷ firings

unfoldable pub refresh_loop :
    Options → ℕ → Dict Key (List ℕ) → Dict Key Record → Dict Key (List ℕ) × Dict Key Record
unfolding refresh_record in_window put_kept
refresh_loop o now [] records = ([], records)
refresh_loop o now ((k, times) ∷ firings) records =
    let kept = in_window o now times in
    let rest = refresh_loop o now firings (refresh_record o k (length kept) records) in
    (put_kept k kept rest.0, rest.1)

-- `refreshFlaps`.
unfoldable pub refresh_flaps : ℕ → Tracker → Tracker
unfolding refresh_loop
refresh_flaps now t =
    let (firings, records) = refresh_loop t.opts now t.firings t.records in
    record t { records = records; firings = firings }

-- The firing times of a key, none where it has no entry.
unfoldable pub times_of : Key → Dict Key (List ℕ) → List ℕ
unfolding find
times_of k firings = elim (find k firings) [ none ↦ [] | some ts ↦ ts ]

-- A record that starts firing at `now`.
abbrev pub fire : ℕ → Record → Record
fire now r = record r {
  last_seen = now;
  active = true;
  firing_since = now;
  resolved_at = 0;
  firings = r.firings + 1;
}

-- `recordFiring`: the firing times to keep, and the record with its flap state.
unfoldable pub kept_times : ℕ → Record → Tracker → List ℕ
unfolding in_window times_of
kept_times now r t = in_window t.opts now (times_of r.key t.firings ++ now ∷ [])

unfoldable pub refired : ℕ → Record → Tracker → Record
unfolding kept_times
refired now r t = with_recent t.opts (length (kept_times now r t)) (fire now r)

-- Whether the record starts to flap with this firing.
unfoldable pub crosses : ℕ → Record → Tracker → Bool
unfolding refired
crosses now r t = (refired now r t).flapping && not r.flapping

-- The rest of the loop's body for a record that is tracked, from `r.LastSeen = now` on.
unfoldable pub touch : ℕ → Key → Record → Tracker × Delta → Tracker × Delta
unfolding put refired crosses
touch now k r (t, d) =
    if r.active
    then (
      record t { records = put k (record r { last_seen = now }) t.records },
      record d { ongoing = d.ongoing ++ record r { last_seen = now } ∷ [] },
    )
    else (
      record t {
        records = put k (refired now r t) t.records;
        firings = put r.key (kept_times now r t) t.firings;
        stats = record t.stats {
          new_total = inc t.stats.new_total;
          flap_total = if crosses now r t then inc t.stats.flap_total else t.stats.flap_total;
        };
      },
      record d {
        new = d.new ++ refired now r t ∷ [];
        newly_flapping =
            if crosses now r t then d.newly_flapping ++ refired now r t ∷ [] else d.newly_flapping;
      },
    )

abbrev pub fresh : ℕ → Key → Record
fresh now k = record {
  key = k;
  first_seen = now;
  firing_since = 0;
  last_seen = 0;
  active = false;
  firings = 0;
  resolved_at = 0;
  flapping = false;
  recent_firings = 0;
}

-- The body of the loop over the keys, by what the map holds for the key.
unfoldable pub observe_found : ℕ → Key → Option Record → Tracker × Delta → Tracker × Delta
unfolding touch
observe_found now k none (t, d) =
    if leb t.opts.max_tracked (length t.records)
    then (record t { stats = record t.stats { dropped_total = inc t.stats.dropped_total } }, d)
    else touch now k (fresh now k) (t, d)
observe_found now k (some r) (t, d) = touch now k r (t, d)

unfoldable pub observe_key : ℕ → Key → Tracker × Delta → Tracker × Delta
unfolding find observe_found
observe_key now k (t, d) = observe_found now k (find k t.records) (t, d)

unfoldable pub observe_keys : ℕ → List Key → Tracker × Delta → Tracker × Delta
unfolding observe_key
observe_keys now [] s = s
observe_keys now (k ∷ ks) s = observe_keys now ks (observe_key now k s)

abbrev pub clear : ℕ → Record → Record
clear now r = record r { active = false; resolved_at = now }

-- The condition that skips a record in the resolve loop.
abbrev pub stays : List Key → Key → Record → Bool
stays seen k r = not r.active || contains seen k

abbrev pub count_resolved : ℕ → Record → Stats → Stats
count_resolved now r s = record s {
  resolved_total = inc s.resolved_total;
  resolution_sum = s.resolution_sum +ℤ sub_ℕ now r.firing_since;
  resolution_count = inc s.resolution_count;
}

-- The loop that resolves the active records whose key was not seen.
unfoldable pub resolve_loop :
    ℕ → List Key → Dict Key Record → Stats → List Record → Dict Key Record × (Stats × List Record)
unfolding contains ◌+ℤ◌
resolve_loop now seen [] stats resolved = ([], (stats, resolved))
resolve_loop now seen ((k, r) ∷ records) stats resolved =
    let kept = resolve_loop now seen records stats resolved in
    let cleared =
      resolve_loop now seen records (count_resolved now r stats) (resolved ++ clear now r ∷ []) in
    if stays seen k r then ((k, r) ∷ kept.0, kept.1) else ((k, clear now r) ∷ cleared.0, cleared.1)

abbrev by_key : Record → Record → Bool
by_key a b = text_lt (key_string a.key) (key_string b.key)

unfoldable pub sort_records : List Record → List Record
unfolding sort_by key_string
sort_records = sort_by by_key

abbrev pub no_delta : Delta
no_delta = record { new = []; resolved = []; ongoing = []; newly_flapping = [] }

abbrev pub before : Key → Key → Bool
before a b = text_lt (key_string a) (key_string b)

-- The state and the changes before the resolve loop.
unfoldable pub observed : List Key → ℕ → Tracker → Tracker × Delta
unfolding purge refresh_flaps observe_keys dedup sort_by key_string
observed keys now t =
    observe_keys now (sort_by before (dedup keys)) (refresh_flaps now (purge now t), no_delta)

-- `Observe`.
unfoldable pub observe : List Key → ℕ → Tracker → Tracker × Delta
unfolding observed resolve_loop sort_records
observe keys now t =
    let (t', d) = observed keys now t in
    let (records, (stats, resolved)) = resolve_loop now keys t'.records t'.stats [] in
    (
      record t' { records = records; stats = stats },
      record {
        new = sort_records d.new;
        resolved = sort_records resolved;
        ongoing = sort_records d.ongoing;
        newly_flapping = sort_records d.newly_flapping;
      },
    )

-- The records whose flag is `active`.
unfoldable pub with_active : Bool → Dict Key Record → List Record
with_active active [] = []
with_active active ((k, r) ∷ m) =
    let rest = with_active active m in
    if (if active then r.active else not r.active) then r ∷ rest else rest

-- `snapshot`, for `Active` and `RecentlyResolved`.
unfoldable pub snapshot : Bool → Tracker → List Record
unfolding with_active sort_records
snapshot active t = sort_records (with_active active t.records)
