-- ===== src/Watchstate/Counters.antt =====
-- The counters and the cap: what `Observe` keeps of the tracker as a whole.
use kubeagent.Prelude.{
  ℕ, suc, ◌+◌, ◌%◌, ◌^◌, ◌≤◌, ◌≡◌, refl, ◌∙◌, Bool, true, List, [], ◌∷◌, ◌++◌, Option, none, some,
  arith, Bool-cases, Option-cases, inl, inr, if_elim, sym, length, leb, count_if,
}
use kubeagent.Prelude.Dict.{Dict, find, put, has, dedup, one_if, length-put, count_if-put}
use kubeagent.Prelude.Int.{ℤ}
use kubeagent.Prelude.Sort.{sort_by}
use kubeagent.Watchstate.{Key, eq_key, Record, Delta, Options, Stats, Tracker, new}
use kubeagent.Watchstate.Passes.{
  clear, fresh, refired, before, with_recent, touch, stays, count_resolved, in_window, purge_loop,
  purge, refresh_record, refresh_loop, refresh_flaps, observe_found, observe_key, observe_keys,
  resolve_loop, observed, observe, no_delta,
}

abbrev live : Record → Bool
live r = r.active

-- The number of active records.
unfoldable pub active_count : Dict Key Record → ℕ
unfolding count_if
active_count m = count_if (λ (x : Key × Record). x.1.active) m

-- What holds between two reconciles.
pub record IsValid (t : Tracker) : Type 0 where
  -- the cap
  pub capped : length t.records ≤ t.opts.max_tracked
  -- every firing is either over or still going on
  pub conserved : t.stats.new_total ≡ (t.stats.resolved_total + active_count t.records) % 2 ^ 64
  -- the mean time to resolve divides by the number of resolutions
  pub averaged : t.stats.resolution_count ≡ t.stats.resolved_total

-- A tracker is created valid, whatever options are asked for.
pub new-IsValid : (a b c d : ℤ) → IsValid (new a b c d)
unfolding new active_count count_if
new-IsValid a b c d = record { capped = omega arith; conserved = refl; averaged = refl }

active_count-put :
    (k : Key) (v : Record) (m : Dict Key Record)
    → active_count (put k v m) + one_if live (find k m) ≡ active_count m + one_if live (some v)
unfolding active_count
active_count-put k v m = count_if-put live k v m

length-put_new :
    (k : Key) (v : Record) (m : Dict Key Record)
    → find k m ≡ none
    → length (put k v m) ≡ suc (length m)
unfolding has
length-put_new k v m h = ground (arith, length-put k v m)

length-put_old :
    (k : Key) (v r : Record) (m : Dict Key Record)
    → find k m ≡ some r
    → length (put k v m) ≡ length m
unfolding has
length-put_old k v r m h = ground (arith, length-put k v m)

purge_loop-keeps :
    (o : Options) (now : ℕ) (m : Dict Key Record) (f : Dict Key (List ℕ))
    → (length (purge_loop o now m f).0 ≤ length m)
      × (active_count (purge_loop o now m f).0 ≡ active_count m)
unfolding purge_loop active_count count_if
purge_loop-keeps o now [] f = (omega arith, refl)
purge_loop-keeps o now ((k, r) ∷ m) f = ground (arith, purge_loop-keeps o now m f)

purge-IsValid : (now : ℕ) (t : Tracker) → IsValid t → IsValid (purge now t)
unfolding purge
purge-IsValid now t v = ground (arith, purge_loop-keeps t.opts now t.records t.firings)

refresh_record-keeps :
    (o : Options) (k : Key) (n : ℕ) (m : Dict Key Record)
    → (length (refresh_record o k n m) ≡ length m)
      × (active_count (refresh_record o k n m) ≡ active_count m)
unfolding refresh_record
refresh_record-keeps o k n m = elim (Option-cases (find k m)) [
  | inl h ↦ rw (h, refresh_record) (refl, refl)
  | inr (r, h) ↦
      rw (h, refresh_record)
        (
          length-put_old k (with_recent o n r) r m h,
          ground (arith, active_count-put k (with_recent o n r) m),
        )
]

refresh_loop-keeps :
    (o : Options) (now : ℕ) (f : Dict Key (List ℕ)) (m : Dict Key Record)
    → (length (refresh_loop o now f m).1 ≡ length m)
      × (active_count (refresh_loop o now f m).1 ≡ active_count m)
unfolding refresh_loop
refresh_loop-keeps o now [] m = (refl, refl)
refresh_loop-keeps o now ((k, times) ∷ f) m =
    let n = length (in_window o now times) in
    let (l, a) = refresh_record-keeps o k n m in
    let (l', a') = refresh_loop-keeps o now f (refresh_record o k n m) in (l' ∙ l, a' ∙ a)

refresh_flaps-IsValid : (now : ℕ) (t : Tracker) → IsValid t → IsValid (refresh_flaps now t)
unfolding refresh_flaps
refresh_flaps-IsValid now t v = ground (arith, refresh_loop-keeps t.opts now t.firings t.records)

refired-live : (now : ℕ) (r : Record) (t : Tracker) → live (refired now r t) ≡ true
unfolding refired
refired-live now r t = refl

-- A record that the map holds, or a new one that it has room for, can be observed.
touch-IsValid :
    (now : ℕ) (k : Key) (r : Record) (t : Tracker) (d : Delta)
    → IsValid t
    → ((v : Record) → length (put k v t.records) ≤ t.opts.max_tracked)
    → one_if live (find k t.records) ≡ one_if live (some r)
    → IsValid (touch now k r (t, d)).0
unfolding touch
touch-IsValid now k r t d v room same =
    if_elim (λ (s : Tracker × Delta). IsValid s.0) r.active _ _
      (λ a. record {
        capped = room (record r { last_seen = now });
        conserved =
            ground
              (arith, active_count-put k (record r { last_seen = now }) t.records, v.conserved);
        averaged = v.averaged;
      })
      (λ a. record {
        capped = room (refired now r t);
        conserved = ground (
          arith,
          active_count-put k (refired now r t) t.records,
          refired-live now r t,
          v.conserved,
        );
        averaged = v.averaged;
      })

observe_found-IsValid :
    (now : ℕ) (k : Key) (o : Option Record) (t : Tracker) (d : Delta)
    → find k t.records ≡ o
    → IsValid t
    → IsValid (observe_found now k o (t, d)).0
unfolding observe_found
observe_found-IsValid now k none t d h v =
    elim (Bool-cases (leb t.opts.max_tracked (length t.records))) [
      | inl full ↦
          rw full (record { capped = v.capped; conserved = v.conserved; averaged = v.averaged })
      | inr room ↦ rw room (
          touch-IsValid now k (fresh now k) t d v
            (λ r. ground (arith, length-put_new k r t.records h)) (rw h))
    ]
observe_found-IsValid now k (some r) t d h v =
    touch-IsValid now k r t d v (λ r'. ground (arith, length-put_old k r' r t.records h, v.capped))
      (rw h)

observe_keys-IsValid :
    (now : ℕ) (ks : List Key) (t : Tracker) (d : Delta)
    → IsValid t
    → IsValid (observe_keys now ks (t, d)).0
unfolding observe_keys observe_key
observe_keys-IsValid now [] t d v = v
observe_keys-IsValid now (k ∷ ks) t d v =
    let (t', d') = observe_key now k (t, d) in
    observe_keys-IsValid now ks t' d' (observe_found-IsValid now k (find k t.records) t d refl v)

observed-IsValid :
    (keys : List Key) (now : ℕ) (t : Tracker) → IsValid t → IsValid (observed keys now t).0
unfolding observed
observed-IsValid keys now t v =
    observe_keys-IsValid now (sort_by before (dedup keys)) _ no_delta
      (refresh_flaps-IsValid now _ (purge-IsValid now t v))

abbrev Resolved : Type 0
Resolved = Dict Key Record × (Stats × List Record)

-- What the resolve loop clears moves from the active records to the resolved counter.
record IsBalanced (m : Dict Key Record) (s : Stats) (res : Resolved) : Type 0 where
  same_length : length res.0 ≡ length m
  moved :
      (res.1.0.resolved_total + active_count res.0) % 2 ^ 64
      ≡ (s.resolved_total + active_count m) % 2 ^ 64
  same_new : res.1.0.new_total ≡ s.new_total
  together :
      s.resolution_count ≡ s.resolved_total → res.1.0.resolution_count ≡ res.1.0.resolved_total

IsBalanced-kept :
    (k : Key) (r : Record) (m : Dict Key Record) (s : Stats) (res : Resolved)
    → IsBalanced m s res
    → IsBalanced ((k, r) ∷ m) s ((k, r) ∷ res.0, res.1)
unfolding active_count count_if
IsBalanced-kept k r m s res b = record {
  same_length = omega (arith, b.same_length);
  moved = ground (arith, b.moved);
  same_new = b.same_new;
  together = b.together;
}

IsBalanced-cleared :
    (now : ℕ) (k : Key) (r : Record) (m : Dict Key Record) (s : Stats) (res : Resolved)
    → r.active ≡ true
    → IsBalanced m (count_resolved now r s) res
    → IsBalanced ((k, r) ∷ m) s ((k, clear now r) ∷ res.0, res.1)
unfolding active_count count_if
IsBalanced-cleared now k r m s res a b = record {
  same_length = omega (arith, b.same_length);
  moved = ground (arith, b.moved);
  same_new = b.same_new;
  together = λ e. b.together (rw e);
}

resolve_loop-IsBalanced :
    (now : ℕ) (seen : List Key) (m : Dict Key Record) (s : Stats) (l : List Record)
    → IsBalanced m s (resolve_loop now seen m s l)
unfolding resolve_loop
resolve_loop-IsBalanced now seen [] s l = record {
  same_length = refl;
  moved = refl;
  same_new = refl;
  together = λ e. e;
}
resolve_loop-IsBalanced now seen ((k, r) ∷ m) s l =
    if_elim (IsBalanced ((k, r) ∷ m) s) (stays seen k r) _ _
      (λ h. IsBalanced-kept k r m s _ (resolve_loop-IsBalanced now seen m s l))
      (λ h.
        IsBalanced-cleared now k r m s _ (ground arith)
          (resolve_loop-IsBalanced now seen m (count_resolved now r s) (l ++ clear now r ∷ [])))

observe_found-opts :
    (now : ℕ) (k : Key) (o : Option Record) (t : Tracker) (d : Delta)
    → (observe_found now k o (t, d)).0.opts ≡ t.opts
unfolding observe_found touch
observe_found-opts now k none t d = ground arith
observe_found-opts now k (some r) t d = ground arith

observe_keys-opts :
    (now : ℕ) (ks : List Key) (t : Tracker) (d : Delta)
    → (observe_keys now ks (t, d)).0.opts ≡ t.opts
unfolding observe_keys observe_key
observe_keys-opts now [] t d = refl
observe_keys-opts now (k ∷ ks) t d =
    let (t', d') = observe_key now k (t, d) in
    observe_keys-opts now ks t' d' ∙ observe_found-opts now k (find k t.records) t d

observed-opts : (keys : List Key) (now : ℕ) (t : Tracker) → (observed keys now t).0.opts ≡ t.opts
unfolding observed refresh_flaps purge
observed-opts keys now t =
    observe_keys-opts now (sort_by before (dedup keys)) (refresh_flaps now (purge now t)) no_delta

-- Every reconcile keeps the tracker valid, whatever keys it is shown and whatever the clock says:
-- the records never outgrow the cap, every issue that ever became active is either still active or
-- counted as resolved (modulo the int64 of the counters), and as many resolution times were added
-- up as resolutions were counted. The options never change.
pub observe-IsValid :
    (keys : List Key) (now : ℕ) (t : Tracker)
    → IsValid t
    → IsValid (observe keys now t).0 × ((observe keys now t).0.opts ≡ t.opts)
unfolding observe
observe-IsValid keys now t v =
    let (t', d) = observed keys now t in
    let w = observed-IsValid keys now t v in
    let b = resolve_loop-IsBalanced now keys t'.records t'.stats [] in
    (
      record {
        capped = rw b.same_length w.capped;
        conserved = b.same_new ∙ (w.conserved ∙ sym b.moved);
        averaged = b.together w.averaged;
      },
      observed-opts keys now t,
    )
