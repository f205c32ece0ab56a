-- ===== src/Fleet/Exact.antt =====
-- Which signals are shared, and by which clusters.
use mathlib.Core.List.{append-nil}
use mathlib.Core.Path.{subst}
use kubeagent.Prelude.{
  ◌≡◌, ◌≢◌, ◌≤◌, refl, sym, ◌∙◌, ap, Bool, true, false, ◌&&◌, List, [], ◌∷◌, ◌++◌, Text, All, arith,
  ltb, length, text_eq, text_eq_iff, if◌then◌else◌, if_elim, Bool-cases, inl, inr, text_lt, keep,
}
use kubeagent.Prelude.Sort.{sort_by, insert_by}
use kubeagent.Prelude.Dict.{Dict, find, has, text_eq_inst}
use kubeagent.Fleet.{Source, issue, blindspot, Shared, ClusterEvidence}
use kubeagent.Fleet.Correlate.{
  min_shared, or_nil, signals_of, by_signal, entry, gather, wider, correlate,
}
use kubeagent.Fleet.Fold.{
  Unique, ids_of, length-ids_of, find-by_signal, KeysUnique, by_signal-KeysUnique,
}

module _ {A : Type 0} (p : A → Bool) where
  keep-append : (xs ys : List A) → keep p (xs ++ ys) ≡ keep p xs ++ keep p ys
  unfolding keep
  keep-append [] ys = refl
  keep-append (x ∷ xs) ys = elim (Bool-cases (p x)) [
    | inl e ↦ rw e (ap (λ l. x ∷ l) (keep-append xs ys))
    | inr e ↦ rw e (keep-append xs ys)
  ]

  keep_none : (y : A) (ys : List A) → keep p (y ∷ ys) ≡ [] → (p y ≡ false) × (keep p ys ≡ [])
  unfolding keep
  keep_none y ys k = elim (Bool-cases (p y)) [
    | inl g ↦
        absurd (subst (λ b. (if b then y ∷ keep p ys else keep p ys) ≢ []) (sym g) (λ e. cc) k)
    | inr g ↦ (g, subst (λ b. (if b then y ∷ keep p ys else keep p ys) ≡ []) g k)
  ]

  nothing_more : (x : A) (xs : List A) → length (x ∷ xs) ≤ 1 → xs ≡ []
  nothing_more x [] h = refl
  nothing_more x (y ∷ ys) h = absurd (omega arith)

  module _ (less : A → A → Bool) where
    keep-insert_by-dropped :
        (x : A) (xs : List A) → p x ≡ false → keep p (insert_by less x xs) ≡ keep p xs
    unfolding keep insert_by
    keep-insert_by-dropped x [] h = rw h refl
    keep-insert_by-dropped x (y ∷ ys) h =
        if_elim (λ l. keep p l ≡ keep p (y ∷ ys)) (less y x) (y ∷ insert_by less x ys) (x ∷ y ∷ ys)
          (λ e. elim (Bool-cases (p y)) [
            | inl g ↦ rw g (ap (λ l. y ∷ l) (keep-insert_by-dropped x ys h))
            | inr g ↦ rw g (keep-insert_by-dropped x ys h)
          ])
          (λ e. rw h refl)

    keep-insert_by-kept :
        (x : A) (xs : List A) → p x ≡ true → keep p xs ≡ [] → keep p (insert_by less x xs) ≡ x ∷ []
    unfolding keep insert_by
    keep-insert_by-kept x [] h k = rw h refl
    keep-insert_by-kept x (y ∷ ys) h k =
        let (g, none_left) = keep_none y ys k in
        if_elim (λ l. keep p l ≡ x ∷ []) (less y x) (y ∷ insert_by less x ys) (x ∷ y ∷ ys)
          (λ e. rw g (keep-insert_by-kept x ys h none_left)) (λ e. rw h (ap (λ l. x ∷ l) k))

    -- Sorting does not move what is kept if that is one element or none.
    keep-sort_by : (xs : List A) → length (keep p xs) ≤ 1 → keep p (sort_by less xs) ≡ keep p xs
    unfolding keep sort_by
    keep-sort_by [] h = refl
    keep-sort_by (x ∷ xs) h = elim (Bool-cases (p x)) [
      | inl e ↦
          let gone : keep p xs ≡ [] =
            nothing_more x (keep p xs)
              (subst (λ b. length (if b then x ∷ keep p xs else keep p xs) ≤ 1) e h) in
          let same = keep-sort_by xs (subst (λ l. length l ≤ 1) (sym gone) (omega arith)) in
          rw e
            (keep-insert_by-kept x (sort_by less xs) e (same ∙ gone) ∙ ap (λ l. x ∷ l) (sym gone))
      | inr e ↦
          let same =
            keep-sort_by xs
              (subst (λ b. length (if b then x ∷ keep p xs else keep p xs) ≤ 1) e h) in
          rw e (keep-insert_by-dropped x (sort_by less xs) e ∙ same)
    ]

-- The entries for one signal of one kind.
abbrev same_source : Source → Source → Bool
same_source issue issue = true
same_source blindspot blindspot = true
same_source issue blindspot = false
same_source blindspot issue = false

abbrev pub is_for : Source → Text → Shared → Bool
is_for source s e = same_source e.source source && text_eq e.signal s

same_source_refl : (source : Source) → same_source source source ≡ true
same_source_refl issue = refl
same_source_refl blindspot = refl

keep-entry :
    (source : Source) (s : Text) (ids : List Text)
    → keep (is_for source s) (entry source s ids) ≡ entry source s ids
unfolding keep entry
keep-entry source s ids =
    if_elim (λ (l : List Shared). keep (is_for source s) l ≡ l) (ltb (length ids) min_shared) []
      (record { signal = s; source = source; clusters = sort_by text_lt ids } ∷ []) (λ h. refl)
      (λ h. rw (same_source_refl source, (text_eq_iff s s).1 refl) refl)

keep-entry-other :
    (source other : Source) (s t : Text) (ids : List Text)
    → same_source other source && text_eq t s ≡ false
    → keep (is_for source s) (entry other t ids) ≡ []
unfolding keep entry
keep-entry-other source other s t ids h =
    if_elim (λ (l : List Shared). keep (is_for source s) l ≡ []) (ltb (length ids) min_shared) []
      (record { signal = t; source = other; clusters = sort_by text_lt ids } ∷ []) (λ g. refl)
      (λ g. rw h refl)

keep-gather-other :
    (source other : Source) (s : Text) (m : Dict Text (List Text))
    → same_source other source ≡ false
    → keep (is_for source s) (gather m other) ≡ []
unfolding gather keep
keep-gather-other source other s [] h = refl
keep-gather-other source other s ((t, ids) ∷ m) h =
    keep-append (is_for source s) (entry other t ids) (gather m other)
    ∙ ap (λ l. l ++ keep (is_for source s) (gather m other))
        (keep-entry-other source other s t ids (rw h refl))
    ∙ keep-gather-other source other s m h

absent : (s : Text) (m : Dict Text (List Text)) → has s m ≡ false → or_nil (find s m) ≡ []
unfolding has
absent s m h = ground arith

entry_none : (source : Source) (s : Text) → entry source s [] ≡ []
unfolding entry
entry_none source s = refl

keep-gather :
    (source : Source) (s : Text) (m : Dict Text (List Text))
    → KeysUnique m
    → keep (is_for source s) (gather m source) ≡ entry source s (or_nil (find s m))
unfolding gather keep find
keep-gather source s [] u = sym (entry_none source s)
keep-gather source s ((t, ids) ∷ m) (h, u) =
    let rest = keep-gather source s m u in
    keep-append (is_for source s) (entry source t ids) (gather m source)
    ∙ elim (Bool-cases (text_eq t s)) [
      | inl e ↦
          let same : t ≡ s = (text_eq_iff t s).0 e in
          let gone =
            rest
            ∙ ap (entry source s) (absent s m (ap (λ k. has k m) (sym same) ∙ h))
            ∙ entry_none source s in
          rw (e, gone)
            (append-nil _
              ∙ ap (λ k. keep (is_for source s) (entry source k ids)) same
              ∙ keep-entry source s ids)
      | inr e ↦
          rw (e, keep-entry-other source source s t ids (rw (same_source_refl source, e) refl)) rest
    ]

abbrev pub Distinct : ClusterEvidence → Type 0
Distinct e = Unique e.issues × Unique e.blindspots

signals-Distinct :
    (source : Source) (es : List ClusterEvidence)
    → All Distinct es
    → All (λ e. Unique (signals_of source e)) es
signals-Distinct source [] u = tt
signals-Distinct issue (e ∷ es) (h, u) = (h.0, signals-Distinct issue es u)
signals-Distinct blindspot (e ∷ es) (h, u) = (h.1, signals-Distinct blindspot es u)

gathered :
    (source : Source) (s : Text) (es : List ClusterEvidence)
    → All Distinct es
    → keep (is_for source s) (gather (by_signal source es []) source)
      ≡ entry source s (ids_of source s es)
unfolding find
gathered source s es u =
    keep-gather source s (by_signal source es []) (by_signal-KeysUnique source es [] tt)
    ∙ ap (entry source s) (find-by_signal source s es [] (signals-Distinct source es u))

both_gathered :
    (source : Source) (s : Text) (es : List ClusterEvidence)
    → All Distinct es
    → keep
        (is_for source s)
        (gather (by_signal issue es []) issue ++ gather (by_signal blindspot es []) blindspot)
      ≡ entry source s (ids_of source s es)
both_gathered source s es u =
    keep-append (is_for source s) (gather (by_signal issue es []) issue) _ ∙ parts source
  where
    parts :
        (k : Source)
        → keep (is_for k s) (gather (by_signal issue es []) issue)
            ++ keep (is_for k s) (gather (by_signal blindspot es []) blindspot)
          ≡ entry k s (ids_of k s es)
    parts issue =
        rw (keep-gather-other issue blindspot s (by_signal blindspot es []) refl)
          (append-nil _ ∙ gathered issue s es u)
    parts blindspot =
        rw (keep-gather-other blindspot issue s (by_signal issue es []) refl)
          (gathered blindspot s es u)

entry-short : (source : Source) (s : Text) (ids : List Text) → length (entry source s ids) ≤ 1
unfolding entry
entry-short source s ids =
    if_elim (λ (l : List Shared). length l ≤ 1) (ltb (length ids) min_shared) []
      (record { signal = s; source = source; clusters = sort_by text_lt ids } ∷ [])
      (λ h. omega arith) (λ h. omega arith)

few :
    (source : Source) (s : Text) (ids : List Text)
    → ltb (length ids) 2 ≡ true
    → entry source s ids ≡ []
unfolding entry
few source s ids h = rw h refl

pub correlate-entry :
    (source : Source) (s : Text) (es : List ClusterEvidence)
    → All Distinct es
    → keep (is_for source s) (correlate es) ≡ entry source s (ids_of source s es)
unfolding correlate keep
correlate-entry source s es u =
    let both =
      gather (by_signal issue es []) issue ++ gather (by_signal blindspot es []) blindspot in
    let found = both_gathered source s es u in
    if_elim (λ (l : List Shared). keep (is_for source s) l ≡ entry source s (ids_of source s es))
      (ltb (length es) min_shared) [] (sort_by wider both)
      (λ e. sym (few source s (ids_of source s es) (ground (arith, length-ids_of source s es))))
      (λ e.
        keep-sort_by (is_for source s) wider both
          (subst (λ l. length l ≤ 1) (sym found) (entry-short source s (ids_of source s es)))
        ∙ found)
