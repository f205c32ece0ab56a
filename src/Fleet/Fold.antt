-- ===== src/Fleet/Fold.antt =====
-- What the maps of `correlate` hold: under each signal, the clusters that showed it.
use mathlib.Core.List.{append-nil, append_assoc}
use kubeagent.Prelude.{
  suc, ◌≡◌, ◌≤◌, refl, sym, ◌∙◌, ap, Bool, false, ◌||◌, List, [], ◌∷◌, ◌++◌, Text, All, arith,
  length, text_eq, text_eq_iff, if◌then◌else◌, if_elim, Bool-cases, inl, inr,
}
use kubeagent.Prelude.Dict.{Dict, find, find-put, contains, text_eq_inst}
pub use kubeagent.Prelude.Unique.{Unique, KeysUnique, put-KeysUnique, entries-find}
use kubeagent.Fleet.{Source, ClusterEvidence}
use kubeagent.Fleet.Correlate.{or_nil, appended, append_all, signals_of, by_signal}

abbrev pub one_if_any : Bool → Text → List Text
one_if_any b id = if b then id ∷ [] else []

-- The clusters that show a signal, in their order.
abbrev pub ids_of : Source → Text → List ClusterEvidence → List Text
ids_of source s [] = []
ids_of source s (e ∷ es) = one_if_any (contains (signals_of source e) s) e.id ++ ids_of source s es

pub length-ids_of :
    (source : Source) (s : Text) (es : List ClusterEvidence)
    → length (ids_of source s es) ≤ length es
length-ids_of source s [] = omega arith
length-ids_of source s (e ∷ es) =
    if_elim (λ (l : List Text). length (l ++ ids_of source s es) ≤ suc (length es))
      (contains (signals_of source e) s) (e.id ∷ []) []
      (λ h. omega (arith, length-ids_of source s es))
      (λ h. omega (arith, length-ids_of source s es))

find-appended :
    (x id s : Text) (m : Dict Text (List Text))
    → or_nil (find s (appended x id m)) ≡ or_nil (find s m) ++ one_if_any (text_eq x s) id
unfolding appended
find-appended x id s m =
    rw (find-put x s (or_nil (find x m) ++ id ∷ []) m) (elim (Bool-cases (text_eq x s)) [
      | inl e ↦ rw e (ap (λ y. or_nil (find y m) ++ id ∷ []) ((text_eq_iff x s).0 e))
      | inr e ↦ rw e (sym (append-nil _))
    ])

-- A signal that is not shown again.
shown_once :
    (x s : Text) (xs : List Text) (id : Text)
    → contains xs x ≡ false
    → one_if_any (text_eq x s) id ++ one_if_any (contains xs s) id
      ≡ one_if_any (text_eq x s || contains xs s) id
shown_once x s xs id h = elim (Bool-cases (text_eq x s)) [
  | inl e ↦
      let g : contains xs s ≡ false = ap (λ y. contains xs y) (sym ((text_eq_iff x s).0 e)) ∙ h in
      rw (e, g) refl
  | inr e ↦ rw e refl
]

find-append_all :
    (xs : List Text) (id s : Text) (m : Dict Text (List Text))
    → Unique xs
    → or_nil (find s (append_all xs id m)) ≡ or_nil (find s m) ++ one_if_any (contains xs s) id
unfolding append_all contains
find-append_all [] id s m u = sym (append-nil _)
find-append_all (x ∷ xs) id s m (h, u) =
    find-append_all xs id s (appended x id m) u
    ∙ ap (λ l. l ++ one_if_any (contains xs s) id) (find-appended x id s m)
    ∙ append_assoc (or_nil (find s m)) _ _
    ∙ ap (λ l. or_nil (find s m) ++ l) (shown_once x s xs id h)

pub find-by_signal :
    (source : Source) (s : Text) (es : List ClusterEvidence) (m : Dict Text (List Text))
    → All (λ e. Unique (signals_of source e)) es
    → or_nil (find s (by_signal source es m)) ≡ or_nil (find s m) ++ ids_of source s es
unfolding by_signal
find-by_signal source s [] m u = sym (append-nil _)
find-by_signal source s (e ∷ es) m (h, u) =
    find-by_signal source s es (append_all (signals_of source e) e.id m) u
    ∙ ap (λ l. l ++ ids_of source s es) (find-append_all (signals_of source e) e.id s m h)
    ∙ append_assoc (or_nil (find s m)) _ _

append_all-KeysUnique :
    (xs : List Text) (id : Text) (m : Dict Text (List Text))
    → KeysUnique m
    → KeysUnique (append_all xs id m)
unfolding append_all appended
append_all-KeysUnique [] id m u = u
append_all-KeysUnique (x ∷ xs) id m u =
    append_all-KeysUnique xs id (appended x id m)
      (put-KeysUnique x (or_nil (find x m) ++ id ∷ []) m u)

pub by_signal-KeysUnique :
    (source : Source) (es : List ClusterEvidence) (m : Dict Text (List Text))
    → KeysUnique m
    → KeysUnique (by_signal source es m)
unfolding by_signal
by_signal-KeysUnique source [] m u = u
by_signal-KeysUnique source (e ∷ es) m u =
    by_signal-KeysUnique source es (append_all (signals_of source e) e.id m)
      (append_all-KeysUnique (signals_of source e) e.id m u)
