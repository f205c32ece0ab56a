-- ===== src/Rootcause/Grouped.antt =====
-- The groups that the first loop of `AnnotateRegistry` makes: under each host, the indices that fail to pull from it.
use mathlib.Core.List.{append-nil, append_assoc}
use kubeagent.Prelude.{
  ℕ, zero, suc, ◌+◌, ◌≡◌, refl, sym, ap, ◌∙◌, Bool, true, false, ◌||◌, List, [], ◌∷◌, ◌++◌, Option,
  none, some, Text, text_eq, text_eq_iff, length, count_if, get_elem?, eqb, eqb_iff, ltb, arith,
  if◌then◌else◌, Bool-cases, inl, inr,
}
use kubeagent.Prelude.Dict.{Dict, find, has, has-cons, find-put, contains, nat_eq, text_eq_inst}
use kubeagent.Prelude.Unique.{Unique, KeysUnique, put-KeysUnique}
use kubeagent.Inventory.{Workload}
use kubeagent.Rootcause.Registry.{joins, joined, appended, groups, members_of, hosts_of}
use kubeagent.Rootcause.Indexed.{Apart}

-- Whether a workload that joins this group joins the group of a host.
abbrev pub joins_host : Option Text → Text → Bool
joins_host none h = false
joins_host (some g) h = text_eq g h

-- The indices of the workloads that join a host's group, counted from a first one.
abbrev pub indices : Text → ℕ → List Workload → List ℕ
indices h i [] = []
indices h i (w ∷ ws) = (if joins_host (joins w) h then i ∷ [] else []) ++ indices h (suc i) ws

abbrev pub joins_at : Text → Option Workload → Bool
joins_at h none = false
joins_at h (some w) = joins_host (joins w) h

members-joined :
    (h : Text) (o : Option Text) (i : ℕ) (m : Dict Text (List ℕ))
    → members_of (find h (joined o i m))
      ≡ members_of (find h m) ++ (if joins_host o h then i ∷ [] else [])
members-joined h none i m = sym (append-nil _)
members-joined h (some g) i m =
    ap members_of (find-put g h (appended (find g m) i) m) ∙ elim (Bool-cases (text_eq g h)) [
      | inl e ↦ rw e (
          appended_all (find g m)
          ∙ ap (λ l. members_of (find l m) ++ i ∷ []) ((text_eq_iff g h).0 e))
      | inr e ↦ rw e (sym (append-nil _))
    ]
  where
    appended_all : (o : Option (List ℕ)) → appended o i ≡ members_of o ++ i ∷ []
    appended_all none = refl
    appended_all (some l) = refl

pub members-groups :
    (h : Text) (i : ℕ) (ws : List Workload) (m : Dict Text (List ℕ))
    → members_of (find h (groups i ws m)) ≡ members_of (find h m) ++ indices h i ws
unfolding groups
members-groups h i [] m = sym (append-nil _)
members-groups h i (w ∷ ws) m =
    members-groups h (suc i) ws (joined (joins w) i m)
    ∙ ap (λ l. l ++ indices h (suc i) ws) (members-joined h (joins w) i m)
    ∙ append_assoc (members_of (find h m)) (if joins_host (joins w) h then i ∷ [] else [])
        (indices h (suc i) ws)

joined-KeysUnique :
    (o : Option Text) (i : ℕ) (m : Dict Text (List ℕ)) → KeysUnique m → KeysUnique (joined o i m)
joined-KeysUnique none i m u = u
joined-KeysUnique (some g) i m u = put-KeysUnique g (appended (find g m) i) m u

pub groups-KeysUnique :
    (i : ℕ) (ws : List Workload) (m : Dict Text (List ℕ))
    → KeysUnique m
    → KeysUnique (groups i ws m)
unfolding groups
groups-KeysUnique i [] m u = u
groups-KeysUnique i (w ∷ ws) m u =
    groups-KeysUnique (suc i) ws (joined (joins w) i m) (joined-KeysUnique (joins w) i m u)

indices_below :
    (h : Text) (i j : ℕ) (ws : List Workload) → ltb j i ≡ true → contains (indices h i ws) j ≡ false
unfolding contains
indices_below h i j [] e = refl
indices_below h i j (w ∷ ws) e =
    let above : ltb j (suc i) ≡ true = ground arith in
    let apart : eqb i j ≡ false = ground arith in
    elim (Bool-cases (joins_host (joins w) h)) [
      | inl b ↦ rw b (
          ap (λ c. c || contains (indices h (suc i) ws) j) apart
          ∙ indices_below h (suc i) j ws above)
      | inr b ↦ rw b (indices_below h (suc i) j ws above)
    ]

pub indices_at :
    (h : Text) (i j : ℕ) (ws : List Workload)
    → contains (indices h i ws) (i + j) ≡ joins_at h (get_elem? ws j)
unfolding contains
indices_at h i j [] = refl
indices_at h i zero (w ∷ ws) =
    let here : eqb i (i + zero) ≡ true = ground (arith, eqb_iff i (i + zero)) in
    let later = indices_below h (suc i) (i + zero) ws (ground arith) in
    elim (Bool-cases (joins_host (joins w) h)) [
      | inl b ↦ rw b (ap (λ c. c || contains (indices h (suc i) ws) (i + zero)) here)
      | inr b ↦ rw b later
    ]
indices_at h i (suc j) (w ∷ ws) =
    let apart : eqb i (i + suc j) ≡ false = ground arith in
    let shift : i + suc j ≡ suc i + j = omega arith in
    let rest = ap (contains (indices h (suc i) ws)) shift ∙ indices_at h (suc i) j ws in
    elim (Bool-cases (joins_host (joins w) h)) [
      | inl b ↦ rw b (ap (λ c. c || contains (indices h (suc i) ws) (i + suc j)) apart ∙ rest)
      | inr b ↦ rw b rest
    ]

pub indices-Apart : (h : Text) (i : ℕ) (ws : List Workload) → Apart (indices h i ws)
indices-Apart h i [] = tt
indices-Apart h i (w ∷ ws) = elim (Bool-cases (joins_host (joins w) h)) [
  | inl b ↦ rw b (indices_below h (suc i) i ws (ground arith), indices-Apart h (suc i) ws)
  | inr b ↦ rw b (indices-Apart h (suc i) ws)
]

pub length-indices :
    (h : Text) (i : ℕ) (ws : List Workload)
    → length (indices h i ws) ≡ count_if (λ w. joins_host (joins w) h) ws
unfolding count_if
length-indices h i [] = refl
length-indices h i (w ∷ ws) = elim (Bool-cases (joins_host (joins w) h)) [
  | inl b ↦ rw b (ap suc (length-indices h (suc i) ws))
  | inr b ↦ rw b (length-indices h (suc i) ws)
]

-- The hosts are the keys of the groups.
pub contains-hosts_of : (m : Dict Text (List ℕ)) (h : Text) → contains (hosts_of m) h ≡ has h m
unfolding contains has find
contains-hosts_of [] h = refl
contains-hosts_of ((k, v) ∷ m) h =
    ap (λ b. text_eq k h || b) (contains-hosts_of m h) ∙ sym (has-cons h k v m)

pub hosts_of-Unique : (m : Dict Text (List ℕ)) → KeysUnique m → Unique (hosts_of m)
hosts_of-Unique [] u = tt
hosts_of-Unique ((k, v) ∷ m) (fresh, u) = (contains-hosts_of m k ∙ fresh, hosts_of-Unique m u)
