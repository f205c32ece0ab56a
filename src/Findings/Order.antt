-- ===== src/Findings/Order.antt =====
-- `Sort` imposes an order on findings: the output is sorted, rearranges the input, and does not
-- depend on the order in which the findings were collected, as far as the compared fields go.
use mathlib.Core.List.{Perm}
use kubeagent.Prelude.{ℕ, ◌≡◌, Bool, false, true, List, Text, map, ltb, eqb, eqb_iff, arith}
use kubeagent.Prelude.Strings.{
  text_eq, text_lt, text_eq_iff, text_lt-asymm, text_lt-neg_trans, text_lt-total,
}
use kubeagent.Prelude.Sort.{
  IsStrictWeak, IsLinear, pair_eq, pair_lt, pair-IsLinear, on_key, on_key-IsStrictWeak, IsSorted,
  sort_by-IsSorted, sort_by-perm, sort_by-keys,
}
use kubeagent.Findings.{Finding, rank, less, sort}

pub text-IsLinear : IsLinear text_eq text_lt
text-IsLinear = record {
  eq_iff = text_eq_iff;
  weak = record { asymm = text_lt-asymm; neg_trans = text_lt-neg_trans };
  total = text_lt-total;
}

-- The greater rank comes first.
abbrev gtb : ℕ → ℕ → Bool
gtb a b = ltb b a

gtb-asymm : (a b : ℕ) → gtb a b ≡ true → gtb b a ≡ false
gtb-asymm a b h = ground arith

gtb-neg_trans : (a b c : ℕ) → gtb a b ≡ false → gtb b c ≡ false → gtb a c ≡ false
gtb-neg_trans a b c h k = ground arith

gtb-total : (a b : ℕ) → gtb a b ≡ false → gtb b a ≡ false → a ≡ b
gtb-total a b h k = ground arith

gtb-IsLinear : IsLinear eqb gtb
gtb-IsLinear = record {
  eq_iff = eqb_iff;
  weak = record { asymm = gtb-asymm; neg_trans = gtb-neg_trans };
  total = gtb-total;
}

-- The fields that `Sort` compares: the rank of the level, the namespace, kind, name and issue.
abbrev pub SortKey : Type 0
SortKey = ℕ × (Text × (Text × (Text × Text)))

abbrev pub sort_key : Finding → SortKey
sort_key f = (rank f.level, (f.namespace, (f.kind, (f.name, f.issue))))

abbrev eq_2 : Text × Text → Text × Text → Bool
eq_2 = pair_eq text_eq text_lt text_eq text_lt

abbrev lt_2 : Text × Text → Text × Text → Bool
lt_2 = pair_lt text_eq text_lt text_eq text_lt

abbrev eq_3 : Text × (Text × Text) → Text × (Text × Text) → Bool
eq_3 = pair_eq text_eq text_lt eq_2 lt_2

abbrev lt_3 : Text × (Text × Text) → Text × (Text × Text) → Bool
lt_3 = pair_lt text_eq text_lt eq_2 lt_2

abbrev eq_4 : Text × (Text × (Text × Text)) → Text × (Text × (Text × Text)) → Bool
eq_4 = pair_eq text_eq text_lt eq_3 lt_3

abbrev lt_4 : Text × (Text × (Text × Text)) → Text × (Text × (Text × Text)) → Bool
lt_4 = pair_lt text_eq text_lt eq_3 lt_3

abbrev key_lt : SortKey → SortKey → Bool
key_lt = pair_lt eqb gtb eq_4 lt_4

key-IsLinear : IsLinear (pair_eq eqb gtb eq_4 lt_4) key_lt
key-IsLinear = pair-IsLinear _ _ _ _ gtb-IsLinear (
    pair-IsLinear _ _ _ _ text-IsLinear
      (pair-IsLinear _ _ _ _ text-IsLinear (pair-IsLinear _ _ _ _ text-IsLinear text-IsLinear)))

less-on_key : (x y : Finding) → less x y ≡ on_key sort_key key_lt x y
unfolding less
less-on_key x y = ground arith

less-eq : less ≡ on_key sort_key key_lt
less-eq = λ i x y. less-on_key x y i

pub less-IsStrictWeak : IsStrictWeak less
less-IsStrictWeak = rw less-eq (on_key-IsStrictWeak sort_key key_lt key-IsLinear.weak)

pub sort-perm : (fs : List Finding) → Perm (sort fs) fs
unfolding sort
sort-perm fs = sort_by-perm less fs

-- `Sort` rearranges the findings, and puts none before one that is strictly ahead of it in the
-- order by severity, namespace, kind, name and issue.
pub sort-orders : (fs : List Finding) → Perm (sort fs) fs × IsSorted less (sort fs)
unfolding sort
sort-orders fs = (sort_by-perm less fs, sort_by-IsSorted less less-IsStrictWeak fs)

-- Two collections of the same findings, in whatever orders, are sorted to lists that agree at each
-- place on level, namespace, kind, name and issue.
pub sort-deterministic :
    (fs gs : List Finding) → Perm fs gs → map sort_key (sort fs) ≡ map sort_key (sort gs)
unfolding sort
sort-deterministic fs gs p = rw less-eq (sort_by-keys sort_key key_lt key-IsLinear fs gs p)
