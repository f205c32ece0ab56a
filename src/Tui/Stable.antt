-- ===== src/Tui/Stable.antt =====
-- What `decode_key` consumes: bounds, progress, and independence of where the input was cut.
use kubeagent.Prelude.{
  ℕ, ◌+◌, ◌≤◌, ◌<◌, ◌≡◌, ◌⊎◌, refl, Bool, true, false, ◌&&◌, List, [], ◌∷◌, ◌++◌, length, arith,
}
use kubeagent.Tui.{Press}
use kubeagent.Tui.Runes.{decode_rune}
use kubeagent.Tui.Keys.{decode_esc, rune_prefix, is_continuation, wanted, rune_key, decode_key}

decode_rune-bounds :
    (c : ℕ) (b : List ℕ) → let n = (decode_rune (c ∷ b)).1 in (1 ≤ n) × (n ≤ length (c ∷ b))
unfolding decode_rune length
decode_rune-bounds c [] = ground arith
decode_rune-bounds c (x ∷ []) = ground arith
decode_rune-bounds c (x ∷ y ∷ []) = ground arith
decode_rune-bounds c (x ∷ y ∷ z ∷ b) = ground arith

decode_esc-bounds : (b : List ℕ) (f : Bool) → (decode_esc b f).1 ≤ 1 + length b
unfolding decode_esc length
decode_esc-bounds [] f = ground arith
decode_esc-bounds (x ∷ []) f = ground arith
decode_esc-bounds (x ∷ y ∷ b) f = ground arith

rune_cut : List ℕ → Bool → Press × ℕ
unfolding rune_key decode_rune
rune_cut b f = rune_key b f (decode_rune b)

-- A byte that leads no longer rune is decoded alone.
decode_rune-alone : (c : ℕ) (e : List ℕ) → wanted c ≡ 0 → decode_rune (c ∷ e) ≡ decode_rune (c ∷ [])
unfolding decode_rune wanted
decode_rune-alone c e h = ground arith

rune_prefix-alone : (c : ℕ) (e : List ℕ) → wanted c ≡ 0 → rune_prefix (c ∷ e) ≡ false
unfolding rune_prefix
rune_prefix-alone c e h = ground arith

rune_prefix-long : (c x y z : ℕ) (b : List ℕ) → rune_prefix (c ∷ x ∷ y ∷ z ∷ b) ≡ false
unfolding rune_prefix length
rune_prefix-long c x y z b = ground arith

wanted_alone : (c : ℕ) → 0 < (rune_cut (c ∷ []) false).1 → wanted c ≡ 0
unfolding rune_cut wanted length
wanted_alone c h = ground arith

-- Two bytes that no longer rune starts with are decoded without what follows.
decode_rune-pair :
    (c x : ℕ) (e : List ℕ)
    → (wanted c ≤ 2) ⊎ (is_continuation x ≡ false)
    → decode_rune (c ∷ x ∷ e) ≡ decode_rune (c ∷ x ∷ [])
unfolding decode_rune wanted
decode_rune-pair c x [] h = refl
decode_rune-pair c x (y ∷ []) h = ground arith
decode_rune-pair c x (y ∷ z ∷ e) h = ground arith

rune_prefix-pair :
    (c x : ℕ) (e : List ℕ)
    → (wanted c ≤ 2) ⊎ (is_continuation x ≡ false)
    → rune_prefix (c ∷ x ∷ e) ≡ false
unfolding rune_prefix length
rune_prefix-pair c x e h = ground arith

pair_done :
    (c x : ℕ) → 0 < (rune_cut (c ∷ x ∷ []) false).1 → (wanted c ≤ 2) ⊎ (is_continuation x ≡ false)
unfolding rune_cut wanted length
pair_done c x h = ground arith

-- So are three bytes.
decode_rune-triple :
    (c x y : ℕ) (e : List ℕ)
    → (wanted c ≤ 3) ⊎ (is_continuation x && is_continuation y ≡ false)
    → decode_rune (c ∷ x ∷ y ∷ e) ≡ decode_rune (c ∷ x ∷ y ∷ [])
unfolding decode_rune wanted
decode_rune-triple c x y [] h = refl
decode_rune-triple c x y (z ∷ e) h = ground arith

rune_prefix-triple :
    (c x y : ℕ) (e : List ℕ)
    → (wanted c ≤ 3) ⊎ (is_continuation x && is_continuation y ≡ false)
    → rune_prefix (c ∷ x ∷ y ∷ e) ≡ false
unfolding rune_prefix length
rune_prefix-triple c x y e h = ground arith

triple_done :
    (c x y : ℕ)
    → 0 < (rune_cut (c ∷ x ∷ y ∷ []) false).1
    → (wanted c ≤ 3) ⊎ (is_continuation x && is_continuation y ≡ false)
unfolding rune_cut wanted length
triple_done c x y h = ground arith

decode_rune-four :
    (c x y z : ℕ) (b e : List ℕ)
    → decode_rune (c ∷ x ∷ y ∷ z ∷ b ++ e) ≡ decode_rune (c ∷ x ∷ y ∷ z ∷ b)
unfolding decode_rune
decode_rune-four c x y z b e = refl

rune_cut-stable :
    (c : ℕ) (b e : List ℕ) (f : Bool)
    → 0 < (rune_cut (c ∷ b) false).1
    → rune_cut (c ∷ b ++ e) f ≡ rune_cut (c ∷ b) false
unfolding rune_cut length
rune_cut-stable c [] e f h = ground (
  arith,
  decode_rune-alone c e (wanted_alone c h),
  rune_prefix-alone c e (wanted_alone c h),
  rune_prefix-alone c [] (wanted_alone c h),
)
rune_cut-stable c (x ∷ []) e f h =
    let done = pair_done c x h in
    ground (
      arith,
      decode_rune-pair c x e done,
      rune_prefix-pair c x e done,
      rune_prefix-pair c x [] done,
    )
rune_cut-stable c (x ∷ y ∷ []) e f h =
    let done = triple_done c x y h in
    ground (
      arith,
      decode_rune-triple c x y e done,
      rune_prefix-triple c x y e done,
      rune_prefix-triple c x y [] done,
    )
rune_cut-stable c (x ∷ y ∷ z ∷ b) e f h = ground (
  arith,
  decode_rune-four c x y z b e,
  rune_prefix-long c x y z b,
  rune_prefix-long c x y z (b ++ e),
)

rune_key-bounds :
    (b : List ℕ) (f : Bool) (r n : ℕ)
    → 1 ≤ n
    → n ≤ length b
    → let k = (rune_key b f (r, n)).1 in
      (k ≤ length b) × (f ≡ true → 0 < k) × (rune_prefix b ≡ false → 0 < k)
unfolding rune_key
rune_key-bounds b f r n h g = ground arith

rune_cut-bounds :
    (c : ℕ) (b : List ℕ) (f : Bool)
    → let n = (rune_cut (c ∷ b) f).1 in
      (n ≤ length (c ∷ b)) × (f ≡ true → 0 < n) × (rune_prefix (c ∷ b) ≡ false → 0 < n)
unfolding rune_cut
rune_cut-bounds c b f = let (h, g) = decode_rune-bounds c b in rune_key-bounds (c ∷ b) f _ _ h g

-- Whatever bytes and whether or not they are final, `decodeKey` consumes no more than it was given;
-- it makes progress on any byte that is final, and on any four bytes. So the loop that drains the
-- input ends and waits for three bytes at most.
pub decode_key-progress :
    (b : List ℕ) (f : Bool)
    → let n = (decode_key b f).1 in
      (n ≤ length b) × (0 < length b → f ≡ true → 0 < n) × (4 ≤ length b → 0 < n)
unfolding decode_key decode_esc rune_cut length
decode_key-progress [] f = ground arith
decode_key-progress (c ∷ []) f = ground (arith, rune_cut-bounds c [] f)
decode_key-progress (c ∷ x ∷ []) f = ground (arith, rune_cut-bounds c (x ∷ []) f)
decode_key-progress (c ∷ x ∷ y ∷ []) f = ground (arith, rune_cut-bounds c (x ∷ y ∷ []) f)
decode_key-progress (c ∷ x ∷ y ∷ z ∷ b) f =
    ground (arith, rune_cut-bounds c (x ∷ y ∷ z ∷ b) f, rune_prefix-long c x y z b)

-- Where the input happened to be cut does not matter: if `decodeKey` recognises a key in what has
-- arrived, it recognises the same key, of the same width, whatever arrives behind it and whether or
-- not that is final.
pub decode_key-stable :
    (b e : List ℕ) (f : Bool)
    → 0 < (decode_key b false).1
    → decode_key (b ++ e) f ≡ decode_key b false
unfolding decode_key decode_esc rune_cut
decode_key-stable [] e f h = ground arith
decode_key-stable (c ∷ []) [] f h = ground (arith, rune_cut-stable c [] [] f)
decode_key-stable (c ∷ []) (x ∷ []) f h = ground (arith, rune_cut-stable c [] (x ∷ []) f)
decode_key-stable (c ∷ []) (x ∷ y ∷ e) f h = ground (arith, rune_cut-stable c [] (x ∷ y ∷ e) f)
decode_key-stable (c ∷ x ∷ []) [] f h = ground (arith, rune_cut-stable c (x ∷ []) [] f)
decode_key-stable (c ∷ x ∷ []) (y ∷ e) f h = ground (arith, rune_cut-stable c (x ∷ []) (y ∷ e) f)
decode_key-stable (c ∷ x ∷ y ∷ b) e f h = ground (arith, rune_cut-stable c (x ∷ y ∷ b) e f)
