-- ===== src/Tui/Placement.antt =====
-- Where `clamp` puts the cursor and the window, on integers.
use kubeagent.Prelude.{ℕ, suc, ◌≡◌, ◌⊎◌, arith}
use kubeagent.Prelude.Int.{ℤ, pos, ◌+ℤ◌, ◌-ℤ◌, ◌≤ℤ◌, int_laws}
use kubeagent.Tui.Update.{
  up_to_cursor, down_to_cursor, filled, not_negative, clamp_cursor, clamp_top,
}

-- The cursor is on the list, the window holds the cursor, and the window has no blank rows below
-- the list unless it starts at the top.
unfoldable pub Placed : ℕ → ℤ → ℤ → ℤ → Type 0
Placed n rows cursor top =
    (pos 0 ≤ℤ cursor)
    × (cursor +ℤ pos 1 ≤ℤ pos n)
    × (pos 0 ≤ℤ top)
    × (top ≤ℤ cursor)
    × (cursor +ℤ pos 1 ≤ℤ top +ℤ rows)
    × ((top ≡ pos 0) ⊎ (top +ℤ rows ≤ℤ pos n))

clamp_cursor-in :
    (n : ℕ) (cursor : ℤ)
    → let c = clamp_cursor (pos (suc n)) cursor in (pos 0 ≤ℤ c) × (c +ℤ pos 1 ≤ℤ pos (suc n))
unfolding clamp_cursor ◌+ℤ◌ ◌-ℤ◌
clamp_cursor-in n cursor = ground arith

up_to_cursor-le : (cursor top : ℤ) → up_to_cursor cursor top ≤ℤ cursor
up_to_cursor-le cursor top = ground arith

down_to_cursor-in :
    (rows cursor top : ℤ)
    → pos 1 ≤ℤ rows
    → top ≤ℤ cursor
    → let t = down_to_cursor rows cursor top in (t ≤ℤ cursor) × (cursor +ℤ pos 1 ≤ℤ t +ℤ rows)
down_to_cursor-in rows cursor top h g = grind int_laws

filled-in :
    (n rows cursor top : ℤ)
    → cursor +ℤ pos 1 ≤ℤ n
    → top ≤ℤ cursor
    → cursor +ℤ pos 1 ≤ℤ top +ℤ rows
    → let t = filled n rows top in (t ≤ℤ cursor) × (cursor +ℤ pos 1 ≤ℤ t +ℤ rows) × (t +ℤ rows ≤ℤ n)
filled-in n rows cursor top h g k = grind int_laws

not_negative-in :
    (n rows cursor top : ℤ)
    → pos 0 ≤ℤ cursor
    → top ≤ℤ cursor
    → cursor +ℤ pos 1 ≤ℤ top +ℤ rows
    → top +ℤ rows ≤ℤ n
    → let t = not_negative top in
      (pos 0 ≤ℤ t)
      × (t ≤ℤ cursor)
      × (cursor +ℤ pos 1 ≤ℤ t +ℤ rows)
      × ((t ≡ pos 0) ⊎ (t +ℤ rows ≤ℤ n))
not_negative-in n rows cursor top h g k l = grind int_laws

pub clamp_Placed :
    (n : ℕ) (rows cursor top : ℤ)
    → pos 1 ≤ℤ rows
    → let c = clamp_cursor (pos (suc n)) cursor in
      Placed (suc n) rows c (clamp_top (pos (suc n)) rows c top)
unfolding Placed clamp_top
clamp_Placed n rows cursor top h =
    let c = clamp_cursor (pos (suc n)) cursor in
    let (low, high) = clamp_cursor-in n cursor in
    let u = up_to_cursor c top in
    let d = down_to_cursor rows c u in
    let (d_le, d_holds) = down_to_cursor-in rows c u h (up_to_cursor-le c top) in
    let (f_le, f_holds, f_full) = filled-in (pos (suc n)) rows c d high d_le d_holds in
    let t = filled (pos (suc n)) rows d in
    let (t_low, t_le, t_holds, t_full) =
      not_negative-in (pos (suc n)) rows c t low f_le f_holds f_full in
    (low, high, t_low, t_le, t_holds, t_full)
