-- ===== src/Tui/Drain.antt =====
-- `drainKeys` ends, and what it leaves.
use kubeagent.Prelude.{
  ℕ, zero, suc, ◌≤◌, ◌<◌, ◌≡◌, refl, Bool, true, false, ◌⊎◌, inl, inr, List, [], ◌∷◌, Option, some,
  length, length-drop, eqb_iff, drop, arith, eqb, if_elim, ◌||◌,
}
use kubeagent.Tui.{Model, event_key}
use kubeagent.Tui.Keys.{decode_key}
use kubeagent.Tui.Stable.{decode_key-progress}
use kubeagent.Tui.Update.{update, drain}
use kubeagent.Tui.Window.{InFrame, update-InFrame}

waits_few :
    (b : List ℕ) (final : Bool)
    → 0 < length b
    → (decode_key b final).1 ≡ 0
    → (length b ≤ 3) × (final ≡ true → length b ≡ 0)
waits_few b final h e = ground (arith, decode_key-progress b final)

rest_shorter :
    (fuel n : ℕ) (c : ℕ) (b : List ℕ)
    → length (c ∷ b) < suc fuel
    → eqb n 0 ≡ false
    → length (drop n (c ∷ b)) < fuel
unfolding length
rest_shorter fuel zero c b h e = ground arith
rest_shorter fuel (suc n) c b h e = omega (arith, h, length-drop n b)

module _ {Health : Type 0} where
  -- What `drainKeys` returns: the bytes that are left and the model.
  pub Drained : Bool → Option (List ℕ × Model Health) → Type 0
  Drained final r =
      (b : List ℕ) × (m : Model Health) × (r ≡ some (b, m))
      × InFrame m
      × ((m.quit || m.scanning ≡ true) ⊎ ((length b ≤ 3) × (final ≡ true → length b ≡ 0)))

  -- `drainKeys` always ends: within one round more than there are bytes pending, whatever they are.
  -- It keeps the frame, and unless it stopped for a quit or a scan it leaves three bytes at most,
  -- and none where the bytes are final.
  pub drain-returns :
      (fuel : ℕ) (pending : List ℕ) (m : Model Health) (final : Bool)
      → length pending < fuel
      → InFrame m
      → Drained final (drain fuel pending m final)
  unfolding drain length Drained
  drain-returns zero pending m final h g = ground arith
  drain-returns (suc fuel) [] m final h g = ([], m, refl, g, inr (ground arith, λ e. refl))
  drain-returns (suc fuel) (c ∷ pending) m final h g =
      let n = (decode_key (c ∷ pending) final).1 in
      let m' = update m (event_key (decode_key (c ∷ pending) final).0) in
      let g' = update-InFrame m (event_key (decode_key (c ∷ pending) final).0) g in
      let rest = drop n (c ∷ pending) in
      if_elim (Drained final) (eqb n 0) _ _
        (λ e. (
          c ∷ pending,
          m,
          refl,
          g,
          inr (waits_few (c ∷ pending) final (ground arith) ((eqb_iff n 0).0 e)),
        ))
        λ more.
          if_elim (Drained final) (m'.quit || m'.scanning) _ _
            (λ stopped. (rest, m', refl, g', inl stopped))
            λ goes_on. drain-returns fuel rest m' final (rest_shorter fuel n c pending h more) g'
