-- ===== src/Oncall/Budget.antt =====
-- The bucket: its tokens stay between nothing and the capacity.
use kubeagent.Prelude.{ℕ, ◌≡◌, true, false, Text, arith, eqb, if_elim, if◌then◌else◌}
use kubeagent.Prelude.Int.{ℤ, pos, negsuc, sub_ℕ, ltb_ℤ}
use kubeagent.Oncall.Throttle.{
  Floats, Throttle, nought, unit, at_most, refilled, refill, prune, refuse, grant, decide_call,
  decide_call-cases, allow, remaining, budget_of, new_throttle,
}

-- What the bucket relies on of the float arithmetic: no number is below itself; taking one token from
-- at least one leaves no debt, and no more than there was; adding what a positive time brings leaves
-- no debt; a share of what is not negative, and a whole number, are not negative. float64 has these
-- laws, with a NaN too, since every comparison with one is false.
pub record Laws (fl : Floats) : Type 0 where
  pub less-irrefl : (x : fl.Float) → fl.less x x ≡ false
  pub less-sub :
      (x top : fl.Float) → fl.less top x ≡ false → fl.less top (fl.sub x (unit fl)) ≡ false
  pub sub-nonneg :
      (x : fl.Float)
      → fl.less x (unit fl) ≡ false
      → fl.less (fl.sub x (unit fl)) (nought fl) ≡ false
  pub gain-nonneg :
      (x s : fl.Float) (rate : fl.Float)
      → fl.less x (nought fl) ≡ false
      → fl.less rate (nought fl) ≡ false
      → fl.less (nought fl) s ≡ true
      → fl.less (fl.add x (fl.mul s rate)) (nought fl) ≡ false
  pub div-nonneg :
      (x : fl.Float)
      → fl.less x (nought fl) ≡ false
      → fl.less (fl.div x (fl.of_int (pos 3600))) (nought fl) ≡ false
  pub of_int-nonneg : (n : ℕ) → fl.less (fl.of_int (pos n)) (nought fl) ≡ false

module _ {fl : Floats} where
  -- The bucket holds no debt and no more than its capacity, and neither of its settings is negative.
  pub record IsFunded (t : Throttle fl) : Type 0 where
    pub no_debt : fl.less t.tokens (nought fl) ≡ false
    pub no_excess : fl.less t.capacity t.tokens ≡ false
    pub capacity_nonneg : fl.less t.capacity (nought fl) ≡ false
    pub rate_nonneg : fl.less t.per_sec (nought fl) ≡ false

  module _ (laws : Laws fl) where
    at_most-below : (top x : fl.Float) → fl.less top (at_most fl top x) ≡ false
    at_most-below top x =
        if_elim (λ y. fl.less top y ≡ false) (fl.less top x) _ _ (λ h. laws.less-irrefl top)
          (λ h. h)

    at_most-nonneg :
        (top x : fl.Float)
        → fl.less top (nought fl) ≡ false
        → fl.less x (nought fl) ≡ false
        → fl.less (at_most fl top x) (nought fl) ≡ false
    at_most-nonneg top x h g =
        if_elim (λ y. fl.less y (nought fl) ≡ false) (fl.less top x) _ _ (λ e. h) (λ e. g)

    pub new_throttle-IsFunded : (cooldown budget : ℤ) → IsFunded (new_throttle fl cooldown budget)
    unfolding new_throttle
    new_throttle-IsFunded cooldown budget =
        let h = budget_of-nonneg budget in
        record {
          no_debt = h;
          no_excess = laws.less-irrefl (fl.of_int (budget_of fl budget));
          capacity_nonneg = h;
          rate_nonneg = laws.div-nonneg (fl.of_int (budget_of fl budget)) h;
        }
      where
        budget_of-nonneg : (b : ℤ) → fl.less (fl.of_int (budget_of fl b)) (nought fl) ≡ false
        budget_of-nonneg (pos n) =
            if_elim (λ i. fl.less (fl.of_int i) (nought fl) ≡ false) (ltb_ℤ (pos n) (pos 1)) (pos 1)
              (pos n) (λ e. laws.of_int-nonneg 1) (λ e. laws.of_int-nonneg n)
        budget_of-nonneg (negsuc n) = ground (arith, laws.of_int-nonneg 1)

    refilled-IsFunded :
        (now : ℕ) (t : Throttle fl) (s : fl.Float)
        → IsFunded t
        → IsFunded (record t { tokens = refilled fl t s; last = now })
    unfolding refilled
    refilled-IsFunded now t s h =
        let gained = fl.add t.tokens (fl.mul s t.per_sec) in
        record {
          no_debt =
              if_elim (λ x. fl.less x (nought fl) ≡ false) (fl.less (nought fl) s) _ _
                (λ e.
                  at_most-nonneg t.capacity gained h.capacity_nonneg
                    (laws.gain-nonneg t.tokens s t.per_sec h.no_debt h.rate_nonneg e))
                (λ e. h.no_debt);
          no_excess =
              if_elim (λ x. fl.less t.capacity x ≡ false) (fl.less (nought fl) s) _ _
                (λ e. at_most-below t.capacity gained) (λ e. h.no_excess);
          capacity_nonneg = h.capacity_nonneg;
          rate_nonneg = h.rate_nonneg;
        }

    refill-IsFunded : (now : ℕ) (t : Throttle fl) → IsFunded t → IsFunded (refill fl now t)
    unfolding refill
    refill-IsFunded now t h =
        if_elim IsFunded (eqb t.last 0) _ _
          (λ e. record {
            no_debt = h.no_debt;
            no_excess = h.no_excess;
            capacity_nonneg = h.capacity_nonneg;
            rate_nonneg = h.rate_nonneg;
          })
          (λ e. refilled-IsFunded now t (fl.seconds (sub_ℕ now t.last)) h)

    prune-IsFunded : (now : ℕ) (t : Throttle fl) → IsFunded t → IsFunded (prune fl now t)
    unfolding prune
    prune-IsFunded now t h = record {
      no_debt = h.no_debt;
      no_excess = h.no_excess;
      capacity_nonneg = h.capacity_nonneg;
      rate_nonneg = h.rate_nonneg;
    }

    refuse-IsFunded : (t : Throttle fl) → IsFunded t → IsFunded (refuse fl t).0
    refuse-IsFunded t h = record {
      no_debt = h.no_debt;
      no_excess = h.no_excess;
      capacity_nonneg = h.capacity_nonneg;
      rate_nonneg = h.rate_nonneg;
    }

    decide_call-IsFunded :
        (key : Text) (now : ℕ) (t : Throttle fl)
        → IsFunded t
        → IsFunded (decide_call fl key now t).0
    unfolding grant
    decide_call-IsFunded key now t h =
        decide_call-cases fl (λ r. IsFunded r.0) key now t (refuse-IsFunded t h)
          λ free enough. record {
            no_debt = laws.sub-nonneg t.tokens enough;
            no_excess = laws.less-sub t.tokens t.capacity h.no_excess;
            capacity_nonneg = h.capacity_nonneg;
            rate_nonneg = h.rate_nonneg;
          }

    -- Every call of `Allow`, at whatever time and for whatever object, leaves the bucket with no debt
    -- and no more than its capacity, given the `Laws` of the float arithmetic.
    pub allow-IsFunded :
        (key : Text) (now : ℕ) (t : Throttle fl) → IsFunded t → IsFunded (allow fl key now t).0
    unfolding allow
    allow-IsFunded key now t h =
        decide_call-IsFunded key now (prune fl now (refill fl now t))
          (prune-IsFunded now (refill fl now t) (refill-IsFunded now t h))

    -- What `Remaining` reports at any time is between nothing and the capacity.
    pub remaining-in :
        (now : ℕ) (t : Throttle fl)
        → IsFunded t
        → (fl.less t.capacity (remaining fl now t) ≡ false)
          × (fl.less (remaining fl now t) (nought fl) ≡ false)
    unfolding remaining
    remaining-in now t h =
        let r =
          at_most fl t.capacity
            (fl.add t.tokens (fl.mul (fl.seconds (sub_ℕ now t.last)) t.per_sec)) in
        let P : fl.Float → Type 0 =
          λ x. (fl.less t.capacity x ≡ false) × (fl.less x (nought fl) ≡ false) in
        if_elim P (eqb t.last 0) t.capacity (if fl.less r (nought fl) then nought fl else r)
          (λ e. (laws.less-irrefl t.capacity, h.capacity_nonneg))
          λ e.
            if_elim P (fl.less r (nought fl)) (nought fl) r
              (λ low. (h.capacity_nonneg, laws.less-irrefl (nought fl)))
              (λ enough. (at_most-below t.capacity _, enough))
