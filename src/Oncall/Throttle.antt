-- ===== src/Oncall/Throttle.antt =====
-- internal/oncall/throttle.go: a cooldown for each object and a bucket of tokens for all of them.
use kubeagent.Prelude.{
  ℕ, ◌+◌, ◌%◌, ◌^◌, ◌≡◌, if_elim, Bool, true, false, [], Option, none, some, Text, keep, eqb,
  if◌then◌else◌,
}
use kubeagent.Prelude.Int.{ℤ, pos, sub_ℕ, ltb_ℤ}
use kubeagent.Prelude.Dict.{Dict, find, put, text_eq_inst}

-- The float64 arithmetic that the throttle calls. `seconds` is `Duration.Seconds` of a duration in
-- nanoseconds.
pub record Floats : Type 1 where
  pub Float : Type 0
  pub less : Float → Float → Bool
  pub add : Float → Float → Float
  pub sub : Float → Float → Float
  pub mul : Float → Float → Float
  pub div : Float → Float → Float
  pub of_int : ℤ → Float
  pub seconds : ℤ → Float

module _ (fl : Floats) where
  pub record Throttle : Type 0 where
    pub cooldown : ℤ
    pub capacity : fl.Float
    pub per_sec : fl.Float
    pub tokens : fl.Float
    pub last : ℕ
    pub seen : Dict Text ℕ
    pub allowed : ℕ
    pub throttled : ℕ

  abbrev pub nought : fl.Float
  nought = fl.of_int (pos 0)

  abbrev pub unit : fl.Float
  unit = fl.of_int (pos 1)

  -- `if x > top { x = top }`.
  abbrev pub at_most : fl.Float → fl.Float → fl.Float
  at_most top x = if fl.less top x then top else x

  abbrev pub budget_of : ℤ → ℤ
  budget_of budget = if ltb_ℤ budget (pos 1) then pos 1 else budget

  -- `NewThrottle`.
  unfoldable pub new_throttle : ℤ → ℤ → Throttle
  new_throttle cooldown budget = record {
    cooldown = cooldown;
    capacity = fl.of_int (budget_of budget);
    per_sec = fl.div (fl.of_int (budget_of budget)) (fl.of_int (pos 3600));
    tokens = fl.of_int (budget_of budget);
    last = 0;
    seen = [];
    allowed = 0;
    throttled = 0;
  }

  -- The tokens after `elapsed` seconds.
  unfoldable pub refilled : Throttle → fl.Float → fl.Float
  refilled t elapsed =
      if fl.less nought elapsed
      then at_most t.capacity (fl.add t.tokens (fl.mul elapsed t.per_sec))
      else t.tokens

  -- `refill`.
  unfoldable pub refill : ℕ → Throttle → Throttle
  unfolding refilled
  refill now t =
      if eqb t.last 0
      then record t { last = now }
      else record t { tokens = refilled t (fl.seconds (sub_ℕ now t.last)); last = now }

  -- Whether a stamp still blocks: `now.Sub(stamped) < t.cooldown`.
  abbrev pub still_blocks : ℤ → ℕ → ℕ → Bool
  still_blocks cooldown now stamped = ltb_ℤ (sub_ℕ now stamped) cooldown

  -- `prune`.
  unfoldable pub prune : ℕ → Throttle → Throttle
  unfolding keep
  prune now t = record t { seen = keep (λ e. still_blocks t.cooldown now e.1) t.seen }

  abbrev pub is_blocked : ℤ → ℕ → Option ℕ → Bool
  is_blocked cooldown now none = false
  is_blocked cooldown now (some stamped) = still_blocks cooldown now stamped

  abbrev pub refuse : Throttle → Throttle × Bool
  refuse t = (record t { throttled = (t.throttled + 1) % 2 ^ 64 }, false)

  -- "Stamp only on success."
  unfoldable pub grant : Text → ℕ → Throttle → Throttle × Bool
  unfolding put
  grant key now t = (
    record t {
      tokens = fl.sub t.tokens unit;
      seen = put key now t.seen;
      allowed = (t.allowed + 1) % 2 ^ 64;
    },
    true,
  )

  -- The part of `Allow` behind `refill` and `prune`.
  unfoldable pub decide_call : Text → ℕ → Throttle → Throttle × Bool
  unfolding find grant
  decide_call key now t =
      if is_blocked t.cooldown now (find key t.seen)
      then refuse t
      else if fl.less t.tokens unit
      then refuse t
      else grant key now t

  -- To prove a property of a decision: of a refusal, and of a grant under its two guards.
  pub decide_call-cases :
      (P : Throttle × Bool → Type 0) (key : Text) (now : ℕ) (t : Throttle)
      → P (refuse t)
      → (is_blocked t.cooldown now (find key t.seen) ≡ false
          → fl.less t.tokens unit ≡ false
          → P (grant key now t))
      → P (decide_call key now t)
  unfolding decide_call
  decide_call-cases P key now t h g =
      let few = fl.less t.tokens unit in
      if_elim P (is_blocked t.cooldown now (find key t.seen)) (refuse t)
        (if few then refuse t else grant key now t) (λ blocked. h)
        λ free. if_elim P few (refuse t) (grant key now t) (λ e. h) (λ enough. g free enough)

  -- `Allow`.
  unfoldable pub allow : Text → ℕ → Throttle → Throttle × Bool
  unfolding decide_call prune refill
  allow key now t = decide_call key now (prune now (refill now t))

  -- `Remaining`.
  unfoldable pub remaining : ℕ → Throttle → fl.Float
  remaining now t =
      if eqb t.last 0
      then t.capacity
      else let r =
          at_most t.capacity (fl.add t.tokens (fl.mul (fl.seconds (sub_ℕ now t.last)) t.per_sec)) in
        if fl.less r nought then nought else r
