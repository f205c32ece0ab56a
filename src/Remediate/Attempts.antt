-- ===== src/Remediate/Attempts.antt =====
-- One guarded write with its retries: what the API server answers, what is sent, what is reported.
use kubeagent.Prelude.{
  Bool, true, false, List, [], ◌∷◌, ◌++◌, Option, none, some, Text, codes, if◌then◌else◌,
}
use kubeagent.Prelude.Reply.{Reply, got, failed}
use kubeagent.Remediate.{Result}

-- What becomes of an update. `saved` is an answer without an error. `conflict` is the HTTP status 409, which the API
-- documents as an update that was refused. Any other error leaves open whether the server had stored the object, as
-- when the answer is lost to a timeout: `errored` says which, and the program does not see it.
pub data Saved : Type 0 where
  saved : Saved
  conflict : Text → Saved
  errored : Bool → Text → Saved

-- One run of the retried closure: its result, and the object it sent with the answer to that.
pub record Attempt (O : Type 0) : Type 0 where
  pub result : Result
  pub sent : Option (O × Saved)

abbrev pub blank : Result
blank = record {
  applied = false;
  refused = false;
  preflight_denied = false;
  detail = [];
  err = none;
}

abbrev pub with_err : Text → Text → Result
with_err what e = record blank { err = some (what ++ (codes ": " ++ e)) }

abbrev pub refusing : Text → Result
refusing detail = record blank { detail = detail; refused = true }

abbrev pub denying : Text → Result
denying reason = record blank {
  detail = reason ++ codes "; no write attempted";
  preflight_denied = true;
}

abbrev pub success : Text → Result
success detail = record blank { applied = true; detail = detail }

module _ {O : Type 0} where
  -- A run that makes no write.
  abbrev pub unsent : Result → Attempt O
  unsent r = record { result = r; sent = none }

  -- The update, once every guard has passed.
  unfoldable pub save : O → Text → Saved → Attempt O
  save o detail saved = record { result = success detail; sent = some (o, saved) }
  save o detail (conflict e) = record { result = blank; sent = some (o, conflict e) }
  save o detail (errored b e) = record { result = blank; sent = some (o, errored b e) }

  -- The preflight's answer: allowed, or the reason why not.
  unfoldable pub after_review : Reply (Option Text) → Attempt O → Attempt O
  after_review (failed e) write = unsent (with_err (codes "permission preflight failed") e)
  after_review (got (some reason)) write = unsent (denying reason)
  after_review (got none) write = write

  abbrev pub log_of : Attempt O → List (O × Saved)
  log_of a = elim (a.sent) [ none ↦ [] | some w ↦ w ∷ [] ]

  -- What the closure's own error makes of the result: `res.Err = "update …"`.
  unfoldable pub closed : Text → Result → Option (O × Saved) → Result
  closed what r none = r
  closed what r (some (o, saved)) = r
  closed what r (some (o, conflict e)) = record r { err = some (what ++ (codes ": " ++ e)) }
  closed what r (some (o, errored b e)) = record r { err = some (what ++ (codes ": " ++ e)) }

  -- Whether the run ended in a conflict, which is all that is retried.
  abbrev pub is_conflict : Option (O × Saved) → Bool
  is_conflict none = false
  is_conflict (some (o, saved)) = false
  is_conflict (some (o, conflict e)) = true
  is_conflict (some (o, errored b e)) = false

module _ {T O : Type 0} where
  -- `retry.RetryOnConflict` as documented: the closure runs once, and again on a conflict for as long
  -- as there are tries left. Gives the final result and everything that was sent.
  unfoldable pub retry_on_conflict : Text → (T → Attempt O) → T → List T → Result × List (O × Saved)
  unfolding closed
  retry_on_conflict what run t [] = (closed what (run t).result (run t).sent, log_of (run t))
  retry_on_conflict what run t (t' ∷ ts) =
      let rest = retry_on_conflict what run t' ts in
      if is_conflict (run t).sent
      then (rest.0, log_of (run t) ++ rest.1)
      else (closed what (run t).result (run t).sent, log_of (run t))
