-- ===== src/Rolloutwait/Tests.antt =====
-- A rollout that settles after 25 seconds, and one that does not settle in time.
use kubeagent.Prelude.{
  ℕ, ◌+◌, ◌≡◌, ◌⊎◌, ◌↔◌, refl, true, false, [], ◌∷◌, ◌++◌, none, some, Text, codes, leb, arith,
  if◌then◌else◌,
}
use kubeagent.Prelude.Int.{ℤ, pos, pos_part, ltb_ℤ, ◌+ℤ◌, +ℤ_parts}
use kubeagent.Prelude.Atoi.{itoa}
use kubeagent.Prelude.Reply.{got, failed}
use kubeagent.Rolloutwait.Target.{deployment, stateful_set, Target, parse_target}
use kubeagent.Rolloutwait.Poll.{World, Deployment, observe, wait}
use kubeagent.Rolloutwait.Parse.{Accepts, parse_target-Accepts}
use kubeagent.Rolloutwait.Ends.{Ending, wait-Ending}
use kubeagent.Rolloutwait.Paced.{IsClock, Within, wait-Within}

abbrev rolling : ℤ → Deployment
rolling updated = record {
  generation = pos 2;
  replicas = some (pos 3);
  observed_generation = pos 2;
  updated_replicas = updated;
  status_replicas = pos 3;
  available_replicas = pos 3;
}

-- The state is the time; there is nothing but one Deployment.
abbrev site : World
site = record {
  State = ℕ;
  now = λ w. pos w;
  sleep = λ d w. w + pos_part d;
  cancelled = λ w. none;
  get_deployment = λ ns name w. (got (rolling (if leb 25 w then pos 3 else pos 1)), w);
  get_stateful_set = λ ns name w. (failed (codes "not found"), w);
  get_daemon_set = λ ns name w. (failed (codes "not found"), w);
  show_duration = itoa;
  quote = λ s. b'"' ∷ (s ++ b'"' ∷ []);
}

abbrev api : Target
api = record { kind = deployment; namespace = codes "shop"; name = codes "api" }

outcomes :
    (wait site api (pos 60) (pos 10) 0
      ≡ some (got (record { settled = true; detail = codes "3/3 updated, 3 available" }), 4))
    × (wait site api (pos 20) (pos 10) 0
        ≡ some (got (record { settled = false; detail = codes "1/3 updated, 3 available" }), 3))
    × (wait site (record api { kind = stateful_set }) (pos 20) (pos 10) 0
        ≡ some (failed (codes "not found"), 1))
    × (wait site api (pos 20) (pos 0) 0
        ≡ some (failed (codes "poll interval must be positive, got 0"), 0))
unfolding wait itoa ◌+ℤ◌
outcomes = (refl, refl, refl, refl)

targets :
    (parse_target site.quote (codes "Deploy/api") (codes "shop") ≡ got api)
    × (parse_target site.quote (codes "deploy/api") []
        ≡ failed (codes "--wait-for needs a namespace (pass -n)"))
    × (parse_target site.quote (codes "pod/api") (codes "shop")
        ≡ failed (
            codes
              "--wait-for kind \"pod\" is not supported (want deployment, statefulset or daemonset)"))
    × (parse_target site.quote (codes "deploy/api/x") (codes "shop")
        ≡ failed (codes "--wait-for \"deploy/api/x\" is not kind/name (e.g. deployment/api)"))
unfolding parse_target
targets = (refl, refl, refl, refl)

site-IsClock : IsClock site api
unfolding observe ◌+ℤ◌
site-IsClock = record { slept = λ d w. omega (arith, +ℤ_parts (pos w) d); read = λ w. omega arith }

wait-Within_example : Within 7 (wait site api (pos 60) (pos 10) 0)
wait-Within_example = wait-Within site api (pos 60) (pos 10) 6 0 site-IsClock (omega arith)

wait-Ending_example :
    ((ltb_ℤ (pos 0) (pos 10) ≡ true)
      × Ending site api (pos 0 +ℤ pos 60) (pos 10) 0 (wait site api (pos 60) (pos 10) 0))
    ⊎ ((ltb_ℤ (pos 0) (pos 10) ≡ false)
        × (e : Text) × (wait site api (pos 60) (pos 10) 0 ≡ some (failed e, 0)))
wait-Ending_example = wait-Ending site api (pos 60) (pos 10) 0

parse_target-Accepts_example :
    (parse_target site.quote (codes "Deploy/api") (codes "shop") ≡ got api)
    ↔ Accepts (codes "Deploy/api") (codes "shop") api
parse_target-Accepts_example =
    parse_target-Accepts site.quote (codes "Deploy/api") (codes "shop") api
