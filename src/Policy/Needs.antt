-- ===== src/Policy/Needs.antt =====
-- When a rule is not evaluated: exactly if a kind that it has to read was unreadable.
use kubeagent.Prelude.{List, [], ◌∷◌, Text, codes}
use kubeagent.Policy.{Relation, no_relation, has_pdb, has_hpa, unknown_relation}

-- The kinds that a rule reads: its own, the namespaces for their labels, and its relation's.
pub support_of : Relation → List Text
support_of no_relation = []
support_of has_pdb = codes "PodDisruptionBudget" ∷ []
support_of has_hpa = codes "HorizontalPodAutoscaler" ∷ []
support_of unknown_relation = []

pub needed : Text → List (Text × Text) → Relation → List Text
unfolding support_of
needed kind [] relation = kind ∷ support_of relation
needed kind (l ∷ ls) relation = kind ∷ codes "Namespace" ∷ support_of relation
