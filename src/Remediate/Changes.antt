-- ===== src/Remediate/Changes.antt =====
-- The preview of a rollback: revisions, images, and a count of what else differs.
use kubeagent.Prelude.{
  ℕ, ◌+◌, Bool, not, ◌||◌, List, [], ◌∷◌, ◌++◌, Option, none, some, Text, codes, eqb, ltb, length,
  text_eq, if◌then◌else◌,
}
use kubeagent.Prelude.Atoi.{itoa}
use kubeagent.Prelude.Decimal.{decimal}
use kubeagent.Prelude.Dict.{Dict, find, put, text_eq_inst}
use kubeagent.Remediate.{Kube, Change, Container, Template, ReplicaSet}
use kubeagent.Remediate.Revisions.{equal_map, without_hash, equal_container, revision_of}

abbrev one_unless : Bool → ℕ
one_unless b = if b then 0 else 1

-- The count-only line for what else differs.
abbrev pub count_change : ℕ → List Change
unfolding decimal
count_change n =
    if ltb 0 n
    then record {
      field =
          decimal n
          ++ (codes " other template field"
              ++ ((if ltb 1 n then codes "s" else []) ++ codes " changed"));
      from = [];
      to = [];
    }
      ∷ []
    else []

module _ {kube : Kube} where
  -- `ac.Spec.Containers[i].Image = ""`.
  abbrev pub imageless : Container kube → Container kube
  imageless c = record c { image = [] }

  unfoldable pub differing : List (Container kube) → List (Container kube) → ℕ
  unfolding equal_container
  differing [] bs = 0
  differing (a ∷ as') [] = 0
  differing (a ∷ as') (b ∷ bs) =
      one_unless (equal_container (imageless a) (imageless b)) + differing as' bs

  unfoldable pub differing_init : List (Container kube) → List (Container kube) → ℕ
  unfolding equal_container
  differing_init [] bs = 0
  differing_init (a ∷ as') [] = 0
  differing_init (a ∷ as') (b ∷ bs) = one_unless (equal_container a b) + differing_init as' bs

  -- `otherChangeCount`.
  unfoldable pub other_change_count : Template kube → Template kube → ℕ
  unfolding equal_map without_hash differing differing_init length
  other_change_count a b =
      one_unless (equal_map (without_hash a.labels) (without_hash b.labels))
      + one_unless (equal_map a.annotations b.annotations)
      + (if not (eqb (length a.containers) (length b.containers))
            || not (eqb (length a.init_containers) (length b.init_containers))
          then 1
          else differing a.containers b.containers
            + differing_init a.init_containers b.init_containers)
      + one_unless (kube.equal_spec a.spec b.spec)

  -- `targetImages`, by container name.
  unfoldable pub images : List (Container kube) → Dict Text Text → Dict Text Text
  unfolding put
  images [] m = m
  images (c ∷ cs) m = images cs (put c.name c.image m)

  -- The change of one container's image, if the target has the container with another one.
  abbrev pub image_change : Container kube → Option Text → List Change
  image_change c none = []
  image_change c (some to) =
      if text_eq to c.image
      then []
      else record { field = codes "image (" ++ (c.name ++ codes ")"); from = c.image; to = to } ∷ []

  unfoldable pub image_changes : Dict Text Text → List (Container kube) → List Change
  unfolding find text_eq
  image_changes m [] = []
  image_changes m (c ∷ cs) = image_change c (find c.name m) ++ image_changes m cs

  -- `templateChanges`.
  unfoldable pub template_changes : ReplicaSet kube → ReplicaSet kube → List Change
  unfolding revision_of itoa images image_changes count_change other_change_count
  template_changes cur target =
      record {
        field = codes "revision";
        from = itoa (revision_of cur);
        to = itoa (revision_of target);
      }
      ∷ (image_changes (images target.template.containers []) cur.template.containers
          ++ count_change (other_change_count cur.template target.template))
