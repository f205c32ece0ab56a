-- ===== src/Rolloutwait/Parse.antt =====
-- Which --wait-for values are accepted.
use mathlib.Core.Path.{subst}
use mathlib.Core.List.{append-nil}
use kubeagent.Prelude.{
  ◌≡◌, ◌≢◌, ◌↔◌, refl, sym, ◌∙◌, ap, Bool, false, List, [], ◌∷◌, ◌++◌, Option, none, some, Text,
  any, eqb, arith, All, Bool-cases, eqb_iff, inl, inr, text_eq,
}
use kubeagent.Prelude.Reply.{got}
use kubeagent.Rolloutwait.Target.{
  Kind, Target, split, to_lower, kind_of, target_of, of_parts, parse_target,
}

abbrev pub has_slash : Text → Bool
has_slash s = any (λ c. eqb c b'/') s

-- The parts behind the first, each after its slash.
abbrev joined : List Text → Text
joined [] = []
joined (p ∷ ps) = b'/' ∷ (p ++ joined ps)

split-joined : (s : Text) → s ≡ (split s).first ++ joined (split s).rest
unfolding split
split-joined [] = refl
split-joined (c ∷ s) = elim (Bool-cases (eqb c b'/')) [
  | inl e ↦
      let slash : c ≡ b'/' = ground (arith, eqb_iff c b'/') in
      rw e (rw slash (ap (λ r. b'/' ∷ r) (split-joined s)))
  | inr e ↦ rw e (ap (λ r. c ∷ r) (split-joined s))
]

IsPlain : Text → Type 0
IsPlain s = has_slash s ≡ false

split-IsPlain : (s : Text) → IsPlain (split s).first × All IsPlain (split s).rest
unfolding split IsPlain
split-IsPlain [] = (refl, tt)
split-IsPlain (c ∷ s) =
    let (h, hs) = split-IsPlain s in
    elim (Bool-cases (eqb c b'/')) [ inl e ↦ rw e (refl, (h, hs)) | inr e ↦ rw e (rw e h, hs) ]

split_plain : (s : Text) → has_slash s ≡ false → split s ≡ record { first = s; rest = [] }
unfolding split
split_plain [] h = refl
split_plain (c ∷ s) h =
    let e : eqb c b'/' ≡ false = ground arith in
    let g : has_slash s ≡ false = ground arith in rw e (rw (split_plain s g) refl)

split_word :
    (w s : Text)
    → has_slash w ≡ false
    → split (w ++ b'/' ∷ s) ≡ record { first = w; rest = (split s).first ∷ (split s).rest }
unfolding split
split_word [] s h = refl
split_word (c ∷ w) s h =
    let e : eqb c b'/' ≡ false = ground arith in
    let g : has_slash w ≡ false = ground arith in rw e (rw (split_word w s g) refl)

-- The value names a supported kind and a workload, separated by its one slash.
pub record Accepts (s namespace : Text) (t : Target) : Type 0 where
  pub word : Text
  pub spelled : s ≡ word ++ b'/' ∷ t.name
  pub one_slash : (has_slash word ≡ false) × (has_slash t.name ≡ false)
  pub known : kind_of (to_lower word) ≡ some t.kind
  pub named : t.name ≢ []
  pub in_namespace : t.namespace ≡ namespace
  pub given : namespace ≢ []

-- A call that answers with this target was made with these parts.
TwoParts : Text → Text → List Text → Target → Type 0
TwoParts namespace first rest t =
    (rest ≡ t.name ∷ [])
    × (kind_of (to_lower first) ≡ some t.kind)
    × (t.name ≢ [])
    × (t.namespace ≡ namespace)

module _ (quote : Text → Text) where
  target_of-got :
      (k : Option Kind) (word namespace name : Text) (t : Target)
      → target_of quote k word namespace name ≡ got t
      → (k ≡ some t.kind) × (t.namespace ≡ namespace) × (t.name ≡ name)
  target_of-got none word namespace name t h = cc
  target_of-got (some kind) word namespace name t h = (cc, cc, cc)

  of_parts-got :
      (s namespace first : Text) (rest : List Text) (t : Target)
      → of_parts quote s namespace first rest ≡ got t
      → TwoParts namespace first rest t
  unfolding of_parts TwoParts
  of_parts-got s namespace [] rest t h = cc
  of_parts-got s namespace (c ∷ k) [] t h = cc
  of_parts-got s namespace (c ∷ k) ([] ∷ ps) t h = cc
  of_parts-got s namespace (c ∷ k) ((d ∷ name) ∷ p ∷ ps) t h = cc
  of_parts-got s namespace (c ∷ k) ((d ∷ name) ∷ []) t h =
      let (known, ns, same) =
        target_of-got (kind_of (to_lower (c ∷ k))) (c ∷ k) namespace (d ∷ name) t h in
      (rw same refl, known, rw same (λ e. cc), ns)

  accepted-Accepts :
      (s namespace first : Text) (rest : List Text) (t : Target)
      → namespace ≢ []
      → s ≡ first ++ joined rest
      → IsPlain first × All IsPlain rest
      → TwoParts namespace first rest t
      → Accepts s namespace t
  unfolding TwoParts IsPlain
  accepted-Accepts s namespace first rest t g e (p, ps) (two, known, named, ns) = record {
    word = first;
    spelled =
        e ∙ ap (λ ps'. first ++ joined ps') two ∙ ap (λ x. first ++ b'/' ∷ x) (append-nil t.name);
    one_slash = (p, (subst (λ ps'. All IsPlain ps') two ps).0);
    known = known;
    named = named;
    in_namespace = ns;
    given = g;
  }

  parse_target-only :
      (s namespace : Text) (t : Target)
      → parse_target quote s namespace ≡ got t
      → Accepts s namespace t
  unfolding parse_target
  parse_target-only s [] t h = cc
  parse_target-only s (c ∷ namespace) t h =
      accepted-Accepts s (c ∷ namespace) (split s).first (split s).rest t (λ e. cc) (split-joined s)
        (split-IsPlain s) (of_parts-got s (c ∷ namespace) (split s).first (split s).rest t h)

  of_parts-two :
      (s namespace word name : Text) (k : Kind)
      → kind_of (to_lower word) ≡ some k
      → name ≢ []
      → of_parts quote s namespace word (name ∷ [])
        ≡ got (record { kind = k; namespace = namespace; name = name })
  unfolding of_parts kind_of to_lower text_eq
  of_parts-two s namespace [] name k h g = cc
  of_parts-two s namespace (c ∷ w) [] k h g = absurd (g refl)
  of_parts-two s namespace (c ∷ w) (d ∷ name) k h g = rw h refl

  parse_target-if :
      (s namespace : Text) (t : Target)
      → Accepts s namespace t
      → parse_target quote s namespace ≡ got t
  unfolding parse_target
  parse_target-if s [] t a = absurd (a.given refl)
  parse_target-if s (c ∷ namespace) t a = rw a.spelled (
      rw (split_word a.word t.name a.one_slash.0) (
        rw (split_plain t.name a.one_slash.1) (
          of_parts-two (a.word ++ b'/' ∷ t.name) (c ∷ namespace) a.word t.name t.kind a.known
            a.named
          ∙ ap (λ x. got (record { kind = t.kind; namespace = x; name = t.name }))
              (sym a.in_namespace))))

  -- ParseTarget accepts a value and gives this target if and only if a namespace is given and the value
  -- is a word for the target's kind, in letters of either case, one slash, and the target's name, which
  -- is not empty; every other value is an error.
  pub parse_target-Accepts :
      (s namespace : Text) (t : Target)
      → (parse_target quote s namespace ≡ got t) ↔ Accepts s namespace t
  parse_target-Accepts s namespace t =
      (parse_target-only s namespace t, parse_target-if s namespace t)
