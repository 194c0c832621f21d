-- ===== src/Datasets/Annotations.antt =====
-- The annotations that the models of the packages share.
use uenv_design.Base.{ℕ, String, Option, none, some, List, [], ◌∷◌}
use uenv_design.Value.{ℤ, pos}
use uenv_design.Modeling.{
  Annotation, text_type, int_type, literal, external, annotated, Items, nil, cons, str,
}

abbrev described : Annotation → String → Option ℤ → Option ℕ → Annotation
described a description minimum min_length =
    annotated a
      (record { description = description; minimum = minimum; min_length = min_length } ∷ [])

-- `Annotated[a, Field(description)]`
abbrev pub plain : Annotation → String → Annotation
plain a description = described a description none none

-- `Annotated[str, Field(description, min_length=1)]`
abbrev pub nonempty : String → Annotation
nonempty description = described text_type description none (some 1)

-- `Annotated[int, Field(description, minimum=n)]`
abbrev pub at_least : ℕ → String → Annotation
at_least n description = described int_type description (some (pos n)) none

abbrev literals : List String → Items
literals [] = nil
literals (s ∷ ss) = cons (str s) (literals ss)

-- `Annotated[Literal[...], Field(description)]`
abbrev pub one_of : List String → String → Annotation
one_of choices = plain (literal (literals choices))

-- `ArtifactRef` and `EvaluationPlan`, which the contract defines.
abbrev pub artifact_ref : Annotation
artifact_ref = external "urn:uenv:vnext:contracts#/$defs/ArtifactRef"

abbrev pub evaluation_plan : Annotation
evaluation_plan = external "uenv://schemas/vnext/EvaluationPlan"
