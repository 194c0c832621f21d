-- ===== src/Tests/DeclareRuns.antt =====
-- A function of a path with a default limit, which wants the context.
use uenv_design.Base.{false, none, some, ◌≡◌, refl, List, [], ◌∷◌, contains, string_eq, String}
use uenv_design.Base.Dict
use uenv_design.Base.Dict.{Dict}
use uenv_design.Result.{ok, err, type_error}
use uenv_design.Value.{pos}
use uenv_design.Modeling.{Annotation, text_type, int_type, int}
use uenv_design.Tools.Declare.{Parameter, positional_or_keyword, keyword_only, collect}
use uenv_design.Tools.Declare.Parameters.{public_names, collect-keys}

abbrev parameters : List Parameter
parameters =
    record { name = "path"; kind = positional_or_keyword; default_value = none }
    ∷ record { name = "limit"; kind = positional_or_keyword; default_value = some (int (pos 9)) }
    ∷ record { name = "context"; kind = keyword_only; default_value = none }
    ∷ []

abbrev hints : Dict String Annotation
hints = ("path", text_type) ∷ ("limit", int_type) ∷ []

collected : collect hints parameters ≡ ok (hints, ("limit", int (pos 9)) ∷ [])
unfolding collect string_eq
collected = refl

positional_context :
    collect []
      (record { name = "context"; kind = positional_or_keyword; default_value = none } ∷ [])
    ≡ err (type_error "Tool context must be keyword-only")
unfolding collect string_eq
positional_context = refl

collect-keys_example :
    (Dict.keys hints ≡ public_names parameters) × (contains (Dict.keys hints) "context" ≡ false)
collect-keys_example = collect-keys hints parameters hints (("limit", int (pos 9)) ∷ []) collected
