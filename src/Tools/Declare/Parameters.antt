-- ===== src/Tools/Declare/Parameters.antt =====
-- What a tool's caller may pass: every parameter but the one that the host injects.
use uenv_design.Base.{
  String, false, ◌≡◌, refl, ap, ◌∙◌, List, [], ◌∷◌, ◌==◌, arith, contains, string_eq,
}
use uenv_design.Base.{Bool-cases, inl, inr, if◌then◌else◌}
use uenv_design.Base.Dict
use uenv_design.Base.Dict.{Dict}
use uenv_design.Result.{ok}
use uenv_design.Result.Holds.{Holds, Holds-return, Holds-require, Holds-bind}
use uenv_design.Modeling.{Annotation, Datum}
use uenv_design.Tools.Declare.{Parameter, collect, is_named, is_keyword_only, hint_of}

-- The parameters but the context, in their order.
abbrev pub public_names : List Parameter → List String
public_names [] = []
public_names (p ∷ ps) =
    let rest = public_names ps in if p.name == "context" then rest else p.name ∷ rest

collect-Holds :
    (hints : Dict String Annotation) (ps : List Parameter)
    → Holds (λ c. Dict.keys c.0 ≡ public_names ps) (collect hints ps)
unfolding collect
collect-Holds hints [] = Holds-return ([], []) refl
collect-Holds hints (p ∷ ps) = elim (Bool-cases (p.name == "context")) [
  | inl e ↦ rw (e, collect) (Holds-require (is_keyword_only p.kind) _ _ λ _. collect-Holds hints ps)
  | inr e ↦
      rw (e, collect)
        (Holds-require (is_named p.kind) _ _ λ _.
          Holds-bind (hint_of (Dict.lookup p.name hints)) _ λ a _.
            Holds-bind (collect hints ps) _ λ more found.
              Holds-return _ (ap (λ ks. p.name ∷ ks) ((collect-Holds hints ps).at more found)))
]

no_context : (ps : List Parameter) → contains (public_names ps) "context" ≡ false
no_context [] = refl
no_context (p ∷ ps) = ground (arith, no_context ps)

-- The fields of the arguments' model are the parameters of the function but `context`, in their order, so
-- no caller can pass the context that the host injects.
pub collect-keys :
    (hints : Dict String Annotation) (ps : List Parameter) (annotations : Dict String Annotation)
    (defaults : Dict String Datum)
    → collect hints ps ≡ ok (annotations, defaults)
    → (Dict.keys annotations ≡ public_names ps)
      × (contains (Dict.keys annotations) "context" ≡ false)
collect-keys hints ps annotations defaults e =
    let same = (collect-Holds hints ps).at (annotations, defaults) e in
    (same, ap (λ ks. contains ks "context") same ∙ no_context ps)
