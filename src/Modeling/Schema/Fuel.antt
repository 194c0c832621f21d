-- ===== src/Modeling/Schema/Fuel.antt =====
-- modeling.py: generating a schema ends within as many nested calls as the classes allow.
use uenv_design.Base.{
  ◌==◌, ◌≤◌, ◌*◌, All, subst, ℕ, zero, suc, ◌+◌, ◌<◌, String, true, false, ◌≡◌, ◌≢◌, refl,
}
use uenv_design.Base.{some, List, [], ◌∷◌, ◌++◌, arith, length, length-append, all, contains}
use uenv_design.Base.{string_eq, Bool-cases, Option-cases, inl, inr}
use uenv_design.Base.Dict
use uenv_design.Base.Dict.{Dict}
use uenv_design.Base.Distinct.{Distinct, Distinct-append, length-Distinct_le}
use uenv_design.Result.{Error, Result, ok, err, runtime_error}
use uenv_design.Result.{◌>>=◌}
use uenv_design.Modeling.{Datum, Annotation}
use uenv_design.Modeling.{list_of, mapping, optional, model, annotated}
use uenv_design.Modeling.{Classes, ModelClass}
use uenv_design.Modeling.Schema.{
  JsonSchema, annotation_schema, properties_of, model_schema, part_schema, Part, of_model,
  of_annotation,
}
use native.Mathlib.Nat.{mul-le-mul_left}
use mathlib.Core.Option.{some-injective}

abbrev pub exhausted : Error
exhausted = runtime_error "RecursionError"

bind-ne {ℓ κ} :
    {A : Type ℓ} {B : Type κ} (m : Result A) (f : A → Result B)
    → m ≢ err exhausted
    → ((a : A) → f a ≢ err exhausted)
    → (m >>= f) ≢ err exhausted
bind-ne (ok a) f h k = k a
bind-ne (err e) f h k = λ same. h (ground arith)

-- The calls of `_annotation_schema` that an annotation takes, nested models apart.
unfoldable pub height : Annotation → ℕ
height (list_of a) = suc (height a)
height (mapping b a) = suc (height a)
height (optional a) = suc (height a)
height (annotated a fields) = height a
height _ = 1

-- No annotation of a class takes more.
abbrev pub LowHints : ℕ → Dict String Annotation → Type 0
LowHints h = All (λ (name, a). height a ≤ h)

abbrev pub Low : ℕ → Classes → Type 0
Low h = All (λ (name, c). LowHints h c.hints)

module _ (annotation_part : Annotation → Result JsonSchema)
    (model_part : String → Result JsonSchema)
    (ends : (name : String) → model_part name ≢ err exhausted) where
  annotation_schema-ne :
      (a : Annotation)
      → ((b : Annotation) → height b < height a → annotation_part b ≢ err exhausted)
      → annotation_schema annotation_part model_part a ≢ err exhausted
  unfolding annotation_schema height
  annotation_schema-ne (list_of a) part = bind-ne _ _ (part a (omega arith)) (λ s h. cc)
  annotation_schema-ne (mapping true a) part = bind-ne _ _ (part a (omega arith)) (λ s h. cc)
  annotation_schema-ne (mapping false a) part = λ h. ground arith
  annotation_schema-ne (optional a) part = bind-ne _ _ (part a (omega arith)) (λ s h. cc)
  annotation_schema-ne (annotated a fields) part =
      bind-ne _ _ (annotation_schema-ne a part) (λ s h. cc)
  annotation_schema-ne (model name) part = ends name
  annotation_schema-ne _ part = λ h. ground arith

module _ (annotation_part : Annotation → Result JsonSchema) (h : ℕ)
    (ends : (a : Annotation) → height a ≤ h → annotation_part a ≢ err exhausted) where
  properties_of-ne :
      (hints : Dict String Annotation) (defaults : Dict String Datum)
      → LowHints h hints
      → properties_of annotation_part hints defaults ≢ err exhausted
  unfolding properties_of
  properties_of-ne [] defaults low = λ k. cc
  properties_of-ne ((name, a) ∷ hints) defaults (low, lower) =
      bind-ne _ _ (ends a low)
        λ s. bind-ne _ _ (properties_of-ne hints defaults lower) (λ rest k. cc)

height_pos : (a : Annotation) → 1 ≤ height a
unfolding height
height_pos (list_of a) = omega arith
height_pos (mapping b a) = omega arith
height_pos (optional a) = omega arith
height_pos (annotated a fields) = height_pos a
height_pos _ = omega arith

lookup-Low :
    (h : ℕ) (classes : Classes) (name : String) (c : ModelClass)
    → Low h classes
    → Dict.lookup name classes ≡ some c
    → LowHints h c.hints
lookup-Low h [] name c low e = cc
lookup-Low h ((k, d) ∷ classes) name c (low, lower) e = elim (Bool-cases (name == k)) [
  | inl same ↦ subst (λ m. LowHints h m.hints) (some-injective _ _ (rw same at e)) low
  | inr other ↦ lookup-Low h classes name c lower (rw other at e)
]

contains-lookup :
    (classes : Classes) (name : String) (c : ModelClass)
    → Dict.lookup name classes ≡ some c
    → contains (Dict.keys classes) name ≡ true
contains-lookup [] name c h = cc
contains-lookup ((k, d) ∷ classes) name c h = ground (arith, contains-lookup classes name c)

all-append_one :
    (ys xs : List String) (x : String)
    → all (contains ys) xs ≡ true
    → contains ys x ≡ true
    → all (contains ys) (xs ++ x ∷ []) ≡ true
all-append_one ys [] x h k = rw k refl
all-append_one ys (z ∷ xs) x h k = ground (arith, all-append_one ys xs x)

-- How many calls are enough for a part, beneath these ancestors.
abbrev needed : ℕ → Classes → Part → ℕ
needed h classes (of_model name) = suc h * length (Dict.keys classes)
needed h classes (of_annotation a) = suc h * length (Dict.keys classes) + height a

part_schema-ne :
    (h depth : ℕ) (classes : Classes) (ancestors : List String) (part : Part)
    → Low h classes
    → Distinct ancestors
    → all (contains (Dict.keys classes)) ancestors ≡ true
    → needed h classes part < depth + suc h * length ancestors
    → part_schema depth classes ancestors part ≢ err exhausted
unfolding part_schema
part_schema-ne h zero classes ancestors (of_model name) low d known enough =
    absurd (omega (arith, mul-le-mul_left (suc h) (length-Distinct_le ancestors _ d known)))
part_schema-ne h zero classes ancestors (of_annotation a) low d known enough =
    absurd (omega (arith, mul-le-mul_left (suc h) (length-Distinct_le ancestors _ d known)))
part_schema-ne h (suc depth) classes ancestors (of_annotation a) low d known enough =
    annotation_schema-ne _ _
      (λ n.
        part_schema-ne h depth classes ancestors (of_model n) low d known
          (omega (arith, enough, height_pos a)))
      a
      (λ b lower.
        part_schema-ne h depth classes ancestors (of_annotation b) low d known
          (omega (arith, enough, lower)))
part_schema-ne h (suc depth) classes ancestors (of_model name) low d known enough =
    elim (Bool-cases (contains ancestors name)) [
      | inl old ↦ rw old (λ k. ground arith)
      | inr new ↦ rw new (elim (Option-cases (Dict.lookup name classes)) [
        | inl missing ↦ rw missing (λ k. ground arith)
        | inr (c, there) ↦ rw there (
            bind-ne _ _
              (properties_of-ne _ h
                (λ a low_a.
                  part_schema-ne h depth classes (ancestors ++ name ∷ []) (of_annotation a) low
                    (Distinct-append ancestors name d new)
                    (all-append_one (Dict.keys classes) ancestors name known
                      (contains-lookup classes name c there))
                    (rw (length-append ancestors (name ∷ [])) (omega (arith, enough, low_a))))
                c.hints c.defaults (lookup-Low h classes name c low there))
              (λ parts k. ground arith))
      ])
    ]

-- Where no annotation of a class takes more than `h` calls of `_annotation_schema`, and the limit on nested
-- calls of `_model_schema` and `_annotation_schema` is above `h + 1` times the number of classes,
-- generating the schema of any class never ends in the `RecursionError`: a cycle of nested models is
-- refused before.
pub model_schema-total :
    (h depth : ℕ) (classes : Classes) (name : String)
    → Low h classes
    → suc h * length (Dict.keys classes) < depth
    → model_schema depth classes [] name ≢ err exhausted
unfolding model_schema
model_schema-total h depth classes name low enough =
    part_schema-ne h depth classes [] (of_model name) low tt refl (omega (arith, enough))
