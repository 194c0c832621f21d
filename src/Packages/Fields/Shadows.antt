-- ===== src/Packages/Fields/Shadows.antt =====
-- No field of a checked schema has the name of a control field, at whatever depth.
use uenv_design.Base.{
  ℕ, zero, suc, String, ◌<>◌, ◌≡◌, sym, ap, ◌∙◌, subst, ◌⊎◌, inl, inr, false, Option,
}
use uenv_design.Base.{some, none, List, [], contains, string_eq}
use uenv_design.Base.Dict
use uenv_design.Result.{Result, ok, ok_inj, value_error}
use uenv_design.Result.Holds.{Holds, Holds-return, Holds-raise, Holds-bind, Holds-reject}
use uenv_design.Modeling.{Datum, obj, arr, Items, nil, cons, Attributes, end, attribute, dict_of}
use uenv_design.Packages.Fields.{
  properties_of, choices_of, check_properties, check_keyword, check_choices, check_schema,
  check_fields,
}

-- An entry of an object, and a member of an array.
abbrev pub HasEntry : String → Datum → Attributes → Type 0
HasEntry name child end = ⊥
HasEntry name child (attribute k v rest) = ((k ≡ name) × (v ≡ child)) ⊎ HasEntry name child rest

abbrev pub HasMember : Datum → Items → Type 0
HasMember child nil = ⊥
HasMember child (cons v items) = (v ≡ child) ⊎ HasMember child items

-- A field of a schema, itself or in what it is composed of.
pub data FieldOf (name : String) : Datum → Type 0 where
  property :
      (schema properties : Attributes) (child : Datum)
      → Dict.lookup "properties" (dict_of schema) ≡ some (obj properties)
      → HasEntry name child properties
      → FieldOf name (obj schema)
  inside :
      (schema properties : Attributes) (other : String) (child : Datum)
      → Dict.lookup "properties" (dict_of schema) ≡ some (obj properties)
      → HasEntry other child properties
      → FieldOf name child
      → FieldOf name (obj schema)
  item :
      (schema fields : Attributes)
      → Dict.lookup "items" (dict_of schema) ≡ some (obj fields)
      → FieldOf name (obj fields)
      → FieldOf name (obj schema)
  entry :
      (schema fields : Attributes)
      → Dict.lookup "additionalProperties" (dict_of schema) ≡ some (obj fields)
      → FieldOf name (obj fields)
      → FieldOf name (obj schema)
  choice :
      (schema : Attributes) (items : Items) (child : Datum)
      → Dict.lookup "anyOf" (dict_of schema) ≡ some (arr items)
      → HasMember child items
      → FieldOf name child
      → FieldOf name (obj schema)

obj_inj : {a b : Attributes} → some (obj a) ≡ some (obj b) → obj a ≡ obj b
obj_inj h = cc

module _ (control : List String) where
  -- No field is a control field.
  abbrev pub Clear : Datum → Type 0
  Clear v = (name : String) → FieldOf name v → contains control name ≡ false

  ClearProperties : Attributes → Type 0
  ClearProperties properties =
      (name : String) (child : Datum)
      → HasEntry name child properties
      → (contains control name ≡ false) × Clear child

  module _ (recur : Datum → String → Result (List String))
      (clear : (v : Datum) (path : String) → Holds (λ _. Clear v) (recur v path)) where
    check_properties-Clear :
        (properties : Attributes) (path : String)
        → Holds (λ _. ClearProperties properties) (check_properties control recur properties path)
    unfolding check_properties ClearProperties
    check_properties-Clear end path = Holds-return [] (λ name child h. absurd h)
    check_properties-Clear (attribute k v rest) path =
        Holds-reject (contains control k)
          (value_error (((path <> ".") <> k) <> " shadows system fields")) _
          λ free. Holds-bind (recur v ((path <> ".") <> k)) _ λ inner e.
            Holds-bind (check_properties control recur rest path) _ λ others f.
              Holds-return _ (λ name child h. elim h [
                | inl (same, also) ↦ (
                  subst (λ n. contains control n ≡ false) same free,
                  subst Clear also ((clear v ((path <> ".") <> k)).at inner e),
                )
                | inr later ↦ (check_properties-Clear rest path).at others f name child later
              ])

    check_keyword-Clear :
        (o : Option Datum) (path : String)
        → Holds
            (λ _. (fields : Attributes) → o ≡ some (obj fields) → Clear (obj fields))
            (check_keyword control recur o path)
    unfolding check_keyword
    check_keyword-Clear (some (obj found)) path = record {
      at = λ ws e fields same.
          subst Clear (obj_inj same) ((clear (obj found) (path <> "[]")).at ws e);
    }
    check_keyword-Clear none path = Holds-return [] (λ fields h. cc)
    check_keyword-Clear (some v) path = Holds-return [] (λ fields h. cc)

    check_choices-Clear :
        (items : Items) (path : String)
        → Holds
            (λ _. (child : Datum) → HasMember child items → Clear child)
            (check_choices control recur items path)
    unfolding check_choices
    check_choices-Clear nil path = Holds-return [] (λ child h. absurd h)
    check_choices-Clear (cons v items) path = Holds-bind (recur v path) _ λ inner e.
        Holds-bind (check_choices control recur items path) _ λ others f. Holds-return _ (λ child h.
          elim h [
            | inl same ↦ subst Clear same ((clear v path).at inner e)
            | inr later ↦ (check_choices-Clear items path).at others f child later
          ])

    schema-Clear :
        (schema properties : Attributes) (items : Items)
        → properties_of (Dict.lookup "properties" (dict_of schema)) ≡ ok properties
        → ClearProperties properties
        → ((fields : Attributes)
            → Dict.lookup "items" (dict_of schema) ≡ some (obj fields)
            → Clear (obj fields))
        → ((fields : Attributes)
            → Dict.lookup "additionalProperties" (dict_of schema) ≡ some (obj fields)
            → Clear (obj fields))
        → choices_of (Dict.lookup "anyOf" (dict_of schema)) ≡ ok items
        → ((child : Datum) → HasMember child items → Clear child)
        → Clear (obj schema)
    unfolding ClearProperties
    schema-Clear schema properties items known named here values listed members name
          (property _ ps child e h) =
        (named name child (
          subst (HasEntry name child) (ok_inj ps properties (sym (ap properties_of e) ∙ known))
            h)).0
    schema-Clear schema properties items known named here values listed members name
          (inside _ ps other child e h f) =
        (named other child (
            subst (HasEntry other child) (ok_inj ps properties (sym (ap properties_of e) ∙ known))
              h)).1
          name f
    schema-Clear schema properties items known named here values listed members name
          (item _ fields e f) =
        here fields e name f
    schema-Clear schema properties items known named here values listed members name
          (entry _ fields e f) =
        values fields e name f
    schema-Clear schema properties items known named here values listed members name
          (choice _ found child e h f) =
        members child
          (subst (HasMember child) (ok_inj found items (sym (ap choices_of e) ∙ listed)) h) name f

    check_schema-Clear :
        (v : Datum) (path : String) → Holds (λ _. Clear v) (check_schema control recur v path)
    unfolding check_schema
    check_schema-Clear (obj schema) path =
        Holds-bind (properties_of (Dict.lookup "properties" (dict_of schema))) _ λ properties known.
          Holds-bind (check_properties control recur properties path) _ λ first e.
            Holds-bind (check_keyword control recur (Dict.lookup "items" (dict_of schema)) path) _
              λ items f.
                Holds-bind
                  (check_keyword control recur (Dict.lookup "additionalProperties" (dict_of schema))
                    path)
                  _
                  λ values g.
                    Holds-bind (choices_of (Dict.lookup "anyOf" (dict_of schema))) _
                      λ choices listed.
                        Holds-bind (check_choices control recur choices path) _ λ last h.
                          Holds-return _ (
                            schema-Clear schema properties choices known
                              ((check_properties-Clear properties path).at first e)
                              ((check_keyword-Clear _ path).at items f)
                              ((check_keyword-Clear _ path).at values g) listed
                              ((check_choices-Clear choices path).at last h))
    check_schema-Clear v path = Holds-raise _

  check_fields-Holds :
      (depth : ℕ) (v : Datum) (path : String)
      → Holds (λ _. Clear v) (check_fields control depth v path)
  unfolding check_fields
  check_fields-Holds zero v path = Holds-raise _
  check_fields-Holds (suc depth) v path =
      check_schema-Clear (check_fields control depth) (check_fields-Holds depth) v path

  -- Where `check_fields` returns, no field of the schema has the name of a control field: neither one
  -- of its own properties, nor one in a property, in the items of an array, in the values of a mapping,
  -- or in a choice, at whatever depth.
  pub check_fields-Clear :
      (depth : ℕ) (schema : Datum) (path : String) (warnings : List String)
      → check_fields control depth schema path ≡ ok warnings
      → (name : String) → FieldOf name schema
      → contains control name ≡ false
  check_fields-Clear depth schema path warnings checked =
      (check_fields-Holds depth schema path).at warnings checked
