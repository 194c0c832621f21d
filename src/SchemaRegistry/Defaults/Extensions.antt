-- ===== src/SchemaRegistry/Defaults/Extensions.antt =====
-- Filling defaults keeps what the input says.
use uenv_design.Base.{ℕ, zero, suc, String, ◌≡◌, Option, none, some}
use uenv_design.Base.{string_eq, Option-cases, inl, inr}
use uenv_design.Base.Dict.{Dict}
use uenv_design.Result.{Result, ok, ◌>>=◌}
use uenv_design.Result.Holds.{Holds, Holds-return, Holds-raise, Holds-bind, Holds-weaken}
use uenv_design.Value.{Value, str, arr, obj, Items, nil, cons, Fields, field, end}
use uenv_design.SchemaRegistry.{key_of}
use uenv_design.SchemaRegistry.Defaults.{
  set_key, object_of, walk, parts_of, properties_of, target_of, follow, fill_key, fill_properties,
  expand_items, fill_value, expand, schema_named, apply_defaults,
}
use uenv_design.Strings.{partition}

-- What a value may become: an object gets keys that it does not have, and what stands in objects and
-- arrays is extended in its place. Everything else stays.
mutual
  pub data Extends : Value → Value → Type 0 where
    same : (v : Value) → Extends v v
    after : (u v w : Value) → Extends u v → Extends v w → Extends u w
    added :
        (fields : Fields) (key : String) (v : Value)
        → key_of key fields ≡ none
        → Extends (obj fields) (obj (set_key key v fields))
    within :
        (fields : Fields) (key : String) (v w : Value)
        → key_of key fields ≡ some v
        → Extends v w
        → Extends (obj fields) (obj (set_key key w fields))
    members : (items others : Items) → ExtendsItems items others → Extends (arr items) (arr others)

  pub data ExtendsItems : Items → Items → Type 0 where
    none_left : ExtendsItems nil nil
    member :
        (v w : Value) (items others : Items)
        → Extends v w
        → ExtendsItems items others
        → ExtendsItems (cons v items) (cons w others)

module _ (core_id : String) (core : Value) (extensions : Dict String Value)
    (recur : Value → Value → Value → Result Value)
    (kept : (schema v document : Value) → Holds (Extends v) (recur schema v document)) where
  follow-Extends :
      (o : Option Value) (v document : Value)
      → Holds (Extends v) (follow core_id core extensions recur o v document)
  unfolding follow
  follow-Extends none v document = Holds-return v (same v)
  follow-Extends (some (str ref)) v document =
      Holds-bind (target_of core_id core extensions (partition 35 ref).0 document) _ λ target _.
        Holds-bind (walk target (parts_of (partition 35 ref).1)) _
          λ resolved _. kept resolved v target
  follow-Extends (some other) v document = Holds-raise _

  filled_default :
      (key : String) (child : Value) (fields : Fields) (document : Value) (o : Option Value)
      → key_of key fields ≡ none
      → Holds
          (λ next. Extends (obj fields) (obj next))
          (elim o as (λ _. Result Fields) [
            | none ↦ ok fields
            | some default ↦ recur child default document >>= λ x. ok (set_key key x fields)
          ])
  filled_default key child fields document none e = Holds-return fields (same (obj fields))
  filled_default key child fields document (some default) e =
      Holds-bind (recur child default document) _
        λ x _. Holds-return (set_key key x fields) (added fields key x e)

  fill_key-Extends :
      (key : String) (child : Value) (fields : Fields) (document : Value)
      → Holds
          (λ next. Extends (obj fields) (obj next))
          (fill_key core_id core extensions recur key child fields document)
  unfolding fill_key
  fill_key-Extends key child fields document = elim (Option-cases (key_of key fields)) [
    | inr (v, e) ↦
        rw (e, fill_key)
          (Holds-bind (recur child v document) _ λ x made.
            Holds-return (set_key key x fields)
              (within fields key v x e ((kept child v document).at x made)))
    | inl e ↦
        rw (e, fill_key)
          (Holds-bind (object_of child) _
            λ entries _. filled_default key child fields document (key_of "default" entries) e)
  ]

  fill_properties-Extends :
      (properties fields : Fields) (document : Value)
      → Holds
          (λ next. Extends (obj fields) (obj next))
          (fill_properties core_id core extensions recur properties fields document)
  unfolding fill_properties
  fill_properties-Extends end fields document = Holds-return fields (same (obj fields))
  fill_properties-Extends (field key child rest) fields document =
      Holds-bind (fill_key core_id core extensions recur key child fields document) _ λ next e.
        Holds-weaken (fill_properties core_id core extensions recur rest next document)
          (λ filled later.
            after (obj fields) (obj next) (obj filled)
              ((fill_key-Extends key child fields document).at next e) later)
          (fill_properties-Extends rest next document)

  expand_items-Extends :
      (schema : Value) (items : Items) (document : Value)
      → Holds
          (ExtendsItems items)
          (expand_items core_id core extensions recur schema items document)
  unfolding expand_items
  expand_items-Extends schema nil document = Holds-return nil none_left
  expand_items-Extends schema (cons v items) document =
      Holds-bind (recur schema v document) _ λ x e.
        Holds-bind (expand_items core_id core extensions recur schema items document) _ λ xs f.
          Holds-return (cons x xs) (
            member v x items xs ((kept schema v document).at x e)
              ((expand_items-Extends schema items document).at xs f))

  items_filled :
      (o : Option Value) (items : Items) (document : Value)
      → Holds (Extends (arr items)) (elim o as (λ _. Result Value) [
        | none ↦ ok (arr items)
        | some child ↦
            expand_items core_id core extensions recur child items document >>= λ xs. ok (arr xs)
      ])
  items_filled none items document = Holds-return (arr items) (same (arr items))
  items_filled (some child) items document =
      Holds-bind (expand_items core_id core extensions recur child items document) _ λ xs e.
        Holds-return (arr xs)
          (members items xs ((expand_items-Extends child items document).at xs e))

  fill_value-Extends :
      (schema : Fields) (v document : Value)
      → Holds (Extends v) (fill_value core_id core extensions recur schema v document)
  unfolding fill_value
  fill_value-Extends schema (obj fields) document =
      Holds-bind (properties_of (key_of "properties" schema)) _ λ properties _.
        Holds-bind (fill_properties core_id core extensions recur properties fields document) _
          λ filled e.
            Holds-return (obj filled)
              ((fill_properties-Extends properties fields document).at filled e)
  fill_value-Extends schema (arr items) document =
      items_filled (key_of "items" schema) items document
  fill_value-Extends schema v document = Holds-return v (same v)

module _ (core_id : String) (core : Value) (extensions : Dict String Value) where
  expand-Extends :
      (depth : ℕ) (schema v document : Value)
      → Holds (Extends v) (expand core_id core extensions depth schema v document)
  unfolding expand
  expand-Extends zero schema v document = Holds-raise _
  expand-Extends (suc depth) schema v document =
      let recur = expand core_id core extensions depth in
      Holds-bind (object_of schema) _ λ fields _.
        Holds-bind (follow core_id core extensions recur (key_of "$ref" fields) v document) _
          λ followed e.
            Holds-weaken (fill_value core_id core extensions recur fields followed document)
              (λ w later.
                after v followed w
                  ((follow-Extends core_id core extensions recur (expand-Extends depth)
                      (key_of "$ref" fields) v document).at
                    followed e)
                  later)
              (fill_value-Extends core_id core extensions recur (expand-Extends depth) fields
                followed document)

  -- Filling in defaults keeps the input: what `apply_defaults` returns differs from the value that it was
  -- given only by keys that objects of it did not have. Texts, numbers, Booleans and nulls stay, arrays
  -- keep their lengths, and a key that was given keeps its value, but for what is added inside of it.
  pub apply_defaults-Extends :
      (depth : ℕ) (name : String) (v w : Value)
      → apply_defaults core_id core extensions depth name v ≡ ok w
      → Extends v w
  unfolding apply_defaults
  apply_defaults-Extends depth name v w e =
      (Holds-bind (schema_named core_id core extensions name) _
          λ found _. expand-Extends depth found.1 v found.0).at
        w e
