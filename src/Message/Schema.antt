-- ===== src/Message/Schema.antt =====
-- `DynamicMessageType.generateJSONSchemaProperties`: the JSON schema of a type, as a tree of maps.
pub mod Keys
use rosgo.Prelude.{
  ℕ, zero, suc, Bool, List, [], ◌∷◌, ◌++◌, Bytes, codes, str_eq, if◌then◌else◌, Result, ok, err,
  stuck, ◌>>=◌,
}
use rosgo.Name.{sep}
use rosgo.Gengo.{Field, MsgSpec}
use rosgo.Message.{
  Prim, bool, float32, float64, Outcome, Error, not_implemented, Kind, string_kind, time_kind,
  duration_kind, prim_kind, unknown_kind, message_kind, kind,
}
use rosgo.Message.Types.{Context, nested_type}
use rosgo.Message.Encode.{wrap}

mutual
  pub data Json : Type 0 where
    text : Bytes → Json
    object : Members → Json

  pub data Members : Type 0 where
    nil : Members
    cons : Bytes → Json → Members → Members

-- Setting a key of a map.
unfoldable pub set : Bytes → Json → Members → Members
set k v nil = cons k v nil
set k v (cons j w m) = if str_eq j k then cons j v m else cons j w (set k v m)

-- `topic + Sep + name`.
abbrev pub title : Bytes → Bytes → Bytes
title topic name = topic ++ (sep ∷ name)

abbrev pub json_type : Prim → Bytes
json_type bool = codes "bool"
json_type float32 = codes "number"
json_type float64 = codes "number"
json_type _ = codes "integer"

abbrev pub part : Bytes → Bytes → Json
part topic name = object (
    cons (codes "type") (text (codes "integer"))
      (cons (codes "title") (text (title topic name)) nil))

abbrev pub time_items : Bytes → Json
time_items topic = object (
    cons (codes "sec") (part topic (codes "sec"))
      (cons (codes "nsec") (part topic (codes "nsec")) nil))

abbrev pub typed : Bytes → Members
typed t = cons (codes "type") (text t) nil

abbrev pub of_time : Bytes → Members
of_time topic =
    cons (codes "type") (text (codes "object")) (cons (codes "properties") (time_items topic) nil)

-- The schema of a nested message, for the topic of the field.
unfoldable pub nested_schema :
    (MsgSpec → Bytes → Outcome Json) → Context → Field → Bytes → Outcome Json
nested_schema schema c f topic =
    wrap f (nested_type c f.field_type f.package_name) >>= λ t. wrap f (schema t topic)

-- The schema of the items of an array, under `items`.
unfoldable pub item_schema :
    (MsgSpec → Bytes → Outcome Json) → Context → Kind → Field → Bytes → Outcome Members
item_schema schema c string_kind f topic = ok (typed (codes "string"))
item_schema schema c time_kind f topic = ok (of_time topic)
item_schema schema c duration_kind f topic = ok (of_time topic)
item_schema schema c (prim_kind p) f topic = ok (typed (json_type p))
item_schema schema c unknown_kind f topic = err not_implemented
item_schema schema c message_kind f topic =
    nested_schema schema c f topic >>= λ j. ok (cons (codes "type") j nil)

unfoldable pub array_schema :
    (MsgSpec → Bytes → Outcome Json) → Context → Field → Bytes → Outcome Json
array_schema schema c f topic =
    if str_eq f.go_type (codes "uint8")
    then ok (object (cons (codes "title") (text topic) (typed (codes "string"))))
    else (item_schema schema c (kind f) f topic >>= λ items. ok (
        object (
          cons (codes "type") (text (codes "array"))
            (cons (codes "title") (text topic) (cons (codes "items") (object items) nil)))))

unfoldable pub scalar_schema :
    (MsgSpec → Bytes → Outcome Json) → Context → Kind → Field → Bytes → Outcome Json
scalar_schema schema c string_kind f topic =
    ok (object (cons (codes "title") (text topic) (typed (codes "string"))))
scalar_schema schema c time_kind f topic =
    ok (object (cons (codes "title") (text topic) (of_time topic)))
scalar_schema schema c duration_kind f topic =
    ok (object (cons (codes "title") (text topic) (of_time topic)))
scalar_schema schema c (prim_kind p) f topic =
    ok (object (cons (codes "title") (text topic) (typed (json_type p))))
scalar_schema schema c unknown_kind f topic = err not_implemented
scalar_schema schema c message_kind f topic = nested_schema schema c f topic

unfoldable pub field_schema :
    (MsgSpec → Bytes → Outcome Json) → Context → Field → Bytes → Outcome Json
field_schema schema c f topic =
    if f.is_array then array_schema schema c f topic else scalar_schema schema c (kind f) f topic

-- The loop over the fields, from the properties set so far.
unfoldable pub properties :
    (MsgSpec → Bytes → Outcome Json) → Context → Bytes → List Field → Members → Outcome Members
properties schema c topic [] m = ok m
properties schema c topic (f ∷ fs) m = field_schema schema c f (title topic f.name) >>= λ j.
    properties schema c topic fs (set f.name j m)

abbrev pub schema_of : Bytes → Members → Json
schema_of topic m = object (
    cons (codes "type") (text (codes "object"))
      (cons (codes "title") (text topic) (cons (codes "properties") (object m) nil)))

-- The fuel bounds how deep types are nested.
unfoldable pub json_schema : ℕ → Context → MsgSpec → Bytes → Outcome Json
json_schema zero c spec topic = stuck
json_schema (suc n) c spec topic =
    properties (json_schema n c) c topic spec.fields nil >>= λ m. ok (schema_of topic m)
