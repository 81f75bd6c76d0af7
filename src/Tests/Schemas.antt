-- ===== src/Tests/Schemas.antt =====
-- JSON schemas of messages (ros/dynamic_message.go).
use rosgo.Prelude.{◌≡◌, refl, codes, ok}
use rosgo.Message.{kind, prim_named}
use rosgo.Message.Schema.{
  Json, text, object, nil, cons, set, field_schema, scalar_schema, properties, schema_of,
  json_schema,
}
use rosgo.Tests.Messages.{point_spec, known}

abbrev point_schema : Json
point_schema = schema_of (codes "at") (
    cons (codes "x")
      (object (
        cons (codes "title") (text (codes "at/x"))
          (cons (codes "type") (text (codes "number")) nil)))
      nil)

point_schema_made : json_schema 3 known point_spec (codes "at") ≡ ok point_schema
unfolding json_schema properties field_schema scalar_schema kind prim_named set
point_schema_made = refl
