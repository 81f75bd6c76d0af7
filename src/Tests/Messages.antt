-- ===== src/Tests/Messages.antt =====
-- Dynamic messages (ros/dynamic_message.go).
use rosgo.Prelude.{◌≡◌, ◌∷◌, [], ◌%◌, ◌^◌, refl, true, false, Bytes, codes, none, ok, panic, arith}
use rosgo.Prelude.Int.{pos, negsuc}
use rosgo.Gengo.{Field, MsgSpec}
use rosgo.Message.{
  Prim, uint8, float64, prims, strings, Value, prim, str, slice, msg, Values, nil, cons, Data,
  empty, entry, Outcome, kind, prim_code, prim_named, slice_elem, insert, width,
}
use rosgo.Message.Types.{Context, registered, load_msg, full_type_name, nested_type}
use rosgo.Message.Zero.{zero_builtin, zero_field, zero_fields, zero_value_data, new_message}
use rosgo.Message.Encode.{count, serialize}
use rosgo.Message.Decode.{Parsed, read_array, fresh_message, deserialize}
use rosgo.Message.Fits.{FitsField, DistinctNames, Fits}
use rosgo.Message.Items.{RoundTrips}
use rosgo.Message.RoundTrip.{deserialize-serialize}
use rosgo.Message.Truncated.{read_array-primitives}

-- A point of one coordinate, and a track: a name, some bytes, two stamps and one point.
abbrev pub point_spec : MsgSpec
point_spec = record {
  fields =
      record {
        package_name = [];
        field_type = codes "float64";
        name = codes "x";
        is_builtin = true;
        is_array = false;
        array_len = pos 0;
        go_name = codes "X";
        go_type = codes "float64";
        zero_value = codes "0.0";
      }
      ∷ [];
  constants = [];
  text = [];
  md5_sum = [];
  full_name = codes "t/Point";
  short_name = codes "Point";
  package_name = codes "t";
}

abbrev bytes_field : Field
bytes_field = record {
  package_name = [];
  field_type = codes "uint8";
  name = codes "raw";
  is_builtin = true;
  is_array = true;
  array_len = pos 3;
  go_name = codes "Raw";
  go_type = codes "uint8";
  zero_value = codes "0";
}

abbrev words_field : Field
words_field = record {
  package_name = [];
  field_type = codes "string";
  name = codes "names";
  is_builtin = true;
  is_array = true;
  array_len = negsuc 0;
  go_name = codes "Names";
  go_type = codes "string";
  zero_value = [];
}

abbrev point_field : Field
point_field = record {
  package_name = codes "t";
  field_type = codes "Point";
  name = codes "p";
  is_builtin = false;
  is_array = false;
  array_len = pos 0;
  go_name = codes "P";
  go_type = codes "t.Point";
  zero_value = codes "t.Point{}";
}

abbrev track_spec : MsgSpec
track_spec = record {
  fields = bytes_field ∷ words_field ∷ point_field ∷ [];
  constants = [];
  text = [];
  md5_sum = [];
  full_name = codes "t/Track";
  short_name = codes "Track";
  package_name = codes "t";
}

abbrev pub known : Context
known = record { registry = (codes "t/Point", point_spec) ∷ []; load = λ _. none }

abbrev point : Data
point = entry (codes "x") (prim float64 77) empty

abbrev track : Data
track =
    entry (codes "raw")
      (slice (prims uint8) (cons (prim uint8 1) (cons (prim uint8 255) (cons (prim uint8 0) nil))))
      (entry (codes "names") (slice strings (cons (str (codes "ab")) (cons (str []) nil)))
        (entry (codes "p") (msg point_spec point) empty))

-- The type of the nested field can be made anew.
point_made :
    fresh_message 4 known point_field
    ≡ ok (msg point_spec (entry (codes "x") (prim float64 0) empty))
unfolding fresh_message nested_type full_type_name load_msg registered new_message zero_value_data
    zero_fields zero_field zero_builtin slice_elem prim_named insert
point_made = refl

track_names : DistinctNames track_spec.fields
track_names = (((λ e. cc), ((λ e. cc), tt)), (((λ e. cc), tt), (tt, tt)))

raw-FitsField :
    FitsField
      (Fits 4 known)
      (fresh_message 4 known)
      bytes_field
      (slice (prims uint8) (cons (prim uint8 1) (cons (prim uint8 255) (cons (prim uint8 0) nil))))
unfolding kind slice_elem prim_named prim_code width
raw-FitsField = (
  refl,
  refl,
  (refl, omega arith),
  ((refl, omega arith), ((refl, omega arith), ((refl, omega arith), tt))),
)

names-FitsField :
    FitsField
      (Fits 4 known)
      (fresh_message 4 known)
      words_field
      (slice strings (cons (str (codes "ab")) (cons (str []) nil)))
unfolding kind slice_elem prim_named prim_code width
names-FitsField = (refl, refl, omega arith, (omega arith, (omega arith, tt)))

point-Fits : Fits 4 known point_spec point
unfolding kind prim_named width
point-Fits = ((tt, tt), (refl, (refl, omega arith), tt))

point-FitsField :
    FitsField (Fits 4 known) (fresh_message 4 known) point_field (msg point_spec point)
unfolding kind
point-FitsField = record {
  short = refl;
  initial = entry (codes "x") (prim float64 0) empty;
  made = point_made;
  inner = point-Fits;
}

track-Fits : Fits 5 known track_spec track
track-Fits =
    (track_names, (refl, raw-FitsField, (refl, names-FitsField, (refl, point-FitsField, tt))))

deserialize-serialize_example :
    RoundTrips (serialize 5 track_spec track) (deserialize 5 known track_spec) track
deserialize-serialize_example = deserialize-serialize 5 known track_spec track track-Fits

abbrev no_message : Field → Outcome Value
no_message f = panic

abbrev no_nested : MsgSpec → Bytes → Parsed Data
no_nested spec s = panic

read_array-primitives_example :
    (vs : Values) × (rest : Bytes) × (read_array no_message no_nested bytes_field (7 ∷ [])
      ≡ ok (slice (prims uint8) vs, rest))
    × (count vs ≡ 3 % 2 ^ 32)
read_array-primitives_example =
    read_array-primitives no_message no_nested bytes_field uint8 3 (7 ∷ [])
      (unfold kind prim_named in refl) (unfold slice_elem prim_named in refl) refl
