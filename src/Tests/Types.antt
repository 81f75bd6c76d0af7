-- ===== src/Tests/Types.antt =====
-- The types of fields (libgengo/msgs.go), and the answers of the ROS API (ros/master.go).
use rosgo.Prelude.{◌≡◌, ◌∷◌, [], refl, true, codes, Result, ok, arith}
use rosgo.Prelude.Int.{pos}
use rosgo.Gengo.Types.{is_builtin_type, is_one_of}
use rosgo.Gengo.Fields.{new_field}
use rosgo.Gengo.Spelled.{Suffix, fixed, NoBracket, IsSuffix}
use rosgo.Name.Split.{IsPiece}
use rosgo.Message.{kind, elem_eq, slice_elem}
use rosgo.Message.Decode.{elem_of}
use rosgo.Message.Builtin.{new_field-elem_of}
use rosgo.Xmlrpc.{Value, double}
use rosgo.Xmlrpc.Calls.{CallError}
use rosgo.Api.{build_ros_api_result}

abbrev twelve : Suffix
twelve = fixed b'1' (b'2' ∷ [])

ab-IsPiece : IsPiece (codes "ab")
ab-IsPiece = ((λ e. omega arith), ((λ e. omega arith), tt))

ab-NoBracket : NoBracket (codes "ab")
ab-NoBracket = ((λ e. omega arith), ((λ e. omega arith), tt))

twelve-IsSuffix : IsSuffix twelve
twelve-IsSuffix = ((omega arith, omega arith), ((omega arith, omega arith), tt))

new_field-elem_of_example :
    elem_eq
      (elem_of (kind (new_field [] (codes "char") (codes "data") true (pos 3))))
      (slice_elem (new_field [] (codes "char") (codes "data") true (pos 3)).go_type)
    ≡ true
new_field-elem_of_example =
    new_field-elem_of [] (codes "char") (codes "data") true (pos 3)
      (unfold is_builtin_type is_one_of in refl)

abbrev answer : Result CallError Value
answer = ok (build_ros_api_result (pos 1) (codes "done") (double 0))
