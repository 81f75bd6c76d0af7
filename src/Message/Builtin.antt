-- ===== src/Message/Builtin.antt =====
-- `NewField` of libgengo/msgs.go and ros/dynamic_message.go, on the builtin types.
use mathlib.Core.Path.{subst}
use rosgo.Prelude.{
  All, ◌≡◌, refl, Bool, true, List, [], ◌∷◌, Bytes, str_eq, str_eq_iff, Bool-cases, inl, inr,
}
use rosgo.Prelude.Int.{ℤ}
use rosgo.Gengo.Types.{is_one_of, is_builtin_type, builtin_types}
use rosgo.Gengo.Fields.{to_go_type, new_field}
use rosgo.Message.{kind, elem_eq, slice_elem, prim_code, prim_named}
use rosgo.Message.Decode.{elem_of}

abbrev Agrees : Bytes → Bytes → Bytes → Bool → ℤ → Type 0
Agrees p t n a l =
    elem_eq (elem_of (kind (new_field p t n a l))) (slice_elem (new_field p t n a l).go_type) ≡ true

one_of_cons :
    (t : Bytes) (ts : List Bytes) (P : Bytes → Type 0) (name : Bytes)
    → P t
    → ((n : Bytes) → is_one_of ts n ≡ true → P n)
    → is_one_of (t ∷ ts) name ≡ true
    → P name
unfolding is_one_of
one_of_cons t ts P name p ps h = elim (Bool-cases (str_eq t name)) [
  | inl here ↦ subst P ((str_eq_iff t name).0 here) p
  | inr there ↦ ps name (rw there at h)
]

-- A predicate holds of a name in a list if it holds of all of the list.
one_of_all :
    (ts : List Bytes) (P : Bytes → Type 0)
    → All P ts
    → (name : Bytes) → is_one_of ts name ≡ true
    → P name
unfolding is_one_of
one_of_all [] P h name e = cc
one_of_all (t ∷ ts) P h name e = one_of_cons t ts P name h.0 (one_of_all ts P h.1) e

-- A field of a builtin type, as `NewField` makes it: the type of the items that `Deserialize` reads
-- for it, and of the slice that it makes for them, are the same. So the type assertion on the slice
-- does not fail for such a field.
pub new_field-elem_of :
    (package_name t name : Bytes) (is_array : Bool) (array_len : ℤ)
    → is_builtin_type t ≡ true
    → elem_eq
        (elem_of (kind (new_field package_name t name is_array array_len)))
        (slice_elem (new_field package_name t name is_array array_len).go_type)
      ≡ true
unfolding kind new_field is_builtin_type is_one_of slice_elem prim_named to_go_type prim_code
new_field-elem_of p t name a l h =
    one_of_all builtin_types (λ t. Agrees p t name a l)
      (
        refl,
        (
          refl,
          (
            refl,
            (
              refl,
              (
                refl,
                (
                  refl,
                  (
                    refl,
                    (refl, (refl, (refl, (refl, (refl, (refl, (refl, (refl, (refl, tt))))))))),
                  ),
                ),
              ),
            ),
          ),
        ),
      )
      t h
