-- ===== src/Message/RoundTrip.antt =====
-- ros/dynamic_message.go: `Deserialize` behind `Serialize`.
use rosgo.Prelude.{
  ℕ, zero, suc, ◌%◌, ◌^◌, ◌≡◌, ◌≢◌, refl, sym, ap, ◌∙◌, Bool, true, false, inl, inr, Bool-cases,
  List, [], ◌∷◌, ◌++◌, some, Bytes, str_eq, str_eq_iff, if◌then◌else◌, ok, err, panic, stuck, ◌>>=◌,
  append_assoc, arith, All,
}
use rosgo.Prelude.Int.{ℤ, pos, negsuc, to_u32, ltb_ℤ}
use rosgo.Wire.{put_uint}
use rosgo.Gengo.{Field, MsgSpec}
use rosgo.Message.{
  Elem, Value, slice, Values, nil, cons, Data, empty, entry, Outcome, Kind, kind, elem_eq,
  slice_elem, lookup, insert,
}
use rosgo.Message.Types.{Context}
use rosgo.Message.Encode.{
  write_item, write_items, write_array, write_field, write_fields, sequence, count, serialize,
}
use rosgo.Message.Decode.{
  Parsed, read_item, read_items, array_size, elem_of, read_array, read_field, read_fields,
  fresh_message, deserialize,
}
use rosgo.Message.Fits.{
  FitsItem, FitsItems, FitsLength, FitsArray, FitsField, FitsFields, DistinctNames, Fits,
}
use rosgo.Message.Items.{RoundTrips, read_u32-put_uint, item_trip}

-- The entries of a map behind others.
abbrev join_data : Data → Data → Data
join_data empty e = e
join_data (entry k v d) e = entry k v (join_data d e)

abbrev Absent : Bytes → Data → Type 0
Absent k empty = Unit {0}
Absent k (entry j v d) = (j ≢ k) × Absent k d

str_ne : {j k : Bytes} → j ≢ k → str_eq j k ≡ false
str_ne {j} {k} h = elim (Bool-cases (str_eq j k)) [
  | inl same ↦ absurd (h ((str_eq_iff j k).0 same))
  | inr other ↦ other
]

str_refl : (k : Bytes) → str_eq k k ≡ true
str_refl k = (str_eq_iff k k).1 refl

-- A key that is not there is found in what follows, and is set behind the last entry.
lookup-join_data : (k : Bytes) (d e : Data) → Absent k d → lookup k (join_data d e) ≡ lookup k e
unfolding lookup
lookup-join_data k empty e h = refl
lookup-join_data k (entry j v d) e h = rw (str_ne h.0) (lookup-join_data k d e h.1)

insert-Absent :
    (k : Bytes) (v : Value) (d : Data) → Absent k d → insert k v d ≡ join_data d (entry k v empty)
unfolding insert
insert-Absent k v empty h = refl
insert-Absent k v (entry j w d) h = rw (str_ne h.0) (ap (entry j w) (insert-Absent k v d h.1))

join_data_assoc : (a b c : Data) → join_data (join_data a b) c ≡ join_data a (join_data b c)
join_data_assoc empty b c = refl
join_data_assoc (entry k v a) b c = ap (entry k v) (join_data_assoc a b c)

Absent-join_data : (k : Bytes) (a b : Data) → Absent k a → Absent k b → Absent k (join_data a b)
Absent-join_data k empty b h g = g
Absent-join_data k (entry j v a) b h g = (h.0, Absent-join_data k a b h.1 g)

join_data_empty : (d : Data) → join_data d empty ≡ d
join_data_empty empty = refl
join_data_empty (entry k v d) = ap (entry k v) (join_data_empty d)

negative : (m : ℕ) → ltb_ℤ (negsuc m) (pos 0) ≡ true
negative m = ground arith

nonnegative : (m : ℕ) → ltb_ℤ (pos m) (pos 0) ≡ false
nonnegative m = ground arith

Absent-empty : (fs : List Field) → All (λ f. Absent f.name empty) fs
Absent-empty [] = tt
Absent-empty (f ∷ fs) = (tt, Absent-empty fs)

-- The names of the later fields are still absent when one more field is set.
Absent-after :
    (name k : Bytes) (v : Value) (done : Data) (fs : List Field)
    → k ≡ name
    → All (λ g. name ≢ g.name) fs
    → All (λ g. Absent g.name done) fs
    → All (λ g. Absent g.name (join_data done (entry k v empty))) fs
Absent-after name k v done [] e ne h = tt
Absent-after name k v done (g ∷ fs) e ne h = (
  Absent-join_data g.name done (entry k v empty) h.0 ((λ q. ne.0 (sym e ∙ q)), tt),
  Absent-after name k v done fs e ne.1 h.1,
)

found_first :
    (name k : Bytes) (v : Value) (done d : Data)
    → k ≡ name
    → Absent name done
    → lookup name (join_data done (entry k v d)) ≡ some v
found_first name k v done d e h =
    lookup-join_data name done (entry k v d) h ∙ (unfold lookup in rw ((str_eq_iff k name).1 e))

-- What is read for an array is made into a slice.
into_slice :
    (m : Parsed ℕ) (g : ℕ → Bytes → Parsed Values) (e : Elem) (vs : Values) (rest : Bytes)
    → (m >>= λ (size, s'). g size s') ≡ ok (vs, rest)
    → ◌≡◌ {A = Parsed Value}
        (m >>= λ (size, s'). g size s' >>= λ (vs, rest). ok (slice e vs, rest))
        (ok (slice e vs, rest))
into_slice (ok (n, s)) g e vs rest h = rw h
into_slice (err x) g e vs rest h = cc
into_slice panic g e vs rest h = cc
into_slice stuck g e vs rest h = cc

-- Writing and reading branch on the same test.
branch_trip :
    (b : Bool) (P Q : Type 0) (w w' : Outcome Bytes) (r r' : Bytes → Parsed Value) (v : Value)
    → (P → RoundTrips w r v)
    → (Q → RoundTrips w' r' v)
    → (if b then P else Q)
    → RoundTrips (if b then w else w') (λ s. if b then r s else r' s) v
branch_trip true P Q w w' r r' v p q h = p h
branch_trip false P Q w w' r r' v p q h = q h

module _ (P : MsgSpec → Data → Type 0) (fresh : Field → Outcome Value)
    (write : MsgSpec → Data → Outcome Bytes) (read : MsgSpec → Bytes → Parsed Data)
    (trip : (spec : MsgSpec) (d : Data) → P spec d → RoundTrips (write spec d) (read spec) d) where
  items_trip :
      (k : Kind) (f : Field) (vs : Values)
      → FitsItems P fresh k f vs
      → RoundTrips
          (write_items (write_item write k f) (count vs) vs)
          (read_items (read_item fresh read true k f) true (count vs))
          vs
  unfolding write_items read_items
  items_trip k f nil h = ([], refl, λ rest. refl)
  items_trip k f (cons v vs) h =
      let (b, w, r) = item_trip P fresh write read trip true k f v h.0 in
      let (bs, ws, rs) = items_trip k f vs h.1 in
      (b ++ bs, rw (w, ws), λ rest. rw (append_assoc b bs rest, r (bs ++ rest), rs rest))

  array_trip :
      (f : Field) (array_len : ℤ) (vs : Values)
      → FitsLength P fresh array_len (count vs)
      → FitsItems P fresh (kind f) f vs
      → RoundTrips
          (write_array (write_item write (kind f) f) array_len vs)
          (λ s. array_size f array_len s >>= λ (size, s').
            read_items (read_item fresh read true (kind f) f) true size s')
          vs
  unfolding write_array array_size
  array_trip f (negsuc m) vs small h =
      let (bs, w, r) = items_trip (kind f) f vs h in
      let n : count vs % 2 ^ 32 ≡ count vs = omega arith in
      (
        put_uint 4 (count vs) ++ bs,
        rw (negative m, n, w),
        λ rest.
            rw (negative m, append_assoc (put_uint 4 (count vs)) bs rest)
              (rw (read_u32-put_uint f (count vs) (bs ++ rest) small) (r rest)),
      )
  array_trip f (pos m) vs len h =
      let (bs, w, r) = items_trip (kind f) f vs h in
      let n : to_u32 (pos m) ≡ count vs = unfold to_u32 in omega arith in
      (bs, rw (nonnegative m, n) w, λ rest. rw (nonnegative m, n) (r rest))

  -- The items are of the type of the slice that is made for the field.
  slice_trip :
      (f : Field) (v : Value) (same : Bool) (e : Elem)
      → same ≡ true
      → (vs : Values) → FitsLength P fresh f.array_len (count vs)
      → FitsItems P fresh (kind f) f vs
      → RoundTrips
          (write_array (write_item write (kind f) f) f.array_len vs)
          (λ s. array_size f f.array_len s >>= λ (size, s').
            read_items (read_item fresh read true (kind f) f) same size s' >>= λ (vs, rest).
            ok (slice e vs, rest))
          (slice e vs)
  slice_trip f v false e s vs len h = cc
  slice_trip f v true e s vs len h =
      let (b, w, r) = array_trip f f.array_len vs len h in
      (
        b,
        w,
        λ rest.
            into_slice (array_size f f.array_len (b ++ rest))
              (read_items (read_item fresh read true (kind f) f) true) e vs rest (r rest),
      )

  sequence_trip :
      (f : Field) (v : Value)
      → FitsArray P fresh f v
      → RoundTrips
          (sequence v >>= λ vs. write_array (write_item write (kind f) f) f.array_len vs)
          (read_array fresh read f)
          v
  unfolding read_array
  sequence_trip f (slice e vs) h = rw h.0 (
      slice_trip f (slice e vs) (elem_eq (elem_of (kind f)) (slice_elem f.go_type))
        (slice_elem f.go_type) h.1 vs h.2 h.3)
  sequence_trip f v h = absurd h

  field_trip :
      (f : Field) (v : Value)
      → FitsField P fresh f v
      → RoundTrips (write_field write f v) (read_field fresh read f) v
  unfolding write_field read_field
  field_trip f v h =
      branch_trip f.is_array (FitsArray P fresh f v) (FitsItem P fresh (kind f) f v)
        (sequence v >>= λ vs. write_array (write_item write (kind f) f) f.array_len vs)
        (write_item write (kind f) f v) (read_array fresh read f)
        (read_item fresh read false (kind f) f) v (sequence_trip f v)
        (item_trip P fresh write read trip false (kind f) f v) h

  -- The entries `done` are those of the fields before.
  fields_trip :
      (fs : List Field) (done d : Data)
      → DistinctNames fs
      → All (λ f. Absent f.name done) fs
      → FitsFields P fresh fs d
      → (b : Bytes) × (write_fields write fs (join_data done d) ≡ ok b)
        × ((rest : Bytes)
            → read_fields fresh read fs done (b ++ rest) ≡ ok (join_data done d, rest))
  unfolding write_fields read_fields
  fields_trip [] done empty names absent h = ([], refl, λ rest. rw (join_data_empty done))
  fields_trip [] done (entry k v d) names absent h = absurd h
  fields_trip (f ∷ fs) done empty names absent h = absurd h
  fields_trip (f ∷ fs) done (entry k v d) names absent (same, fits, others) =
      let (b, w, r) = field_trip f v fits in
      let done' = join_data done (entry k v empty) in
      let (bs, ws, rs) =
        fields_trip fs done' d names.1 (Absent-after f.name k v done fs same names.0 absent.1)
          others in
      let split = join_data_assoc done (entry k v empty) d in
      (
        b ++ bs,
        rw (found_first f.name k v done d same absent.0) (rw w (rw (← split) (rw ws))),
        λ rest. rw (append_assoc b bs rest) (
            rw (r (bs ++ rest))
              (rw (insert-Absent f.name v done absent.0) (rw (← same) (rw (rs rest) (rw split))))),
      )

-- A message that fits its specification is written without an error, and whatever follows it on
-- the reader, it is read back as it was, with the reader left behind it.
pub deserialize-serialize :
    (n : ℕ) (c : Context) (spec : MsgSpec) (d : Data)
    → Fits n c spec d
    → RoundTrips (serialize n spec d) (deserialize n c spec) d
unfolding serialize deserialize
deserialize-serialize zero c spec d h = absurd h
deserialize-serialize (suc n) c spec d h =
    fields_trip (Fits n c) (fresh_message n c) (serialize n) (deserialize n c)
      (deserialize-serialize n c) spec.fields empty d h.0 (Absent-empty spec.fields) h.1
