-- ===== src/Message/Fits.antt =====
-- The messages that fit their specification: what `Serialize` writes with no loss.
use rosgo.Prelude.{
  ℕ, zero, suc, ◌≤◌, ◌<◌, ◌^◌, ◌≡◌, ◌≢◌, true, List, [], ◌∷◌, length, All, if◌then◌else◌, ok,
}
use rosgo.Prelude.Int.{ℤ, pos, negsuc}
use rosgo.Gengo.{Field, MsgSpec}
use rosgo.Message.{
  Prim, bool, Value, prim, str, time, duration, slice, msg, Values, nil, cons, Data, empty, entry,
  Outcome, Kind, string_kind, time_kind, duration_kind, prim_kind, message_kind, kind, width,
  elem_eq, slice_elem,
}
use rosgo.Message.Types.{Context}
use rosgo.Message.Encode.{count}
use rosgo.Message.Decode.{elem_of, fresh_message}

-- A bit pattern of the type's width; a bool is 0 or 1.
abbrev pub FitsPrim : Prim → ℕ → Type 0
FitsPrim bool n = n ≤ 1
FitsPrim p n = n < 256 ^ width p

-- A nested message is of the type that the field names, which can be made anew.
pub record FitsNested (P : MsgSpec → Data → Type 0) (fresh : Field → Outcome Value) (f : Field)
    (spec : MsgSpec) (d : Data) : Type 0 where
  pub short : spec.short_name ≡ f.field_type
  pub initial : Data
  pub made : fresh f ≡ ok (msg spec initial)
  pub inner : P spec d

module _ (P : MsgSpec → Data → Type 0) (fresh : Field → Outcome Value) where
  abbrev pub FitsItem : Kind → Field → Value → Type 0
  FitsItem string_kind f (str s) = length s < 2 ^ 32
  FitsItem time_kind f (time s n) = (s < 2 ^ 32) × (n < 2 ^ 32)
  FitsItem duration_kind f (duration s n) = (s < 2 ^ 32) × (n < 2 ^ 32)
  FitsItem (prim_kind p) f (prim q n) = (q ≡ p) × FitsPrim p n
  FitsItem message_kind f (msg spec d) = FitsNested P fresh f spec d
  FitsItem _ f _ = ⊥

  abbrev pub FitsItems : Kind → Field → Values → Type 0
  FitsItems k f nil = Unit
  FitsItems k f (cons v vs) = FitsItem k f v × FitsItems k f vs

  -- An array of any length has fewer than 2^32 items, and another as many as it says.
  abbrev pub FitsLength : ℤ → ℕ → Type 0
  FitsLength (negsuc _) n = n < 2 ^ 32
  FitsLength (pos m) n = (m ≡ n) × (n < 2 ^ 32)

  abbrev pub FitsArray : Field → Value → Type 0
  FitsArray f (slice e vs) =
      (e ≡ slice_elem f.go_type)
      × (elem_eq (elem_of (kind f)) (slice_elem f.go_type) ≡ true)
      × FitsLength f.array_len (count vs)
      × FitsItems (kind f) f vs
  FitsArray f _ = ⊥

  abbrev pub FitsField : Field → Value → Type 0
  FitsField f v = if f.is_array then FitsArray f v else FitsItem (kind f) f v

  -- The data has the fields of the specification, in their order.
  abbrev pub FitsFields : List Field → Data → Type 0
  FitsFields [] empty = Unit
  FitsFields (f ∷ fs) (entry k v d) = (k ≡ f.name) × FitsField f v × FitsFields fs d
  FitsFields _ _ = ⊥

-- No two fields have one name.
abbrev pub DistinctNames : List Field → Type 0
DistinctNames [] = Unit
DistinctNames (f ∷ fs) = All (λ g. f.name ≢ g.name) fs × DistinctNames fs

-- The number bounds how deep messages are nested.
abbrev pub Fits : ℕ → Context → MsgSpec → Data → Type 0
Fits zero c spec d = ⊥
Fits (suc n) c spec d =
    DistinctNames spec.fields × FitsFields (Fits n c) (fresh_message n c) spec.fields d
