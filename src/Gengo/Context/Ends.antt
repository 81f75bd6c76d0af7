-- ===== src/Gengo/Context/Ends.antt =====
-- libgengo/context.go: when the loads of nested messages end.
use mathlib.Core.Option.{some-injective, none-ne-some}
use rosgo.Prelude.{
  ℕ, zero, suc, false, List, [], ◌∷◌, ◌++◌, none, some, Bytes, length, ◌==◌, Result, ok, err, panic,
  stuck, ◌≡◌, ◌<◌, refl, Bool-cases, inl, inr, All, arith,
}
use rosgo.Gengo.{Field, MsgSpec}
use rosgo.Gengo.Context.{
  Env, Registry, Error, load_msg, full_type, field_line, sum_line, constant_lines,
}
use rosgo.Gengo.Context.Direct.{
  Answer, either, definition, sum_with, direct_fields, direct_text, direct_sum, direct_load,
  direct_fields_plain, direct_fields_nested,
}
use rosgo.Gengo.Context.Cache.{IsCoherent}
use rosgo.Gengo.Context.Loads.{load_msg-direct_load}

-- A field of a message is of a lower rank.
abbrev pub IsLower : (Bytes → ℕ) → ℕ → Field → Type 0
IsLower rank k f = (length f.package_name == 0) ≡ false → rank (full_type f) < k

abbrev pub IsRanked : Env → (Bytes → ℕ) → Type 0
IsRanked env rank =
    (name : Bytes) (d : MsgSpec)
    → definition env name ≡ ok d
    → All (IsLower rank (rank name)) d.fields

abbrev Ends {ℓ} : {A : Type ℓ} → Answer A → Type ℓ
Ends {A = A} a = (o : Result Error A) × (a ≡ some o)

either-Ends {ℓ} :
    {A B : Type ℓ} (f : A → Answer B) (g : Error → Answer B) (a : Answer A)
    → Ends a
    → ((v : A) → a ≡ some (ok v) → Ends (f v))
    → ((e : Error) → Ends (g e))
    → Ends (either f g a)
either-Ends f g none (o, h) k l = absurd (none-ne-some o h)
either-Ends f g (some (ok v)) h k l = k v refl
either-Ends f g (some (err e)) h k l = l e
either-Ends f g (some panic) h k l = (panic, refl)
either-Ends f g (some stuck) h k l = (stuck, refl)

module _ (env : Env) (rank : Bytes → ℕ) where
  fields-Ends :
      (text : MsgSpec → Answer Bytes) (k : ℕ)
      → ((name : Bytes) (d : MsgSpec) → definition env name ≡ ok d → rank name < k → Ends (text d))
      → (fs : List Field) (buf : Bytes) → All (IsLower rank k) fs
      → Ends (direct_fields env text fs buf)
  fields-Ends text k h [] buf l = unfold direct_fields in (_, refl)
  fields-Ends text k h (f ∷ fs) buf l = elim (Bool-cases (length f.package_name == 0)) [
    | inl e ↦
        rw (direct_fields_plain env text f fs buf e)
          (fields-Ends text k h fs (buf ++ field_line f) l.1)
    | inr e ↦ rw (direct_fields_nested env text f fs buf e) (
        either-Ends _ _ (some (definition env (full_type f))) (definition env (full_type f), refl)
          (λ d q.
            either-Ends _ _ (sum_with env text d)
              (either-Ends _ _ (text d) (h (full_type f) d (some-injective _ _ q) (l.0 e))
                (λ t p. (_, refl)) (λ e. (_, refl)))
              (λ sum p. fields-Ends text k h fs (buf ++ sum_line sum f.name) l.1) (λ e. (_, refl)))
          (λ e. (_, refl)))
  ]

  text-Ends :
      (n : ℕ) (name : Bytes) (d : MsgSpec)
      → IsRanked env rank
      → definition env name ≡ ok d
      → rank name < n
      → Ends (direct_text env n d)
  unfolding direct_text
  text-Ends zero name d h e l = absurd (omega arith)
  text-Ends (suc n) name d h e l =
      fields-Ends (direct_text env n) (rank name) (λ x c q m. text-Ends n x c h q (omega arith))
        d.fields (constant_lines d.constants) (h name d e)

  direct_load-Ends :
      (n : ℕ) (name : Bytes) → IsRanked env rank → rank name < n → Ends (direct_load env n name)
  unfolding direct_load
  direct_load-Ends n name h l =
      either-Ends _ _ (some (definition env name)) (definition env name, refl)
        (λ d q.
          either-Ends _ _ (direct_sum env n d)
            (either-Ends _ _ (direct_text env n d) (text-Ends n name d h (some-injective _ _ q) l)
              (λ t p. (_, refl)) (λ e. (_, refl)))
            (λ sum p. (_, refl)) (λ e. (_, refl)))
        (λ e. (_, refl))

  -- With a rank for the names that falls from a message to those of its fields, a load ends, at a depth
  -- above the rank, with the answer of the files alone.
  pub load_msg-Ends :
      (n : ℕ) (name : Bytes) (r : Registry)
      → IsRanked env rank
      → IsCoherent env r
      → rank name < n
      → (o : Result Error MsgSpec) × (r2 : Registry) × (load_msg env n name r ≡ some (o, r2))
        × (direct_load env n name ≡ some o)
        × IsCoherent env r2
  load_msg-Ends n name r h c l =
      let (o, e) = direct_load-Ends n name h l in
      let (r2, g, k) = load_msg-direct_load env n name r o c e in (o, r2, g, e, k)
