-- ===== src/Gengo/Context/Answers.antt =====
-- libgengo/context.go: ComputeMD5Text with a registry beside the computation from the files.
use rosgo.Prelude.{
  ℕ, zero, suc, true, false, List, [], ◌∷◌, ◌++◌, Option, none, some, Bytes, length, ◌==◌, Result,
  ok, err, panic, stuck, ◌≡◌, refl, Bool-cases, inl, inr,
}
use mathlib.Core.Path.{subst}
use rosgo.Gengo.{Field, MsgSpec}
use rosgo.Gengo.Context.{
  Env, Registry, Error, cases, try, ret, full_type, sum_line, field_line, msg_md5_with,
  load_msg_with, fields_text_with, compute_md5_text, constant_lines, Loader,
}
use rosgo.Gengo.Context.Direct.{
  Answer, either, failed, definition, direct_fields, direct_text, direct_sum, direct_fields_plain,
  direct_fields_nested,
}
use rosgo.Gengo.Context.Cache.{
  IsCoherent, Gives, cases-Gives, known_text, msg_md5-Gives, Loads, load-Loads, undefined,
}

module _ (env : Env) where
  module _ (n : ℕ) (md5_text : MsgSpec → Loader Bytes)
      (ih : (spec : MsgSpec) (r : Registry)
        → IsCoherent env r
        → Gives env (md5_text spec r) (direct_text env n spec)) where
    -- What follows a load in the loop over the fields.
    nested-Gives :
        (name : Bytes) (d : MsgSpec) (f : Bytes → Loader Bytes) (f2 : Bytes → Answer Bytes)
        → definition env name ≡ ok d
        → ((sum : Bytes) (r : Registry) → IsCoherent env r → Gives env (f sum r) (f2 sum))
        → (x : Option (Result Error MsgSpec × Registry)) → Loads env n md5_text ih name d x
        → Gives env
            (cases (λ s. try (msg_md5_with env md5_text s) f (λ e. ret [])) (λ e. ret []) x)
            (either f2 (λ e. some (ok [])) (direct_sum env n d))
    nested-Gives name d f f2 h k none l = rw l refl
    nested-Gives name d f f2 h k (some (ok s, r)) (known, c) =
        cases-Gives env f f2 (λ e. ret []) (λ e. some (ok [])) (msg_md5_with env md5_text s r)
          (direct_sum env n d)
          (subst
            (λ t.
              Gives env (msg_md5_with env md5_text s r)
                (either (λ t. some (ok (env.md5 t))) failed t))
            (known_text env n name s d known h) (msg_md5-Gives env n md5_text ih s r c))
          k (λ e r2 c2. (refl, c2))
    nested-Gives name d f f2 h k (some (err e, r)) (l, c) = rw l (refl, c)
    nested-Gives name d f f2 h k (some (panic, r)) (l, c) = rw l (refl, c)
    nested-Gives name d f f2 h k (some (stuck, r)) (l, c) = rw l (refl, c)

    field-Gives :
        (name : Bytes) (o : Result Error MsgSpec) (r : Registry) (f : Bytes → Loader Bytes)
        (f2 : Bytes → Answer Bytes)
        → definition env name ≡ o
        → IsCoherent env r
        → ((sum : Bytes) (r : Registry) → IsCoherent env r → Gives env (f sum r) (f2 sum))
        → Gives env
            (cases
              (λ s. try (msg_md5_with env md5_text s) f (λ e. ret []))
              (λ e. ret [])
              (load_msg_with env md5_text name r))
            (either
              (λ d. either f2 (λ e. some (ok [])) (direct_sum env n d))
              (λ e. some (ok []))
              (some o))
    field-Gives name (ok d) r f f2 h c k =
        nested-Gives name d f f2 h k (load_msg_with env md5_text name r)
          (load-Loads env n md5_text ih name d r h c)
    field-Gives name (err e) r f f2 h c k =
        rw (undefined env n md5_text ih name (err e) r h c (λ d q. cc)) (refl, c)
    field-Gives name panic r f f2 h c k =
        rw (undefined env n md5_text ih name panic r h c (λ d q. cc)) (refl, c)
    field-Gives name stuck r f f2 h c k =
        rw (undefined env n md5_text ih name stuck r h c (λ d q. cc)) (refl, c)

    fields-Gives :
        (fs : List Field) (buf : Bytes) (r : Registry)
        → IsCoherent env r
        → Gives env
            (fields_text_with env md5_text fs buf r)
            (direct_fields env (direct_text env n) fs buf)
    unfolding fields_text_with
    fields-Gives [] buf r c = unfold fields_text_with direct_fields in (refl, c)
    fields-Gives (f ∷ fs) buf r c = elim (Bool-cases (length f.package_name == 0)) [
      | inl e ↦
          gives_both (fields_plain f fs buf r e)
            (direct_fields_plain env (direct_text env n) f fs buf e)
            (fields-Gives fs (buf ++ field_line f) r c)
      | inr e ↦
          gives_both (fields_nested f fs buf r e)
            (direct_fields_nested env (direct_text env n) f fs buf e)
            (field-Gives (full_type f) (definition env (full_type f)) r _ _ refl c
              (λ sum r2 c2. fields-Gives fs (buf ++ sum_line sum f.name) r2 c2))
    ]
      where
        gives_both :
            {x y : Option (Result Error Bytes × Registry)} {a b : Answer Bytes}
            → x ≡ y
            → a ≡ b
            → Gives env y b
            → Gives env x a
        gives_both p q g = rw p (rw q g)

        fields_plain :
            (f : Field) (fs : List Field) (buf : Bytes) (r : Registry)
            → (length f.package_name == 0) ≡ true
            → fields_text_with env md5_text (f ∷ fs) buf r
              ≡ fields_text_with env md5_text fs (buf ++ field_line f) r
        fields_plain f fs buf r h = rw (fields_text_with, h) refl

        fields_nested :
            (f : Field) (fs : List Field) (buf : Bytes) (r : Registry)
            → (length f.package_name == 0) ≡ false
            → fields_text_with env md5_text (f ∷ fs) buf r
              ≡ cases
                  (λ s.
                    try
                      (msg_md5_with env md5_text s)
                      (λ sum. fields_text_with env md5_text fs (buf ++ sum_line sum f.name))
                      (λ e. ret []))
                  (λ e. ret [])
                  (load_msg_with env md5_text (full_type f) r)
        fields_nested f fs buf r h = rw (fields_text_with, h) refl

  pub compute_md5_text-Gives :
      (n : ℕ) (spec : MsgSpec) (r : Registry)
      → IsCoherent env r
      → Gives env (compute_md5_text env n spec r) (direct_text env n spec)
  unfolding compute_md5_text direct_text
  compute_md5_text-Gives zero spec r c = refl
  compute_md5_text-Gives (suc n) spec r c =
      fields-Gives n (compute_md5_text env n) (compute_md5_text-Gives n) spec.fields
        (constant_lines spec.constants) r c
