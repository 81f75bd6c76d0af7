-- ===== src/Gengo/Context/Direct.antt =====
-- libgengo/context.go: what a message and its MD5 sum are without a registry, from the files alone.
use rosgo.Prelude.{
  ℕ, zero, suc, true, false, List, [], ◌∷◌, ◌++◌, Option, none, some, Bytes, length, ◌==◌, Result,
  ok, err, panic, stuck, ◌>>=◌, ◌≡◌, refl, sym, ◌≤◌, leb, Bool-cases, inl, inr, arith,
}
use rosgo.Gengo.{Field, MsgSpec}
use rosgo.Gengo.Context.{
  Env, Error, message_not_found, unreadable, given, parse_msg, with_sum, trim_newlines,
  constant_lines, full_type, sum_line, field_line,
}

-- An answer. It is `none` if it takes more nested messages than are counted.
abbrev pub Answer {ℓ} : Type ℓ → Type ℓ
Answer A = Option (Result Error A)

abbrev pub either {ℓ} : {A B : Type ℓ} → (A → Answer B) → (Error → Answer B) → Answer A → Answer B
either f g none = none
either f g (some (ok a)) = f a
either f g (some (err e)) = g e
either f g (some panic) = some panic
either f g (some stuck) = some stuck

abbrev pub failed {ℓ} : {A : Type ℓ} → Error → Answer A
failed e = some (err e)

-- The message that the files define under a name, without its sum.
unfoldable pub definition : Env → Bytes → Result Error MsgSpec
definition env full_name =
    given (message_not_found full_name) (env.msg_path_map full_name) >>= λ path.
    given (unreadable path) (env.read_file path) >>= λ text. parse_msg env.library text full_name

module _ (env : Env) where
  abbrev pub sum_with : (MsgSpec → Answer Bytes) → MsgSpec → Answer Bytes
  sum_with text spec = either (λ t. some (ok (env.md5 t))) failed (text spec)

  -- The lines of the fields behind a text, with the sum of each message in place of its type.
  unfoldable pub direct_fields : (MsgSpec → Answer Bytes) → List Field → Bytes → Answer Bytes
  direct_fields text [] buf = some (ok (trim_newlines buf))
  direct_fields text (f ∷ fs) buf = elim (length f.package_name == 0) [
    | true ↦ direct_fields text fs (buf ++ field_line f)
    | false ↦
        either
          (λ spec.
            either (λ sum. direct_fields text fs (buf ++ sum_line sum f.name)) (λ e. some (ok []))
              (sum_with text spec))
          (λ e. some (ok [])) (some (definition env (full_type f)))
  ]

  unfoldable pub direct_text : ℕ → MsgSpec → Answer Bytes
  direct_text zero spec = none
  direct_text (suc n) spec =
      direct_fields (direct_text n) spec.fields (constant_lines spec.constants)

  abbrev pub direct_sum : ℕ → MsgSpec → Answer Bytes
  direct_sum n = sum_with (direct_text n)

  abbrev pub summed : ℕ → MsgSpec → Answer MsgSpec
  summed n spec = either (λ sum. some (ok (with_sum sum spec))) failed (direct_sum n spec)

  unfoldable pub direct_load : ℕ → Bytes → Answer MsgSpec
  direct_load n full_name = either (summed n) failed (some (definition env full_name))

-- One answer is at least as defined as another.
abbrev Below {ℓ} : {A : Type ℓ} → Answer A → Answer A → Type ℓ
Below none b = Unit
Below (some o) b = b ≡ some o

Below-refl {ℓ} : {A : Type ℓ} (a : Answer A) → Below a a
Below-refl none = tt
Below-refl (some o) = refl

either-Below {ℓ} :
    {A B : Type ℓ} (f f2 : A → Answer B) (g : Error → Answer B) (a b : Answer A)
    → Below a b
    → ((v : A) → Below (f v) (f2 v))
    → Below (either f g a) (either f2 g b)
either-Below f f2 g none b h k = tt
either-Below f f2 g (some (ok v)) b h k = rw h (k v)
either-Below f f2 g (some (err e)) b h k = rw h (Below-refl (g e))
either-Below f f2 g (some panic) b h k = rw h refl
either-Below f f2 g (some stuck) b h k = rw h refl

Below-both {ℓ} : {A : Type ℓ} {a b c d : Answer A} → a ≡ c → b ≡ d → Below c d → Below a b
Below-both e g h = rw e (rw g h)

Below-unique {ℓ} :
    {A : Type ℓ} (x y : Answer A) (a b : Result Error A)
    → Below x y
    → x ≡ some a
    → y ≡ some b
    → a ≡ b
Below-unique none y a b h e g = cc
Below-unique (some o) y a b h e g = cc

module _ (env : Env) where
  sum_with-Below :
      (s t : MsgSpec → Answer Bytes) (spec : MsgSpec)
      → Below (s spec) (t spec)
      → Below (sum_with env s spec) (sum_with env t spec)
  sum_with-Below s t spec h =
      either-Below _ _ _ (s spec) (t spec) h (λ v. Below-refl (some (ok (env.md5 v))))

  -- The two steps of the loop.
  abbrev pub direct_nested : (MsgSpec → Answer Bytes) → Field → List Field → Bytes → Answer Bytes
  direct_nested text f fs buf =
      either
        (λ spec.
          either (λ sum. direct_fields env text fs (buf ++ sum_line sum f.name)) (λ e. some (ok []))
            (sum_with env text spec))
        (λ e. some (ok [])) (some (definition env (full_type f)))

  pub direct_fields_plain :
      (text : MsgSpec → Answer Bytes) (f : Field) (fs : List Field) (buf : Bytes)
      → (length f.package_name == 0) ≡ true
      → direct_fields env text (f ∷ fs) buf ≡ direct_fields env text fs (buf ++ field_line f)
  unfolding direct_fields
  direct_fields_plain text f fs buf h = rw (direct_fields, h) refl

  pub direct_fields_nested :
      (text : MsgSpec → Answer Bytes) (f : Field) (fs : List Field) (buf : Bytes)
      → (length f.package_name == 0) ≡ false
      → direct_fields env text (f ∷ fs) buf ≡ direct_nested text f fs buf
  unfolding direct_fields
  direct_fields_nested text f fs buf h = rw (direct_fields, h) refl

  direct_fields-Below :
      (s t : MsgSpec → Answer Bytes)
      → ((spec : MsgSpec) → Below (s spec) (t spec))
      → (fs : List Field) (buf : Bytes)
      → Below (direct_fields env s fs buf) (direct_fields env t fs buf)
  direct_fields-Below s t h [] buf = unfold direct_fields in refl
  direct_fields-Below s t h (f ∷ fs) buf = elim (Bool-cases (length f.package_name == 0)) [
    | inl e ↦
        Below-both (direct_fields_plain s f fs buf e) (direct_fields_plain t f fs buf e)
          (direct_fields-Below s t h fs (buf ++ field_line f))
    | inr e ↦ Below-both (direct_fields_nested s f fs buf e) (direct_fields_nested t f fs buf e) (
        either-Below _ _ _ (some (definition env (full_type f)))
          (some (definition env (full_type f))) refl
          (λ spec.
            either-Below _ _ _ (sum_with env s spec) (sum_with env t spec)
              (sum_with-Below s t spec (h spec))
              (λ sum. direct_fields-Below s t h fs (buf ++ sum_line sum f.name))))
  ]

  direct_text-Below :
      (n m : ℕ) (spec : MsgSpec) → n ≤ m → Below (direct_text env n spec) (direct_text env m spec)
  unfolding direct_text
  direct_text-Below zero m spec h = tt
  direct_text-Below (suc n) zero spec h = absurd (omega arith)
  direct_text-Below (suc n) (suc m) spec h =
      direct_fields-Below (direct_text env n) (direct_text env m)
        (λ d. direct_text-Below n m d (omega arith)) spec.fields (constant_lines spec.constants)

  direct_sum-Below :
      (n m : ℕ) (spec : MsgSpec) → n ≤ m → Below (direct_sum env n spec) (direct_sum env m spec)
  direct_sum-Below n m spec h =
      sum_with-Below (direct_text env n) (direct_text env m) spec (direct_text-Below n m spec h)

  -- A sum does not depend on how deep the messages may go.
  pub direct_sum_unique :
      (n m : ℕ) (spec : MsgSpec) (a b : Result Error Bytes)
      → direct_sum env n spec ≡ some a
      → direct_sum env m spec ≡ some b
      → a ≡ b
  direct_sum_unique n m spec a b h g = elim (Bool-cases (leb n m)) [
    | inl l ↦
        Below-unique (direct_sum env n spec) (direct_sum env m spec) a b
          (direct_sum-Below n m spec (ground arith)) h g
    | inr l ↦ sym (
        Below-unique (direct_sum env m spec) (direct_sum env n spec) b a
          (direct_sum-Below m n spec (ground arith)) g h)
  ]
