-- ===== src/Gengo/Context/Missing.antt =====
-- libgengo/context.go: ComputeMD5Text over fields of builtin types, and over one whose message cannot be loaded.
use rosgo.Prelude.{
  ℕ, suc, true, false, List, [], ◌∷◌, ◌++◌, none, some, Bytes, length, ◌==◌, ok, err, ◌≡◌, refl,
  sym, ap, ◌∙◌, map, All, All-append, append_assoc, append-nil,
}
use rosgo.Gengo.Print.{newline, field_string, join_lines}
use rosgo.Gengo.{Field, MsgSpec}
use rosgo.Gengo.Context.{
  Env, Registry, cases, ret, fields_text_with, compute_md5_text, compute_msg_md5, constant_lines,
  trim_newlines, full_type, field_line, Loader,
}
use rosgo.Gengo.Context.Trimmed.{
  constant_text, IsLine, IsFull, unlines, unlines-append, constant_lines-unlines, constants-IsFull,
  fields-IsFull, trim_newlines-unlines,
}

abbrev pub IsPlain : Field → Type 0
IsPlain f = (length f.package_name == 0) ≡ true

-- The lines of the MD5 text: those of the constants, then those of the fields.
abbrev pub md5_lines : MsgSpec → List Bytes
md5_lines spec = map constant_text spec.constants ++ map field_string spec.fields

abbrev field_lines : List Field → Bytes
field_lines [] = []
field_lines (f ∷ fs) = field_line f ++ field_lines fs

field_lines-unlines : (fs : List Field) → field_lines fs ≡ unlines (map field_string fs)
field_lines-unlines [] = refl
field_lines-unlines (f ∷ fs) =
    append_assoc (field_string f) (newline ∷ []) (field_lines fs)
    ∙ ap (λ t. field_string f ++ newline ∷ t) (field_lines-unlines fs)

md5_lines-unlines :
    (spec : MsgSpec)
    → constant_lines spec.constants ++ field_lines spec.fields ≡ unlines (md5_lines spec)
md5_lines-unlines spec =
    ap (λ t. t ++ field_lines spec.fields) (constant_lines-unlines spec.constants)
    ∙ ap (λ t. unlines (map constant_text spec.constants) ++ t) (field_lines-unlines spec.fields)
    ∙ sym (unlines-append (map constant_text spec.constants) (map field_string spec.fields))

md5_lines-IsFull : (spec : MsgSpec) → All IsFull (md5_lines spec)
md5_lines-IsFull spec =
    All-append IsFull (map constant_text spec.constants) _ (constants-IsFull spec.constants)
      (fields-IsFull spec.fields)

module _ (env : Env) (md5_text : MsgSpec → Loader Bytes) where
  plain_then :
      (fs gs : List Field) (buf : Bytes) (r : Registry)
      → All IsPlain fs
      → fields_text_with env md5_text (fs ++ gs) buf r
        ≡ fields_text_with env md5_text gs (buf ++ field_lines fs) r
  unfolding fields_text_with
  plain_then [] gs buf r h = ap (λ b. fields_text_with env md5_text gs b r) (sym (append-nil buf))
  plain_then (f ∷ fs) gs buf r h =
      rw (fields_text_with, h.0)
        (plain_then fs gs (buf ++ field_line f) r h.1
          ∙ ap (λ b. fields_text_with env md5_text gs b r)
              (append_assoc buf (field_line f) (field_lines fs)))

  missing :
      (f : Field) (gs : List Field) (buf : Bytes) (r : Registry)
      → (length f.package_name == 0) ≡ false
      → r (full_type f) ≡ none
      → env.msg_path_map (full_type f) ≡ none
      → fields_text_with env md5_text (f ∷ gs) buf r ≡ some (ok [], r)
  unfolding fields_text_with
  missing f gs buf r h e m = rw (fields_text_with, h) (rw e (rw m refl))

module _ (env : Env) where
  -- Of a message whose fields before some field are of builtin types, and where the message of that field
  -- is neither registered nor among the files, the MD5 sum is that of the empty text, whatever its
  -- constants and its fields are.
  pub compute_msg_md5-missing :
      (n : ℕ) (spec : MsgSpec) (fs gs : List Field) (f : Field) (r : Registry)
      → spec.fields ≡ fs ++ (f ∷ gs)
      → All IsPlain fs
      → (length f.package_name == 0) ≡ false
      → r (full_type f) ≡ none
      → env.msg_path_map (full_type f) ≡ none
      → compute_msg_md5 env (suc n) spec r ≡ some (ok (env.md5 []), r)
  unfolding compute_msg_md5 compute_md5_text
  compute_msg_md5-missing n spec fs gs f r s p h e m =
      ap (cases (λ text. ret (env.md5 text)) (λ e r. some (err e, r))) (
        ap (λ l. fields_text_with env (compute_md5_text env n) l (constant_lines spec.constants) r)
          s
        ∙ plain_then env (compute_md5_text env n) fs (f ∷ gs) (constant_lines spec.constants) r p
        ∙ missing env (compute_md5_text env n) f gs _ r h e m)

  -- Of a message whose fields are all of builtin types, and whose constants and fields are printed with
  -- no line break, the MD5 text is a line `type name=value` for each constant, with its text as the value,
  -- then the line of each field, in their orders, with breaks between the lines only. The registry stays.
  pub compute_md5_text-plain :
      (n : ℕ) (spec : MsgSpec) (r : Registry)
      → All IsPlain spec.fields
      → All IsLine (md5_lines spec)
      → compute_md5_text env (suc n) spec r ≡ some (ok (join_lines (md5_lines spec)), r)
  unfolding compute_md5_text
  compute_md5_text-plain n spec r p h =
      ap (λ l. fields_text_with env (compute_md5_text env n) l (constant_lines spec.constants) r)
        (sym (append-nil spec.fields))
      ∙ plain_then env (compute_md5_text env n) spec.fields [] (constant_lines spec.constants) r p
      ∙ unfold fields_text_with in
        refl
        ∙ ap (λ text. some (ok text, r))
            (ap trim_newlines (md5_lines-unlines spec)
              ∙ trim_newlines-unlines (md5_lines spec) h (md5_lines-IsFull spec))
