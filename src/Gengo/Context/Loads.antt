-- ===== src/Gengo/Context/Loads.antt =====
-- libgengo/context.go: LoadMsg.
use mathlib.Core.Option.{some-injective, none-ne-some}
use rosgo.Prelude.{
  ℕ, Option, none, some, Bytes, str_eq_iff, Result, ok, err, panic, stuck, ◌≡◌, ◌≢◌, refl, sym, ap,
  ◌∙◌, inl, inr, Option-cases, ok-injective,
}
use rosgo.Gengo.{MsgSpec}
use rosgo.Gengo.Context.{
  Env, Registry, Error, message_not_found, given, cases, bind, ret, fail, lift, load_known_with,
  load_msg_from_file_with, with_sum, put, register, load_msg, load_msg_with, compute_md5_text,
}
use rosgo.Gengo.Context.Direct.{
  Answer, either, failed, definition, direct_sum, direct_load, summed, direct_sum_unique,
}
use rosgo.Gengo.Context.Answers.{compute_md5_text-Gives}
use rosgo.Gengo.Context.Cache.{IsKnown, IsCoherent, Loads, load-Loads, loaded, undefined}

module _ (env : Env) where
  abbrev Agrees : Result Error MsgSpec → Option (Result Error MsgSpec × Registry) → Type 0
  Agrees o x = (r2 : Registry) × (x ≡ some (o, r2)) × IsCoherent env r2

  known_sum :
      (n : ℕ) (name : Bytes) (s d : MsgSpec) (o : Result Error MsgSpec)
      → IsKnown env name s
      → definition env name ≡ ok d
      → summed env n d ≡ some o
      → ok s ≡ o
  known_sum n name s d o k h e =
      let same : k.parsed ≡ d = ok-injective k.parsed d (sym k.defined ∙ h) in
      elim (Option-cases (direct_sum env n d)) [
        | inl g ↦ absurd (no_sum (direct_sum env n d) g e)
        | inr (a, g) ↦
            let m : direct_sum env k.depth d ≡ some (ok k.sum) =
              ap (direct_sum env k.depth) (sym same) ∙ k.sum_is in
            let u : direct_sum env n d ≡ some (ok k.sum) =
              g ∙ ap (λ x. some x) (direct_sum_unique env n k.depth d a (ok k.sum) g m) in
            some-injective (ok s) o (
              ap (λ x. some (ok x)) (k.spec_is ∙ ap (with_sum k.sum) same)
              ∙ ap (either (λ sum. some (ok (with_sum sum d))) failed) (sym u)
              ∙ e)
      ]
    where
      no_sum :
          (a : Answer Bytes)
          → a ≡ none
          → either (λ sum. some (ok (with_sum sum d))) failed a ≡ some o
          → ⊥
      no_sum a g e = cc

  -- The answer, by that for the sum.
  moved :
      (n : ℕ) (d : MsgSpec) (o : Result Error MsgSpec) (a : Answer Bytes)
      → direct_sum env n d ≡ a
      → summed env n d ≡ some o
      → either (λ sum. some (ok (with_sum sum d))) failed a ≡ some o
  moved n d o a l e = sym (ap (either (λ sum. some (ok (with_sum sum d))) failed) l) ∙ e

  by_Loads :
      (n : ℕ) (name : Bytes) (d : MsgSpec) (o : Result Error MsgSpec)
      (x : Option (Result Error MsgSpec × Registry))
      → definition env name ≡ ok d
      → summed env n d ≡ some o
      → Loads env n (compute_md5_text env n) (compute_md5_text-Gives env n) name d x
      → Agrees o x
  by_Loads n name d o none h e l = absurd (none-ne-some o (moved n d o none l e))
  by_Loads n name d o (some (ok s, r)) h e (k, c) =
      (r, ap (λ p. some (p, r)) (known_sum n name s d o k h e), c)
  by_Loads n name d o (some (err f, r)) h e (l, c) =
      (r, ap (λ p. some (p, r)) (some-injective (err f) o (moved n d o (some (err f)) l e)), c)
  by_Loads n name d o (some (panic, r)) h e (l, c) =
      (r, ap (λ p. some (p, r)) (some-injective panic o (moved n d o (some panic) l e)), c)
  by_Loads n name d o (some (stuck, r)) h e (l, c) =
      (r, ap (λ p. some (p, r)) (some-injective stuck o (moved n d o (some stuck) l e)), c)

  not_defined :
      (n : ℕ) (name : Bytes) (r : Registry) (o p : Result Error MsgSpec)
      → IsCoherent env r
      → definition env name ≡ p
      → ((d : MsgSpec) → p ≢ ok d)
      → loaded env n (compute_md5_text env n) (compute_md5_text-Gives env n) name p r ≡ some (p, r)
      → p ≡ o
      → Agrees o (load_msg_with env (compute_md5_text env n) name r)
  not_defined n name r o p c h k l e = (
    r,
    undefined env n (compute_md5_text env n) (compute_md5_text-Gives env n) name p r h c k
        ∙ l
        ∙ ap (λ q. some (q, r)) e,
    c,
  )

  by_definition :
      (n : ℕ) (name : Bytes) (r : Registry) (o p : Result Error MsgSpec)
      → IsCoherent env r
      → definition env name ≡ p
      → either (summed env n) failed (some p) ≡ some o
      → Agrees o (load_msg_with env (compute_md5_text env n) name r)
  by_definition n name r o (ok d) c h e =
      by_Loads n name d o _ h e
        (load-Loads env n (compute_md5_text env n) (compute_md5_text-Gives env n) name d r h c)
  by_definition n name r o (err f) c h e =
      not_defined n name r o (err f) c h (λ d q. cc) refl (some-injective (err f) o e)
  by_definition n name r o panic c h e =
      not_defined n name r o panic c h (λ d q. cc) refl (some-injective panic o e)
  by_definition n name r o stuck c h e =
      not_defined n name r o stuck c h (λ d q. cc) refl (some-injective stuck o e)

  -- Under a registry of what the files define, `LoadMsg` gives what they define, with the sum computed from
  -- the files alone, and its errors, and leaves such a registry: what was loaded before makes no difference.
  pub load_msg-direct_load :
      (n : ℕ) (name : Bytes) (r : Registry) (o : Result Error MsgSpec)
      → IsCoherent env r
      → direct_load env n name ≡ some o
      → (r2 : Registry) × (load_msg env n name r ≡ some (o, r2)) × IsCoherent env r2
  unfolding load_msg direct_load
  load_msg-direct_load n name r o c e = by_definition n name r o (definition env name) c refl e

  result :
      (o p : Result Error MsgSpec) (r r2 : Registry)
      → ◌≡◌ {A = Option (Result Error MsgSpec × Registry)} (some (o, r)) (some (p, r2))
      → (o ≡ p) × (r ≡ r2)
  result o p r r2 e = let q = some-injective (o, r) (p, r2) e in (ap (λ t. t.0) q, ap (λ t. t.1) q)

  registered :
      (name : Bytes) (s : MsgSpec) (r2 : Registry) (x : Option (Result Error MsgSpec × Registry))
      → cases (λ spec. bind (register name spec) (λ _. ret spec)) fail x ≡ some (ok s, r2)
      → r2 name ≡ some s
  unfolding register
  registered name s r2 none e = absurd (none-ne-some _ e)
  registered name s r2 (some (ok t, r)) e =
      let (o, q) = result (ok t) (ok s) (put name t r) r2 e in
      ap (λ f. f name) (sym q) ∙ own t r ∙ ap (λ x. some x) (ok-injective t s o)
    where
      own : (t : MsgSpec) (r : Registry) → put name t r name ≡ some t
      own t r = rw ((str_eq_iff name name).1 refl) refl
  registered name s r2 (some (err f, r)) e = let h = (result (err f) (ok s) r r2 e).0 in cc
  registered name s r2 (some (panic, r)) e = let h = (result panic (ok s) r r2 e).0 in cc
  registered name s r2 (some (stuck, r)) e = let h = (result stuck (ok s) r r2 e).0 in cc

  known_registered :
      (n : ℕ) (name : Bytes) (o : Option MsgSpec) (r r2 : Registry) (s : MsgSpec)
      → r name ≡ o
      → load_known_with env (compute_md5_text env n) name o r ≡ some (ok s, r2)
      → r2 name ≡ some s
  known_registered n name (some t) r r2 s h e =
      let (o, q) = result (ok t) (ok s) r r2 e in
      ap (λ f. f name) (sym q) ∙ h ∙ ap (λ x. some x) (ok-injective t s o)
  known_registered n name none r r2 s h e = by_path (env.msg_path_map name) e
    where
      by_path :
          (p : Option Bytes)
          → bind
              (lift (given (message_not_found name) p))
              (λ path.
                bind
                  (load_msg_from_file_with env (compute_md5_text env n) path name)
                  (λ spec. bind (register name spec) (λ _. ret spec)))
              r
            ≡ some (ok s, r2)
          → r2 name ≡ some s
      by_path none e = let h = (result (err (message_not_found name)) (ok s) r r2 e).0 in cc
      by_path (some path) e =
          registered name s r2 (load_msg_from_file_with env (compute_md5_text env n) path name r) e

  -- A message that is loaded is registered, and is the one given from then on, at any depth and with no change
  -- of the registry.
  pub load_msg-load_msg :
      (n m : ℕ) (name : Bytes) (r r2 : Registry) (s : MsgSpec)
      → load_msg env n name r ≡ some (ok s, r2)
      → (r2 name ≡ some s) × (load_msg env m name r2 ≡ some (ok s, r2))
  unfolding load_msg
  load_msg-load_msg n m name r r2 s e =
      let h = known_registered n name (r name) r r2 s refl e in (h, rw h refl)
