-- ===== src/Gengo/Services.antt =====
-- libgengo/context.go: the specifications of services.
use rosgo.Prelude.{ℕ, true, false, ◌&&◌, List, [], ◌∷◌, ◌++◌, Bytes, codes, ◌==◌, Result, ok, err}
use rosgo.Gengo.{MsgSpec, SrvSpec}
use rosgo.Gengo.Types.{package_resource_name}
use rosgo.Gengo.Context.{
  Env, Loader, Error, illegal_resource_name, unreadable, service_not_found, missing_delimiter, ret,
  bind, lift, given, compute_md5_text, load_msg_from_string,
}

-- A byte in front of the first of the parts.
abbrev pub in_front : ℕ → List Bytes → List Bytes
in_front c [] = (c ∷ []) ∷ []
in_front c (p ∷ ps) = (c ∷ p) ∷ ps

-- `strings.Split(text, "---")`.
unfoldable pub split_dashes : Bytes → List Bytes
split_dashes [] = [] ∷ []
split_dashes (a ∷ []) = (a ∷ []) ∷ []
split_dashes (a ∷ b ∷ []) = (a ∷ b ∷ []) ∷ []
split_dashes (a ∷ b ∷ c ∷ s) = elim (a == b'-' && b == b'-' && c == b'-') [
  | true ↦ [] ∷ split_dashes s
  | false ↦ in_front a (split_dashes (b ∷ c ∷ s))
]

abbrev pub halves : List Bytes → Result Error (Bytes × Bytes)
halves (request ∷ response ∷ []) = ok (request, response)
halves _ = err missing_delimiter

abbrev pub srv_spec : Bytes × Bytes → Bytes → Bytes → Bytes → MsgSpec → MsgSpec → SrvSpec
srv_spec (package_name, short_name) full_name text sum request response = record {
  package_name = package_name;
  short_name = short_name;
  full_name = full_name;
  text = text;
  md5_sum = sum;
  request = request;
  response = response;
}

module _ (env : Env) (n : ℕ) where
  -- `ComputeSrvMD5`: the hash is of one text behind the other.
  unfoldable pub compute_srv_md5 : MsgSpec → MsgSpec → Loader Bytes
  compute_srv_md5 request response = bind (compute_md5_text env n request) (λ request_text.
      bind (compute_md5_text env n response)
        (λ response_text. ret (env.md5 (request_text ++ response_text))))

  -- `LoadSrvFromString`.
  unfoldable pub load_srv_from_string : Bytes → Bytes → Loader SrvSpec
  load_srv_from_string text full_name =
      bind (lift (given (illegal_resource_name full_name) (package_resource_name full_name)))
        (λ names. bind (lift (halves (split_dashes text))) (λ (request_text, response_text).
          bind (load_msg_from_string env n request_text (full_name ++ codes "Request")) (λ request.
            bind (load_msg_from_string env n response_text (full_name ++ codes "Response"))
              (λ response.
                bind (compute_srv_md5 request response)
                  (λ sum. ret (srv_spec names full_name text sum request response))))))

  -- `LoadSrvFromFile`.
  unfoldable pub load_srv_from_file : Bytes → Bytes → Loader SrvSpec
  load_srv_from_file path full_name =
      bind (lift (given (unreadable path) (env.read_file path)))
        (λ text. load_srv_from_string text full_name)

  -- `LoadSrv`.
  unfoldable pub load_srv : Bytes → Loader SrvSpec
  load_srv full_name =
      bind (lift (given (service_not_found full_name) (env.srv_path_map full_name)))
        (λ path. load_srv_from_file path full_name)
