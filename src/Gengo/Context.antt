-- ===== src/Gengo/Context.antt =====
-- libgengo/context.go: the registry of the message specifications that are loaded, and how a
-- specification and its MD5 sum are computed.
pub mod Direct
pub mod Cache
pub mod Answers
pub mod Loads
pub mod Ends
pub mod Missing
pub mod Trimmed
use rosgo.Prelude.{
  ℕ, zero, suc, Bool, true, false, List, [], ◌∷◌, ◌++◌, Option, none, some, Bytes, codes, str_eq,
  length, ◌==◌, if◌then◌else◌, Result, ok, err, panic, stuck, ◌>>=◌, with_error,
}
use rosgo.Gengo.{Constant, Field, MsgSpec, SrvSpec}
use rosgo.Gengo.Types.{package_resource_name}
use rosgo.Gengo.Fields.{new_msg_spec}
use rosgo.Gengo.Lines.{Library}
use rosgo.Gengo.Print.{newline, field_string}
use rosgo.Gengo.Definition.{SyntaxError, split_lines, load_lines}

-- What does not change: the files, by their paths and by the names of what they define, and crypto/md5 with
-- encoding/hex.
pub record Env : Type 0 where
  pub library : Library
  pub read_file : Bytes → Option Bytes
  pub md5 : Bytes → Bytes
  pub msg_path_map : Bytes → Option Bytes
  pub srv_path_map : Bytes → Option Bytes

abbrev pub Registry : Type 0
Registry = Bytes → Option MsgSpec

pub data Error : Type 0 where
  illegal_resource_name : Bytes → Error
  syntax_error : Bytes → SyntaxError → Error
  unreadable : Bytes → Error
  message_not_found service_not_found : Bytes → Error
  missing_delimiter : Error

-- A computation on the registry. It is `none` if its nested loads go deeper than they are counted.
abbrev pub Loader {ℓ} : Type ℓ → Type ℓ
Loader A = Registry → Option (Result Error A × Registry)

abbrev pub ret {ℓ} : {A : Type ℓ} → A → Loader A
ret a r = some (ok a, r)

abbrev pub fail {ℓ} : {A : Type ℓ} → Error → Loader A
fail e r = some (err e, r)

-- What follows a computation, on success and on an error.
abbrev pub cases {ℓ} :
    {A B : Type ℓ}
    → (A → Loader B)
    → (Error → Loader B)
    → Option (Result Error A × Registry)
    → Option (Result Error B × Registry)
cases f g none = none
cases f g (some (ok a, r)) = f a r
cases f g (some (err e, r)) = g e r
cases f g (some (panic, r)) = some (panic, r)
cases f g (some (stuck, r)) = some (stuck, r)

abbrev pub try {ℓ} : {A B : Type ℓ} → Loader A → (A → Loader B) → (Error → Loader B) → Loader B
try m f g r = cases f g (m r)

abbrev pub bind {ℓ} : {A B : Type ℓ} → Loader A → (A → Loader B) → Loader B
bind m f = try m f fail

abbrev pub lift {ℓ} : {A : Type ℓ} → Result Error A → Loader A
lift o r = some (o, r)

abbrev pub given {ℓ} : {A : Type ℓ} → Error → Option A → Result Error A
given e none = err e
given e (some a) = ok a

abbrev pub put : Bytes → MsgSpec → Registry → Registry
put full_name spec r name = if str_eq name full_name then some spec else r name

-- `Register`.
unfoldable pub register : Bytes → MsgSpec → Loader {0} Unit
register full_name spec r = some (ok tt, put full_name spec r)

-- `strings.Trim(s, "\n")`.
unfoldable pub trim_front : Bytes → Bytes
trim_front [] = []
trim_front (c ∷ s) = if c == newline then trim_front s else c ∷ s

unfoldable pub trim_back : Bytes → Bytes
trim_back [] = []
trim_back (c ∷ s) =
    let rest = trim_back s in
    if (c == newline) then (elim rest [ [] ↦ [] | d ∷ t ↦ c ∷ d ∷ t ]) else c ∷ rest

abbrev pub trim_newlines : Bytes → Bytes
trim_newlines s = trim_front (trim_back s)

abbrev pub constant_line : Constant → Bytes
constant_line c = c.constant_type ++ b' ' ∷ (c.name ++ b'=' ∷ (c.value_text ++ newline ∷ []))

unfoldable pub constant_lines : List Constant → Bytes
constant_lines [] = []
constant_lines (c ∷ cs) = constant_line c ++ constant_lines cs

abbrev pub with_sum : Bytes → MsgSpec → MsgSpec
with_sum sum s = record {
  fields = s.fields;
  constants = s.constants;
  text = s.text;
  md5_sum = sum;
  full_name = s.full_name;
  short_name = s.short_name;
  package_name = s.package_name;
}

-- The pure part of `LoadMsgFromString`: the specification without its sum.
abbrev pub parsed : Library → Bytes → Bytes → Option (Bytes × Bytes) → Result Error MsgSpec
parsed l text full_name none = err (illegal_resource_name full_name)
parsed l text full_name (some (package_name, short_name)) =
    with_error (syntax_error full_name) (load_lines l package_name 0 (split_lines text))
    >>= λ (fields, constants).
        ok (new_msg_spec fields constants text full_name package_name short_name)

unfoldable pub parse_msg : Library → Bytes → Bytes → Result Error MsgSpec
parse_msg l text full_name = parsed l text full_name (package_resource_name full_name)

abbrev pub full_type : Field → Bytes
full_type f = f.package_name ++ b'/' ∷ f.field_type

abbrev pub sum_line : Bytes → Bytes → Bytes
sum_line sum name = sum ++ b' ' ∷ (name ++ newline ∷ [])

abbrev pub field_line : Field → Bytes
field_line f = field_string f ++ newline ∷ []

module _ (env : Env) where
  -- The methods, over `ComputeMD5Text` as it stands below them.
  module _ (md5_text : MsgSpec → Loader Bytes) where
    -- `ComputeMsgMD5`.
    abbrev pub msg_md5_with : MsgSpec → Loader Bytes
    msg_md5_with spec = bind (md5_text spec) (λ text. ret (env.md5 text))

    abbrev pub finish_with : Bytes → MsgSpec → Loader MsgSpec
    finish_with full_name spec =
        bind (msg_md5_with spec)
          (λ sum. bind (register full_name (with_sum sum spec)) (λ _. ret (with_sum sum spec)))

    -- `LoadMsgFromString`.
    abbrev pub load_msg_from_string_with : Bytes → Bytes → Loader MsgSpec
    load_msg_from_string_with text full_name =
        bind (lift (parse_msg env.library text full_name)) (finish_with full_name)

    -- `LoadMsgFromFile`.
    abbrev pub load_msg_from_file_with : Bytes → Bytes → Loader MsgSpec
    load_msg_from_file_with path full_name =
        bind (lift (given (unreadable path) (env.read_file path)))
          (λ text. load_msg_from_string_with text full_name)

    abbrev pub load_known_with : Bytes → Option MsgSpec → Loader MsgSpec
    load_known_with full_name (some spec) = ret spec
    load_known_with full_name none =
        bind (lift (given (message_not_found full_name) (env.msg_path_map full_name))) (λ path.
          bind (load_msg_from_file_with path full_name)
            (λ spec. bind (register full_name spec) (λ _. ret spec)))

    -- `LoadMsg`.
    abbrev pub load_msg_with : Bytes → Loader MsgSpec
    load_msg_with full_name r = load_known_with full_name (r full_name) r

    -- The loop over the fields, with the buffer so far. An error in a nested message ends it with the
    -- empty text.
    unfoldable pub fields_text_with : List Field → Bytes → Loader Bytes
    fields_text_with [] buf r = some (ok (trim_newlines buf), r)
    fields_text_with (f ∷ fs) buf r = elim (length f.package_name == 0) [
      | true ↦ fields_text_with fs (buf ++ field_line f) r
      | false ↦
          cases
            (λ subspec.
              try (msg_md5_with subspec) (λ sum. fields_text_with fs (buf ++ sum_line sum f.name))
                (λ e. ret []))
            (λ e. ret []) (load_msg_with (full_type f) r)
    ]

  -- `ComputeMD5Text`, with the depth of the nested messages counted down.
  unfoldable pub compute_md5_text : ℕ → MsgSpec → Loader Bytes
  compute_md5_text zero spec r = none
  compute_md5_text (suc n) spec r =
      fields_text_with (compute_md5_text n) spec.fields (constant_lines spec.constants) r

  unfoldable pub compute_msg_md5 : ℕ → MsgSpec → Loader Bytes
  compute_msg_md5 n = msg_md5_with (compute_md5_text n)

  unfoldable pub load_msg_from_string : ℕ → Bytes → Bytes → Loader MsgSpec
  load_msg_from_string n = load_msg_from_string_with (compute_md5_text n)

  unfoldable pub load_msg_from_file : ℕ → Bytes → Bytes → Loader MsgSpec
  load_msg_from_file n = load_msg_from_file_with (compute_md5_text n)

  unfoldable pub load_msg : ℕ → Bytes → Loader MsgSpec
  load_msg n = load_msg_with (compute_md5_text n)
