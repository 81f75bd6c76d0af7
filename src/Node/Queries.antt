-- ===== src/Node/Queries.antt =====
-- ros/node.go: the parameters and the topics that a node asks the master for.
use rosgo.Prelude.{
  Bool, List, [], ◌∷◌, Bytes, codes, Result, ok, err, panic, stuck, with_error, ◌>>=◌,
}
use rosgo.Name
use rosgo.Name.{NameResolver, remap}
use rosgo.Xmlrpc.{Value, absent, boolean, str, arr, Values, nil}
use rosgo.Api
use rosgo.Node.Topics.{Error, bad_name, api}

-- A call of the master: its method and its arguments.
abbrev pub Request : Type 0
Request = Bytes × List Value

-- What a query returns, and the calls it makes.
abbrev pub Asked {ℓ} : Type ℓ → Type ℓ
Asked A = Result Error A × List Request

abbrev pub asked {ℓ} : {A : Type ℓ} → Result Name.Error Bytes → (Bytes → Asked A) → Asked A
asked (ok name) f = f name
asked (err e) f = (err (bad_name e), [])
asked panic f = (panic, [])
asked stuck f = (stuck, [])

abbrev pub answer_of : Api.Outcome Value → Result Error Value
answer_of o = with_error api o

-- `result.(bool)` and `result.(string)`.
abbrev pub as_bool : Value → Result Error Bool
as_bool (boolean b) = ok b
as_bool _ = panic

abbrev pub as_string : Value → Result Error Bytes
as_string (str s) = ok s
as_string _ = panic

-- The list of an answer: a value that is no list is as the empty list, but nil has no type to tell of.
abbrev pub as_list : Value → Result Error Values
as_list (arr vs) = ok vs
as_list absent = panic
as_list _ = ok nil

-- A node by its qualified name, and what the master answers.
module _ (n : NameResolver) (qualified_name : Bytes) (answer : Api.Outcome Value) where
  unfoldable pub get_param : Bytes → Asked Value
  get_param key =
      asked (remap n key)
        (λ name. (answer_of answer, (codes "getParam", str qualified_name ∷ str name ∷ []) ∷ []))

  unfoldable pub set_param : Bytes → Value → Asked {0} Unit
  set_param key value = asked (remap n key) (λ name. (
    answer_of answer >>= λ v. ok tt,
    (codes "setParam", str qualified_name ∷ str name ∷ value ∷ []) ∷ [],
  ))

  unfoldable pub has_param : Bytes → Asked Bool
  has_param key = asked (remap n key) (λ name.
      (answer_of answer >>= as_bool, (codes "hasParam", str qualified_name ∷ str name ∷ []) ∷ []))

  -- The key is searched for as it is given.
  unfoldable pub search_param : Bytes → Asked Bytes
  search_param key = (
    answer_of answer >>= as_string,
    (codes "searchParam", str qualified_name ∷ str key ∷ []) ∷ [],
  )

  unfoldable pub delete_param : Bytes → Asked {0} Unit
  delete_param key = asked (remap n key) (λ name. (
    answer_of answer >>= λ v. ok tt,
    (codes "deleteParam", str qualified_name ∷ str name ∷ []) ∷ [],
  ))

  unfoldable pub get_published_topics : Bytes → Asked Values
  get_published_topics subgraph = (
    answer_of answer >>= as_list,
    (codes "getPublishedTopics", str qualified_name ∷ str subgraph ∷ []) ∷ [],
  )

  -- An error is only logged, and the answer is then nil.
  abbrev pub or_absent : Result Error Value → Result Error Value
  or_absent (err e) = ok absent
  or_absent o = o

  unfoldable pub get_topic_types : Asked Values
  get_topic_types = (
    or_absent (answer_of answer) >>= as_list,
    (codes "getTopicTypes", str qualified_name ∷ []) ∷ [],
  )
