-- ===== src/Indexer/Models.antt =====
-- The models of src/noxipher/indexer/models.py, as the fields that they declare, and the reading of
-- answers by them in src/noxipher/indexer/client.py. How pydantic validates is a parameter.
use noxipher.Prelude.{
  ℕ, String, ◌-◌, ◌≡◌, if◌then◌else◌, ◌&&◌, leb, List, [], ◌∷◌, Option, none, some, codes, list_eq,
  map,
}
use noxipher.Core.Exceptions.{Result, ok, err, ◌>>=◌, or_key_error, type_error}
use noxipher.Node.Json.{Json, null, text, array, object, Items, nil, cons, Fields, list_}
use noxipher.Indexer.Documents.{get_member}

-- The annotations of the fields; `model` is by the name of its class.
pub data Annotation : Type 0 where
  int str bool any_dict : Annotation
  list_of or_none : Annotation → Annotation
  model : List ℕ → Annotation

-- A field, with its default; a field without one is required.
pub record FieldInfo : Type 0 where
  pub name : List ℕ
  pub annotation : Annotation
  pub default : Option Json

abbrev required : String → Annotation → FieldInfo
required name annotation = record { name = codes name; annotation = annotation; default = none }

abbrev optional : String → Annotation → Json → FieldInfo
optional name annotation default = record {
  name = codes name;
  annotation = annotation;
  default = some default;
}

abbrev pub Model : Type 0
Model = List FieldInfo

unfoldable pub block_model : Model
block_model =
    required "height" int
    ∷ required "hash" str
    ∷ optional "parent_hash" (or_none str) null
    ∷ optional "timestamp" (or_none str) null
    ∷ []

unfoldable pub transaction_result_model : Model
transaction_result_model =
    required "status" str ∷ optional "segments" (list_of any_dict) (array nil) ∷ []

unfoldable pub transaction_model : Model
transaction_model =
    required "hash" str
    ∷ optional "block" (or_none (model (codes "Block"))) null
    ∷ optional "transaction_result" (or_none (model (codes "TransactionResult"))) null
    ∷ optional "fees" (or_none any_dict) null
    ∷ optional "raw" (or_none str) null
    ∷ optional "unshielded_created_outputs" (list_of any_dict) (array nil)
    ∷ optional "unshielded_spent_outputs" (list_of any_dict) (array nil)
    ∷ optional "events" (list_of any_dict) (array nil)
    ∷ []

unfoldable pub dust_generation_status_model : Model
dust_generation_status_model =
    required "cardano_stake_key" str
    ∷ required "is_registered" bool
    ∷ required "available_dust" str
    ∷ optional "registered_utxos" (list_of any_dict) (array nil)
    ∷ []

-- `normalize_status`, on texts whose cased letters are ASCII; any other value is left as it is.
unfoldable pub normalize_status : Json → Json
normalize_status (text status) =
    text (map (λ c. if leb b'a' c && leb c b'z' then c - 32 else c) status)
normalize_status value = value

-- The field of a name that a model declares.
unfoldable pub declared : List ℕ → Model → Option FieldInfo
declared name [] = none
declared name (info ∷ infos) =
    let rest = declared name infos in if list_eq info.name name then some info else rest

-- pydantic, with what its documentation says of a model without aliases: `model_validate` takes a
-- dict, a required field must be among its keys, and a field that is not has its default. The
-- attribute of a nested model is the object of that model's attributes.
pub record Pydantic : Type 1 where
  pub Instance : Type 0
  pub model_validate : Model → Json → Result Instance
  pub attribute : Instance → List ℕ → Json
  pub takes_dicts :
      (m : Model) (value : Json) (instance_ : Instance)
      → model_validate m value ≡ ok instance_
      → (fields : Fields) × (value ≡ object fields)
  pub needs_required :
      (m : Model) (fields : Fields) (instance_ : Instance) (name : List ℕ) (info : FieldInfo)
      → model_validate m (object fields) ≡ ok instance_
      → declared name m ≡ some info
      → info.default ≡ none
      → (value : Json) × (get_member name fields ≡ some value)
  pub takes_default :
      (m : Model) (fields : Fields) (instance_ : Instance) (name : List ℕ) (info : FieldInfo)
      (value : Json)
      → model_validate m (object fields) ≡ ok instance_
      → declared name m ≡ some info
      → info.default ≡ some value
      → get_member name fields ≡ none
      → attribute instance_ name ≡ value

-- `value[key]`
unfoldable pub subscript : List ℕ → Json → Result Json
subscript key (object fields) = or_key_error (get_member key fields)
subscript key value = err type_error

module _ (py : Pydantic) where
  open py use {Instance, model_validate}

  unfoldable pub validate_each : Model → Items → Result (List Instance)
  validate_each m nil = ok []
  validate_each m (cons item items) = do
    instance_ ← model_validate m item
    instances ← validate_each m items
    ok (instance_ ∷ instances)

  -- What the calls of the client make of an answer.
  unfoldable pub read_block : Json → Result Instance
  read_block answer = subscript (codes "block") answer >>= model_validate block_model

  unfoldable pub read_transactions : Json → Result (List Instance)
  read_transactions answer = do
    transactions ← subscript (codes "transactions") answer
    nodes ← subscript (codes "nodes") transactions
    items ← list_ nodes
    validate_each transaction_model items

  unfoldable pub read_dust_statuses : Json → Result (List Instance)
  read_dust_statuses answer = do
    statuses ← subscript (codes "dustStatus") answer
    items ← list_ statuses
    validate_each dust_generation_status_model items

  -- `subscribe_blocks`, of one event.
  unfoldable pub read_added_block : Json → Result Instance
  read_added_block event = subscript (codes "blockAdded") event >>= model_validate block_model

-- The answer's nodes, as they are.
unfoldable pub read_utxos : Json → Result Json
read_utxos answer = do
  utxos ← subscript (codes "unshieldedUtxos") answer
  subscript (codes "nodes") utxos

unfoldable pub read_session : Json → Result Json
read_session answer = subscript (codes "connect") answer
