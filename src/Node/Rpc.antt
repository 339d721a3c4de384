-- ===== src/Node/Rpc.antt =====
-- The queries of src/noxipher/node/client.py.
use noxipher.Prelude.{ℕ, ◌&&◌, ◌==◌, List, [], ◌∷◌, Option, none, some, codes, if◌then◌else◌}
use noxipher.Core.Exceptions.{Result, ok, err, ◌>>=◌}
use noxipher.Wallet.Hex.{fromhex}
use noxipher.Node.Json.{
  Json, Json.null, Json.text, Json.number, Json.array, Json.object, Items, nil, Fields, end,
  Builtins, Response, result_or, str_, dict_, list_,
}
use noxipher.Node.Connection.{NodeClient, require_connection}

-- A check of the connection, then a request.
unfoldable pub request : NodeClient → List ℕ → List Json → Result Response
request client method params = do
  substrate ← require_connection client
  substrate.rpc_request method params

-- `[block_hash] if block_hash else default`: an empty text is taken for no hash.
unfoldable pub hash_params : Option (List ℕ) → List Json → List Json
hash_params none default = default
hash_params (some []) default = default
hash_params (some (c ∷ cs)) default = text (c ∷ cs) ∷ []

unfoldable pub hash_or_null : Option (List ℕ) → Json
hash_or_null none = null
hash_or_null (some []) = null
hash_or_null (some (c ∷ cs)) = text (c ∷ cs)

-- `str(result.get("result", ""))` and `dict(result.get("result", {}))` of an answer.
unfoldable pub text_of : Builtins → Result Response → Result (List ℕ)
text_of py answer = do response ← answer; ok (str_ py (result_or response (text [])))

unfoldable pub dict_of : Builtins → Result Response → Result Fields
dict_of py answer = do response ← answer; dict_ py (result_or response (object end))

-- `isinstance(raw, str) and raw.startswith("0x")`, with the digits behind the prefix.
unfoldable pub hex_digits : Json → Option (List ℕ)
hex_digits (text (c ∷ d ∷ cs)) = if c == b'0' && d == b'x' then some cs else none
hex_digits _ = none

-- The bytes of a state root; an answer that is no text with the prefix gives none.
unfoldable pub root_bytes : Json → Result (List ℕ)
root_bytes raw = elim (hex_digits raw) [ none ↦ ok [] | some digits ↦ fromhex digits ]

unfoldable pub root_of : Result Response → Result (List ℕ)
root_of answer = do response ← answer; root_bytes (result_or response (text []))

unfoldable pub height_params : Option ℕ → List Json
height_params none = []
height_params (some height) = number height ∷ []

-- The text with its prefix taken off, if it has one.
unfoldable pub state_bytes : List ℕ → Result (List ℕ)
state_bytes raw = elim (hex_digits (text raw)) [ none ↦ fromhex raw | some digits ↦ fromhex digits ]

module _ (py : Builtins) where
  unfoldable pub get_chain_name : NodeClient → Result (List ℕ)
  get_chain_name client = text_of py (request client (codes "system_chain") [])

  -- The chain's name, with the status "ok".
  unfoldable pub get_health : NodeClient → Option (List ℕ)
  get_health client = elim (get_chain_name client) [ ok name ↦ some name | err e ↦ none ]

  unfoldable pub get_runtime_version : NodeClient → Result Fields
  get_runtime_version client = dict_of py (request client (codes "state_getRuntimeVersion") [])

  unfoldable pub get_block_hash : NodeClient → Option ℕ → Result (List ℕ)
  get_block_hash client height =
      text_of py (request client (codes "chain_getBlockHash") (height_params height))

  unfoldable pub get_block : NodeClient → Option (List ℕ) → Result Fields
  get_block client block_hash =
      dict_of py (request client (codes "chain_getBlock") (hash_params block_hash []))

  unfoldable pub get_finalized_head : NodeClient → Result (List ℕ)
  get_finalized_head client = text_of py (request client (codes "chain_getFinalizedHead") [])

  unfoldable pub get_header : NodeClient → Option (List ℕ) → Result Fields
  get_header client block_hash =
      dict_of py (request client (codes "chain_getHeader") (hash_params block_hash []))

  unfoldable pub get_ledger_version : NodeClient → Option (List ℕ) → Result (List ℕ)
  get_ledger_version client block_hash =
      text_of py
        (request client (codes "midnight_ledgerVersion") (hash_params block_hash (null ∷ [])))

  unfoldable pub get_contract_state : NodeClient → List ℕ → Option (List ℕ) → Result (List ℕ)
  get_contract_state client contract_address_hex block_hash = text_of py (
      request client (codes "midnight_contractState")
        (text contract_address_hex ∷ hash_or_null block_hash ∷ []))

  unfoldable pub get_contract_state_bytes : NodeClient → List ℕ → Option (List ℕ) → Result (List ℕ)
  get_contract_state_bytes client contract_address_hex block_hash = do
    raw ← get_contract_state client contract_address_hex block_hash
    state_bytes raw

unfoldable pub get_api_versions : NodeClient → Result Items
get_api_versions client = do
  response ← request client (codes "midnight_apiVersions") []
  list_ (result_or response (array nil))

unfoldable pub get_zswap_state_root : NodeClient → Option (List ℕ) → Result (List ℕ)
get_zswap_state_root client block_hash =
    root_of (request client (codes "midnight_zswapStateRoot") (hash_or_null block_hash ∷ []))

unfoldable pub get_ledger_state_root : NodeClient → Option (List ℕ) → Result (List ℕ)
get_ledger_state_root client block_hash =
    root_of (request client (codes "midnight_ledgerStateRoot") (hash_or_null block_hash ∷ []))

unfoldable pub get_metadata_types : NodeClient → Result (List (List ℕ))
get_metadata_types client = do substrate ← require_connection client; substrate.get_metadata_types
