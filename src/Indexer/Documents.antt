-- ===== src/Indexer/Documents.antt =====
-- The documents of src/noxipher/indexer/queries.py, mutations.py and the subscription to blocks, as
-- the names that they select, and the shape that an answer to a document has.
use noxipher.Prelude.{
  ℕ, String, ◌≡◌, refl, Bool, false, if◌then◌else◌, List, Option, none, some, codes, list_eq, arith,
  ◌||◌,
}
use noxipher.Node.Json.{Json, null, array, object, Items, nil, cons, Fields, end, field}
use noxipher.Indexer.Client.{
  Query, block_query, transactions_query, connect_query, disconnect_query, dust_status_query,
  utxos_query,
}

-- A selection set: a name with what is selected below it, and the names that follow.
pub data Selections : Type 0 where
  nothing : Selections
  select : List ℕ → Selections → Selections → Selections

abbrev pub leaf : String → Selections → Selections
leaf name rest = select (codes name) nothing rest

-- `block { height hash }`
abbrev pub short_block : Selections
short_block = leaf "height" (leaf "hash" nothing)

abbrev pub full_block : Selections
full_block = leaf "height" (leaf "hash" (leaf "parentHash" (leaf "timestamp" nothing)))

abbrev pub indexed_output : Selections
indexed_output = leaf "utxoId" (leaf "address" (leaf "value" (leaf "tokenType" nothing)))

abbrev pub transaction_node : Selections
transaction_node = leaf "hash" (
    select (codes "block") short_block (
      select (codes "transactionResult")
        (leaf "status"
          (select (codes "segments") (leaf "segmentId" (leaf "status" nothing)) nothing))
        (select (codes "fees") (leaf "paidFees" nothing) (
          leaf "raw" (
            select (codes "unshieldedCreatedOutputs") indexed_output
              (select (codes "unshieldedSpentOutputs") indexed_output nothing))))))

abbrev pub dust_status_node : Selections
dust_status_node = leaf "cardanoStakeKey" (
    leaf "isRegistered" (
      leaf "availableDust"
        (select (codes "registeredUtxos") (leaf "utxoId" (leaf "value" nothing)) nothing)))

abbrev pub utxo_node : Selections
utxo_node =
    leaf "utxoId" (leaf "value" (leaf "tokenType" (leaf "intentHash" (leaf "outputNo" nothing))))

-- The documents, from GET_BLOCK to GET_UTXOS.
unfoldable pub get_block_document : Selections
get_block_document = select (codes "block") full_block nothing

unfoldable pub get_transactions_document : Selections
get_transactions_document =
    select (codes "transactions") (select (codes "nodes") transaction_node nothing) nothing

unfoldable pub get_dust_status_document : Selections
get_dust_status_document = select (codes "dustStatus") dust_status_node nothing

unfoldable pub get_utxos_document : Selections
get_utxos_document =
    select (codes "unshieldedUtxos") (select (codes "nodes") utxo_node nothing) nothing

unfoldable pub subscribe_blocks_document : Selections
subscribe_blocks_document = select (codes "blockAdded") full_block nothing

unfoldable pub connect_wallet : Selections
connect_wallet = leaf "connect" nothing

unfoldable pub disconnect_wallet : Selections
disconnect_wallet = leaf "disconnect" nothing

-- What a call of the client sends.
unfoldable pub document_of : Query → Selections
document_of (block_query height hash) = get_block_document
document_of (transactions_query hash address limit) = get_transactions_document
document_of (connect_query viewing_key) = connect_wallet
document_of (disconnect_query session_id) = disconnect_wallet
document_of (dust_status_query stake_keys) = get_dust_status_document
document_of (utxos_query address) = get_utxos_document

-- The answers that GraphQL allows: null, a list of answers, an object with a member for each
-- selected name, and any value where nothing is selected below a name.
mutual
  pub data Answers : Selections → Json → Type 0 where
    absent : {s : Selections} → Answers s null
    scalar : {value : Json} → Answers nothing value
    several : {s : Selections} {items : Items} → EachAnswers s items → Answers s (array items)
    members : {s : Selections} {fields : Fields} → Selected s fields → Answers s (object fields)

  pub data EachAnswers : Selections → Items → Type 0 where
    no_more : {s : Selections} → EachAnswers s nil
    one_more :
        {s : Selections} {item : Json} {items : Items}
        → Answers s item
        → EachAnswers s items
        → EachAnswers s (cons item items)

  pub data Selected : Selections → Fields → Type 0 where
    all_given : Selected nothing end
    given :
        {name : List ℕ} {below rest : Selections} {value : Json} {fields : Fields}
        → Answers below value
        → Selected rest fields
        → Selected (select name below rest) (field name value fields)

-- `d.get(name)`, with `none` for a missing key.
unfoldable pub get_member : List ℕ → Fields → Option Json
get_member name end = none
get_member name (field key value fields) =
    let rest = get_member name fields in if list_eq key name then some value else rest

unfoldable pub selects : List ℕ → Selections → Bool
selects name nothing = false
selects name (select key below rest) = list_eq key name || selects name rest

-- A name that is not selected is no key of the answer.
pub get_member-unselected :
    {s : Selections} {fields : Fields} (name : List ℕ)
    → Selected s fields
    → selects name s ≡ false
    → get_member name fields ≡ none
unfolding get_member selects
get_member-unselected name all_given h = refl
get_member-unselected name (given {name = key} {rest = rest} answer more) h =
    ground (arith, get_member-unselected name more)
