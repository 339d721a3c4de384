-- ===== src/Tx/Polling.antt =====
-- What `_wait_for_receipt` of src/noxipher/tx/builder.py reads of a transaction that the indexer
-- client returns. `int` of a text is a parameter.
use noxipher.Prelude.{
  ℕ, Bool, true, false, not, ◌&&◌, if◌then◌else◌, List, [], ◌∷◌, Option, none, some, codes, list_eq,
}
use noxipher.Core.Exceptions.{Result, ok, err, ◌>>=◌, type_error, value_error, attribute_error}
use noxipher.Node.Json.{Json, null, text, boolean, number, array, object, Items, nil, cons, Fields}
use noxipher.Indexer.Documents.{get_member}
use noxipher.Indexer.Client.{Query, IndexerClient, get_transactions}
use noxipher.Indexer.Models.{Pydantic, read_transactions}
use noxipher.Tx.Receipt.{Event, IndexedTransaction}

-- An attribute that is a str or an int by its annotation.
unfoldable pub text_attribute : Json → List ℕ
text_attribute (text t) = t
text_attribute value = []

unfoldable pub number_attribute : Json → ℕ
number_attribute (number n) = n
number_attribute value = 0

unfoldable pub member_or_null : List ℕ → Fields → Json
member_or_null name fields = elim (get_member name fields) [ none ↦ null | some value ↦ value ]

-- `contract_address: str | None`
unfoldable pub checked_address : Json → Result (Option (List ℕ))
checked_address null = ok none
checked_address (text t) = ok (some t)
checked_address value = err value_error

-- `data.get("address")`
unfoldable pub address_in : Json → Result (Option (List ℕ))
address_in (object members) = checked_address (member_or_null (codes "address") members)
address_in value = err attribute_error

-- `event.get("data", {}).get("address")`
unfoldable pub event_address : Fields → Result (Option (List ℕ))
event_address fields = elim (get_member (codes "data") fields) [
  | none ↦ ok none
  | some value ↦ address_in value
]

-- The events; the data of those behind the first deployment are not looked at.
unfoldable pub read_events : Bool → Items → Result (List Event)
read_events found nil = ok []
read_events found (cons (object fields) items) =
    let type_ = text_attribute (member_or_null (codes "type") fields) in
    let deployed = not found && list_eq type_ (codes "ContractDeployed") in
    let rest = read_events (if found then true else deployed) items in
    (if deployed then event_address fields else ok none) >>= λ address.
    rest >>= λ events. ok (record { type_ = type_; address = address } ∷ events)
read_events found (cons value items) = err attribute_error

unfoldable pub events_in : Json → Result (List Event)
events_in (array items) = read_events false items
events_in value = ok []

unfoldable pub block_in : Json → Option (ℕ × List ℕ)
block_in (object fields) = some (
  number_attribute (member_or_null (codes "height") fields),
  text_attribute (member_or_null (codes "hash") fields),
)
block_in value = none

module _ (int_of_text : List ℕ → Result ℕ) where
  -- `int(value)`
  unfoldable pub int_ : Json → Result ℕ
  int_ (number n) = ok n
  int_ (boolean b) = ok (if b then 1 else 0)
  int_ (text t) = int_of_text t
  int_ value = err type_error

  -- `int(tx.fees.get("paid_fees", 0)) if tx.fees else 0`
  unfoldable pub paid_fees_in : Json → Result (Option ℕ)
  paid_fees_in (object fields) = elim (get_member (codes "paid_fees") fields) [
    | none ↦ ok none
    | some value ↦ int_ value >>= λ fee. ok (some fee)
  ]
  paid_fees_in value = ok none

  module _ (py : Pydantic) where
    -- Nothing is read of a transaction without a result.
    unfoldable pub indexed_with : Json → py.Instance → Result IndexedTransaction
    indexed_with (object result) tx = do
      events ← events_in (py.attribute tx (codes "events"))
      paid_fees ← paid_fees_in (py.attribute tx (codes "fees"))
      ok (record {
        hash = text_attribute (py.attribute tx (codes "hash"));
        block = block_in (py.attribute tx (codes "block"));
        status = some (text_attribute (member_or_null (codes "status") result));
        paid_fees = paid_fees;
        events = events;
      })
    indexed_with value tx =
        ok (record { hash = []; block = none; status = none; paid_fees = none; events = [] })

    unfoldable pub indexed : py.Instance → Result IndexedTransaction
    indexed tx = indexed_with (py.attribute tx (codes "transaction_result")) tx

    -- Only the first transaction is read.
    unfoldable pub first_indexed : List py.Instance → Result (List IndexedTransaction)
    first_indexed [] = ok []
    first_indexed (tx ∷ txs) = indexed tx >>= λ first. ok (first ∷ [])

    -- What the k-th poll for a hash gets, with the attempts that the indexer client makes for it.
    unfoldable pub poll :
        (ℕ → ℕ → Query → Result Json)
        → IndexerClient
        → List ℕ
        → ℕ
        → Result (List IndexedTransaction)
    poll execute client tx_hash k =
        get_transactions (execute k) (read_transactions py) client (some tx_hash) none 10
        >>= first_indexed
