-- ===== src/Node/Connection.antt =====
-- `connect`, `disconnect` and `_require_connection` of src/noxipher/node/client.py. The interface
-- of the substrate library is a parameter: what opening it and a
-- request give. What closing it raises is dropped, so closing it has no part here.
use noxipher.Prelude.{ℕ, Bool, true, false, List, [], ◌∷◌, Option, none, some}
use noxipher.Core.Exceptions.{Result, ok, err, connection_error}
use noxipher.Node.Json.{Json, Response}

pub record Call : Type 0 where
  pub name : List ℕ
  pub index : ℕ

-- `pallet.get("calls")` is None, or the list behind its key "calls".
pub record Pallet : Type 0 where
  pub name : List ℕ
  pub index : ℕ
  pub calls : Option (List Call)

pub record Substrate : Type 0 where
  pub rpc_request : List ℕ → List Json → Result Response
  pub get_metadata : Result (List Pallet)
  pub get_metadata_types : Result (List (List ℕ))

pub record NodeClient : Type 0 where
  pub ws_url : List ℕ
  pub substrate : Option Substrate

unfoldable pub new_client : List ℕ → NodeClient
new_client ws_url = record { ws_url = ws_url; substrate = none }

-- A failed attempt leaves the connection that was there.
unfoldable pub take_interface : NodeClient → Result Substrate → NodeClient × Result (Unit {0})
take_interface client (ok substrate) = (record client { substrate = some substrate }, ok tt)
take_interface client (err e) = (client, err connection_error)

unfoldable pub connect :
    Bool → (List ℕ → Result Substrate) → NodeClient → NodeClient × Result (Unit {0})
connect false open_interface client = (client, err connection_error)
connect true open_interface client = take_interface client (open_interface client.ws_url)

unfoldable pub disconnect : NodeClient → NodeClient
disconnect client = elim client.substrate [
  | none ↦ client
  | some substrate ↦ record client { substrate = none }
]

-- `_require_connection`, with the interface that the check finds.
unfoldable pub require_connection : NodeClient → Result Substrate
require_connection client = elim client.substrate [
  | none ↦ err connection_error
  | some substrate ↦ ok substrate
]

-- What happens to a client: an attempt to connect with what it gives, or a disconnect.
pub data Event : Type 0 where
  attempt : (available : Bool) → (opened : Result Substrate) → Event
  close_ : Event

unfoldable pub handle : NodeClient → Event → NodeClient
handle client (attempt available opened) = (connect available (λ url. opened) client).0
handle client close_ = disconnect client

unfoldable pub run : NodeClient → List Event → NodeClient
run client [] = client
run client (event ∷ events) = run (handle client event) events

-- The interface of the last attempt that succeeded, unless a disconnect followed it.
unfoldable pub last_interface : Option Substrate → List Event → Option Substrate
last_interface current [] = current
last_interface current (attempt true (ok substrate) ∷ events) =
    last_interface (some substrate) events
last_interface current (attempt true (err e) ∷ events) = last_interface current events
last_interface current (attempt false opened ∷ events) = last_interface current events
last_interface current (close_ ∷ events) = last_interface none events
