-- ===== src/Node/Lifecycle.antt =====
-- The client of src/noxipher/node/client.py over attempts to connect and disconnects: which
-- interface it holds, and what it answers without one.
use noxipher.Prelude.{
  ℕ, ◌≡◌, refl, ap, ◌∙◌, true, false, List, [], ◌∷◌, Option, none, some, Option-cases, inl, inr,
}
use noxipher.Core.Exceptions.{ok, err, connection_error}
use noxipher.Node.Json.{Builtins}
use noxipher.Node.Connection.{
  NodeClient, new_client, take_interface, connect, disconnect, require_connection, Event, attempt,
  close_, handle, run, last_interface,
}
use noxipher.Node.Rpc.{
  request, text_of, dict_of, root_of, get_chain_name, get_health, get_runtime_version,
  get_block_hash, get_block, get_finalized_head, get_header, get_ledger_version, get_contract_state,
  get_contract_state_bytes, get_api_versions, get_zswap_state_root, get_ledger_state_root,
  get_metadata_types,
}
use noxipher.Node.Submission.{submit, submit_extrinsic, submit_and_watch}
use noxipher.Node.Metadata.{get_pallet_call_index}

substrate-disconnect : (client : NodeClient) → (disconnect client).substrate ≡ none
unfolding disconnect
substrate-disconnect client = elim (Option-cases client.substrate) [
  | inl closed ↦ rw (disconnect, closed) closed
  | inr (s, e) ↦ rw (disconnect, e) refl
]

-- After any events the client holds the interface that the last of them leaves.
run-last_interface :
    (events : List Event) (client : NodeClient)
    → (run client events).substrate ≡ last_interface client.substrate events
unfolding run handle connect take_interface last_interface
run-last_interface [] client = refl
run-last_interface (attempt true (ok s) ∷ events) client =
    run-last_interface events (record client { substrate = some s })
run-last_interface (attempt true (err e) ∷ events) client = run-last_interface events client
run-last_interface (attempt false opened ∷ events) client = run-last_interface events client
run-last_interface (close_ ∷ events) client =
    run-last_interface events (disconnect client)
    ∙ ap (λ s. last_interface s events) (substrate-disconnect client)

-- Every method of a client that holds no interface raises ConnectionError, but the health check,
-- which answers that there is none.
pub record Refuses (py : Builtins) (client : NodeClient) : Type 0 where
  pub chain_name : get_chain_name py client ≡ err connection_error
  pub health : get_health py client ≡ none
  pub runtime_version : get_runtime_version py client ≡ err connection_error
  pub block_hash : (height : Option ℕ) → get_block_hash py client height ≡ err connection_error
  pub block : (hash : Option (List ℕ)) → get_block py client hash ≡ err connection_error
  pub finalized_head : get_finalized_head py client ≡ err connection_error
  pub header : (hash : Option (List ℕ)) → get_header py client hash ≡ err connection_error
  pub extrinsic : (raw : List ℕ) → submit_extrinsic py client raw ≡ err connection_error
  pub watched : (raw : List ℕ) → submit_and_watch py client raw ≡ err connection_error
  pub ledger_version :
      (hash : Option (List ℕ)) → get_ledger_version py client hash ≡ err connection_error
  pub api_versions : get_api_versions client ≡ err connection_error
  pub contract_state :
      (address : List ℕ) (hash : Option (List ℕ))
      → get_contract_state py client address hash ≡ err connection_error
  pub contract_state_bytes :
      (address : List ℕ) (hash : Option (List ℕ))
      → get_contract_state_bytes py client address hash ≡ err connection_error
  pub zswap_root :
      (hash : Option (List ℕ)) → get_zswap_state_root client hash ≡ err connection_error
  pub ledger_root :
      (hash : Option (List ℕ)) → get_ledger_state_root client hash ≡ err connection_error
  pub metadata_types : get_metadata_types client ≡ err connection_error
  pub call_index :
      (pallet call : List ℕ) → get_pallet_call_index client pallet call ≡ err connection_error

module _ (py : Builtins) (client : NodeClient)
    (closed : require_connection client ≡ err connection_error) where
  closed-Refuses : Refuses py client
  unfolding get_chain_name get_health get_runtime_version get_block_hash get_block
      get_finalized_head get_header submit submit_extrinsic submit_and_watch get_ledger_version
      get_api_versions get_contract_state get_contract_state_bytes get_zswap_state_root
      get_ledger_state_root get_metadata_types get_pallet_call_index request text_of dict_of root_of
  closed-Refuses = record {
    chain_name = rw closed;
    health = rw (get_health, closed);
    runtime_version = rw closed;
    block_hash = λ height. rw closed;
    block = λ hash. rw closed;
    finalized_head = rw closed;
    header = λ hash. rw closed;
    extrinsic = λ raw. rw closed;
    watched = λ raw. rw closed;
    ledger_version = λ hash. rw closed;
    api_versions = rw closed;
    contract_state = λ address hash. rw closed;
    contract_state_bytes = λ address hash. rw closed;
    zswap_root = λ hash. rw closed;
    ledger_root = λ hash. rw closed;
    metadata_types = rw closed;
    call_index = λ pallet call. rw closed;
  }

-- A client that was made for an address and went through any attempts to connect and disconnects,
-- of which the last successful attempt, if there is one, is followed by a disconnect: each of its
-- methods raises ConnectionError, and its health check answers none.
pub run-Refuses :
    (py : Builtins) (ws_url : List ℕ) (events : List Event)
    → last_interface none events ≡ none
    → Refuses py (run (new_client ws_url) events)
unfolding new_client require_connection
run-Refuses py ws_url events h =
    let absent : (run (new_client ws_url) events).substrate ≡ none =
      run-last_interface events (new_client ws_url) ∙ h in
    closed-Refuses py (run (new_client ws_url) events) (rw (require_connection, absent))
