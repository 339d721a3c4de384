-- ===== src/Node/Tests.antt =====
-- The RPC client of src/noxipher/node/client.py with a concrete interface.
use noxipher.Prelude.{ℕ, ◌≡◌, refl, arith, true, List, [], ◌∷◌, ◌++◌, none, some, codes}
use noxipher.Core.Exceptions.{ok, err, value_error}
use noxipher.Wallet.Hex.{fromhex}
use noxipher.Node.Json.{Json.text, Builtins, Response, result_or, str_}
use noxipher.Node.Connection.{
  Pallet, Substrate, NodeClient, new_client, require_connection, Event, attempt, close_, run,
  last_interface,
}
use noxipher.Node.Submission.{
  catch_request, has_error, submit, submit_extrinsic, submit_extrinsic-eq-ok,
}
use noxipher.Node.Lifecycle.{Refuses, run-Refuses}

abbrev py : Builtins
py = record { repr = λ value. []; dict_of_items = λ items. err value_error }

abbrev answer : Response
answer = record { result = some (text (codes "0xab")); error = none }

abbrev pallets : List Pallet
pallets =
    record { name = codes "System"; index = 0; calls = none }
    ∷ record {
      name = codes "Midnight";
      index = 5;
      calls = some (record { name = codes "send_mn_transaction"; index = 0 } ∷ []);
    }
    ∷ []

abbrev interface : Substrate
interface = record {
  rpc_request = λ method params. ok answer;
  get_metadata = ok pallets;
  get_metadata_types = ok [];
}

abbrev connected : NodeClient
connected = record { ws_url = codes "ws://localhost:9944"; substrate = some interface }

-- Connected once, disconnected, and a second attempt that fails.
abbrev history : List Event
history = attempt true (ok interface) ∷ close_ ∷ attempt true (err value_error) ∷ []

nothing_left : last_interface none history ≡ none
unfolding last_interface
nothing_left = refl

run-Refuses_example : Refuses py (run (new_client (codes "ws://localhost:9944")) history)
run-Refuses_example = run-Refuses py (codes "ws://localhost:9944") history nothing_left

accepted : submit_extrinsic py connected (1 ∷ 255 ∷ []) ≡ ok (codes "0xab")
unfolding submit_extrinsic submit require_connection catch_request has_error result_or str_
accepted = refl

submit_extrinsic-eq-ok_example :
    (substrate : Substrate) × (digits : List ℕ) × (reply : Response) × (connected.substrate
      ≡ some substrate)
    × (substrate.rpc_request (codes "author_submitExtrinsic") (text (codes "0x" ++ digits) ∷ [])
        ≡ ok reply)
    × (fromhex digits ≡ ok (1 ∷ 255 ∷ []))
    × (reply.error ≡ none)
    × (codes "0xab" ≡ str_ py (result_or reply (text [])))
submit_extrinsic-eq-ok_example =
    submit_extrinsic-eq-ok py connected (1 ∷ 255 ∷ []) (codes "0xab")
      (omega arith, (omega arith, tt)) accepted
