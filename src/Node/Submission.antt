-- ===== src/Node/Submission.antt =====
-- `submit_extrinsic` and `submit_and_watch` of src/noxipher/node/client.py.
use noxipher.Prelude.{
  ℕ, ◌≡◌, arith, Bool, true, false, List, [], ◌∷◌, ◌++◌, none, some, codes, All, IsByte,
}
use noxipher.Core.Exceptions.{
  Result, ok, err, ◌>>=◌, ◌>>◌, raise_if, >>=-eq-ok, raise_if-eq-ok, transaction_error,
  substrate_request_exception,
}
use noxipher.Wallet.Hex.{hex, fromhex, fromhex-hex}
use noxipher.Node.Json.{Json.text, Builtins, Response, result_or, str_}
use noxipher.Node.Connection.{NodeClient, Substrate, require_connection}

-- `except SubstrateRequestException`
unfoldable pub catch_request : Result Response → Result Response
catch_request (err substrate_request_exception) = err transaction_error
catch_request answer = answer

-- `"error" in result`
unfoldable pub has_error : Response → Bool
has_error response = elim response.error [ none ↦ false | some e ↦ true ]

module _ (py : Builtins) where
  unfoldable pub submit : List ℕ → NodeClient → List ℕ → Result (List ℕ)
  submit method client raw_tx_bytes = do
    substrate ← require_connection client
    let hex_tx = codes "0x" ++ hex raw_tx_bytes
    result ← catch_request (substrate.rpc_request method (text hex_tx ∷ []))
    raise_if (has_error result) transaction_error
    ok (str_ py (result_or result (text [])))

  unfoldable pub submit_extrinsic : NodeClient → List ℕ → Result (List ℕ)
  submit_extrinsic = submit (codes "author_submitExtrinsic")

  unfoldable pub submit_and_watch : NodeClient → List ℕ → Result (List ℕ)
  submit_and_watch = submit (codes "author_submitAndWatchExtrinsic")

require_connection-eq-ok :
    (client : NodeClient) {s : Substrate}
    → require_connection client ≡ ok s
    → client.substrate ≡ some s
unfolding require_connection
require_connection-eq-ok client h = ground arith

catch_request-eq-ok :
    (answer : Result Response) {r : Response} → catch_request answer ≡ ok r → answer ≡ ok r
unfolding catch_request
catch_request-eq-ok (ok response) h = h
catch_request-eq-ok (err substrate_request_exception) h = cc
catch_request-eq-ok (err e) h = cc

has_error-eq-false : (r : Response) → has_error r ≡ false → r.error ≡ none
unfolding has_error
has_error-eq-false r h = ground arith

-- A submission that returns a hash went to the interface of an open connection, as one text whose
-- digits behind `0x` are read back as exactly the bytes of the transaction; the answer held no
-- error, and the hash is its result.
pub submit_extrinsic-eq-ok :
    (py : Builtins) (client : NodeClient) (raw_tx_bytes tx_hash : List ℕ)
    → All IsByte raw_tx_bytes
    → submit_extrinsic py client raw_tx_bytes ≡ ok tx_hash
    → (substrate : Substrate) × (digits : List ℕ) × (answer : Response) × (client.substrate
        ≡ some substrate)
      × (substrate.rpc_request (codes "author_submitExtrinsic") (text (codes "0x" ++ digits) ∷ [])
          ≡ ok answer)
      × (fromhex digits ≡ ok raw_tx_bytes)
      × (answer.error ≡ none)
      × (tx_hash ≡ str_ py (result_or answer (text [])))
unfolding submit_extrinsic submit
submit_extrinsic-eq-ok py client raw_tx_bytes tx_hash bytes h =
    let (s, found, sent) = >>=-eq-ok (require_connection client) _ h in
    let call =
      s.rpc_request (codes "author_submitExtrinsic") (text (codes "0x" ++ hex raw_tx_bytes) ∷ []) in
    let (answer, caught, checked) = >>=-eq-ok (catch_request call) _ sent in
    let (_, accepted, done) = >>=-eq-ok (raise_if (has_error answer) transaction_error) _ checked in
    (
      s,
      hex raw_tx_bytes,
      answer,
      require_connection-eq-ok client found,
      catch_request-eq-ok call caught,
      fromhex-hex raw_tx_bytes bytes,
      has_error-eq-false answer (raise_if-eq-ok _ _ accepted),
      cc,
    )
