-- ===== src/Proof/Tests.antt =====
-- A proof server that fails at first, behind the prover of src/noxipher/proof/prover.py.
use noxipher.Prelude.{ℕ, zero, suc, ◌≡◌, refl, true, false, List, [], ◌∷◌, none, some, codes}
use noxipher.Core.Exceptions.{Result, ok, err, ◌>>=◌, http_error, retry_error}
use noxipher.Node.Json.{Json, number}
use noxipher.Wallet.Hex.{hex, hex_digit, fromhex, push_byte}
use noxipher.Indexer.Client.{retry}
use noxipher.Tx.Envelope.{other_kind}
use noxipher.Proof.Client.{
  ProofRequest, get_url, post_prove, HttpResponse, ProofServerClient, is_success, rstrip,
  raise_for_status, wrap_http_error, is_true, attempt_request, health, health_request,
  prove_request, prove, new_proof_client,
}
use noxipher.Proof.Prover.{
  UnsignedTransaction, ProvenTransaction, prove_circuits, prove_transaction,
}
use noxipher.Proof.Answered.{Pairwise, ProvedBy, prove_transaction-ProvedBy}

abbrev client : ProofServerClient
client = record { url = codes "http://localhost:6300"; opened = true }

stripped : new_proof_client (codes "http://localhost:6300//") ≡ record client { opened = false }
unfolding new_proof_client rstrip
stripped = refl

-- The first post is answered by 503.
abbrev send : ℕ → ProofRequest ℕ → Result HttpResponse
send k (get_url url) = ok (record { status_code = 200; content = 1 ∷ [] })
send zero (post_prove url circuit_id proving_key inputs) =
    ok (record { status_code = 503; content = [] })
send (suc k) (post_prove url circuit_id proving_key inputs) =
    ok (record { status_code = 200; content = inputs ∷ [] })

abbrev json_of : List ℕ → Result Json
json_of content = ok (number 1)

abbrev unproven : UnsignedTransaction ℕ
unproven = record {
  type_ = other_kind;
  requires_unshielded_signature = false;
  signing_payload_hex = [];
  circuits = record { id = some (codes "spend"); proving_key_hex = none; inputs = 171 } ∷ [];
  guaranteed_hex = [];
  fallible_hexes = [];
}

abbrev proven : ProvenTransaction
proven = record {
  type_ = other_kind;
  guaranteed_hex = [];
  fallible_hexes = [];
  proof_hexes = codes "ab" ∷ [];
  requires_unshielded_signature = false;
  signing_payload_hex = [];
  signature_hex = [];
}

proves :
    prove_transaction
      (health send client json_of >>= λ answer. ok (is_true answer))
      (prove send client)
      unproven
    ≡ ok proven
unfolding prove_transaction prove_circuits health attempt_request prove retry wrap_http_error
    raise_for_status is_true hex hex_digit fromhex push_byte health_request prove_request
proves = refl

unproved : prove (λ k (request : ProofRequest ℕ). err http_error) client [] [] 0 ≡ err retry_error
unfolding prove attempt_request retry wrap_http_error
unproved = refl

prove_transaction-ProvedBy_example :
    Pairwise (ProvedBy send client) unproven.circuits proven.proof_hexes
    × ((response : HttpResponse) × (send 0 (health_request send client) ≡ ok response)
        × (is_success response.status_code ≡ true))
prove_transaction-ProvedBy_example =
    prove_transaction-ProvedBy send client json_of unproven proven proves
