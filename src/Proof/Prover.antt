-- ===== src/Proof/Prover.antt =====
-- `ZKProver.prove_transaction` of src/noxipher/proof/prover.py, with the two models of
-- src/noxipher/tx/models.py that it goes between. The proof server is a parameter: what its health
-- check and a request for a proof give.
use noxipher.Prelude.{ℕ, suc, ◌≡◌, ap, Bool, not, List, [], ◌∷◌, Option, none, some, length}
use noxipher.Core.Exceptions.{
  Result, ok, ◌>>=◌, ◌>>◌, raise_if, >>=-eq-ok, proof_error, or_key_error,
}
use noxipher.Wallet.Hex.{hex, fromhex}
use noxipher.Tx.Envelope.{TxKind}

-- A circuit's dict; its inputs are whatever the server is sent.
pub record CircuitDict {ℓ} (I : Type ℓ) : Type ℓ where
  pub id : Option (List ℕ)
  pub proving_key_hex : Option (List ℕ)
  pub inputs : I

-- The fields that the prover reads.
pub record UnsignedTransaction {ℓ} (I : Type ℓ) : Type ℓ where
  pub type_ : TxKind
  pub requires_unshielded_signature : Bool
  pub signing_payload_hex : List ℕ
  pub circuits : List (CircuitDict I)
  pub guaranteed_hex : List ℕ
  pub fallible_hexes : List (List ℕ)

pub record ProvenTransaction : Type 0 where
  pub type_ : TxKind
  pub guaranteed_hex : List ℕ
  pub fallible_hexes : List (List ℕ)
  pub proof_hexes : List (List ℕ)
  pub requires_unshielded_signature : Bool
  pub signing_payload_hex : List ℕ
  pub signature_hex : List ℕ

abbrev pub or_empty : Option (List ℕ) → List ℕ
or_empty none = []
or_empty (some text) = text

module _ {ℓ} {I : Type ℓ} (prove : List ℕ → List ℕ → I → Result (List ℕ)) where
  unfoldable pub prove_circuits : List (CircuitDict I) → Result (List (List ℕ))
  prove_circuits [] = ok []
  prove_circuits (circuit ∷ circuits) = do
    circuit_id ← or_key_error circuit.id
    proving_key ← fromhex (or_empty circuit.proving_key_hex)
    proof_bytes ← prove circuit_id proving_key circuit.inputs
    proofs ← prove_circuits circuits
    ok (hex proof_bytes ∷ proofs)

  -- A proof for each circuit.
  length-prove_circuits :
      (circuits : List (CircuitDict I)) (proofs : List (List ℕ))
      → prove_circuits circuits ≡ ok proofs
      → length proofs ≡ length circuits
  unfolding prove_circuits
  length-prove_circuits [] proofs h = let e : [] ≡ proofs = cc h in rw (← e)
  length-prove_circuits (c ∷ cs) proofs h =
      let (circuit_id, _, h1) = >>=-eq-ok (or_key_error c.id) _ h in
      let (key, _, h2) = >>=-eq-ok (fromhex (or_empty c.proving_key_hex)) _ h1 in
      let (proof, _, h3) = >>=-eq-ok (prove circuit_id key c.inputs) _ h2 in
      let (rest, proved, h4) = >>=-eq-ok (prove_circuits cs) _ h3 in
      let e : hex proof ∷ rest ≡ proofs = cc h4 in
      rw (← e) (ap suc (length-prove_circuits cs rest proved))

-- `health` is whether the answer of the health check holds anything.
module _ {ℓ} {I : Type ℓ} (health : Result Bool)
    (prove : List ℕ → List ℕ → I → Result (List ℕ)) where
  -- Without circuits there is no proof.
  unfoldable pub prove_transaction : UnsignedTransaction I → Result ProvenTransaction
  prove_transaction tx = do
    reachable ← health
    raise_if (not reachable) proof_error
    proof_hexes ← prove_circuits prove tx.circuits
    ok (record {
      type_ = tx.type_;
      guaranteed_hex = tx.guaranteed_hex;
      fallible_hexes = tx.fallible_hexes;
      proof_hexes = proof_hexes;
      requires_unshielded_signature = tx.requires_unshielded_signature;
      signing_payload_hex = tx.signing_payload_hex;
      signature_hex = [];
    })

  -- What is handed through.
  pub prove_transaction-eq-ok :
      (tx : UnsignedTransaction I) (proven : ProvenTransaction)
      → prove_transaction tx ≡ ok proven
      → (proven.type_ ≡ tx.type_)
        × (proven.requires_unshielded_signature ≡ tx.requires_unshielded_signature)
        × (length proven.proof_hexes ≡ length tx.circuits)
  unfolding prove_transaction
  prove_transaction-eq-ok tx proven h =
      let (reachable, _, h1) = >>=-eq-ok health _ h in
      let (_, _, h2) = >>=-eq-ok (raise_if (not reachable) proof_error) _ h1 in
      let (proofs, proved, h3) = >>=-eq-ok (prove_circuits prove tx.circuits) _ h2 in
      let size = length-prove_circuits prove tx.circuits proofs proved in
      (cc h3, cc h3, cc (h3, size))
