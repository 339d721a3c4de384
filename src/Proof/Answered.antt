-- ===== src/Proof/Answered.antt =====
-- Where the proofs of `ZKProver.prove_transaction` come from, with the client of the proof server.
use noxipher.Prelude.{
  ℕ, ◌+◌, ◌≡◌, refl, sym, ap, subst, ◌∙◌, ◌<◌, inl, inr, Bool, true, false, not, List, [], ◌∷◌,
  Option, none, some, arith,
}
use noxipher.Core.Exceptions.{
  http_error, Result, ok, err, ◌>>=◌, ◌>>◌, >>=-eq-ok, raise_if, raise_if-eq-ok, assertion_error,
  proof_error, or_key_error,
}
use noxipher.Node.Json.{Json}
use noxipher.Wallet.Hex.{hex, fromhex}
use noxipher.Indexer.Retries.{retry-Retried}
use noxipher.Proof.Client.{
  ProofRequest, HttpResponse, ProofServerClient, is_success, raise_for_status, wrap_http_error,
  is_true, attempt_request, health, health_request, prove_request, prove,
}
use noxipher.Proof.Prover.{
  CircuitDict, UnsignedTransaction, ProvenTransaction, or_empty, prove_circuits, prove_transaction,
}

-- Two lists of the same length whose items are related in their order.
abbrev pub Pairwise : {A B : Type 0} → (A → B → Type 0) → List A → List B → Type 0
Pairwise R [] [] = Unit {0}
Pairwise R [] (y ∷ ys) = ⊥
Pairwise R (x ∷ xs) [] = ⊥
Pairwise R (x ∷ xs) (y ∷ ys) = R x y × Pairwise R xs ys

wrap_http-eq-ok {ℓ} : {A : Type ℓ} (r : Result A) {a : A} → wrap_http_error r ≡ ok a → r ≡ ok a
unfolding wrap_http_error
wrap_http-eq-ok (ok b) h = h
wrap_http-eq-ok (err http_error) h = cc h
wrap_http-eq-ok (err _) h = cc h

or_key_error-eq-ok {ℓ} : {A : Type ℓ} (o : Option A) {a : A} → or_key_error o ≡ ok a → o ≡ some a
or_key_error-eq-ok none h = cc h
or_key_error-eq-ok (some b) h = cc h

not-eq-false : (b : Bool) → not b ≡ false → b ≡ true
not-eq-false true h = refl
not-eq-false false h = cc h

module _ {I : Type 0} (send : ℕ → ProofRequest I → Result HttpResponse)
    (client : ProofServerClient) where
  -- An attempt that succeeds got a response with a status of success.
  attempt_request-eq-ok {κ} :
      {A : Type κ} (read : HttpResponse → Result A) (request : ProofRequest I) (k : ℕ) (a : A)
      → attempt_request send client read request k ≡ ok a
      → (response : HttpResponse) × (client.opened ≡ true)
        × (send k request ≡ ok response)
        × (is_success response.status_code ≡ true)
        × (read response ≡ ok a)
  unfolding attempt_request raise_for_status
  attempt_request-eq-ok read request k a h =
      let (_, open_, h1) = >>=-eq-ok (raise_if (not client.opened) assertion_error) _ h in
      let (response, sent, h2) =
        >>=-eq-ok (send k request) (λ response. raise_for_status response >> read response)
          (wrap_http-eq-ok _ h1) in
      let (_, checked, was_read) =
        >>=-eq-ok (raise_if (not (is_success response.status_code)) http_error) _ h2 in
      let is_open = raise_if-eq-ok _ assertion_error open_ in
      let succeeded = raise_if-eq-ok _ http_error checked in
      (
        response,
        not-eq-false client.opened is_open,
        sent,
        not-eq-false (is_success response.status_code) succeeded,
        was_read,
      )

  -- The proof of a circuit: the body of a response of success, of the first or the second time
  -- that the circuit's id, its key and its inputs were posted.
  abbrev pub ProvedBy : CircuitDict I → List ℕ → Type 0
  ProvedBy circuit proof_hex =
      (circuit_id : List ℕ) × (proving_key : List ℕ) × (k : ℕ) × (response : HttpResponse)
      × (circuit.id ≡ some circuit_id)
      × (fromhex (or_empty circuit.proving_key_hex) ≡ ok proving_key)
      × (k < 2)
      × (send k (prove_request send client circuit_id proving_key circuit.inputs) ≡ ok response)
      × (is_success response.status_code ≡ true)
      × (proof_hex ≡ hex response.content)

  prove-eq-ok :
      (circuit_id proving_key : List ℕ) (inputs : I) (proof : List ℕ)
      → prove send client circuit_id proving_key inputs ≡ ok proof
      → (k : ℕ) × (response : HttpResponse) × (k < 2)
        × (send k (prove_request send client circuit_id proving_key inputs) ≡ ok response)
        × (is_success response.status_code ≡ true)
        × (proof ≡ response.content)
  unfolding prove
  prove-eq-ok circuit_id proving_key inputs proof h =
      let request = prove_request send client circuit_id proving_key inputs in
      let body : HttpResponse → Result (List ℕ) = λ response. ok response.content in
      let attempt = attempt_request send client body request in
      elim (retry-Retried 2 attempt 0) [
        | inr (all, failed) ↦ cc (failed, h)
        | inl (k, found, less, before, at_k, same) ↦
            let here : 0 + k ≡ k = omega arith in
            let (response, _, sent, succeeded, was_read) =
              attempt_request-eq-ok body request k found (ap attempt (sym here) ∙ at_k) in
            (k, response, less, sent, succeeded, cc (was_read, same, h))
      ]

  prove_circuits-ProvedBy :
      (circuits : List (CircuitDict I)) (proofs : List (List ℕ))
      → prove_circuits (prove send client) circuits ≡ ok proofs
      → Pairwise ProvedBy circuits proofs
  unfolding prove_circuits
  prove_circuits-ProvedBy [] proofs h =
      let e : [] ≡ proofs = cc h in subst (Pairwise ProvedBy []) e tt
  prove_circuits-ProvedBy (c ∷ cs) proofs h =
      let (circuit_id, own, h1) = >>=-eq-ok (or_key_error c.id) _ h in
      let (key, keyed, h2) = >>=-eq-ok (fromhex (or_empty c.proving_key_hex)) _ h1 in
      let (proof, proved, h3) = >>=-eq-ok (prove send client circuit_id key c.inputs) _ h2 in
      let (rest, others, h4) = >>=-eq-ok (prove_circuits (prove send client) cs) _ h3 in
      let e : hex proof ∷ rest ≡ proofs = cc h4 in
      let (k, response, less, sent, succeeded, same) =
        prove-eq-ok circuit_id key c.inputs proof proved in
      subst (Pairwise ProvedBy (c ∷ cs)) e (
        (
          circuit_id,
          key,
          k,
          response,
          or_key_error-eq-ok c.id own,
          keyed,
          less,
          sent,
          succeeded,
          ap hex same,
        ),
        prove_circuits-ProvedBy cs rest others,
      )

  -- A transaction that is proven was proven by the server: its health check had a status of
  -- success, and each circuit has one proof, in their order, the body of a response of success, of
  -- the first or the second time that the circuit's id, its key and its inputs were posted.
  pub prove_transaction-ProvedBy :
      (json_of : List ℕ → Result Json) (tx : UnsignedTransaction I) (proven : ProvenTransaction)
      → prove_transaction
          (health send client json_of >>= λ answer. ok (is_true answer))
          (prove send client)
          tx
        ≡ ok proven
      → Pairwise ProvedBy tx.circuits proven.proof_hexes
        × ((response : HttpResponse) × (send 0 (health_request send client) ≡ ok response)
            × (is_success response.status_code ≡ true))
  unfolding prove_transaction health
  prove_transaction-ProvedBy json_of tx proven h =
      let (reachable, healthy, h1) =
        >>=-eq-ok (health send client json_of >>= λ answer. ok (is_true answer)) _ h in
      let (_, _, h2) = >>=-eq-ok (raise_if (not reachable) proof_error) _ h1 in
      let (proofs, proved, h3) = >>=-eq-ok (prove_circuits (prove send client) tx.circuits) _ h2 in
      let same : proofs ≡ proven.proof_hexes = cc h3 in
      let (answer, was_healthy, _) =
        >>=-eq-ok (health send client json_of) (λ answer. ok (is_true answer)) healthy in
      let (response, _, sent, succeeded, _) =
        attempt_request-eq-ok (λ response. json_of response.content) (health_request send client) 0
          answer was_healthy in
      (
        subst (Pairwise ProvedBy tx.circuits) same
            (prove_circuits-ProvedBy tx.circuits proofs proved),
        (response, sent, succeeded),
      )
