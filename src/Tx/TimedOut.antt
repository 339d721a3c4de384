-- ===== src/Tx/TimedOut.antt =====
-- What the wait of src/noxipher/tx/builder.py ends with when the indexer answers its document.
use noxipher.Prelude.{
  ℕ, true, false, ◌+◌, ◌≡◌, refl, ap, ◌∙◌, inl, inr, ◌⊎◌, List, [], ◌∷◌, Option, none, some, codes,
  All,
}
use noxipher.Prelude.Integers.{ℤ}
use noxipher.Core.Exceptions.{
  Exception, Result, ok, err, ◌>>=◌, Result-cases, transaction_timeout_error,
}
use noxipher.Node.Json.{Json, null}
use noxipher.Indexer.Documents.{document_of}
use noxipher.Indexer.Answers.{AnswersDocuments}
use noxipher.Indexer.Client.{
  Query, transactions_query, IndexerClient, get_transactions, attempt_query,
}
use noxipher.Indexer.Retries.{retry-Retried, attempt_query-eq-ok}
use noxipher.Indexer.Models.{Pydantic, read_transactions}
use noxipher.Indexer.Unread.{read_transactions-unfinished}
use noxipher.Wallet.Wallets.{MidnightWallet}
use noxipher.Tx.Transaction.{Argument}
use noxipher.Tx.Builder.{UnshieldedTransfer, build_unshielded_transfer}
use noxipher.Tx.Receipt.{
  IndexedTransaction, TransactionReceipt, receipt_of, wait_for_receipt, wait_for_receipt_ends,
}
use noxipher.Tx.Polling.{indexed_with, indexed, first_indexed, poll}
use noxipher.Tx.Envelope.{TxData, other_kind}
use noxipher.Tx.Serialize.{serialize_tx}
use noxipher.Tx.Entry.{
  Services, bare_tx, with_fee_part, deploy_tx, send, fee_part, transfer_unshielded, deploy_contract,
}

-- Transactions without a result end no poll.
unfinished_poll :
    (int_of_text : List ℕ → Result ℕ) (py : Pydantic) (txs : Result (List py.Instance))
    → ((found : List py.Instance)
        → txs ≡ ok found
        → All (λ tx. py.attribute tx (codes "transaction_result") ≡ null) found)
    → receipt_of (txs >>= first_indexed int_of_text py) ≡ none
unfolding receipt_of first_indexed indexed indexed_with
unfinished_poll int_of_text py (err e) h = refl
unfinished_poll int_of_text py (ok []) h = refl
unfinished_poll int_of_text py (ok (tx ∷ txs)) h =
    let absent : py.attribute tx (codes "transaction_result") ≡ null = (h (tx ∷ txs) refl).0 in
    rw absent

-- Without a receipt in any poll, the wait ends with the timeout.
pub wait_without_receipt :
    (get_transactions : ℕ → Result (List IndexedTransaction)) (elapsed : ℕ → ℕ) (now timeout : ℕ)
    → ((k : ℕ) → receipt_of (get_transactions k) ≡ none)
    → wait_for_receipt get_transactions elapsed now timeout ≡ some (err transaction_timeout_error)
wait_without_receipt get_transactions elapsed now timeout h =
    let (r, ends, outcome) = wait_for_receipt_ends get_transactions elapsed now timeout in
    elim outcome [
      | inl (k, receipt, found, same) ↦ let nothing_found = h k in cc (found, nothing_found)
      | inr late ↦ ends ∙ ap some late
    ]

module _ (int_of_text : List ℕ → Result ℕ) (py : Pydantic) (client : IndexerClient) where
  pub poll-none :
      (execute : ℕ → ℕ → Query → Result Json) (tx_hash : List ℕ) (k : ℕ)
      → AnswersDocuments (execute k)
      → receipt_of (poll int_of_text py execute client tx_hash k) ≡ none
  unfolding poll get_transactions document_of
  poll-none execute tx_hash k answers =
      let query = transactions_query (some tx_hash) none 10 in
      unfinished_poll int_of_text py
        (get_transactions (execute k) (read_transactions py) client (some tx_hash) none 10)
        (λ found h.
          elim (retry-Retried 3 (attempt_query (execute k) (read_transactions py) client query) 0) [
            | inr (all, failed) ↦ cc (failed, h)
            | inl (m, txs, less, before, at_m, same) ↦
                let e : txs ≡ found = cc (same, h) in
                let (answer, _, executed, was_read) =
                  attempt_query-eq-ok (execute k) (read_transactions py) client query (0 + m) txs
                    at_m in
                read_transactions-unfinished py answer found (answers (0 + m) query answer executed)
                  (was_read ∙ ap ok e)
          ])

-- The wait of `net` polls this indexer for up to 120 seconds.
abbrev pub WaitsOn :
    Services
    → (List ℕ → Result ℕ)
    → Pydantic
    → IndexerClient
    → (List ℕ → ℕ → ℕ → Query → Result Json)
    → (ℕ → ℕ)
    → ℕ
    → Type 0
WaitsOn net int_of_text py client execute elapsed now =
    (tx_hash : List ℕ)
    → wait_for_receipt (poll int_of_text py (execute tx_hash) client tx_hash) elapsed now 120
      ≡ some (net.wait tx_hash)

-- What was raised on the way to the node, and the timeout where the node accepted.
abbrev pub EndsLate :
    Services
    → MidnightWallet
    → Result UnshieldedTransfer
    → (UnshieldedTransfer → TxData)
    → Result TransactionReceipt
    → Type 0
EndsLate net wallet built tx_of r =
    ((e : Exception) × (built ≡ err e) × (r ≡ err e))
    ⊎ ((part : UnshieldedTransfer) × (built ≡ ok part)
        × (((e : Exception) × (serialize_tx net.config.name net.binding_rnd (tx_of part) wallet
                ≡ err e)
              × (r ≡ err e))
            ⊎ ((raw_bytes : List ℕ) × (serialize_tx net.config.name net.binding_rnd (tx_of part)
                    wallet
                  ≡ ok raw_bytes)
                × (((e : Exception) × (net.submit raw_bytes ≡ err e) × (r ≡ err e))
                    ⊎ ((tx_hash : List ℕ) × (net.submit raw_bytes ≡ ok tx_hash)
                        × (r ≡ err transaction_timeout_error))))))

module _ (net : Services) (int_of_text : List ℕ → Result ℕ) (py : Pydantic) (client : IndexerClient)
    (execute : List ℕ → ℕ → ℕ → Query → Result Json) (elapsed : ℕ → ℕ) (now : ℕ)
    (waits : WaitsOn net int_of_text py client execute elapsed now)
    (answers : (tx_hash : List ℕ) (k : ℕ) → AnswersDocuments (execute tx_hash k)) where
  wait_times_out : (tx_hash : List ℕ) → net.wait tx_hash ≡ err transaction_timeout_error
  wait_times_out tx_hash =
      let ends =
        wait_without_receipt (poll int_of_text py (execute tx_hash) client tx_hash) elapsed now 120
          (λ k. poll-none int_of_text py client (execute tx_hash) tx_hash k (answers tx_hash k)) in
      let is = waits tx_hash in cc (ends, is)

  ends_late :
      (built : Result UnshieldedTransfer) (tx_of : UnshieldedTransfer → TxData)
      (wallet : MidnightWallet)
      → EndsLate net wallet built tx_of (built >>= λ part. send net (tx_of part) wallet)
  unfolding send
  ends_late built tx_of wallet = elim (Result-cases built) [
    | inr (e, failed) ↦ inl (e, failed, rw failed)
    | inl (part, made) ↦
        let tx = tx_of part in
        elim (Result-cases (serialize_tx net.config.name net.binding_rnd tx wallet)) [
          | inr (e, failed) ↦ inr (part, made, inl (e, failed, rw (made, failed)))
          | inl (raw, written) ↦ elim (Result-cases (net.submit raw)) [
            | inr (e, failed) ↦
                inr (part, made, inr (raw, written, inl (e, failed, rw (made, written, failed))))
            | inl (tx_hash, submitted) ↦ inr (
              part,
              made,
              inr (
                raw,
                written,
                inr (tx_hash, submitted, rw (made, written, submitted) (wait_times_out tx_hash)),
              ),
            )
          ]
        ]
  ]

  -- Of an indexer whose answers have what the documents select, no receipt is read: an unshielded
  -- transfer or a deployment raises what building, serializing or submitting it raised, and where
  -- the node has accepted it, it raises TransactionTimeoutError all the same.
  pub accepted_times_out :
      (wallet : MidnightWallet) (to token_type bytecode : List ℕ) (initial_state : Argument)
      (amount : ℤ) (fee : Option ℤ) (ttl : ℕ)
      → EndsLate net wallet
          (build_unshielded_transfer net.config net.get_utxos net.unshielded_rnd wallet to amount
            fee ttl token_type false)
          (λ part. with_fee_part part (bare_tx other_kind true))
          (transfer_unshielded net wallet to amount token_type fee ttl)
        × EndsLate net wallet
            (fee_part net wallet fee ttl)
            (λ part. deploy_tx part bytecode initial_state)
            (deploy_contract net wallet bytecode initial_state fee ttl)
  unfolding transfer_unshielded deploy_contract
  accepted_times_out wallet to token_type bytecode initial_state amount fee ttl = (
    ends_late
        (build_unshielded_transfer net.config net.get_utxos net.unshielded_rnd wallet to amount fee
          ttl token_type false)
        (λ part. with_fee_part part (bare_tx other_kind true)) wallet,
    ends_late (fee_part net wallet fee ttl) (λ part. deploy_tx part bytecode initial_state) wallet,
  )
