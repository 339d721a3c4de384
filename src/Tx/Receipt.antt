-- ===== src/Tx/Receipt.antt =====
-- `_wait_for_receipt` of src/noxipher/tx/builder.py. The answers of the indexer and the seconds
-- that each poll takes are given by the number of the poll.
use noxipher.Prelude.{
  ℕ, zero, suc, ◌+◌, ◌*◌, ◌<◌, ◌≡◌, refl, arith, inl, inr, ◌⊎◌, true, List, [], ◌∷◌, Option, none,
  some, codes, list_eq, ltb, ltb→lt, min, if◌then◌else◌, Bool-cases, Option-cases,
}
use noxipher.Core.Exceptions.{Result, ok, err, transaction_timeout_error}

pub record Event : Type 0 where
  pub type_ : List ℕ
  pub address : Option (List ℕ)

-- What the indexer reports of a transaction; `block` is its height and hash.
pub record IndexedTransaction : Type 0 where
  pub hash : List ℕ
  pub block : Option (ℕ × List ℕ)
  pub status : Option (List ℕ)
  pub paid_fees : Option ℕ
  pub events : List Event

pub record TransactionReceipt : Type 0 where
  pub hash : List ℕ
  pub block_height : Option ℕ
  pub block_hash : Option (List ℕ)
  pub status : List ℕ
  pub fee_paid : ℕ
  pub contract_address : Option (List ℕ)
  pub events : List Event

-- The address of the first event of a deployment.
unfoldable pub deployed_address : List Event → Option (List ℕ)
deployed_address [] = none
deployed_address (event ∷ events) =
    let rest = deployed_address events in
    if list_eq event.type_ (codes "ContractDeployed") then event.address else rest

unfoldable pub make_receipt : IndexedTransaction → List ℕ → TransactionReceipt
make_receipt tx status = record {
  hash = tx.hash;
  block_height = elim tx.block [ none ↦ none | some b ↦ some b.0 ];
  block_hash = elim tx.block [ none ↦ none | some b ↦ some b.1 ];
  status = status;
  fee_paid = elim tx.paid_fees [ none ↦ 0 | some f ↦ f ];
  contract_address = deployed_address tx.events;
  events = tx.events;
}

-- One poll: an exception and an unfinished transaction are passed over.
unfoldable pub receipt_of : Result (List IndexedTransaction) → Option TransactionReceipt
receipt_of (err e) = none
receipt_of (ok []) = none
receipt_of (ok (tx ∷ txs)) = elim tx.status [
  | none ↦ none
  | some status ↦ some (make_receipt tx status)
]

unfoldable pub backoff_delay : ℕ → ℕ
backoff_delay retry_count = min 10 (2 * (retry_count + 1))

module _ (get_transactions : ℕ → Result (List IndexedTransaction)) (elapsed : ℕ → ℕ) where
  -- The loop, on fuel; `none` is the end of the fuel.
  unfoldable pub wait_loop : ℕ → ℕ → ℕ → ℕ → Option (Result TransactionReceipt)
  wait_loop zero now deadline retry_count = none
  wait_loop (suc fuel) now deadline retry_count =
      let rest =
        wait_loop fuel (now + elapsed retry_count + backoff_delay retry_count) deadline
          (suc retry_count) in
      let polled : Option (Result TransactionReceipt) =
        elim (receipt_of (get_transactions retry_count)) [
          | some receipt ↦ some (ok receipt)
          | none ↦ rest
        ] in
      if ltb now deadline then polled else some (err transaction_timeout_error)

  unfoldable pub wait_for_receipt : ℕ → ℕ → Option (Result TransactionReceipt)
  wait_for_receipt now timeout = wait_loop (suc timeout) now (now + timeout) 0

  -- The loop's end: the receipt of a poll, or the timeout.
  abbrev pub IsOutcome : Result TransactionReceipt → Type 0
  IsOutcome r =
      ((k : ℕ) × (receipt : TransactionReceipt) × (receipt_of (get_transactions k) ≡ some receipt)
        × (r ≡ ok receipt))
      ⊎ (r ≡ err transaction_timeout_error)

  wait_loop_ends :
      (fuel now deadline retry_count : ℕ)
      → 0 < fuel
      → deadline < now + fuel
      → (r : Result TransactionReceipt) × (wait_loop fuel now deadline retry_count ≡ some r)
        × IsOutcome r
  unfolding wait_loop backoff_delay
  wait_loop_ends zero now deadline k some_fuel h = absurd (omega (arith, some_fuel))
  wait_loop_ends (suc fuel) now deadline k some_fuel h =
      let before : ltb now deadline ≡ true → now < deadline = ltb→lt now deadline in
      elim (Bool-cases (ltb now deadline)) [
        | inr late ↦ (err transaction_timeout_error, rw late refl, inr refl)
        | inl early ↦ elim (Option-cases (receipt_of (get_transactions k))) [
          | inr (receipt, e) ↦ (ok receipt, rw (early, e) refl, inl (k, receipt, e, refl))
          | inl e ↦
              let (r, ends, outcome) =
                wait_loop_ends fuel (now + elapsed k + min 10 (2 * (k + 1))) deadline (suc k)
                  (omega (arith, before early)) (omega (arith, before early)) in
              (r, rw (early, e) ends, outcome)
        ]
      ]

  -- Waiting ends within its timeout of polls, whatever the indexer answers: with the receipt that
  -- a poll found, or with TransactionTimeoutError.
  pub wait_for_receipt_ends :
      (now timeout : ℕ)
      → (r : Result TransactionReceipt) × (wait_for_receipt now timeout ≡ some r) × IsOutcome r
  unfolding wait_for_receipt
  wait_for_receipt_ends now timeout =
      wait_loop_ends (suc timeout) now (now + timeout) 0 (omega arith) (omega arith)
