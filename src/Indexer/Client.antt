-- ===== src/Indexer/Client.antt =====
-- `IndexerClient` of src/noxipher/indexer/client.py, but for its subscriptions. What the k-th
-- execution of a query gives is a parameter, and so are the models that answers are read by.
use noxipher.Prelude.{ℕ, zero, suc, Bool, true, false, not, List, Option}
use noxipher.Core.Exceptions.{
  Result, ok, err, ◌>>=◌, ◌>>◌, raise_if, assertion_error, indexer_error, retry_error,
}

-- The documents with their variables.
pub data Query : Type 0 where
  block_query : (height : Option ℕ) (hash : Option (List ℕ)) → Query
  transactions_query : (hash address : Option (List ℕ)) (limit : ℕ) → Query
  connect_query : (viewing_key : List ℕ) → Query
  disconnect_query : (session_id : List ℕ) → Query
  dust_status_query : (stake_keys : List (List ℕ)) → Query
  utxos_query : (address : List ℕ) → Query

-- Whether the HTTP client was made: `__aexit__` closes it and keeps it.
pub record IndexerClient : Type 0 where
  pub opened : Bool

unfoldable pub new_indexer : IndexerClient
new_indexer = record { opened = false }

unfoldable pub enter : IndexerClient → IndexerClient
enter client = record client { opened = true }

unfoldable pub exit : IndexerClient → IndexerClient
exit client = client

-- `except Exception as e: raise IndexerError`
unfoldable pub wrap_indexer_error {ℓ} : {A : Type ℓ} → Result A → Result A
wrap_indexer_error (ok a) = ok a
wrap_indexer_error (err e) = err indexer_error

-- `@retry(stop=stop_after_attempt(n))`: when the attempts are used up, RetryError is raised.
unfoldable pub retry {ℓ} : {A : Type ℓ} → ℕ → (ℕ → Result A) → ℕ → Result A
retry zero attempt k = err retry_error
retry (suc left) attempt k = elim (attempt k) [ ok a ↦ ok a | err e ↦ retry left attempt (suc k) ]

module _ {ℓ} {Answer : Type ℓ} (execute : ℕ → Query → Result Answer) where
  -- A query and the reading of its answer, inside the `try`.
  unfoldable pub attempt_query {κ} :
      {A : Type κ} → (Answer → Result A) → IndexerClient → Query → ℕ → Result A
  attempt_query read client query k = do
    raise_if (not client.opened) assertion_error
    wrap_indexer_error (execute k query >>= read)

  unfoldable pub get_block {κ} :
      {A : Type κ} → (Answer → Result A) → IndexerClient → Option ℕ → Option (List ℕ) → Result A
  get_block read client height hash_hex =
      retry 3 (attempt_query read client (block_query height hash_hex)) 0

  unfoldable pub get_transactions {κ} :
      {A : Type κ}
      → (Answer → Result A)
      → IndexerClient
      → Option (List ℕ)
      → Option (List ℕ)
      → ℕ
      → Result A
  get_transactions read client hash address limit =
      retry 3 (attempt_query read client (transactions_query hash address limit)) 0

  unfoldable pub get_utxos {κ} :
      {A : Type κ} → (Answer → Result A) → IndexerClient → List ℕ → Result A
  get_utxos read client address = retry 3 (attempt_query read client (utxos_query address)) 0

  unfoldable pub connect_wallet_session :
      (Answer → Result (List ℕ)) → IndexerClient → List ℕ → Result (List ℕ)
  connect_wallet_session read client viewing_key =
      attempt_query read client (connect_query viewing_key) 0

  unfoldable pub disconnect_wallet_session : IndexerClient → List ℕ → Result (Unit {0})
  disconnect_wallet_session client session_id =
      attempt_query (λ answer. ok tt) client (disconnect_query session_id) 0

  -- No `try` here: what the query raises goes through.
  unfoldable pub get_dust_status {κ} :
      {A : Type κ} → (Answer → Result A) → IndexerClient → List (List ℕ) → Result A
  get_dust_status read client cardano_stake_keys = do
    raise_if (not client.opened) assertion_error
    execute 0 (dust_status_query cardano_stake_keys) >>= read
