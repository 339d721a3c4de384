-- ===== src/Indexer/Tests.antt =====
-- Queries of src/noxipher/indexer/client.py that fail at first.
use noxipher.Prelude.{ℕ, zero, suc, ◌≡◌, ◌<◌, ◌⊎◌, refl, true, List, [], ◌∷◌, codes}
use noxipher.Core.Exceptions.{Result, ok, err, value_error, retry_error}
use noxipher.Indexer.Client.{
  Query, utxos_query, IndexerClient, wrap_indexer_error, retry, attempt_query, get_utxos,
}
use noxipher.Indexer.Retries.{AllFail, get_utxos_cases}

abbrev client : IndexerClient
client = record { opened = true }

-- The first execution raises.
abbrev execute : ℕ → Query → Result ℕ
execute zero query = err value_error
execute (suc k) query = ok 5

abbrev read : ℕ → Result (List ℕ)
read answer = ok (answer ∷ [])

second_attempt : get_utxos execute read client (codes "mn_addr") ≡ ok (5 ∷ [])
unfolding get_utxos retry attempt_query wrap_indexer_error
second_attempt = refl

get_utxos_cases_example :
    ((k : ℕ) × (answer : ℕ) × (utxos : List ℕ) × (k < 3)
      × AllFail (attempt_query execute read client (utxos_query (codes "mn_addr"))) 0 k
      × (client.opened ≡ true)
      × (execute k (utxos_query (codes "mn_addr")) ≡ ok answer)
      × (read answer ≡ ok utxos)
      × (get_utxos execute read client (codes "mn_addr") ≡ ok utxos))
    ⊎ (AllFail (attempt_query execute read client (utxos_query (codes "mn_addr"))) 0 3
        × (get_utxos execute read client (codes "mn_addr") ≡ err retry_error))
get_utxos_cases_example = get_utxos_cases execute read client (codes "mn_addr")
