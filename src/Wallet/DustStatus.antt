-- ===== src/Wallet/DustStatus.antt =====
-- `DustWallet.get_generation_status` and `get_utxos` of src/noxipher/wallet/dust.py, and what the
-- models of the indexer make of the first.
use noxipher.Prelude.{ℕ, ◌≡◌, ap, not, inl, inr, List, [], ◌∷◌}
use noxipher.Core.Exceptions.{
  Exception, Result, ok, err, ◌>>=◌, >>=-eq-ok, Result-cases, raise_if, wallet_error,
  assertion_error,
}
use noxipher.Node.Json.{Json}
use noxipher.Indexer.Documents.{document_of}
use noxipher.Indexer.Answers.{AnswersDocuments}
use noxipher.Indexer.Client.{Query, dust_status_query, IndexerClient, get_dust_status, get_utxos}
use noxipher.Indexer.Models.{Pydantic, read_dust_statuses, read_utxos}
use noxipher.Indexer.Unread.{read_dust_statuses-empty}
use noxipher.Wallet.Wallets.{DustWallet, dust_address}

abbrev pub first_status {ℓ} : {A : Type ℓ} → List A → Result A
first_status [] = err wallet_error
first_status (status ∷ statuses) = ok status

module _ (execute : ℕ → Query → Result Json) (client : IndexerClient) where
  unfoldable pub get_dust_utxos : DustWallet → Result Json
  get_dust_utxos w = dust_address w >>= λ address. get_utxos execute read_utxos client address

  unfoldable pub get_generation_status : (py : Pydantic) → List ℕ → Result py.Instance
  get_generation_status py cardano_stake_key = do
    results ← get_dust_status execute (read_dust_statuses py) client (cardano_stake_key ∷ [])
    first_status results

  -- Of an indexer whose answers have what the documents select, no status of a stake key is read,
  -- whatever the indexer knows of it: the call raises.
  pub get_generation_status_raises :
      (py : Pydantic) (cardano_stake_key : List ℕ)
      → AnswersDocuments execute
      → (e : Exception) × (get_generation_status py cardano_stake_key ≡ err e)
  unfolding get_generation_status get_dust_status document_of
  get_generation_status_raises py key answers = elim (Result-cases (get_generation_status py key)) [
    | inr failed ↦ failed
    | inl (status, h) ↦
        let query = dust_status_query (key ∷ []) in
        let (results, found, first) =
          >>=-eq-ok (get_dust_status execute (read_dust_statuses py) client (key ∷ [])) _ h in
        let (_, _, read) = >>=-eq-ok (raise_if (not client.opened) assertion_error) _ found in
        let (answer, executed, were_results) =
          >>=-eq-ok (execute 0 query) (read_dust_statuses py) read in
        let none_read =
          read_dust_statuses-empty py answer results (answers 0 query answer executed)
            were_results in
        cc (ap first_status none_read, first)
  ]
