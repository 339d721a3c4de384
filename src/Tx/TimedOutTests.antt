-- ===== src/Tx/TimedOutTests.antt =====
-- The wait of src/noxipher/tx/builder.py on an indexer that reports a transaction.
use noxipher.Prelude.{ℕ, true, false, List, [], ◌∷◌, none, codes, replicate}
use noxipher.Prelude.Integers.{pos}
use noxipher.Core.Exceptions.{Result, ok, err, transaction_timeout_error}
use noxipher.Indexer.Client.{IndexerClient}
use noxipher.Indexer.PlainModels.{plain_models}
use noxipher.Indexer.SampleAnswers.{sample_execute, sample_execute-AnswersDocuments}
use noxipher.Tx.Transaction.{none_}
use noxipher.Tx.Builder.{build_unshielded_transfer}
use noxipher.Tx.Polling.{poll}
use noxipher.Tx.Envelope.{other_kind}
use noxipher.Tx.Entry.{
  Services, bare_tx, with_fee_part, deploy_tx, fee_part, transfer_unshielded, deploy_contract,
}
use noxipher.Tx.EntryTests.{wallet, net}
use noxipher.Tx.TimedOut.{WaitsOn, EndsLate, wait_without_receipt, poll-none, accepted_times_out}

abbrev client : IndexerClient
client = record { opened = true }

abbrev int_of_text : List ℕ → Result ℕ
int_of_text digits = ok 10_000

abbrev late_net : Services
late_net = record net { wait = λ hash. err transaction_timeout_error }

late_net-WaitsOn :
    WaitsOn late_net int_of_text plain_models client (λ tx_hash k. sample_execute) (λ k. 1) 1_000
late_net-WaitsOn tx_hash =
    wait_without_receipt (poll int_of_text plain_models (λ k. sample_execute) client tx_hash)
      (λ k. 1) 1_000 120
      (λ k.
        poll-none int_of_text plain_models client (λ k. sample_execute) tx_hash k
          sample_execute-AnswersDocuments)

accepted_times_out_example :
    EndsLate late_net wallet
      (build_unshielded_transfer late_net.config late_net.get_utxos late_net.unshielded_rnd wallet
        (codes "00")
        (pos 5)
        none
        1800
        (replicate 32 0)
        false)
      (λ part. with_fee_part part (bare_tx other_kind true))
      (transfer_unshielded late_net wallet (codes "00") (pos 5) (replicate 32 0) none 1800)
    × EndsLate late_net wallet
        (fee_part late_net wallet none 1800)
        (λ part. deploy_tx part (1 ∷ []) none_)
        (deploy_contract late_net wallet (1 ∷ []) none_ none 1800)
accepted_times_out_example =
    accepted_times_out late_net int_of_text plain_models client (λ tx_hash k. sample_execute)
      (λ k. 1) 1_000 late_net-WaitsOn (λ tx_hash k. sample_execute-AnswersDocuments) wallet
      (codes "00") (replicate 32 0) (1 ∷ []) none_ (pos 5) none 1800
