-- ===== src/Indexer/SampleAnswers.antt =====
-- An indexer that answers two documents of src/noxipher/indexer/queries.py with what they select:
-- one transaction that succeeded, and the status of one stake key.
use noxipher.Prelude.{ℕ, String, ◌≡◌, true, codes, subst}
use noxipher.Core.Exceptions.{Result, ok, err, value_error}
use noxipher.Node.Json.{Json, text, boolean, number, array, object, nil, cons, Fields, end, field}
use noxipher.Indexer.Client.{
  Query, block_query, transactions_query, connect_query, disconnect_query, dust_status_query,
  utxos_query,
}
use noxipher.Indexer.Documents.{
  transaction_node, dust_status_node, get_transactions_document, get_dust_status_document,
  document_of, Answers, scalar, several, members, no_more, one_more, Selected, all_given, given,
}
use noxipher.Indexer.Answers.{AnswersDocuments}

abbrev member_of : String → Json → Fields → Fields
member_of name value rest = field (codes name) value rest

abbrev transaction : Fields
transaction = member_of "hash" (text (codes "ab")) (
    member_of "block"
      (object (member_of "height" (number 7) (member_of "hash" (text (codes "cd")) end)))
      (member_of "transactionResult"
        (object
          (member_of "status" (text (codes "SUCCESS")) (member_of "segments" (array nil) end)))
        (member_of "fees" (object (member_of "paidFees" (text (codes "10000")) end)) (
          member_of "raw" (text (codes "00")) (
            member_of "unshieldedCreatedOutputs" (array nil)
              (member_of "unshieldedSpentOutputs" (array nil) end))))))

transaction-Selected : Selected transaction_node transaction
transaction-Selected = given scalar (
    given (members (given scalar (given scalar all_given))) (
      given (members (given scalar (given (several no_more) all_given))) (
        given (members (given scalar all_given))
          (given scalar (given (several no_more) (given (several no_more) all_given))))))

abbrev pub transactions_answer : Json
transactions_answer = object (
    member_of "transactions"
      (object (member_of "nodes" (array (cons (object transaction) nil)) end)) end)

transactions_answer-Answers : Answers get_transactions_document transactions_answer
unfolding get_transactions_document
transactions_answer-Answers = members (
    given (members (given (several (one_more (members transaction-Selected) no_more)) all_given))
      all_given)

abbrev dust_status : Fields
dust_status = member_of "cardanoStakeKey" (text (codes "stake1")) (
    member_of "isRegistered" (boolean true)
      (member_of "availableDust" (text (codes "5")) (member_of "registeredUtxos" (array nil) end)))

dust_status-Selected : Selected dust_status_node dust_status
dust_status-Selected =
    given scalar (given scalar (given scalar (given (several no_more) all_given)))

abbrev pub dust_status_answer : Json
dust_status_answer = object (member_of "dustStatus" (array (cons (object dust_status) nil)) end)

dust_status_answer-Answers : Answers get_dust_status_document dust_status_answer
unfolding get_dust_status_document
dust_status_answer-Answers =
    members (given (several (one_more (members dust_status-Selected) no_more)) all_given)

-- Any other query raises.
abbrev pub sample_execute : ℕ → Query → Result Json
sample_execute k (transactions_query hash address limit) = ok transactions_answer
sample_execute k (dust_status_query stake_keys) = ok dust_status_answer
sample_execute k query = err value_error

pub sample_execute-AnswersDocuments : AnswersDocuments sample_execute
unfolding document_of
sample_execute-AnswersDocuments k (transactions_query hash address limit) answer h =
    let same : transactions_answer ≡ answer = cc h in
    subst (Answers get_transactions_document) same transactions_answer-Answers
sample_execute-AnswersDocuments k (dust_status_query stake_keys) answer h =
    let same : dust_status_answer ≡ answer = cc h in
    subst (Answers get_dust_status_document) same dust_status_answer-Answers
sample_execute-AnswersDocuments k (block_query height hash) answer h = cc h
sample_execute-AnswersDocuments k (connect_query key) answer h = cc h
sample_execute-AnswersDocuments k (disconnect_query session_id) answer h = cc h
sample_execute-AnswersDocuments k (utxos_query address) answer h = cc h
