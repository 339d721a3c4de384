-- ===== src/Indexer/Unread.antt =====
-- What the models of src/noxipher/indexer/models.py miss of the answers to the documents of
-- src/noxipher/indexer/queries.py, whose names are in camel case.
use noxipher.Prelude.{
  ℕ, ◌≡◌, refl, sym, ap, subst, ◌∙◌, false, List, [], ◌∷◌, none, some, codes, list_eq, All, All-map,
  All-none,
}
use noxipher.Core.Exceptions.{ok, >>=-eq-ok}
use noxipher.Node.Json.{Json, null, object, Items, nil, cons, Fields, list_}
use noxipher.Indexer.Documents.{
  Selections, nothing, select, transaction_node, dust_status_node, get_transactions_document,
  get_dust_status_document, Answers, Selected, selects, get_member-unselected,
}
use noxipher.Indexer.Models.{
  Model, FieldInfo, transaction_model, dust_generation_status_model, declared, Pydantic, subscript,
  validate_each, read_transactions, read_dust_statuses,
}
use noxipher.Indexer.Answers.{
  below, select-IsSelection, subscript-Answers, ObjectsSelected, list_-ObjectsSelected,
}

-- An item that was validated: a dict with the members selected.
IsRead : (py : Pydantic) → Model → Selections → py.Instance → Type 0
IsRead py m s instance_ =
    (fields : Fields) × (py.model_validate m (object fields) ≡ ok instance_) × Selected s fields

module _ (py : Pydantic) where
  validate_each-IsRead :
      (m : Model) (s : Selections) (items : Items) (instances : List py.Instance)
      → ObjectsSelected s items
      → validate_each py m items ≡ ok instances
      → All (IsRead py m s) instances
  unfolding validate_each IsRead
  validate_each-IsRead m s nil instances each h =
      let e : [] ≡ instances = cc h in subst (All (IsRead py m s)) e tt
  validate_each-IsRead m s (cons item items) instances each h =
      let (first, was_first, h1) = >>=-eq-ok (py.model_validate m item) _ h in
      let (others, were_others, h2) = >>=-eq-ok (validate_each py m items) _ h1 in
      let (fields, is_dict) = py.takes_dicts m item first was_first in
      let e : first ∷ others ≡ instances = cc h2 in
      subst (All (IsRead py m s)) e (
        (fields, ap (py.model_validate m) (sym is_dict) ∙ was_first, each.0 fields is_dict),
        validate_each-IsRead m s items others each.1 were_others,
      )

  -- A field whose name the document does not select has its default.
  unread_default :
      (m : Model) (s : Selections) (name : List ℕ) (info : FieldInfo) (value : Json)
      (instance_ : py.Instance)
      → selects name s ≡ false
      → declared name m ≡ some info
      → info.default ≡ some value
      → IsRead py m s instance_
      → py.attribute instance_ name ≡ value
  unfolding IsRead
  unread_default m s name info value instance_ unselected own default
        (fields, validated, selected) =
      py.takes_default m fields instance_ name info value validated own default
        (get_member-unselected name selected unselected)

  -- Without a default, the item was refused.
  unread_required :
      (m : Model) (s : Selections) (name : List ℕ) (info : FieldInfo) (instance_ : py.Instance)
      → selects name s ≡ false
      → declared name m ≡ some info
      → info.default ≡ none
      → ¬ IsRead py m s instance_
  unfolding IsRead
  unread_required m s name info instance_ unselected own default (fields, validated, selected) =
      let (value, found) = py.needs_required m fields instance_ name info validated own default in
      let missing = get_member-unselected name selected unselected in cc (found, missing)

  -- The transactions of an answer have no result, whatever the indexer reports of them.
  pub read_transactions-unfinished :
      (answer : Json) (transactions : List py.Instance)
      → Answers get_transactions_document answer
      → read_transactions py answer ≡ ok transactions
      → All (λ tx. py.attribute tx (codes "transaction_result") ≡ null) transactions
  unfolding read_transactions get_transactions_document below list_eq transaction_model declared
      selects
  read_transactions-unfinished answer transactions answers h =
      let (found, was_found, h1) = >>=-eq-ok (subscript (codes "transactions") answer) _ h in
      let (nodes, were_nodes, h2) = >>=-eq-ok (subscript (codes "nodes") found) _ h1 in
      let (items, were_items, validated) = >>=-eq-ok (list_ nodes) _ h2 in
      let below_transactions =
        subscript-Answers get_transactions_document answer found (codes "transactions") answers
          (select-IsSelection _ _ _) was_found in
      let below_nodes =
        subscript-Answers (select (codes "nodes") transaction_node nothing) found nodes
          (codes "nodes") below_transactions (select-IsSelection _ _ _) were_nodes in
      let each = list_-ObjectsSelected items below_nodes (select-IsSelection _ _ _) were_items in
      All-map
        (λ tx.
          unread_default transaction_model transaction_node (codes "transaction_result") _ null tx
            refl refl refl)
        transactions
        (validate_each-IsRead transaction_model transaction_node items transactions each validated)

  -- No status is read: the models miss the key of the account.
  pub read_dust_statuses-empty :
      (answer : Json) (statuses : List py.Instance)
      → Answers get_dust_status_document answer
      → read_dust_statuses py answer ≡ ok statuses
      → statuses ≡ []
  unfolding read_dust_statuses get_dust_status_document below list_eq dust_generation_status_model
      declared selects
  read_dust_statuses-empty answer statuses answers h =
      let (found, was_found, h1) = >>=-eq-ok (subscript (codes "dustStatus") answer) _ h in
      let (items, were_items, validated) = >>=-eq-ok (list_ found) _ h1 in
      let below_status =
        subscript-Answers get_dust_status_document answer found (codes "dustStatus") answers
          (select-IsSelection _ _ _) was_found in
      let each = list_-ObjectsSelected items below_status (select-IsSelection _ _ _) were_items in
      All-none
        (λ status.
          unread_required dust_generation_status_model dust_status_node (codes "cardano_stake_key")
            _ status refl refl refl)
        statuses
        (validate_each-IsRead dust_generation_status_model dust_status_node items statuses each
          validated)
