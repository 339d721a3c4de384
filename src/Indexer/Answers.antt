-- ===== src/Indexer/Answers.antt =====
-- How src/noxipher/indexer/client.py goes down into an answer to a document.
use noxipher.Prelude.{
  ℕ, Option-cases, ◌≡◌, ◌≢◌, refl, subst, inl, inr, List, some, list_eq, Bool-cases, if◌then◌else◌,
}
use noxipher.Core.Exceptions.{Result, ok}
use noxipher.Node.Json.{
  Json, null, object, Items, nil, cons, Fields, end, field, field_names, list_,
}
use noxipher.Indexer.Client.{Query}
use noxipher.Indexer.Documents.{
  document_of, Selections, nothing, select, Answers, absent, scalar, several, members, EachAnswers,
  no_more, one_more, Selected, all_given, given, get_member,
}
use noxipher.Indexer.Models.{subscript}

-- Every execution of a query is answered with what its document selects.
abbrev pub AnswersDocuments : (ℕ → Query → Result Json) → Type 0
AnswersDocuments execute =
    (k : ℕ) (query : Query) (answer : Json)
    → execute k query ≡ ok answer
    → Answers (document_of query) answer

abbrev pub IsSelection : Selections → Type 0
IsSelection s = s ≢ nothing

pub select-IsSelection :
    (name : List ℕ) (below rest : Selections) → IsSelection (select name below rest)
select-IsSelection name below rest h = cc h

-- What is selected below a name.
unfoldable pub below : List ℕ → Selections → Selections
below name nothing = nothing
below name (select key own rest) =
    let later = below name rest in if list_eq key name then own else later

Answers-object :
    {s : Selections} {value : Json} (fields : Fields)
    → Answers s value
    → IsSelection s
    → value ≡ object fields
    → Selected s fields
Answers-object fields absent is h = cc h
Answers-object fields scalar is h = absurd (is refl)
Answers-object fields (several each) is h = cc h
Answers-object fields (members {s} {fields = own} selected) is h =
    let e : own ≡ fields = cc h in subst (Selected s) e selected

get_member-Answers :
    {s : Selections} {fields : Fields} {value : Json} (name : List ℕ)
    → Selected s fields
    → get_member name fields ≡ some value
    → Answers (below name s) value
unfolding get_member below
get_member-Answers name all_given h = cc h
get_member-Answers {value = value} name (given {name = key} {below = own} {value = v} answer more)
      h =
    elim (Bool-cases (list_eq key name)) [
      | inl e ↦ let same : v ≡ value = cc (rw e at h) in rw e (subst (Answers own) same answer)
      | inr e ↦ rw e (get_member-Answers name more (rw e at h))
    ]

-- A subscript goes one name down.
pub subscript-Answers :
    (s : Selections) (value below_value : Json) (name : List ℕ)
    → Answers s value
    → IsSelection s
    → subscript name value ≡ ok below_value
    → Answers (below name s) below_value
unfolding subscript
subscript-Answers s (object fields) w name answer is h =
    elim (Option-cases (get_member name fields)) [
      | inl e ↦ cc (rw e at h)
      | inr (v, e) ↦
          let same : v ≡ w = cc (rw e at h) in
          subst (Answers (below name s)) same
            (get_member-Answers name (Answers-object fields answer is refl) e)
    ]
subscript-Answers s null w name answer is h = cc h
subscript-Answers s _ w name answer is h = cc h

-- The objects among the items have the members selected.
abbrev pub ObjectsSelected : Selections → Items → Type 0
ObjectsSelected s nil = Unit {0}
ObjectsSelected s (cons item items) =
    ((fields : Fields) → item ≡ object fields → Selected s fields) × ObjectsSelected s items

EachAnswers-ObjectsSelected :
    {s : Selections} {items : Items} → EachAnswers s items → IsSelection s → ObjectsSelected s items
EachAnswers-ObjectsSelected no_more is = tt
EachAnswers-ObjectsSelected (one_more answer each) is =
    (λ fields. Answers-object fields answer is, EachAnswers-ObjectsSelected each is)

field_names-ObjectsSelected :
    (s : Selections) (fields : Fields) → ObjectsSelected s (field_names fields)
unfolding field_names
field_names-ObjectsSelected s end = tt
field_names-ObjectsSelected s (field name value fields) =
    (λ own h. cc h, field_names-ObjectsSelected s fields)

pub list_-ObjectsSelected :
    {s : Selections} {value : Json} (items : Items)
    → Answers s value
    → IsSelection s
    → list_ value ≡ ok items
    → ObjectsSelected s items
unfolding list_
list_-ObjectsSelected items absent is h = cc h
list_-ObjectsSelected items scalar is h = absurd (is refl)
list_-ObjectsSelected items (several {s} {items = own} each) is h =
    let e : own ≡ items = cc h in subst (ObjectsSelected s) e (EachAnswers-ObjectsSelected each is)
list_-ObjectsSelected items (members {s} {fields} selected) is h =
    let e : field_names fields ≡ items = cc h in
    subst (ObjectsSelected s) e (field_names-ObjectsSelected s fields)
