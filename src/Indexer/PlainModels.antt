-- ===== src/Indexer/PlainModels.antt =====
-- A reading of the models of src/noxipher/indexer/models.py that has the laws of `Pydantic`: it
-- looks for the required fields and takes any value.
use noxipher.Prelude.{
  ℕ, ◌≡◌, refl, ap, Bool, true, false, ◌&&◌, inl, inr, if◌then◌else◌, List, [], ◌∷◌, Option, none,
  some, list_eq, Bool-cases, Option-cases, list_eq→eq, subst, arith, ◌∙◌,
}
use noxipher.Core.Exceptions.{Result, ok, err, value_error}
use noxipher.Node.Json.{Json, null, object, Fields}
use noxipher.Indexer.Documents.{get_member}
use noxipher.Indexer.Models.{FieldInfo, Model, declared, Pydantic}

abbrev or_missing : Bool → Option Json → Bool
or_missing is_optional none = is_optional
or_missing is_optional (some value) = true

abbrev is_optional : Option Json → Bool
is_optional none = false
is_optional (some value) = true

unfoldable pub has_required : Model → Fields → Bool
has_required [] fields = true
has_required (info ∷ infos) fields =
    or_missing (is_optional info.default) (get_member info.name fields) && has_required infos fields

pub has_required-member :
    (m : Model) (fields : Fields) (name : List ℕ) (info : FieldInfo)
    → has_required m fields ≡ true
    → declared name m ≡ some info
    → info.default ≡ none
    → (value : Json) × (get_member name fields ≡ some value)
unfolding has_required declared
has_required-member [] fields name info all own needed = cc own
has_required-member (first ∷ infos) fields name info all own needed =
    elim (Bool-cases (list_eq first.name name)) [
      | inr other ↦
          has_required-member infos fields name info (ground (arith, all)) (rw other at own) needed
      | inl e ↦
          let same : first ≡ info = cc (rw e at own) in
          let first_needed : first.default ≡ none =
            ap (λ (i : FieldInfo). i.default) same ∙ needed in
          let key : first.name ≡ name = list_eq→eq first.name name e in
          elim (Option-cases (get_member first.name fields)) [
            | inl absent ↦ cc (rw (first_needed, absent) at all)
            | inr (value, found) ↦ (value, subst (λ k. get_member k fields ≡ some value) key found)
          ]
    ]

-- What an attribute is: the key's value, or the default.
abbrev or_default : Option Json → Option FieldInfo → Json
or_default (some value) info = value
or_default none none = null
or_default none (some info) = elim info.default [ none ↦ null | some value ↦ value ]

unfoldable pub validate : Model → Json → Result (Model × Fields)
validate m (object fields) = if has_required m fields then ok (m, fields) else err value_error
validate m value = err value_error

unfoldable pub attribute : Model × Fields → List ℕ → Json
attribute (m, fields) name = or_default (get_member name fields) (declared name m)

pub validate-object :
    (m : Model) (value : Json) (instance_ : Model × Fields)
    → validate m value ≡ ok instance_
    → (fields : Fields) × (value ≡ object fields)
unfolding validate
validate-object m (object fields) instance_ h = (fields, refl)
validate-object m null instance_ h = cc h
validate-object m _ instance_ h = cc h

pub validate-eq-ok :
    (m : Model) (fields : Fields) (instance_ : Model × Fields)
    → validate m (object fields) ≡ ok instance_
    → (has_required m fields ≡ true) × ((m, fields) ≡ instance_)
unfolding validate
validate-eq-ok m fields instance_ h = elim (Bool-cases (has_required m fields)) [
  | inl e ↦ (e, cc (rw e at h))
  | inr e ↦ cc (rw e at h)
]

pub attribute_default :
    (m : Model) (fields : Fields) (instance_ : Model × Fields) (name : List ℕ) (info : FieldInfo)
    (value : Json)
    → validate m (object fields) ≡ ok instance_
    → declared name m ≡ some info
    → info.default ≡ some value
    → get_member name fields ≡ none
    → attribute instance_ name ≡ value
unfolding attribute
attribute_default m fields instance_ name info value h own default absent =
    let same : attribute (m, fields) name ≡ value = rw (absent, own, default) refl in
    subst (λ i. attribute i name ≡ value) (validate-eq-ok m fields instance_ h).1 same

abbrev pub plain_models : Pydantic
plain_models = record {
  Instance = Model × Fields;
  model_validate = validate;
  attribute = attribute;
  takes_dicts = validate-object;
  needs_required = λ m fields instance_ name info h own needed.
      has_required-member m fields name info (validate-eq-ok m fields instance_ h).0 own needed;
  takes_default = attribute_default;
}
