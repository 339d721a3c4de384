-- ===== src/Node/Json.antt =====
-- The JSON values that a node answers with, and Python's `str`, `dict` and `list` of them. `repr`
-- of a value that is no text, and `dict` of a list that is not empty, are parameters.
use noxipher.Prelude.{ℕ, Bool, List, [], ◌∷◌, Option, none, some}
use noxipher.Core.Exceptions.{Result, ok, err, type_error, value_error}

mutual
  pub data Json : Type 0 where
    null : Json
    text : List ℕ → Json
    boolean : Bool → Json
    number : ℕ → Json
    array : Items → Json
    object : Fields → Json

  pub data Items : Type 0 where
    nil : Items
    cons : Json → Items → Items

  pub data Fields : Type 0 where
    end : Fields
    field : List ℕ → Json → Fields → Fields

pub record Builtins : Type 0 where
  pub repr : Json → List ℕ
  pub dict_of_items : Items → Result Fields

-- The members of an answer that the client reads.
pub record Response : Type 0 where
  pub result : Option Json
  pub error : Option Json

-- `result.get("result", default)`
unfoldable pub result_or : Response → Json → Json
result_or response default = elim response.result [ none ↦ default | some value ↦ value ]

unfoldable pub str_ : Builtins → Json → List ℕ
str_ py (text t) = t
str_ py value = py.repr value

unfoldable pub dict_ : Builtins → Json → Result Fields
dict_ py (object fields) = ok fields
dict_ py (text []) = ok end
dict_ py (text (c ∷ cs)) = err value_error
dict_ py (array nil) = ok end
dict_ py (array (cons item items)) = py.dict_of_items (cons item items)
dict_ py null = err type_error
dict_ py (boolean b) = err type_error
dict_ py (number n) = err type_error

unfoldable pub characters : List ℕ → Items
characters [] = nil
characters (c ∷ cs) = cons (text (c ∷ [])) (characters cs)

unfoldable pub field_names : Fields → Items
field_names end = nil
field_names (field name value fields) = cons (text name) (field_names fields)

unfoldable pub list_ : Json → Result Items
list_ (array items) = ok items
list_ (text t) = ok (characters t)
list_ (object fields) = ok (field_names fields)
list_ null = err type_error
list_ (boolean b) = err type_error
list_ (number n) = err type_error
