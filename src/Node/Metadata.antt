-- ===== src/Node/Metadata.antt =====
-- `get_pallet_call_index` of src/noxipher/node/client.py.
use noxipher.Prelude.{
  ℕ, ◌≡◌, refl, inl, inr, ◌&&◌, true, false, Bool-cases, Option-cases, List, [], ◌∷◌, ◌++◌, Option,
  none, some, list_eq, if◌then◌else◌,
}
use noxipher.Core.Exceptions.{Result, ok, err, ◌>>=◌, connection_error, value_error}
use noxipher.Node.Connection.{Call, Pallet, Substrate, NodeClient, require_connection}

abbrev pub Indices : Type 0
Indices = ℕ × ℕ

-- The inner loop: the first call of the name.
unfoldable pub find_call : ℕ → List ℕ → List Call → Option Indices
find_call pallet_idx call_name [] = none
find_call pallet_idx call_name (call ∷ calls) =
    let rest = find_call pallet_idx call_name calls in
    if list_eq call.name call_name then some (pallet_idx, call.index) else rest

-- `if pallet.get("calls"): for call in ...`
unfoldable pub find_in_pallet : List ℕ → Pallet → Option Indices
find_in_pallet call_name pallet = elim pallet.calls [
  | none ↦ none
  | some calls ↦ find_call pallet.index call_name calls
]

-- A `return` of the inner loop, or the next round.
abbrev pub or_else {ℓ} : {A : Type ℓ} → Option A → Option A → Option A
or_else none rest = rest
or_else (some found) rest = some found

unfoldable pub find_pallet_call : List ℕ → List ℕ → List Pallet → Option Indices
find_pallet_call pallet_name call_name [] = none
find_pallet_call pallet_name call_name (pallet ∷ pallets) =
    let rest = find_pallet_call pallet_name call_name pallets in
    if list_eq pallet.name pallet_name then or_else (find_in_pallet call_name pallet) rest else rest

unfoldable pub or_value_error : Option Indices → Result Indices
or_value_error none = err value_error
or_value_error (some found) = ok found

-- `except Exception`
unfoldable pub wrap_connection_error : Result Indices → Result Indices
wrap_connection_error (ok found) = ok found
wrap_connection_error (err e) = err connection_error

unfoldable pub get_pallet_call_index : NodeClient → List ℕ → List ℕ → Result Indices
get_pallet_call_index client pallet_name call_name = do
  substrate ← require_connection client
  wrap_connection_error do
    pallets ← substrate.get_metadata
    or_value_error (find_pallet_call pallet_name call_name pallets)

-- The metadata as one table: pallet, call and the two indices.
abbrev pub CallEntry : Type 0
CallEntry = List ℕ × List ℕ × ℕ × ℕ

pallet_rows : Pallet → List Call → List CallEntry
pallet_rows p [] = []
pallet_rows p (c ∷ cs) = (p.name, c.name, p.index, c.index) ∷ pallet_rows p cs

call_rows : Pallet → List CallEntry
call_rows p = elim p.calls [ none ↦ [] | some calls ↦ pallet_rows p calls ]

pub call_table : List Pallet → List CallEntry
call_table [] = []
call_table (p ∷ ps) = call_rows p ++ call_table ps

pub first_entry : List ℕ → List ℕ → List CallEntry → Option Indices
first_entry pallet_name call_name [] = none
first_entry pallet_name call_name ((p, c, i, j) ∷ rows) =
    let rest = first_entry pallet_name call_name rows in
    if list_eq p pallet_name && list_eq c call_name then some (i, j) else rest

pub or_connection_error : Option Indices → Result Indices
or_connection_error none = err connection_error
or_connection_error (some found) = ok found

module _ (pallet_name call_name : List ℕ) where
  rows_match :
      (p : Pallet) (calls : List Call) (rest : List CallEntry)
      → list_eq p.name pallet_name ≡ true
      → first_entry pallet_name call_name (pallet_rows p calls ++ rest)
        ≡ or_else (find_call p.index call_name calls) (first_entry pallet_name call_name rest)
  unfolding pallet_rows first_entry find_call
  rows_match p [] rest h = refl
  rows_match p (c ∷ cs) rest h = elim (Bool-cases (list_eq c.name call_name)) [
    | inl same ↦ rw (h, same)
    | inr differ ↦ rw (h, differ) (rows_match p cs rest h)
  ]

  rows_miss :
      (p : Pallet) (calls : List Call) (rest : List CallEntry)
      → list_eq p.name pallet_name ≡ false
      → first_entry pallet_name call_name (pallet_rows p calls ++ rest)
        ≡ first_entry pallet_name call_name rest
  unfolding pallet_rows first_entry
  rows_miss p [] rest h = refl
  rows_miss p (c ∷ cs) rest h = rw h (rows_miss p cs rest h)

  entry_of_match :
      (p : Pallet) (rest : List CallEntry)
      → list_eq p.name pallet_name ≡ true
      → first_entry pallet_name call_name (call_rows p ++ rest)
        ≡ or_else (find_in_pallet call_name p) (first_entry pallet_name call_name rest)
  unfolding call_rows find_in_pallet
  entry_of_match p rest h = elim (Option-cases p.calls) [
    | inl bare ↦ rw (call_rows, find_in_pallet, bare)
    | inr (calls, e) ↦ rw (call_rows, find_in_pallet, e) (rows_match p calls rest h)
  ]

  entry_of_miss :
      (p : Pallet) (rest : List CallEntry)
      → list_eq p.name pallet_name ≡ false
      → first_entry pallet_name call_name (call_rows p ++ rest)
        ≡ first_entry pallet_name call_name rest
  unfolding call_rows
  entry_of_miss p rest h = elim (Option-cases p.calls) [
    | inl bare ↦ rw (call_rows, bare)
    | inr (calls, e) ↦ rw (call_rows, e) (rows_miss p calls rest h)
  ]

  find_pallet_call_lem :
      (pallets : List Pallet)
      → find_pallet_call pallet_name call_name pallets
        ≡ first_entry pallet_name call_name (call_table pallets)
  unfolding find_pallet_call call_table first_entry
  find_pallet_call_lem [] = refl
  find_pallet_call_lem (p ∷ ps) = elim (Bool-cases (list_eq p.name pallet_name)) [
    | inl same ↦ rw (same, entry_of_match p (call_table ps) same, find_pallet_call_lem ps)
    | inr differ ↦ rw (differ, entry_of_miss p (call_table ps) differ, find_pallet_call_lem ps)
  ]

wrapped :
    (found : Option Indices)
    → wrap_connection_error (or_value_error found) ≡ or_connection_error found
unfolding wrap_connection_error or_value_error or_connection_error
wrapped none = refl
wrapped (some found) = refl

-- On an open connection that gives the metadata, the indices are those of the first entry of its
-- table with both names, and ConnectionError where there is none.
pub get_pallet_call_index_lem :
    (client : NodeClient) (substrate : Substrate) (pallets : List Pallet)
    (pallet_name call_name : List ℕ)
    → client.substrate ≡ some substrate
    → substrate.get_metadata ≡ ok pallets
    → get_pallet_call_index client pallet_name call_name
      ≡ or_connection_error (first_entry pallet_name call_name (call_table pallets))
unfolding get_pallet_call_index require_connection
get_pallet_call_index_lem client substrate pallets pallet_name call_name open_ known =
    rw (open_, known, find_pallet_call_lem pallet_name call_name pallets) (wrapped _)
