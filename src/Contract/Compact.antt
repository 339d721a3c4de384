-- ===== src/Contract/Compact.antt =====
-- src/noxipher/contract/compact.py: the reader of a contract's interface and the look-up of its
-- files. JSON is taken as well typed: a key that may be missing is an Option. What the file system
-- holds is a parameter.
use noxipher.Prelude.{ℕ, Bool, false, List, [], ◌∷◌, ◌++◌, Option, none, some, codes, if◌then◌else◌}
use noxipher.Core.Exceptions.{Exception, Result, ok, err, ◌>>=◌, contract_error}
use noxipher.Tx.Envelope.{get_default}

pub record ContractEntryPoint : Type 0 where
  pub name : List ℕ
  pub is_impure : Bool
  pub param_types : List (List ℕ)
  pub return_type : Option (List ℕ)

-- A circuit's dict stays as it is.
pub record ContractAbi (Circuit : Type 0) : Type 0 where
  pub name : List ℕ
  pub version : Option (List ℕ)
  pub circuits : List Circuit
  pub entry_points : List ContractEntryPoint

pub record RawEntryPoint : Type 0 where
  pub name : Option (List ℕ)
  pub impure : Option Bool
  pub is_impure : Option Bool
  pub params : Option (List (List ℕ))
  pub param_types : Option (List (List ℕ))
  pub returns : Option (List ℕ)
  pub return_type : Option (List ℕ)

pub record RawAbi (Circuit : Type 0) : Type 0 where
  pub name : Option (List ℕ)
  pub version : Option (List ℕ)
  pub circuits : Option (List Circuit)
  pub entry_points_camel : Option (List RawEntryPoint)
  pub entry_points : Option (List RawEntryPoint)

-- What `json.loads(path.read_text())` gives.
pub data Loaded (Circuit : Type 0) : Type 0 where
  json_decode_error file_not_found : Loaded Circuit
  other_failure : Exception → Loaded Circuit
  loaded : RawAbi Circuit → Loaded Circuit

-- `ep.get(key, default)` where the default is optional itself.
abbrev pub or_option {ℓ} : {A : Type ℓ} → Option A → Option A → Option A
or_option none default = default
or_option (some value) default = some value

unfoldable pub parse_entry_point : RawEntryPoint → ContractEntryPoint
parse_entry_point ep = record {
  name = get_default ep.name [];
  is_impure = get_default ep.impure (get_default ep.is_impure false);
  param_types = get_default ep.params (get_default ep.param_types []);
  return_type = or_option ep.returns ep.return_type;
}

unfoldable pub parse_entry_points : List RawEntryPoint → List ContractEntryPoint
parse_entry_points [] = []
parse_entry_points (ep ∷ eps) = parse_entry_point ep ∷ parse_entry_points eps

unfoldable pub parse_abi : {C : Type 0} → RawAbi C → ContractAbi C
parse_abi raw = record {
  name = get_default raw.name [];
  version = raw.version;
  circuits = get_default raw.circuits [];
  entry_points =
      parse_entry_points (get_default raw.entry_points_camel (get_default raw.entry_points []));
}

unfoldable pub from_json_file : {C : Type 0} → Loaded C → Result (ContractAbi C)
from_json_file json_decode_error = err contract_error
from_json_file file_not_found = err contract_error
from_json_file (other_failure e) = err e
from_json_file (loaded raw) = ok (parse_abi raw)

-- The directory is a name; a file of it is the directory and the file's name.
pub record CompactContract (Circuit : Type 0) : Type 0 where
  pub abi : ContractAbi Circuit
  pub circuit_dir : List ℕ

unfoldable pub from_files :
    {C : Type 0}
    → (List ℕ → List ℕ → Loaded C)
    → List ℕ
    → List (List ℕ)
    → Result (CompactContract C)
from_files read circuit_dir [] = err contract_error
from_files read circuit_dir (file ∷ files) = do
  abi ← from_json_file (read circuit_dir file)
  ok (record { abi = abi; circuit_dir = circuit_dir })

-- `glob` gives the files that end in .contract.json, `read` the content of one.
unfoldable pub from_directory :
    {C : Type 0}
    → (List ℕ → List (List ℕ))
    → (List ℕ → List ℕ → Loaded C)
    → List ℕ
    → Result (CompactContract C)
from_directory glob read circuit_dir = from_files read circuit_dir (glob circuit_dir)

abbrev pub extensions : List (List ℕ)
extensions = codes ".wasm" ∷ codes ".zkey" ∷ codes ".params" ∷ []

unfoldable pub first_existing : (List ℕ → Bool) → List ℕ → List (List ℕ) → Result (List ℕ)
first_existing exists circuit_id [] = err contract_error
first_existing exists circuit_id (ext ∷ exts) =
    let rest = first_existing exists circuit_id exts in
    if exists (circuit_id ++ ext) then ok (circuit_id ++ ext) else rest

-- The name of the file; `exists` is for the names in the contract's directory.
unfoldable pub get_circuit_path : (List ℕ → Bool) → List ℕ → Result (List ℕ)
get_circuit_path exists circuit_id = first_existing exists circuit_id extensions
