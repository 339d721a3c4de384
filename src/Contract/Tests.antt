-- ===== src/Contract/Tests.antt =====
-- A contract of src/noxipher/contract with one entry point of each kind.
use noxipher.Prelude.{ℕ, ◌≡◌, refl, true, false, List, [], ◌∷◌, none, some, codes, list_eq}
use noxipher.Core.Exceptions.{Result, ok, err, contract_error}
use noxipher.Tx.EntryTests.{net, wallet}
use noxipher.Contract.Compact.{
  ContractEntryPoint, CompactContract, get_circuit_path, first_existing,
}
use noxipher.Contract.Instance.{
  ContractInstance, CallResult, IsFirstNamed, find_entry_point, call_pure, call_by, call,
  call-eq-ok,
}

abbrev counter : CompactContract (List ℕ)
counter = record {
  abi = record {
    name = codes "counter";
    version = none;
    circuits = [];
    entry_points =
        record { name = codes "increment"; is_impure = true; param_types = []; return_type = none }
        ∷ record { name = codes "read"; is_impure = false; param_types = []; return_type = none }
        ∷ [];
  };
  circuit_dir = codes "out";
}

abbrev deployed : ContractInstance (List ℕ)
deployed = record { address = codes "ab12"; contract = counter }

abbrev indexer : List ℕ → Result (List ℕ)
indexer address = ok address

abbrev answer : CallResult (List ℕ)
answer = record { result = some (codes "ab12"); tx_hash = none }

read_result : call net indexer deployed (codes "read") none (some wallet) ≡ ok answer
unfolding call call_by call_pure find_entry_point list_eq
read_result = refl

call-eq-ok_example :
    (ep : ContractEntryPoint) × (state : List ℕ) × IsFirstNamed
      (codes "read")
      deployed.contract.abi.entry_points
      ep
    × (ep.is_impure ≡ false)
    × (indexer deployed.address ≡ ok state)
    × (answer ≡ record { result = some state; tx_hash = none })
call-eq-ok_example =
    call-eq-ok net indexer deployed (codes "read") none (some wallet) answer read_result

-- The first extension whose file exists.
circuit_path :
    get_circuit_path (λ file. list_eq file (codes "counter.zkey")) (codes "counter")
    ≡ ok (codes "counter.zkey")
unfolding get_circuit_path first_existing list_eq
circuit_path = refl

no_circuit : get_circuit_path (λ file. false) (codes "counter") ≡ err contract_error
unfolding get_circuit_path first_existing
no_circuit = refl
