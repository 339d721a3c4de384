-- ===== src/Contract/Instance.antt =====
-- `ContractInstance` of src/noxipher/contract/instance.py and `ContractService.deploy` of
-- service.py. What the indexer answers of an address is a parameter.
use noxipher.Prelude.{
  ℕ, ◌≡◌, ◌≢◌, ap, All, list_eq_iff, refl, inl, inr, Bool, false, Bool-cases, List, [], ◌∷◌, ◌++◌,
  Option, none, some, codes, take, list_eq, if◌then◌else◌,
}
use noxipher.Core.Exceptions.{Result, ok, err, ◌>>=◌, >>=-eq-ok, contract_error}
use noxipher.Wallet.Wallets.{MidnightWallet}
use noxipher.Tx.Transaction.{Argument, dict_, end}
use noxipher.Tx.Receipt.{TransactionReceipt}
use noxipher.Tx.Entry.{Services, call_contract, deploy_contract}
use noxipher.Tx.EntryFailures.{no_receipt}
use noxipher.Contract.Compact.{ContractEntryPoint, CompactContract, get_circuit_path}

pub record ContractInstance (C : Type 0) : Type 0 where
  pub address : List ℕ
  pub contract : CompactContract C

-- The dict that a call returns; `S` is what the indexer answers with.
pub record CallResult (S : Type 0) : Type 0 where
  pub result : Option S
  pub tx_hash : Option (List ℕ)

-- `next((e for e in entry_points if e.name == entry_point), None)`
unfoldable pub find_entry_point : List ℕ → List ContractEntryPoint → Option ContractEntryPoint
find_entry_point entry_point [] = none
find_entry_point entry_point (e ∷ es) =
    let rest = find_entry_point entry_point es in
    if list_eq e.name entry_point then some e else rest

-- The first entry point of a name.
abbrev pub IsFirstNamed : List ℕ → List ContractEntryPoint → ContractEntryPoint → Type 0
IsFirstNamed name entry_points ep =
    (before after : List ContractEntryPoint) × (entry_points ≡ before ++ ep ∷ after)
    × All (λ e. e.name ≢ name) before
    × (ep.name ≡ name)

find_entry_point-IsFirstNamed :
    (name : List ℕ) (es : List ContractEntryPoint) (ep : ContractEntryPoint)
    → find_entry_point name es ≡ some ep
    → IsFirstNamed name es ep
unfolding find_entry_point
find_entry_point-IsFirstNamed name [] ep h = cc h
find_entry_point-IsFirstNamed name (e ∷ es) ep h = elim (Bool-cases (list_eq e.name name)) [
  | inl same ↦
      let found : some e ≡ some ep = rw same at h in
      let e_ep : e ≡ ep = cc found in
      ([], es, ap (λ x. x ∷ es) e_ep, tt, rw (← e_ep) ((list_eq_iff e.name name).0 same))
  | inr other ↦
      let (before, after, split, others, named) =
        find_entry_point-IsFirstNamed name es ep (rw other at h) in
      (
        e ∷ before,
        after,
        ap (◌∷◌ e) split,
        (λ q. cc (other, (list_eq_iff e.name name).1 q), others),
        named,
      )
]

-- `args or {}`
abbrev pub args_or_empty : Option Argument → Argument
args_or_empty none = dict_ end
args_or_empty (some args) = args

module _ {C S : Type 0} (net : Services) (get_transactions : List ℕ → Result S) where
  unfoldable pub call_pure : ContractInstance C → Result (CallResult S)
  call_pure instance_ = do
    state ← get_transactions instance_.address
    ok (record { result = some state; tx_hash = none })

  unfoldable pub call_impure :
      ContractInstance C → List ℕ → Argument → MidnightWallet → Result (CallResult S)
  call_impure instance_ entry_point args wallet = do
    tx_receipt ← call_contract net wallet instance_.address entry_point args none 1800
    ok (record { result = none; tx_hash = some tx_receipt.hash })

  unfoldable pub call_by :
      ContractInstance C
      → List ℕ
      → Option Argument
      → Option MidnightWallet
      → Option ContractEntryPoint
      → Result (CallResult S)
  call_by instance_ entry_point args wallet none = err contract_error
  call_by instance_ entry_point args wallet (some ep) =
      if ep.is_impure
      then elim wallet [
        | none ↦ err contract_error
        | some w ↦ call_impure instance_ entry_point (args_or_empty args) w
      ]
      else call_pure instance_

  unfoldable pub call :
      ContractInstance C → List ℕ → Option Argument → Option MidnightWallet → Result (CallResult S)
  call instance_ entry_point args wallet =
      call_by instance_ entry_point args wallet
        (find_entry_point entry_point instance_.contract.abi.entry_points)

  call_impure-fails :
      (instance_ : ContractInstance C) (entry_point : List ℕ) (args : Argument)
      (wallet : MidnightWallet) (r : CallResult S)
      → call_impure instance_ entry_point args wallet ≡ ok r
      → ⊥
  unfolding call_impure
  call_impure-fails instance_ entry_point args wallet r h =
      let (receipt, sent, _) =
        >>=-eq-ok (call_contract net wallet instance_.address entry_point args none 1800) _ h in
      (no_receipt net wallet instance_.address entry_point [] args 0 none 1800 receipt).0 sent

  call_pure-eq-ok :
      (instance_ : ContractInstance C) (r : CallResult S)
      → call_pure instance_ ≡ ok r
      → (state : S) × (get_transactions instance_.address ≡ ok state)
        × (r ≡ record { result = some state; tx_hash = none })
  unfolding call_pure
  call_pure-eq-ok instance_ r h =
      let (state, asked, done) = >>=-eq-ok (get_transactions instance_.address) _ h in
      (state, asked, cc done)

  call_by-eq-ok :
      (instance_ : ContractInstance C) (entry_point : List ℕ) (args : Option Argument)
      (wallet : Option MidnightWallet) (found : Option ContractEntryPoint) (r : CallResult S)
      → call_by instance_ entry_point args wallet found ≡ ok r
      → (ep : ContractEntryPoint) × (found ≡ some ep)
        × (ep.is_impure ≡ false)
        × (call_pure instance_ ≡ ok r)
  unfolding call_by
  call_by-eq-ok instance_ entry_point args wallet none r h = cc h
  call_by-eq-ok instance_ entry_point args none (some ep) r h = elim (Bool-cases ep.is_impure) [
    | inl impure ↦ cc (rw (call_by, impure) at h)
    | inr pure ↦ (ep, refl, pure, rw (call_by, pure) at h)
  ]
  call_by-eq-ok instance_ entry_point args (some w) (some ep) r h = elim (Bool-cases ep.is_impure) [
    | inl impure ↦ absurd (
        call_impure-fails instance_ entry_point (args_or_empty args) w r
          (rw (call_by, impure) at h))
    | inr pure ↦ (ep, refl, pure, rw (call_by, pure) at h)
  ]

  -- A call that returns was of an entry point that the interface declares, the first of its name,
  -- and declares as pure: it returns what the indexer answers of the contract's address, and no
  -- transaction. A call that changes state returns nothing, whatever wallet it is given.
  pub call-eq-ok :
      (instance_ : ContractInstance C) (entry_point : List ℕ) (args : Option Argument)
      (wallet : Option MidnightWallet) (r : CallResult S)
      → call instance_ entry_point args wallet ≡ ok r
      → (ep : ContractEntryPoint) × (state : S) × IsFirstNamed entry_point
          instance_.contract.abi.entry_points ep
        × (ep.is_impure ≡ false)
        × (get_transactions instance_.address ≡ ok state)
        × (r ≡ record { result = some state; tx_hash = none })
  unfolding call
  call-eq-ok instance_ entry_point args wallet r h =
      let (ep, found, pure, answered) =
        call_by-eq-ok instance_ entry_point args wallet
          (find_entry_point entry_point instance_.contract.abi.entry_points) r h in
      let (state, asked, shape) = call_pure-eq-ok instance_ r answered in
      let first =
        find_entry_point-IsFirstNamed entry_point instance_.contract.abi.entry_points ep found in
      (ep, state, first, pure, asked, shape)

-- `address = receipt.contract_address`, or `0x` and the front of the hash where it is empty.
unfoldable pub instance_address : TransactionReceipt → List ℕ
instance_address receipt = elim receipt.contract_address [
  | none ↦ codes "0x" ++ take 64 receipt.hash
  | some [] ↦ codes "0x" ++ take 64 receipt.hash
  | some (c ∷ cs) ↦ c ∷ cs
]

module _ {C : Type 0} (net : Services) (exists : List ℕ → Bool)
    (read_bytes : List ℕ → Result (List ℕ)) where
  unfoldable pub deploy :
      CompactContract C → MidnightWallet → Option Argument → Result (ContractInstance C)
  deploy contract wallet initial_state = do
    file ← get_circuit_path exists contract.abi.name
    bytecode ← read_bytes file
    receipt ← deploy_contract net wallet bytecode (args_or_empty initial_state) none 1800
    ok (record { address = instance_address receipt; contract = contract })
