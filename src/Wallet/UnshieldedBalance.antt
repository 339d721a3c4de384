-- ===== src/Wallet/UnshieldedBalance.antt =====
-- `UnshieldedWallet.get_balance` of src/noxipher/wallet/unshielded.py. The token type is the field
-- "token_type", which is missing where it is `none`, and no other.
use noxipher.Prelude.{
  ℕ, ◌+◌, ◌≡◌, refl, arith, List, [], ◌∷◌, Option, none, some, replicate, list_eq, list_eq_iff,
  if◌then◌else◌,
}
use noxipher.Core.Exceptions.{Result, ok, ◌>>=◌}
use noxipher.Wallet.Hex.{zeros_hex}
use noxipher.Wallet.Utxo.{
  TokenField, text, empty_dict, other_dict, hex_dict, token_text, Utxo, value_or_zero,
}
use noxipher.Wallet.Wallets.{UnshieldedWallet}

-- A dict from token types to amounts, in the order in which the keys were put in.
abbrev pub Balances : Type 0
Balances = List (List ℕ × ℕ)

-- `utxo.get("token_type", "00" * 32)`, of a dict its "hex".
unfoldable pub token_key : Utxo → List ℕ
token_key utxo = elim utxo.token_type [ none ↦ zeros_hex | some field ↦ token_text field ]

-- `balances[tt] = balances.get(tt, 0) + val`
unfoldable pub add_balance : List ℕ → ℕ → Balances → Balances
add_balance tt val [] = (tt, val) ∷ []
add_balance tt val ((key, amount) ∷ balances) =
    let kept = (key, amount) ∷ add_balance tt val balances in
    if list_eq key tt then (key, amount + val) ∷ balances else kept

unfoldable pub add_balances : Balances → List Utxo → Balances
add_balances balances [] = balances
add_balances balances (utxo ∷ utxos) =
    add_balances (add_balance (token_key utxo) (value_or_zero utxo) balances) utxos

unfoldable pub get_unshielded_balance :
    (List ℕ → Result (List Utxo)) → UnshieldedWallet → Result Balances
get_unshielded_balance get_utxos wallet = do
  utxos ← get_utxos wallet.address
  ok (add_balances [] utxos)

-- `balances.get(tt, 0)`
pub balance_at : List ℕ → Balances → ℕ
balance_at tt [] = 0
balance_at tt ((key, amount) ∷ balances) = if list_eq key tt then amount else balance_at tt balances

-- The token of a UTXO by its field "token_type": the text, or the "hex" of a dict, and the text of
-- 64 zeros, NIGHT's, without it. The field "tokenType" has no part in it.
abbrev pub filed_under : Option TokenField → List ℕ
filed_under none = replicate 64 48
filed_under (some (text name)) = name
filed_under (some empty_dict) = replicate 64 48
filed_under (some other_dict) = replicate 64 48
filed_under (some (hex_dict name)) = name

-- The values of the UTXOs of one token.
pub held : List ℕ → List Utxo → ℕ
held tt [] = 0
held tt (utxo ∷ utxos) =
    (if list_eq (filed_under utxo.token_type) tt then value_or_zero utxo else 0) + held tt utxos

token_key_lem : (utxo : Utxo) → token_key utxo ≡ filed_under utxo.token_type
unfolding token_key token_text
token_key_lem utxo = go utxo.token_type
  where
    go :
        (field : Option TokenField)
        → (elim field [ none ↦ zeros_hex | some f ↦ token_text f ]) ≡ filed_under field
    go none = refl
    go (some (text name)) = refl
    go (some empty_dict) = refl
    go (some other_dict) = refl
    go (some (hex_dict name)) = refl

balance_at-add_balance :
    (tt key : List ℕ) (val : ℕ) (balances : Balances)
    → balance_at tt (add_balance key val balances)
      ≡ balance_at tt balances + (if list_eq key tt then val else 0)
unfolding balance_at add_balance
balance_at-add_balance tt key val [] = ground arith
balance_at-add_balance tt key val ((k, amount) ∷ balances) = ground (
  arith,
  list_eq_iff k key,
  list_eq_iff k tt,
  list_eq_iff key tt,
  balance_at-add_balance tt key val balances,
)

balance_at-add_balances :
    (tt : List ℕ) (balances : Balances) (utxos : List Utxo)
    → balance_at tt (add_balances balances utxos) ≡ balance_at tt balances + held tt utxos
unfolding add_balances held
balance_at-add_balances tt balances [] = omega arith
balance_at-add_balances tt balances (utxo ∷ utxos) = rw (token_key_lem utxo) (
    let key = filed_under utxo.token_type in
    omega (
      arith,
      balance_at-add_balances tt (add_balance key (value_or_zero utxo) balances) utxos,
      balance_at-add_balance tt key (value_or_zero utxo) balances,
    ))

-- The balance of every token, kept or not, is what those of the wallet's UTXOs are worth whose field
-- "token_type" names it; a UTXO without that field counts for NIGHT, whatever its "tokenType" is.
pub get_unshielded_balance_lem :
    (get_utxos : List ℕ → Result (List Utxo)) (wallet : UnshieldedWallet) (utxos : List Utxo)
    (tt : List ℕ)
    → get_utxos wallet.address ≡ ok utxos
    → (balances : Balances) × (get_unshielded_balance get_utxos wallet ≡ ok balances)
      × (balance_at tt balances ≡ held tt utxos)
unfolding get_unshielded_balance balance_at
get_unshielded_balance_lem get_utxos wallet utxos tt h =
    (add_balances [] utxos, rw h, omega (arith, balance_at-add_balances tt [] utxos))
