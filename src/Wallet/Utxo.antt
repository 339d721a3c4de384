-- ===== src/Wallet/Utxo.antt =====
-- A UTXO as the indexer reports it, read as src/noxipher/tx/builder.py and
-- src/noxipher/dapp/connector.py read it. A key is missing or null where the field is `none`; a
-- value is never null.
use noxipher.Prelude.{
  ℕ, zero, suc, Bool, List, [], ◌∷◌, Option, none, some, list_eq, leb, map, if◌then◌else◌,
}
use noxipher.Core.Exceptions.{Result, ok, err, key_error}
use noxipher.Address.Bech32m.{lower}
use noxipher.Wallet.Hex.{hex, remove_0x, zeros_hex}

-- A text, or a dict: empty, with the key "hex", or without it.
pub data TokenField : Type 0 where
  text : List ℕ → TokenField
  empty_dict other_dict : TokenField
  hex_dict : List ℕ → TokenField

-- Numbers are what `int` makes of the field. A camel-case key is the field with `_camel`.
pub record Utxo : Type 0 where
  pub value : Option ℕ
  pub token_type : Option TokenField
  pub token_type_camel : Option TokenField
  pub intent_hash : Option (List ℕ)
  pub intent_hash_camel : Option (List ℕ)
  pub output_no : Option ℕ
  pub output_no_camel : Option ℕ

-- `a or b` on token fields: an empty text and an empty dict are false.
unfoldable pub or_token : Option TokenField → TokenField → TokenField
or_token none other = other
or_token (some (text [])) other = other
or_token (some empty_dict) other = other
or_token (some field) other = field

unfoldable pub token_text : TokenField → List ℕ
token_text (text t) = t
token_text empty_dict = zeros_hex
token_text other_dict = zeros_hex
token_text (hex_dict t) = t

unfoldable pub u_token : Utxo → List ℕ
u_token utxo =
    token_text (or_token utxo.token_type (or_token utxo.token_type_camel (text zeros_hex)))

-- `u_token.replace("0x", "").lower() == token_type.hex().lower()`
unfoldable pub has_token : List ℕ → Utxo → Bool
has_token token_type utxo =
    list_eq (map lower (remove_0x (u_token utxo))) (map lower (hex token_type))

-- `int(utxo.get("value", 0))`
unfoldable pub value_or_zero : Utxo → ℕ
value_or_zero utxo = elim utxo.value [ none ↦ 0 | some v ↦ v ]

-- `int(utxo["value"])`
unfoldable pub value_at : Utxo → Result ℕ
value_at utxo = elim utxo.value [ none ↦ err key_error | some v ↦ ok v ]

unfoldable pub or_text : Option (List ℕ) → List ℕ → List ℕ
or_text none other = other
or_text (some []) other = other
or_text (some (c ∷ cs)) other = c ∷ cs

unfoldable pub or_number : Option ℕ → ℕ → ℕ
or_number none other = other
or_number (some zero) other = other
or_number (some (suc n)) other = suc n

unfoldable pub i_hash : Utxo → List ℕ
i_hash utxo = or_text utxo.intent_hash_camel (or_text utxo.intent_hash zeros_hex)

unfoldable pub o_no : Utxo → ℕ
o_no utxo = or_number utxo.output_no_camel (or_number utxo.output_no 0)

-- `eligible.sort(key=value, reverse=True)`: descending, equal values in the order they had.
unfoldable pub insert_utxo : Utxo → List Utxo → List Utxo
insert_utxo u [] = u ∷ []
insert_utxo u (t ∷ ts) =
    if leb (value_or_zero t) (value_or_zero u) then u ∷ t ∷ ts else t ∷ insert_utxo u ts

unfoldable pub sort_largest_first : List Utxo → List Utxo
sort_largest_first [] = []
sort_largest_first (u ∷ us) = insert_utxo u (sort_largest_first us)
