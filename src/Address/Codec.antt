-- ===== src/Address/Codec.antt =====
-- The table of prefixes, `encode_address`, `decode_address` and the validators.
use noxipher.Prelude.{
  ℕ, Bool, true, false, ◌&&◌, List, [], ◌∷◌, Option, none, some, codes, list_eq, if◌then◌else◌,
}
use noxipher.Core.Exceptions.{Result, ok, err, address_error, ◌>>=◌}
use noxipher.Core.Config.{Network, mainnet, preprod, preview, undeployed, network_eq}
use noxipher.Address.ConvertBits.{convertbits}
use noxipher.Address.Bech32m.{bech32m_encode, bech32m_decode}

-- ((address type, network), prefix)
abbrev pub HrpEntry : Type 0
HrpEntry = List ℕ × Network × List ℕ

unfoldable pub hrp_table : List HrpEntry
hrp_table =
    (codes "unshielded", mainnet, codes "mn_addr")
    ∷ (codes "unshielded", preprod, codes "mn_addr_preprod")
    ∷ (codes "unshielded", preview, codes "mn_addr_preview")
    ∷ (codes "unshielded", undeployed, codes "mn_addr_undeployed")
    ∷ (codes "shielded", mainnet, codes "mn_shield-addr")
    ∷ (codes "shielded", preprod, codes "mn_shield-addr_preprod")
    ∷ (codes "shielded", preview, codes "mn_shield-addr_preview")
    ∷ (codes "shielded", undeployed, codes "mn_shield-addr_undeployed")
    ∷ (codes "dust", mainnet, codes "mn_dust")
    ∷ (codes "dust", preprod, codes "mn_dust_preprod")
    ∷ (codes "dust", preview, codes "mn_dust_preview")
    ∷ (codes "dust", undeployed, codes "mn_dust_undeployed")
    ∷ []

-- `HRP_TABLE.get((addr_type, network))`
unfoldable pub hrp_of : List HrpEntry → List ℕ → Network → Option (List ℕ)
hrp_of [] t n = none
hrp_of ((t', n', h) ∷ es) t n = if list_eq t' t && network_eq n' n then some h else hrp_of es t n

-- `HRP_REVERSE.get(hrp)`: no prefix stands twice in the table.
unfoldable pub hrp_reverse : List HrpEntry → List ℕ → Option (List ℕ × Network)
hrp_reverse [] hrp = none
hrp_reverse ((t, n, h) ∷ es) hrp = if list_eq h hrp then some (t, n) else hrp_reverse es hrp

abbrev pub or_address_error {ℓ} : {A : Type ℓ} → Option A → Result A
or_address_error none = err address_error
or_address_error (some a) = ok a

unfoldable pub encode_address : List ℕ → List ℕ → Network → Result (List ℕ)
encode_address payload addr_type network = do
  hrp ← or_address_error (hrp_of hrp_table addr_type network)
  data5 ← convertbits payload 8 5 true
  bech32m_encode hrp data5

unfoldable pub decode_address : List ℕ → Result (List ℕ × Network × List ℕ)
decode_address address = do
  (hrp, data5) ← bech32m_decode address
  (addr_type, network) ← or_address_error (hrp_reverse hrp_table hrp)
  payload ← convertbits data5 5 8 false
  ok (addr_type, network, payload)

-- `except AddressError: return False`; another exception goes on.
unfoldable pub catch_address_error : Result Bool → Result Bool
catch_address_error (err address_error) = ok false
catch_address_error r = r

unfoldable pub validate_address : List ℕ → Result Bool
unfolding catch_address_error
validate_address address = catch_address_error (do decoded ← decode_address address; ok true)

unfoldable pub validate_address_for_network : List ℕ → Network → Result Bool
unfolding catch_address_error
validate_address_for_network address expected_network =
    catch_address_error
      (do (t, network, p) ← decode_address address; ok (network_eq network expected_network))

unfoldable pub get_address_type : List ℕ → Result (List ℕ)
get_address_type address = do (addr_type, n, p) ← decode_address address; ok addr_type
