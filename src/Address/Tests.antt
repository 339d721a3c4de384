-- ===== src/Address/Tests.antt =====
-- The codec of src/noxipher/address on a concrete address.
use noxipher.Prelude.{ℕ, ◌≡◌, refl, true, false, List, [], ◌∷◌, ◌++◌, codes, some, arith, list_eq}
use noxipher.Core.Exceptions.{ok, err, address_error, ◌>>=◌}
use noxipher.Core.Config.{preprod, preview, network_eq, network_index}
use noxipher.Address.Polymod.{
  mix_generators, polymod_step, polymod_from, bech32_polymod, bech32_hrp_expand, checksum_values,
  bech32m_create_checksum, bech32m_verify_checksum,
}
use noxipher.Address.ConvertBits.{emit, regroup, finish_bits, convertbits}
use noxipher.Address.Bech32m.{
  charset_chars, bech32m_encode, lower, any, printable, rfind, index_of, charset_find, find_all,
  split_at_separator, bech32m_decode,
}
use noxipher.Address.Codec.{
  hrp_table, hrp_of, hrp_reverse, encode_address, decode_address, validate_address_for_network,
}
use noxipher.Address.RoundTrip.{decode_address-encode, validate_address_for_network-encode}
use noxipher.Address.OneError.{decode_address_one_error}
use noxipher.Address.Checksum.{bech32m_verify_checksum-create}
use noxipher.Address.BitsRoundTrip.{convertbits-round_trip}

-- Three bytes, and their DUST address on preprod.
abbrev pub three_bytes : List ℕ
three_bytes = 1 ∷ 200 ∷ 255 ∷ []

abbrev pub dust_text : List ℕ
dust_text = codes "mn_dust_preprod1q8y07uqyxae"

pub dust_text-encoded : encode_address three_bytes (codes "dust") preprod ≡ ok dust_text
unfolding encode_address hrp_of hrp_table network_eq network_index convertbits regroup emit
    finish_bits bech32m_encode bech32m_create_checksum checksum_values bech32_polymod polymod_from
    polymod_step mix_generators bech32_hrp_expand charset_chars list_eq
dust_text-encoded = refl

pub dust_text-decoded : decode_address dust_text ≡ ok (codes "dust", preprod, three_bytes)
unfolding decode_address bech32m_decode any printable lower rfind split_at_separator find_all
    charset_find index_of bech32m_verify_checksum bech32_polymod polymod_from polymod_step
    mix_generators bech32_hrp_expand hrp_reverse hrp_table convertbits regroup emit finish_bits
    list_eq
dust_text-decoded = refl

dust_prefix : hrp_of hrp_table (codes "dust") preprod ≡ some (codes "mn_dust_preprod")
unfolding hrp_of hrp_table list_eq network_eq network_index
dust_prefix = refl

decode_address-encode_example :
    (text : List ℕ) × (encode_address three_bytes (codes "dust") preprod ≡ ok text)
    × (decode_address text ≡ ok (codes "dust", preprod, three_bytes))
decode_address-encode_example =
    decode_address-encode three_bytes (codes "dust") (codes "mn_dust_preprod") preprod
      (omega arith, (omega arith, (omega arith, tt))) dust_prefix

validate_address_for_network-encode_example :
    validate_address_for_network dust_text preview ≡ ok (network_eq preprod preview)
validate_address_for_network-encode_example =
    validate_address_for_network-encode three_bytes (codes "dust") (codes "mn_dust_preprod")
      dust_text preprod preview (omega arith, (omega arith, (omega arith, tt))) dust_prefix
      dust_text-encoded

-- The first character behind the separator, `q`, replaced by `p`.
decode_address_one_error_example :
    decode_address (codes "mn_dust_preprod" ++ (b'1' ∷ ([] ++ (b'p' ∷ codes "8y07uqyxae"))))
    ≡ err address_error
decode_address_one_error_example =
    decode_address_one_error three_bytes (codes "dust") (codes "mn_dust_preprod") []
      (codes "8y07uqyxae") preprod b'q' b'p' 1 (omega arith, (omega arith, (omega arith, tt)))
      dust_prefix dust_text-encoded refl (omega arith) (omega arith)

mn_checksum :
    bech32m_verify_checksum
      (codes "mn")
      ([] ++ (3 ∷ (31 ∷ bech32m_create_checksum (codes "mn") (3 ∷ 31 ∷ []))))
    ≡ true
mn_checksum = bech32m_verify_checksum-create (codes "mn") (3 ∷ 31 ∷ [])

convertbits-round_trip_example :
    (convertbits three_bytes 8 5 true >>= (λ out. convertbits out 5 8 false)) ≡ ok three_bytes
convertbits-round_trip_example =
    convertbits-round_trip three_bytes 8 5 (omega arith) (omega arith)
      (omega arith, (omega arith, (omega arith, tt)))
