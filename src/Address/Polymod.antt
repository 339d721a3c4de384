-- ===== src/Address/Polymod.antt =====
-- The checksum of bech32m.py. `x >> k` is `x / 2 ^ k` and `x & (2 ^ k - 1)` is `x % 2 ^ k`.
use noxipher.Prelude.{
  ℕ, ◌+◌, ◌*◌, ◌/◌, ◌%◌, ◌^◌, Bool, List, [], ◌∷◌, ◌++◌, map, bit_xor, ◌==◌, if◌then◌else◌,
}

abbrev pub bech32m_const : ℕ
bech32m_const = 0x2BC830A3

abbrev pub generator : List ℕ
generator = 0x3B6A57B2 ∷ 0x26508E6D ∷ 0x1EA119FA ∷ 0x3D4233DD ∷ 0x2A1462B3 ∷ []

-- `for i in range(5): chk ^= GENERATOR[i] if ((top >> i) & 1) else 0`, from `i` on.
unfoldable pub mix_generators : List ℕ → ℕ → ℕ → ℕ → ℕ
mix_generators [] i top chk = chk
mix_generators (g ∷ gs) i top chk =
    mix_generators gs (i + 1) top (bit_xor chk (if top / 2 ^ i % 2 == 1 then g else 0))

-- One round of the loop of `_bech32_polymod`.
unfoldable pub polymod_step : ℕ → ℕ → ℕ
polymod_step chk v = mix_generators generator 0 (chk / 2 ^ 25) (bit_xor (chk % 2 ^ 25 * 2 ^ 5) v)

unfoldable pub polymod_from : ℕ → List ℕ → ℕ
polymod_from chk [] = chk
polymod_from chk (v ∷ values) = polymod_from (polymod_step chk v) values

unfoldable pub bech32_polymod : List ℕ → ℕ
bech32_polymod values = polymod_from 1 values

unfoldable pub bech32_hrp_expand : List ℕ → List ℕ
bech32_hrp_expand hrp = map (λ c. c / 2 ^ 5) hrp ++ (0 ∷ map (λ c. c % 32) hrp)

-- The six values of 5 bits of a number of 30 bits, highest first.
unfoldable pub checksum_values : ℕ → List ℕ
checksum_values p =
    p / 2 ^ 25 % 32
    ∷ p / 2 ^ 20 % 32
    ∷ p / 2 ^ 15 % 32
    ∷ p / 2 ^ 10 % 32
    ∷ p / 2 ^ 5 % 32
    ∷ p / 2 ^ 0 % 32
    ∷ []

unfoldable pub bech32m_create_checksum : List ℕ → List ℕ → List ℕ
bech32m_create_checksum hrp values =
    let zeros : List ℕ = 0 ∷ 0 ∷ 0 ∷ 0 ∷ 0 ∷ 0 ∷ [] in
    let polymod =
      bit_xor (bech32_polymod ((bech32_hrp_expand hrp ++ values) ++ zeros)) bech32m_const in
    checksum_values polymod

unfoldable pub bech32m_verify_checksum : List ℕ → List ℕ → Bool
bech32m_verify_checksum hrp values =
    bech32_polymod (bech32_hrp_expand hrp ++ values) == bech32m_const
