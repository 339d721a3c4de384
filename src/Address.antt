-- ===== src/Address.antt =====
-- src/noxipher/address/bech32m.py and validator.py: Bech32m addresses.
pub mod Polymod
pub mod ConvertBits
pub mod Bech32m
pub mod Codec
pub mod Linear
pub mod Checksum
pub mod Regroup
pub mod BitsRoundTrip
pub mod Text
pub mod RoundTrip
pub mod OneError
pub mod Tests
