-- ===== src/Core/Exceptions.antt =====
-- src/noxipher/core/exceptions.py, and a call that returns or raises as a value.
use noxipher.Prelude.{Bool, true, false, ◌≡◌, refl, ◌⊎◌, inl, inr, Option, none, some}

-- The classes of the package, then the exceptions of Python and of other libraries that its
-- code can let out.
pub data Exception : Type 0 where
  noxipher_error configuration_error connection_error invalid_mnemonic_error : Exception
  key_derivation_error cryptography_error network_error node_error indexer_error : Exception
  proof_server_error proof_error transaction_error transaction_timeout_error : Exception
  contract_error wallet_error address_error : Exception
  assertion_error substrate_request_exception retry_error : Exception
  value_error key_error type_error attribute_error index_error : Exception
  struct_error unbound_local_error unicode_encode_error not_implemented_error : Exception
  http_error : Exception

-- The class that a class of the package derives from.
unfoldable pub base_class : Exception → Option Exception
base_class configuration_error = some noxipher_error
base_class connection_error = some noxipher_error
base_class invalid_mnemonic_error = some noxipher_error
base_class key_derivation_error = some noxipher_error
base_class cryptography_error = some noxipher_error
base_class network_error = some noxipher_error
base_class node_error = some noxipher_error
base_class indexer_error = some noxipher_error
base_class proof_server_error = some noxipher_error
base_class proof_error = some noxipher_error
base_class transaction_error = some noxipher_error
base_class transaction_timeout_error = some transaction_error
base_class contract_error = some noxipher_error
base_class wallet_error = some noxipher_error
base_class address_error = some noxipher_error
base_class _ = none

pub data Result {ℓ} (A : Type ℓ) : Type ℓ where
  ok : A → Result A
  err : Exception → Result A

-- `if failed: raise e`
abbrev pub raise_if : Bool → Exception → Result (Unit {0})
raise_if false e = ok tt
raise_if true e = err e

infixl 5 ◌>>=◌
abbrev pub ◌>>=◌ {ℓ κ} : {A : Type ℓ} {B : Type κ} → Result A → (A → Result B) → Result B
err raised >>= continue = err raised
ok value >>= continue = continue value

infixl 5 ◌>>◌
abbrev pub ◌>>◌ {ℓ} : {B : Type ℓ} → Result (Unit {0}) → Result B → Result B
first >> second = first >>= λ _. second

-- `d[key]`: the value, or KeyError where the key is missing.
abbrev pub or_key_error {ℓ} : {A : Type ℓ} → Option A → Result A
or_key_error none = err key_error
or_key_error (some value) = ok value

-- What a successful chain went through.
pub >>=-eq-ok {ℓ κ} :
    {A : Type ℓ} {B : Type κ} (first : Result A) (continue : A → Result B) {result : B}
    → first >>= continue ≡ ok result
    → (value : A) × (first ≡ ok value) × (continue value ≡ ok result)
>>=-eq-ok (err raised) continue h = cc
>>=-eq-ok (ok value) continue h = (value, refl, h)

pub raise_if-eq-ok : (b : Bool) (e : Exception) {u : Unit {0}} → raise_if b e ≡ ok u → b ≡ false
raise_if-eq-ok true e h = cc
raise_if-eq-ok false e h = refl

pub Result-cases {ℓ} :
    {A : Type ℓ} (r : Result A) → ((a : A) × (r ≡ ok a)) ⊎ ((e : Exception) × (r ≡ err e))
Result-cases (ok a) = inl (a, refl)
Result-cases (err e) = inr (e, refl)
