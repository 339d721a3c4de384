-- ===== src/Tx/Signing.antt =====
-- The signing loop of `_serialize_transaction` of src/noxipher/tx/builder.py.
use noxipher.Prelude.{ℕ, List, [], ◌∷◌, Option, none, some, list_eq, if◌then◌else◌}
use noxipher.Core.Exceptions.{Result, ok, err, ◌>>=◌, unbound_local_error}
use noxipher.Wallet.Wallets.{MidnightWallet}
use noxipher.Tx.Structures.{UtxoSpend, UnshieldedOffer, Intent}
use noxipher.Tx.Transaction.{Segments, get_unshielded_signing_payload}

abbrev pub Signer : Type 0
Signer = List ℕ → List ℕ

-- `offer["inputs"][0]["owner"] if offer["inputs"] else b""`
unfoldable pub input_owner : List UtxoSpend → List ℕ
input_owner [] = []
input_owner (spend ∷ spends) = spend.owner

unfoldable pub signer_of : MidnightWallet → UnshieldedOffer → Signer
signer_of wallet offer =
    if list_eq (input_owner offer.inputs) wallet.dust.public_key
    then wallet.dust.sign
    else wallet.unshielded.sign

unfoldable pub with_signature : List ℕ → UnshieldedOffer → UnshieldedOffer
with_signature sig offer = record offer { signatures = sig ∷ [] }

-- The guaranteed offer: the intent with its signature, and the variable `signer` after it.
unfoldable pub sign_guaranteed :
    MidnightWallet
    → Option Signer
    → ℕ
    → Intent
    → Option UnshieldedOffer
    → Result (Intent × Option Signer)
sign_guaranteed wallet signer seg_id intent none = ok (intent, signer)
sign_guaranteed wallet signer seg_id intent (some offer) = do
  payload ← get_unshielded_signing_payload seg_id intent
  let sign = signer_of wallet offer
  let signed = some (with_signature (sign payload) offer)
  ok (record intent { guaranteed_unshielded_offer = signed }, some sign)

-- `signer` is read after the payload is made; it has no value before a guaranteed offer.
unfoldable pub or_unbound : Option Signer → Result Signer
or_unbound none = err unbound_local_error
or_unbound (some signer) = ok signer

unfoldable pub sign_fallible : Option Signer → ℕ → Intent → Option UnshieldedOffer → Result Intent
sign_fallible signer seg_id intent none = ok intent
sign_fallible signer seg_id intent (some f_offer) = do
  payload ← get_unshielded_signing_payload seg_id intent
  sign ← or_unbound signer
  ok (record intent { fallible_unshielded_offer = some (with_signature (sign payload) f_offer) })

unfoldable pub sign_intent :
    MidnightWallet → Option Signer → ℕ → Intent → Result (Intent × Option Signer)
sign_intent wallet signer seg_id intent = do
  (signed, signer') ← sign_guaranteed wallet signer seg_id intent intent.guaranteed_unshielded_offer
  finished ← sign_fallible signer' seg_id signed signed.fallible_unshielded_offer
  ok (finished, signer')

-- The variable lives on from one round of the loop to the next.
unfoldable pub sign_intents :
    MidnightWallet → Option Signer → Segments Intent → Result (Segments Intent)
sign_intents wallet signer [] = ok []
sign_intents wallet signer ((seg_id, intent) ∷ intents) = do
  (signed, signer') ← sign_intent wallet signer seg_id intent
  rest ← sign_intents wallet signer' intents
  ok ((seg_id, signed) ∷ rest)
