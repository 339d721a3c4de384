-- ===== src/Tx/SignedIntents.antt =====
-- What the signing loop of src/noxipher/tx/builder.py makes of the intents.
use noxipher.Prelude.{
  ℕ, ◌≡◌, ◌≢◌, refl, sym, ap, ◌∙◌, ◌⊎◌, inl, inr, Bool-cases, List, [], ◌∷◌, Option, none, some,
  list_eq, list_eq_iff,
}
use noxipher.Core.Exceptions.{ok, >>=-eq-ok}
use noxipher.Wallet.Wallets.{MidnightWallet}
use noxipher.Tx.Structures.{UnshieldedOffer, Intent}
use noxipher.Tx.Transaction.{Segments, get_unshielded_signing_payload}
use noxipher.Tx.Signing.{
  Signer, input_owner, signer_of, with_signature, sign_guaranteed, or_unbound, sign_fallible,
  sign_intent, sign_intents,
}

-- An intent without its signatures.
abbrev pub strip_offer : Option UnshieldedOffer → Option UnshieldedOffer
strip_offer none = none
strip_offer (some offer) = some (record offer { signatures = [] })

abbrev pub strip : Intent → Intent
strip intent = record intent {
  guaranteed_unshielded_offer = strip_offer intent.guaranteed_unshielded_offer;
  fallible_unshielded_offer = strip_offer intent.fallible_unshielded_offer;
}

-- The one signature is that of the DUST key where the first input is owned by it, and that of the
-- unshielded key otherwise, over the payload of the segment and the intent.
abbrev pub OwnerSigned : MidnightWallet → ℕ → Intent → UnshieldedOffer → List (List ℕ) → Type 0
OwnerSigned wallet seg_id intent offer signatures =
    (payload : List ℕ) × (get_unshielded_signing_payload seg_id intent ≡ ok payload)
    × (((input_owner offer.inputs ≡ wallet.dust.public_key)
          × (signatures ≡ wallet.dust.sign payload ∷ []))
        ⊎ ((input_owner offer.inputs ≢ wallet.dust.public_key)
            × (signatures ≡ wallet.unshielded.sign payload ∷ [])))

abbrev pub GuaranteedSigned :
    MidnightWallet → ℕ → Intent → Option UnshieldedOffer → Option UnshieldedOffer → Type 0
GuaranteedSigned wallet seg_id intent none signed = signed ≡ none
GuaranteedSigned wallet seg_id intent (some offer) signed =
    (signatures : List (List ℕ)) × (signed ≡ some (record offer { signatures = signatures }))
    × OwnerSigned wallet seg_id intent offer signatures

-- Intent by intent: the same segment, the same intent but for its signatures, and the signature of
-- the guaranteed offer.
abbrev pub SignedBy : MidnightWallet → Segments Intent → Segments Intent → Type 0
SignedBy wallet [] [] = Unit {0}
SignedBy wallet [] (s ∷ ss) = ⊥
SignedBy wallet (i ∷ is) [] = ⊥
SignedBy wallet ((seg_id, intent) ∷ intents) ((seg_id', signed) ∷ rest) =
    ((seg_id' ≡ seg_id)
      × (strip signed ≡ strip intent)
      × GuaranteedSigned wallet seg_id intent intent.guaranteed_unshielded_offer
          signed.guaranteed_unshielded_offer)
    × SignedBy wallet intents rest

owner_signed :
    (wallet : MidnightWallet) (seg_id : ℕ) (intent : Intent) (offer : UnshieldedOffer)
    (payload : List ℕ)
    → get_unshielded_signing_payload seg_id intent ≡ ok payload
    → OwnerSigned wallet seg_id intent offer (signer_of wallet offer payload ∷ [])
unfolding signer_of
owner_signed wallet seg_id intent offer payload h =
    elim (Bool-cases (list_eq (input_owner offer.inputs) wallet.dust.public_key)) [
      | inl same ↦ (payload, h, inl ((list_eq_iff _ _).0 same, rw same))
      | inr other ↦ (payload, h, inr (λ e. cc (other, (list_eq_iff _ _).1 e), rw other))
    ]

guaranteed_lem :
    (wallet : MidnightWallet) (signer after : Option Signer) (seg_id : ℕ) (intent signed : Intent)
    (offer : Option UnshieldedOffer)
    → intent.guaranteed_unshielded_offer ≡ offer
    → sign_guaranteed wallet signer seg_id intent offer ≡ ok (signed, after)
    → (strip signed ≡ strip intent)
      × GuaranteedSigned wallet seg_id intent offer signed.guaranteed_unshielded_offer
unfolding sign_guaranteed with_signature
guaranteed_lem wallet signer after seg_id intent signed none e h =
    let same : intent ≡ signed = cc h in (rw (← same), rw (← same) e)
guaranteed_lem wallet signer after seg_id intent signed (some offer) e h =
    let (payload, made, done) = >>=-eq-ok (get_unshielded_signing_payload seg_id intent) _ h in
    let sig = signer_of wallet offer payload in
    let same : record intent {
      guaranteed_unshielded_offer = some (record offer { signatures = sig ∷ [] });
    }
        ≡ signed =
      cc done in
    (rw (← same, e), (sig ∷ [], rw (← same), owner_signed wallet seg_id intent offer payload made))

fallible_lem :
    (signer : Option Signer) (seg_id : ℕ) (intent signed : Intent) (offer : Option UnshieldedOffer)
    → intent.fallible_unshielded_offer ≡ offer
    → sign_fallible signer seg_id intent offer ≡ ok signed
    → (strip signed ≡ strip intent)
      × (signed.guaranteed_unshielded_offer ≡ intent.guaranteed_unshielded_offer)
unfolding sign_fallible with_signature
fallible_lem signer seg_id intent signed none e h =
    let same : intent ≡ signed = cc h in (rw (← same), rw (← same))
fallible_lem signer seg_id intent signed (some offer) e h =
    let (payload, made, chosen) = >>=-eq-ok (get_unshielded_signing_payload seg_id intent) _ h in
    let (sign, bound, done) = >>=-eq-ok (or_unbound signer) _ chosen in
    let same : record intent {
      fallible_unshielded_offer = some (record offer { signatures = sign payload ∷ [] });
    }
        ≡ signed =
      cc done in
    (rw (← same, e), rw (← same))

sign_intent_lem :
    (wallet : MidnightWallet) (signer after : Option Signer) (seg_id : ℕ) (intent signed : Intent)
    → sign_intent wallet signer seg_id intent ≡ ok (signed, after)
    → (strip signed ≡ strip intent)
      × GuaranteedSigned wallet seg_id intent intent.guaranteed_unshielded_offer
          signed.guaranteed_unshielded_offer
unfolding sign_intent
sign_intent_lem wallet signer after seg_id intent signed h =
    let ((half, signer'), first, second) =
      >>=-eq-ok (sign_guaranteed wallet signer seg_id intent intent.guaranteed_unshielded_offer) _
        h in
    let (finished, third, done) =
      >>=-eq-ok (sign_fallible signer' seg_id half half.fallible_unshielded_offer) _ second in
    let (kept, owner) =
      guaranteed_lem wallet signer signer' seg_id intent half intent.guaranteed_unshielded_offer
        refl first in
    let (kept', same) =
      fallible_lem signer' seg_id half finished half.fallible_unshielded_offer refl third in
    let last : finished ≡ signed = cc done in
    (ap strip (sym last) ∙ kept' ∙ kept, rw (← last, same) owner)

-- Where signing succeeds, each intent keeps its segment and everything but its signatures, and its
-- guaranteed offer, if it has one, bears the one signature of the key that owns its first input:
-- DUST's if that is the owner, and else the unshielded one, over the intent's signing payload.
pub sign_intents-SignedBy :
    (wallet : MidnightWallet) (signer : Option Signer) (intents signed : Segments Intent)
    → sign_intents wallet signer intents ≡ ok signed
    → SignedBy wallet intents signed
unfolding sign_intents
sign_intents-SignedBy wallet signer [] [] h = tt
sign_intents-SignedBy wallet signer [] (s ∷ ss) h = cc h
sign_intents-SignedBy wallet signer ((seg_id, intent) ∷ intents) signed h =
    let ((one, signer'), first, second) = >>=-eq-ok (sign_intent wallet signer seg_id intent) _ h in
    let (rest, others, done) = >>=-eq-ok (sign_intents wallet signer' intents) _ second in
    let e : (seg_id, one) ∷ rest ≡ signed = cc done in
    let (kept, owner) = sign_intent_lem wallet signer signer' seg_id intent one first in
    rw (← e) ((refl, kept, owner), sign_intents-SignedBy wallet signer' intents rest others)
