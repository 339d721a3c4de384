-- ===== src/Tx/KeptOffers.antt =====
-- Structuring, binding and signing in `_serialize_transaction` of src/noxipher/tx/builder.py leave
-- the inputs and the outputs of the guaranteed offers.
use noxipher.Prelude.{
  ℕ, ◌+◌, ◌≡◌, refl, sym, ap, ap₂, ◌∙◌, arith, inl, inr, Bool, true, false, Bool-cases, List, [],
  ◌∷◌, Option, none, some, Option-cases, ◌==◌, list_eq, if◌then◌else◌,
}
use noxipher.Prelude.Integers.{ℤ, pos}
use noxipher.Core.Exceptions.{ok, ◌>>=◌, >>=-eq-ok}
use noxipher.Wallet.Wallets.{MidnightWallet}
use noxipher.Tx.Structures.{UtxoSpend, UtxoOutput, UnshieldedOffer, Intent, ContractAction}
use noxipher.Tx.Transaction.{Segments}
use noxipher.Tx.Conservation.{total_paid, inputs_of, outputs_of}
use noxipher.Tx.Selection.{total_spent}
use noxipher.Tx.Envelope.{
  contract_deploy, other_kind, StandardDict, TxData, get_default, zeros32, change_intent,
  place_action, commit_intent, finalize_binding, finalize_option, structure_by, deploy_action,
  standard_or_default,
}
use noxipher.Tx.Signing.{sign_intents}
use noxipher.Tx.SignedIntents.{strip_offer, SignedBy, sign_intents-SignedBy}
use noxipher.Tx.Serialize.{sign_if, finish_transaction}

abbrev pub Offer : Type 0
Offer = Option (List UtxoSpend × List UtxoOutput)

-- The guaranteed offers without their signatures.
abbrev pub unsigned_offer : Option UnshieldedOffer → Offer
unsigned_offer none = none
unsigned_offer (some offer) = some (offer.inputs, offer.outputs)

abbrev pub offers : Segments Intent → List Offer
offers [] = []
offers ((k, i) ∷ is) = unsigned_offer i.guaranteed_unshielded_offer ∷ offers is

abbrev spent_by : List Offer → ℕ
spent_by [] = 0
spent_by (o ∷ os) = (elim o [ none ↦ 0 | some p ↦ total_spent p.0 ]) + spent_by os

abbrev paid_by : List Offer → ℕ
paid_by [] = 0
paid_by (o ∷ os) = (elim o [ none ↦ 0 | some p ↦ total_paid p.1 ]) + paid_by os

spent_by-offers : (is : Segments Intent) → spent_by (offers is) ≡ inputs_of is
spent_by-offers [] = refl
spent_by-offers ((k, i) ∷ is) = elim (Option-cases i.guaranteed_unshielded_offer) [
  | inl e ↦ rw (e, spent_by-offers is)
  | inr (o, e) ↦ rw (e, spent_by-offers is)
]

paid_by-offers : (is : Segments Intent) → paid_by (offers is) ≡ outputs_of is
paid_by-offers [] = refl
paid_by-offers ((k, i) ∷ is) = elim (Option-cases i.guaranteed_unshielded_offer) [
  | inl e ↦ rw (e, paid_by-offers is)
  | inr (o, e) ↦ rw (e, paid_by-offers is)
]

-- Equal offers spend and pay alike.
pub totals_of_offers :
    (is js : Segments Intent)
    → offers js ≡ offers is
    → (inputs_of js ≡ inputs_of is) × (outputs_of js ≡ outputs_of is)
totals_of_offers is js e = (
  sym (spent_by-offers js) ∙ ap spent_by e ∙ spent_by-offers is,
  sym (paid_by-offers js) ∙ ap paid_by e ∙ paid_by-offers is,
)

change_intent-offers :
    (action : ContractAction) (is js : Segments Intent)
    → change_intent (λ i. record i { actions = action ∷ [] }) is ≡ ok js
    → offers js ≡ offers is
unfolding change_intent
change_intent-offers action [] js h = cc h
change_intent-offers action ((k, i) ∷ is) js h = elim (Bool-cases (k == 0)) [
  | inl first ↦
      let e : (k, record i { actions = action ∷ [] }) ∷ is ≡ js = ground (arith, h, first) in
      rw (← e)
  | inr later ↦
      let tail : change_intent (λ i. record i { actions = action ∷ [] }) is
            >>= (λ changed. ok ((k, i) ∷ changed))
          ≡ ok js =
        rw later at h in
      let (changed, done, e) =
        >>=-eq-ok (change_intent (λ i. record i { actions = action ∷ [] }) is) _ tail in
      let same : (k, i) ∷ changed ≡ js = cc e in
      rw (← same) (
        ap (◌∷◌ (unsigned_offer i.guaranteed_unshielded_offer))
          (change_intent-offers action is changed done))
]

commit_intent-offers :
    (commitment : List ℕ) (is : Segments Intent) → offers (commit_intent commitment is) ≡ offers is
unfolding commit_intent
commit_intent-offers commitment [] = refl
commit_intent-offers commitment ((k, i) ∷ is) = elim (Bool-cases (k == 0)) [
  | inl first ↦ rw first
  | inr later ↦
      rw later (
        ap (◌∷◌ (unsigned_offer i.guaranteed_unshielded_offer))
          (commit_intent-offers commitment is))
]

unsigned_offer-strip :
    (o : Option UnshieldedOffer) → unsigned_offer (strip_offer o) ≡ unsigned_offer o
unsigned_offer-strip none = refl
unsigned_offer-strip (some o) = refl

SignedBy-offers :
    (wallet : MidnightWallet) (is js : Segments Intent)
    → SignedBy wallet is js
    → offers js ≡ offers is
SignedBy-offers wallet [] [] h = refl
SignedBy-offers wallet [] (j ∷ js) h = absurd h
SignedBy-offers wallet (i ∷ is) [] h = absurd h
SignedBy-offers wallet ((k, i) ∷ is) ((l, j) ∷ js) ((_, same, _), rest) =
    ap₂ ◌∷◌
      (sym (unsigned_offer-strip j.guaranteed_unshielded_offer)
        ∙ ap (λ (x : Intent). unsigned_offer x.guaranteed_unshielded_offer) same
        ∙ unsigned_offer-strip i.guaranteed_unshielded_offer)
      (SignedBy-offers wallet is js rest)

finalize_binding-offers :
    (rnd : List ℕ) (fee : ℤ) (stx : StandardDict)
    → offers (finalize_binding rnd fee stx).intents ≡ offers stx.intents
unfolding finalize_binding
finalize_binding-offers rnd fee stx =
    elim (Bool-cases (list_eq (get_default stx.binding_randomness zeros32) zeros32)) [
      | inl fresh ↦ rw fresh (commit_intent-offers _ stx.intents)
      | inr kept ↦ rw kept
    ]

-- Structuring, for a dict that has its envelope: a deployment, and a plain transfer.
structure-offers :
    (deploying : Bool) (name : List ℕ) (tx : TxData) (s : StandardDict) (o : Option StandardDict)
    → tx.standard ≡ some s
    → structure_by (if deploying then contract_deploy else other_kind) name tx ≡ ok o
    → (stx : StandardDict) × (o ≡ some stx) × (offers stx.intents ≡ offers s.intents)
unfolding structure_by place_action standard_or_default
structure-offers false name tx s o e h = (s, cc (e, h), refl)
structure-offers true name tx s o e h =
    let (action, _, h1) = >>=-eq-ok (deploy_action tx) _ h in
    let envelope = standard_or_default name tx in
    let own : envelope ≡ s = rw (standard_or_default, e) in
    let (stx, placed, h2) = >>=-eq-ok (place_action action envelope) _ h1 in
    let (changed, done, h3) =
      >>=-eq-ok (change_intent (λ i. record i { actions = action ∷ [] }) envelope.intents) _
        placed in
    let same : record envelope { intents = changed } ≡ stx = cc h3 in
    (
      stx,
      cc h2,
      ap (λ (x : StandardDict). offers x.intents) (sym same)
          ∙ change_intent-offers action envelope.intents changed done
          ∙ ap (λ (x : StandardDict). offers x.intents) own,
    )

sign_if-offers :
    (wallet : MidnightWallet) (s : StandardDict) (o : Option StandardDict)
    → sign_if true wallet (some s) ≡ ok o
    → (stx : StandardDict) × (o ≡ some stx) × SignedBy wallet s.intents stx.intents
unfolding sign_if
sign_if-offers wallet s o h =
    let (signed, done, e) = >>=-eq-ok (sign_intents wallet none s.intents) _ h in
    (record s { intents = signed }, cc e, sign_intents-SignedBy wallet none s.intents signed done)

-- From the dict to the dict that is serialized: the intents are signed, with these inputs and
-- outputs.
pub finish-offers :
    (deploying : Bool) (name rnd : List ℕ) (tx : TxData) (wallet : MidnightWallet)
    (s : StandardDict) (o : Option StandardDict)
    → tx.kind ≡ (if deploying then contract_deploy else other_kind)
    → tx.standard ≡ some s
    → tx.requires_unshielded_signature ≡ true
    → finish_transaction name rnd tx wallet ≡ ok o
    → (stx : StandardDict) × (o ≡ some stx)
      × (offers stx.intents ≡ offers s.intents)
      × (unsigned : Segments Intent) × SignedBy wallet unsigned stx.intents
unfolding finish_transaction finalize_option
finish-offers deploying name rnd tx wallet s o kind e signed h =
    let (structured, placed, h1) = >>=-eq-ok (structure_by tx.kind name tx) _ h in
    let placed' : structure_by (if deploying then contract_deploy else other_kind) name tx
        ≡ ok structured =
      ap (λ k. structure_by k name tx) (sym kind) ∙ placed in
    let (mid, at_mid, kept) = structure-offers deploying name tx s structured e placed' in
    let bound = finalize_binding rnd (get_default tx.fee (pos 0)) mid in
    let last : sign_if true wallet (some bound) ≡ ok o =
      ap₂ (λ b x. sign_if b wallet (finalize_option rnd (get_default tx.fee (pos 0)) x))
        (sym signed) (sym at_mid)
      ∙ h1 in
    let (stx, at_end, by_owner) = sign_if-offers wallet bound o last in
    (
      stx,
      at_end,
      SignedBy-offers wallet bound.intents stx.intents by_owner
          ∙ finalize_binding-offers rnd (get_default tx.fee (pos 0)) mid
          ∙ kept,
      bound.intents,
      by_owner,
    )
