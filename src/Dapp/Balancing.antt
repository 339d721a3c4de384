-- ===== src/Dapp/Balancing.antt =====
-- After `balance_transaction` of src/noxipher/dapp/connector.py the inputs are the outputs and the
-- fee.
use noxipher.Prelude.{
  ℕ, ◌+◌, ◌-◌, ◌≤◌, ◌≡◌, refl, sym, ap, ◌∙◌, arith, inl, inr, List, [], ◌∷◌, ◌++◌, Option, none,
  some, leb, ltb, Bool-cases, Option-cases, if◌then◌else◌,
}
use noxipher.Core.Exceptions.{Exception, Result, ok, err, Result-cases}
use noxipher.Wallet.Utxo.{Utxo, sort_largest_first}
use noxipher.Tx.Structures.{UtxoSpend, UtxoOutput, UnshieldedOffer}
use noxipher.Tx.Builder.{spend_of}
use noxipher.Dapp.Connector.{
  DraftIntent, UnboundTransaction, inputs_val, outputs_val, unused_night, add_inputs, add_change,
  close_offer, balance_offer, offer_or_empty, balance_intent, balance_transaction,
}

inputs_val-append : (is js : List UtxoSpend) → inputs_val (is ++ js) ≡ inputs_val is + inputs_val js
inputs_val-append [] js = omega arith
inputs_val-append (i ∷ is) js = omega (arith, inputs_val-append is js)

outputs_val-append :
    (os ps : List UtxoOutput) → outputs_val (os ++ ps) ≡ outputs_val os + outputs_val ps
outputs_val-append [] ps = omega arith
outputs_val-append (o ∷ os) ps = omega (arith, outputs_val-append os ps)

add_inputs-end :
    (pk : List ℕ) (required before : ℕ) (is : List UtxoSpend) (added : ℕ)
    → add_inputs pk required before is added [] ≡ (is, ok added)
unfolding add_inputs
add_inputs-end pk required before is added = refl

-- One round of the loop, by whether the UTXO can be spent.
add_inputs-err :
    (pk : List ℕ) (required before : ℕ) (is : List UtxoSpend) (added : ℕ) (u : Utxo)
    (us : List Utxo) (e : Exception)
    → spend_of pk u ≡ err e
    → add_inputs pk required before is added (u ∷ us) ≡ (is, err e)
unfolding add_inputs
add_inputs-err pk required before is added u us e h = rw (h, add_inputs) refl

add_inputs-ok :
    (pk : List ℕ) (required before : ℕ) (is : List UtxoSpend) (added : ℕ) (u : Utxo)
    (us : List Utxo) (s : UtxoSpend)
    → spend_of pk u ≡ ok s
    → add_inputs pk required before is added (u ∷ us) ≡ (
        if leb required (before + (added + s.value))
        then (is ++ (s ∷ []), ok (added + s.value))
        else add_inputs pk required before (is ++ (s ∷ [])) (added + s.value) us)
unfolding add_inputs
add_inputs-ok pk required before is added u us s h = rw (h, add_inputs) refl

-- The loop's inputs are worth what was there before and what it added.
add_inputs-total :
    (pk : List ℕ) (required before : ℕ) (is : List UtxoSpend) (added : ℕ) (us : List Utxo) (v : ℕ)
    → (add_inputs pk required before is added us).1 ≡ ok v
    → inputs_val (add_inputs pk required before is added us).0 + added ≡ inputs_val is + v
add_inputs-total pk required before is added [] v h =
    let step = add_inputs-end pk required before is added in
    let same : added ≡ v = cc (sym (ap (λ p. p.1) step) ∙ h) in rw step (omega (arith, same))
add_inputs-total pk required before is added (u ∷ us) v h = elim (Result-cases (spend_of pk u)) [
  | inr (e, r) ↦
      let step = add_inputs-err pk required before is added u us e r in
      absurd (cc (h, ap (λ p. p.1) step))
  | inl (s, r) ↦
      let step = add_inputs-ok pk required before is added u us s r in
      elim (Bool-cases (leb required (before + (added + s.value)))) [
        | inl enough ↦
            let done : add_inputs pk required before is added (u ∷ us)
                ≡ (is ++ (s ∷ []), ok (added + s.value)) =
              step ∙ rw enough refl in
            let same : added + s.value ≡ v = cc (sym (ap (λ p. p.1) done) ∙ h) in
            rw done (omega (arith, inputs_val-append is (s ∷ []), same))
        | inr more ↦
            let next : add_inputs pk required before is added (u ∷ us)
                ≡ add_inputs pk required before (is ++ (s ∷ [])) (added + s.value) us =
              step ∙ rw more refl in
            let rest =
              add_inputs-total pk required before (is ++ (s ∷ [])) (added + s.value) us v
                (sym (ap (λ p. p.1) next) ∙ h) in
            rw next (omega (arith, inputs_val-append is (s ∷ []), rest))
      ]
]

add_change-total :
    (pk : List ℕ) (required total : ℕ) (os : List UtxoOutput)
    → required ≤ total
    → outputs_val (add_change pk required total os) + required ≡ outputs_val os + total
unfolding add_change
add_change-total pk required total os h = elim (Bool-cases (ltb required total)) [
  | inl e ↦ rw e (
      omega (
        arith,
        outputs_val-append os (record { value = total - required; owner = pk; type_ = 0 } ∷ []),
      ))
  | inr e ↦ rw e (ground (arith, e))
]

close_offer-balanced :
    (pk : List ℕ) (fee : ℕ) (offer : UnshieldedOffer) (is : List UtxoSpend) (r : Result ℕ)
    → ((v : ℕ) → r ≡ ok v → inputs_val is ≡ inputs_val offer.inputs + v)
    → (close_offer pk (outputs_val offer.outputs + fee) offer (is, r)).1 ≡ ok tt
    → let after = (close_offer pk (outputs_val offer.outputs + fee) offer (is, r)).0 in
      inputs_val after.inputs ≡ outputs_val after.outputs + fee
unfolding close_offer
close_offer-balanced pk fee offer is (err e) worth h = absurd (cc h)
close_offer-balanced pk fee offer is (ok v) worth h =
    let required = outputs_val offer.outputs + fee in
    let total = inputs_val offer.inputs + v in
    elim (Bool-cases (ltb total required)) [
      | inl short ↦ absurd (cc (rw short at h))
      | inr enough ↦ rw enough (
          omega (
            arith,
            worth v refl,
            add_change-total pk required total offer.outputs (ground (arith, enough)),
          ))
    ]

loop_worth :
    (pk : List ℕ) (required : ℕ) (offer : UnshieldedOffer) (us : List Utxo) (v : ℕ)
    → (add_inputs pk required (inputs_val offer.inputs) offer.inputs 0 us).1 ≡ ok v
    → inputs_val (add_inputs pk required (inputs_val offer.inputs) offer.inputs 0 us).0
      ≡ inputs_val offer.inputs + v
loop_worth pk required offer us v h =
    omega (arith, add_inputs-total pk required (inputs_val offer.inputs) offer.inputs 0 us v h)

-- When an offer is balanced without a raise, its inputs come to its outputs and the fee.
pub balance_offer_balances :
    (pk : List ℕ) (fee : ℕ) (utxos : Result (List Utxo)) (offer : UnshieldedOffer)
    → (balance_offer pk fee utxos offer).1 ≡ ok tt
    → inputs_val (balance_offer pk fee utxos offer).0.inputs
      ≡ outputs_val (balance_offer pk fee utxos offer).0.outputs + fee
unfolding balance_offer
balance_offer_balances pk fee utxos offer h =
    let required = outputs_val offer.outputs + fee in
    elim (Bool-cases (ltb (inputs_val offer.inputs) required)) [
      | inr enough ↦ rw enough (
          close_offer-balanced pk fee offer offer.inputs (ok 0) (λ v e. omega (arith, nothing v e))
            (rw enough at h))
      | inl short ↦ elim (Result-cases utxos) [
        | inr (e, r) ↦
            rw (short, r)
              (close_offer-balanced pk fee offer offer.inputs (err e) (λ v q. absurd (cc q))
                (rw (short, r) at h))
        | inl (us, r) ↦
            let chosen = sort_largest_first (unused_night offer.inputs us) in
            let loop = add_inputs pk required (inputs_val offer.inputs) offer.inputs 0 chosen in
            rw (short, r)
              (close_offer-balanced pk fee offer loop.0 loop.1 (loop_worth pk required offer chosen)
                (rw (short, r) at h))
      ]
    ]
  where
    nothing : (v : ℕ) → ok 0 ≡ ok v → 0 ≡ v
    nothing v e = cc e

-- An intent whose offer spends what it pays, and which has the TTL.
abbrev pub IsBalanced : ℕ → ℕ → DraftIntent → Type 0
IsBalanced fee ttl intent =
    (offer : UnshieldedOffer) × (intent.guaranteed_unshielded_offer ≡ some offer)
    × (inputs_val offer.inputs ≡ outputs_val offer.outputs + fee)
    × (intent.ttl ≡ some ttl)

balance_intent-IsBalanced :
    (pk : List ℕ) (fee ttl : ℕ) (utxos : Result (List Utxo)) (intent : DraftIntent)
    → (balance_intent pk fee ttl utxos intent).1 ≡ ok tt
    → IsBalanced fee ttl (balance_intent pk fee ttl utxos intent).0
unfolding balance_intent
balance_intent-IsBalanced pk fee ttl utxos intent h =
    let offer = offer_or_empty intent.guaranteed_unshielded_offer in
    elim (Result-cases (balance_offer pk fee utxos offer).1) [
      | inr (e, r) ↦ absurd (cc (rw (r, balance_intent) at h))
      | inl (u, r) ↦
          let after = (balance_offer pk fee utxos offer).0 in
          let done : balance_intent pk fee ttl utxos intent ≡ (
            record intent { guaranteed_unshielded_offer = some after; ttl = some ttl },
            ok tt,
          ) =
            rw (r, balance_intent) refl in
          rw done (after, refl, balance_offer_balances pk fee utxos offer r, refl)
    ]

-- The intent that is read: under the key "0", or else under 0.
abbrev pub bound_intent : UnboundTransaction → Option DraftIntent
bound_intent tx = elim tx.text_0 [ none ↦ tx.int_0 | some intent ↦ some intent ]

-- When `balance_transaction` does not raise, the intent that it leaves has the TTL and an offer
-- whose inputs come to its outputs and the fee, whatever the transaction held before.
pub balance_transaction_balances :
    (pk : List ℕ) (fee ttl : ℕ) (utxos : Result (List Utxo)) (tx : UnboundTransaction)
    → (balance_transaction pk fee ttl utxos tx).1 ≡ ok tt
    → (intent : DraftIntent) × (bound_intent (balance_transaction pk fee ttl utxos tx).0
        ≡ some intent)
      × IsBalanced fee ttl intent
unfolding balance_transaction
balance_transaction_balances pk fee ttl utxos tx h = elim (Option-cases tx.text_0) [
  | inr (intent, e) ↦ rw e (
    (balance_intent pk fee ttl utxos intent).0,
    refl,
    balance_intent-IsBalanced pk fee ttl utxos intent (rw e at h),
  )
  | inl e ↦ elim (Option-cases tx.int_0) [
    | inr (intent, f) ↦
        rw (e, f)
          (
            (balance_intent pk fee ttl utxos intent).0,
            refl,
            balance_intent-IsBalanced pk fee ttl utxos intent (rw (e, f) at h),
          )
    | inl f ↦
        let fresh : DraftIntent = record {
          guaranteed_unshielded_offer = none;
          ttl = some ttl;
          actions = [];
        } in
        rw (e, f)
          (
            (balance_intent pk fee ttl utxos fresh).0,
            refl,
            balance_intent-IsBalanced pk fee ttl utxos fresh (rw (e, f) at h),
          )
  ]
]
