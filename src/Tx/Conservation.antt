-- ===== src/Tx/Conservation.antt =====
-- A transfer that src/noxipher/tx/builder.py builds spends what it pays: inputs, outputs and fee.
use noxipher.Prelude.{
  ℕ, ◌+◌, ◌<◌, ◌≡◌, refl, sym, ap, ◌∙◌, subst, arith, Bool, true, false, List, [], ◌∷◌, ◌++◌,
  Option, none, some, All, if◌then◌else◌,
}
use noxipher.Prelude.Integers.{
  ℤ, pos, pos_part, neg_part, ◌+ℤ◌, ◌-ℤ◌, ◌≤ℤ◌, ◌<ℤ◌, ltb_ℤ, +ℤ_parts, excess_lem,
}
use noxipher.Core.Exceptions.{
  Result, ok, err, >>=-eq-ok, raise_if, raise_if-eq-ok, transaction_error, key_error,
}
use noxipher.Core.Config.{Network, NetworkConfig}
use noxipher.Address.Codec.{decode_address}
use noxipher.Wallet.Hex.{fromhex}
use noxipher.Wallet.Utxo.{Utxo, value_or_zero, value_at, i_hash, o_no}
use noxipher.Wallet.Wallets.{MidnightWallet}
use noxipher.Tx.Structures.{UtxoSpend, UtxoOutput, Intent}
use noxipher.Tx.Transaction.{Segments}
use noxipher.Tx.Builder.{
  dust_token, eligible_utxos, select_utxos, spend_of, spends_of, recipient_outputs, change_outputs,
  assemble_transfer, UnshieldedTransfer, or_transaction_error, fee_or_min, wallet_utxos,
  build_unshielded_transfer,
}
use noxipher.Tx.Selection.{
  total_value, total_spent, IsReadable, select_utxos-total, select_utxos-enough, select_utxos-short,
  select_utxos-All, eligible-All,
}

abbrev pub total_paid : List UtxoOutput → ℕ
total_paid [] = 0
total_paid (o ∷ os) = o.value + total_paid os

-- What the guaranteed offers of the intents spend, and what they pay.
abbrev pub inputs_of : Segments Intent → ℕ
inputs_of [] = 0
inputs_of ((k, i) ∷ is) =
    (elim i.guaranteed_unshielded_offer [ none ↦ 0 | some o ↦ total_spent o.inputs ]) + inputs_of is

abbrev pub outputs_of : Segments Intent → ℕ
outputs_of [] = 0
outputs_of ((k, i) ∷ is) =
    (elim i.guaranteed_unshielded_offer [ none ↦ 0 | some o ↦ total_paid o.outputs ])
    + outputs_of is

value_at-eq : (u : Utxo) (v : ℕ) → value_at u ≡ ok v → v ≡ value_or_zero u
unfolding value_at value_or_zero
value_at-eq u v h = go u.value h
  where
    go :
        (o : Option ℕ)
        → (elim o [ none ↦ err key_error | some v ↦ ok v ]) ≡ ok v
        → v ≡ (elim o [ none ↦ 0 | some v ↦ v ])
    go none h = cc
    go (some w) h = cc

spend_of-value :
    (pk : List ℕ) (u : Utxo) (s : UtxoSpend) → spend_of pk u ≡ ok s → s.value ≡ value_or_zero u
unfolding spend_of
spend_of-value pk u s h =
    let (v, e, h1) = >>=-eq-ok (value_at u) _ h in
    let (x, f, h2) = >>=-eq-ok (fromhex (i_hash u)) _ h1 in
    let same : v ≡ s.value = cc h2 in sym same ∙ value_at-eq u v e

spends_of-total :
    (pk : List ℕ) (us : List Utxo) (ss : List UtxoSpend)
    → spends_of pk us ≡ ok ss
    → total_spent ss ≡ total_value us
unfolding spends_of
spends_of-total pk [] ss h = let same : [] ≡ ss = cc h in ap total_spent (sym same)
spends_of-total pk (u ∷ us) ss h =
    let (s, e, h1) = >>=-eq-ok (spend_of pk u) _ h in
    let (rest, f, h2) = >>=-eq-ok (spends_of pk us) _ h1 in
    let same : s ∷ rest ≡ ss = cc h2 in
    ap total_spent (sym same) ∙ omega (arith, spend_of-value pk u s e, spends_of-total pk us rest f)

-- The change that is paid out and the part that goes to the fee are the change.
change_outputs-total :
    (pk : List ℕ) (change : ℕ)
    → (total_paid (change_outputs pk change).0 + (change_outputs pk change).1 ≡ change)
      × ((change_outputs pk change).1 < 1_000)
unfolding change_outputs
change_outputs-total pk change = ground arith

recipient_outputs-total :
    (recipient : List ℕ) (amount : ℤ)
    → total_paid (recipient_outputs recipient amount) ≡ pos_part amount
unfolding recipient_outputs
recipient_outputs-total recipient amount = ground arith

total_paid-append :
    (os ps : List UtxoOutput) → total_paid (os ++ ps) ≡ total_paid os + total_paid ps
total_paid-append [] ps = omega arith
total_paid-append (o ∷ os) ps = omega (arith, total_paid-append os ps)

-- Inputs pay for outputs and the fee, which can be negative; what a negative amount lacks is added.
abbrev pub PaysFor : ℤ → ℤ → ℕ → ℕ → Type 0
PaysFor amount fee inputs outputs = inputs + neg_part amount + neg_part fee ≡ outputs + pos_part fee

-- The fee is the one that was asked for, and a change that is too small for an output.
abbrev pub IsFeeOf : ℤ → ℤ → Type 0
IsFeeOf asked fee = (extra : ℕ) × (extra < 1_000) × (fee ≡ asked +ℤ pos extra)

assemble-conserves :
    (config : NetworkConfig) (rnd recipient pk : List ℕ) (amount fee : ℤ) (ttl : ℕ)
    (ss : List UtxoSpend) (total : ℕ)
    → total_spent ss ≡ total
    → amount +ℤ fee ≤ℤ pos total
    → let t = assemble_transfer config rnd recipient pk amount fee ttl ss total in
      PaysFor amount t.fee (inputs_of t.standard.intents) (outputs_of t.standard.intents)
      × IsFeeOf fee t.fee
unfolding assemble_transfer
assemble-conserves config rnd recipient pk amount fee ttl ss total e h =
    let change = pos_part (pos total -ℤ (amount +ℤ fee)) in
    let extra = (change_outputs pk change).1 in
    let (paid, small) = change_outputs-total pk change in
    let to = recipient_outputs-total recipient amount in
    let both =
      total_paid-append (recipient_outputs recipient amount) (change_outputs pk change).0 in
    (
      omega (
        arith,
        paid,
        to,
        both,
        e,
        excess_lem total (amount +ℤ fee) h,
        +ℤ_parts amount fee,
        +ℤ_parts fee (pos extra),
      ),
      (extra, small, refl),
    )

module _ (config : NetworkConfig) (get_utxos : List ℕ → Result (List Utxo)) (rnd : List ℕ) where
  -- Of a transfer that is built for an amount that is not negative, the inputs come to exactly the
  -- outputs and the fee; for a negative amount they come to that less its absolute value. The fee
  -- is the one asked for, or the network's least, and less than 1,000 Specks of change.
  pub build_unshielded_transfer_conserves :
      (wallet : MidnightWallet) (to_address : List ℕ) (amount : ℤ) (fee : Option ℤ) (ttl : ℕ)
      (token_type : List ℕ) (use_dust : Bool) (t : UnshieldedTransfer)
      → build_unshielded_transfer config get_utxos rnd wallet to_address amount fee ttl token_type
          use_dust
        ≡ ok t
      → PaysFor amount t.fee (inputs_of t.standard.intents) (outputs_of t.standard.intents)
        × IsFeeOf (fee_or_min config fee) t.fee
  unfolding build_unshielded_transfer
  build_unshielded_transfer_conserves wallet to_address amount fee ttl token_type use_dust t h =
      let pk = if use_dust then wallet.dust.public_key else wallet.unshielded.public_key in
      let token = if use_dust then dust_token else token_type in
      let real_fee = fee_or_min config fee in
      let ((ty, n, recipient), e1, h1) =
        >>=-eq-ok (or_transaction_error (decode_address to_address)) _ h in
      let (utxos, e2, h2) = >>=-eq-ok (wallet_utxos config get_utxos rnd wallet use_dust) _ h1 in
      let r = amount +ℤ real_fee in
      let us = eligible_utxos token utxos in
      let (u, e3, h3) =
        >>=-eq-ok (raise_if (ltb_ℤ (pos (select_utxos r us).1) r) transaction_error) _ h2 in
      let (ss, e4, h4) = >>=-eq-ok (spends_of pk (select_utxos r us).0) _ h3 in
      let same : assemble_transfer config rnd recipient pk amount real_fee ttl ss
            (select_utxos r us).1
          ≡ t =
        cc h4 in
      let enough : ltb_ℤ (pos (select_utxos r us).1) r ≡ false =
        raise_if-eq-ok _ transaction_error e3 in
      subst
        (λ (t : UnshieldedTransfer).
          PaysFor amount t.fee (inputs_of t.standard.intents) (outputs_of t.standard.intents)
          × IsFeeOf real_fee t.fee)
        same
        (assemble-conserves config rnd recipient pk amount real_fee ttl ss (select_utxos r us).1
          (spends_of-total pk (select_utxos r us).0 ss e4 ∙ sym (select_utxos-total r us))
          (ground (arith, enough)))

  -- When the recipient's address decodes and the wallet's UTXOs of the token are worth less than
  -- the amount and the fee, TransactionError is raised.
  pub build_unshielded_transfer_insufficient :
      (wallet : MidnightWallet) (to_address : List ℕ) (amount : ℤ) (fee : Option ℤ) (ttl : ℕ)
      (token_type : List ℕ) (use_dust : Bool) (decoded : List ℕ × Network × List ℕ)
      (utxos : List Utxo)
      → decode_address to_address ≡ ok decoded
      → wallet_utxos config get_utxos rnd wallet use_dust ≡ ok utxos
      → pos (total_value (eligible_utxos (if use_dust then dust_token else token_type) utxos))
        <ℤ amount +ℤ fee_or_min config fee
      → build_unshielded_transfer config get_utxos rnd wallet to_address amount fee ttl token_type
          use_dust
        ≡ err transaction_error
  unfolding build_unshielded_transfer or_transaction_error
  build_unshielded_transfer_insufficient wallet to_address amount fee ttl token_type use_dust
        decoded utxos d w h =
      let us = eligible_utxos (if use_dust then dust_token else token_type) utxos in
      let r = amount +ℤ fee_or_min config fee in
      let short : ltb_ℤ (pos (select_utxos r us).1) r ≡ true =
        ground (arith, select_utxos-short r us h) in
      rw (d, w, short) refl

spends_of-ok :
    (pk : List ℕ) (us : List Utxo)
    → All IsReadable us
    → (ss : List UtxoSpend) × (spends_of pk us ≡ ok ss)
unfolding spends_of spend_of
spends_of-ok pk [] h = ([], refl)
spends_of-ok pk (u ∷ us) (((v, e), (x, f)), h) =
    let (rest, g) = spends_of-ok pk us h in
    let spend : UtxoSpend = record {
      value = v;
      owner = pk;
      type_ = 0;
      intent_hash = x;
      output_no = o_no u;
    } in
    (spend ∷ rest, rw (e, f, g) refl)

module _ (config : NetworkConfig) (get_utxos : List ℕ → Result (List Utxo)) (rnd : List ℕ) where
  -- When the recipient's address decodes, the indexer's UTXOs have a value and a hash in hex, and
  -- those of the token are worth the amount and the fee, the transfer is built.
  pub build_unshielded_transfer_succeeds :
      (wallet : MidnightWallet) (to_address : List ℕ) (amount : ℤ) (fee : Option ℤ) (ttl : ℕ)
      (token_type : List ℕ) (use_dust : Bool) (decoded : List ℕ × Network × List ℕ)
      (utxos : List Utxo)
      → decode_address to_address ≡ ok decoded
      → wallet_utxos config get_utxos rnd wallet use_dust ≡ ok utxos
      → All IsReadable utxos
      → amount +ℤ fee_or_min config fee
        ≤ℤ pos (total_value (eligible_utxos (if use_dust then dust_token else token_type) utxos))
      → (t : UnshieldedTransfer) × (build_unshielded_transfer config get_utxos rnd wallet to_address
            amount fee ttl token_type use_dust
          ≡ ok t)
  unfolding build_unshielded_transfer or_transaction_error
  build_unshielded_transfer_succeeds wallet to_address amount fee ttl token_type use_dust decoded
        utxos d w readable h =
      let token = if use_dust then dust_token else token_type in
      let pk = if use_dust then wallet.dust.public_key else wallet.unshielded.public_key in
      let us = eligible_utxos token utxos in
      let r = amount +ℤ fee_or_min config fee in
      let enough : ltb_ℤ (pos (select_utxos r us).1) r ≡ false =
        ground (arith, select_utxos-enough r us h) in
      let (ss, e) =
        spends_of-ok pk (select_utxos r us).0
          (select_utxos-All IsReadable r us (eligible-All IsReadable token utxos readable)) in
      (
        assemble_transfer config rnd decoded.2 pk amount (fee_or_min config fee) ttl ss
            (select_utxos r us).1,
        rw (d, w, enough, e) refl,
      )
