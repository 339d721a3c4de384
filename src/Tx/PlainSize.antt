-- ===== src/Tx/PlainSize.antt =====
-- How many bytes src/noxipher/tx/scale.py writes of a transaction of one plain intent.
use noxipher.Prelude.{
  ℕ, ◌+◌, ◌*◌, ◌≡◌, ap, arith, List, [], ◌∷◌, ◌++◌, length, length-append, All, All-map, none, some,
  codes,
}
use noxipher.Core.Exceptions.{ok, >>=-eq-ok}
use noxipher.Tx.Compact.{
  encode_scale_int, serialize_u32, serialize_bytes, encode_text, tagged_serialize,
}
use noxipher.Tx.Structures.{
  UtxoSpend, UtxoOutput, UnshieldedOffer, Intent, serialize_utxo_spend, serialize_utxo_output,
  serialize_vec, serialize_unshielded_offer, serialize_option_offer, serialize_contract_action,
  serialize_intent, serialize_zswap_offer,
}
use noxipher.Tx.OfferRoundTrip.{IsSpend, IsOutput, IsSignature}
use noxipher.Tx.Transaction.{
  insert_segment, sort_segments, serialize_segment, serialize_standard_transaction,
}
use noxipher.Tx.Readers.{IsAscii}
use noxipher.Tx.TransactionRoundTrip.{encode_text-ascii}
use noxipher.Tx.Plain.{plain_intent}
use noxipher.Tx.Sizes.{
  Fits, pack-Fits, encode_scale_int-Fits, serialize_vec-Fits, utxo_spend-Fits, utxo_output-Fits,
}

signature-Fits : (s : List ℕ) → IsSignature s → Fits 64 ok s
signature-Fits s size bs h = let same : s ≡ bs = cc h in omega (arith, ap length same, size)

offer-Fits :
    (offer : UnshieldedOffer)
    → All IsSpend offer.inputs
    → All IsOutput offer.outputs
    → All IsSignature offer.signatures
    → Fits
        (204 + 85 * length offer.inputs + 49 * length offer.outputs + 64 * length offer.signatures)
        serialize_unshielded_offer
        offer
unfolding serialize_unshielded_offer
offer-Fits offer spends paid signed bs h =
    let (inputs, e, h1) = >>=-eq-ok (serialize_vec serialize_utxo_spend offer.inputs) _ h in
    let (outputs, f, h2) = >>=-eq-ok (serialize_vec serialize_utxo_output offer.outputs) _ h1 in
    let (signatures, g, h3) = >>=-eq-ok (serialize_vec ok offer.signatures) _ h2 in
    let same : inputs ++ outputs ++ signatures ≡ bs = cc h3 in
    omega (
      arith,
      ap length same,
      length-append inputs outputs,
      length-append (inputs ++ outputs) signatures,
      serialize_vec-Fits 85 serialize_utxo_spend offer.inputs
          (All-map (λ u is. utxo_spend-Fits u is.1 is.3) offer.inputs spends) inputs e,
      serialize_vec-Fits 49 serialize_utxo_output offer.outputs
          (All-map (λ u is. utxo_output-Fits u is.1) offer.outputs paid) outputs f,
      serialize_vec-Fits 64 ok offer.signatures
          (All-map (λ s is. signature-Fits s is) offer.signatures signed) signatures g,
    )

option_offer-Fits :
    (n : ℕ) (offer : UnshieldedOffer)
    → Fits n serialize_unshielded_offer offer
    → Fits (1 + n) serialize_option_offer (some offer)
unfolding serialize_option_offer
option_offer-Fits n offer fits bs h =
    let (payload, e, h1) = >>=-eq-ok (serialize_unshielded_offer offer) _ h in
    let same : (1 ∷ []) ++ payload ≡ bs = cc h1 in omega (arith, ap length same, fits payload e)

no_offer-Fits : Fits 1 serialize_option_offer none
unfolding serialize_option_offer
no_offer-Fits bs h = let same : 0 ∷ [] ≡ bs = cc h in rw (← same) (omega arith)

module _ (inputs : List UtxoSpend) (outputs : List UtxoOutput) (signatures : List (List ℕ))
    (ttl : ℕ) (commitment : List ℕ) (spends : All IsSpend inputs) (paid : All IsOutput outputs)
    (signed : All IsSignature signatures) (size : length commitment ≡ 32) where
  abbrev plain_size : ℕ
  plain_size = 310 + 85 * length inputs + 49 * length outputs + 64 * length signatures

  intent-Fits :
      Fits plain_size serialize_intent (plain_intent inputs outputs signatures ttl commitment)
  unfolding serialize_intent serialize_u32
  intent-Fits bs h =
      let offer : UnshieldedOffer = record {
        inputs = inputs;
        outputs = outputs;
        signatures = signatures;
      } in
      let (guaranteed, e, h1) = >>=-eq-ok (serialize_option_offer (some offer)) _ h in
      let (fallible, f, h2) = >>=-eq-ok (serialize_option_offer none) _ h1 in
      let (ttl_bytes, g, h3) = >>=-eq-ok (serialize_u32 ttl) _ h2 in
      let (actions, k, h4) = >>=-eq-ok (serialize_vec serialize_contract_action []) _ h3 in
      let same : guaranteed ++ fallible ++ ttl_bytes ++ actions ++ commitment ≡ bs = cc h4 in
      omega (
        arith,
        ap length same,
        size,
        length-append guaranteed fallible,
        length-append (guaranteed ++ fallible) ttl_bytes,
        length-append (guaranteed ++ fallible ++ ttl_bytes) actions,
        length-append (guaranteed ++ fallible ++ ttl_bytes ++ actions) commitment,
        option_offer-Fits _ offer (offer-Fits offer spends paid signed) guaranteed e,
        no_offer-Fits fallible f,
        pack-Fits 4 ttl ttl_bytes g,
        serialize_vec-Fits 0 serialize_contract_action [] tt actions k,
      )

  segment-Fits :
      Fits
        (4 + plain_size)
        (serialize_segment serialize_intent)
        (0, plain_intent inputs outputs signatures ttl commitment)
  unfolding serialize_segment serialize_u32
  segment-Fits bs h =
      let (key, e, h1) = >>=-eq-ok (serialize_u32 0) _ h in
      let (payload, f, h2) =
        >>=-eq-ok (serialize_intent (plain_intent inputs outputs signatures ttl commitment)) _ h1 in
      let same : key ++ payload ≡ bs = cc h2 in
      omega (
        arith,
        ap length same,
        length-append key payload,
        pack-Fits 4 0 key e,
        intent-Fits payload f,
      )

  pub transaction-Fits :
      (name rnd : List ℕ)
      → IsAscii name
      → length rnd ≡ 32
      → Fits
          (800 + length name + 85 * length inputs + 49 * length outputs + 64 * length signatures)
          serialize_standard_transaction
          (record {
            network_id = name;
            intents = (0, plain_intent inputs outputs signatures ttl commitment) ∷ [];
            fallible_coins = [];
            binding_randomness = rnd;
          })
  unfolding serialize_standard_transaction sort_segments insert_segment serialize_bytes
      tagged_serialize
  transaction-Fits name rnd (ascii, _) random bs h =
      let segment : ℕ × Intent = (0, plain_intent inputs outputs signatures ttl commitment) in
      let (text, e, h1) = >>=-eq-ok (encode_text name) _ h in
      let (network, f, h2) = >>=-eq-ok (serialize_bytes text) _ h1 in
      let (count, fc, f1) = >>=-eq-ok (encode_scale_int (length text)) _ f in
      let (intents, g, h3) =
        >>=-eq-ok (serialize_vec (serialize_segment serialize_intent) (segment ∷ [])) _ h2 in
      let (coins, k, h4) =
        >>=-eq-ok (serialize_vec (serialize_segment serialize_zswap_offer) []) _ h3 in
      let payload = network ++ intents ++ coins ++ rnd in
      let (tag, t, h5) = >>=-eq-ok (encode_text (codes "standard-tx[v1]")) _ h4 in
      let (prefix, p, h6) = >>=-eq-ok (encode_scale_int (length tag)) _ h5 in
      let same : prefix ++ tag ++ payload ≡ bs = cc h6 in
      let joined : count ++ text ≡ network = cc f1 in
      let own : name ≡ text = cc (encode_text-ascii name ascii, e) in
      let own_tag : codes "standard-tx[v1]" ≡ tag =
        cc (encode_text-ascii (codes "standard-tx[v1]") (omega arith), t) in
      omega (
        arith,
        ap length same,
        ap length joined,
        ap length own,
        ap length own_tag,
        random,
        length-append count text,
        length-append network intents,
        length-append (network ++ intents) coins,
        length-append (network ++ intents ++ coins) rnd,
        length-append prefix tag,
        length-append (prefix ++ tag) payload,
        encode_scale_int-Fits (length text) count fc,
        encode_scale_int-Fits (length tag) prefix p,
        serialize_vec-Fits (4 + plain_size) (serialize_segment serialize_intent) (segment ∷ [])
            (segment-Fits, tt) intents g,
        serialize_vec-Fits 0 (serialize_segment serialize_zswap_offer) [] tt coins k,
      )
