-- ===== src/Tx/TypedBytes.antt =====
-- The structures of src/noxipher/tx/scale.py are written as bytes.
use noxipher.Prelude.{
  ℕ, ◌-◌, arith, List, [], ◌∷◌, ◌++◌, ◌/◌, ◌%◌, ◌^◌, length, take, replicate, zero, suc, All,
  All-map, Option, none, some, codes,
}
use noxipher.Core.Exceptions.{ok, >>=-eq-ok}
use noxipher.Tx.Compact.{pack, byte, serialize_u32, serialize_u128, serialize_bytes, encode_text}
use noxipher.Tx.Structures.{
  UtxoSpend, UtxoOutput, UnshieldedOffer, ContractAction, deploy, call, Intent, ZswapOffer,
  serialize_utxo_spend, serialize_utxo_output, serialize_vec, serialize_unshielded_offer,
  serialize_contract_action, serialize_option_offer, serialize_intent, root_field,
  serialize_zswap_offer,
}
use noxipher.Tx.Transaction.{StandardTransaction}
use noxipher.Tx.Bytes.{
  AreBytes, IsText, WritesBytes, ends_with, join, pack-WritesBytes, byte-WritesBytes,
  serialize_bytes-WritesBytes, encode_text-WritesBytes, tagged-WritesBytes, vec-WritesBytes,
}

-- The byte strings and the texts of each structure are such.
abbrev pub TypedSpend : UtxoSpend → Type 0
TypedSpend u = AreBytes u.owner × AreBytes u.intent_hash

abbrev pub TypedOffer : UnshieldedOffer → Type 0
TypedOffer offer =
    All TypedSpend offer.inputs
    × All (λ (o : UtxoOutput). AreBytes o.owner) offer.outputs
    × All AreBytes offer.signatures

abbrev pub TypedOption : Option UnshieldedOffer → Type 0
TypedOption none = Unit {0}
TypedOption (some offer) = TypedOffer offer

abbrev pub TypedAction : ContractAction → Type 0
TypedAction (deploy bytecode initial_state) = AreBytes bytecode × AreBytes initial_state
TypedAction (call address entry_point args) = AreBytes address × IsText entry_point × AreBytes args

abbrev pub TypedIntent : Intent → Type 0
TypedIntent i =
    TypedOption i.guaranteed_unshielded_offer
    × TypedOption i.fallible_unshielded_offer
    × All TypedAction i.actions
    × AreBytes i.binding_commitment

abbrev pub TypedRoot : Option (List ℕ) → Type 0
TypedRoot none = Unit {0}
TypedRoot (some root) = AreBytes root

abbrev pub TypedZswap : ZswapOffer → Type 0
TypedZswap offer =
    All AreBytes offer.spend_proofs
    × All AreBytes offer.output_proofs
    × All AreBytes offer.zswap_memos
    × TypedRoot offer.merkle_root

abbrev pub IsTyped : StandardTransaction → Type 0
IsTyped stx =
    IsText stx.network_id
    × All (λ (s : ℕ × Intent). TypedIntent s.1) stx.intents
    × All (λ (s : ℕ × ZswapOffer). TypedZswap s.1) stx.fallible_coins
    × AreBytes stx.binding_randomness

u128-WritesBytes : (v : ℕ) → WritesBytes serialize_u128 v
unfolding serialize_u128
u128-WritesBytes v bs h =
    let (low, e, h1) = >>=-eq-ok (pack 8 (v % 2 ^ 64)) _ h in
    let (high, f, h2) = >>=-eq-ok (pack 8 (v / 2 ^ 64)) _ h1 in
    ends_with (low ++ high) bs
      (join low high (pack-WritesBytes 8 _ low e) (pack-WritesBytes 8 _ high f)) h2

pub u32-WritesBytes : (v : ℕ) → WritesBytes serialize_u32 v
unfolding serialize_u32
u32-WritesBytes v = pack-WritesBytes 4 v

spend-WritesBytes : (u : UtxoSpend) → TypedSpend u → WritesBytes serialize_utxo_spend u
unfolding serialize_utxo_spend
spend-WritesBytes u (owned, hashed) bs h =
    let (value, e, h1) = >>=-eq-ok (serialize_u128 u.value) _ h in
    let (kind, f, h2) = >>=-eq-ok (byte u.type_) _ h1 in
    let (number, g, h3) = >>=-eq-ok (serialize_u32 u.output_no) _ h2 in
    ends_with (value ++ u.owner ++ kind ++ u.intent_hash ++ number) bs
      (join (value ++ u.owner ++ kind ++ u.intent_hash) number
        (join (value ++ u.owner ++ kind) u.intent_hash
          (join (value ++ u.owner) kind
            (join value u.owner (u128-WritesBytes u.value value e) owned)
            (byte-WritesBytes u.type_ kind f))
          hashed)
        (u32-WritesBytes u.output_no number g))
      h3

output-WritesBytes : (u : UtxoOutput) → AreBytes u.owner → WritesBytes serialize_utxo_output u
unfolding serialize_utxo_output
output-WritesBytes u owned bs h =
    let (value, e, h1) = >>=-eq-ok (serialize_u128 u.value) _ h in
    let (kind, f, h2) = >>=-eq-ok (byte u.type_) _ h1 in
    ends_with (value ++ u.owner ++ kind) bs
      (join (value ++ u.owner) kind (join value u.owner (u128-WritesBytes u.value value e) owned)
        (byte-WritesBytes u.type_ kind f))
      h2

as_is-WritesBytes : (bs : List ℕ) → AreBytes bs → WritesBytes ok bs
as_is-WritesBytes bs are out h = ends_with bs out are h

All-as_is : (items : List (List ℕ)) → All AreBytes items → All (WritesBytes ok) items
All-as_is items typed = All-map as_is-WritesBytes items typed

offer-WritesBytes : (o : UnshieldedOffer) → TypedOffer o → WritesBytes serialize_unshielded_offer o
unfolding serialize_unshielded_offer
offer-WritesBytes o (spends, paid, signed) bs h =
    let (inputs, e, h1) = >>=-eq-ok (serialize_vec serialize_utxo_spend o.inputs) _ h in
    let (outputs, f, h2) = >>=-eq-ok (serialize_vec serialize_utxo_output o.outputs) _ h1 in
    let (signatures, g, h3) = >>=-eq-ok (serialize_vec ok o.signatures) _ h2 in
    ends_with (inputs ++ outputs ++ signatures) bs
      (join (inputs ++ outputs) signatures
        (join inputs outputs
          (vec-WritesBytes serialize_utxo_spend o.inputs (All-map spend-WritesBytes o.inputs spends)
            inputs e)
          (vec-WritesBytes serialize_utxo_output o.outputs
            (All-map output-WritesBytes o.outputs paid) outputs f))
        (vec-WritesBytes ok o.signatures (All-as_is o.signatures signed) signatures g))
      h3

option-WritesBytes :
    (o : Option UnshieldedOffer) → TypedOption o → WritesBytes serialize_option_offer o
unfolding serialize_option_offer
option-WritesBytes none typed bs h = ends_with (0 ∷ []) bs (omega arith) h
option-WritesBytes (some offer) typed bs h =
    let (payload, e, h1) = >>=-eq-ok (serialize_unshielded_offer offer) _ h in
    ends_with ((1 ∷ []) ++ payload) bs
      (join (1 ∷ []) payload (omega arith) (offer-WritesBytes offer typed payload e)) h1

action-WritesBytes : (a : ContractAction) → TypedAction a → WritesBytes serialize_contract_action a
unfolding serialize_contract_action
action-WritesBytes (deploy bytecode initial_state) (coded, stated) bs h =
    let (code, e, h1) = >>=-eq-ok (serialize_bytes bytecode) _ h in
    let (state, f, h2) = >>=-eq-ok (serialize_bytes initial_state) _ h1 in
    ends_with ((0 ∷ []) ++ code ++ state) bs
      (join ((0 ∷ []) ++ code) state
        (join (0 ∷ []) code (omega arith) (serialize_bytes-WritesBytes bytecode coded code e))
        (serialize_bytes-WritesBytes initial_state stated state f))
      h2
action-WritesBytes (call address entry_point args) (at, named, given) bs h =
    let (ep, e, h1) = >>=-eq-ok (encode_text entry_point) _ h in
    let (entry, f, h2) = >>=-eq-ok (serialize_bytes ep) _ h1 in
    let (arguments, g, h3) = >>=-eq-ok (serialize_bytes args) _ h2 in
    let written = encode_text-WritesBytes entry_point named ep e in
    ends_with ((1 ∷ []) ++ address ++ entry ++ arguments) bs
      (join ((1 ∷ []) ++ address ++ entry) arguments
        (join ((1 ∷ []) ++ address) entry (join (1 ∷ []) address (omega arith) at)
          (serialize_bytes-WritesBytes ep written entry f))
        (serialize_bytes-WritesBytes args given arguments g))
      h3

pub intent-WritesBytes : (i : Intent) → TypedIntent i → WritesBytes serialize_intent i
unfolding serialize_intent
intent-WritesBytes i (first, second, acts, committed) bs h =
    let (guaranteed, e, h1) =
      >>=-eq-ok (serialize_option_offer i.guaranteed_unshielded_offer) _ h in
    let (fallible, f, h2) = >>=-eq-ok (serialize_option_offer i.fallible_unshielded_offer) _ h1 in
    let (ttl, g, h3) = >>=-eq-ok (serialize_u32 i.ttl) _ h2 in
    let (actions, k, h4) = >>=-eq-ok (serialize_vec serialize_contract_action i.actions) _ h3 in
    ends_with (guaranteed ++ fallible ++ ttl ++ actions ++ i.binding_commitment) bs
      (join (guaranteed ++ fallible ++ ttl ++ actions) i.binding_commitment
        (join (guaranteed ++ fallible ++ ttl) actions
          (join (guaranteed ++ fallible) ttl
            (join guaranteed fallible
              (option-WritesBytes i.guaranteed_unshielded_offer first guaranteed e)
              (option-WritesBytes i.fallible_unshielded_offer second fallible f))
            (u32-WritesBytes i.ttl ttl g))
          (vec-WritesBytes serialize_contract_action i.actions
            (All-map action-WritesBytes i.actions acts) actions k))
        committed)
      h4

take-AreBytes : (n : ℕ) (bs : List ℕ) → AreBytes bs → AreBytes (take n bs)
take-AreBytes zero bs are = tt
take-AreBytes (suc n) [] are = tt
take-AreBytes (suc n) (b ∷ bs) (is, are) = (is, take-AreBytes n bs are)

zeros-AreBytes : (n : ℕ) → AreBytes (replicate n 0)
zeros-AreBytes zero = tt
zeros-AreBytes (suc n) = (omega arith, zeros-AreBytes n)

root_field-AreBytes : (root : Option (List ℕ)) → TypedRoot root → AreBytes (root_field root)
unfolding root_field
root_field-AreBytes none typed = zeros-AreBytes 32
root_field-AreBytes (some root) typed =
    join (take 32 root) (replicate (32 - length root) 0) (take-AreBytes 32 root typed)
      (zeros-AreBytes (32 - length root))

pub zswap-WritesBytes : (o : ZswapOffer) → TypedZswap o → WritesBytes serialize_zswap_offer o
unfolding serialize_zswap_offer
zswap-WritesBytes o (spent, paid, noted, rooted) bs h =
    let (spends, e, h1) = >>=-eq-ok (serialize_vec ok o.spend_proofs) _ h in
    let (outputs, f, h2) = >>=-eq-ok (serialize_vec ok o.output_proofs) _ h1 in
    let (memos, g, h3) = >>=-eq-ok (serialize_vec ok o.zswap_memos) _ h2 in
    tagged-WritesBytes (codes "zswap-offer[v1]")
      (spends ++ outputs ++ memos ++ root_field o.merkle_root) (omega arith)
      (join (spends ++ outputs ++ memos) (root_field o.merkle_root)
        (join (spends ++ outputs) memos
          (join spends outputs
            (vec-WritesBytes ok o.spend_proofs (All-as_is o.spend_proofs spent) spends e)
            (vec-WritesBytes ok o.output_proofs (All-as_is o.output_proofs paid) outputs f))
          (vec-WritesBytes ok o.zswap_memos (All-as_is o.zswap_memos noted) memos g))
        (root_field-AreBytes o.merkle_root rooted))
      bs h3
