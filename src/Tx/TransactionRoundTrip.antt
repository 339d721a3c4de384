-- ===== src/Tx/TransactionRoundTrip.antt =====
-- Transactions that src/noxipher/tx/scale.py writes are read back.
use noxipher.Prelude.{
  ℕ, suc, ◌^◌, ◌<◌, ◌≡◌, refl, ap, ◌∙◌, arith, inl, inr, Bool-cases, List, [], ◌∷◌, ◌++◌,
  append_assoc, Option, none, some, All, codes, length, list_eq_refl, leb,
}
use noxipher.Core.Exceptions.{ok, ◌>>=◌}
use noxipher.Tx.Compact.{
  utf8_char, encode_text, serialize_u32, serialize_bytes, tagged_serialize, encode_scale_int, pack,
  byte,
}
use noxipher.Tx.CompactRoundTrip.{Reads, take_exact-front, pack-Reads, encode_scale_int-Reads}
use noxipher.Tx.OfferRoundTrip.{unshielded_offer-Reads, serialize_bytes-Reads, vec-Reads}
use noxipher.Tx.Structures.{
  UnshieldedOffer, ContractAction, deploy, call, Intent, serialize_vec, serialize_each,
  serialize_option_offer, serialize_contract_action, serialize_intent, serialize_zswap_offer,
  ZswapOffer,
}
use noxipher.Tx.Transaction.{
  Segments, insert_segment, sort_segments, serialize_segment, StandardTransaction,
  serialize_standard_transaction,
}
use noxipher.Tx.Readers.{
  read_option_offer, read_contract_action, read_intent, read_segment, read_no_coins, read_tag,
  read_standard_transaction, IsAscii, IsAction, IsOptionOffer, IsIntent, IsSegment,
}

pub encode_text-ascii : (text : List ℕ) → All (λ c. c < 128) text → encode_text text ≡ ok text
unfolding encode_text utf8_char
encode_text-ascii [] h = refl
encode_text-ascii (c ∷ cs) h =
    let one : utf8_char c ≡ ok (c ∷ []) = ground (arith, h.0) in rw (one, encode_text-ascii cs h.1)

option_offer-Reads :
    (o : Option UnshieldedOffer)
    → IsOptionOffer o
    → Reads serialize_option_offer read_option_offer o
unfolding serialize_option_offer read_option_offer
option_offer-Reads none h = (0 ∷ [], refl, λ rest. refl)
option_offer-Reads (some offer) h =
    let (p, e, r) = unshielded_offer-Reads offer h in
    ((1 ∷ []) ++ p, rw e refl, λ rest. rw (r rest) refl)

action-Reads :
    (a : ContractAction) → IsAction a → Reads serialize_contract_action read_contract_action a
unfolding serialize_contract_action read_contract_action
action-Reads (deploy bytecode initial_state) (hb, hs) =
    let (p, e, r) = serialize_bytes-Reads bytecode hb in
    let (q, f, s) = serialize_bytes-Reads initial_state hs in
    (
      ((0 ∷ []) ++ p) ++ q,
      rw (e, f) refl,
      λ rest. rw (append_assoc p q rest, r (q ++ rest), s rest) refl,
    )
action-Reads (call address entry_point args) (ha, (ascii, he), hr) =
    let (p, e, r) = serialize_bytes-Reads entry_point he in
    let (q, f, s) = serialize_bytes-Reads args hr in
    (
      (((1 ∷ []) ++ address) ++ p) ++ q,
      rw (encode_text-ascii entry_point ascii, e, f) refl,
      λ rest.
          rw
            (
              append_assoc (address ++ p) q rest,
              append_assoc address p (q ++ rest),
              take_exact-front 32 address (p ++ (q ++ rest)) ha,
              r (q ++ rest),
              s rest,
            )
            refl,
    )

pub intent-Reads : (i : Intent) → IsIntent i → Reads serialize_intent read_intent i
unfolding serialize_intent read_intent serialize_u32
intent-Reads i (hg, hf, ht, ha, la, hc) =
    let (p, e, r) = option_offer-Reads i.guaranteed_unshielded_offer hg in
    let (q, f, s) = option_offer-Reads i.fallible_unshielded_offer hf in
    let (w, g, t) = pack-Reads 4 i.ttl ht in
    let (x, k, u) =
      vec-Reads serialize_contract_action read_contract_action IsAction action-Reads i.actions ha
        la in
    let c = i.binding_commitment in
    (
      p ++ q ++ w ++ x ++ c,
      rw (e, f, g, k) refl,
      λ rest.
          rw
            (
              append_assoc (p ++ q ++ w ++ x) c rest,
              append_assoc (p ++ q ++ w) x (c ++ rest),
              append_assoc (p ++ q) w (x ++ (c ++ rest)),
              append_assoc p q (w ++ (x ++ (c ++ rest))),
              r (q ++ (w ++ (x ++ (c ++ rest)))),
              s (w ++ (x ++ (c ++ rest))),
              t (x ++ (c ++ rest)),
              u (c ++ rest),
              take_exact-front 32 c rest hc,
            )
            refl,
    )

segment-Reads :
    (s : ℕ × Intent) → IsSegment s → Reads (serialize_segment serialize_intent) read_segment s
unfolding serialize_segment read_segment serialize_u32
segment-Reads (key, intent) (hk, hi) =
    let (p, e, r) = pack-Reads 4 key hk in
    let (q, f, s) = intent-Reads intent hi in
    (p ++ q, rw (e, f) refl, λ rest. rw (append_assoc p q rest, r (q ++ rest), s rest) refl)

-- Sorting keeps a property of every segment, and their number.
insert_segment-All :
    (s : ℕ × Intent) (ts : Segments Intent)
    → IsSegment s
    → All IsSegment ts
    → All IsSegment (insert_segment s ts) × (length (insert_segment s ts) ≡ suc (length ts))
unfolding insert_segment
insert_segment-All s [] p h = ((p, tt), refl)
insert_segment-All s (t ∷ ts) p h = elim (Bool-cases (leb s.0 t.0)) [
  | inl first ↦ rw first ((p, h), refl)
  | inr later ↦
      let (kept, size) = insert_segment-All s ts p h.1 in rw later ((h.0, kept), ap suc size)
]

sort_segments-All :
    (ss : Segments Intent)
    → All IsSegment ss
    → All IsSegment (sort_segments ss) × (length (sort_segments ss) ≡ length ss)
unfolding sort_segments
sort_segments-All [] h = (tt, refl)
sort_segments-All (s ∷ ss) h =
    let (kept, size) = sort_segments-All ss h.1 in
    let (kept', size') = insert_segment-All s (sort_segments ss) h.0 kept in
    (kept', size' ∙ ap suc size)

-- A tag in front of a payload.
tagged_lem :
    (tag payload : List ℕ)
    → IsAscii tag
    → (front : List ℕ) × (tagged_serialize tag payload ≡ ok (front ++ payload))
      × ((rest : List ℕ) → read_tag tag (front ++ rest) ≡ ok (tt, rest))
unfolding tagged_serialize read_tag
tagged_lem tag payload (ascii, short) =
    let (p, e, r) = serialize_bytes-Reads tag short in
    let (count, counted, _) = encode_scale_int-Reads (length tag) short in
    let same : count ++ tag ≡ p = unfold serialize_bytes in (cc (e, counted)) in
    (
      count ++ tag,
      rw (encode_text-ascii tag ascii, counted) refl,
      λ rest. rw (same, r rest, list_eq_refl tag) refl,
    )

no_coins : serialize_vec (serialize_segment serialize_zswap_offer) [] ≡ ok (0 ∷ [])
unfolding serialize_vec serialize_each encode_scale_int byte pack
no_coins = refl

no_sorted_coins :
    (coins : Segments ZswapOffer)
    → coins ≡ []
    → serialize_vec (serialize_segment serialize_zswap_offer) (sort_segments coins) ≡ ok (0 ∷ [])
unfolding sort_segments
no_sorted_coins coins e = rw e no_coins

-- A transaction without shielded offers, whose network and entry points are ASCII and whose fields
-- are in the ranges of the ledger, is written without a raise, and a reader of the format finds it
-- in front of any bytes, whole but for the order of its intents, which are in the order of their
-- segments.
pub read_standard_transaction-serialize :
    (stx : StandardTransaction) (rest : List ℕ)
    → IsAscii stx.network_id
    → All IsSegment stx.intents
    → length stx.intents < 256 ^ 67
    → stx.fallible_coins ≡ []
    → length stx.binding_randomness ≡ 32
    → (serialize_standard_transaction stx >>= (λ bs. read_standard_transaction (bs ++ rest)))
      ≡ ok (record stx { intents = sort_segments stx.intents; fallible_coins = [] }, rest)
unfolding serialize_standard_transaction read_standard_transaction read_no_coins
read_standard_transaction-serialize stx rest (ascii, short) segments few coins size =
    let rnd = stx.binding_randomness in
    let (p, e, r) = serialize_bytes-Reads stx.network_id short in
    let (kept, same) = sort_segments-All stx.intents segments in
    let (q, f, s) =
      vec-Reads (serialize_segment serialize_intent) read_segment IsSegment segment-Reads
        (sort_segments stx.intents) kept (omega (arith, same, few)) in
    let payload = p ++ q ++ (0 ∷ []) ++ rnd in
    let (front, g, t) = tagged_lem (codes "standard-tx[v1]") payload (omega arith, omega arith) in
    rw
      (
        encode_text-ascii stx.network_id ascii,
        e,
        f,
        no_sorted_coins stx.fallible_coins coins,
        g,
        append_assoc front payload rest,
        t (payload ++ rest),
        append_assoc (p ++ q ++ (0 ∷ [])) rnd rest,
        append_assoc (p ++ q) (0 ∷ []) (rnd ++ rest),
        append_assoc p q (0 ∷ (rnd ++ rest)),
        r (q ++ (0 ∷ (rnd ++ rest))),
        s (0 ∷ (rnd ++ rest)),
        take_exact-front 32 rnd rest size,
      )
      refl
