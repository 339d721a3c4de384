-- ===== src/Tx/TypedTransaction.antt =====
-- A transaction that src/noxipher/tx/scale.py writes is bytes.
use noxipher.Prelude.{
  ℕ, ◌≡◌, arith, inl, inr, Bool-cases, List, [], ◌∷◌, ◌++◌, All, All-map, codes, leb,
}
use noxipher.Core.Exceptions.{Result, ok, >>=-eq-ok}
use noxipher.Tx.Compact.{serialize_u32, serialize_bytes, encode_text}
use noxipher.Tx.Structures.{serialize_vec, serialize_intent, serialize_zswap_offer}
use noxipher.Tx.Transaction.{
  Segments, insert_segment, sort_segments, serialize_segment, StandardTransaction,
  serialize_standard_transaction,
}
use noxipher.Tx.Bytes.{
  AreBytes, WritesBytes, ends_with, join, serialize_bytes-WritesBytes, encode_text-WritesBytes,
  tagged-WritesBytes, vec-WritesBytes,
}
use noxipher.Tx.TypedBytes.{
  TypedIntent, TypedZswap, IsTyped, u32-WritesBytes, intent-WritesBytes, zswap-WritesBytes,
}

module _ {A : Type 0} (P : A → Type 0) (write : A → Result (List ℕ))
    (writes : (a : A) → P a → WritesBytes write a) where
  segment-WritesBytes : (s : ℕ × A) → P s.1 → WritesBytes (serialize_segment write) s
  unfolding serialize_segment
  segment-WritesBytes (seg_id, a) typed bs h =
      let (key, e, h1) = >>=-eq-ok (serialize_u32 seg_id) _ h in
      let (payload, f, h2) = >>=-eq-ok (write a) _ h1 in
      ends_with (key ++ payload) bs
        (join key payload (u32-WritesBytes seg_id key e) (writes a typed payload f)) h2

  insert-Typed :
      (s : ℕ × A) (ss : Segments A)
      → P s.1
      → All (λ (t : ℕ × A). P t.1) ss
      → All (λ (t : ℕ × A). P t.1) (insert_segment s ss)
  unfolding insert_segment
  insert-Typed s [] p ps = (p, tt)
  insert-Typed s (t ∷ ts) p (q, ps) = elim (Bool-cases (leb s.0 t.0)) [
    | inl e ↦ rw e (p, (q, ps))
    | inr e ↦ rw e (q, insert-Typed s ts p ps)
  ]

  sort-Typed :
      (ss : Segments A)
      → All (λ (t : ℕ × A). P t.1) ss
      → All (λ (t : ℕ × A). P t.1) (sort_segments ss)
  unfolding sort_segments
  sort-Typed [] ps = tt
  sort-Typed (s ∷ ss) (p, ps) = insert-Typed s (sort_segments ss) p (sort-Typed ss ps)

  segments-WritesBytes :
      (ss : Segments A) (bs : List ℕ)
      → All (λ (t : ℕ × A). P t.1) ss
      → serialize_vec (serialize_segment write) (sort_segments ss) ≡ ok bs
      → AreBytes bs
  segments-WritesBytes ss bs ps h =
      vec-WritesBytes (serialize_segment write) (sort_segments ss)
        (All-map segment-WritesBytes (sort_segments ss) (sort-Typed ss ps)) bs h

-- A transaction whose byte strings are bytes and whose texts are code points is written as bytes,
-- whatever its numbers are, where it is written.
pub serialize_standard_transaction-AreBytes :
    (stx : StandardTransaction) (bs : List ℕ)
    → IsTyped stx
    → serialize_standard_transaction stx ≡ ok bs
    → AreBytes bs
unfolding serialize_standard_transaction
serialize_standard_transaction-AreBytes stx bs (named, typed, coined, random) h =
    let (net_bytes, e, h1) = >>=-eq-ok (encode_text stx.network_id) _ h in
    let (network, f, h2) = >>=-eq-ok (serialize_bytes net_bytes) _ h1 in
    let (intents, g, h3) =
      >>=-eq-ok (serialize_vec (serialize_segment serialize_intent) (sort_segments stx.intents)) _
        h2 in
    let (coins, k, h4) =
      >>=-eq-ok
        (serialize_vec (serialize_segment serialize_zswap_offer) (sort_segments stx.fallible_coins))
        _ h3 in
    tagged-WritesBytes (codes "standard-tx[v1]")
      (network ++ intents ++ coins ++ stx.binding_randomness) (omega arith)
      (join (network ++ intents ++ coins) stx.binding_randomness
        (join (network ++ intents) coins
          (join network intents
            (serialize_bytes-WritesBytes net_bytes
              (encode_text-WritesBytes stx.network_id named net_bytes e) network f)
            (segments-WritesBytes TypedIntent serialize_intent intent-WritesBytes stx.intents
              intents typed g))
          (segments-WritesBytes TypedZswap serialize_zswap_offer zswap-WritesBytes
            stx.fallible_coins coins coined k))
        random)
      bs h4
