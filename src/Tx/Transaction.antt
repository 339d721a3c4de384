-- ===== src/Tx/Transaction.antt =====
-- The transaction, its signing payload, the arguments of contracts and the extrinsic of
-- src/noxipher/tx/scale.py.
use noxipher.Prelude.{ℕ, suc, Bool, List, [], ◌∷◌, ◌++◌, length, codes, if◌then◌else◌, leb}
use noxipher.Core.Exceptions.{Result, ok, err, ◌>>=◌, value_error}
use noxipher.Tx.Compact.{
  encode_scale_int, serialize_u32, serialize_bytes, encode_text, tagged_serialize,
}
use noxipher.Tx.Structures.{
  Intent, ZswapOffer, serialize_vec, serialize_intent, serialize_zswap_offer,
}

-- What a contract may be called with: a negative int apart, a dict as its values in order.
mutual
  pub data Argument : Type 0 where
    none_ other : Argument
    bytes_ str_ : List ℕ → Argument
    bool_ : Bool → Argument
    int_ : ℕ → Argument
    negative_int : Argument
    list_ dict_ : Arguments → Argument

  pub data Arguments : Type 0 where
    end : Arguments
    item : Argument → Arguments → Arguments

unfoldable pub count_arguments : Arguments → ℕ
count_arguments end = 0
count_arguments (item a rest) = suc (count_arguments rest)

-- `encode_scale_int` of a negative int asks `bytes` for a negative byte.
unfoldable mutual
  pub serialize_contract_args : Argument → Result (List ℕ)
  serialize_contract_args none_ = ok []
  serialize_contract_args other = ok []
  serialize_contract_args (bytes_ b) = serialize_bytes b
  serialize_contract_args (str_ s) = encode_text s >>= serialize_bytes
  serialize_contract_args (bool_ b) = ok (if b then 1 ∷ [] else 0 ∷ [])
  serialize_contract_args (int_ n) = encode_scale_int n
  serialize_contract_args negative_int = err value_error
  serialize_contract_args (list_ values) = do
    count ← encode_scale_int (count_arguments values)
    payload ← serialize_arguments values
    ok (count ++ payload)
  serialize_contract_args (dict_ values) = serialize_arguments values

  pub serialize_arguments : Arguments → Result (List ℕ)
  serialize_arguments end = ok []
  serialize_arguments (item a rest) = do
    front ← serialize_contract_args a
    back ← serialize_arguments rest
    ok (front ++ back)

-- A dict by segment: each key by its `int`, in the order in which the keys were put in.
abbrev pub Segments {ℓ} : Type ℓ → Type ℓ
Segments A = List (ℕ × A)

-- `sorted(d.keys(), key=int)` with the items; the sort is stable.
unfoldable pub insert_segment {ℓ} : {A : Type ℓ} → ℕ × A → Segments A → Segments A
insert_segment s [] = s ∷ []
insert_segment s (t ∷ ts) = if leb s.0 t.0 then s ∷ t ∷ ts else t ∷ insert_segment s ts

unfoldable pub sort_segments {ℓ} : {A : Type ℓ} → Segments A → Segments A
sort_segments [] = []
sort_segments (s ∷ ss) = insert_segment s (sort_segments ss)

unfoldable pub serialize_segment {ℓ} :
    {A : Type ℓ} → (A → Result (List ℕ)) → ℕ × A → Result (List ℕ)
serialize_segment write (seg_id, a) = do
  key ← serialize_u32 seg_id
  payload ← write a
  ok (key ++ payload)

pub record StandardTransaction : Type 0 where
  pub network_id : List ℕ
  pub intents : Segments Intent
  pub fallible_coins : Segments ZswapOffer
  pub binding_randomness : List ℕ

unfoldable pub serialize_standard_transaction : StandardTransaction → Result (List ℕ)
serialize_standard_transaction stx = do
  net_bytes ← encode_text stx.network_id
  network ← serialize_bytes net_bytes
  intents ← serialize_vec (serialize_segment serialize_intent) (sort_segments stx.intents)
  coins ← serialize_vec (serialize_segment serialize_zswap_offer) (sort_segments stx.fallible_coins)
  tagged_serialize (codes "standard-tx[v1]") (network ++ intents ++ coins ++ stx.binding_randomness)

-- `serialize_transaction` of a dict with the key "standard".
unfoldable pub serialize_transaction : StandardTransaction → Result (List ℕ)
serialize_transaction standard = serialize_standard_transaction standard

unfoldable pub get_unshielded_signing_payload : ℕ → Intent → Result (List ℕ)
get_unshielded_signing_payload segment_id intent = do
  segment ← serialize_u32 segment_id
  payload ← serialize_intent intent
  ok (codes "midnight:unshielded-sig[v1]" ++ segment ++ payload)

unfoldable pub serialize_raw_midnight_tx : List ℕ → Result (List ℕ)
serialize_raw_midnight_tx midnight_bytes = do
  prefix ← encode_scale_int (length midnight_bytes)
  ok (5 ∷ 0 ∷ prefix ++ midnight_bytes)
