-- ===== src/Tx/Readers.antt =====
-- Readers for contract actions, intents and transactions, which the source does not have, and what
-- the types of the ledger say of the fields that src/noxipher/tx/scale.py writes.
use noxipher.Prelude.{
  ℕ, ◌^◌, ◌<◌, ◌≡◌, List, [], ◌∷◌, Option, none, some, All, codes, length, list_eq, ◌==◌,
  if◌then◌else◌,
}
use noxipher.Core.Exceptions.{Result, ok, err, ◌>>=◌, value_error}
use noxipher.Tx.CompactRoundTrip.{Reader, unpack, take_exact}
use noxipher.Tx.OfferRoundTrip.{decode_bytes, read_vec, read_unshielded_offer, IsOffer}
use noxipher.Tx.Structures.{UnshieldedOffer, ContractAction, deploy, call, Intent}
use noxipher.Tx.Transaction.{StandardTransaction}

unfoldable pub read_some : List ℕ → Result (Option UnshieldedOffer × List ℕ)
read_some bs = do (offer, rest) ← read_unshielded_offer bs; ok (some offer, rest)

-- The first byte tells whether there is an offer.
unfoldable pub read_option_offer : Reader (Option UnshieldedOffer)
unfolding read_some
read_option_offer [] = err value_error
read_option_offer (b ∷ bs) =
    if b == 0 then ok (none, bs) else if b == 1 then read_some bs else err value_error

unfoldable pub read_deploy : Reader ContractAction
read_deploy bs = do
  (code, bs1) ← decode_bytes bs
  (state, bs2) ← decode_bytes bs1
  ok (deploy code state, bs2)

unfoldable pub read_call : Reader ContractAction
read_call bs = do
  (address, bs1) ← take_exact 32 bs
  (entry, bs2) ← decode_bytes bs1
  (args, bs3) ← decode_bytes bs2
  ok (call address entry args, bs3)

unfoldable pub read_contract_action : Reader ContractAction
unfolding read_deploy read_call
read_contract_action [] = err value_error
read_contract_action (b ∷ bs) =
    if b == 0 then read_deploy bs else if b == 1 then read_call bs else err value_error

unfoldable pub read_intent : Reader Intent
read_intent bs = do
  (guaranteed, bs1) ← read_option_offer bs
  (fallible, bs2) ← read_option_offer bs1
  (ttl, bs3) ← unpack 4 bs2
  (actions, bs4) ← read_vec read_contract_action bs3
  (commitment, bs5) ← take_exact 32 bs4
  ok (
    record {
      guaranteed_unshielded_offer = guaranteed;
      fallible_unshielded_offer = fallible;
      ttl = ttl;
      actions = actions;
      binding_commitment = commitment;
    },
    bs5,
  )

unfoldable pub read_segment : Reader (ℕ × Intent)
read_segment bs = do
  (key, bs1) ← unpack 4 bs
  (intent, bs2) ← read_intent bs1
  ok ((key, intent), bs2)

-- No shielded offer is read.
unfoldable pub read_no_coins : Reader (Unit {0})
read_no_coins [] = err value_error
read_no_coins (b ∷ bs) = if b == 0 then ok (tt, bs) else err value_error

unfoldable pub read_tag : List ℕ → Reader (Unit {0})
read_tag tag bs = do
  (found, rest) ← decode_bytes bs
  if list_eq found tag then ok (tt, rest) else err value_error

unfoldable pub read_standard_transaction : Reader StandardTransaction
read_standard_transaction bs = do
  (_, bs1) ← read_tag (codes "standard-tx[v1]") bs
  (network, bs2) ← decode_bytes bs1
  (intents, bs3) ← read_vec read_segment bs2
  (_, bs4) ← read_no_coins bs3
  (randomness, bs5) ← take_exact 32 bs4
  ok (
    record {
      network_id = network;
      intents = intents;
      fallible_coins = [];
      binding_randomness = randomness;
    },
    bs5,
  )

-- Texts of ASCII are the bytes that they are encoded as.
abbrev pub IsAscii : List ℕ → Type 0
IsAscii text = All (λ c. c < 128) text × (length text < 256 ^ 67)

abbrev pub IsAction : ContractAction → Type 0
IsAction (deploy bytecode initial_state) =
    (length bytecode < 256 ^ 67) × (length initial_state < 256 ^ 67)
IsAction (call address entry_point args) =
    (length address ≡ 32) × IsAscii entry_point × (length args < 256 ^ 67)

abbrev pub IsOptionOffer : Option UnshieldedOffer → Type 0
IsOptionOffer none = Unit {0}
IsOptionOffer (some offer) = IsOffer offer

abbrev pub IsIntent : Intent → Type 0
IsIntent intent =
    IsOptionOffer intent.guaranteed_unshielded_offer
    × IsOptionOffer intent.fallible_unshielded_offer
    × (intent.ttl < 2 ^ 32)
    × All IsAction intent.actions
    × (length intent.actions < 256 ^ 67)
    × (length intent.binding_commitment ≡ 32)

abbrev pub IsSegment : ℕ × Intent → Type 0
IsSegment s = (s.0 < 2 ^ 32) × IsIntent s.1
