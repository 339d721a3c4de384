-- ===== src/Tx/ShieldedTests.antt =====
-- Shielded transfers of src/noxipher/tx/builder.py on a wallet with two coins.
use noxipher.Prelude.{ℕ, ◌≡◌, ◌≤◌, List, [], ◌∷◌, none, replicate, arith, list_eq, codes}
use noxipher.Core.Exceptions.{ok, err, transaction_error}
use noxipher.Address.Tests.{three_bytes, dust_text, dust_text-decoded}
use noxipher.Zswap.Notes.{ShieldedCoinNote}
use noxipher.Core.Config.{preprod}
use noxipher.Zswap.MerkleTree.{new_tree}
use noxipher.Zswap.Root.{new_tree-IsTree}
use noxipher.Tx.ShieldedSuccess.{build_shielded_transfer_succeeds}
use noxipher.Zswap.State.{ZswapState}
use noxipher.Wallet.Wallets.{ShieldedWallet}
use noxipher.Tx.Shielded.{Circuit, build_shielded_transfer}
use noxipher.Tx.ShieldedConservation.{
  value_in, value_out, build_shielded_transfer_conserves, build_shielded_transfer_insufficient,
}

abbrev coin : ℕ → ℕ → ShieldedCoinNote
coin value index = record {
  token_type = replicate 32 0;
  value = value;
  nonce = replicate 32 1;
  owner_pk = replicate 32 2;
  merkle_tree_index = index;
  tx_hash = none;
}

abbrev state : ZswapState
state = record {
  unspent_coins = coin 300 0 ∷ coin 500 1 ∷ [];
  spent_nullifiers = [];
  last_synced_height = 0;
  merkle_tree = new_tree 2;
}

abbrev wallet : ShieldedWallet
wallet = record {
  coin_secret_key = replicate 32 3;
  coin_public_key = replicate 32 4;
  encryption_public_key = [];
  address = [];
}

build_shielded_transfer_insufficient_example :
    build_shielded_transfer wallet state dust_text 900 (replicate 32 0) [] []
    ≡ err transaction_error
unfolding list_eq
build_shielded_transfer_insufficient_example =
    build_shielded_transfer_insufficient wallet state dust_text 900 (replicate 32 0) [] []
      (omega arith)

build_shielded_transfer_succeeds_example :
    (circuits : List Circuit) × (build_shielded_transfer wallet state dust_text 600
        (replicate 32 0)
        []
        []
      ≡ ok circuits)
unfolding list_eq new_tree
build_shielded_transfer_succeeds_example =
    build_shielded_transfer_succeeds wallet state dust_text 600 (replicate 32 0) [] []
      (codes "dust", preprod, three_bytes) (new_tree-IsTree 2) (omega arith, (omega arith, tt))
      (omega arith) dust_text-decoded

transfer :
    (circuits : List Circuit) × (build_shielded_transfer wallet state dust_text 600
        (replicate 32 0)
        []
        []
      ≡ ok circuits)
unfolding list_eq new_tree
transfer =
    build_shielded_transfer_succeeds wallet state dust_text 600 (replicate 32 0) [] []
      (codes "dust", preprod, three_bytes) (new_tree-IsTree 2) (omega arith, (omega arith, tt))
      (omega arith) dust_text-decoded

build_shielded_transfer_conserves_example :
    (value_in transfer.0 ≡ value_out transfer.0) × (600 ≤ value_out transfer.0)
build_shielded_transfer_conserves_example =
    build_shielded_transfer_conserves wallet state dust_text 600 (replicate 32 0) [] [] transfer.0
      transfer.1
