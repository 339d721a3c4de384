-- ===== src/Dapp/Submission.antt =====
-- `submit_transaction` and the public keys of src/noxipher/dapp/connector.py.
use noxipher.Prelude.{ℕ, List}
use noxipher.Core.Exceptions.{Result, ◌>>=◌}
use noxipher.Wallet.Hex.{hex}
use noxipher.Wallet.Wallets.{MidnightWallet}
use noxipher.Node.Json.{Builtins}
use noxipher.Node.Connection.{NodeClient}
use noxipher.Node.Submission.{submit_extrinsic}
use noxipher.Tx.Envelope.{TxData}
use noxipher.Tx.Serialize.{serialize_tx}

unfoldable pub get_coin_public_key : MidnightWallet → List ℕ
get_coin_public_key wallet = hex wallet.shielded.coin_public_key

unfoldable pub get_encryption_public_key : MidnightWallet → List ℕ
get_encryption_public_key wallet = hex wallet.shielded.encryption_public_key

-- The network's name is that of the client's configuration, `rnd` what `secrets` gives.
unfoldable pub submit_transaction :
    Builtins → NodeClient → List ℕ → List ℕ → TxData → MidnightWallet → Result (List ℕ)
submit_transaction py node network_name rnd finalized_tx wallet = do
  raw_bytes ← serialize_tx network_name rnd finalized_tx wallet
  submit_extrinsic py node raw_bytes
