-- ===== src/Lib.antt =====
-- Noxipher: the core of a Python SDK for the Midnight network (src/noxipher), as functions whose
-- results and raises are values.
--
-- The parts, and the modules that model them:
-- - Core: exceptions as the data type of src/noxipher/core/exceptions.py and the Result of a
--   call; the networks of src/noxipher/core/config.py.
-- - Address: src/noxipher/address/bech32m.py and src/noxipher/address/validator.py. Polymod and
--   Checksum are the BCH code of Bech32m, ConvertBits the regrouping of bits, Bech32m the
--   strings, Codec the prefix table, encode_address, decode_address and the validators.
-- - Crypto: src/noxipher/crypto/fields.py, src/noxipher/crypto/poseidon.py with its constants,
--   src/noxipher/crypto/curves.py, src/noxipher/crypto/jubjub.py (the binding commitment in
--   Curves, the keys in Hash) and sample_bytes of src/noxipher/crypto/hash.py.
-- - Zswap: src/noxipher/zswap/notes.py, src/noxipher/zswap/state.py and
--   src/noxipher/zswap/pool.py: coin notes, the sparse Merkle tree of commitments and the local
--   list of coins.
-- - Crypto.Keys: src/noxipher/crypto/keys.py, the derivation of the path m/44'/2400'/account'/role
--   /index, the signer and the spending key.
-- - Wallet: src/noxipher/wallet/*.py as far as the builder uses it, how a wallet is opened from a
--   mnemonic (Opening), its balance (UnshieldedBalance), its synchronisation (Sync), the encrypted
--   keystore (Keystore), and the UTXOs that the indexer reports.
-- - Tx: src/noxipher/tx/scale.py, the byte formats (Compact, Structures, Transaction), and of
--   src/noxipher/tx/builder.py the unshielded transfer (Builder), the shielded one (Shielded),
--   _serialize_transaction (Envelope, Signing, Serialize), the polling for a receipt (Receipt), what it
--   reads of the indexer's transactions (Polling), and the entry points that join these with the
--   prover and the node (Entry).
-- - Proof: prove_transaction of src/noxipher/proof/prover.py (Prover) and the requests of
--   src/noxipher/proof/client.py (Client).
-- - Node: src/noxipher/node/client.py, the connection as a state (Connection), the queries (Rpc),
--   the submission of a transaction and the look into the metadata.
-- - Indexer: the queries of src/noxipher/indexer/client.py and their retries (Client), the documents
--   of queries.py, mutations.py and subscriptions.py as the names that they select (Documents), and
--   the models of models.py as the fields that they declare (Models).
-- - Client: src/noxipher/core/client.py, which opens and closes the clients, and its health report.
-- - Dapp: balance_transaction of src/noxipher/dapp/connector.py, and the submission (Submission).
-- - Contract: src/noxipher/contract/compact.py (Compact), instance.py and service.py (Instance).
--
-- A text is the list of its code points, a byte string the list of its bytes, an int a natural
-- number; the amount and the fee of an unshielded transfer are integers (Prelude.Integers), and
-- where the source tells a negative int apart the model has a constructor or a flag for it.
-- A dict with fixed keys is a record, a missing key an Option. An object that the source changes
-- in place is returned, together with the result of the call where the call can raise.
--
-- Loops: Python's own pow, written as square and multiply, and the double-and-add loop run on
-- 256 rounds, which the bits of their arguments do not exceed (pow_mod_lem,
-- mul_point_terminates); the byte loop of encode_scale_int runs on its own value, which each
-- round divides by 256; sample_bytes on the number of bytes wanted (length-sample_bytes); the
-- polling on the seconds of its timeout (wait_for_receipt_ends). Other loops are structural.
--
-- Not modelled: logging, the web sockets of the subscriptions, conversions by floating point; in
-- _serialize_transaction a segment's key is the number that its text writes, so that a text that
-- is no number, and two texts of one number, have no place in the model. The index of a leaf,
-- which MerkleTree.insert does not refuse below 0, and the amount of a shielded transfer are
-- from 0 on. The functions of other libraries are parameters: pydantic's validation (the record
-- Pydantic), SHA-256, HMAC, BLAKE2b, PBKDF2 and the word list, the sr25519 bindings, Argon2id
-- and AES-GCM, and the interface of the substrate library; the answers of the indexer, the proof
-- server and the node are arguments (the record Services), and so is what the file system holds.
-- The readers of Tx.CompactRoundTrip, Tx.OfferRoundTrip, Tx.Readers and Tx.Written and the
-- complete tree of Zswap.Levels are not code of the package: they are the specifications that
-- its code is compared with.
pub mod Prelude
pub mod Core
pub mod Address
pub mod Crypto
pub mod Zswap
pub mod Wallet
pub mod Proof
pub mod Tx
pub mod Contract
pub mod Dapp
pub mod Node
pub mod Indexer
pub mod Client
