-- ===== src/Core/Config.antt =====
-- src/noxipher/core/config.py: the networks and how each is reached.
use noxipher.Prelude.{
  ℕ, zero, suc, Bool, true, ◌≡◌, refl, sym, ap, ◌∙◌, List, Option, none, some, codes, ◌==◌, ==_iff,
  ==_refl,
}

pub data Network : Type 0 where
  mainnet testnet preprod preview devnet local undeployed : Network

pub record NetworkConfig : Type 0 where
  pub name : List ℕ
  pub network : Network
  pub node_ws_url : List ℕ
  pub indexer_ws_url : List ℕ
  pub indexer_http_url : List ℕ
  pub proof_server_url : List ℕ
  pub hosted_proof_server_url : Option (List ℕ)
  pub coin_type : ℕ
  pub min_fee : ℕ

-- The string that a member of the enumeration is.
unfoldable pub network_value : Network → List ℕ
network_value mainnet = codes "mainnet"
network_value testnet = codes "testnet"
network_value preprod = codes "preprod"
network_value preview = codes "preview"
network_value devnet = codes "devnet"
network_value local = codes "local"
network_value undeployed = codes "undeployed"

-- `NETWORK_CONFIGS`, with the defaults of the fields `coin_type` and `min_fee`.
unfoldable pub network_configs : Network → NetworkConfig
network_configs mainnet = record {
  name = codes "Midnight Mainnet";
  network = mainnet;
  node_ws_url = codes "wss://rpc.midnight.network";
  indexer_ws_url = codes "wss://indexer.midnight.network/api/v4/graphql";
  indexer_http_url = codes "https://indexer.midnight.network/api/v4/graphql";
  proof_server_url = codes "http://localhost:6300";
  hosted_proof_server_url = some (codes "https://proof.mainnet.midnight.network");
  coin_type = 877;
  min_fee = 10_000;
}
network_configs preview = record {
  name = codes "Midnight Preview";
  network = preview;
  node_ws_url = codes "wss://rpc.preview.midnight.network";
  indexer_ws_url = codes "wss://indexer.preview.midnight.network/api/v4/graphql";
  indexer_http_url = codes "https://indexer.preview.midnight.network/api/v4/graphql";
  proof_server_url = codes "http://localhost:6300";
  hosted_proof_server_url = none;
  coin_type = 877;
  min_fee = 10_000;
}
network_configs preprod = record {
  name = codes "Midnight Preprod";
  network = preprod;
  node_ws_url = codes "wss://rpc.preprod.midnight.network";
  indexer_ws_url = codes "wss://indexer.preprod.midnight.network/api/v4/graphql";
  indexer_http_url = codes "https://indexer.preprod.midnight.network/api/v4/graphql";
  proof_server_url = codes "http://localhost:6300";
  hosted_proof_server_url = none;
  coin_type = 877;
  min_fee = 10_000;
}
network_configs testnet = record {
  name = codes "Midnight Testnet";
  network = testnet;
  node_ws_url = codes "wss://rpc.testnet.midnight.network";
  indexer_ws_url = codes "wss://indexer.testnet.midnight.network/api/v4/graphql";
  indexer_http_url = codes "https://indexer.testnet.midnight.network/api/v4/graphql";
  proof_server_url = codes "http://localhost:6300";
  hosted_proof_server_url = none;
  coin_type = 877;
  min_fee = 10_000;
}
network_configs devnet = record {
  name = codes "Midnight Devnet";
  network = devnet;
  node_ws_url = codes "wss://rpc.devnet.midnight.network";
  indexer_ws_url = codes "wss://indexer.devnet.midnight.network/api/v4/graphql";
  indexer_http_url = codes "https://indexer.devnet.midnight.network/api/v4/graphql";
  proof_server_url = codes "http://localhost:6300";
  hosted_proof_server_url = none;
  coin_type = 877;
  min_fee = 10_000;
}
network_configs local = record {
  name = codes "Midnight Local";
  network = local;
  node_ws_url = codes "ws://127.0.0.1:9944";
  indexer_ws_url = codes "ws://127.0.0.1:8088/api/v4/graphql";
  indexer_http_url = codes "http://127.0.0.1:8088/api/v4/graphql";
  proof_server_url = codes "http://localhost:6300";
  hosted_proof_server_url = none;
  coin_type = 877;
  min_fee = 10_000;
}
network_configs undeployed = record {
  name = codes "Midnight Undeployed";
  network = undeployed;
  node_ws_url = codes "ws://localhost:9944";
  indexer_ws_url = codes "ws://localhost:8088/api/v4/graphql";
  indexer_http_url = codes "http://localhost:8088/api/v4/graphql";
  proof_server_url = codes "http://localhost:6300";
  hosted_proof_server_url = none;
  coin_type = 877;
  min_fee = 10_000;
}

-- Members are compared by their place in the enumeration.
unfoldable pub network_index : Network → ℕ
network_index mainnet = 0
network_index testnet = 1
network_index preprod = 2
network_index preview = 3
network_index devnet = 4
network_index local = 5
network_index undeployed = 6

unfoldable pub network_eq : Network → Network → Bool
unfolding network_index
network_eq a b = network_index a == network_index b

member_at : ℕ → Network
member_at zero = mainnet
member_at (suc zero) = testnet
member_at (suc (suc zero)) = preprod
member_at (suc (suc (suc zero))) = preview
member_at (suc (suc (suc (suc zero)))) = devnet
member_at (suc (suc (suc (suc (suc zero))))) = local
member_at _ = undeployed

member_at-index : (n : Network) → member_at (network_index n) ≡ n
unfolding member_at network_index
member_at-index mainnet = refl
member_at-index testnet = refl
member_at-index preprod = refl
member_at-index preview = refl
member_at-index devnet = refl
member_at-index local = refl
member_at-index undeployed = refl

pub network_eq→eq : (a b : Network) → network_eq a b ≡ true → a ≡ b
unfolding network_eq
network_eq→eq a b h = sym (member_at-index a) ∙ ap member_at ((==_iff _ _).0 h) ∙ member_at-index b

pub network_eq_refl : (a : Network) → network_eq a a ≡ true
unfolding network_eq
network_eq_refl a = ==_refl (network_index a)
