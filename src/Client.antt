-- ===== src/Client.antt =====
-- `NoxipherClient` of src/noxipher/core/client.py, with the health report of core/health.py. What
-- the health check of the proof server answers, and whether the indexer answers for block 0, are
-- parameters; entering the indexer and the proof client only makes their HTTP clients.
use noxipher.Prelude.{
  ℕ, ◌≡◌, refl, Bool, true, false, ◌&&◌, ◌||◌, List, Option, none, some, codes, list_eq,
  if◌then◌else◌,
}
use noxipher.Core.Exceptions.{Result, ok, err}
use noxipher.Core.Config.{Network, NetworkConfig, network_configs}
use noxipher.Node.Json.{Builtins}
use noxipher.Node.Connection.{Substrate, NodeClient, new_client, connect, disconnect}
use noxipher.Node.Rpc.{get_health}
use noxipher.Indexer.Client.{IndexerClient, new_indexer, enter, exit}
use noxipher.Proof.Client.{
  ProofServerClient, new_proof_client, enter_proof_client, exit_proof_client,
}

pub record NoxipherClient : Type 0 where
  pub config : NetworkConfig
  pub node : NodeClient
  pub indexer : IndexerClient
  pub proof : ProofServerClient

unfoldable pub config_or : Network → Option NetworkConfig → NetworkConfig
config_or network none = network_configs network
config_or network (some custom_config) = custom_config

unfoldable pub new_noxipher_client : Network → Option NetworkConfig → NoxipherClient
new_noxipher_client network custom_config = record {
  config = config_or network custom_config;
  node = new_client (config_or network custom_config).node_ws_url;
  indexer = new_indexer;
  proof = new_proof_client (config_or network custom_config).proof_server_url;
}

-- The indexer and the proof client are entered only behind a node that was reached.
unfoldable pub enter_all :
    NoxipherClient → NodeClient × Result (Unit {0}) → NoxipherClient × Result (Unit {0})
enter_all client (node, err e) = (record client { node = node }, err e)
enter_all client (node, ok u) = (
  record client {
    node = node;
    indexer = enter client.indexer;
    proof = enter_proof_client client.proof;
  },
  ok u,
)

unfoldable pub connect_all :
    Bool → (List ℕ → Result Substrate) → NoxipherClient → NoxipherClient × Result (Unit {0})
connect_all available open_interface client =
    enter_all client (connect available open_interface client.node)

-- The HTTP clients are closed, and kept.
unfoldable pub disconnect_all : NoxipherClient → NoxipherClient
disconnect_all client = record client {
  node = disconnect client.node;
  indexer = exit client.indexer;
  proof = exit_proof_client client.proof;
}

pub data HealthStatus : Type 0 where
  ok_ degraded down : HealthStatus

pub record ProofHealth : Type 0 where
  pub version : Option (List ℕ)
  pub status : Option (List ℕ)

-- `details` holds the node's answer and the proof server's.
pub record ServiceHealth : Type 0 where
  pub status : HealthStatus
  pub node_connected : Bool
  pub indexer_connected : Bool
  pub proof_server_connected : Bool
  pub node_details : Option (List ℕ)
  pub proof_details : ProofHealth

-- `except Exception: proof_health = {}`
unfoldable pub proof_health_or_empty : Result ProofHealth → ProofHealth
proof_health_or_empty (ok health) = health
proof_health_or_empty (err e) = record { version = none; status = none }

abbrev pub is_some {ℓ} : {A : Type ℓ} → Option A → Bool
is_some none = false
is_some (some a) = true

abbrev pub is_ok {ℓ} : {A : Type ℓ} → Result A → Bool
is_ok (ok a) = true
is_ok (err e) = false

unfoldable pub is_status_ok : Option (List ℕ) → Bool
is_status_ok none = false
is_status_ok (some status) = list_eq status (codes "ok")

unfoldable pub check_health {ℓ} :
    {Block : Type ℓ} → Builtins → Result ProofHealth → Result Block → NoxipherClient → ServiceHealth
check_health py proof_answer block client =
    let node_health = get_health py client.node in
    let proof_health = proof_health_or_empty proof_answer in
    record {
      status = if is_some node_health && is_ok block then ok_ else down;
      node_connected = is_some node_health;
      indexer_connected = is_ok block;
      proof_server_connected = is_some proof_health.version || is_status_ok proof_health.status;
      node_details = node_health;
      proof_details = proof_health;
    }

-- The report is good exactly when the node and the indexer answer, whatever the proof server does;
-- it is never degraded.
check_health_status {ℓ} :
    {Block : Type ℓ} (py : Builtins) (proof_answer : Result ProofHealth) (block : Result Block)
    (client : NoxipherClient)
    → let health = check_health py proof_answer block client in
      health.status ≡ (if health.node_connected && health.indexer_connected then ok_ else down)
unfolding check_health
check_health_status py proof_answer block client = refl
