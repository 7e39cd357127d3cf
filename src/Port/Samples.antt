-- ===== src/Port/Samples.antt =====
-- Test data: a hash of 32 zero bytes, and plans with their digests under it.
use autostream_contracts.Common.{
  ℕ, refl, ◌<◌, String, true, List, [], ◌∷◌, none, some, pos, arith, All,
}
use autostream_contracts.Text.Digest.{Sha256}
use autostream_contracts.Port.Types.{
  SystemUpdatePortSnapshotRef, SystemUpdatePortObservation, SystemUpdatePortResultV2,
  SystemUpdatePortReconfiguration,
}
use autostream_contracts.Port.Create.{SystemUpdatePortCreateRequestV2}
use autostream_contracts.Port.Mode
use autostream_contracts.Port.Outcome

abbrev zeros : List ℕ
zeros =
    0 ∷ 0 ∷ 0 ∷ 0 ∷ 0 ∷ 0 ∷ 0 ∷ 0 ∷ 0 ∷ 0 ∷ 0 ∷ 0 ∷ 0 ∷ 0 ∷ 0 ∷ 0 ∷ 0 ∷ 0 ∷ 0 ∷ 0 ∷ 0 ∷ 0 ∷ 0 ∷ 0
    ∷ 0 ∷ 0 ∷ 0 ∷ 0 ∷ 0 ∷ 0 ∷ 0 ∷ 0 ∷ []

zeros_bytes : All (λ b. b < 256) zeros
zeros_bytes = omega arith

pub sha_bytes : (payload : String) → All (λ b. b < 256) zeros
sha_bytes payload = zeros_bytes

abbrev pub zero_sha : Sha256
zero_sha = record {
  sum256 = λ payload. zeros;
  sum256_length = λ payload. refl;
  sum256_bytes = sha_bytes;
}

abbrev pub raw_zero : String
raw_zero = "0000000000000000000000000000000000000000000000000000000000000000"

abbrev pub digest_a : String
digest_a = "sha256:aaaaaaaaaaaaaaaaaaaaaaaaaaaaaaaaaaaaaaaaaaaaaaaaaaaaaaaaaaaaaaaa"

abbrev pub digest_b : String
digest_b = "sha256:bbbbbbbbbbbbbbbbbbbbbbbbbbbbbbbbbbbbbbbbbbbbbbbbbbbbbbbbbbbbbbbb"

abbrev pub digest_c : String
digest_c = "sha256:cccccccccccccccccccccccccccccccccccccccccccccccccccccccccccccccc"

abbrev pub before : SystemUpdatePortSnapshotRef
before = record {
  snapshot_id = "ps1:aaaaaaaaaaaaaaaaaaaaaaaaaaaaaaaaaaaaaaaaaaaaaaaaaaaaaaaaaaaaaaaa";
  snapshot_sha256 = digest_a;
  source_policy_revision = pos 10;
  projection_revision = pos 20;
  executor_policy_revision = pos 30;
  executor_policy_sha256 = digest_a;
  endpoint_revision = pos 5;
  applied_endpoint_revision = pos 5;
  config_revision = pos 7;
  config_sha256 = digest_a;
  advertised_port = pos 443;
  advertised_endpoint_sha256 = digest_a;
  local_listen_port = pos 8080;
  docker = none;
}

abbrev pub target : SystemUpdatePortSnapshotRef
target = record before {
  snapshot_id = "ps1:bbbbbbbbbbbbbbbbbbbbbbbbbbbbbbbbbbbbbbbbbbbbbbbbbbbbbbbbbbbbbbbb";
  snapshot_sha256 = digest_b;
  source_policy_revision = pos 11;
  projection_revision = pos 21;
  executor_policy_revision = pos 31;
  executor_policy_sha256 = digest_b;
  config_revision = pos 8;
  config_sha256 = digest_b;
  local_listen_port = pos 9090;
}

abbrev pub rollback : SystemUpdatePortSnapshotRef
rollback = record before {
  snapshot_id = "ps1:cccccccccccccccccccccccccccccccccccccccccccccccccccccccccccccccc";
  snapshot_sha256 = digest_c;
  source_policy_revision = pos 12;
  projection_revision = pos 22;
  executor_policy_revision = pos 32;
  executor_policy_sha256 = digest_c;
  config_revision = pos 9;
  config_sha256 = digest_c;
}

-- A change of the local port from 8080 to 9090.
abbrev pub local_plan : SystemUpdatePortReconfiguration
local_plan = record {
  port_contract_version = pos 2;
  mode = Mode.local_only;
  before = some before;
  target = some target;
  rollback = some rollback;
  docker_baseline = none;
  network_namespace = "host";
  protocol = "tcp";
  old_port = pos 0;
  new_port = pos 0;
  expected_endpoint_revision = pos 0;
  target_endpoint_revision = pos 0;
  expected_config_revision = pos 0;
  target_config_revision = pos 0;
  expected_config_sha256 = "";
  target_config_sha256 = "";
  expected_source_policy_revision = pos 0;
  expected_updater_policy_revision = pos 0;
  expected_executor_policy_revision = pos 0;
  expected_executor_policy_sha256 = "";
  port_plan_sha256 = raw_zero;
  docker = none;
  result = "";
}

abbrev pub verified : SystemUpdatePortObservation
verified = record {
  policy_disk_verified = true;
  policy_memory_verified = true;
  agent_projection_verified = true;
  listener_verified = true;
  observed_at = pos 1000;
}

abbrev pub applied_result : SystemUpdatePortResultV2
applied_result = record {
  result = Outcome.applied;
  observed_snapshot_id = target.snapshot_id;
  observed_snapshot_sha256 = digest_b;
  observed_config_revision = pos 8;
  observed_config_sha256 = digest_b;
  observed_executor_policy_revision = pos 31;
  observed_executor_policy_sha256 = digest_b;
  observation = verified;
  runtime_instance = none;
}

-- The same state, observed again.
abbrev pub later_result : SystemUpdatePortResultV2
later_result = record applied_result { observation = record verified { observed_at = pos 2000 } }

abbrev pub create_request : SystemUpdatePortCreateRequestV2
create_request = record {
  protocol_version = pos 2;
  operation = "port_reconfigure";
  port_contract_version = pos 2;
  mode = Mode.local_only;
  target_id = "worker-1";
  expected_snapshot_id = before.snapshot_id;
  expected_endpoint_revision = pos 5;
  desired_revision = pos 8;
  fence = pos 3;
  required_capability = "host.port";
  idempotency_key = "key-1";
  new_local_listen_port = some (pos 9090);
  new_advertised_port = none;
  new_published_port = none;
  new_container_port = none;
}
