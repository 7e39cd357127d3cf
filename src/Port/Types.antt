-- ===== src/Port/Types.antt =====
-- The port structures of pkg/contracts/system_update_port_v2.go and types_system_updates.go. Go's
-- int and int64 are ℤ, a pointer is an Option, a named string type is String with its constants,
-- and a time is a number of nanoseconds whose zero is Go's zero time.
use autostream_contracts.Common.{
  String, Bool, true, ◌&&◌, ◌≡◌, ◌↔◌, Option, arith, eq_iff, ℤ, ℤ_eq, String_eq, Option_eq, Eq,
  ◌==◌, beq_ℤ_iff, option_beq_iff,
}

abbrev pub Timestamp : Type 0
Timestamp = ℤ

pub record SystemUpdatePortDockerSnapshot : Type 0 where
  pub published_host_ip : String
  pub published_port : ℤ
  pub container_port : ℤ
  pub health_port : ℤ
  pub compose_policy_sha256 : String
  pub compose_revision : ℤ
  pub version_env_sha256 : String
  pub image_id : String
  pub repository_digest : String

-- `reflect.DeepEqual` on the structure.
abbrev pub docker_beq : SystemUpdatePortDockerSnapshot → SystemUpdatePortDockerSnapshot → Bool
docker_beq a b =
    a.published_host_ip == b.published_host_ip
    && a.published_port == b.published_port
    && a.container_port == b.container_port
    && a.health_port == b.health_port
    && a.compose_policy_sha256 == b.compose_policy_sha256
    && a.compose_revision == b.compose_revision
    && a.version_env_sha256 == b.version_env_sha256
    && a.image_id == b.image_id
    && a.repository_digest == b.repository_digest

pub docker_beq_iff : (a b : SystemUpdatePortDockerSnapshot) → (docker_beq a b ≡ true) ↔ (a ≡ b)
docker_beq_iff a b = ground (
  arith,
  eq_iff a.published_host_ip b.published_host_ip,
  beq_ℤ_iff a.published_port b.published_port,
  beq_ℤ_iff a.container_port b.container_port,
  beq_ℤ_iff a.health_port b.health_port,
  eq_iff a.compose_policy_sha256 b.compose_policy_sha256,
  beq_ℤ_iff a.compose_revision b.compose_revision,
  eq_iff a.version_env_sha256 b.version_env_sha256,
  eq_iff a.image_id b.image_id,
  eq_iff a.repository_digest b.repository_digest,
)

instance abbrev pub docker_eq : Eq SystemUpdatePortDockerSnapshot
docker_eq = record { beq = docker_beq; beq_iff = docker_beq_iff }

-- `reflect.DeepEqual` on two pointers to it. It stays shut in the comparison below.
unfoldable pub docker_pointer_beq :
    Option SystemUpdatePortDockerSnapshot → Option SystemUpdatePortDockerSnapshot → Bool
docker_pointer_beq a b = a == b

docker_pointer_beq_iff :
    (a b : Option SystemUpdatePortDockerSnapshot) → (docker_pointer_beq a b ≡ true) ↔ (a ≡ b)
unfolding docker_pointer_beq
docker_pointer_beq_iff a b = option_beq_iff a b

-- Verified applied state: `endpoint_revision` is the desired endpoint counter,
-- `applied_endpoint_revision` that of the root policy.
pub record SystemUpdatePortSnapshotRef : Type 0 where
  pub snapshot_id : String
  pub snapshot_sha256 : String
  pub source_policy_revision : ℤ
  pub projection_revision : ℤ
  pub executor_policy_revision : ℤ
  pub executor_policy_sha256 : String
  pub endpoint_revision : ℤ
  pub applied_endpoint_revision : ℤ
  pub config_revision : ℤ
  pub config_sha256 : String
  pub advertised_port : ℤ
  pub advertised_endpoint_sha256 : String
  pub local_listen_port : ℤ
  pub docker : Option SystemUpdatePortDockerSnapshot

abbrev pub snapshot_ref_beq : SystemUpdatePortSnapshotRef → SystemUpdatePortSnapshotRef → Bool
snapshot_ref_beq a b =
    a.snapshot_id == b.snapshot_id
    && a.snapshot_sha256 == b.snapshot_sha256
    && a.source_policy_revision == b.source_policy_revision
    && a.projection_revision == b.projection_revision
    && a.executor_policy_revision == b.executor_policy_revision
    && a.executor_policy_sha256 == b.executor_policy_sha256
    && a.endpoint_revision == b.endpoint_revision
    && a.applied_endpoint_revision == b.applied_endpoint_revision
    && a.config_revision == b.config_revision
    && a.config_sha256 == b.config_sha256
    && a.advertised_port == b.advertised_port
    && a.advertised_endpoint_sha256 == b.advertised_endpoint_sha256
    && a.local_listen_port == b.local_listen_port
    && docker_pointer_beq a.docker b.docker

abbrev SameFields : SystemUpdatePortSnapshotRef → SystemUpdatePortSnapshotRef → Type 0
SameFields a b =
    (a.snapshot_id ≡ b.snapshot_id)
    × (a.snapshot_sha256 ≡ b.snapshot_sha256)
    × (a.source_policy_revision ≡ b.source_policy_revision)
    × (a.projection_revision ≡ b.projection_revision)
    × (a.executor_policy_revision ≡ b.executor_policy_revision)
    × (a.executor_policy_sha256 ≡ b.executor_policy_sha256)
    × (a.endpoint_revision ≡ b.endpoint_revision)
    × (a.applied_endpoint_revision ≡ b.applied_endpoint_revision)
    × (a.config_revision ≡ b.config_revision)
    × (a.config_sha256 ≡ b.config_sha256)
    × (a.advertised_port ≡ b.advertised_port)
    × (a.advertised_endpoint_sha256 ≡ b.advertised_endpoint_sha256)
    × (a.local_listen_port ≡ b.local_listen_port)
    × (a.docker ≡ b.docker)

same_fields : (a b : SystemUpdatePortSnapshotRef) → snapshot_ref_beq a b ≡ true → SameFields a b
same_fields a b h = grind (arith, eq_iff, beq_ℤ_iff, docker_pointer_beq_iff)

equal_of_SameFields : (a b : SystemUpdatePortSnapshotRef) → SameFields a b → a ≡ b
equal_of_SameFields a b h = cc

snapshot_ref_beq_refl : (a : SystemUpdatePortSnapshotRef) → snapshot_ref_beq a a ≡ true
snapshot_ref_beq_refl a = grind (arith, eq_iff, beq_ℤ_iff, docker_pointer_beq_iff)

pub snapshot_ref_beq_iff :
    (a b : SystemUpdatePortSnapshotRef) → (snapshot_ref_beq a b ≡ true) ↔ (a ≡ b)
snapshot_ref_beq_iff a b =
    (λ h. equal_of_SameFields a b (same_fields a b h), λ e. rw (← e) (snapshot_ref_beq_refl a))

instance abbrev pub snapshot_ref_eq : Eq SystemUpdatePortSnapshotRef
snapshot_ref_eq = record { beq = snapshot_ref_beq; beq_iff = snapshot_ref_beq_iff }

pub record SystemUpdatePortDockerBaseline : Type 0 where
  pub expected_container_id : String
  pub expected_image_id : String
  pub expected_repository_digest : String
  pub expected_version_env_sha256 : String
  pub approved_compose_config_sha256 : String
  pub approved_compose_revision : ℤ

pub record SystemUpdatePortObservation : Type 0 where
  pub policy_disk_verified : Bool
  pub policy_memory_verified : Bool
  pub agent_projection_verified : Bool
  pub listener_verified : Bool
  pub observed_at : Timestamp

pub record SystemUpdatePortRuntimeInstance : Type 0 where
  pub container_id : String
  pub image_id : String
  pub repository_digest : String

pub record SystemUpdatePortResultV2 : Type 0 where
  pub result : String
  pub observed_snapshot_id : String
  pub observed_snapshot_sha256 : String
  pub observed_config_revision : ℤ
  pub observed_config_sha256 : String
  pub observed_executor_policy_revision : ℤ
  pub observed_executor_policy_sha256 : String
  pub observation : SystemUpdatePortObservation
  pub runtime_instance : Option SystemUpdatePortRuntimeInstance

-- The legacy Docker part of a plan.
pub record SystemUpdateDockerPortReconfiguration : Type 0 where
  pub published_host_ip : String
  pub old_published_port : ℤ
  pub new_published_port : ℤ
  pub old_container_port : ℤ
  pub new_container_port : ℤ
  pub old_health_port : ℤ
  pub new_health_port : ℤ
  pub approved_compose_config_sha256 : String
  pub approved_compose_revision : ℤ
  pub expected_version_env_sha256 : String
  pub expected_container_id : String
  pub expected_image_id : String
  pub expected_repository_digest : String

-- A plan: version 2 has `before`, `target` and `rollback`; the flat fields are the legacy plan's.
pub record SystemUpdatePortReconfiguration : Type 0 where
  pub port_contract_version : ℤ
  pub mode : String
  pub before : Option SystemUpdatePortSnapshotRef
  pub target : Option SystemUpdatePortSnapshotRef
  pub rollback : Option SystemUpdatePortSnapshotRef
  pub docker_baseline : Option SystemUpdatePortDockerBaseline
  pub network_namespace : String
  pub protocol : String
  pub old_port : ℤ
  pub new_port : ℤ
  pub expected_endpoint_revision : ℤ
  pub target_endpoint_revision : ℤ
  pub expected_config_revision : ℤ
  pub target_config_revision : ℤ
  pub expected_config_sha256 : String
  pub target_config_sha256 : String
  pub expected_source_policy_revision : ℤ
  pub expected_updater_policy_revision : ℤ
  pub expected_executor_policy_revision : ℤ
  pub expected_executor_policy_sha256 : String
  pub port_plan_sha256 : String
  pub docker : Option SystemUpdateDockerPortReconfiguration
  pub result : String
