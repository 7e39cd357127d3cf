-- ===== src/Port/Plan.antt =====
-- `ValidateSystemUpdatePortPlan`, `SystemUpdatePortPlanIsNoOp` and
-- `ComputeSystemUpdatePortPlanSHA256` of pkg/contracts/system_update_port_v2.go.
pub mod View
pub mod Moves
pub mod Transition
use autostream_contracts.Common.{
  String, Bool, true, false, not, ◌&&◌, ◌||◌, Option, none, some, ℤ, pos, add64, ◌==◌, ℤ_eq,
  String_eq, is_nil, if◌then◌else◌, Check, Result, ok, err, pass, require, ◌>>=◌, ◌>>◌,
  system_update_port_contract,
}
use autostream_contracts.Text.{matches_raw_sha256, trim_prefix, valid_container_id}
use autostream_contracts.Text.Digest.{Sha256, compute_bytes_sha256}
use autostream_contracts.Json.Canonical.{canonical}
use autostream_contracts.Port.Types.{
  SystemUpdatePortDockerSnapshot, SystemUpdatePortSnapshotRef, SystemUpdatePortDockerBaseline,
  SystemUpdatePortReconfiguration, snapshot_ref_eq,
}
use autostream_contracts.Port.Mode
use autostream_contracts.Port.Snapshot.{valid_snapshot_ref, local_equal}
use autostream_contracts.Port.Wire.{plan_json}

abbrev three_equal :
    Option SystemUpdatePortSnapshotRef
    → Option SystemUpdatePortSnapshotRef
    → Option SystemUpdatePortSnapshotRef
    → Bool
three_equal (some b) (some t) (some r) = b == t && b == r
three_equal _ _ _ = false

-- `SystemUpdatePortPlanIsNoOp`
unfoldable pub plan_is_no_op : SystemUpdatePortReconfiguration → Bool
plan_is_no_op plan =
    plan.port_contract_version == pos 2 && three_equal plan.before plan.target plan.rollback

-- The first test of `ValidateSystemUpdatePortPlan`, less the tests of the three references for nil.
unfoldable pub plan_fields : SystemUpdatePortReconfiguration → Bool
plan_fields plan =
    plan.port_contract_version == pos 2
    && (plan.mode == Mode.local_only || plan.mode == Mode.local_and_advertised)
    && plan.network_namespace == "host"
    && plan.protocol == "tcp"
    && plan.result == ""
    && is_nil plan.docker
    && plan.old_port == pos 0
    && plan.new_port == pos 0
    && plan.expected_endpoint_revision == pos 0
    && plan.target_endpoint_revision == pos 0
    && plan.expected_config_revision == pos 0
    && plan.target_config_revision == pos 0
    && plan.expected_config_sha256 == ""
    && plan.target_config_sha256 == ""
    && plan.expected_source_policy_revision == pos 0
    && plan.expected_updater_policy_revision == pos 0
    && plan.expected_executor_policy_revision == pos 0
    && plan.expected_executor_policy_sha256 == ""
    && matches_raw_sha256 plan.port_plan_sha256

-- The baseline of the container that runs before the change.
unfoldable pub baseline_matches :
    SystemUpdatePortDockerBaseline → SystemUpdatePortDockerSnapshot → Bool
baseline_matches baseline b =
    valid_container_id baseline.expected_container_id
    && baseline.expected_image_id == b.image_id
    && baseline.expected_repository_digest == b.repository_digest
    && baseline.expected_version_env_sha256 == b.version_env_sha256
    && matches_raw_sha256 baseline.approved_compose_config_sha256
    && baseline.approved_compose_revision == b.compose_revision

-- What a port change leaves alone.
unfoldable pub docker_fixed : SystemUpdatePortDockerSnapshot → SystemUpdatePortDockerSnapshot → Bool
docker_fixed b next =
    next.published_host_ip == b.published_host_ip
    && next.image_id == b.image_id
    && next.repository_digest == b.repository_digest
    && next.version_env_sha256 == b.version_env_sha256
    && next.compose_policy_sha256 == b.compose_policy_sha256

-- The Docker parts of B, T, R and the baseline are all there or all absent.
abbrev pub docker_consistent :
    Option SystemUpdatePortDockerBaseline
    → Option SystemUpdatePortDockerSnapshot
    → Option SystemUpdatePortDockerSnapshot
    → Option SystemUpdatePortDockerSnapshot
    → Bool
docker_consistent none none none none = true
docker_consistent (some baseline) (some b) (some t) (some r) =
    baseline_matches baseline b && docker_fixed b t && docker_fixed b r
docker_consistent _ _ _ _ = false

-- The last case does not arise: the Docker parts are consistent.
abbrev pub compose_follows :
    Option SystemUpdatePortDockerSnapshot → Option SystemUpdatePortDockerSnapshot → ℤ → Bool
compose_follows none next step = true
compose_follows (some b) (some next) step = next.compose_revision == add64 b.compose_revision step
compose_follows (some b) none step = false

-- One round of the loop over T and R; `moved` says that `advertisedDelta` is 1.
unfoldable pub step_follows :
    SystemUpdatePortSnapshotRef → Bool → ℤ → SystemUpdatePortSnapshotRef → Bool
step_follows b moved step next =
    next.source_policy_revision == add64 b.source_policy_revision step
    && next.projection_revision == add64 b.projection_revision step
    && next.executor_policy_revision == add64 b.executor_policy_revision step
    && next.config_revision == add64 b.config_revision step
    && next.endpoint_revision == add64 b.endpoint_revision (if moved then step else pos 0)
    && next.applied_endpoint_revision
      == (if moved then add64 b.endpoint_revision step else b.applied_endpoint_revision)
    && not (next.executor_policy_sha256 == b.executor_policy_sha256)
    && not (next.config_sha256 == b.config_sha256)
    && not (next.snapshot_id == b.snapshot_id)
    && compose_follows b.docker next.docker step

-- The advertised endpoint moves only where the mode says so, and its digest moves with its port.
unfoldable pub advertised_follows :
    String → Bool → SystemUpdatePortSnapshotRef → SystemUpdatePortSnapshotRef → Bool
advertised_follows mode moved b t =
    not (mode == Mode.local_only && moved)
    && not (not moved && not (t.advertised_endpoint_sha256 == b.advertised_endpoint_sha256))
    && not (moved && t.advertised_endpoint_sha256 == b.advertised_endpoint_sha256)

-- The part for a plan that is no no-op.
unfoldable pub plan_moves :
    String
    → SystemUpdatePortSnapshotRef
    → SystemUpdatePortSnapshotRef
    → SystemUpdatePortSnapshotRef
    → Bool
plan_moves mode b t r =
    let moved = not (t.advertised_port == b.advertised_port) in
    not (local_equal b t)
    && local_equal b r
    && r.advertised_port == b.advertised_port
    && r.advertised_endpoint_sha256 == b.advertised_endpoint_sha256
    && advertised_follows mode moved b t
    && step_follows b moved (pos 1) t
    && step_follows b moved (pos 2) r
    && not (t.config_sha256 == r.config_sha256)
    && not (t.executor_policy_sha256 == r.executor_policy_sha256)
    && not (t.snapshot_id == r.snapshot_id)

-- The tests on B, T and R.
unfoldable pub references_valid :
    SystemUpdatePortReconfiguration
    → SystemUpdatePortSnapshotRef
    → SystemUpdatePortSnapshotRef
    → SystemUpdatePortSnapshotRef
    → Bool
references_valid plan b t r =
    valid_snapshot_ref b
    && valid_snapshot_ref t
    && valid_snapshot_ref r
    && docker_consistent plan.docker_baseline b.docker t.docker r.docker
    && (plan_is_no_op plan || plan_moves plan.mode b t r)

abbrev pub three_valid :
    SystemUpdatePortReconfiguration
    → Option SystemUpdatePortSnapshotRef
    → Option SystemUpdatePortSnapshotRef
    → Option SystemUpdatePortSnapshotRef
    → Bool
three_valid plan (some b) (some t) (some r) = references_valid plan b t r
three_valid plan _ _ _ = false

module _ (sha : Sha256) where
  -- `ComputeSystemUpdatePortPlanSHA256`
  unfoldable pub compute_plan_sha256 : SystemUpdatePortReconfiguration → Result String
  compute_plan_sha256 plan = elim (canonical (plan_json (record plan { port_plan_sha256 = "" }))) [
    | none ↦ err system_update_port_contract
    | some body ↦ ok (trim_prefix (compute_bytes_sha256 sha body) "sha256:")
  ]

  -- `ValidateSystemUpdatePortPlan`
  unfoldable pub validate_plan : SystemUpdatePortReconfiguration → Check
  validate_plan plan = do
    require (plan_fields plan) system_update_port_contract
    require (three_valid plan plan.before plan.target plan.rollback) system_update_port_contract
    digest ← compute_plan_sha256 plan
    require (digest == plan.port_plan_sha256) system_update_port_contract
