-- ===== src/Policy/Allowed.antt =====
-- The tests of `ApplySystemUpdatePortPolicyDelta` on the two references alone, in
-- pkg/contracts/system_update_port_policy.go.
pub mod Plan
use autostream_contracts.Common.{
  Bool, not, ◌&&◌, ◌||◌, ℤ, pos, leb_ℤ, add64, sub64, ◌==◌, ℤ_eq, String_eq, Bool_eq, is_nil,
}
use autostream_contracts.Text.{matches_digest}
use autostream_contracts.Port.Types.{SystemUpdatePortSnapshotRef}
use autostream_contracts.Port.Snapshot.{valid_revision, valid_port, local_equal}

abbrev pub delta_step : SystemUpdatePortSnapshotRef → SystemUpdatePortSnapshotRef → ℤ
delta_step before after = sub64 after.source_policy_revision before.source_policy_revision

-- The tests of the references, before the loop.
unfoldable pub delta_allowed : SystemUpdatePortSnapshotRef → SystemUpdatePortSnapshotRef → Bool
delta_allowed before after =
    let step = delta_step before after in
    leb_ℤ (pos 0) step
    && leb_ℤ step (pos 2)
    && sub64 after.projection_revision before.projection_revision == step
    && sub64 after.executor_policy_revision before.executor_policy_revision == step
    && sub64 after.config_revision before.config_revision == step
    && valid_revision after.source_policy_revision
    && valid_revision after.projection_revision
    && valid_revision after.executor_policy_revision
    && valid_revision after.config_revision
    && valid_port after.local_listen_port (pos 1024)
    && valid_revision after.applied_endpoint_revision
    && matches_digest after.config_sha256
    && is_nil before.docker == is_nil after.docker
    && (after.endpoint_revision == before.endpoint_revision
        || after.endpoint_revision == add64 before.endpoint_revision step)
    && (after.applied_endpoint_revision == before.applied_endpoint_revision
        || after.applied_endpoint_revision == after.endpoint_revision)
    && not (step == pos 1 && local_equal before after)
    && not (
        step == pos 2
        && (not (after.advertised_port == before.advertised_port)
            || not (after.advertised_endpoint_sha256 == before.advertised_endpoint_sha256)))
