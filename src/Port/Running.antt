-- ===== src/Port/Running.antt =====
-- The definitions that a run of the port validators computes with, for the tests' `unfolding` lines.
use autostream_contracts.Common.{beq_ℤ, leb_ℤ, ltb_ℤ, add64, wrap64, ◌+ℤ◌, ◌-ℤ◌}
use autostream_contracts.Text.{matches_raw_sha256, matches_digest, trim_prefix, valid_container_id}
use autostream_contracts.Text.Digest.{compute_bytes_sha256}
use autostream_contracts.Json.Canonical.{canonical}
use autostream_contracts.Port.Types.{docker_pointer_beq}
use autostream_contracts.Port.Snapshot.{
  valid_revision, valid_port, valid_docker_snapshot, valid_snapshot_ref, local_equal,
  valid_application_service_type, valid_deployment_mode,
}
use autostream_contracts.Port.Wire.{docker_snapshot_json, plan_json}
use autostream_contracts.Port.Plan.{
  plan_is_no_op, plan_fields, baseline_matches, docker_fixed, step_follows, advertised_follows,
  plan_moves, references_valid, compute_plan_sha256, validate_plan,
}
use autostream_contracts.Port.Result.{
  observation_verified, is_accepted_result, rollback_failed_result, expected_state, observes,
  accepted_result, validate_result,
}

unfoldable pub integers : Unit {0}
unfolding beq_ℤ leb_ℤ ltb_ℤ add64 wrap64 ◌+ℤ◌ ◌-ℤ◌
integers = tt

unfoldable pub references : Unit {0}
unfolding integers matches_digest matches_raw_sha256 trim_prefix docker_pointer_beq valid_revision
    valid_port valid_docker_snapshot valid_snapshot_ref local_equal valid_application_service_type
    valid_deployment_mode
references = tt

unfoldable pub plans : Unit {0}
unfolding references compute_bytes_sha256 canonical docker_snapshot_json plan_json plan_is_no_op
    plan_fields baseline_matches docker_fixed step_follows advertised_follows plan_moves
    references_valid compute_plan_sha256 validate_plan valid_container_id
plans = tt

unfoldable pub results : Unit {0}
unfolding plans observation_verified is_accepted_result rollback_failed_result expected_state
    observes accepted_result validate_result
results = tt
